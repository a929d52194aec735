-- ===== src/Indexer/Scan/Accepted.antt =====
-- server/internal/indexer/indexer.go: the logs that `validateLogsAgainstCanonical` accepts.
use rwa_platform_evm.Common.{
  ℕ, ◌+◌, Bool, true, false, not, List, [], ◌∷◌, Option, none, some, if◌then◌else◌, ◌==◌, nat_eq,
  nat_beq_iff, ◌≡◌, refl, ◌⊎◌, inl, inr, In, keep, Bool-cases, ap, sym, ◌∙◌, subst,
}
use rwa_platform_evm.Common.Dict.{lookup, insert, lookup-insert, lookup-insert_self}
use rwa_platform_evm.Common.Result.{Result, ok, err}
use rwa_platform_evm.Models.Transaction.{Hash}
use rwa_platform_evm.Indexer.State.{Config, World, answered, Log, IndexError, header_at}
use rwa_platform_evm.Indexer.Scan.{Validated, cached_hash, validate_logs, check_log, accept_log}
use rwa_platform_evm.Indexer.Scan.Ranges.{Yields, and_then-Yields}

abbrev pub Cache : Type 0
Cache = List (ℕ × Hash)

-- A hash that the source answered for the block at some call.
abbrev pub Answered : Config → ℕ → Hash → Type 0
Answered c n h = (k : ℕ) × ((c.source k).header_by_number n ≡ some h)

-- The later cache keeps the earlier one, and what it adds the source answered.
abbrev pub Grows : Config → Cache → Cache → Type 0
Grows c old new =
    ((n : ℕ) (h : Hash) → lookup n old ≡ some h → lookup n new ≡ some h)
    × ((n : ℕ) (h : Hash) → lookup n new ≡ some h → (lookup n old ≡ some h) ⊎ Answered c n h)

Grows-trans : (c : Config) (x y z : Cache) → Grows c x y → Grows c y z → Grows c x z
Grows-trans c x y z (a, b) (d, e) =
    (λ n h p. d n h (a n h p), λ n h p. elim (e n h p) [ inl q ↦ b n h q | inr q ↦ inr q ])

abbrev No : World → Type 0
No _ = Unit {0}

header_at-Answered :
    (c : Config) (n : ℕ) (w : World) → Yields (λ h _. Answered c n h) No (header_at c n w)
unfolding header_at
header_at-Answered c n w = go ((c.source w.calls).header_by_number n) refl
  where
    go :
        (o : Option Hash)
        → (c.source w.calls).header_by_number n ≡ o
        → Yields (λ h _. Answered c n h) No (answered o (record w { calls = w.calls + 1 }))
    go none q = tt
    go (some h) q = (w.calls, q)

unsome : (h g : Hash) → some h ≡ some g → h ≡ g
unsome h g e = cc

Grows-insert :
    (c : Config) (n : ℕ) (h : Hash) (cache : Cache)
    → lookup n cache ≡ none
    → Answered c n h
    → Grows c cache (insert n h cache)
Grows-insert c n h cache e a = (
  λ m g p. elim (Bool-cases (n == m)) [
    | inl y ↦ let same = (nat_beq_iff n m).0 y in cc (same, e, p)
    | inr x ↦ rw (lookup-insert n m h cache, x) p
  ],
  λ m g p. elim (Bool-cases (n == m)) [
    | inl y ↦
        let same = (nat_beq_iff n m).0 y in
        let h_g : some h ≡ some g =
          sym (ap (λ b. if b then some h else lookup m cache) y)
          ∙ sym (lookup-insert n m h cache)
          ∙ p in
        inr (subst (λ k. Answered c k g) same (subst (λ x. Answered c n x) (unsome h g h_g) a))
    | inr x ↦ inl (rw (lookup-insert n m h cache, x) at p)
  ],
)

abbrev Cached : Config → ℕ → Cache → Hash × Cache → Type 0
Cached c n cache (h, cache') = (lookup n cache' ≡ some h) × Grows c cache cache'

cached_hash-Cached :
    (c : Config) (n : ℕ) (o : Option Hash) (cache : Cache) (w : World)
    → lookup n cache ≡ o
    → Yields (λ hc _. Cached c n cache hc) No (cached_hash c n o cache w)
unfolding cached_hash
cached_hash-Cached c n (some h) cache w q = (q, (λ m g p. p, λ m g p. inl p))
cached_hash-Cached c n none cache w q =
    and_then-Yields (λ h _. Answered c n h) (λ hc _. Cached c n cache hc) No (header_at c n w) _
      (header_at-Answered c n w)
      (λ h v a. (lookup-insert_self n h cache, Grows-insert c n h cache q a))

abbrev pub kept : Log → Bool
kept l = not l.is_removed

-- The logs accepted are all but the removed ones, and the cache has each one's block hash.
abbrev pub Accepts : Config → List Log → Cache → Validated → Type 0
Accepts c ls cache none = Unit
Accepts c ls cache (some (accepted, cache')) =
    (accepted ≡ keep kept ls)
    × (Grows c cache cache'
        × ((l : Log) → In l accepted → lookup l.block_number cache' ≡ some l.block_hash))

if_true : {A : Type 0} (b : Bool) (x y : A) → b ≡ true → (if b then x else y) ≡ x
if_true true x y h = refl
if_true false x y h = cc

if_false : {A : Type 0} (b : Bool) (x y : A) → b ≡ false → (if b then x else y) ≡ y
if_false true x y h = cc
if_false false x y h = refl

keep-kept : (l : Log) (ls : List Log) → l.is_removed ≡ false → keep kept (l ∷ ls) ≡ l ∷ keep kept ls
keep-kept l ls r = if_true (kept l) (l ∷ keep kept ls) (keep kept ls) (ap not r)

keep-removed : (l : Log) (ls : List Log) → l.is_removed ≡ true → keep kept (l ∷ ls) ≡ keep kept ls
keep-removed l ls r = if_false (kept l) (l ∷ keep kept ls) (keep kept ls) (ap not r)

Accepts-removed :
    (c : Config) (l : Log) (ls : List Log) (cache : Cache) (r : Result IndexError Validated × World)
    → l.is_removed ≡ true
    → Yields (λ o _. Accepts c ls cache o) No r
    → Yields (λ o _. Accepts c (l ∷ ls) cache o) No r
Accepts-removed c l ls cache (ok none, v) y a = tt
Accepts-removed c l ls cache (ok (some (accepted, cache')), v) y (same, (g, all)) =
    (same ∙ sym (keep-removed l ls y), (g, all))
Accepts-removed c l ls cache (err e, v) y a = tt

accept_log-Accepts :
    (c : Config) (l : Log) (ls : List Log) (cache cache1 : Cache) (o : Validated) (w : World)
    → l.is_removed ≡ false
    → Grows c cache cache1
    → lookup l.block_number cache1 ≡ some l.block_hash
    → Accepts c ls cache1 o
    → Yields (λ r _. Accepts c (l ∷ ls) cache r) No (accept_log l o w)
unfolding accept_log
accept_log-Accepts c l ls cache cache1 none w r g k a = tt
accept_log-Accepts c l ls cache cache1 (some (accepted, cache2)) w r g k (same, (g2, all)) = (
  ap (◌∷◌ l) same ∙ sym (keep-kept l ls r),
  (
    Grows-trans c cache cache1 cache2 g g2,
    λ x i. elim i [
      | inl e ↦
          subst (λ z. lookup z.block_number cache2 ≡ some z.block_hash) (sym e)
            (g2.0 l.block_number l.block_hash k)
      | inr j ↦ all x j
    ],
  ),
)

check_log-Accepts :
    (c : Config) (l : Log) (ls : List Log) (cache : Cache) (hc : Hash × Cache) (w : World)
    → l.is_removed ≡ false
    → Cached c l.block_number cache hc
    → ((x : Cache) (v : World) → Yields (λ r _. Accepts c ls x r) No (validate_logs c ls x v))
    → Yields (λ r _. Accepts c (l ∷ ls) cache r) No (check_log l (validate_logs c ls) hc w)
unfolding check_log
check_log-Accepts c l ls cache (h, cache1) w r (k, g) rest = elim (Bool-cases (l.block_hash == h)) [
  | inr n ↦ rw n tt
  | inl y ↦ rw y (
      and_then-Yields (λ o _. Accepts c ls cache1 o) (λ o _. Accepts c (l ∷ ls) cache o) No
        (validate_logs c ls cache1 w) _ (rest cache1 w)
        (λ o v a.
          accept_log-Accepts c l ls cache cache1 o v r g
            (k ∙ ap (λ x. some x) (sym ((nat_beq_iff l.block_hash h).0 y))) a))
]

-- Validation drops the removed logs and keeps all others, and it accepts only if each log's block hash
-- is the one that the cache has for its block: the boundary's, or what the source answered at some
-- call. One log of another fork refuses the whole chunk.
pub validate_logs-Accepts :
    (c : Config) (ls : List Log) (cache : Cache) (w : World)
    → Yields (λ r _. Accepts c ls cache r) (λ _. Unit) (validate_logs c ls cache w)
unfolding validate_logs
validate_logs-Accepts c [] cache w = (refl, ((λ n h p. p, λ n h p. inl p), λ l i. absurd i))
validate_logs-Accepts c (l ∷ ls) cache w = elim (Bool-cases l.is_removed) [
  | inl y ↦
      subst (λ r. Yields (λ o _. Accepts c (l ∷ ls) cache o) No r)
        (sym (if_true l.is_removed _ _ y))
        (Accepts-removed c l ls cache (validate_logs c ls cache w) y
          (validate_logs-Accepts c ls cache w))
  | inr n ↦
      subst (λ r. Yields (λ o _. Accepts c (l ∷ ls) cache o) No r)
        (sym (if_false l.is_removed _ _ n))
        (and_then-Yields (λ hc _. Cached c l.block_number cache hc)
          (λ r _. Accepts c (l ∷ ls) cache r) No
          (cached_hash c l.block_number (lookup l.block_number cache) cache w) _
          (cached_hash-Cached c l.block_number (lookup l.block_number cache) cache w refl)
          (λ hc v k. check_log-Accepts c l ls cache hc v n k (validate_logs-Accepts c ls)))
]
