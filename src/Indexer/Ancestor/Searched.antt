-- ===== src/Indexer/Ancestor/Searched.antt =====
-- server/internal/indexer/indexer.go: the search through the history of block hashes.
use rwa_platform_evm.Common.{
  ℕ, zero, suc, ◌≤◌, ◌<◌, false, List, Option, none, some, ◌==◌, nat_eq, ltb, ltb→lt, ◌≡◌, ◌≢◌,
  refl, inl, inr, ◌∙◌, ap, sym, subst, arith, Bool-cases, nat_beq_iff,
}
use native.Mathlib.Decide.{dec_lt}
use rwa_platform_evm.Common.Dict.{lookup}
use rwa_platform_evm.Common.Result.{Result, ok, err}
use rwa_platform_evm.Models.Transaction.{Hash}
use rwa_platform_evm.Indexer.State.{Config, World, and_then, IndexError, header_at}
use rwa_platform_evm.Indexer.Ancestor.{Baseline, search_ancestor, matches, found_or}

-- The chain had this hash at the block when some call asked for it.
abbrev pub Answered : Config → ℕ → Hash → Type 0
Answered c k h = (i : ℕ) × ((c.source i).header_by_number k ≡ some h)

-- Each retained block above `lo` up to `hi` was looked up, and the chain had another hash there.
abbrev pub Mismatched : Config → List (ℕ × Hash) → ℕ → ℕ → Type 0
Mismatched c hashes lo hi =
    (k : ℕ) (stored : Hash)
    → lo < k
    → k ≤ hi
    → lookup k hashes ≡ some stored
    → (h : Hash) × Answered c k h × (h ≢ stored)

abbrev pub Searched :
    Config → List (ℕ × Hash) → ℕ → ℕ → Result IndexError (Option Baseline) → Type 0
Searched c hashes floor n (err e) = Unit
Searched c hashes floor n (ok none) = Mismatched c hashes floor n
Searched c hashes floor n (ok (some (k, none))) = ⊥
Searched c hashes floor n (ok (some (k, some h))) =
    (floor < k) × (k ≤ n) × (lookup k hashes ≡ some h) × Answered c k h × Mismatched c hashes k n

abbrev pub SearchedAt :
    Config → ℕ → ℕ → World → Result IndexError (Option Baseline) × World → Type 0
SearchedAt c floor n w out = (out.1.store ≡ w.store) × Searched c w.store.hashes floor n out.0

pub header_at-lem :
    (c : Config) (k : ℕ) (w : World)
    → let out = header_at c k w in
      (out.1.store ≡ w.store) × ((h : Hash) → out.0 ≡ ok h → Answered c k h)
unfolding header_at
header_at-lem c k w = go ((c.source w.calls).header_by_number k) refl
  where
    go :
        (o : Option Hash)
        → (c.source w.calls).header_by_number k ≡ o
        → ((header_at c k w).1.store ≡ w.store)
          × ((h : Hash) → (header_at c k w).0 ≡ ok h → Answered c k h)
    go none e = rw (e, header_at) (refl, λ h q. cc)
    go (some x) e = rw (e, header_at) (refl, λ h q. (w.calls, e ∙ same x h q))
      where
        same : (a b : Hash) → ◌≡◌ {A = Result IndexError Hash} (ok a) (ok b) → some a ≡ some b
        same a b q = cc

-- The block was looked up in vain.
abbrev pub MismatchedAt : Config → List (ℕ × Hash) → ℕ → Type 0
MismatchedAt c hashes k =
    (stored : Hash) → lookup k hashes ≡ some stored → (h : Hash) × Answered c k h × (h ≢ stored)

pub Mismatched-suc :
    (c : Config) (hashes : List (ℕ × Hash)) (lo n : ℕ)
    → MismatchedAt c hashes (suc n)
    → Mismatched c hashes lo n
    → Mismatched c hashes lo (suc n)
Mismatched-suc c hashes lo n top rest k stored above below found = elim (dec_lt n k) [
  | yes p ↦
      let same : k ≡ suc n = omega arith in
      let (h, (i, answer), other) = top stored (ap (λ j. lookup j hashes) (sym same) ∙ found) in
      (h, (i, ap (c.source i).header_by_number same ∙ answer), other)
  | no p ↦ rest k stored above (omega arith) found
]

pub extend :
    (c : Config) (floor n : ℕ) (hashes : List (ℕ × Hash))
    → MismatchedAt c hashes (suc n)
    → (r : Result IndexError (Option Baseline)) → Searched c hashes floor n r
    → Searched c hashes floor (suc n) r
extend c floor n hashes top (err e) s = tt
extend c floor n hashes top (ok none) s = Mismatched-suc c hashes floor n top s
extend c floor n hashes top (ok (some (k, none))) s = s
extend c floor n hashes top (ok (some (k, some h))) (above, below, stored, now, missed) =
    (above, omega arith, stored, now, Mismatched-suc c hashes k n top missed)

pub none_above :
    (c : Config) (hashes : List (ℕ × Hash)) (lo hi : ℕ) → hi ≤ lo → Mismatched c hashes lo hi
none_above c hashes lo hi h k stored above below found = absurd (omega arith)

pub other_hash : (h stored s : Hash) → some stored ≡ some s → (h == stored) ≡ false → h ≢ s
other_hash h stored s e miss q = ground arith

pub search_ancestor-lem :
    (c : Config) (floor n : ℕ) (w : World) → SearchedAt c floor n w (search_ancestor c floor n w)
unfolding search_ancestor
search_ancestor-lem c floor zero w = (refl, none_above c w.store.hashes floor 0 (omega arith))
search_ancestor-lem c floor (suc n) w = elim (Bool-cases (ltb floor (suc n))) [
  | inr over ↦ rw over (refl, none_above c w.store.hashes floor (suc n) (ground (arith, over)))
  | inl under ↦ rw under (
      at_stored (lookup (suc n) w.store.hashes) refl (ltb→lt floor (suc n) under)
        (λ v. search_ancestor-lem c floor n v))
]
  where
    passed :
        (v : World)
        → v.store ≡ w.store
        → MismatchedAt c w.store.hashes (suc n)
        → SearchedAt c floor n v (search_ancestor c floor n v)
        → SearchedAt c floor (suc n) w (search_ancestor c floor n v)
    passed v same top (kept, s) = (
      kept ∙ same,
      extend c floor n w.store.hashes top _
          (subst (λ st. Searched c st.hashes floor n (search_ancestor c floor n v).0) same s),
    )

    compared :
        (stored : Hash) (v : World)
        → lookup (suc n) w.store.hashes ≡ some stored
        → floor < suc n
        → (out : Result IndexError Hash × World)
        → (out.1.store ≡ w.store) × ((h : Hash) → out.0 ≡ ok h → Answered c (suc n) h)
        → ((v : World) → SearchedAt c floor n v (search_ancestor c floor n v))
        → SearchedAt c floor (suc n) w (
            and_then
              (and_then out (λ h v'. (ok (h == stored), v')))
              (found_or (suc n) (some stored) (search_ancestor c floor n)))
    compared stored v at above (err e, u) (kept, asked) rest = (kept, tt)
    compared stored v at above (ok h, u) (kept, asked) rest = elim (Bool-cases (h == stored)) [
      | inl hit ↦
          let same : h ≡ stored = (nat_beq_iff h stored).0 hit in
          let (i, answer) = asked h refl in
          rw (hit, found_or)
            (
              kept,
              (
                above,
                omega arith,
                at,
                (i, answer ∙ ap some same),
                none_above c w.store.hashes (suc n) (suc n) (omega arith),
              ),
            )
      | inr miss ↦
          rw (miss, found_or)
            (passed u kept (λ s' e. (h, asked h refl, other_hash h stored s' (sym at ∙ e) miss))
              (rest u))
    ]

    at_stored :
        (o : Option Hash)
        → lookup (suc n) w.store.hashes ≡ o
        → floor < suc n
        → ((v : World) → SearchedAt c floor n v (search_ancestor c floor n v))
        → SearchedAt c floor
            (suc n)
            w
            (and_then (matches c (suc n) o w) (found_or (suc n) o (search_ancestor c floor n)))
    at_stored none e above rest =
        passed w refl (λ s' e'. absurd (none_some s' (sym e ∙ e'))) (rest w)
      where
        none_some : (x : Hash) → ◌≡◌ {A = Option Hash} none (some x) → ⊥
        none_some x q = cc
    at_stored (some stored) e above rest =
        compared stored w e above (header_at c (suc n) w) (header_at-lem c (suc n) w) rest
