-- ===== src/Indexer/Scan/Ranges.antt =====
-- server/internal/indexer/indexer.go: the ranges that `scanChunk` asks for, and what the parts of a
-- chunk's scan leave alone.
use rwa_platform_evm.Common.{
  ℕ, zero, suc, ◌+◌, ◌-◌, ◌≤◌, ◌<◌, Bool, true, false, ◌&&◌, List, [], ◌∷◌, Option, none, some,
  String, if◌then◌else◌, ◌==◌, nat_eq, ltb, leb, ◌≡◌, refl, arith, Bool-cases, inl, inr, subst,
}
use rwa_platform_evm.Common.Dict.{lookup}
use rwa_platform_evm.Common.Result.{Result, ok, err}
use rwa_platform_evm.Models.Transaction.{Hash}
use rwa_platform_evm.Models.ChainEvent.{ChainEvent, Value}
use rwa_platform_evm.Store.Chain.{ChainStore, exists}
use rwa_platform_evm.Store.DeadLetters.{record_entry}
use rwa_platform_evm.Indexer.DeadLetters.{dead_letter_of}
use rwa_platform_evm.Indexer.State.{
  Config, World, M, and_then, answered, Log, LogError, IndexError, header_at, decode_failed,
}
use rwa_platform_evm.Indexer.Scan.{
  Scanned, Validated, shrinks, halved, give_logs, take_logs, scan_chunk, cached_hash, validate_logs,
  check_log, accept_log, prepare_events, prepare_log, handle_decode_failure, add_event, log_key,
}

-- What holds of a call's value and the state it leaves, and of the state where it fails.
abbrev pub Yields :
    {A : Type 0} → (A → World → Type 0) → (World → Type 0) → Result IndexError A × World → Type 0
Yields Q E (ok a, w) = Q a w
Yields Q E (err e, w) = E w

pub and_then-Yields :
    {A : Type 0} {B : Type 0} (Q : A → World → Type 0) (R : B → World → Type 0) (E : World → Type 0)
    (r : Result IndexError A × World) (f : A → M B)
    → Yields Q E r
    → ((a : A) (w : World) → Q a w → Yields R E (f a w))
    → Yields R E (and_then r f)
and_then-Yields Q R E (ok a, w) f q k = k a w q
and_then-Yields Q R E (err e, w) f q k = q

-- The logs are those that the provider gave at some call for the range from `from` to the bound
-- returned.
abbrev pub InRange : Config → ℕ → ℕ → ChainStore → Option Scanned → World → Type 0
InRange c from to s none v = ⊥
InRange c from to s (some (logs, bound)) v =
    (v.store ≡ s)
    × ((from ≤ bound)
        × ((bound ≤ to) × ((n : ℕ) × ((c.source n).filter_logs from bound ≡ ok logs))))

abbrev Unchanged : ChainStore → World → Type 0
Unchanged s v = v.store ≡ s

-- A wider target range is no obstacle.
InRange-widen :
    (c : Config) (from to wide : ℕ) (s : ChainStore)
    (r : Result IndexError (Option Scanned) × World)
    → to ≤ wide
    → Yields (InRange c from to s) (Unchanged s) r
    → Yields (InRange c from wide s) (Unchanged s) r
InRange-widen c from to wide s (ok none, v) h y = y
InRange-widen c from to wide s (ok (some (logs, b)), v) h (e, (l, (u, p))) =
    (e, (l, (ground arith, p)))
InRange-widen c from to wide s (err e, v) h y = y

halved-range :
    (from to : ℕ) → ltb from to ≡ true → (from ≤ halved from to) × (suc (halved from to) ≤ to)
halved-range from to h = ground arith

and-right : (a b : Bool) → a && b ≡ true → b ≡ true
and-right a b h = ground arith

abbrev Within : Config → ℕ → ℕ → ChainStore → Result IndexError (Option Scanned) × World → Type 0
Within c from to s r = Yields (InRange c from to s) (Unchanged s) r

take_logs-Within :
    (c : Config) (attempt from to n fuel : ℕ) (shrunk again : M (Option Scanned)) (w : World)
    (answer : Result LogError (List Log))
    → (c.source n).filter_logs from to ≡ answer
    → from ≤ to
    → to - from + (c.max_range_retries - attempt) < suc fuel
    → (halved from to - from + (c.max_range_retries - (attempt + 1)) < fuel
        → from ≤ halved from to
        → Within c from (halved from to) w.store (shrunk w))
    → (to - from + (c.max_range_retries - (attempt + 1)) < fuel
        → Within c from to w.store (again w))
    → Within c from to w.store (take_logs c attempt from to shrunk again answer w)
unfolding take_logs give_logs
take_logs-Within c attempt from to n fuel shrunk again w (ok logs) q h f hs ha =
    (refl, (h, (ground arith, (n, q))))
take_logs-Within c attempt from to n fuel shrunk again w (err e) q h f hs ha =
    elim (Bool-cases (shrinks e && ltb from to)) [
      | inl y ↦
          let l = halved-range from to (and-right (shrinks e) (ltb from to) y) in
          rw y (
            InRange-widen c from (halved from to) to w.store (shrunk w) (ground arith)
              (hs (ground arith) l.0))
      | inr x ↦ elim (Bool-cases (leb c.max_range_retries attempt)) [
        | inl t ↦ rw (x, t) refl
        | inr u ↦ rw (x, u) (ha (ground arith))
      ]
    ]

-- With enough fuel the scan of a range that is not empty ends; where it succeeds, the logs are those the provider gave at some call
-- for the range from `from` to the bound it returns, which lies between `from` and `to`; and the stores
-- are as before in every case.
pub scan_chunk-InRange :
    (fuel : ℕ) (c : Config) (attempt from to : ℕ) (w : World)
    → from ≤ to
    → to - from + (c.max_range_retries - attempt) < fuel
    → Yields
        (InRange c from to w.store)
        (λ v. v.store ≡ w.store)
        (scan_chunk fuel c attempt from to w)
unfolding scan_chunk
scan_chunk-InRange zero c attempt from to w h f = ground arith
scan_chunk-InRange (suc fuel) c attempt from to w h f =
    let v = record w { calls = w.calls + 1 } in
    take_logs-Within c attempt from to w.calls fuel
      (scan_chunk fuel c (attempt + 1) from (halved from to))
      (scan_chunk fuel c (attempt + 1) from to) v ((c.source w.calls).filter_logs from to) refl h f
      (λ f' l. scan_chunk-InRange fuel c (attempt + 1) from (halved from to) v l f')
      (λ f'. scan_chunk-InRange fuel c (attempt + 1) from to v h f')

-- The stores are as before.
abbrev pub Quiet : {A : Type 0} → ChainStore → Result IndexError A × World → Type 0
Quiet s r = Yields (λ _ v. v.store ≡ s) (λ v. v.store ≡ s) r

pub header_at-Quiet : (c : Config) (n : ℕ) (w : World) → Quiet w.store (header_at c n w)
unfolding header_at
header_at-Quiet c n w = go ((c.source w.calls).header_by_number n)
  where
    go : (o : Option Hash) → Quiet w.store (answered o (record w { calls = w.calls + 1 }))
    go none = refl
    go (some h) = refl

pub and_then-Quiet :
    {A : Type 0} {B : Type 0} (s : ChainStore) (r : Result IndexError A × World) (f : A → M B)
    → Quiet s r
    → ((a : A) (w : World) → w.store ≡ s → Quiet s (f a w))
    → Quiet s (and_then r f)
and_then-Quiet s (ok a, w) f q k = k a w q
and_then-Quiet s (err e, w) f q k = q

if-Quiet :
    {A : Type 0} (s : ChainStore) (b : Bool) (x y : Result IndexError A × World)
    → Quiet s x
    → Quiet s y
    → Quiet s (if b then x else y)
if-Quiet s true x y p q = p
if-Quiet s false x y p q = q

-- A call that leaves the stores alone, wherever it starts.
abbrev IsQuiet : {A : Type 0} → M A → Type 0
IsQuiet m = (w : World) → Quiet w.store (m w)

at_store :
    {A : Type 0} (m : M A) (s : ChainStore) (w : World) → IsQuiet m → w.store ≡ s → Quiet s (m w)
at_store m s w q e = subst (λ t. Quiet t (m w)) e (q w)

accept_log-Quiet :
    (l : Log) (o : Validated) (s : ChainStore) (w : World)
    → w.store ≡ s
    → Quiet s (accept_log l o w)
unfolding accept_log
accept_log-Quiet l none s w e = e
accept_log-Quiet l (some (ls, cache)) s w e = e

check_log-Quiet :
    (l : Log) (next : List (ℕ × Hash) → M Validated) (hc : Hash × List (ℕ × Hash))
    → ((cache : List (ℕ × Hash)) → IsQuiet (next cache))
    → IsQuiet (check_log l next hc)
unfolding check_log
check_log-Quiet l next (h, cache) q w =
    if-Quiet w.store (l.block_hash == h) _ _
      (and_then-Quiet w.store (next cache w) _ (q cache w)
        (λ o v e. accept_log-Quiet l o w.store v e))
      refl

prepare_log-Quiet :
    (c : Config) (l : Log) (rest : M (List ChainEvent))
    (o : Option (String × List (String × Value)))
    → IsQuiet rest
    → IsQuiet (prepare_log c l rest o)
unfolding prepare_log handle_decode_failure add_event
prepare_log-Quiet c l rest none q w =
    and_then-Quiet w.store (handle_decode_failure c l w) _
      (if-Quiet w.store c.has_dead_letters
        (ok tt, record w { dead_letters = record_entry (dead_letter_of c l) w.dead_letters })
        (err decode_failed, w) refl refl)
      (λ _ v e. at_store rest w.store v q e)
prepare_log-Quiet c l rest (some nf) q w = and_then-Quiet w.store (rest w) _ (q w) (λ es v e. e)

module _ (c : Config) where
  pub cached_hash-Quiet :
      (n : ℕ) (o : Option Hash) (cache : List (ℕ × Hash)) (w : World)
      → Quiet w.store (cached_hash c n o cache w)
  unfolding cached_hash
  cached_hash-Quiet n none cache w =
      and_then-Quiet w.store (header_at c n w) _ (header_at-Quiet c n w) (λ h v e. e)
  cached_hash-Quiet n (some h) cache w = refl

  pub validate_logs-Quiet :
      (ls : List Log) (cache : List (ℕ × Hash)) (w : World)
      → Quiet w.store (validate_logs c ls cache w)
  unfolding validate_logs check_log accept_log
  validate_logs-Quiet [] cache w = refl
  validate_logs-Quiet (l ∷ ls) cache w =
      if-Quiet w.store l.is_removed _ _ (validate_logs-Quiet ls cache w) (
        and_then-Quiet w.store (cached_hash c l.block_number (lookup l.block_number cache) cache w)
          _ (cached_hash-Quiet l.block_number (lookup l.block_number cache) cache w)
          (λ hc v e.
            at_store (check_log l (validate_logs c ls) hc) w.store v
              (check_log-Quiet l (validate_logs c ls) hc (validate_logs-Quiet ls)) e))

  pub prepare_events-Quiet : (ls : List Log) (w : World) → Quiet w.store (prepare_events c ls w)
  unfolding prepare_events prepare_log handle_decode_failure add_event
  prepare_events-Quiet [] w = refl
  prepare_events-Quiet (l ∷ ls) w =
      if-Quiet w.store (exists (log_key c l) w.store.events) _ _ (prepare_events-Quiet ls w)
        (prepare_log-Quiet c l (prepare_events c ls) (c.decode l) (prepare_events-Quiet ls) w)
