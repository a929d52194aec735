-- ===== src/Indexer/Poll/Stops.antt =====
-- server/internal/indexer/indexer.go: every call of `Poll` ends.
use rwa_platform_evm.Common.{
  ℕ, ◌+◌, ◌≤◌, ◌<◌, ◌%◌, Bool, true, false, Option, none, some, if◌then◌else◌, ltb, leb, ◌≡◌, ◌≢◌,
  refl, arith,
}
use rwa_platform_evm.Common.Result.{Result, ok, err}
use rwa_platform_evm.Models.ChainEvent.{IndexerCheckpoint}
use rwa_platform_evm.Store.Chain.{ChainStore}
use rwa_platform_evm.TxManager.Fees.{uint64_mod}
use rwa_platform_evm.Indexer.State.{
  Config, World, answered, IndexError, version_conflict, reconciliation_required,
}
use rwa_platform_evm.Indexer.Scan.Ranges.{Yields, and_then-Yields}
use rwa_platform_evm.Indexer.Poll.Progresses.{Finished, Interrupted, scan_loop-Ends}
use rwa_platform_evm.Indexer.Poll.{
  scan_loop, loop_fuel, scan_from, scan_on, reconcile, poll_from, clean_stop, poll,
  absent_checkpoint,
}

abbrev No : World → Type 0
No _ = Unit {0}

abbrev Answers : Option IndexerCheckpoint → World → Type 0
Answers o _ = o ≢ none

-- A head below the largest `uint64` whose sum with the range limit does not pass 2^64.
abbrev pub IsSmallHead : Config → ℕ → Type 0
IsSmallHead c n = (n + 1 < uint64_mod) × (n + c.max_log_range ≤ uint64_mod)

module _ (c : Config) where
  Finished-Answers :
      (from current : ℕ) (cp : IndexerCheckpoint) (s : ChainStore)
      (r : Result IndexError (Option IndexerCheckpoint) × World)
      → Yields (Finished c from current cp s) (Interrupted c from current cp s) r
      → Yields Answers No r
  Finished-Answers from current cp s (ok none, v) h = absurd h
  Finished-Answers from current cp s (ok (some x), v) h = λ e. cc
  Finished-Answers from current cp s (err e, v) h = tt

  scan_from-Answers :
      (cp : IndexerCheckpoint) (from current : ℕ) (w : World)
      → IsSmallHead c current
      → Yields Answers No (scan_from c cp from current w)
  unfolding scan_from
  scan_from-Answers cp from current w h =
      let first = if ltb current from then current else from in
      Finished-Answers first current cp w.store
        (scan_loop (loop_fuel first current) c cp first current w)
        (scan_loop-Ends (loop_fuel first current) c cp first current w h.0 h.1 (ground arith))

  if-Answers :
      (b : Bool) (x y : Result IndexError (Option IndexerCheckpoint) × World)
      → Yields Answers No x
      → Yields Answers No y
      → Yields Answers No (if b then x else y)
  if-Answers true x y p q = p
  if-Answers false x y p q = q

  scan_on-Answers :
      (current : ℕ) (cp : IndexerCheckpoint) (w : World)
      → IsSmallHead c current
      → Yields Answers No (scan_on c current cp w)
  unfolding scan_on
  scan_on-Answers current cp w h =
      if-Answers (leb current cp.last_block) (ok (some cp), w) _ (λ e. cc)
        (scan_from-Answers cp ((cp.last_block + 1) % uint64_mod) current w h)

  any_result : {A : Type 0} (r : Result IndexError A × World) → Yields (λ _ _. Unit {0}) No r
  any_result (ok a, w) = tt
  any_result (err e, w) = tt

  abbrev HasSmallHeads : Type 0
  HasSmallHeads = (k n : ℕ) → (c.source k).block_number ≡ some n → IsSmallHead c n

  head-lem :
      HasSmallHeads
      → (w : World)
      → Yields
          (λ n _. IsSmallHead c n)
          No
          (answered ((c.source w.calls).block_number) (record w { calls = w.calls + 1 }))
  head-lem small w = go ((c.source w.calls).block_number) refl
    where
      go :
          (o : Option ℕ)
          → (c.source w.calls).block_number ≡ o
          → Yields (λ n _. IsSmallHead c n) No (answered o (record w { calls = w.calls + 1 }))
      go none q = tt
      go (some n) q = small w.calls n q

  poll_from-Answers :
      HasSmallHeads
      → (o : Option IndexerCheckpoint) (w : World) → Yields Answers No (poll_from c o w)
  unfolding poll_from
  poll_from-Answers small none w =
      and_then-Yields (λ n _. IsSmallHead c n) Answers No
        (answered ((c.source w.calls).block_number) (record w { calls = w.calls + 1 })) _
        (head-lem small w) (λ n v h. scan_from-Answers (absent_checkpoint c) c.start_block n v h)
  poll_from-Answers small (some cp) w =
      if-Answers cp.reconciliation_required (err reconciliation_required, w) _ tt
        (and_then-Yields (λ n _. IsSmallHead c n) Answers No
          (answered ((c.source w.calls).block_number) (record w { calls = w.calls + 1 })) _
          (head-lem small w)
          (λ n v h.
            and_then-Yields (λ _ _. Unit {0}) Answers No (reconcile c cp n v) _
              (any_result (reconcile c cp n v)) (λ cp' u _. scan_on-Answers n cp' u h)))

-- A poll ends in success or in an error other than a lost race.
abbrev pub Stops : Result IndexError (Option (Unit {0})) × World → Type 0
Stops (r, w) = (r ≢ ok none) × (r ≢ err version_conflict)

clean_stop-Stops :
    (r : Result IndexError (Option IndexerCheckpoint) × World)
    → Yields Answers No r
    → Stops (clean_stop r)
unfolding clean_stop
clean_stop-Stops (ok none, w) h = absurd (h refl)
clean_stop-Stops (ok (some x), w) h = (λ e. cc, λ e. cc)
clean_stop-Stops (err version_conflict, w) h = (λ e. cc, λ e. cc)
clean_stop-Stops (err IndexError.rpc_failed, w) h = (λ e. cc, λ e. cc)
clean_stop-Stops (err reconciliation_required, w) h = (λ e. cc, λ e. cc)
clean_stop-Stops (err IndexError.not_coherent, w) h = (λ e. cc, λ e. cc)
clean_stop-Stops (err IndexError.logs_failed, w) h = (λ e. cc, λ e. cc)
clean_stop-Stops (err IndexError.decode_failed, w) h = (λ e. cc, λ e. cc)
clean_stop-Stops (err IndexError.no_dead_letters, w) h = (λ e. cc, λ e. cc)
clean_stop-Stops (err IndexError.unknown_entry, w) h = (λ e. cc, λ e. cc)
clean_stop-Stops (err IndexError.unreadable_entry, w) h = (λ e. cc, λ e. cc)

-- `Poll` always ends, with success or with an error, for heads below the largest `uint64` whose sum
-- with the range limit does not pass 2^64: the fuel of its loops is enough whatever the chain answers. A lost race for the checkpoint is
-- never reported as an error.
pub poll-Stops :
    (c : Config) (w : World)
    → ((k n : ℕ) → (c.source k).block_number ≡ some n → IsSmallHead c n)
    → Stops (poll c w)
unfolding poll
poll-Stops c w small =
    clean_stop-Stops (poll_from c w.store.checkpoint w)
      (poll_from-Answers c small w.store.checkpoint w)
