-- ===== src/Indexer/Poll.antt =====
-- server/internal/indexer/indexer.go: `scanAndCommitChunk` and `Poll`.
pub mod Commits
pub mod Chunks
pub mod Progresses
pub mod Stops
use rwa_platform_evm.Common.{
  ℕ, zero, suc, ◌+◌, ◌-◌, ◌%◌, Bool, true, false, not, ◌&&◌, ◌||◌, List, [], ◌∷◌, Option, none,
  some, if◌then◌else◌, ◌==◌, nat_eq, ltb, leb,
}
use rwa_platform_evm.Common.Result.{Result, ok, err}
use rwa_platform_evm.Models.Transaction.{Hash}
use rwa_platform_evm.Models.ChainEvent.{IndexerCheckpoint}
use rwa_platform_evm.Indexer.State.{
  Config, World, M, ◌>>=◌, ◌>>◌, and_then, ask, answered, Log, IndexError, reconciliation_required,
  version_conflict, not_coherent, header_at, View,
}
use rwa_platform_evm.Indexer.Ancestor.{rollback}
use rwa_platform_evm.Indexer.Scan.{
  Scanned, Validated, scan_chunk, scan_fuel, validate_logs, commit_chunk,
}
use rwa_platform_evm.TxManager.Fees.{uint64_mod}

-- The block after the chunk that was committed, and the checkpoint.
abbrev pub Progress : Type 0
Progress = ℕ × IndexerCheckpoint

moved_on : ℕ → Option IndexerCheckpoint → M (Option Progress)
moved_on to none w = (ok none, w)
moved_on to (some cp) w = (ok (some ((to + 1) % uint64_mod, cp)), w)

commit_validated :
    Config
    → IndexerCheckpoint
    → ℕ
    → ℕ
    → ℕ
    → Hash
    → M (Option Progress)
    → Validated
    → M (Option Progress)
unfolding moved_on
commit_validated c cp from to current to_hash retry none w = retry w
commit_validated c cp from to current to_hash retry (some (logs, cache)) w =
    and_then (commit_chunk c cp from to current to_hash logs cache w) (moved_on to)

-- An unshrunk chunk must have the same boundary hash after the scan as before it.
boundary_checked :
    Config
    → IndexerCheckpoint
    → ℕ
    → ℕ
    → ℕ
    → Hash
    → M (Option Progress)
    → Scanned
    → Hash
    → M (Option Progress)
unfolding commit_validated
boundary_checked c cp from want_to current before retry (logs, to) after =
    if not (to == want_to) || after == before
    then (validate_logs c logs ((to, after) ∷ [])
        >>= commit_validated c cp from to current after retry)
    else retry

scanned_chunk :
    Config
    → IndexerCheckpoint
    → ℕ
    → ℕ
    → ℕ
    → Hash
    → M (Option Progress)
    → Option Scanned
    → M (Option Progress)
unfolding boundary_checked
scanned_chunk c cp from want_to current before retry none w = (ok none, w)
scanned_chunk c cp from want_to current before retry (some (logs, to)) w =
    (header_at c to >>= boundary_checked c cp from want_to current before retry (logs, to)) w

-- `left` counts the attempts that remain after this one; `none` means that the fuel of a loop
-- ran out.
unfoldable pub scan_and_commit_chunk :
    ℕ → Config → IndexerCheckpoint → ℕ → ℕ → ℕ → M (Option Progress)
unfolding scanned_chunk
scan_and_commit_chunk zero c cp from want_to current w = (err not_coherent, w)
scan_and_commit_chunk (suc left) c cp from want_to current w =
    let retry = scan_and_commit_chunk left c cp from want_to current in
    (header_at c want_to >>= λ before.
    scan_chunk (scan_fuel c from want_to) c 1 from want_to
    >>= scanned_chunk c cp from want_to current before retry)
      w

-- At least one attempt is made.
abbrev pub attempt_limit : Config → ℕ
attempt_limit c = if ltb c.max_range_retries 1 then 1 else c.max_range_retries

abbrev pub chunk_end : Config → ℕ → ℕ → ℕ
chunk_end c from current =
    let bound = (from + c.max_log_range + uint64_mod - 1) % uint64_mod in
    if ltb 0 c.max_log_range && ltb bound current then bound else current

after_chunk :
    (IndexerCheckpoint → ℕ → M (Option IndexerCheckpoint))
    → Option Progress
    → M (Option IndexerCheckpoint)
after_chunk go none w = (ok none, w)
after_chunk go (some (from, cp)) w = go cp from w

-- The loop of `Poll`; `none`: the fuel ran out.
unfoldable pub scan_loop : ℕ → Config → IndexerCheckpoint → ℕ → ℕ → M (Option IndexerCheckpoint)
unfolding after_chunk
scan_loop zero c cp from current w = (ok none, w)
scan_loop (suc fuel) c cp from current w =
    let go = λ (cp' : IndexerCheckpoint) (next : ℕ). scan_loop fuel c cp' next current in
    if leb from current
    then (scan_and_commit_chunk (attempt_limit c) c cp from (chunk_end c from current) current
          >>= after_chunk go)
        w
    else (ok (some cp), w)

-- The fuel that the callers give.
abbrev pub loop_fuel : ℕ → ℕ → ℕ
loop_fuel from current = current + 2 - from

-- A checkpoint whose block the chain no longer has is rolled back.
compare_hash : Config → IndexerCheckpoint → Hash → Hash → M IndexerCheckpoint
compare_hash c cp stored h w = if h == stored then (ok cp, w) else rollback c cp cp.last_block w

reconcile_with : Config → IndexerCheckpoint → ℕ → Option Hash → M IndexerCheckpoint
unfolding compare_hash
reconcile_with c cp current none w = (ok cp, w)
reconcile_with c cp current (some stored) w =
    if ltb 0 cp.last_block
    then (if ltb current cp.last_block
        then rollback c cp current w
        else (header_at c cp.last_block >>= compare_hash c cp stored) w)
    else (ok cp, w)

unfoldable pub reconcile : Config → IndexerCheckpoint → ℕ → M IndexerCheckpoint
unfolding reconcile_with
reconcile c cp current w = reconcile_with c cp current cp.last_block_hash w

scan_from : Config → IndexerCheckpoint → ℕ → ℕ → M (Option IndexerCheckpoint)
scan_from c cp from current =
    let first = if ltb current from then current else from in
    scan_loop (loop_fuel first current) c cp first current

scan_on : Config → ℕ → IndexerCheckpoint → M (Option IndexerCheckpoint)
unfolding scan_from
scan_on c current cp w =
    if leb current cp.last_block
    then (ok (some cp), w)
    else scan_from c cp ((cp.last_block + 1) % uint64_mod) current w

-- What `loadCheckpoint` gives where none is stored.
abbrev pub absent_checkpoint : Config → IndexerCheckpoint
absent_checkpoint c = record {
  last_block = c.start_block;
  last_block_hash = none;
  updated_at = 0;
  reconciliation_required = false;
  version = 0;
}

unfoldable pub poll_from : Config → Option IndexerCheckpoint → M (Option IndexerCheckpoint)
unfolding scan_from scan_on
poll_from c none w =
    (ask c (λ v. v.block_number)
        >>= answered
        >>= (λ current. scan_from c (absent_checkpoint c) c.start_block current))
      w
poll_from c (some cp) w =
    if cp.reconciliation_required
    then (err reconciliation_required, w)
    else (ask c (λ v. v.block_number) >>= answered >>= λ current.
          reconcile c cp current >>= scan_on c current)
        w

-- A lost race for the checkpoint is a clean stop.
clean_stop :
    Result IndexError (Option IndexerCheckpoint) × World
    → Result IndexError (Option (Unit {0})) × World
clean_stop (ok none, w) = (ok none, w)
clean_stop (ok (some _), w) = (ok (some tt), w)
clean_stop (err version_conflict, w) = (ok (some tt), w)
clean_stop (err e, w) = (err e, w)

-- `none` means that the fuel of a loop ran out.
unfoldable pub poll : Config → M (Option (Unit {0}))
unfolding clean_stop
poll c w = clean_stop (poll_from c w.store.checkpoint w)
