-- ===== src/Indexer/Ancestor.antt =====
-- server/internal/indexer/indexer.go: `findCommonAncestor`, `rollback`, `rewind` and the trusted reset.
pub mod Searched
pub mod Search
pub mod Rewinds
use rwa_platform_evm.TxManager.Fees.{uint64_mod}
use rwa_platform_evm.Common.{
  ℕ, zero, suc, ◌+◌, ◌%◌, ◌-◌, Bool, true, false, List, Option, none, some, if◌then◌else◌, ◌==◌,
  nat_eq, ltb, leb,
}
use rwa_platform_evm.Common.Dict.{lookup}
use rwa_platform_evm.Common.Result.{Result, ok, err}
use rwa_platform_evm.Models.Transaction.{Hash}
use rwa_platform_evm.Models.ChainEvent.{IndexerCheckpoint}
use rwa_platform_evm.Store.Chain.{ChainStore, rewind_chunk, version_of}
use rwa_platform_evm.Indexer.State.{
  Config, World, M, ◌>>=◌, ◌>>◌, and_then, IndexError, reconciliation_required, version_conflict,
  header_at,
}

-- A block to go back to, with its hash; none at genesis.
abbrev pub Baseline : Type 0
Baseline = ℕ × Option Hash

abbrev with_hash : ℕ → Hash → M Baseline
with_hash n h w = (ok (n, some h), w)

-- The header of a block; block 0 has none to compare.
unfoldable pub baseline_at : Config → ℕ → M Baseline
baseline_at c zero w = (ok (0, none), w)
baseline_at c (suc n) w = (header_at c (suc n) >>= with_hash (suc n)) w

unfoldable pub rollback_to_fixed_window : Config → ℕ → M Baseline
rollback_to_fixed_window c search_from =
    let back = if ltb c.rollback_window search_from then search_from - c.rollback_window else 0 in
    baseline_at c (if ltb back c.start_block then c.start_block else back)

abbrev pub depth_floor : Config → IndexerCheckpoint → ℕ
depth_floor c cp =
    if ltb c.max_auto_reorg_depth cp.last_block then cp.last_block - c.max_auto_reorg_depth else 0

abbrev pub policy_floor : Config → IndexerCheckpoint → ℕ
policy_floor c cp = if ltb (depth_floor c cp) c.start_block then c.start_block else depth_floor c cp

-- Whether the chain still has the retained hash; a block with none retained is passed over.
matches : Config → ℕ → Option Hash → M Bool
matches c n none w = (ok false, w)
matches c n (some stored) w = (header_at c n >>= λ h v. (ok (h == stored), v)) w

found_or : ℕ → Option Hash → M (Option Baseline) → Bool → M (Option Baseline)
found_or n stored next true w = (ok (some (n, stored)), w)
found_or n stored next false w = next w

-- The loop from `candidate` down to the block above the floor.
unfoldable pub search_ancestor : Config → ℕ → ℕ → M (Option Baseline)
unfolding matches found_or
search_ancestor c floor zero w = (ok none, w)
search_ancestor c floor (suc n) w =
    let rest = search_ancestor c floor n in
    if ltb floor (suc n)
    then (let stored = lookup (suc n) w.store.hashes in
        (matches c (suc n) stored >>= found_or (suc n) stored rest) w)
    else (ok none, w)

abbrev lower : ℕ → ℕ → ℕ
lower a b = if ltb b a then b else a

-- No ancestor within policy: rebuild from the trusted start, or ask for an operator.
without_ancestor : Config → IndexerCheckpoint → ℕ → Option Baseline → M Baseline
without_ancestor c cp search_from (some b) w = (ok b, w)
without_ancestor c cp search_from none w =
    if leb (depth_floor c cp) c.start_block
    then baseline_at c (lower (policy_floor c cp) search_from) w
    else (err reconciliation_required, w)

find_by_history : Config → IndexerCheckpoint → ℕ → M Baseline
unfolding without_ancestor
find_by_history c cp search_from =
    search_ancestor c (policy_floor c cp) search_from >>= without_ancestor c cp search_from

find_with : Bool → Config → IndexerCheckpoint → ℕ → M Baseline
unfolding find_by_history
find_with true c cp search_from = find_by_history c cp search_from
find_with false c cp search_from = rollback_to_fixed_window c search_from

unfoldable pub find_common_ancestor : Config → IndexerCheckpoint → ℕ → M Baseline
unfolding find_with
find_common_ancestor c cp search_from = find_with c.has_block_hashes c cp search_from

abbrev checkpoint_at : Config → Baseline → IndexerCheckpoint
checkpoint_at c (n, h) = record {
  last_block = n;
  last_block_hash = h;
  updated_at = c.now;
  reconciliation_required = false;
  version = 0;
}

unfoldable pub rewind : Config → ℕ → IndexerCheckpoint → ℕ → M IndexerCheckpoint
rewind c expected cp from w =
    let (done, store) = rewind_chunk c.chain_id c.addresses from cp expected w.store in
    if done
    then (ok (record cp { version = expected + 1 }), record w { store = store })
    else (err version_conflict, w)

-- A fork that no ancestor resolves flags the stored checkpoint, and keeps the events.
flagged : Config → IndexerCheckpoint → IndexError → World → World
flagged c cp reconciliation_required w = record w {
  store = record w.store {
    checkpoint = some (record cp { reconciliation_required = true; updated_at = c.now });
  };
}
flagged c cp _ w = w

rewind_to :
    Config
    → IndexerCheckpoint
    → Result IndexError Baseline × World
    → Result IndexError IndexerCheckpoint × World
rewind_to c cp (err e, w) = (err e, flagged c cp e w)
rewind_to c cp (ok b, w) = rewind c cp.version (checkpoint_at c b) (b.0 + 1) w

unfoldable pub rollback : Config → IndexerCheckpoint → ℕ → M IndexerCheckpoint
unfolding rewind_to flagged
rollback c cp search_from w = rewind_to c cp (find_common_ancestor c cp search_from w)

-- The version is that of the stored checkpoint, 0 where there is none.
unfoldable pub reset_to_trusted_checkpoint : Config → ℕ → M (Unit {0})
reset_to_trusted_checkpoint c trusted = baseline_at c trusted >>= λ b w.
    and_then
      (rewind c (version_of w.store.checkpoint) (checkpoint_at c b) ((trusted + 1) % uint64_mod) w)
      (λ _ v. (ok tt, v))
