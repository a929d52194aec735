-- ===== src/Indexer/Scan.antt =====
-- server/internal/indexer/indexer.go: `scanChunk`, `validateLogsAgainstCanonical` and `commitChunk`.
-- The waits between attempts change nothing and are left out.
pub mod Ranges
pub mod Stored
pub mod Hashes
pub mod Accepted
use rwa_platform_evm.Common.{
  ℕ, zero, suc, ◌+◌, ◌-◌, ◌/◌, ◌%◌, Bool, true, false, not, ◌&&◌, ◌||◌, List, [], ◌∷◌, ◌++◌, String,
  Option, none, some, if◌then◌else◌, ◌==◌, nat_eq, ltb, leb,
}
use rwa_platform_evm.Common.Dict.{lookup, insert}
use rwa_platform_evm.Common.Result.{Result, ok, err}
use rwa_platform_evm.Models.Transaction.{Hash}
use rwa_platform_evm.Models.ChainEvent.{ChainEvent, EventKey, key_eq, IndexerCheckpoint, Value}
use rwa_platform_evm.Store.Chain
use rwa_platform_evm.Store.Chain.{ChainStore, exists, version_of}
use rwa_platform_evm.Indexer.DeadLetters.{record_dead_letter}
use rwa_platform_evm.Indexer.State.{
  Config, World, M, ◌>>=◌, ◌>>◌, and_then, ask, answered, Log, LogError, range_too_large, timed_out,
  IndexError, rpc_failed, reconciliation_required, version_conflict, not_coherent, logs_failed,
  decode_failed, header_at, View,
}
use rwa_platform_evm.Indexer.Ancestor.{rollback}
use rwa_platform_evm.TxManager.Fees.{uint64_mod}

abbrev pub shrinks : LogError → Bool
shrinks range_too_large = true
shrinks timed_out = true
shrinks LogError.other = false

abbrev at_least_one : ℕ → ℕ
at_least_one n = if ltb n 1 then 1 else n

-- The upper bound after the span is halved.
abbrev pub halved : ℕ → ℕ → ℕ
halved from to = from + at_least_one ((to - from + 1) % uint64_mod / 2) - 1

-- `none`: the fuel ran out. The logs come with the bound up to which they were asked for.
abbrev pub Scanned : Type 0
Scanned = List Log × ℕ

give_logs : List Log → ℕ → M (Option Scanned)
give_logs logs to w = (ok (some (logs, to)), w)

-- An answer to a query: its logs, a smaller span at once, the failure, or the same span again.
take_logs :
    Config
    → ℕ
    → ℕ
    → ℕ
    → M (Option Scanned)
    → M (Option Scanned)
    → Result LogError (List Log)
    → M (Option Scanned)
unfolding give_logs
take_logs c attempt from to shrunk again (ok logs) w = give_logs logs to w
take_logs c attempt from to shrunk again (err e) w =
    if shrinks e && ltb from to
    then shrunk w
    else if leb c.max_range_retries attempt
    then (err logs_failed, w)
    else again w

unfoldable pub scan_chunk : ℕ → Config → ℕ → ℕ → ℕ → M (Option Scanned)
unfolding take_logs
scan_chunk zero c attempt from to w = (ok none, w)
scan_chunk (suc fuel) c attempt from to w =
    let shrunk = scan_chunk fuel c (attempt + 1) from (halved from to) in
    let again = scan_chunk fuel c (attempt + 1) from to in
    (ask c (λ v. v.filter_logs from to) >>= take_logs c attempt from to shrunk again) w

-- The fuel that the callers give.
abbrev pub scan_fuel : Config → ℕ → ℕ → ℕ
scan_fuel c from to = to - from + c.max_range_retries + 2

-- The canonical hash of a block: from the cache, or asked for and then cached.
pub cached_hash : Config → ℕ → Option Hash → List (ℕ × Hash) → M (Hash × List (ℕ × Hash))
cached_hash c n (some h) cache w = (ok (h, cache), w)
cached_hash c n none cache w = (header_at c n >>= λ h v. (ok (h, insert n h cache), v)) w

-- `none`: some log is of another fork.
abbrev pub Validated : Type 0
Validated = Option (List Log × List (ℕ × Hash))

accept_log : Log → Validated → M Validated
accept_log l none w = (ok none, w)
accept_log l (some (ls, cache)) w = (ok (some (l ∷ ls, cache)), w)

check_log : Log → (List (ℕ × Hash) → M Validated) → Hash × List (ℕ × Hash) → M Validated
unfolding accept_log
check_log l next (canonical, cache) w =
    if l.block_hash == canonical then (next cache >>= accept_log l) w else (ok none, w)

unfoldable pub validate_logs : Config → List Log → List (ℕ × Hash) → M Validated
unfolding cached_hash check_log
validate_logs c [] cache w = (ok (some ([], cache)), w)
validate_logs c (l ∷ ls) cache w =
    let rest = validate_logs c ls in
    if l.is_removed
    then rest cache w
    else (cached_hash c l.block_number (lookup l.block_number cache) cache >>= check_log l rest) w

abbrev pub log_key : Config → Log → EventKey
log_key c l = record {
  chain_id = c.chain_id;
  address = l.address;
  tx_hash = l.tx_hash;
  log_index = l.index;
}

abbrev pub build_event : Config → Log → String → List (String × Value) → ChainEvent
build_event c l name fields = record {
  chain_id = c.chain_id;
  address = l.address;
  tx_hash = l.tx_hash;
  log_index = l.index;
  block_number = l.block_number;
  block_hash = l.block_hash;
  name = name;
  fields = fields;
  is_removed = false;
  indexed_at = c.now;
}

-- A log that does not decode goes to the queue, or stops the scan where there is none.
handle_decode_failure : Config → Log → M (Unit {0})
unfolding record_dead_letter
handle_decode_failure c l w =
    if c.has_dead_letters then record_dead_letter c l w else (err decode_failed, w)

add_event : ChainEvent → List ChainEvent → M (List ChainEvent)
add_event e es w = (ok (e ∷ es), w)

prepare_log :
    Config
    → Log
    → M (List ChainEvent)
    → Option (String × List (String × Value))
    → M (List ChainEvent)
unfolding handle_decode_failure add_event
prepare_log c l rest none = handle_decode_failure c l >> rest
prepare_log c l rest (some (name, fields)) = rest >>= add_event (build_event c l name fields)

-- Stored logs are skipped.
unfoldable pub prepare_events : Config → List Log → M (List ChainEvent)
unfolding prepare_log
prepare_events c [] w = (ok [], w)
prepare_events c (l ∷ ls) w =
    let rest = prepare_events c ls in
    if exists (log_key c l) w.store.events then rest w else prepare_log c l rest (c.decode l) w

add_hash : ℕ → Hash → Option (List (ℕ × Hash)) → M (Option (List (ℕ × Hash)))
add_hash n h none w = (ok none, w)
add_hash n h (some hs) w = (ok (some ((n, h) ∷ hs)), w)

with_rest :
    ℕ
    → (List (ℕ × Hash) → M (Option (List (ℕ × Hash))))
    → Hash × List (ℕ × Hash)
    → M (Option (List (ℕ × Hash)))
unfolding add_hash
with_rest n rest (h, cache) = rest cache >>= add_hash n h

-- The hashes of the blocks from `n` to `to`, from the cache or the chain. `none`: the fuel ran out, as
-- the counter never passes the largest `uint64`.
unfoldable pub collect_hashes : ℕ → Config → ℕ → ℕ → List (ℕ × Hash) → M (Option (List (ℕ × Hash)))
unfolding cached_hash with_rest
collect_hashes zero c n to cache w = (ok none, w)
collect_hashes (suc fuel) c n to cache w =
    let rest = collect_hashes fuel c ((n + 1) % uint64_mod) to in
    if leb n to
    then (cached_hash c n (lookup n cache) cache >>= with_rest n rest) w
    else (ok (some []), w)

-- The fuel that the callers give.
abbrev pub hash_fuel : ℕ → ℕ → ℕ
hash_fuel n to = to - n + 2

abbrev pub retention_floor : Config → ℕ → Option ℕ
retention_floor c current =
    if ltb c.max_history current then some (current - c.max_history) else none

abbrev pub record_from : ℕ → Option ℕ → ℕ
record_from from none = from
record_from from (some floor) = if ltb from floor then floor else from

abbrev pub moved_to : Config → ℕ → Hash → IndexerCheckpoint
moved_to c to to_hash = record {
  last_block = to;
  last_block_hash = some to_hash;
  updated_at = c.now;
  reconciliation_required = false;
  version = 0;
}

unfoldable pub store_chunk :
    Config
    → IndexerCheckpoint
    → ℕ
    → Hash
    → ℕ
    → List ChainEvent
    → List (ℕ × Hash)
    → M IndexerCheckpoint
store_chunk c cp to to_hash current events hashes w =
    let (done, store) =
      Chain.commit_chunk events hashes (retention_floor c current) (moved_to c to to_hash)
        cp.version w.store in
    if done
    then (
      ok (record cp {
        last_block = to;
        last_block_hash = some to_hash;
        updated_at = c.now;
        version = cp.version + 1;
      }),
      record w { store = store },
    )
    else (err version_conflict, w)

abbrev pub give_checkpoint : IndexerCheckpoint → M (Option IndexerCheckpoint)
give_checkpoint cp w = (ok (some cp), w)

unfoldable pub store_collected :
    Config
    → IndexerCheckpoint
    → ℕ
    → Hash
    → ℕ
    → List ChainEvent
    → Option (List (ℕ × Hash))
    → M (Option IndexerCheckpoint)
unfolding store_chunk
store_collected c cp to to_hash current events none w = (ok none, w)
store_collected c cp to to_hash current events (some hashes) w =
    and_then (store_chunk c cp to to_hash current events hashes w) give_checkpoint

-- The checkpoint as the loop of `Poll` holds it afterwards; `none`: the fuel ran out.
unfoldable pub commit_chunk :
    Config
    → IndexerCheckpoint
    → ℕ
    → ℕ
    → ℕ
    → Hash
    → List Log
    → List (ℕ × Hash)
    → M (Option IndexerCheckpoint)
unfolding store_collected collect_hashes
commit_chunk c cp from to current to_hash logs cache =
    let first = record_from from (retention_floor c current) in
    prepare_events c logs >>= λ events.
    collect_hashes (hash_fuel first to) c first to cache
    >>= store_collected c cp to to_hash current events
