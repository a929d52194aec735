-- ===== src/Store/Chain.antt =====
-- server/internal/dal/memory: chain_event.go, block_hash.go, indexer_checkpoint.go and chain_chunk.go.
-- The block hashes and the checkpoint are those of the one chain, and of the shared address "ALL", that
-- the indexer works on.
use rwa_platform_evm.Common.{
  ℕ, ◌+◌, Bool, true, false, ◌&&◌, not, List, [], ◌∷◌, Option, none, some, if◌then◌else◌, ◌==◌,
  nat_eq, ltb, leb, ◌||◌, String, string_eq, sort, keep, map,
}
use rwa_platform_evm.Common.Dict.{lookup, insert, delete_if}
use rwa_platform_evm.Models.Transaction.{Address, Hash}
use rwa_platform_evm.Models.ChainEvent.{
  ChainEvent, EventKey, key_eq, event_key, IndexerCheckpoint, in_order, earlier,
}

abbrev pub EventStore : Type 0
EventStore = List (EventKey × ChainEvent)

pub record ChainStore : Type 0 where
  pub events : EventStore
  pub hashes : List (ℕ × Hash)
  pub checkpoint : Option IndexerCheckpoint

abbrev is_some : {A : Type 0} → Option A → Bool
is_some none = false
is_some (some _) = true

unfoldable pub exists : EventKey → EventStore → Bool
exists k m = elim (lookup k m) [ some _ ↦ true | none ↦ false ]

unfoldable pub create_event : ChainEvent → EventStore → EventStore
create_event e m = insert (event_key e) e m

unfoldable pub create_events : List ChainEvent → EventStore → EventStore
unfolding create_event
create_events [] m = m
create_events (e ∷ es) m = create_events es (create_event e m)

abbrev pub is_above : ℕ → Address → ℕ → ChainEvent → Bool
is_above chain address from e =
    e.chain_id == chain && (e.address == address && leb from e.block_number)

unfoldable pub delete_from_block : ℕ → Address → ℕ → EventStore → EventStore
delete_from_block chain address from m = delete_if (λ _ e. is_above chain address from e) m

unfoldable pub delete_addresses : ℕ → List Address → ℕ → EventStore → EventStore
delete_addresses chain [] from m = m
delete_addresses chain (a ∷ as_) from m =
    delete_addresses chain as_ from (delete_from_block chain a from m)

unfoldable pub record_hashes : List (ℕ × Hash) → List (ℕ × Hash) → List (ℕ × Hash)
record_hashes [] m = m
record_hashes ((n, h) ∷ hs) m = record_hashes hs (insert n h m)

unfoldable pub prune_before : Option ℕ → List (ℕ × Hash) → List (ℕ × Hash)
prune_before none m = m
prune_before (some keep_from) m = delete_if (λ n _. ltb n keep_from) m

abbrev pub version_of : Option IndexerCheckpoint → ℕ
version_of none = 0
version_of (some cp) = cp.version

-- The chunk is committed only at the expected version, which it increments.
unfoldable pub commit_chunk :
    List ChainEvent
    → List (ℕ × Hash)
    → Option ℕ
    → IndexerCheckpoint
    → ℕ
    → ChainStore
    → Bool × ChainStore
commit_chunk events hashes prune cp expected s =
    if version_of s.checkpoint == expected
    then (
      true,
      record {
        events = create_events events s.events;
        hashes = prune_before prune (record_hashes hashes s.hashes);
        checkpoint = some (record cp { version = expected + 1 });
      },
    )
    else (false, s)

unfoldable pub rewind_chunk :
    ℕ → List Address → ℕ → IndexerCheckpoint → ℕ → ChainStore → Bool × ChainStore
rewind_chunk chain addresses from cp expected s =
    if version_of s.checkpoint == expected
    then (
      true,
      record s {
        events = delete_addresses chain addresses from s.events;
        checkpoint = some (record cp { version = expected + 1 });
      },
    )
    else (false, s)

abbrev named : ℕ → Address → String → ChainEvent → Bool
named chain address name e = e.chain_id == chain && (e.address == address && e.name == name)

unfoldable pub list_by_name : ℕ → Address → String → EventStore → List ChainEvent
unfolding named
list_by_name chain address name m =
    sort in_order (keep (named chain address name) (map (λ e. e.1) m))

-- Ties of block and log index go by the hash.
abbrev listed_before : ChainEvent → ChainEvent → Bool
listed_before a b =
    if a.block_number == b.block_number && a.log_index == b.log_index
    then leb a.tx_hash b.tx_hash
    else earlier a b

-- Whether a name is among the excluded ones.
abbrev is_excluded : List String → String → Bool
is_excluded [] name = false
is_excluded (x ∷ xs) name = x == name || is_excluded xs name

unfoldable pub list_all : ℕ → List String → EventStore → List ChainEvent
list_all chain excluded m =
    sort listed_before
      (keep (λ e. e.chain_id == chain && not (is_excluded excluded e.name)) (map (λ e. e.1) m))
