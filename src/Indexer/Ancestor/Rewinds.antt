-- ===== src/Indexer/Ancestor/Rewinds.antt =====
-- server/internal/indexer/indexer.go: what a rollback or a trusted reset leaves in the stores.
use rwa_platform_evm.Common.{
  ℕ, ◌+◌, Bool, true, false, List, [], ◌∷◌, some, nat_eq, ◌≡◌, ◌≢◌, ◌⊎◌, In,
}
use rwa_platform_evm.Common.Result.{Result, ok, err}
use rwa_platform_evm.Models.Transaction.{Address}
use rwa_platform_evm.Models.ChainEvent.{ChainEvent, EventKey, key_eq, IndexerCheckpoint}
use rwa_platform_evm.Store.Chain.{EventStore, version_of, is_above}
use rwa_platform_evm.Indexer.State.{
  Config, World, IndexError, reconciliation_required, version_conflict,
}

-- Of the watched contracts and at or above the block.
abbrev pub IsWatchedFrom : ℕ → List Address → ℕ → ChainEvent → Type 0
IsWatchedFrom chain [] from e = ⊥
IsWatchedFrom chain (a ∷ addrs) from e =
    (is_above chain a from e ≡ true) ⊎ IsWatchedFrom chain addrs from e

-- An entry of the store.
abbrev pub Entry : EventKey → ChainEvent → EventStore → Type 0
Entry k e m = In (k, e) m

-- The events that a deletion leaves: those that are not watched from the block on.
abbrev pub Cleared : ℕ → List Address → ℕ → EventStore → EventStore → Type 0
Cleared chain addrs from m n =
    (k : EventKey) (e : ChainEvent)
    → (Entry k e n → Entry k e m × ¬ IsWatchedFrom chain addrs from e)
      × (Entry k e m → ¬ IsWatchedFrom chain addrs from e → Entry k e n)

-- What a rewind to a block does: all, or nothing.
abbrev pub Rewound :
    Config
    → ℕ
    → ℕ
    → IndexerCheckpoint
    → World
    → Result IndexError IndexerCheckpoint × World
    → Type 0
Rewound c expected from cp w (err e, v) =
    (e ≡ version_conflict) × (v ≡ w) × (version_of w.store.checkpoint ≢ expected)
Rewound c expected from cp w (ok cp', v) =
    (version_of w.store.checkpoint ≡ expected)
    × (cp' ≡ record cp { version = expected + 1 })
    × (v.store.checkpoint ≡ some cp')
    × (v.store.hashes ≡ w.store.hashes)
    × Cleared c.chain_id c.addresses from w.store.events v.store.events

-- What a rollback does.
abbrev pub RolledBack :
    Config → IndexerCheckpoint → World → Result IndexError IndexerCheckpoint × World → Type 0
RolledBack c cp w (err e, v) = v.store.events ≡ w.store.events
RolledBack c cp w (ok cp', v) =
    (version_of w.store.checkpoint ≡ cp.version)
    × (cp'.version ≡ cp.version + 1)
    × (cp'.reconciliation_required ≡ false)
    × (v.store.checkpoint ≡ some cp')
    × Cleared c.chain_id c.addresses (cp'.last_block + 1) w.store.events v.store.events
