-- ===== src/Indexer/Poll/Commits.antt =====
-- server/internal/indexer/indexer.go: what `commitChunk` stores.
use rwa_platform_evm.Common.{
  ℕ, ◌+◌, ◌-◌, ◌<◌, List, Option, none, some, ◌==◌, nat_eq, ◌≡◌, refl, sym, arith, Bool-cases, inl,
  inr, subst,
}
use rwa_platform_evm.Models.Transaction.{Hash}
use rwa_platform_evm.Models.ChainEvent.{ChainEvent, IndexerCheckpoint}
use rwa_platform_evm.Store.Chain
use rwa_platform_evm.Store.Chain.{
  ChainStore, version_of, create_events, record_hashes, prune_before,
}
use rwa_platform_evm.TxManager.Fees.{uint64_mod}
use rwa_platform_evm.Indexer.State.{Config, World, Log}
use rwa_platform_evm.Indexer.Scan.{
  prepare_events, collect_hashes, store_chunk, store_collected, commit_chunk, retention_floor,
  record_from, hash_fuel,
}
use rwa_platform_evm.Indexer.Scan.Ranges.{Yields, and_then-Yields}
use rwa_platform_evm.Indexer.Scan.Stored.{
  HasEventsOf, IsPrepared, IsPrepared-HasEventsOf, prepare_events-Prepares,
}
use rwa_platform_evm.Indexer.Scan.Hashes.{
  Collected, HasHashesOf, Covers-HasHashesOf, collect_hashes-Collects,
}

-- The checkpoint is stored at the block and with its version, and the caller's copy agrees.
abbrev pub StoredAt : ℕ → ℕ → IndexerCheckpoint → ChainStore → Type 0
StoredAt to version cp s =
    (cp.last_block ≡ to)
    × ((cp.version ≡ version + 1)
        × ((stored : IndexerCheckpoint) × ((s.checkpoint ≡ some stored)
              × ((stored.last_block ≡ to)
                  × ((stored.last_block_hash ≡ cp.last_block_hash)
                      × (stored.version ≡ cp.version))))))

-- What one commit made of the stores.
abbrev Written :
    Config
    → IndexerCheckpoint
    → ℕ
    → ℕ
    → List ChainEvent
    → List (ℕ × Hash)
    → ChainStore
    → IndexerCheckpoint
    → World
    → Type 0
Written c cp to current es hs s cp' v =
    StoredAt to cp.version cp' v.store
    × (version_of s.checkpoint ≡ cp.version)
    × (v.store.events ≡ create_events es s.events)
    × (v.store.hashes ≡ prune_before (retention_floor c current) (record_hashes hs s.hashes))

store_chunk-Written :
    (c : Config) (cp : IndexerCheckpoint) (to : ℕ) (h : Hash) (current : ℕ) (es : List ChainEvent)
    (hs : List (ℕ × Hash)) (w : World)
    → Yields
        (Written c cp to current es hs w.store)
        (λ v. v.store ≡ w.store)
        (store_chunk c cp to h current es hs w)
unfolding store_chunk Chain.commit_chunk
store_chunk-Written c cp to h current es hs w =
    elim (Bool-cases (version_of w.store.checkpoint == cp.version)) [
      | inl y ↦ rw y ((refl, (refl, (_, (refl, (refl, (refl, refl)))))), ground arith, refl, refl)
      | inr x ↦ rw x refl
    ]

-- A commit stores the events of its logs and the hashes of its blocks, with the checkpoint.
abbrev pub Committed :
    Config
    → (current from to version : ℕ) → List Log
    → ChainStore
    → Option IndexerCheckpoint
    → World
    → Type 0
Committed c current from to version logs s none v = ⊥
Committed c current from to version logs s (some cp') v =
    StoredAt to version cp' v.store
    × (version_of s.checkpoint ≡ version)
    × HasEventsOf c logs s.events v.store.events
    × HasHashesOf c from to current v.store.hashes

store_collected-Committed :
    (c : Config) (cp : IndexerCheckpoint) (from to current : ℕ) (h : Hash) (logs : List Log)
    (es : List ChainEvent) (s : ChainStore) (o : Option (List (ℕ × Hash))) (v : World)
    → IsPrepared c s.events logs es
    → Collected (record_from from (retention_floor c current)) to s o v
    → Yields
        (Committed c current from to cp.version logs s)
        (λ u. u.store ≡ s)
        (store_collected c cp to h current es o v)
unfolding store_collected
store_collected-Committed c cp from to current h logs es s none v p a = absurd a
store_collected-Committed c cp from to current h logs es s (some hs) v p (e, covers) =
    and_then-Yields (Written c cp to current es hs s)
      (Committed c current from to cp.version logs s) (λ u. u.store ≡ s)
      (store_chunk c cp to h current es hs v) _
      (subst
        (λ t.
          Yields (Written c cp to current es hs t) (λ u. u.store ≡ t)
            (store_chunk c cp to h current es hs v))
        e (store_chunk-Written c cp to h current es hs v))
      (λ cp' u w. (
        w.0,
        w.1,
        subst (HasEventsOf c logs s.events) (sym w.2) (IsPrepared-HasEventsOf c s.events logs es p),
        subst (HasHashesOf c from to current) (sym w.3)
            (Covers-HasHashesOf c from to current hs s.hashes covers),
      ))

pub commit_chunk-Committed :
    (c : Config) (cp : IndexerCheckpoint) (from to current : ℕ) (h : Hash) (logs : List Log)
    (cache : List (ℕ × Hash)) (w : World)
    → to + 1 < uint64_mod
    → Yields
        (Committed c current from to cp.version logs w.store)
        (λ v. v.store ≡ w.store)
        (commit_chunk c cp from to current h logs cache w)
unfolding commit_chunk
commit_chunk-Committed c cp from to current h logs cache w small =
    let s = w.store in
    let first = record_from from (retention_floor c current) in
    and_then-Yields (λ es v. (v.store ≡ s) × IsPrepared c s.events logs es)
      (Committed c current from to cp.version logs s) (λ v. v.store ≡ s) (prepare_events c logs w) _
      (prepare_events-Prepares c s logs w refl)
      (λ es v p.
        and_then-Yields (Collected first to s) (Committed c current from to cp.version logs s)
          (λ u. u.store ≡ s) (collect_hashes (hash_fuel first to) c first to cache v) _
          (subst
            (λ t.
              Yields (Collected first to t) (λ u. u.store ≡ t)
                (collect_hashes (hash_fuel first to) c first to cache v))
            p.0
            (collect_hashes-Collects (hash_fuel first to) c first to cache v small
              (hash_fuel-enough first to)))
          (λ o u a. store_collected-Committed c cp from to current h logs es s o u p.1 a))
  where
    hash_fuel-enough : (first end : ℕ) → end + 1 - first < hash_fuel first end
    hash_fuel-enough first end = ground arith
