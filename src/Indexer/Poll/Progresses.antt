-- ===== src/Indexer/Poll/Progresses.antt =====
-- server/internal/indexer/indexer.go: the progress of `Poll`'s loop.
use rwa_platform_evm.Common.{
  ℕ, zero, suc, ◌+◌, ◌-◌, ◌≤◌, ◌<◌, Option, none, some, nat_eq, leb, ◌≡◌, refl, arith, Bool-cases,
  ◌⊎◌, inl, inr, subst, sym,
}
use rwa_platform_evm.Common.Result.{Result, ok, err}
use rwa_platform_evm.Models.ChainEvent.{IndexerCheckpoint}
use rwa_platform_evm.Store.Chain.{ChainStore}
use rwa_platform_evm.TxManager.Fees.{uint64_mod}
use rwa_platform_evm.Indexer.State.{Config, World, IndexError}
use rwa_platform_evm.Indexer.Scan.Ranges.{Yields, and_then-Yields}
use rwa_platform_evm.Indexer.Poll.{
  Progress, scan_and_commit_chunk, after_chunk, attempt_limit, chunk_end, scan_loop,
}
use rwa_platform_evm.Indexer.Poll.Chunks.{
  IsChunk, Advanced, Advances, scan_and_commit_chunk-Advances,
}

-- The stored checkpoint and the one in hand are at the block.
abbrev pub AtBlock : ℕ → IndexerCheckpoint → ChainStore → Type 0
AtBlock b cp s =
    (cp.last_block ≡ b)
    × ((stored : IndexerCheckpoint) × ((s.checkpoint ≡ some stored)
          × ((stored.last_block ≡ b)
              × ((stored.last_block_hash ≡ cp.last_block_hash) × (stored.version ≡ cp.version)))))

-- Consecutive chunks from a block on: each is stored onto what the one before it left, at the version
-- that it left, and the last one leaves the block to go on from, its checkpoint and the stores.
pub data Chunks (c : Config) (current : ℕ)
    : ℕ → IndexerCheckpoint → ChainStore → ℕ → IndexerCheckpoint → ChainStore → Type 0 where
  nothing :
      {from : ℕ} {cp : IndexerCheckpoint} {s : ChainStore} → Chunks c current from cp s from cp s
  chunk :
      {from to next : ℕ} {cp cp' last : IndexerCheckpoint} {s t u : ChainStore}
      → from ≤ to
      → to ≤ current
      → IsChunk c current from to cp s cp' t
      → Chunks c current (to + 1) cp' t next last u
      → Chunks c current from cp s next last u

abbrev pub Finished :
    Config → ℕ → ℕ → IndexerCheckpoint → ChainStore → Option IndexerCheckpoint → World → Type 0
Finished c from current cp s none v = ⊥
Finished c from current cp s (some cp') v =
    ((from ≤ current)
      × AtBlock current cp' v.store
      × Chunks c current from cp s (current + 1) cp' v.store)
    ⊎ ((current < from) × (cp' ≡ cp) × (v.store ≡ s))

-- The chunk from `next` on has failed, with the stores as the chunks before it left them.
abbrev pub Interrupted : Config → ℕ → ℕ → IndexerCheckpoint → ChainStore → World → Type 0
Interrupted c from current cp s v =
    (next : ℕ) × (last : IndexerCheckpoint) × (next ≤ current)
    × Chunks c current from cp s next last v.store

abbrev Ends :
    Config
    → ℕ
    → ℕ
    → IndexerCheckpoint
    → ChainStore
    → Result IndexError (Option IndexerCheckpoint) × World
    → Type 0
Ends c from current cp s r =
    Yields (Finished c from current cp s) (Interrupted c from current cp s) r

AtBlock-moved :
    (a b : ℕ) (cp cp' : IndexerCheckpoint) (s t : ChainStore)
    → a ≡ b
    → cp' ≡ cp
    → t ≡ s
    → AtBlock a cp s
    → AtBlock b cp' t
AtBlock-moved a b cp cp' s t x y z h =
    subst (λ n. AtBlock n cp' t) x
      (subst (λ q. AtBlock a q t) (sym y) (subst (λ u. AtBlock a cp u) (sym z) h))

module _ (c : Config) (from current : ℕ) (cp : IndexerCheckpoint) (s : ChainStore) where
  Chunks-moved :
      (a b : ℕ) (x y : IndexerCheckpoint) (t u : ChainStore)
      → a ≡ b
      → y ≡ x
      → u ≡ t
      → Chunks c current from cp s a x t
      → Chunks c current from cp s b y u
  Chunks-moved a b x y t u p q r h =
      subst (λ n. Chunks c current from cp s n y u) p
        (subst (λ z. Chunks c current from cp s a z u) (sym q)
          (subst (λ z. Chunks c current from cp s a x z) (sym r) h))

  -- The rest of the loop, after a chunk up to `to`.
  rest-Ends :
      (to : ℕ) (cp' : IndexerCheckpoint) (t : ChainStore)
      (r : Result IndexError (Option IndexerCheckpoint) × World)
      → from ≤ to
      → to ≤ current
      → IsChunk c current from to cp s cp' t
      → Ends c (to + 1) current cp' t r
      → Ends c from current cp s r
  rest-Ends to cp' t (ok none, v) l u h q = q
  rest-Ends to cp' t (ok (some cp''), v) l u h (inl (a, b, ch)) =
      inl (ground arith, b, chunk l u h ch)
  rest-Ends to cp' t (ok (some cp''), v) l u h (inr (a, b, d)) =
      let (e, (n, k)) = h.checkpoint in
      let last : to ≡ current = ground arith in
      inl (
        ground arith,
        AtBlock-moved to current cp' cp'' t v.store last b d (e, k),
        Chunks-moved (to + 1) (current + 1) cp' cp'' t v.store (ground arith) b d
            (chunk l u h nothing),
      )
  rest-Ends to cp' t (err x, v) l u h (next, last, n, ch) = (next, last, n, chunk l u h ch)

  Advances-Interrupted :
      (want : ℕ) (r : Result IndexError (Option Progress) × World)
      → from ≤ current
      → Advances c current from want cp s r
      → Yields (Advanced c current from want cp s) (Interrupted c from current cp s) r
  Advances-Interrupted want (ok o, v) l h = h
  Advances-Interrupted want (err e, v) l h =
      (from, cp, l, Chunks-moved from from cp cp s v.store refl refl h nothing)

  after_chunk-Ends :
      (fuel want : ℕ) (v : World) (o : Option Progress)
      → want ≤ current
      → Advanced c current from want cp s o v
      → ((cp' : IndexerCheckpoint) (next : ℕ)
          → from < next
          → Ends c next current cp' v.store (scan_loop fuel c cp' next current v))
      → Ends c from current cp s (after_chunk (λ cp' next. scan_loop fuel c cp' next current) o v)
  unfolding after_chunk
  after_chunk-Ends fuel want v none b q k = q
  after_chunk-Ends fuel want v (some (next, cp')) b (to, n, l, u, ch) k =
      rest-Ends to cp' v.store (scan_loop fuel c cp' next current v) l (ground arith) ch (
        subst (λ m. Ends c m current cp' v.store (scan_loop fuel c cp' next current v)) n
          (k cp' next (ground arith)))

chunk_end-bounds :
    (c : Config) (from current : ℕ)
    → from ≤ current
    → current + c.max_log_range ≤ uint64_mod
    → (from ≤ chunk_end c from current) × (chunk_end c from current ≤ current)
chunk_end-bounds c from current l h = ground arith

pub scan_loop-Ends :
    (fuel : ℕ) (c : Config) (cp : IndexerCheckpoint) (from current : ℕ) (w : World)
    → current + 1 < uint64_mod
    → current + c.max_log_range ≤ uint64_mod
    → current + 1 - from < fuel
    → Yields
        (Finished c from current cp w.store)
        (Interrupted c from current cp w.store)
        (scan_loop fuel c cp from current w)
unfolding scan_loop after_chunk
scan_loop-Ends zero c cp from current w small h f = ground arith
scan_loop-Ends (suc fuel) c cp from current w small h f = elim (Bool-cases (leb from current)) [
  | inl y ↦
      let b = chunk_end-bounds c from current (ground arith) h in
      let want = chunk_end c from current in
      rw y (
        and_then-Yields (Advanced c current from want cp w.store)
          (Finished c from current cp w.store) (Interrupted c from current cp w.store)
          (scan_and_commit_chunk (attempt_limit c) c cp from want current w) _
          (Advances-Interrupted c from current cp w.store want _ (ground arith) (
            scan_and_commit_chunk-Advances (attempt_limit c) c cp from want current w b.0
              (omega (arith, b.1, small))))
          (λ o v q.
            after_chunk-Ends c from current cp w.store fuel want v o b.1 q
              (λ cp' next k. scan_loop-Ends fuel c cp' next current v small h (ground arith))))
  | inr x ↦ rw x (inr (ground arith, refl, refl))
]
