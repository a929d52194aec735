-- ===== src/Indexer/Poll/Chunks.antt =====
-- server/internal/indexer/indexer.go: what the scan of one chunk stores.
use rwa_platform_evm.Common.{
  ℕ, zero, suc, ◌+◌, ◌≤◌, ◌<◌, ◌%◌, not, ◌||◌, List, keep, [], ◌∷◌, Option, none, some, ◌==◌,
  nat_eq, ◌≡◌, refl, arith, Bool-cases, inl, inr, subst,
}
use rwa_platform_evm.Common.Result.{Result, ok, err}
use rwa_platform_evm.Models.Transaction.{Hash}
use rwa_platform_evm.Models.ChainEvent.{IndexerCheckpoint}
use rwa_platform_evm.Store.Chain.{ChainStore, version_of}
use rwa_platform_evm.TxManager.Fees.{uint64_mod}
use rwa_platform_evm.Indexer.State.{Config, World, M, and_then, Log, IndexError, header_at}
use rwa_platform_evm.Indexer.Scan.{
  Scanned, Validated, scan_chunk, scan_fuel, validate_logs, commit_chunk,
}
use rwa_platform_evm.Indexer.Scan.Ranges.{
  Yields, and_then-Yields, InRange, scan_chunk-InRange, Quiet, header_at-Quiet, validate_logs-Quiet,
}
use rwa_platform_evm.Indexer.Scan.Accepted.{kept, Accepts, validate_logs-Accepts}
use rwa_platform_evm.Indexer.Scan.Stored.{HasEventsOf}
use rwa_platform_evm.Indexer.Scan.Hashes.{HasHashesOf}
use rwa_platform_evm.Indexer.Poll.Commits.{StoredAt, Committed, commit_chunk-Committed}
use rwa_platform_evm.Indexer.Poll.{
  Progress, moved_on, commit_validated, boundary_checked, scanned_chunk, scan_and_commit_chunk,
}

-- The events are those of the logs that are kept among the logs that the provider gave at some call for
-- the range.
abbrev pub HasEventsIn : Config → ℕ → ℕ → ChainStore → ChainStore → Type 0
HasEventsIn c from to s t =
    (n : ℕ) × (logs : List Log) × ((c.source n).filter_logs from to ≡ ok logs)
    × HasEventsOf c (keep kept logs) s.events t.events

-- The chunk from one block to another is stored, at the version of the caller's checkpoint, which the
-- store had.
pub record IsChunk (c : Config) (current from to : ℕ) (cp : IndexerCheckpoint) (s : ChainStore)
    (cp' : IndexerCheckpoint) (t : ChainStore) : Type 0 where
  pub checkpoint : StoredAt to cp.version cp' t
  pub expected : version_of s.checkpoint ≡ cp.version
  pub events : HasEventsIn c from to s t
  pub hashes : HasHashesOf c from to current t.hashes

-- Up to a block between the two.
abbrev pub Advanced :
    Config → ℕ → ℕ → ℕ → IndexerCheckpoint → ChainStore → Option Progress → World → Type 0
Advanced c current from want cp s none v = ⊥
Advanced c current from want cp s (some (next, cp')) v =
    (to : ℕ) × (next ≡ to + 1)
    × (from ≤ to)
    × (to ≤ want)
    × IsChunk c current from to cp s cp' v.store

abbrev pub Advances :
    Config
    → ℕ
    → ℕ
    → ℕ
    → IndexerCheckpoint
    → ChainStore
    → Result IndexError (Option Progress) × World
    → Type 0
Advances c current from want cp s r =
    Yields (Advanced c current from want cp s) (λ v. v.store ≡ s) r

-- A call that leaves the stores alone, and then one that gives the property from there.
Quiet-then :
    {A : Type 0} {B : Type 0} (R : ChainStore → B → World → Type 0) (s : ChainStore)
    (r : Result IndexError A × World) (f : A → M B)
    → Quiet s r
    → ((a : A) (v : World) → Yields (R v.store) (λ u. u.store ≡ v.store) (f a v))
    → Yields (R s) (λ u. u.store ≡ s) (and_then r f)
Quiet-then R s r f q k =
    and_then-Yields (λ _ v. v.store ≡ s) (R s) (λ v. v.store ≡ s) r f q
      (λ a v e. subst (λ t. Yields (R t) (λ u. u.store ≡ t) (f a v)) e (k a v))

both :
    {A : Type 0} (P Q : A → World → Type 0) (E F : World → Type 0) (r : Result IndexError A × World)
    → Yields P E r
    → Yields Q F r
    → Yields (λ a v. P a v × Q a v) E r
both P Q E F (ok a, v) p q = (p, q)
both P Q E F (err x, v) p q = p

module _ (c : Config) (cp : IndexerCheckpoint) (from want current : ℕ) where
  abbrev Advancing : ChainStore → Result IndexError (Option Progress) × World → Type 0
  Advancing s r = Advances c current from want cp s r

  -- The logs that the provider gave for the range.
  abbrev Given : ℕ → List Log → Type 0
  Given to logs = (n : ℕ) × ((c.source n).filter_logs from to ≡ ok logs)

  moved_on-Advancing :
      (to : ℕ) (logs accepted : List Log) (s : ChainStore) (o : Option IndexerCheckpoint)
      (v : World)
      → from ≤ to
      → to ≤ want
      → want + 1 < uint64_mod
      → Given to logs
      → accepted ≡ keep kept logs
      → Committed c current from to cp.version accepted s o v
      → Advancing s (moved_on to o v)
  unfolding moved_on
  moved_on-Advancing to logs accepted s none v l u small g same q = q
  moved_on-Advancing to logs accepted s (some cp') v l u small (n, g) same (at, version, es, hs) =
      let next : (to + 1) % uint64_mod ≡ to + 1 = ground arith in
      (
        to,
        next,
        l,
        u,
        record {
          checkpoint = at;
          expected = version;
          events = (n, logs, g, subst (λ ls. HasEventsOf c ls s.events v.store.events) same es);
          hashes = hs;
        },
      )

  commit_validated-Advancing :
      (to : ℕ) (h : Hash) (logs : List Log) (cache : List (ℕ × Hash)) (retry : M (Option Progress))
      (o : Validated) (w : World)
      → from ≤ to
      → to ≤ want
      → want + 1 < uint64_mod
      → Given to logs
      → Accepts c logs cache o
      → ((v : World) → Advancing v.store (retry v))
      → Advancing w.store (commit_validated c cp from to current h retry o w)
  unfolding commit_validated
  commit_validated-Advancing to h logs cache retry none w l u small g a r = r w
  commit_validated-Advancing to h logs cache retry (some (accepted, cache')) w l u small g a r =
      and_then-Yields (Committed c current from to cp.version accepted w.store)
        (Advanced c current from want cp w.store) (λ v. v.store ≡ w.store)
        (commit_chunk c cp from to current h accepted cache' w) _
        (commit_chunk-Committed c cp from to current h accepted cache' w (ground arith))
        (λ o v q. moved_on-Advancing to logs accepted w.store o v l u small g a.0 q)

  boundary_checked-Advancing :
      (before : Hash) (retry : M (Option Progress)) (logs : List Log) (to : ℕ) (after : Hash)
      (w : World)
      → from ≤ to
      → to ≤ want
      → want + 1 < uint64_mod
      → Given to logs
      → ((v : World) → Advancing v.store (retry v))
      → Advancing w.store (boundary_checked c cp from want current before retry (logs, to) after w)
  unfolding boundary_checked
  boundary_checked-Advancing before retry logs to after w l u small g r =
      elim (Bool-cases (not (to == want) || after == before)) [
        | inl y ↦ rw y (
            and_then-Yields (λ o v. (v.store ≡ w.store) × Accepts c logs ((to, after) ∷ []) o)
              (Advanced c current from want cp w.store) (λ v. v.store ≡ w.store)
              (validate_logs c logs ((to, after) ∷ []) w) _
              (both (λ _ v. v.store ≡ w.store) (λ o _. Accepts c logs ((to, after) ∷ []) o)
                (λ v. v.store ≡ w.store) (λ _. Unit {0}) _
                (validate_logs-Quiet c logs ((to, after) ∷ []) w)
                (validate_logs-Accepts c logs ((to, after) ∷ []) w))
              (λ o v p.
                subst (λ t. Advancing t (commit_validated c cp from to current after retry o v)) p.0
                  (commit_validated-Advancing to after logs ((to, after) ∷ []) retry o v l u small g
                    p.1 r)))
        | inr x ↦ rw x (r w)
      ]

  scanned_chunk-Advancing :
      (before : Hash) (retry : M (Option Progress)) (o : Option Scanned) (s : ChainStore)
      (w : World)
      → want + 1 < uint64_mod
      → InRange c from want s o w
      → ((v : World) → Advancing v.store (retry v))
      → Advancing s (scanned_chunk c cp from want current before retry o w)
  unfolding scanned_chunk
  scanned_chunk-Advancing before retry none s w small i r = i
  scanned_chunk-Advancing before retry (some (logs, to)) s w small (e, (l, (u, p))) r =
      subst
        (λ t. Advancing t (scanned_chunk c cp from want current before retry (some (logs, to)) w)) e
        (Quiet-then (Advanced c current from want cp) w.store (header_at c to w) _
          (header_at-Quiet c to w)
          (λ after v. boundary_checked-Advancing before retry logs to after v l u small p r))

-- A chunk of at least one block, below the largest `uint64`, always comes to a result. Where it
-- succeeds, it is stored up to a block between its ends, at the version that the caller read, which the
-- store had; the stored checkpoint and the caller's name that block and the next version. The provider's
-- logs for those blocks are stored: no stored event changes, each event added is that of a log that is
-- not removed and decodes, and each such log has an event under its key; and each of those blocks that
-- lies within the history has a hash. Where the scan of the chunk fails, the events, the block hashes
-- and the checkpoint are as before; dead letters may have been recorded.
pub scan_and_commit_chunk-Advances :
    (left : ℕ) (c : Config) (cp : IndexerCheckpoint) (from want current : ℕ) (w : World)
    → from ≤ want
    → want + 1 < uint64_mod
    → Advances c current from want cp w.store (scan_and_commit_chunk left c cp from want current w)
unfolding scan_and_commit_chunk
scan_and_commit_chunk-Advances zero c cp from want current w l small = refl
scan_and_commit_chunk-Advances (suc left) c cp from want current w l small =
    let retry = scan_and_commit_chunk left c cp from want current in
    Quiet-then (Advanced c current from want cp) w.store (header_at c want w) _
      (header_at-Quiet c want w)
      (λ before v.
        and_then-Yields (InRange c from want v.store) (Advanced c current from want cp v.store)
          (λ u. u.store ≡ v.store) (scan_chunk (scan_fuel c from want) c 1 from want v) _
          (scan_chunk-InRange (scan_fuel c from want) c 1 from want v l (ground arith))
          (λ o u i.
            scanned_chunk-Advancing c cp from want current before retry o v.store u small i
              (λ t. scan_and_commit_chunk-Advances left c cp from want current t l small)))
