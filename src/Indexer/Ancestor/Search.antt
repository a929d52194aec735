-- ===== src/Indexer/Ancestor/Search.antt =====
-- server/internal/indexer/indexer.go: `findCommonAncestor` goes back to the highest retained block that
-- the chain still has.
use rwa_platform_evm.Common.{
  ℕ, zero, suc, ◌≤◌, ◌<◌, Bool, true, false, Option, none, some, if◌then◌else◌, nat_eq, ltb, leb,
  leb→le, ◌≡◌, refl, ◌⊎◌, inl, inr, ◌∙◌, sym, subst, arith, Bool-cases,
}
use rwa_platform_evm.Common.Dict.{lookup}
use rwa_platform_evm.Common.Result.{Result, ok, err}
use rwa_platform_evm.Models.Transaction.{Hash}
use rwa_platform_evm.Models.ChainEvent.{IndexerCheckpoint}
use rwa_platform_evm.Indexer.State.{Config, World, and_then, IndexError, header_at}
use rwa_platform_evm.Indexer.Ancestor.{
  Baseline, baseline_at, with_hash, search_ancestor, depth_floor, policy_floor, without_ancestor,
  find_common_ancestor, find_with, find_by_history, rollback_to_fixed_window,
}
use rwa_platform_evm.Indexer.Ancestor.Searched.{
  Answered, Mismatched, SearchedAt, header_at-lem, search_ancestor-lem,
}

-- A block to go back to that the policy allows.
abbrev pub Recovers :
    Config → IndexerCheckpoint → ℕ → World → Result IndexError Baseline × World → Type 0
Recovers c cp from w out =
    (out.1.store ≡ w.store)
    × ((b : Baseline)
        → out.0 ≡ ok b
        → ((h : Hash) × (b.1 ≡ some h)
            × (policy_floor c cp < b.0)
            × (b.0 ≤ from)
            × (lookup b.0 w.store.hashes ≡ some h)
            × Answered c b.0 h
            × Mismatched c w.store.hashes b.0 from)
          ⊎ ((b.0 ≤ from)
              × (b.0 ≤ policy_floor c cp)
              × (depth_floor c cp ≤ c.start_block)
              × Mismatched c w.store.hashes (policy_floor c cp) from))

pub baseline_at-lem :
    (c : Config) (k : ℕ) (w : World)
    → let out = baseline_at c k w in
      (out.1.store ≡ w.store) × ((b : Baseline) → out.0 ≡ ok b → b.0 ≡ k)
unfolding baseline_at
baseline_at-lem c zero w = (refl, λ b q. cc)
baseline_at-lem c (suc n) w = go (header_at c (suc n) w) (header_at-lem c (suc n) w).0
  where
    go :
        (out : Result IndexError Hash × World)
        → out.1.store ≡ w.store
        → ((and_then out (with_hash (suc n))).1.store ≡ w.store)
          × ((b : Baseline) → (and_then out (with_hash (suc n))).0 ≡ ok b → b.0 ≡ suc n)
    go (err e, v) kept = (kept, λ b q. cc)
    go (ok h, v) kept = (kept, λ b q. cc)

lower_le : (a b : ℕ) → ((if ltb b a then b else a) ≤ a) × ((if ltb b a then b else a) ≤ b)
lower_le a b = ground arith

without_ancestor-lem :
    (c : Config) (cp : IndexerCheckpoint) (from : ℕ) (w : World)
    → (out : Result IndexError (Option Baseline) × World)
    → SearchedAt c (policy_floor c cp) from w out
    → Recovers c cp from w (and_then out (without_ancestor c cp from))
unfolding without_ancestor
without_ancestor-lem c cp from w (err e, v) (kept, s) = (kept, λ b q. cc)
without_ancestor-lem c cp from w (ok (some (k, none)), v) (kept, s) = absurd s
without_ancestor-lem c cp from w (ok (some (k, some h)), v)
      (kept, (above, below, at, now, missed)) =
    (kept, λ b q. subst Ends (pair_of b q) (inl (h, refl, above, below, at, now, missed)))
  where
    Ends : Baseline → Type 0
    Ends b =
        ((x : Hash) × (b.1 ≡ some x)
          × (policy_floor c cp < b.0)
          × (b.0 ≤ from)
          × (lookup b.0 w.store.hashes ≡ some x)
          × Answered c b.0 x
          × Mismatched c w.store.hashes b.0 from)
        ⊎ ((b.0 ≤ from)
            × (b.0 ≤ policy_floor c cp)
            × (depth_floor c cp ≤ c.start_block)
            × Mismatched c w.store.hashes (policy_floor c cp) from)

    pair_of :
        (b : Baseline)
        → ◌≡◌ {A = Result IndexError Baseline} (ok (k, some h)) (ok b)
        → (k, some h) ≡ b
    pair_of b q = cc
without_ancestor-lem c cp from w (ok none, v) (kept, s) =
    elim (Bool-cases (leb (depth_floor c cp) c.start_block)) [
      | inr deep ↦ rw deep (kept, λ b q. cc)
      | inl near ↦
          let k = if ltb from (policy_floor c cp) then from else policy_floor c cp in
          let (same, at) = baseline_at-lem c k v in
          rw near (
            same ∙ kept,
            λ b q. inr (
              omega (arith, at b q, lower_le (policy_floor c cp) from),
              omega (arith, at b q, lower_le (policy_floor c cp) from),
              leb→le (depth_floor c cp) c.start_block near,
              s,
            ),
          )
    ]

-- With the history of hashes the search reads only, and where it answers, either the answer is a
-- retained block above the policy's floor that the chain still has, and each retained block between it
-- and the start of the search was looked up and found changed; or this holds of each retained block
-- above the floor, the trusted start is no lower than the depth allows, and the answer is at most both
-- the floor and the start of the search.
pub find_common_ancestor-Recovers :
    (c : Config) (cp : IndexerCheckpoint) (from : ℕ) (w : World)
    → c.has_block_hashes ≡ true
    → Recovers c cp from w (find_common_ancestor c cp from w)
unfolding find_common_ancestor find_by_history
find_common_ancestor-Recovers c cp from w h =
    subst (λ o. Recovers c cp from w (find_with o c cp from w)) (sym h)
      (without_ancestor-lem c cp from w (search_ancestor c (policy_floor c cp) from w)
        (search_ancestor-lem c (policy_floor c cp) from w))

-- With the history or without it, the search changes nothing in the stores.
pub find_common_ancestor-reads :
    (c : Config) (cp : IndexerCheckpoint) (from : ℕ) (w : World)
    → (find_common_ancestor c cp from w).1.store ≡ w.store
unfolding find_common_ancestor find_by_history rollback_to_fixed_window
find_common_ancestor-reads c cp from w = go c.has_block_hashes
  where
    go : (o : Bool) → (find_with o c cp from w).1.store ≡ w.store
    go true =
        (without_ancestor-lem c cp from w (search_ancestor c (policy_floor c cp) from w)
          (search_ancestor-lem c (policy_floor c cp) from w)).0
    go false = (baseline_at-lem c _ w).0
