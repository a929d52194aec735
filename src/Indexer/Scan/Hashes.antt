-- ===== src/Indexer/Scan/Hashes.antt =====
-- server/internal/indexer/indexer.go: the block hashes that a chunk records.
use rwa_platform_evm.Common.{
  ℕ, zero, suc, ◌+◌, ◌-◌, ◌≤◌, ◌<◌, ◌%◌, List, [], ◌∷◌, Option, none, some, if◌then◌else◌, ◌==◌,
  nat_eq, nat_beq_iff, ltb, leb, ◌≡◌, refl, arith, Bool-cases, ◌⊎◌, inl, inr, subst, ap, ◌∙◌,
}
use rwa_platform_evm.Common.Dict.{lookup, insert, delete_if, lookup-insert}
use rwa_platform_evm.Common.Result.{Result}
use rwa_platform_evm.Models.Transaction.{Hash}
use rwa_platform_evm.Store.Chain.{ChainStore, record_hashes, prune_before}
use rwa_platform_evm.TxManager.Fees.{uint64_mod}
use rwa_platform_evm.Indexer.State.{Config, World, M, IndexError}
use rwa_platform_evm.Indexer.Scan.{
  collect_hashes, with_rest, add_hash, cached_hash, retention_floor, record_from,
}
use rwa_platform_evm.Indexer.Scan.Ranges.{Yields, and_then-Yields, cached_hash-Quiet}

abbrev pub HasHash : List (ℕ × Hash) → ℕ → Type 0
HasHash m n = (h : Hash) × (lookup n m ≡ some h)

-- Each block of the range is in the list.
abbrev pub Covers : ℕ → ℕ → List (ℕ × Hash) → Type 0
Covers n to hs = (k : ℕ) → n ≤ k → k ≤ to → HasHash hs k

abbrev pub Collected : ℕ → ℕ → ChainStore → Option (List (ℕ × Hash)) → World → Type 0
Collected n to s none v = ⊥
Collected n to s (some hs) v = (v.store ≡ s) × Covers n to hs

abbrev Collects : ℕ → ℕ → ChainStore → Result IndexError (Option (List (ℕ × Hash))) × World → Type 0
Collects n to s r = Yields (Collected n to s) (λ v. v.store ≡ s) r

Covers-add :
    (n next to : ℕ) (h : Hash) (hs : List (ℕ × Hash))
    → next ≡ n + 1
    → Covers next to hs
    → Covers n to ((n, h) ∷ hs)
unfolding lookup
Covers-add n next to h hs e a k l u = elim (Bool-cases (n == k)) [
  | inl y ↦ (h, ap (λ b. if b then some h else lookup k hs) y)
  | inr x ↦
      let (g, q) = a k (ground arith) u in (g, ap (λ b. if b then some h else lookup k hs) x ∙ q)
]

add_hash-Collects :
    (n next to : ℕ) (h : Hash) (s : ChainStore) (o : Option (List (ℕ × Hash))) (v : World)
    → next ≡ n + 1
    → Collected next to s o v
    → Collects n to s (add_hash n h o v)
unfolding add_hash
add_hash-Collects n next to h s none v e a = a
add_hash-Collects n next to h s (some hs) v e (q, a) = (q, Covers-add n next to h hs e a)

with_rest-Collects :
    (n next to : ℕ) (s : ChainStore) (hc : Hash × List (ℕ × Hash))
    (rest : List (ℕ × Hash) → M (Option (List (ℕ × Hash)))) (v : World)
    → next ≡ n + 1
    → v.store ≡ s
    → ((cache : List (ℕ × Hash)) → Collects next to v.store (rest cache v))
    → Collects n to s (with_rest n rest hc v)
unfolding with_rest
with_rest-Collects n next to s (h, cache) rest v e q k =
    and_then-Yields (Collected next to s) (Collected n to s) (λ u. u.store ≡ s) (rest cache v) _
      (subst (λ t. Collects next to t (rest cache v)) q (k cache))
      (λ o u a. add_hash-Collects n next to h s o u e a)

-- Below the largest `uint64` the loop ends, and it gives the hash of every block of the range.
pub collect_hashes-Collects :
    (fuel : ℕ) (c : Config) (n to : ℕ) (cache : List (ℕ × Hash)) (w : World)
    → to + 1 < uint64_mod
    → to + 1 - n < fuel
    → Yields (Collected n to w.store) (λ v. v.store ≡ w.store) (collect_hashes fuel c n to cache w)
unfolding collect_hashes
collect_hashes-Collects zero c n to cache w h f = ground arith
collect_hashes-Collects (suc fuel) c n to cache w h f = elim (Bool-cases (leb n to)) [
  | inl y ↦
      let next : (n + 1) % uint64_mod ≡ n + 1 = ground arith in
      rw y (
        and_then-Yields (λ _ v. v.store ≡ w.store) (Collected n to w.store) (λ v. v.store ≡ w.store)
          (cached_hash c n (lookup n cache) cache w) _
          (cached_hash-Quiet c n (lookup n cache) cache w)
          (λ hc v q.
            with_rest-Collects n ((n + 1) % uint64_mod) to w.store hc
              (collect_hashes fuel c ((n + 1) % uint64_mod) to) v next q
              (λ cache'.
                collect_hashes-Collects fuel c ((n + 1) % uint64_mod) to cache' v h
                  (ground arith))))
  | inr x ↦ rw x (refl, λ k l u. ground arith)
]

insert-HasHash :
    (n : ℕ) (h : Hash) (m : List (ℕ × Hash)) (k : ℕ)
    → (n ≡ k) ⊎ HasHash m k
    → HasHash (insert n h m) k
insert-HasHash n h m k o = elim (Bool-cases (n == k)) [
  | inl y ↦ (h, lookup-insert n k h m ∙ ap (λ b. if b then some h else lookup k m) y)
  | inr x ↦ elim o [
    | inl e ↦ absurd (ground (arith, nat_beq_iff n k))
    | inr (g, q) ↦ (g, lookup-insert n k h m ∙ ap (λ b. if b then some h else lookup k m) x ∙ q)
  ]
]

record_hashes-HasHash :
    (hs m : List (ℕ × Hash)) (k : ℕ) → HasHash hs k ⊎ HasHash m k → HasHash (record_hashes hs m) k
unfolding record_hashes lookup
record_hashes-HasHash [] m k (inl (h, q)) = cc
record_hashes-HasHash [] m k (inr a) = a
record_hashes-HasHash ((n, h) ∷ hs) m k (inr a) =
    record_hashes-HasHash hs (insert n h m) k (inr (insert-HasHash n h m k (inr a)))
record_hashes-HasHash ((n, h) ∷ hs) m k (inl (g, q)) = elim (Bool-cases (n == k)) [
  | inl y ↦
      record_hashes-HasHash hs (insert n h m) k
        (inr (insert-HasHash n h m k (inl ((nat_beq_iff n k).0 y))))
  | inr x ↦ record_hashes-HasHash hs (insert n h m) k (inl (g, rw x at q))
]

prune-lookup :
    (floor k : ℕ) (m : List (ℕ × Hash))
    → floor ≤ k
    → lookup k (prune_before (some floor) m) ≡ lookup k m
unfolding prune_before delete_if lookup
prune-lookup floor k [] h = refl
prune-lookup floor k ((n, g) ∷ m) h = ground (arith, prune-lookup floor k m h)

-- The blocks from `from` to `to`, at most `max_history` below the head, have a hash.
abbrev pub HasHashesOf : Config → (from to current : ℕ) → List (ℕ × Hash) → Type 0
HasHashesOf c from to current m =
    (k : ℕ) → from ≤ k → k ≤ to → current ≤ k + c.max_history → HasHash m k

pub Covers-HasHashesOf :
    (c : Config) (from to current : ℕ) (hs m : List (ℕ × Hash))
    → Covers (record_from from (retention_floor c current)) to hs
    → HasHashesOf c from to current (prune_before (retention_floor c current) (record_hashes hs m))
unfolding prune_before
Covers-HasHashesOf c from to current hs m a k l u r =
    elim (Bool-cases (ltb c.max_history current)) [
      | inl y ↦
          let (h, q) = record_hashes-HasHash hs m k (inl (a k (ground arith) u)) in
          rw y (h, prune-lookup (current - c.max_history) k _ (ground arith) ∙ q)
      | inr x ↦ rw x (record_hashes-HasHash hs m k (inl (a k (ground arith) u)))
    ]
