-- ===== src/Income/Merkle/Proves.antt =====
-- server/internal/income/merkle.go: the proofs of a built tree, against its root.
use rwa_platform_evm.Common.{
  ℕ, zero, suc, ◌+◌, ◌-◌, ◌*◌, ◌/◌, ◌%◌, ◌<◌, ◌≤◌, ◌≡◌, ◌≢◌, ◌⊎◌, inl, inr, refl, sym, ◌∙◌, ap,
  subst, true, List, [], ◌∷◌, Option, none, some, ◌==◌, nat_eq, nat_beq_iff, length, get_elem?, In,
  arith, Bool-cases,
}
use rwa_platform_evm.Common.Dict.{lookup}
use rwa_platform_evm.Common.Int.{ℤ, pos}
use rwa_platform_evm.Common.Result.{Result, ok, err, ◌>>=◌, or_fail}
use rwa_platform_evm.Models.Transaction.{Address, Hash}
use rwa_platform_evm.Income.Merkle.{
  Leaf, Tree, TreeError, duplicate_leaf, unknown_leaf, panicked, zeros, leaf_hash, hash_pair,
  has_duplicate, fill_leaves, hash_inner, with_inner, tree_of, root, sibling, proof_from, proof_of,
  fold_proof, verify_proof,
}
use rwa_platform_evm.Income.Merkle.Arrays.{length-zeros}
use rwa_platform_evm.Income.Merkle.Filled.{
  IsInner, Hashed, hash_inner-Hashed, Filled, Known, Indexed, fill_leaves-Filled,
}

module _ (keccak256 : List ℕ → Hash) where
  hash_pair_comm : (a b : Hash) → hash_pair keccak256 a b ≡ hash_pair keccak256 b a
  unfolding hash_pair
  hash_pair_comm a b = ground arith

  -- The place's sibling, and their parent's hash.
  sibling-parent :
      (nodes : List Hash) (j : ℕ) (h : Hash)
      → IsInner keccak256 nodes (j / 2)
      → get_elem? nodes (suc j) ≡ some h
      → (p : Hash) × (get_elem? nodes (sibling (suc j)) ≡ some p)
        × (get_elem? nodes (j / 2) ≡ some (hash_pair keccak256 h p))
  sibling-parent nodes j h (a, b, at_a, at_b, up) here = elim (Bool-cases ((suc j) % 2 == 0)) [
    | inl y ↦
        let right : 2 * (j / 2) + 2 ≡ suc j = ground arith in
        let left : 2 * (j / 2) + 1 ≡ sibling (suc j) = ground arith in
        let same : some b ≡ some h = sym at_b ∙ ap (get_elem? nodes) right ∙ here in
        let hb : b ≡ h = cc in
        (
          a,
          ap (get_elem? nodes) (sym left) ∙ at_a,
          up ∙ ap some (hash_pair_comm a b ∙ ap (λ x. hash_pair keccak256 x a) hb),
        )
    | inr n ↦
        let left : 2 * (j / 2) + 1 ≡ suc j = ground arith in
        let right : 2 * (j / 2) + 2 ≡ sibling (suc j) = ground arith in
        let same : some a ≡ some h = sym at_a ∙ ap (get_elem? nodes) left ∙ here in
        let ha : a ≡ h = cc in
        (
          b,
          ap (get_elem? nodes) (sym right) ∙ at_b,
          up ∙ ap some (ap (λ x. hash_pair keccak256 x b) ha),
        )
  ]

  abbrev Folds : Hash → Hash → Option (List Hash) → Type 0
  Folds h r none = ⊥
  Folds h r (some ps) = fold_proof keccak256 h ps ≡ r

  cons-Folds :
      (h p r : Hash) (q : Option Hash) (o : Option (List Hash))
      → q ≡ some p
      → Folds (hash_pair keccak256 h p) r o
      → Folds h r
          (elim q [ none ↦ none | some x ↦ elim o [ none ↦ none | some ps ↦ some (x ∷ ps) ] ])
  unfolding fold_proof
  cons-Folds h p r none o e f = cc
  cons-Folds h p r (some x) none e f = f
  cons-Folds h p r (some x) (some ps) e f =
      let same : x ≡ p = cc in ap (λ y. fold_proof keccak256 (hash_pair keccak256 h y) ps) same ∙ f

  proof_from-Folds :
      (k fuel : ℕ) (nodes : List Hash) (i : ℕ) (h r : Hash)
      → ((j : ℕ) → j < k → IsInner keccak256 nodes j)
      → i ≤ 2 * k
      → i ≤ fuel
      → get_elem? nodes i ≡ some h
      → get_elem? nodes 0 ≡ some r
      → Folds h r (proof_from fuel nodes i)
  unfolding proof_from fold_proof
  proof_from-Folds k fuel nodes zero h r inner l f here top = ground arith
  proof_from-Folds k zero nodes (suc j) h r inner l f here top = absurd (omega arith)
  proof_from-Folds k (suc fuel) nodes (suc j) h r inner l f here top =
      let (p, at_p, up) = sibling-parent nodes j h (inner (j / 2) (omega arith)) here in
      cons-Folds h p r (get_elem? nodes (sibling (suc j))) (proof_from fuel nodes (j / 2)) at_p (
        proof_from-Folds k fuel nodes (j / 2) (hash_pair keccak256 h p) r inner (omega arith)
          (omega arith) up top)

  -- Every leaf's proof leads to the root.
  abbrev pub Proves : Hash → Hash → Result TreeError (List Hash) → Type 0
  Proves top leaf (err e) = ⊥
  Proves top leaf (ok proof) = verify_proof keccak256 top leaf proof ≡ true

  abbrev pub IsLeaf : Address → ℕ → List Leaf → Type 0
  IsLeaf account amount [] = ⊥
  IsLeaf account amount (l ∷ ls) =
      ((l.account ≡ account) × (l.amount ≡ some (pos amount))) ⊎ IsLeaf account amount ls

  -- What a tree promises to the leaves.
  abbrev pub Serves : List Leaf → Tree → Type 0
  Serves leaves t =
      (top : Hash) × (root t ≡ some top)
      × ((account : Address) (amount : ℕ)
          → IsLeaf account amount leaves
          → Proves top (leaf_hash keccak256 account (pos amount))
              (proof_of keccak256 t account (pos amount)))

  -- A tree that holds the hashes, for places and inner nodes alike.
  abbrev pub Holds : List Hash → Tree → Type 0
  Holds hs t =
      (k : ℕ) × (length t.nodes ≡ 2 * k + 1)
      × ((j : ℕ) → j < k → IsInner keccak256 t.nodes j)
      × ((h : Hash)
          → In h hs
          → (p : ℕ) × (lookup h t.by_hash ≡ some p) × (p ≤ 2 * k) × (get_elem? t.nodes p ≡ some h))

  Folds-Proves :
      (top leaf : Hash) (o : Option (List Hash))
      → Folds leaf top o
      → Proves top leaf (or_fail panicked o)
  unfolding verify_proof
  Folds-Proves top leaf none f = f
  Folds-Proves top leaf (some ps) f = (nat_beq_iff (fold_proof keccak256 leaf ps) top).1 f

  known-Proves :
      (top leaf : Hash) (t : Tree) (p : ℕ) (o : Option ℕ)
      → o ≡ some p
      → Proves top leaf (or_fail panicked (proof_from p t.nodes p))
      → Proves top leaf
          (elim o [ none ↦ err unknown_leaf | some i ↦ or_fail panicked (proof_from i t.nodes i) ])
  known-Proves top leaf t p none e h = cc
  known-Proves top leaf t p (some i) e h =
      let same : p ≡ i = cc in
      subst (λ x. Proves top leaf (or_fail panicked (proof_from x t.nodes x))) same h

  pub Holds-proof :
      (hs : List Hash) (t : Tree) (top : Hash) (account : Address) (amount : ℤ)
      → Holds hs t
      → root t ≡ some top
      → In (leaf_hash keccak256 account amount) hs
      → Proves top (leaf_hash keccak256 account amount) (proof_of keccak256 t account amount)
  unfolding proof_of root
  Holds-proof hs t top account amount (k, len, inner, places) at_top i =
      let h = leaf_hash keccak256 account amount in
      let (p, known, low, here) = places h i in
      known-Proves top h t p (lookup h t.by_hash) known (
        Folds-Proves top h (proof_from p t.nodes p)
          (proof_from-Folds k p t.nodes p h top inner low (omega arith) here at_top))

  -- A tree over distinct hashes can be filled and hashed.
  abbrev pub Made : List Hash → Result TreeError Tree → Type 0
  Made hs (ok t) = Holds hs t
  Made hs (err duplicate_leaf) = has_duplicate hs ≡ true
  Made hs (err _) = ⊥

  inner-Made :
      (hs : List Hash) (k : ℕ) (t : Tree) (o : Option (List Hash))
      → length t.nodes ≡ 2 * k + 1
      → Indexed (k + 1) t
      → ((h : Hash) → In h hs → Known t h)
      → Hashed keccak256 k t.nodes o
      → Made hs (
          or_fail panicked
            (elim o [ none ↦ none | some nodes ↦ some (record t { nodes = nodes }) ]))
  inner-Made hs k t none len x known h = h
  inner-Made hs k t (some out) len x known (len', kept, inner) = (
    k,
    len' ∙ len,
    inner,
    (λ h i.
        let (p, at) = known h i in
        let (low, high, here) = x h p at in (p, at, omega arith, kept p (omega arith) ∙ here)),
  )

  fill_tree-Made :
      (hs : List Hash) (k : ℕ) (start : Tree) (o : Option Tree)
      → length hs ≡ k + 1
      → length start.nodes ≡ 2 * k + 1
      → Filled 0 hs start o
      → Made hs (
          or_fail panicked o >>= λ t.
          or_fail panicked (with_inner keccak256 (length t.nodes - length hs) t))
  unfolding with_inner
  fill_tree-Made hs k start none n len f = f
  fill_tree-Made hs k start (some t) n len (len', x, known) =
      let full : length t.nodes ≡ 2 * k + 1 = len' ∙ len in
      let below : k ≡ length t.nodes - length hs = omega arith in
      subst
        (λ b. Made hs (
          or_fail panicked (elim (hash_inner keccak256 b t.nodes) [
            | none ↦ none
            | some nodes ↦ some (record t { nodes = nodes })
          ])))
        below
        (inner-Made hs k t (hash_inner keccak256 k t.nodes) full
          (subst (λ i. Indexed i t) (omega (arith, n)) x) (λ h i. known h (inl i))
          (hash_inner-Hashed keccak256 k t.nodes (omega arith)))

  pub tree_of-Made : (hs : List Hash) → hs ≢ [] → Made hs (tree_of keccak256 hs)
  unfolding tree_of lookup
  tree_of-Made [] n = absurd (n refl)
  tree_of-Made (h ∷ rest) n =
      let hs = h ∷ rest in
      let k = length rest in
      let start : Tree = record { nodes = zeros (2 * length hs - 1); by_hash = [] } in
      let len : length start.nodes ≡ 2 * k + 1 = length-zeros (2 * length hs - 1) ∙ omega arith in
      elim (Bool-cases (has_duplicate hs)) [
        | inl y ↦ rw y y
        | inr x ↦ rw x (
            fill_tree-Made hs k start (fill_leaves 0 hs start) (omega arith) len
              (fill_leaves-Filled 0 hs start (omega (arith, len)) (λ key p e. cc)))
      ]
