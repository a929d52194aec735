-- ===== src/Income/Merkle.antt =====
-- server/internal/income/merkle.go. A node is the number that its 32 bytes spell, so that byte order is
-- the order of numbers. Reads and writes past the end of a slice panic in Go: they are `none` here.
pub mod Arrays
pub mod Filled
pub mod Proves
pub mod Outcomes
use rwa_platform_evm.Common.{
  ℕ, zero, suc, ◌+◌, ◌-◌, ◌*◌, ◌/◌, ◌%◌, ◌^◌, Bool, true, false, ◌||◌, List, [], ◌∷◌, Option, none,
  some, if◌then◌else◌, ◌==◌, nat_eq, ltb, leb, length, get_elem?, sort,
}
use rwa_platform_evm.Common.Dict.{lookup, insert}
use rwa_platform_evm.Common.Int.{ℤ, pos, negsuc, abs}
use rwa_platform_evm.Common.Result.{Result, ok, err, ◌>>=◌, or_fail}
use rwa_platform_evm.Models.Transaction.{Address, Hash}

pub record Leaf : Type 0 where
  pub account : Address
  pub amount : Option ℤ

pub record Tree : Type 0 where
  pub nodes : List Hash
  pub by_hash : List (Hash × ℕ)

pub data TreeError : Type 0 where
  no_leaves duplicate_leaf unknown_leaf panicked : TreeError
  bad_amount : ℕ → TreeError

-- The element at an index is replaced.
unfoldable pub set_at : ℕ → Hash → List Hash → List Hash
set_at i new [] = []
set_at zero new (x ∷ xs) = new ∷ xs
set_at (suc i) new (x ∷ xs) = x ∷ set_at i new xs

unfoldable pub write : ℕ → Hash → List Hash → Option (List Hash)
unfolding set_at
write i new xs = if ltb i (length xs) then some (set_at i new xs) else none

abbrev pub zeros : ℕ → List Hash
zeros zero = []
zeros (suc n) = 0 ∷ zeros n

unfoldable pub has_duplicate : List Hash → Bool
has_duplicate [] = false
has_duplicate (a ∷ []) = false
has_duplicate (a ∷ b ∷ rest) = b == a || has_duplicate (b ∷ rest)

-- The loop that writes the leaves, from the back of the array.
unfoldable pub fill_leaves : ℕ → List Hash → Tree → Option Tree
unfolding write
fill_leaves i [] t = some t
fill_leaves i (h ∷ hs) t = elim (write (length t.nodes - 1 - i) h t.nodes) [
  | none ↦ none
  | some nodes ↦
      fill_leaves (i + 1) hs
        (record { nodes = nodes; by_hash = insert h (length t.nodes - 1 - i) t.by_hash })
]

unfoldable pub root : Tree → Option Hash
root t = get_elem? t.nodes 0

abbrev pub sibling : ℕ → ℕ
sibling i = if i % 2 == 0 then i - 1 else i + 1

-- The loop of `Proof`: the index at least halves, so that it is fuel enough itself.
unfoldable pub proof_from : ℕ → List Hash → ℕ → Option (List Hash)
proof_from fuel nodes zero = some []
proof_from zero nodes (suc j) = none
proof_from (suc fuel) nodes (suc j) =
    let rest = proof_from fuel nodes (j / 2) in
    elim (get_elem? nodes (sibling (suc j))) [
      | none ↦ none
      | some p ↦ elim rest [ none ↦ none | some ps ↦ some (p ∷ ps) ]
    ]

-- Keccak-256 of a sequence of 32-byte words.
module _ (keccak256 : List ℕ → Hash) where
  unfoldable pub leaf_hash : Address → ℤ → Hash
  leaf_hash account amount = keccak256 (keccak256 (account ∷ abs amount ∷ []) ∷ [])

  unfoldable pub hash_pair : Hash → Hash → Hash
  hash_pair a b = if ltb b a then keccak256 (b ∷ a ∷ []) else keccak256 (a ∷ b ∷ [])

  -- The first loop of `BuildTree`, from the leaf with an index on.
  unfoldable pub leaf_hashes : ℕ → List Leaf → Result TreeError (List Hash)
  leaf_hashes i [] = ok []
  leaf_hashes i (l ∷ ls) =
      let rest = leaf_hashes (i + 1) ls in
      elim l.amount [
        | none ↦ err (bad_amount i)
        | some (negsuc n) ↦ err (bad_amount i)
        | some (pos n) ↦
            if ltb n (2 ^ 256)
            then (rest >>= λ hs. ok (leaf_hash l.account (pos n) ∷ hs))
            else err (bad_amount i)
      ]

  pair_at : List Hash → ℕ → Option Hash
  unfolding hash_pair
  pair_at nodes i = elim (get_elem? nodes (2 * i + 1)) [
    | none ↦ none
    | some a ↦ elim (get_elem? nodes (2 * i + 2)) [ none ↦ none | some b ↦ some (hash_pair a b) ]
  ]

  -- The loop that hashes the inner nodes, over the indices below a number, downwards.
  unfoldable pub hash_inner : ℕ → List Hash → Option (List Hash)
  unfolding pair_at write
  hash_inner zero nodes = some nodes
  hash_inner (suc i) nodes = elim (pair_at nodes i) [
    | none ↦ none
    | some h ↦ elim (write i h nodes) [ none ↦ none | some new ↦ hash_inner i new ]
  ]

  unfoldable pub with_inner : ℕ → Tree → Option Tree
  unfolding hash_inner
  with_inner n t = elim (hash_inner n t.nodes) [
    | none ↦ none
    | some nodes ↦ some (record t { nodes = nodes })
  ]

  unfoldable pub tree_of : List Hash → Result TreeError Tree
  unfolding has_duplicate fill_leaves with_inner
  tree_of hs =
      if has_duplicate hs
      then err duplicate_leaf
      else (or_fail panicked
            (fill_leaves 0 hs (record { nodes = zeros (2 * length hs - 1); by_hash = [] }))
          >>= λ t. or_fail panicked (with_inner (length t.nodes - length hs) t))

  unfoldable pub build_tree : List Leaf → Result TreeError Tree
  unfolding leaf_hashes tree_of
  build_tree [] = err no_leaves
  build_tree (l ∷ ls) = leaf_hashes 0 (l ∷ ls) >>= λ hs. tree_of (sort leb hs)

  unfoldable pub proof_of : Tree → Address → ℤ → Result TreeError (List Hash)
  unfolding proof_from leaf_hash
  proof_of t account amount = elim (lookup (leaf_hash account amount) t.by_hash) [
    | none ↦ err unknown_leaf
    | some i ↦ or_fail panicked (proof_from i t.nodes i)
  ]

  unfoldable pub fold_proof : Hash → List Hash → Hash
  unfolding hash_pair
  fold_proof h [] = h
  fold_proof h (p ∷ ps) = fold_proof (hash_pair h p) ps

  unfoldable pub verify_proof : Hash → Hash → List Hash → Bool
  unfolding fold_proof
  verify_proof root leaf proof = fold_proof leaf proof == root
