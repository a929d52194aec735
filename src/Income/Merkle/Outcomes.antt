-- ===== src/Income/Merkle/Outcomes.antt =====
-- server/internal/income/merkle.go: what `BuildTree` answers.
use rwa_platform_evm.Common.{
  ℕ, suc, ◌+◌, ◌^◌, ◌<◌, ◌≡◌, ◌≢◌, inl, inr, refl, sym, subst, true, List, [], ◌∷◌, Option, none,
  some, if◌then◌else◌, nat_eq, ltb, leb, length, get_elem?, In, arith, Bool-cases, sort, sort-In,
}
use rwa_platform_evm.Common.Int.{ℤ, pos, negsuc}
use rwa_platform_evm.Common.Result.{Result, ok, err, ◌>>=◌}
use rwa_platform_evm.Models.Transaction.{Address, Hash}
use rwa_platform_evm.Income.Merkle.{
  Leaf, Tree, TreeError, no_leaves, duplicate_leaf, unknown_leaf, panicked, bad_amount, leaf_hash,
  leaf_hashes, has_duplicate, tree_of, build_tree, root,
}
use rwa_platform_evm.Income.Merkle.Arrays.{get-found}
use rwa_platform_evm.Income.Merkle.Proves.{Serves, IsLeaf, Made, Holds-proof, tree_of-Made}

-- An amount that is no 256-bit number.
abbrev pub IsBad : List Leaf → ℕ → Type 0
IsBad leaves i =
    (l : Leaf) × (get_elem? leaves i ≡ some l) × ((n : ℕ) → n < 2 ^ 256 → l.amount ≢ some (pos n))

module _ (keccak256 : List ℕ → Hash) where
  abbrev pub Outcome : List Leaf → Result TreeError Tree → Type 0
  Outcome leaves (ok t) = Serves keccak256 leaves t
  Outcome leaves (err no_leaves) = leaves ≡ []
  Outcome leaves (err duplicate_leaf) =
      (hs : List Hash) × (leaf_hashes keccak256 0 leaves ≡ ok hs)
      × (has_duplicate (sort leb hs) ≡ true)
  Outcome leaves (err (bad_amount i)) = IsBad leaves i
  Outcome leaves (err _) = ⊥

  -- The hashes of the leaves, or the first amount that is no 256-bit number.
  abbrev Hashes : ℕ → List Leaf → Result TreeError (List Hash) → Type 0
  Hashes i leaves (err (bad_amount n)) = (m : ℕ) × (n ≡ i + m) × IsBad leaves m
  Hashes i leaves (err _) = ⊥
  Hashes i leaves (ok hs) =
      (length hs ≡ length leaves)
      × ((account : Address) (amount : ℕ)
          → IsLeaf keccak256 account amount leaves
          → In (leaf_hash keccak256 account (pos amount)) hs)

  later-Hashes :
      (i : ℕ) (l : Leaf) (ls : List Leaf) (n : ℕ) (r : Result TreeError (List Hash))
      → l.amount ≡ some (pos n)
      → Hashes (i + 1) ls r
      → Hashes i (l ∷ ls) (r >>= λ hs. ok (leaf_hash keccak256 l.account (pos n) ∷ hs))
  later-Hashes i l ls n (err (bad_amount b)) e (m, at, x) = (suc m, omega (arith, at), x)
  later-Hashes i l ls n (err no_leaves) e h = h
  later-Hashes i l ls n (err duplicate_leaf) e h = h
  later-Hashes i l ls n (err unknown_leaf) e h = h
  later-Hashes i l ls n (err panicked) e h = h
  later-Hashes i l ls n (ok hs) e (len, all) = (
    omega (arith, len),
    (λ account amount c. elim c [
      | inl (own, am) ↦ let same : n ≡ amount = cc in inl (sym (leaf_same own same))
      | inr c ↦ inr (all account amount c)
    ]),
  )
    where
      leaf_same :
          {a b : Address} {x y : ℕ}
          → a ≡ b
          → x ≡ y
          → leaf_hash keccak256 a (pos x) ≡ leaf_hash keccak256 b (pos y)
      leaf_same p q = cc

  first-Hashes :
      (i : ℕ) (l : Leaf) (ls : List Leaf) (a : Option ℤ) (r : Result TreeError (List Hash))
      → l.amount ≡ a
      → Hashes (i + 1) ls r
      → Hashes i (l ∷ ls) (elim a [
        | none ↦ err (bad_amount i)
        | some (negsuc n) ↦ err (bad_amount i)
        | some (pos n) ↦
            if ltb n (2 ^ 256)
            then (r >>= λ hs. ok (leaf_hash keccak256 l.account (pos n) ∷ hs))
            else err (bad_amount i)
      ])
  first-Hashes i l ls none r e h = (0, omega arith, (l, refl, (λ n b x. cc)))
  first-Hashes i l ls (some (negsuc n)) r e h = (0, omega arith, (l, refl, (λ n b x. cc)))
  first-Hashes i l ls (some (pos n)) r e h = elim (Bool-cases (ltb n (2 ^ 256))) [
    | inl y ↦ rw y (later-Hashes i l ls n r e h)
    | inr x ↦ rw x (0, omega arith, (l, refl, (λ m b q. ground arith)))
  ]

  leaf_hashes-Hashes :
      (i : ℕ) (leaves : List Leaf) → Hashes i leaves (leaf_hashes keccak256 i leaves)
  unfolding leaf_hashes
  leaf_hashes-Hashes i [] = (refl, (λ a n c. absurd c))
  leaf_hashes-Hashes i (l ∷ ls) =
      first-Hashes i l ls l.amount (leaf_hashes keccak256 (i + 1) ls) refl
        (leaf_hashes-Hashes (i + 1) ls)

  sort-nonempty : (hs : List Hash) → hs ≢ [] → sort leb hs ≢ []
  sort-nonempty [] n e = n refl
  sort-nonempty (h ∷ hs) n e = subst (In h) e (sort-In leb (h ∷ hs) h (inl refl))

  with_tree-Outcome :
      (leaves : List Leaf) (hs : List Hash) (r : Result TreeError Tree)
      → leaf_hashes keccak256 0 leaves ≡ ok hs
      → ((account : Address) (amount : ℕ)
          → IsLeaf keccak256 account amount leaves
          → In (leaf_hash keccak256 account (pos amount)) hs)
      → Made keccak256 (sort leb hs) r
      → Outcome leaves r
  unfolding root
  with_tree-Outcome leaves hs (err duplicate_leaf) e all m = (hs, e, m)
  with_tree-Outcome leaves hs (err no_leaves) e all m = absurd m
  with_tree-Outcome leaves hs (err unknown_leaf) e all m = absurd m
  with_tree-Outcome leaves hs (err panicked) e all m = absurd m
  with_tree-Outcome leaves hs (err (bad_amount i)) e all m = absurd m
  with_tree-Outcome leaves hs (ok t) e all m =
      let (top, at) = get-found 0 t.nodes (omega (arith, m.1)) in
      (
        top,
        at,
        (λ account amount c.
            Holds-proof keccak256 (sort leb hs) t top account (pos amount) m at
              (sort-In leb hs (leaf_hash keccak256 account (pos amount)) (all account amount c))),
      )

  chain-Outcome :
      (l : Leaf) (ls : List Leaf) (r : Result TreeError (List Hash))
      → leaf_hashes keccak256 0 (l ∷ ls) ≡ r
      → Hashes 0 (l ∷ ls) r
      → Outcome (l ∷ ls) (r >>= λ hs. tree_of keccak256 (sort leb hs))
  chain-Outcome l ls (err (bad_amount b)) e (m, at, x) =
      subst (IsBad (l ∷ ls)) (omega (arith, at)) x
  chain-Outcome l ls (err no_leaves) e h = absurd h
  chain-Outcome l ls (err duplicate_leaf) e h = absurd h
  chain-Outcome l ls (err unknown_leaf) e h = absurd h
  chain-Outcome l ls (err panicked) e h = absurd h
  chain-Outcome l ls (ok hs) e (len, all) =
      with_tree-Outcome (l ∷ ls) hs (tree_of keccak256 (sort leb hs)) e all
        (tree_of-Made keccak256 (sort leb hs) (sort-nonempty hs (λ q. ground (arith, len))))

  -- `BuildTree` never runs out of its slice. It makes a tree, of which the proof of each leaf is found
  -- and verifies against the root; or it refuses: no leaves, the index of an amount that is no 256-bit
  -- number, or hashes of which two equal ones are neighbours in their order. `hashPair` takes Keccak-256
  -- for whatever function it is.
  pub build_tree-Outcome : (leaves : List Leaf) → Outcome leaves (build_tree keccak256 leaves)
  unfolding build_tree
  build_tree-Outcome [] = refl
  build_tree-Outcome (l ∷ ls) =
      chain-Outcome l ls (leaf_hashes keccak256 0 (l ∷ ls)) refl (leaf_hashes-Hashes 0 (l ∷ ls))
