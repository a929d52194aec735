-- ===== src/Income/Merkle/Filled.antt =====
-- server/internal/income/merkle.go: the two loops of `BuildTree` that fill the slice of nodes.
use rwa_platform_evm.Common.{
  ℕ, zero, suc, ◌+◌, ◌-◌, ◌*◌, ◌<◌, ◌≤◌, ◌≡◌, ◌⊎◌, inl, inr, refl, sym, ◌∙◌, ap, subst, List, [],
  ◌∷◌, Option, none, some, ◌==◌, nat_eq, nat_beq_iff, length, get_elem?, In, arith, Bool-cases,
}
use rwa_platform_evm.Common.Dict.{lookup, insert, lookup-insert}
use rwa_platform_evm.Models.Transaction.{Hash}
use rwa_platform_evm.Income.Merkle.{Tree, set_at, hash_pair, fill_leaves, pair_at, hash_inner}
use rwa_platform_evm.Income.Merkle.Arrays.{
  length-set_at, get-set_at_self, get-set_at_other, get-found, write-found,
}

module _ (keccak256 : List ℕ → Hash) where
  -- An inner node is the hash of its two children, all three in the slice.
  abbrev pub IsInner : List Hash → ℕ → Type 0
  IsInner nodes i =
      (a : Hash) × (b : Hash) × (get_elem? nodes (2 * i + 1) ≡ some a)
      × (get_elem? nodes (2 * i + 2) ≡ some b)
      × (get_elem? nodes i ≡ some (hash_pair keccak256 a b))

  abbrev pub Hashed : ℕ → List Hash → Option (List Hash) → Type 0
  Hashed k nodes none = ⊥
  Hashed k nodes (some out) =
      (length out ≡ length nodes)
      × ((j : ℕ) → k ≤ j → get_elem? out j ≡ get_elem? nodes j)
      × ((i : ℕ) → i < k → IsInner out i)

  pair_at-found :
      (i : ℕ) (nodes : List Hash)
      → 2 * i + 2 < length nodes
      → (a : Hash) × (b : Hash) × (get_elem? nodes (2 * i + 1) ≡ some a)
        × (get_elem? nodes (2 * i + 2) ≡ some b)
        × (pair_at keccak256 nodes i ≡ some (hash_pair keccak256 a b))
  unfolding pair_at
  pair_at-found i nodes l =
      let (a, at_a) = get-found (2 * i + 1) nodes (omega arith) in
      let (b, at_b) = get-found (2 * i + 2) nodes l in (a, b, at_a, at_b, ground arith)

  -- One round: the node is written, and the rest of the loop keeps it and its children.
  round-Hashed :
      (i : ℕ) (nodes : List Hash) (a b : Hash) (o : Option (List Hash))
      → 2 * i + 2 < length nodes
      → get_elem? nodes (2 * i + 1) ≡ some a
      → get_elem? nodes (2 * i + 2) ≡ some b
      → Hashed i (set_at i (hash_pair keccak256 a b) nodes) o
      → Hashed (suc i) nodes o
  round-Hashed i nodes a b none l at_a at_b h = h
  round-Hashed i nodes a b (some out) l at_a at_b (len, same, inner) =
      let h = hash_pair keccak256 a b in
      let next = set_at i h nodes in
      let kept : (j : ℕ) → suc i ≤ j → get_elem? out j ≡ get_elem? nodes j =
        λ j le. same j (omega arith) ∙ get-set_at_other i j h nodes (omega arith) (omega arith) in
      let here : get_elem? out i ≡ some h =
        same i (omega arith) ∙ get-set_at_self i h nodes (omega arith) in
      let all : (j : ℕ) → j < suc i → IsInner out j = λ j lt. elim (Bool-cases (j == i)) [
        | inl y ↦ subst (IsInner out) (sym ((nat_beq_iff j i).0 y)) (
          a,
          b,
          kept (2 * i + 1) (omega arith) ∙ at_a,
          kept (2 * i + 2) (omega arith) ∙ at_b,
          here,
        )
        | inr x ↦ inner j (ground (arith, nat_beq_iff j i))
      ] in
      (len ∙ length-set_at i h nodes, kept, all)

  hash_inner-step :
      (i : ℕ) (h : Hash) (nodes : List Hash)
      → pair_at keccak256 nodes i ≡ some h
      → i < length nodes
      → hash_inner keccak256 (suc i) nodes ≡ hash_inner keccak256 i (set_at i h nodes)
  unfolding hash_inner
  hash_inner-step i h nodes e l = ground (arith, write-found i h nodes)

  pub hash_inner-Hashed :
      (k : ℕ) (nodes : List Hash)
      → 2 * k < length nodes
      → Hashed k nodes (hash_inner keccak256 k nodes)
  unfolding hash_inner
  hash_inner-Hashed zero nodes l = (refl, (λ j le. refl), (λ i lt. absurd (omega arith)))
  hash_inner-Hashed (suc i) nodes l =
      let (a, b, at_a, at_b, made) = pair_at-found i nodes (omega arith) in
      let h = hash_pair keccak256 a b in
      subst (Hashed (suc i) nodes) (sym (hash_inner-step i h nodes made (omega arith))) (
        round-Hashed i nodes a b (hash_inner keccak256 i (set_at i h nodes)) (omega arith) at_a at_b
          (hash_inner-Hashed i (set_at i h nodes) (omega (arith, length-set_at i h nodes))))

-- The index leads to places that hold the hashes, behind the ones that are still to be written.
abbrev pub Indexed : ℕ → Tree → Type 0
Indexed i t =
    (h : Hash) (p : ℕ)
    → lookup h t.by_hash ≡ some p
    → (p < length t.nodes) × (length t.nodes ≤ p + i) × (get_elem? t.nodes p ≡ some h)

abbrev pub Known : Tree → Hash → Type 0
Known t h = (p : ℕ) × (lookup h t.by_hash ≡ some p)

abbrev pub Filled : ℕ → List Hash → Tree → Option Tree → Type 0
Filled i hs t none = ⊥
Filled i hs t (some out) =
    (length out.nodes ≡ length t.nodes)
    × Indexed (i + length hs) out
    × ((h : Hash) → In h hs ⊎ Known t h → Known out h)

write-Indexed :
    (i : ℕ) (h : Hash) (t : Tree)
    → i < length t.nodes
    → Indexed i t
    → Indexed (suc i) (record {
      nodes = set_at (length t.nodes - 1 - i) h t.nodes;
      by_hash = insert h (length t.nodes - 1 - i) t.by_hash;
    })
write-Indexed i h t l x key p e =
    let n = length t.nodes in
    let at = n - 1 - i in
    let len = length-set_at at h t.nodes in
    let found = sym (lookup-insert h key at t.by_hash) ∙ e in
    elim (Bool-cases (h == key)) [
      | inl y ↦
          let here : at ≡ p = ground (arith, found) in
          let same : h ≡ key = (nat_beq_iff h key).0 y in
          (
            omega (arith, len, here),
            omega (arith, len, here),
            ap (get_elem? (set_at at h t.nodes)) (sym here)
                ∙ get-set_at_self at h t.nodes (omega arith)
                ∙ ap some same,
          )
      | inr off ↦
          let old : lookup key t.by_hash ≡ some p = ground (arith, found) in
          let (low, high, there) = x key p old in
          (
            omega (arith, len),
            omega (arith, len),
            get-set_at_other at p h t.nodes (omega arith) (omega arith) ∙ there,
          )
    ]

insert-Known :
    (h key : Hash) (p : ℕ) (nodes : List Hash) (t : Tree)
    → (h ≡ key) ⊎ Known t key
    → Known (record { nodes = nodes; by_hash = insert h p t.by_hash }) key
insert-Known h key p nodes t k = elim (Bool-cases (h == key)) [
  | inl y ↦ (p, rw (lookup-insert h key p t.by_hash, y) refl)
  | inr x ↦ elim k [
    | inl same ↦ ground (arith, nat_beq_iff h key)
    | inr (q, at) ↦ (q, rw (lookup-insert h key p t.by_hash, x) at)
  ]
]

step-Filled :
    (i : ℕ) (h : Hash) (hs : List Hash) (t next : Tree) (o : Option Tree)
    → length next.nodes ≡ length t.nodes
    → ((key : Hash) → (h ≡ key) ⊎ Known t key → Known next key)
    → Filled (i + 1) hs next o
    → Filled i (h ∷ hs) t o
step-Filled i h hs t next none len k f = f
step-Filled i h hs t next (some out) len k (len', x, known) = (
  len' ∙ len,
  subst (λ n. Indexed n out) (omega arith) x,
  λ key c. known key (elim c [
    | inl (inl same) ↦ inr (k key (inl (sym same)))
    | inl (inr j) ↦ inl j
    | inr old ↦ inr (k key (inr old))
  ]),
)

fill_leaves-step :
    (i : ℕ) (h : Hash) (hs : List Hash) (t : Tree)
    → i < length t.nodes
    → fill_leaves i (h ∷ hs) t
      ≡ fill_leaves (i + 1) hs (record {
        nodes = set_at (length t.nodes - 1 - i) h t.nodes;
        by_hash = insert h (length t.nodes - 1 - i) t.by_hash;
      })
unfolding fill_leaves
fill_leaves-step i h hs t l = ground (arith, write-found (length t.nodes - 1 - i) h t.nodes)

pub fill_leaves-Filled :
    (i : ℕ) (hs : List Hash) (t : Tree)
    → i + length hs ≤ length t.nodes
    → Indexed i t
    → Filled i hs t (fill_leaves i hs t)
unfolding fill_leaves
fill_leaves-Filled i [] t l x = (
  refl,
  subst (λ n. Indexed n t) (omega arith) x,
  (λ h c. elim c [ inl j ↦ absurd j | inr k ↦ k ]),
)
fill_leaves-Filled i (h ∷ hs) t l x =
    let at = length t.nodes - 1 - i in
    let next : Tree = record { nodes = set_at at h t.nodes; by_hash = insert h at t.by_hash } in
    let len = length-set_at at h t.nodes in
    subst (Filled i (h ∷ hs) t) (sym (fill_leaves-step i h hs t (omega arith))) (
      step-Filled i h hs t next (fill_leaves (i + 1) hs next) len
        (λ key c. insert-Known h key at (set_at at h t.nodes) t c)
        (fill_leaves-Filled (i + 1) hs next (omega (arith, len))
          (subst (λ n. Indexed n next) (omega arith) (write-Indexed i h t (omega arith) x))))
