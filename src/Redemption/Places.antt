-- ===== src/Redemption/Places.antt =====
-- server/internal/redemption/projector.go: the order of the sorted events.
use mathlib.Core.List.{Permᴰ}
use mathlib.Core.List.Permᴰ
use rwa_platform_evm.Common.{
  ◌≤◌, ◌<◌, List, [], ◌∷◌, true, false, ◌≡◌, ◌⊎◌, inl, inr, refl, arith, sort, insert_sorted,
  Bool-cases, nat_eq,
}
use rwa_platform_evm.Models.ChainEvent.{ChainEvent, in_order}

-- In an earlier block, or in the same one and not at a greater log index.
abbrev pub IsUpTo : ChainEvent → ChainEvent → Type 0
IsUpTo a b =
    (a.block_number < b.block_number)
    ⊎ ((a.block_number ≡ b.block_number) × (a.log_index ≤ b.log_index))

abbrev pub BeforeAll : ChainEvent → List ChainEvent → Type 0
BeforeAll a [] = Unit
BeforeAll a (b ∷ bs) = IsUpTo a b × BeforeAll a bs

abbrev pub IsInOrder : List ChainEvent → Type 0
IsInOrder [] = Unit
IsInOrder (a ∷ as_) = BeforeAll a as_ × IsInOrder as_

in_order-IsUpTo : (a b : ChainEvent) → in_order a b ≡ true → IsUpTo a b
in_order-IsUpTo a b h = ground arith

in_order-other : (a b : ChainEvent) → in_order a b ≡ false → IsUpTo b a
in_order-other a b h = ground arith

IsUpTo-then : (a b c : ChainEvent) → IsUpTo a b → IsUpTo b c → IsUpTo a c
IsUpTo-then a b c h k = ground arith

BeforeAll-up :
    (a b : ChainEvent) (es : List ChainEvent) → IsUpTo a b → BeforeAll b es → BeforeAll a es
BeforeAll-up a b [] h k = tt
BeforeAll-up a b (e ∷ es) h k = (IsUpTo-then a b e h k.0, BeforeAll-up a b es h k.1)

BeforeAll-insert_sorted :
    (a x : ChainEvent) (es : List ChainEvent)
    → IsUpTo a x
    → BeforeAll a es
    → BeforeAll a (insert_sorted in_order x es)
unfolding insert_sorted
BeforeAll-insert_sorted a x [] h k = (h, tt)
BeforeAll-insert_sorted a x (e ∷ es) h k = elim (Bool-cases (in_order x e)) [
  | inl y ↦ rw y (h, k)
  | inr z ↦ rw z (k.0, BeforeAll-insert_sorted a x es h k.1)
]

insert_sorted-IsInOrder :
    (x : ChainEvent) (es : List ChainEvent) → IsInOrder es → IsInOrder (insert_sorted in_order x es)
unfolding insert_sorted
insert_sorted-IsInOrder x [] h = (tt, tt)
insert_sorted-IsInOrder x (e ∷ es) h = elim (Bool-cases (in_order x e)) [
  | inl y ↦ let up = in_order-IsUpTo x e y in rw y ((up, BeforeAll-up x e es up h.0), h)
  | inr z ↦
      rw z (
        BeforeAll-insert_sorted e x es (in_order-other x e z) h.0,
        insert_sorted-IsInOrder x es h.1,
      )
]

pub sort-IsInOrder : (es : List ChainEvent) → IsInOrder (sort in_order es)
unfolding sort
sort-IsInOrder [] = tt
sort-IsInOrder (e ∷ es) = insert_sorted-IsInOrder e (sort in_order es) (sort-IsInOrder es)

perm-insert_sorted :
    (x : ChainEvent) (es : List ChainEvent) → Permᴰ (x ∷ es) (insert_sorted in_order x es)
unfolding insert_sorted
perm-insert_sorted x [] = Permᴰ.refl (x ∷ [])
perm-insert_sorted x (e ∷ es) = elim (Bool-cases (in_order x e)) [
  | inl y ↦ rw y (Permᴰ.refl (x ∷ e ∷ es))
  | inr z ↦ rw z (Permᴰ.trans (Permᴰ.swap refl refl) (Permᴰ.cons refl (perm-insert_sorted x es)))
]

pub perm-sort : (es : List ChainEvent) → Permᴰ es (sort in_order es)
unfolding sort
perm-sort [] = Permᴰ.nil
perm-sort (e ∷ es) =
    Permᴰ.trans (Permᴰ.cons refl (perm-sort es)) (perm-insert_sorted e (sort in_order es))
