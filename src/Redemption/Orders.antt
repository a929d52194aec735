-- ===== src/Redemption/Orders.antt =====
-- server/internal/redemption/projector.go: the order in which the events are handed over does not matter.
use Prim.Native.Char.{IsScalar}
use mathlib.Core.HLevel.{prop→set}
use mathlib.Core.Logic.{∥∥₁_elim}
use mathlib.Core.List.{Permᴰ, Perm}
use text.Mathlib.TextEquality.{IsScalar-prop}
use rwa_platform_evm.Common.{
  ℕ, List, [], ◌∷◌, ◌==◌, nat_eq, ◌≡◌, ◌⊎◌, inl, inr, refl, sym, ◌∙◌, ap, arith, sort,
  insert_sorted, In, Bool-cases, ◌&&◌,
}
use rwa_platform_evm.Models.ChainEvent.{ChainEvent, in_order}
use rwa_platform_evm.Redemption.{States, apply_events, build_states}

-- No two events have one place on the chain.
abbrev pub IsPlaced : List ChainEvent → Type 0
IsPlaced es =
    (a b : ChainEvent)
    → In a es
    → In b es
    → a.block_number ≡ b.block_number
    → a.log_index ≡ b.log_index
    → a ≡ b

insert_sorted-swap :
    (x y : ChainEvent) (es : List ChainEvent)
    → (x.block_number ≡ y.block_number → x.log_index ≡ y.log_index → ⊥)
    → insert_sorted in_order x (insert_sorted in_order y es)
      ≡ insert_sorted in_order y (insert_sorted in_order x es)
unfolding insert_sorted
insert_sorted-swap x y [] d = ground arith
insert_sorted-swap x y (z ∷ es) d = ground (arith, insert_sorted-swap x y es d)

-- A permutation keeps the elements.
perm-In : {es ds : List ChainEvent} (e : ChainEvent) → Permᴰ es ds → In e ds → In e es
perm-In e Permᴰ.nil i = i
perm-In e (Permᴰ.cons same p) (inl h) = inl (h ∙ sym same)
perm-In e (Permᴰ.cons same p) (inr i) = inr (perm-In e p i)
perm-In e (Permᴰ.swap p q) (inl h) = inr (inl (h ∙ sym q))
perm-In e (Permᴰ.swap p q) (inr (inl h)) = inl (h ∙ sym p)
perm-In e (Permᴰ.swap p q) (inr (inr i)) = inr (inr i)
perm-In e (Permᴰ.trans p q) i = perm-In e p (perm-In e q i)

place-cases :
    (x y : ChainEvent)
    → ((x.block_number ≡ y.block_number) × (x.log_index ≡ y.log_index))
      ⊎ (x.block_number ≡ y.block_number → x.log_index ≡ y.log_index → ⊥)
place-cases x y =
    elim (Bool-cases (x.block_number == y.block_number && x.log_index == y.log_index)) [
      | inl t ↦ inl (ground arith)
      | inr f ↦ inr (λ p q. ground arith)
    ]

sorted-swap :
    (x y : ChainEvent) (es : List ChainEvent)
    → (x.block_number ≡ y.block_number → x.log_index ≡ y.log_index → x ≡ y)
    → insert_sorted in_order x (insert_sorted in_order y es)
      ≡ insert_sorted in_order y (insert_sorted in_order x es)
sorted-swap x y es one = elim (place-cases x y) [
  | inl (p, q) ↦
      let same : x ≡ y = one p q in
      ap (λ z. insert_sorted in_order z (insert_sorted in_order y es)) same
      ∙ ap (λ z. insert_sorted in_order y (insert_sorted in_order z es)) (sym same)
  | inr d ↦ insert_sorted-swap x y es d
]

sort-perm :
    {es ds : List ChainEvent} → IsPlaced es → Permᴰ es ds → sort in_order es ≡ sort in_order ds
unfolding sort
sort-perm h Permᴰ.nil = refl
sort-perm h (Permᴰ.cons {b = b} {l₁ = es} same p) =
    ap (λ x. insert_sorted in_order x (sort in_order es)) same
    ∙ ap (insert_sorted in_order b) (sort-perm (λ x y i j. h x y (inr i) (inr j)) p)
sort-perm h (Permᴰ.swap {a} {b} {a'} {b'} {l} p q) =
    sorted-swap a b (sort in_order l) (h a b (inl refl) (inr (inl refl)))
    ∙ ap (λ x. insert_sorted in_order x (insert_sorted in_order a (sort in_order l))) q
    ∙ ap (λ x. insert_sorted in_order a' (insert_sorted in_order x (sort in_order l))) p
sort-perm h (Permᴰ.trans p q) =
    sort-perm h p ∙ sort-perm (λ x y i j. h x y (perm-In x p i) (perm-In y p j)) q

IsScalar-IsSet : (n : ℕ) → IsSet (IsScalar n)
IsScalar-IsSet n = prop→set (IsScalar-prop n)

States-IsSet : IsSet States
States-IsSet = hlevel IsScalar-IsSet

-- `BuildStates` derives the same requests from any two lists that hold the same events, in whatever
-- order: the order that the store lists them in does not matter. No two events have one place on the
-- chain.
pub build_states-perm :
    (timeout now : ℕ) (es ds : List ChainEvent)
    → IsPlaced es
    → Perm es ds
    → build_states timeout now es ≡ build_states timeout now ds
unfolding build_states
build_states-perm timeout now es ds h p =
    ∥∥₁_elim p (States-IsSet (build_states timeout now es) (build_states timeout now ds))
      (λ d. ap (λ xs. apply_events timeout now xs []) (sort-perm h d))
