-- ===== src/Common/Sort.antt =====
-- Sorting by a Boolean order, and membership by recursion. `sort` is insertion sort: it stands for
-- Go's `sort.Slice` where the order decides all pairs, and for `sort.SliceStable` always.
use Prim.Native.Nat.{ℕ, ◌+◌}
use mathlib.Core.Path.{◌≡◌, refl}
use mathlib.Core.Logic.{◌⊎◌, inl, inr}
use mathlib.Core.Bool.{Bool, true}
use mathlib.Core.List.{List, [], ◌∷◌}
use native.Mathlib.Omega.{arith}
use rwa_platform_evm.Common.Tests.{if◌then◌else◌}
use rwa_platform_evm.Common.Lists.{All, keep, sum_by}

module _ {A : Type 0} where
  abbrev pub In : A → List A → Type 0
  In a [] = ⊥
  In a (x ∷ xs) = (a ≡ x) ⊎ In a xs

  pub In-All {κ} : (P : A → Type κ) (xs : List A) (a : A) → All P xs → In a xs → P a
  In-All P [] a h i = absurd i
  In-All P (x ∷ xs) a h (inl e) = rw e h.0
  In-All P (x ∷ xs) a h (inr i) = In-All P xs a h.1 i

  pub In-keep : (p : A → Bool) (xs : List A) (a : A) → In a (keep p xs) → In a xs × (p a ≡ true)
  In-keep p [] a i = absurd i
  In-keep p (x ∷ xs) a i = ground (arith, In-keep p xs a)

  pub keep-In : (p : A → Bool) (xs : List A) (a : A) → In a xs → p a ≡ true → In a (keep p xs)
  keep-In p [] a i t = absurd i
  keep-In p (x ∷ xs) a i t = ground (arith, keep-In p xs a)

  module _ (before : A → A → Bool) where
    -- `insert_sorted` puts an element in front of the first one that it comes before.
    unfoldable pub insert_sorted : A → List A → List A
    insert_sorted x [] = x ∷ []
    insert_sorted x (y ∷ ys) =
        let rest = insert_sorted x ys in if before x y then x ∷ y ∷ ys else y ∷ rest

    unfoldable pub sort : List A → List A
    unfolding insert_sorted
    sort [] = []
    sort (x ∷ xs) = insert_sorted x (sort xs)

    pub In-insert_sorted : (x : A) (ys : List A) (a : A) → In a (insert_sorted x ys) → In a (x ∷ ys)
    unfolding insert_sorted
    In-insert_sorted x [] a i = i
    In-insert_sorted x (y ∷ ys) a i = ground (arith, In-insert_sorted x ys a)

    pub insert_sorted-In : (x : A) (ys : List A) (a : A) → In a (x ∷ ys) → In a (insert_sorted x ys)
    unfolding insert_sorted
    insert_sorted-In x [] a i = i
    insert_sorted-In x (y ∷ ys) a i = ground (arith, insert_sorted-In x ys a)

    -- Sorting keeps the elements, and makes none up.
    pub In-sort : (xs : List A) (a : A) → In a (sort xs) → In a xs
    unfolding sort
    In-sort [] a i = i
    In-sort (x ∷ xs) a i = ground (arith, In-insert_sorted x (sort xs) a i, In-sort xs a)

    pub sort-In : (xs : List A) (a : A) → In a xs → In a (sort xs)
    unfolding sort
    sort-In [] a i = i
    sort-In (x ∷ xs) a i = ground (arith, insert_sorted-In x (sort xs) a, sort-In xs a)

    pub sum_by-insert_sorted :
        (f : A → ℕ) (x : A) (ys : List A) → sum_by f (insert_sorted x ys) ≡ f x + sum_by f ys
    unfolding insert_sorted
    sum_by-insert_sorted f x [] = refl
    sum_by-insert_sorted f x (y ∷ ys) = ground (arith, sum_by-insert_sorted f x ys)

    pub sum_by-sort : (f : A → ℕ) (xs : List A) → sum_by f (sort xs) ≡ sum_by f xs
    unfolding sort
    sum_by-sort f [] = refl
    sum_by-sort f (x ∷ xs) = ground (arith, sum_by-insert_sorted f x (sort xs), sum_by-sort f xs)
