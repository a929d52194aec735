-- ===== src/Common/Rows.antt =====
-- A Go map of rows by a text that each row holds itself.
use mathlib.Core.Path.{◌≡◌, refl, sym, ◌∙◌, ap}
use mathlib.Core.Logic.{inl, inr}
use mathlib.Core.List.{List, [], ◌∷◌, map}
use mathlib.Core.Option.{none, some}
use native.Mathlib.Omega.{arith}
use text.Mathlib.TextEquality.{eq_iff}
use Prim.Native.String.{String}
use rwa_platform_evm.Common.Tests.{◌==◌, string_eq, Bool-cases}
use rwa_platform_evm.Common.Dict.{lookup, insert, lookup-insert}
use rwa_platform_evm.Common.Sort.{In}

module _ {V : Type 0} (key_of : V → String) where
  -- Each row stands under its own text, and no text stands twice.
  abbrev pub AreRows : List (String × V) → Type 0
  AreRows [] = Unit
  AreRows ((k, v) ∷ m) = (key_of v ≡ k) × (lookup k m ≡ none) × AreRows m

  pub lookup-key_of :
      (m : List (String × V)) (k : String) (v : V) → AreRows m → lookup k m ≡ some v → key_of v ≡ k
  unfolding lookup
  lookup-key_of [] k v h e = cc
  lookup-key_of ((j, x) ∷ m) k v (own, fresh, h) e = elim (Bool-cases (j == k)) [
    | inl y ↦
        let q : some x ≡ some v = rw y at e in
        let same : x ≡ v = cc in ap key_of (sym same) ∙ own ∙ (eq_iff j k).0 y
    | inr n ↦ lookup-key_of m k v h (rw n at e)
  ]

  pub insert-AreRows :
      (m : List (String × V)) (k : String) (v : V)
      → key_of v ≡ k
      → AreRows m
      → AreRows (insert k v m)
  unfolding insert lookup
  insert-AreRows [] k v own h = (own, refl, tt)
  insert-AreRows ((j, x) ∷ m) k v own (at_j, fresh, h) =
      ground (arith, insert-AreRows m k v own, lookup-insert k j v m, eq_iff j k, eq_iff k j)

  pub lookup-row :
      (m : List (String × V)) (v : V)
      → AreRows m
      → In v (map (λ e. e.1) m)
      → lookup (key_of v) m ≡ some v
  unfolding lookup
  lookup-row [] v h i = absurd i
  lookup-row ((j, x) ∷ m) v (own, fresh, h) (inl e) =
      let same : j ≡ key_of v = sym own ∙ ap key_of (sym e) in
      rw ((eq_iff j (key_of v)).1 same) (ap some (sym e))
  lookup-row ((j, x) ∷ m) v (own, fresh, h) (inr i) =
      let rest = lookup-row m v h i in
      elim (Bool-cases (j == key_of v)) [
        | inl y ↦ let same : j ≡ key_of v = (eq_iff j (key_of v)).0 y in cc (same, fresh, rest)
        | inr n ↦ rw n rest
      ]

  pub row-In :
      (m : List (String × V)) (k : String) (v : V) → lookup k m ≡ some v → In v (map (λ e. e.1) m)
  unfolding lookup
  row-In [] k v h = cc
  row-In ((j, x) ∷ m) k v h = ground (arith, row-In m k v)
