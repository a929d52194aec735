-- ===== src/Common/Dict.antt =====
-- A Go map as an association list, each key once. An insert replaces in place, so that a key stays
-- where it was first put.
use mathlib.Core.Path.{◌≡◌, refl}
use mathlib.Core.Bool.{Bool}
use mathlib.Core.Logic.{◌≢◌}
use mathlib.Core.List.{List, [], ◌∷◌}
use mathlib.Core.Option.{Option, none, some}
use native.Mathlib.Omega.{arith}
use rwa_platform_evm.Common.Tests.{Eq, ◌==◌, if◌then◌else◌, beq_refl}

module _ {ℓ κ} {K : Type ℓ} {V : Type κ} ⦃e : Eq K⦄ where
  unfoldable pub lookup : K → List (K × V) → Option V
  lookup key [] = none
  lookup key ((i, val) ∷ rest) = if i == key then some val else lookup key rest

  unfoldable pub insert : K → V → List (K × V) → List (K × V)
  insert key new [] = (key, new) ∷ []
  insert key new ((i, old) ∷ rest) =
      if i == key then (key, new) ∷ rest else (i, old) ∷ insert key new rest

  -- The entries that a test of key and value rejects.
  unfoldable pub delete_if : (K → V → Bool) → List (K × V) → List (K × V)
  delete_if p [] = []
  delete_if p ((i, val) ∷ m) = let rest = delete_if p m in if p i val then rest else (i, val) ∷ rest

  abbrev pub delete : K → List (K × V) → List (K × V)
  delete key = delete_if (λ i _. i == key)

  pub lookup-insert :
      (key other : K) (val : V) (d : List (K × V))
      → lookup other (insert key val d) ≡ (if key == other then some val else lookup other d)
  unfolding lookup insert
  lookup-insert key other val ((i, old) ∷ rest) = ground (
    arith,
    lookup-insert key other val rest,
    e.beq_iff i other,
    e.beq_iff i key,
    e.beq_iff key other,
  )
  lookup-insert key other val [] = refl

  pub lookup-insert_self :
      (key : K) (val : V) (d : List (K × V)) → lookup key (insert key val d) ≡ some val
  lookup-insert_self key val d = ground (arith, lookup-insert key key val d, beq_refl key)

  pub lookup-insert_other :
      (key other : K) (val : V) (d : List (K × V))
      → key ≢ other
      → lookup other (insert key val d) ≡ lookup other d
  lookup-insert_other key other val d n =
      ground (arith, lookup-insert key other val d, e.beq_iff key other)

  -- No key stands twice, as in every Go map.
  abbrev pub IsMap : List (K × V) → Type κ
  IsMap [] = Unit
  IsMap ((i, val) ∷ rest) = (lookup i rest ≡ none) × IsMap rest

  pub insert-IsMap : (key : K) (val : V) (d : List (K × V)) → IsMap d → IsMap (insert key val d)
  unfolding insert lookup
  insert-IsMap key val [] h = (refl, tt)
  insert-IsMap key val ((i, old) ∷ rest) (fresh, h) = ground (
    arith,
    insert-IsMap key val rest,
    lookup-insert key i val rest,
    e.beq_iff i key,
    e.beq_iff key i,
  )

  -- What a deletion leaves under a key.
  abbrev pub unless : (K → V → Bool) → K → Option V → Option V
  unless p key none = none
  unless p key (some val) = if p key val then none else some val

  lookup-delete_if_fresh :
      (p : K → V → Bool) (key : K) (d : List (K × V))
      → lookup key d ≡ none
      → lookup key (delete_if p d) ≡ none
  unfolding lookup delete_if
  lookup-delete_if_fresh p key [] h = refl
  lookup-delete_if_fresh p key ((i, val) ∷ rest) h =
      ground (arith, lookup-delete_if_fresh p key rest)

  pub lookup-delete_if :
      (p : K → V → Bool) (key : K) (d : List (K × V))
      → IsMap d
      → lookup key (delete_if p d) ≡ unless p key (lookup key d)
  unfolding lookup delete_if
  lookup-delete_if p key [] h = refl
  lookup-delete_if p key ((i, val) ∷ rest) (fresh, h) =
      ground
        (arith, lookup-delete_if p key rest, lookup-delete_if_fresh p key rest, e.beq_iff i key)
