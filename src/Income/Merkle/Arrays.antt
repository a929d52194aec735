-- ===== src/Income/Merkle/Arrays.antt =====
-- server/internal/income/merkle.go: reads and writes of the slice of nodes.
use rwa_platform_evm.Common.{
  ℕ, zero, suc, ◌<◌, ◌≡◌, refl, List, [], ◌∷◌, some, if◌then◌else◌, ◌==◌, nat_eq, nat_beq_iff, ◌≢◌,
  length, get_elem?, arith,
}
use rwa_platform_evm.Models.Transaction.{Hash}
use rwa_platform_evm.Income.Merkle.{set_at, write, zeros}

pub length-set_at : (i : ℕ) (h : Hash) (xs : List Hash) → length (set_at i h xs) ≡ length xs
unfolding set_at
length-set_at i h [] = refl
length-set_at zero h (x ∷ xs) = refl
length-set_at (suc i) h (x ∷ xs) = ground (arith, length-set_at i h xs)

pub get-set_at :
    (i j : ℕ) (h : Hash) (xs : List Hash)
    → i < length xs
    → get_elem? (set_at i h xs) j ≡ (if i == j then some h else get_elem? xs j)
unfolding set_at
get-set_at i j h [] l = absurd (omega arith)
get-set_at zero zero h (x ∷ xs) l = ground arith
get-set_at zero (suc j) h (x ∷ xs) l = ground arith
get-set_at (suc i) zero h (x ∷ xs) l = ground arith
get-set_at (suc i) (suc j) h (x ∷ xs) l = ground (arith, get-set_at i j h xs)

pub get-found : (i : ℕ) (xs : List Hash) → i < length xs → (x : Hash) × (get_elem? xs i ≡ some x)
get-found i [] l = absurd (omega arith)
get-found zero (x ∷ xs) l = (x, refl)
get-found (suc i) (x ∷ xs) l = get-found i xs (omega arith)

pub write-found :
    (i : ℕ) (h : Hash) (xs : List Hash) → i < length xs → write i h xs ≡ some (set_at i h xs)
unfolding write
write-found i h xs l = ground arith

pub length-zeros : (n : ℕ) → length (zeros n) ≡ n
length-zeros zero = refl
length-zeros (suc n) = ground (arith, length-zeros n)

pub get-set_at_self :
    (i : ℕ) (h : Hash) (xs : List Hash) → i < length xs → get_elem? (set_at i h xs) i ≡ some h
get-set_at_self i h xs l = ground (arith, get-set_at i i h xs)

pub get-set_at_other :
    (i j : ℕ) (h : Hash) (xs : List Hash)
    → i < length xs
    → i ≢ j
    → get_elem? (set_at i h xs) j ≡ get_elem? xs j
get-set_at_other i j h xs l n = ground (arith, get-set_at i j h xs, nat_beq_iff i j)
