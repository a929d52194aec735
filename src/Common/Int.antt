-- ===== src/Common/Int.antt =====
-- Go's `*big.Int` over the native numbers. `quo` truncates towards zero, as `Quo` does.
use Prim.Native.Nat.{ℕ, zero, suc, ◌+◌, ◌-◌, ◌*◌, ◌/◌, ◌%◌, ◌^◌, ◌≤◌, ◌<◌}
use Prim.Native.String.{String}
use mathlib.Core.Bool.{Bool, true, false}
use mathlib.Core.List.{List, [], ◌∷◌}
use mathlib.Core.Option.{Option, none, some}
use mathlib.Core.Path.{◌≡◌}
use native.Mathlib.Omega.{arith}
use rwa_platform_evm.Common.Tests.{leb, ltb, ◌==◌, nat_eq, if◌then◌else◌}
use rwa_platform_evm.Common.Text.{codes, is_digit}

pub data ℤ : Type 0 where
  pos : ℕ → ℤ
  negsuc : ℕ → ℤ

abbrev pub negate : ℤ → ℤ
negate (pos zero) = pos 0
negate (pos (suc n)) = negsuc n
negate (negsuc n) = pos (suc n)

abbrev pub nat_sub : ℕ → ℕ → ℤ
nat_sub a b = if leb b a then pos (a - b) else negsuc (b - a - 1)

infixl 6 ◌+ℤ◌
abbrev pub ◌+ℤ◌ : ℤ → ℤ → ℤ
pos a +ℤ pos b = pos (a + b)
pos a +ℤ negsuc b = nat_sub a (suc b)
negsuc a +ℤ pos b = nat_sub b (suc a)
negsuc a +ℤ negsuc b = negsuc (suc (a + b))

abbrev pub abs : ℤ → ℕ
abs (pos n) = n
abs (negsuc n) = suc n

abbrev pub same_sign : ℤ → ℤ → ℕ → ℤ
same_sign (pos _) (pos _) n = pos n
same_sign (negsuc _) (negsuc _) n = pos n
same_sign _ _ n = negate (pos n)

infixl 7 ◌*ℤ◌
abbrev pub ◌*ℤ◌ : ℤ → ℤ → ℤ
a *ℤ b = same_sign a b (abs a * abs b)

abbrev pub quo : ℤ → ℤ → ℤ
quo a b = same_sign a b (abs a / abs b)

-- Division by a positive number, rounded down, which is `Div` for such a divisor.
abbrev pub div_down : ℤ → ℕ → ℤ
div_down (pos n) d = pos (n / d)
div_down (negsuc n) d = negsuc (n / d)

abbrev pub int_ltb : ℤ → ℤ → Bool
int_ltb (pos a) (pos b) = ltb a b
int_ltb (pos a) (negsuc b) = false
int_ltb (negsuc a) (pos b) = true
int_ltb (negsuc a) (negsuc b) = ltb b a

abbrev pub IsAtMost : ℤ → ℤ → Type 0
IsAtMost (pos a) (pos b) = a ≤ b
IsAtMost (pos a) (negsuc b) = ⊥
IsAtMost (negsuc a) (pos b) = Unit
IsAtMost (negsuc a) (negsuc b) = b ≤ a

-- The `int64` with the 64 bits of a number; higher bits are lost.
abbrev pub int64_of : ℕ → ℤ
int64_of n =
    let bits = n % 2 ^ 64 in if ltb bits (2 ^ 63) then pos bits else negsuc (2 ^ 64 - 1 - bits)

pub IsAtMost-of_ltb : (a b : ℤ) → int_ltb b a ≡ false → IsAtMost a b
IsAtMost-of_ltb (pos a) (pos b) h = ground arith
IsAtMost-of_ltb (pos a) (negsuc b) h = cc
IsAtMost-of_ltb (negsuc a) (pos b) h = tt
IsAtMost-of_ltb (negsuc a) (negsuc b) h = ground arith

pub IsAtMost-refl : (a : ℤ) → IsAtMost a a
IsAtMost-refl (pos a) = ground arith
IsAtMost-refl (negsuc a) = ground arith

pub ltb-IsAtMost : (a b : ℤ) → int_ltb a b ≡ true → IsAtMost a b
ltb-IsAtMost (pos a) (pos b) h = ground arith
ltb-IsAtMost (pos a) (negsuc b) h = cc
ltb-IsAtMost (negsuc a) (pos b) h = tt
ltb-IsAtMost (negsuc a) (negsuc b) h = ground arith

pub int64_of-small : (n : ℕ) → n < 2 ^ 63 → int64_of n ≡ pos n
int64_of-small n h = ground arith

abbrev pub is_zero : ℤ → Bool
is_zero (pos zero) = true
is_zero _ = false

abbrev pub int_beq : ℤ → ℤ → Bool
int_beq (pos a) (pos b) = a == b
int_beq (negsuc a) (negsuc b) = a == b
int_beq _ _ = false

-- The number of a text of digits, at least one.
read_digits : ℕ → List ℕ → Option ℕ
read_digits n [] = some n
read_digits n (c ∷ cs) =
    let rest = read_digits (n * 10 + (c - b'0')) cs in if is_digit c then rest else none

read_nat : List ℕ → Option ℕ
unfolding read_digits
read_nat [] = none
read_nat (c ∷ cs) = read_digits 0 (c ∷ cs)

with_sign : Bool → Option ℕ → Option ℤ
with_sign b none = none
with_sign true (some n) = some (negate (pos n))
with_sign false (some n) = some (pos n)

read_int : List ℕ → Option ℤ
unfolding read_nat with_sign
read_int [] = none
read_int (c ∷ cs) =
    if c == b'-'
    then with_sign true (read_nat cs)
    else if c == b'+'
    then with_sign false (read_nat cs)
    else with_sign false (read_nat (c ∷ cs))

-- `new(big.Int).SetString(s, 10)`.
unfoldable pub set_string : String → Option ℤ
unfolding read_int
set_string s = read_int (codes s)
