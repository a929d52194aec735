-- ===== src/Common/Text.antt =====
-- Texts as the code points that Go's parsers walk, and `strconv.ParseInt` in base 10.
use Prim.Native.Nat.{ℕ, ◌+◌, ◌-◌, ◌*◌, ◌^◌}
use Prim.Native.Char.{code}
use Prim.Native.String.{String}
use mathlib.Core.Bool.{Bool, ◌&&◌}
use mathlib.Core.List.{List, [], ◌∷◌}
use rwa_platform_evm.Common.Tests.{ltb, leb, ◌==◌, nat_eq, if◌then◌else◌}

abbrev pub codes : String → List ℕ
codes String.[] = []
codes (String.◌∷◌ c s) = code c ∷ codes s

abbrev pub is_digit : ℕ → Bool
is_digit c = leb b'0' c && leb c b'9'

-- A number of at most 64 bits, a text that is none, or one that is too large. The first digit that
-- overflows ends the scan.
pub data Numeral : Type 0 where
  number : ℕ → Numeral
  no_number too_large : Numeral

scan_digits : ℕ → List ℕ → Numeral
scan_digits n [] = number n
scan_digits n (c ∷ cs) =
    let m = n * 10 + (c - b'0') in
    let rest = scan_digits m cs in
    if is_digit c then (if ltb m (2 ^ 64) then rest else too_large) else no_number

scan_uint : List ℕ → Numeral
unfolding scan_digits
scan_uint [] = no_number
scan_uint (c ∷ cs) = scan_digits 0 (c ∷ cs)

-- The bit pattern of an `int64` with the sign and the size, or of the nearest one.
positive : Numeral → ℕ
positive no_number = 0
positive too_large = 2 ^ 63 - 1
positive (number n) = if ltb n (2 ^ 63) then n else 2 ^ 63 - 1

negative : Numeral → ℕ
negative no_number = 0
negative too_large = 2 ^ 63
negative (number n) = if leb n (2 ^ 63) then (if n == 0 then 0 else 2 ^ 64 - n) else 2 ^ 63

scan_signed : List ℕ → ℕ
unfolding scan_uint positive negative
scan_signed [] = 0
scan_signed (c ∷ cs) =
    if c == b'-'
    then negative (scan_uint cs)
    else if c == b'+'
    then positive (scan_uint cs)
    else positive (scan_uint (c ∷ cs))

-- `n, _ := strconv.ParseInt(s, 10, 64)`, as a bit pattern.
unfoldable pub parse_int : String → ℕ
unfolding scan_signed
parse_int s = scan_signed (codes s)
