-- ===== src/TxManager/Fees/Bumps.antt =====
-- server/internal/blockchain/txmanager.go: what `ceilPercent` and `bumpFeeField` promise.
use rwa_platform_evm.Common.{
  ℕ, ◌+◌, ◌*◌, ◌/◌, ◌^◌, ◌≤◌, ◌<◌, some, arith, ltb, if◌then◌else◌, ◌≡◌, refl, Bool-cases, inl, inr,
}
use rwa_platform_evm.Common.Int.{ℤ, pos, negsuc, IsAtMost, int_ltb, int64_of-small, ◌+ℤ◌}
use rwa_platform_evm.TxManager.Fees.{ceil_percent, bump_fee_field, raise_over}

-- The whole wei from `v * (100 + pct) / 100` upwards.
abbrev pub up_by : ℕ → ℕ → ℕ
up_by v pct = (v * (100 + pct) + 99) / 100

up_by-bounds :
    (v pct : ℕ)
    → (v * (100 + pct) ≤ 100 * up_by v pct) × (100 * up_by v pct < v * (100 + pct) + 100)
up_by-bounds v pct = (omega arith, omega arith)

ceil_percent_lem : (v pct : ℕ) → 100 + pct < 2 ^ 63 → ceil_percent (pos v) pct ≡ pos (up_by v pct)
unfolding ceil_percent
ceil_percent_lem v pct h = rw (int64_of-small (100 + pct) h) refl

-- For a fee that is not negative and a percentage whose sum with 100 is below 2^63, so that it does not
-- wrap, the result is the least number of whole wei that is at least `v * (100 + pct) / 100`.
pub ceil_percent-IsCeiling :
    (v pct : ℕ)
    → 100 + pct < 2 ^ 63
    → (n : ℕ) × (ceil_percent (pos v) pct ≡ pos n)
      × (v * (100 + pct) ≤ 100 * n)
      × (100 * n < v * (100 + pct) + 100)
ceil_percent-IsCeiling v pct h =
    let up = up_by-bounds v pct in (up_by v pct, ceil_percent_lem v pct h, up.0, up.1)

mul_le : (x y k : ℕ) → x ≤ y → x * k ≤ y * k
mul_le x y k h = grind arith

-- A fee is above an original one, by ten percent at least.
abbrev pub IsRaised : ℕ → ℤ → Type 0
IsRaised o (pos n) = (o < n) × (o * 110 ≤ 100 * n)
IsRaised o (negsuc n) = ⊥

IsRaised-from :
    (o m : ℕ) (b : ℤ)
    → o * 110 ≤ 100 * m
    → let b' = if int_ltb b (pos m) then pos m else b in
      let r = if int_ltb (pos o) b' then b' else pos o +ℤ pos 1 in IsRaised o r × IsAtMost b r
IsRaised-from o m (pos b) h = elim (Bool-cases (ltb b m)) [
  | inl y ↦ elim (Bool-cases (ltb o m)) [
    | inl z ↦ rw (y, z) ((ground arith, h), ground arith)
    | inr z ↦ rw (y, z) ((ground arith, ground arith), ground arith)
  ]
  | inr x ↦ elim (Bool-cases (ltb o b)) [
    | inl z ↦ rw (x, z) ((ground arith, ground arith), ground arith)
    | inr z ↦ rw (x, z) ((ground arith, ground arith), ground arith)
  ]
]
IsRaised-from o m (negsuc b) h = elim (Bool-cases (ltb o m)) [
  | inl z ↦ rw z ((ground arith, h), tt)
  | inr z ↦ rw z ((ground arith, ground arith), tt)
]

raise_over_lem :
    (o : ℕ) (b : ℤ) → IsRaised o (raise_over (pos o) b) × IsAtMost b (raise_over (pos o) b)
unfolding raise_over
raise_over_lem o b =
    rw (ceil_percent_lem o 10 (ground arith)) (IsRaised-from o (up_by o 10) b (up_by-bounds o 10).0)

-- Whatever the percentage, a bumped fee is not negative and outbids an original that is not negative.
pub bump_fee_field-raises :
    (original : ℕ) (current : ℤ) (percent : ℕ)
    → IsRaised original (bump_fee_field (some (pos original)) current percent)
unfolding bump_fee_field
bump_fee_field-raises original current percent = (raise_over_lem original _).0

-- Above the original by ten percent at least, and the requested bump above a base.
abbrev pub Outbid : (original current percent : ℕ) → ℤ → Type 0
Outbid original current percent (pos n) =
    (original < n)
    × (original * 110 ≤ 100 * n)
    × (original * (100 + percent) ≤ 100 * n)
    × (current * (100 + percent) ≤ 100 * n)
Outbid original current percent (negsuc n) = ⊥

Outbid-of_raised :
    (o c percent base : ℕ) (r : ℤ)
    → o ≤ base
    → c ≤ base
    → IsRaised o r
    → IsAtMost (pos (up_by base percent)) r
    → Outbid o c percent r
Outbid-of_raised o c percent base (pos n) h k raised above =
    let up = up_by-bounds base percent in
    let at = λ (x : ℕ) (q : x ≤ base). mul_le x base (100 + percent) q in
    (raised.0, raised.1, omega (arith, up.0, above, at o h), omega (arith, up.0, above, at c k))
Outbid-of_raised o c percent base (negsuc n) h k raised above = raised

raise_over-outbids :
    (o c percent base : ℕ)
    → 100 + percent < 2 ^ 63
    → o ≤ base
    → c ≤ base
    → Outbid o c percent (raise_over (pos o) (ceil_percent (pos base) percent))
raise_over-outbids o c percent base h k l = rw (ceil_percent_lem base percent h) (
    let raised = raise_over_lem o (pos (up_by base percent)) in
    Outbid-of_raised o c percent base _ k l raised.0 raised.1)

-- A bumped fee outbids the original: it is above it, by ten percent at least, and it is the
-- requested bump above the original and above the fresh suggestion alike, for fees that are not
-- negative and a percentage whose sum with 100 is below 2^63, so that it does not wrap.
pub bump_fee_field-outbids :
    (original current percent : ℕ)
    → 100 + percent < 2 ^ 63
    → Outbid original current percent (bump_fee_field (some (pos original)) (pos current) percent)
unfolding bump_fee_field
bump_fee_field-outbids original current percent h = elim (Bool-cases (ltb current original)) [
  | inl y ↦
      rw y (raise_over-outbids original current percent original h (ground arith) (ground arith))
  | inr x ↦
      rw x (raise_over-outbids original current percent current h (ground arith) (ground arith))
]
