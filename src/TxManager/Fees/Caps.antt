-- ===== src/TxManager/Fees/Caps.antt =====
-- server/internal/blockchain/txmanager.go: transactions that `buildTx` and `buildBumpedTx` return.
use rwa_platform_evm.Common.{
  ℕ, ◌≡◌, refl, false, List, Option, none, some, arith, Bool-cases, if◌then◌else◌, inl, inr, subst,
  sym,
}
use rwa_platform_evm.Common.Result.{ok, ◌>>◌, >>=-eq-ok}
use rwa_platform_evm.TxManager.Fees.Bumps.{bump_fee_field-raises, IsRaised}
use rwa_platform_evm.Common.Int.{
  ℤ, pos, negsuc, ◌+ℤ◌, ◌*ℤ◌, int_ltb, IsAtMost, IsAtMost-of_ltb, IsAtMost-refl, ltb-IsAtMost,
}
use rwa_platform_evm.TxManager.Fees.{
  FeeCaps, FeeView, FeePolicy, Call, UnsignedTx, dynamic_fee_tx, legacy_tx, check_fee_caps,
  build_tx, build_dynamic, build_legacy, base_fee_of, bump_fee_field, bump_built, build_bumped_tx,
  exceeds, orig_tip, orig_fee, orig_price,
}

-- A value within an optional limit.
abbrev pub IsWithin : Option ℕ → ℤ → Type 0
IsWithin none x = Unit
IsWithin (some cap) x = IsAtMost x (pos cap)

-- The transaction does what the call asks, and its fees respect the caps.
abbrev pub Serves : FeePolicy → Call → UnsignedTx → Type 0
Serves p c (dynamic_fee_tx chain nonce tip fee gas to value input) =
    ((chain ≡ p.chain_id) × (nonce ≡ c.nonce) × (to ≡ c.to) × (value ≡ c.value) × (input ≡ c.input))
    × IsAtMost tip fee
    × IsWithin p.fee_caps.max_tip_per_gas tip
    × IsWithin p.fee_caps.max_fee_per_gas fee
    × IsWithin p.fee_caps.max_total_cost (fee *ℤ pos gas +ℤ pos value)
Serves p c (legacy_tx nonce price gas to value input) =
    ((nonce ≡ c.nonce) × (to ≡ c.to) × (value ≡ c.value) × (input ≡ c.input))
    × IsWithin p.fee_caps.max_fee_per_gas price
    × IsWithin p.fee_caps.max_total_cost (price *ℤ pos gas +ℤ pos value)

-- No fee is negative.
abbrev pub HasNoNegative : UnsignedTx → Type 0
HasNoNegative (dynamic_fee_tx _ _ tip fee _ _ _ _) = IsAtMost (pos 0) tip × IsAtMost (pos 0) fee
HasNoNegative (legacy_tx _ price _ _ _ _) = IsAtMost (pos 0) price

IsWithin-of_exceeds : (cap : Option ℕ) (x : ℤ) → exceeds cap x ≡ false → IsWithin cap x
IsWithin-of_exceeds none x h = tt
IsWithin-of_exceeds (some cap) x h = IsAtMost-of_ltb x (pos cap) h

check_fee_caps-ok :
    (caps : FeeCaps) (fee : ℤ) (gas value : ℕ)
    → check_fee_caps caps fee gas value ≡ ok tt
    → IsWithin caps.max_fee_per_gas fee × IsWithin caps.max_total_cost (fee *ℤ pos gas +ℤ pos value)
unfolding check_fee_caps
check_fee_caps-ok caps fee gas value h = elim (Bool-cases (exceeds caps.max_fee_per_gas fee)) [
  | inl y ↦ cc (rw y at h)
  | inr x ↦ elim (Bool-cases (exceeds caps.max_total_cost (fee *ℤ pos gas +ℤ pos value))) [
    | inl y ↦ cc (rw (x, y) at h)
    | inr z ↦ (
      IsWithin-of_exceeds caps.max_fee_per_gas fee x,
      IsWithin-of_exceeds caps.max_total_cost (fee *ℤ pos gas +ℤ pos value) z,
    )
  ]
]

checked-ok :
    (caps : FeeCaps) (fee : ℤ) (gas value : ℕ) (t tx : UnsignedTx)
    → (check_fee_caps caps fee gas value >> ok t) ≡ ok tx
    → (tx ≡ t)
      × IsWithin caps.max_fee_per_gas fee
      × IsWithin caps.max_total_cost (fee *ℤ pos gas +ℤ pos value)
checked-ok caps fee gas value t tx h =
    let (_, e, same) = >>=-eq-ok (check_fee_caps caps fee gas value) (λ _. ok t) h in
    let within = check_fee_caps-ok caps fee gas value e in (cc, within.0, within.1)

build_dynamic-Serves :
    (p : FeePolicy) (v : FeeView) (c : Call) (gas base : ℕ) (tx : UnsignedTx)
    → build_dynamic p v c gas base ≡ ok tx
    → Serves p c tx × HasNoNegative tx
unfolding build_dynamic
build_dynamic-Serves p v c gas base tx h =
    let (tip, _, rest) = >>=-eq-ok v.suggest_gas_tip_cap _ h in
    let cap = p.fee_caps.max_tip_per_gas in
    elim (Bool-cases (exceeds cap (pos tip))) [
      | inl over ↦ cc (rw over at rest)
      | inr under ↦
          let (same, fee_ok, cost_ok) =
            checked-ok p.fee_caps _ gas c.value _ tx (rw under at rest) in
          rw same (
            (
              (refl, refl, refl, refl, refl),
              omega arith,
              IsWithin-of_exceeds cap (pos tip) under,
              fee_ok,
              cost_ok,
            ),
            (omega arith, omega arith),
          )
    ]

build_legacy-Serves :
    (p : FeePolicy) (v : FeeView) (c : Call) (gas : ℕ) (tx : UnsignedTx)
    → build_legacy p v c gas ≡ ok tx
    → Serves p c tx × HasNoNegative tx
unfolding build_legacy
build_legacy-Serves p v c gas tx h =
    let (price, _, rest) = >>=-eq-ok v.suggest_gas_price _ h in
    let (same, fee_ok, cost_ok) = checked-ok p.fee_caps (pos price) gas c.value _ tx rest in
    rw same (((refl, refl, refl, refl), fee_ok, cost_ok), omega arith)

-- Whatever `buildTx` returns carries out the call at its nonce, with fees that are not negative and
-- within the caps.
pub build_tx-Serves :
    (p : FeePolicy) (v : FeeView) (c : Call) (tx : UnsignedTx)
    → build_tx p v c ≡ ok tx
    → Serves p c tx × HasNoNegative tx
unfolding build_tx
build_tx-Serves p v c tx h =
    let (estimate, _, rest) = >>=-eq-ok v.estimate_gas _ h in
    let (base, _, built) = >>=-eq-ok (base_fee_of p v) _ rest in with_base _ base built
  where
    with_base :
        (gas : ℕ) (base : Option ℕ)
        → elim base [ some fee ↦ build_dynamic p v c gas fee | none ↦ build_legacy p v c gas ]
          ≡ ok tx
        → Serves p c tx × HasNoNegative tx
    with_base gas (some fee) e = build_dynamic-Serves p v c gas fee tx e
    with_base gas none e = build_legacy-Serves p v c gas tx e

-- A replacement's fee is above an original one that is not negative, by ten percent at least.
abbrev pub IsAbove : ℤ → ℤ → Type 0
IsAbove (pos o) fee = IsRaised o fee
IsAbove (negsuc o) fee = Unit

-- So are all fees, where there is an original and it is of the same type.
abbrev pub Outbids : Option UnsignedTx → UnsignedTx → Type 0
Outbids (some (dynamic_fee_tx _ _ tip fee _ _ _ _)) (dynamic_fee_tx _ _ tip' fee' _ _ _ _) =
    IsAbove tip tip' × IsAbove fee fee'
Outbids (some (legacy_tx _ price _ _ _ _)) (legacy_tx _ price' _ _ _ _) = IsAbove price price'
Outbids _ _ = Unit

IsRaised-up : (o : ℕ) (x y : ℤ) → IsAtMost x y → IsRaised o x → IsRaised o y
IsRaised-up o (pos a) (pos b) h k = (ground arith, ground arith)
IsRaised-up o (pos a) (negsuc b) h k = h
IsRaised-up o (negsuc a) y h k = absurd k

IsAbove-up : (o x y : ℤ) → IsAtMost x y → IsAbove o x → IsAbove o y
IsAbove-up (pos o) x y h k = IsRaised-up o x y h k
IsAbove-up (negsuc o) x y h k = tt

bump_fee_field-IsAbove :
    (o current : ℤ) (percent : ℕ) → IsAbove o (bump_fee_field (some o) current percent)
bump_fee_field-IsAbove (pos o) current percent = bump_fee_field-raises o current percent
bump_fee_field-IsAbove (negsuc o) current percent = tt

larger-bounds :
    (bumped tip : ℤ)
    → let fee = if int_ltb bumped tip then tip else bumped in IsAtMost bumped fee × IsAtMost tip fee
larger-bounds bumped tip = elim (Bool-cases (int_ltb bumped tip)) [
  | inl y ↦ rw y (ltb-IsAtMost bumped tip y, IsAtMost-refl tip)
  | inr x ↦ rw x (IsAtMost-refl bumped, IsAtMost-of_ltb tip bumped x)
]

bump_dynamic-lem :
    (p : FeePolicy) (c : Call) (percent n1 n2 : ℕ) (base_tip base_fee : ℤ) (gas n3 n4 : ℕ)
    (l : List ℕ)
    → (orig : Option UnsignedTx) (tx : UnsignedTx)
    → bump_built p c percent orig (dynamic_fee_tx n1 n2 base_tip base_fee gas n3 n4 l) ≡ ok tx
    → let tip = bump_fee_field (orig_tip orig) base_tip percent in
      let bumped = bump_fee_field (orig_fee orig) base_fee percent in
      (fee : ℤ) × (tx ≡ dynamic_fee_tx p.chain_id c.nonce tip fee gas c.to c.value c.input)
      × IsAtMost bumped fee
      × Serves p c tx
unfolding bump_built
bump_dynamic-lem p c percent n1 n2 base_tip base_fee gas n3 n4 l orig tx h =
    let cap = p.fee_caps.max_tip_per_gas in
    let tip = bump_fee_field (orig_tip orig) base_tip percent in
    let bumped = bump_fee_field (orig_fee orig) base_fee percent in
    let fee = if int_ltb bumped tip then tip else bumped in
    let (above, over_tip) = larger-bounds bumped tip in
    elim (Bool-cases (exceeds cap tip)) [
      | inl over ↦ cc (rw over at h)
      | inr under ↦
          let (same, fee_ok, cost_ok) =
            checked-ok p.fee_caps fee gas c.value _ tx (rw under at h) in
          (
            fee,
            same,
            above,
            rw same (
              (refl, refl, refl, refl, refl),
              over_tip,
              IsWithin-of_exceeds cap tip under,
              fee_ok,
              cost_ok,
            ),
          )
    ]

bump_legacy-lem :
    (p : FeePolicy) (c : Call) (percent n1 : ℕ) (base_price : ℤ) (gas n3 n4 : ℕ) (l : List ℕ)
    → (orig : Option UnsignedTx) (tx : UnsignedTx)
    → bump_built p c percent orig (legacy_tx n1 base_price gas n3 n4 l) ≡ ok tx
    → let price = bump_fee_field (orig_price orig) base_price percent in
      (tx ≡ legacy_tx c.nonce price gas c.to c.value c.input) × Serves p c tx
unfolding bump_built
bump_legacy-lem p c percent n1 base_price gas n3 n4 l orig tx h =
    let price = bump_fee_field (orig_price orig) base_price percent in
    let (same, fee_ok, cost_ok) = checked-ok p.fee_caps price gas c.value _ tx h in
    (same, rw same ((refl, refl, refl, refl), fee_ok, cost_ok))

dynamic-Outbids :
    (orig : Option UnsignedTx) (base_tip base_fee : ℤ) (percent n1 n2 : ℕ) (fee : ℤ) (gas n3 n4 : ℕ)
    (l : List ℕ)
    → IsAtMost (bump_fee_field (orig_fee orig) base_fee percent) fee
    → Outbids orig
        (dynamic_fee_tx n1 n2 (bump_fee_field (orig_tip orig) base_tip percent) fee gas n3 n4 l)
unfolding orig_tip orig_fee
dynamic-Outbids none base_tip base_fee percent n1 n2 fee gas n3 n4 l h = tt
dynamic-Outbids (some (legacy_tx _ _ _ _ _ _)) base_tip base_fee percent n1 n2 fee gas n3 n4 l h =
    tt
dynamic-Outbids (some (dynamic_fee_tx _ _ t f _ _ _ _)) base_tip base_fee percent n1 n2 fee gas n3
      n4 l h =
    (
      bump_fee_field-IsAbove t base_tip percent,
      IsAbove-up f _ fee h (bump_fee_field-IsAbove f base_fee percent),
    )

legacy-Outbids :
    (orig : Option UnsignedTx) (base_price : ℤ) (percent n1 gas n3 n4 : ℕ) (l : List ℕ)
    → Outbids orig (legacy_tx n1 (bump_fee_field (orig_price orig) base_price percent) gas n3 n4 l)
unfolding orig_price
legacy-Outbids none base_price percent n1 gas n3 n4 l = tt
legacy-Outbids (some (legacy_tx _ q _ _ _ _)) base_price percent n1 gas n3 n4 l =
    bump_fee_field-IsAbove q base_price percent
legacy-Outbids (some (dynamic_fee_tx _ _ _ _ _ _ _ _)) base_price percent n1 gas n3 n4 l = tt

bump_built-lem :
    (p : FeePolicy) (c : Call) (percent : ℕ) (orig : Option UnsignedTx) (base tx : UnsignedTx)
    → bump_built p c percent orig base ≡ ok tx
    → Serves p c tx × Outbids orig tx
bump_built-lem p c percent orig (dynamic_fee_tx n1 n2 base_tip base_fee gas n3 n4 l) tx h =
    let (fee, same, above, serves) =
      bump_dynamic-lem p c percent n1 n2 base_tip base_fee gas n3 n4 l orig tx h in
    (
      serves,
      subst (Outbids orig) (sym same) (
          dynamic-Outbids orig base_tip base_fee percent p.chain_id c.nonce fee gas c.to c.value
            c.input above),
    )
bump_built-lem p c percent orig (legacy_tx n1 base_price gas n3 n4 l) tx h =
    let (same, serves) = bump_legacy-lem p c percent n1 base_price gas n3 n4 l orig tx h in
    (
      serves,
      subst (Outbids orig) (sym same)
          (legacy-Outbids orig base_price percent c.nonce gas c.to c.value c.input),
    )

-- Any replacement carries out the same call at the same nonce within the caps, and its tip is not above
-- its fee cap, also where the original is missing or of another type and for percentages that wrap. It
-- outbids an original of its own type: each fee is above the original's and ten percent more at least,
-- where the original's is not negative.
pub build_bumped_tx-Outbids :
    (p : FeePolicy) (v : FeeView) (c : Call) (percent : ℕ) (orig : Option UnsignedTx)
    (tx : UnsignedTx)
    → build_bumped_tx p v c percent orig ≡ ok tx
    → Serves p c tx × Outbids orig tx
unfolding build_bumped_tx
build_bumped_tx-Outbids p v c percent orig tx h =
    let (base, _, bumped) = >>=-eq-ok (build_tx p v c) _ h in
    bump_built-lem p c percent orig base tx bumped
