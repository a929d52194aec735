-- ===== src/TxManager/Fees.antt =====
-- server/internal/blockchain/txmanager.go: fees of transactions and of their replacements. The fees
-- of a transaction are `big.Int`; what the node suggests, the limits and the value are not negative. The
-- gas limit is a `uint64` that wraps. A bump percentage is the 64 bits of an `int64`.
pub mod Bumps
pub mod Caps
use rwa_platform_evm.Common.{
  ℕ, ◌+◌, ◌*◌, ◌/◌, ◌%◌, ◌^◌, Bool, false, List, Option, none, some, if◌then◌else◌, ltb, leb,
}
use rwa_platform_evm.Common.Int.{ℤ, pos, ◌+ℤ◌, ◌*ℤ◌, div_down, int_ltb, int64_of}
use rwa_platform_evm.Common.Result.{Result, ok, err, ◌>>=◌, ◌>>◌}
use rwa_platform_evm.Models.Transaction.{Address}

pub data FeeMode : Type 0 where
  eip1559 legacy : FeeMode

-- `nil` disables a limit.
pub record FeeCaps : Type 0 where
  pub max_fee_per_gas : Option ℕ
  pub max_tip_per_gas : Option ℕ
  pub max_total_cost : Option ℕ

-- go-ethereum's `types.NewTx` of a `DynamicFeeTx` or a `LegacyTx`, not signed yet.
pub data UnsignedTx : Type 0 where
  dynamic_fee_tx : (chain_id nonce : ℕ) (tip fee : ℤ) (gas to value : ℕ) → List ℕ → UnsignedTx
  legacy_tx : (nonce : ℕ) (price : ℤ) (gas to value : ℕ) → List ℕ → UnsignedTx

pub data FeeError : Type 0 where
  rpc_failed tip_over_cap fee_over_cap cost_over_cap : FeeError

-- What the node answers while a transaction is built; `none` in the header is an absent base fee.
pub record FeeView : Type 0 where
  pub estimate_gas : Result FeeError ℕ
  pub header_base_fee : Result FeeError (Option ℕ)
  pub suggest_gas_tip_cap : Result FeeError ℕ
  pub suggest_gas_price : Result FeeError ℕ

pub record FeePolicy : Type 0 where
  pub fee_mode : FeeMode
  pub fee_caps : FeeCaps
  pub gas_limit_buffer_percent : ℕ
  pub chain_id : ℕ

-- What a caller asks a transaction to do.
pub record Call : Type 0 where
  pub to : Address
  pub input : List ℕ
  pub value : ℕ
  pub nonce : ℕ

abbrev pub uint64_mod : ℕ
uint64_mod = 2 ^ 64

abbrev pub exceeds : Option ℕ → ℤ → Bool
exceeds none x = false
exceeds (some cap) x = int_ltb (pos cap) x

unfoldable pub check_fee_caps : FeeCaps → ℤ → ℕ → ℕ → Result FeeError (Unit {0})
check_fee_caps caps per_gas_fee gas_limit value =
    if exceeds caps.max_fee_per_gas per_gas_fee
    then err fee_over_cap
    else if exceeds caps.max_total_cost (per_gas_fee *ℤ pos gas_limit +ℤ pos value)
    then err cost_over_cap
    else ok tt

abbrev buffered_gas : ℕ → ℕ → ℕ
buffered_gas gas percent = gas * (100 + percent) % uint64_mod / 100

build_dynamic : FeePolicy → FeeView → Call → ℕ → ℕ → Result FeeError UnsignedTx
unfolding check_fee_caps
build_dynamic p v c gas base_fee = v.suggest_gas_tip_cap >>= λ tip.
    let fee = base_fee * 2 + tip in
    if exceeds p.fee_caps.max_tip_per_gas (pos tip)
    then err tip_over_cap
    else (check_fee_caps p.fee_caps (pos fee) gas c.value
        >> ok (dynamic_fee_tx p.chain_id c.nonce (pos tip) (pos fee) gas c.to c.value c.input))

build_legacy : FeePolicy → FeeView → Call → ℕ → Result FeeError UnsignedTx
unfolding check_fee_caps
build_legacy p v c gas = do
  price ← v.suggest_gas_price
  check_fee_caps p.fee_caps (pos price) gas c.value
  ok (legacy_tx c.nonce (pos price) gas c.to c.value c.input)

-- The base fee to build on: none in legacy mode, or where the header has none.
base_fee_of : FeePolicy → FeeView → Result FeeError (Option ℕ)
base_fee_of p v = elim p.fee_mode [ eip1559 ↦ v.header_base_fee | legacy ↦ ok none ]

unfoldable pub build_tx : FeePolicy → FeeView → Call → Result FeeError UnsignedTx
unfolding build_dynamic build_legacy base_fee_of
build_tx p v c = do
  estimate ← v.estimate_gas
  let gas = buffered_gas estimate p.gas_limit_buffer_percent
  base ← base_fee_of p v
  elim base [ some fee ↦ build_dynamic p v c gas fee | none ↦ build_legacy p v c gas ]

abbrev pub replacement_min_bump_percent : ℕ
replacement_min_bump_percent = 10

-- `100 + pct` is an `int64`, which wraps.
unfoldable pub ceil_percent : ℤ → ℕ → ℤ
ceil_percent v pct = div_down (v *ℤ int64_of (100 + pct) +ℤ pos 99) 100

raise_over : ℤ → ℤ → ℤ
unfolding ceil_percent
raise_over original bumped =
    let min_repl = ceil_percent original replacement_min_bump_percent in
    let bumped' = if int_ltb bumped min_repl then min_repl else bumped in
    if int_ltb original bumped' then bumped' else original +ℤ pos 1

unfoldable pub bump_fee_field : Option ℤ → ℤ → ℕ → ℤ
unfolding ceil_percent raise_over
bump_fee_field none current percent = ceil_percent current percent
bump_fee_field (some original) current percent =
    raise_over original
      (ceil_percent (if int_ltb current original then original else current) percent)

-- The original's tip and fee cap, or gas price, if its type is that of the rebuilt transaction.
orig_tip : Option UnsignedTx → Option ℤ
orig_tip (some (dynamic_fee_tx _ _ tip _ _ _ _ _)) = some tip
orig_tip _ = none

orig_fee : Option UnsignedTx → Option ℤ
orig_fee (some (dynamic_fee_tx _ _ _ fee _ _ _ _)) = some fee
orig_fee _ = none

orig_price : Option UnsignedTx → Option ℤ
orig_price (some (legacy_tx _ price _ _ _ _)) = some price
orig_price _ = none

bump_built : FeePolicy → Call → ℕ → Option UnsignedTx → UnsignedTx → Result FeeError UnsignedTx
unfolding check_fee_caps bump_fee_field orig_tip orig_fee orig_price
bump_built p c percent orig (dynamic_fee_tx _ _ base_tip base_fee gas _ _ _) =
    let tip = bump_fee_field (orig_tip orig) base_tip percent in
    let bumped = bump_fee_field (orig_fee orig) base_fee percent in
    let fee = if int_ltb bumped tip then tip else bumped in
    if exceeds p.fee_caps.max_tip_per_gas tip
    then err tip_over_cap
    else (check_fee_caps p.fee_caps fee gas c.value
        >> ok (dynamic_fee_tx p.chain_id c.nonce tip fee gas c.to c.value c.input))
bump_built p c percent orig (legacy_tx _ base_price gas _ _ _) =
    let price = bump_fee_field (orig_price orig) base_price percent in
    check_fee_caps p.fee_caps price gas c.value
    >> ok (legacy_tx c.nonce price gas c.to c.value c.input)

unfoldable pub build_bumped_tx :
    FeePolicy → FeeView → Call → ℕ → Option UnsignedTx → Result FeeError UnsignedTx
unfolding build_tx bump_built
build_bumped_tx p v c percent orig = do base ← build_tx p v c; bump_built p c percent orig base
