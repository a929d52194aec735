-- ===== src/Income/Snapshot.antt =====
-- server/internal/income/snapshot.go: `ComputeEntitlements`. Balances are never negative while the
-- transfers are replayed, since a sender's is compared first; afterwards they are integers.
pub mod Supply
pub mod Shares
pub mod Holders
pub mod Allotment
use rwa_platform_evm.Common.{
  ℕ, ◌+◌, ◌-◌, String, Bool, true, false, not, ◌&&◌, ◌||◌, List, [], ◌∷◌, map, Option, none, some,
  if◌then◌else◌, ◌==◌, nat_eq, string_eq, ltb, leb, sort, keep,
}
use rwa_platform_evm.Common.Dict.{lookup, insert, delete}
use rwa_platform_evm.Common.Int.{
  ℤ, pos, negsuc, negate, ◌+ℤ◌, ◌*ℤ◌, quo, is_zero, int_beq, set_string,
}
use rwa_platform_evm.Common.Result.{Result, ok, err, ◌>>=◌}
use rwa_platform_evm.Models.Transaction.{Address}
use rwa_platform_evm.Models.ChainEvent.{ChainEvent, in_order, text_field}
use rwa_platform_evm.Models.Redemption.{RedemptionRequest, RedemptionStatus, pending, funded}
use rwa_platform_evm.Redemption.{States, build_states}

pub record Entitlement : Type 0 where
  pub account : Address
  pub balance : ℤ
  pub amount : ℤ

pub record Entitlements : Type 0 where
  pub eligible_supply : ℤ
  pub distributed : ℤ
  pub entries : List Entitlement

pub record EntitlementInput : Type 0 where
  pub vault : Address
  pub escrow : Address
  pub record_block : ℕ
  pub total : ℤ
  pub transfers : List ChainEvent
  pub redemption_events : List ChainEvent
  pub redemption_timeout : ℕ
  pub minted : List ChainEvent
  pub burned : List ChainEvent
  pub check_supply : Bool

pub data IncomeError : Type 0 where
  no_eligible_holders incomplete_history bad_transfer no_amount : IncomeError
  bad_redemption : String → IncomeError

unfoldable pub survivors : List ChainEvent → ℕ → List ChainEvent
survivors events block =
    sort in_order (keep (λ e. not e.is_removed && leb e.block_number block) events)

pub record Transfer : Type 0 where
  pub from : Address
  pub to : Address
  pub value : ℕ

transfer_of : Option Address → Option Address → Option ℤ → Result IncomeError Transfer
transfer_of (some f) (some t) (some (pos n)) = ok (record { from = f; to = t; value = n })
transfer_of _ _ _ = err bad_transfer

abbrev pub Ledger : Type 0
Ledger = List (Address × ℕ)

-- The balances and the supply of the replay.
pub record Replay : Type 0 where
  pub balances : Ledger
  pub supply : ℤ

abbrev pub balance_of : Address → Ledger → ℕ
balance_of a m = elim (lookup a m) [ none ↦ 0 | some n ↦ n ]

unfoldable pub debit : Address → ℕ → Replay → Result IncomeError Replay
debit a value s =
    if a == 0
    then ok (record s { supply = s.supply +ℤ pos value })
    else elim (lookup a s.balances) [
      | none ↦ err incomplete_history
      | some b ↦
          if ltb b value
          then err incomplete_history
          else ok (record s { balances = insert a (b - value) s.balances })
    ]

unfoldable pub credit : Address → ℕ → Replay → Replay
credit a value s =
    if a == 0
    then record s { supply = s.supply +ℤ negate (pos value) }
    else record s { balances = insert a (balance_of a s.balances + value) s.balances }

unfoldable pub move : Transfer → Replay → Result IncomeError Replay
unfolding debit credit
move t s =
    if t.value == 0 then ok s else (debit t.from t.value s >>= λ d. ok (credit t.to t.value d))

abbrev pub Balances : Type 0
Balances = List (Address × ℤ)

-- One round of `want`, with the sign of the amount.
abbrev pub signed_amount : Bool → ℤ → ℤ
signed_amount true n = n
signed_amount false n = negate n

add_amount : ChainEvent → Bool → Option ℤ → ℤ → Result IncomeError ℤ
add_amount e minted none want = err no_amount
add_amount e minted (some n) want = ok (want +ℤ signed_amount minted n)

unfoldable pub sum_events : Bool → List ChainEvent → ℤ → Result IncomeError ℤ
unfolding add_amount
sum_events minted [] want = ok want
sum_events minted (e ∷ es) want =
    add_amount e minted (set_string (text_field "amount" e)) want >>= λ w. sum_events minted es w

unfoldable pub check_supply_of : EntitlementInput → ℤ → Result IncomeError ℤ
unfolding sum_events survivors
check_supply_of inp supply =
    if inp.check_supply
    then (sum_events true (survivors inp.minted inp.record_block) (pos 0)
        >>= (λ minted. sum_events false (survivors inp.burned inp.record_block) minted)
        >>= λ want. if int_beq want supply then ok want else err incomplete_history)
    else ok supply

unfoldable pub is_open : RedemptionStatus → Bool
is_open pending = true
is_open funded = true
is_open _ = false

unfoldable pub is_house : EntitlementInput → Address → Bool
is_house inp a = a == 0 || (a == inp.vault || a == inp.escrow)

abbrev pub int_balance : Address → Balances → ℤ
int_balance a m = elim (lookup a m) [ none ↦ pos 0 | some n ↦ n ]

-- An open request's amount goes to its beneficiary.
unfoldable pub attribute :
    EntitlementInput → String → Option Address → Option ℤ → Balances → Result IncomeError Balances
unfolding is_house
attribute inp id (some a) (some n) m =
    if is_house inp a then ok m else ok (insert a (int_balance a m +ℤ n) m)
attribute inp id _ _ m = err (bad_redemption id)

unfoldable pub sum_balances : Balances → ℤ
sum_balances [] = pos 0
sum_balances ((a, b) ∷ m) = let rest = sum_balances m in if is_zero b then rest else b +ℤ rest

unfoldable pub is_nonzero : Address × ℤ → Bool
is_nonzero e = not (is_zero e.1)

-- `eligible` divides: it is not zero.
abbrev pub share : ℤ → ℤ → ℤ → ℤ
share total eligible b = quo (total *ℤ b) eligible

unfoldable pub entries_of : ℤ → ℤ → Balances → List Entitlement
entries_of total eligible [] = []
entries_of total eligible ((a, b) ∷ m) =
    let rest = entries_of total eligible m in
    if is_zero (share total eligible b)
    then rest
    else record { account = a; balance = b; amount = share total eligible b } ∷ rest

unfoldable pub sum_amounts : List Entitlement → ℤ
sum_amounts [] = pos 0
sum_amounts (e ∷ es) = e.amount +ℤ sum_amounts es

abbrev pub by_account : Entitlement → Entitlement → Bool
by_account a b = leb a.account b.account

unfoldable pub finish : ℤ → List Entitlement → Result IncomeError Entitlements
unfolding sum_amounts
finish eligible [] = err no_eligible_holders
finish eligible (e ∷ es) = ok (record {
  eligible_supply = eligible;
  distributed = sum_amounts (e ∷ es);
  entries = sort by_account (e ∷ es);
})

unfoldable pub distribute : ℤ → Balances → Result IncomeError Entitlements
unfolding sum_balances is_nonzero entries_of finish
distribute total m =
    let eligible = sum_balances m in
    if is_zero eligible
    then err no_eligible_holders
    else finish eligible (entries_of total eligible (keep is_nonzero m))

abbrev pub outsiders : EntitlementInput → Ledger → Ledger
outsiders inp m = delete 0 (delete inp.escrow (delete inp.vault m))

-- go-ethereum's `IsHexAddress` and `HexToAddress`.
module _ (address_of : String → Option Address) where
  unfoldable pub parse_transfer : ChainEvent → Result IncomeError Transfer
  unfolding transfer_of
  parse_transfer e =
      transfer_of (address_of (text_field "from" e)) (address_of (text_field "to" e))
        (set_string (text_field "value" e))

  unfoldable pub replay : List ChainEvent → Replay → Result IncomeError Replay
  unfolding parse_transfer move
  replay [] s = ok s
  replay (e ∷ es) s = parse_transfer e >>= (λ t. move t s) >>= λ next. replay es next

  unfoldable pub attribute_all : EntitlementInput → States → Balances → Result IncomeError Balances
  unfolding attribute is_open
  attribute_all inp [] m = ok m
  attribute_all inp ((id, r) ∷ rest) m =
      let skip = attribute_all inp rest m in
      if is_open r.status
      then (attribute inp r.id (address_of r.beneficiary) (set_string r.rwa_amount) m >>= λ next.
          attribute_all inp rest next)
      else skip

  unfoldable pub attributed : EntitlementInput → ℕ → Ledger → Result IncomeError Balances
  unfolding attribute_all build_states survivors
  attributed inp now m =
      attribute_all inp
        (build_states inp.redemption_timeout now (survivors inp.redemption_events inp.record_block))
        (map (λ e. (e.0, pos e.1)) (outsiders inp m))

  unfoldable pub compute_entitlements : EntitlementInput → ℕ → Result IncomeError Entitlements
  unfolding replay survivors check_supply_of attributed distribute
  compute_entitlements inp now =
      replay (survivors inp.transfers inp.record_block) (record { balances = []; supply = pos 0 })
      >>= λ s. check_supply_of inp s.supply >>= (λ want. attributed inp now s.balances) >>= λ m.
          distribute inp.total m
