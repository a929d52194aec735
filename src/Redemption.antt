-- ===== src/Redemption.antt =====
-- server/internal/redemption/projector.go and redemption.go.
pub mod Lifecycle
pub mod Projection
pub mod Rebuild
pub mod Amounts
pub mod Orders
pub mod Places
pub mod Lives
use rwa_platform_evm.Common.{
  ℕ, ◌+◌, ◌-◌, ◌%◌, ◌^◌, String, Bool, true, false, not, ◌&&◌, ◌||◌, List, [], ◌∷◌, ◌++◌, map,
  Option, none, some, if◌then◌else◌, ◌==◌, nat_eq, string_eq, ltb, leb, sort, keep,
}
use rwa_platform_evm.Common.Dict.{lookup, insert, delete_if}
use rwa_platform_evm.Common.Text.{parse_int}
use rwa_platform_evm.Models.Transaction.{Address}
use rwa_platform_evm.Models.ChainEvent.{
  ChainEvent, Value, text, int64, uint64, int32, int, float64, in_order, text_of, text_field,
}
use rwa_platform_evm.Models.Redemption.{
  RedemptionStatus, RedemptionRequest, pending, funded, completed, rejected, cancelled,
}
use rwa_platform_evm.Store.Chain.{EventStore, list_by_name}

-- The dynamic types that `toInt64` tells apart, as the bit pattern of the `int64`.
to_int64 : Option Value → ℕ
to_int64 (some (int64 n)) = n
to_int64 (some (uint64 n)) = n
to_int64 (some (int32 n)) = n
to_int64 (some (int n)) = n
to_int64 (some (float64 n small)) = n
to_int64 (some (text s)) = parse_int s
to_int64 _ = 0

pub data Kind : Type 0 where
  request fund complete reject cancel ignored : Kind

unfoldable pub kind_of : String → Kind
kind_of name =
    if name == "RedemptionRequested"
    then request
    else if name == "RedemptionFunded"
    then fund
    else if name == "RedemptionCompleted"
    then complete
    else if name == "RedemptionRejected"
    then reject
    else if name == "RedemptionCancelled"
    then cancel
    else ignored

unfoldable pub requested : ℕ → ℕ → String → ChainEvent → RedemptionRequest
unfolding to_int64
requested timeout now id e =
    let created = to_int64 (lookup "createdAt" e.fields) in
    record {
      id = id;
      beneficiary = text_field "beneficiary" e;
      rwa_amount = text_field "rwaAmount" e;
      quote_amount = text_field "quoteAmount" e;
      status = pending;
      created_at = created;
      timeout_at = (created + timeout) % 2 ^ 64;
      reason_code = "";
      request_tx_hash = some e.tx_hash;
      fund_tx_hash = none;
      funded_at_block = 0;
      funded_at = 0;
      claim_tx_hash = none;
      updated_at = now;
      generation = 0;
    }

abbrev pub after_fund : ℕ → ChainEvent → RedemptionRequest → RedemptionRequest
after_fund now e r = record r {
  status = funded;
  fund_tx_hash = some e.tx_hash;
  funded_at_block = e.block_number;
  funded_at = e.indexed_at;
  updated_at = now;
}

abbrev pub after_complete : ℕ → ChainEvent → RedemptionRequest → RedemptionRequest
after_complete now e r = record r {
  status = completed;
  claim_tx_hash = some e.tx_hash;
  updated_at = now;
}

abbrev pub after_reject : ℕ → ChainEvent → RedemptionRequest → RedemptionRequest
after_reject now e r = record r {
  status = rejected;
  reason_code = text_field "reasonCode" e;
  updated_at = now;
}

abbrev pub after_cancel : ℕ → ChainEvent → RedemptionRequest → RedemptionRequest
after_cancel now e r = record r { status = cancelled; updated_at = now }

-- What an event makes of the request under its ID in that status; `none` where it changes nothing.
advance : ℕ → ChainEvent → Kind → RedemptionStatus → RedemptionRequest → Option RedemptionRequest
advance now e fund pending r = some (after_fund now e r)
advance now e complete funded r = some (after_complete now e r)
advance now e reject pending r = some (after_reject now e r)
advance now e cancel pending r = some (after_cancel now e r)
advance now e _ _ r = none

apply_kind :
    ℕ → ℕ → String → ChainEvent → Kind → Option RedemptionRequest → Option RedemptionRequest
unfolding advance
apply_kind timeout now id e request old = some (requested timeout now id e)
apply_kind timeout now id e k none = none
apply_kind timeout now id e k (some r) = advance now e k r.status r

abbrev pub States : Type 0
States = List (String × RedemptionRequest)

store_change : String → Option RedemptionRequest → States → States
store_change id none m = m
store_change id (some r) m = insert id r m

abbrev pub id_of : ChainEvent → String
id_of e = text_field "id" e

-- One round of the loop of `BuildStates`.
unfoldable pub apply_event : ℕ → ℕ → ChainEvent → States → States
unfolding apply_kind store_change
apply_event timeout now e m =
    if id_of e == ""
    then m
    else store_change (id_of e)
        (apply_kind timeout now (id_of e) e (kind_of e.name) (lookup (id_of e) m)) m

unfoldable pub apply_events : ℕ → ℕ → List ChainEvent → States → States
apply_events timeout now [] m = m
apply_events timeout now (e ∷ es) m = apply_events timeout now es (apply_event timeout now e m)

unfoldable pub build_states : ℕ → ℕ → List ChainEvent → States
unfolding apply_events
build_states timeout now es = apply_events timeout now (sort in_order es) []

unfoldable pub confirmations : RedemptionRequest → ℕ → ℕ
confirmations r current = elim r.status [
  | funded ↦
      if r.funded_at_block == 0 || ltb current r.funded_at_block
      then 0
      else current - r.funded_at_block
  | _ ↦ 0
]

unfoldable pub claimable : RedemptionRequest → ℕ → ℕ → Bool
unfolding confirmations
claimable r current finality = elim r.status [
  | funded ↦ leb finality (confirmations r current)
  | _ ↦ false
]

-- server/internal/dal/memory/redemption_request.go: `Upsert` and `DeleteStaleGeneration`.
unfoldable pub upsert : RedemptionRequest → States → States
upsert r m = insert r.id r m

unfoldable pub delete_stale_generation : ℕ → States → States
delete_stale_generation gen m = delete_if (λ _ r. not (r.generation == gen)) m

unfoldable pub upsert_all : ℕ → States → States → States
unfolding upsert
upsert_all gen [] m = m
upsert_all gen ((id, r) ∷ rest) m = upsert_all gen rest (upsert (record r { generation = gen }) m)

abbrev pub event_names : List String
event_names =
    "RedemptionRequested" ∷ "RedemptionFunded" ∷ "RedemptionCompleted" ∷ "RedemptionRejected"
    ∷ "RedemptionCancelled" ∷ []

unfoldable pub list_by_names : ℕ → Address → List String → EventStore → List ChainEvent
list_by_names chain escrow [] events = []
list_by_names chain escrow (name ∷ names) events =
    list_by_name chain escrow name events ++ list_by_names chain escrow names events

-- `gen` is the clock's reading in nanoseconds.
unfoldable pub reconcile : ℕ → Address → ℕ → ℕ → ℕ → EventStore → States → States
unfolding build_states upsert_all delete_stale_generation list_by_names
reconcile chain escrow timeout now gen events m =
    delete_stale_generation gen
      (upsert_all gen (build_states timeout now (list_by_names chain escrow event_names events)) m)
