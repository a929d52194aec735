-- ===== src/Compliance.antt =====
-- server/internal/compliance/projector.go, over the investors of dal/memory/investor.go.
pub mod Latest
pub mod Upserts
pub mod Resets
pub mod Mirrors
use text.Mathlib.Text.{is_le}
use Prim.Native.String.{compare}
use rwa_platform_evm.Common.{
  ℕ, String, Bool, true, false, not, ◌&&◌, List, [], ◌∷◌, map, Option, none, some, if◌then◌else◌,
  ◌==◌, nat_eq, string_eq, leb, sort,
}
use rwa_platform_evm.Common.Dict.{lookup, insert}
use rwa_platform_evm.Models.Transaction.{Address}
use rwa_platform_evm.Models.ChainEvent.{
  ChainEvent, Value, uint8, int64, uint64, int32, int, float64, in_order, text_field,
}
use rwa_platform_evm.Models.Investor.{Investor, ComplianceStatus, unknown, allowed, blocked}
use rwa_platform_evm.Store.Chain.{EventStore, list_by_name}

-- `statusNames`, and Unknown for what is not in it.
unfoldable pub status_named : ℕ → ComplianceStatus
status_named n = if n == 1 then allowed else if n == 2 then blocked else unknown

-- A value outside 0..255, as a bit pattern, is 0.
byte_or_zero : ℕ → ℕ
byte_or_zero n = if leb n 255 then n else 0

to_uint8 : Option Value → ℕ
unfolding byte_or_zero
to_uint8 (some (uint8 n)) = n
to_uint8 (some (int32 n)) = byte_or_zero n
to_uint8 (some (int n)) = byte_or_zero n
to_uint8 (some (int64 n)) = byte_or_zero n
to_uint8 (some (uint64 n)) = byte_or_zero n
to_uint8 (some (float64 n small)) = if small then byte_or_zero n else 0
to_uint8 _ = 0

to_int64 : Option Value → ℕ
to_int64 (some (uint64 n)) = n
to_int64 (some (int64 n)) = n
to_int64 (some (int32 n)) = n
to_int64 (some (int n)) = n
to_int64 (some (float64 n small)) = n
to_int64 _ = 0

pub record Standing : Type 0 where
  pub status : ComplianceStatus
  pub valid_until : ℕ

abbrev pub Standings : Type 0
Standings = List (String × Standing)

unfoldable pub standing_of : ChainEvent → Standing
unfolding status_named to_uint8 to_int64
standing_of e = record {
  status = status_named (to_uint8 (lookup "newStatus" e.fields));
  valid_until = to_int64 (lookup "newValidUntil" e.fields);
}

abbrev pub account_of : ChainEvent → String
account_of e = text_field "account" e

unfoldable pub apply_status : ChainEvent → Standings → Standings
unfolding standing_of
apply_status e m =
    if not (e.name == "StatusChanged")
    then m
    else if account_of e == ""
    then m
    else insert (account_of e) (standing_of e) m

unfoldable pub apply_statuses : List ChainEvent → Standings → Standings
unfolding apply_status
apply_statuses [] m = m
apply_statuses (e ∷ es) m = apply_statuses es (apply_status e m)

unfoldable pub build_statuses : List ChainEvent → Standings
unfolding apply_statuses
build_statuses es = apply_statuses (sort in_order es) []

abbrev pub Investors : Type 0
Investors = List (String × Investor)

unfoldable pub upsert_investor : Investor → Investors → Investors
upsert_investor inv m = insert inv.address inv m

abbrev pub address_order : Investor → Investor → Bool
address_order a b = is_le (compare a.address b.address)

unfoldable pub list_investors : Investors → List Investor
list_investors m = sort address_order (map (λ e. e.1) m)

unfoldable pub with_standing : ℕ → String → Standing → Option Investor → Investor
with_standing now account s none = record {
  address = account;
  status = s.status;
  valid_until = s.valid_until;
  is_ownership_verified = false;
  created_at = now;
  updated_at = now;
}
with_standing now account s (some old) = record {
  address = account;
  status = s.status;
  valid_until = s.valid_until;
  is_ownership_verified = old.is_ownership_verified;
  created_at = old.created_at;
  updated_at = now;
}

unfoldable pub upsert_standings : ℕ → Standings → Investors → Investors
unfolding upsert_investor with_standing
upsert_standings now [] m = m
upsert_standings now ((account, s) ∷ rest) m =
    upsert_standings now rest (upsert_investor (with_standing now account s (lookup account m)) m)

is_unknown : ComplianceStatus → Bool
is_unknown unknown = true
is_unknown _ = false

abbrev is_there : Option Standing → Bool
is_there none = false
is_there (some s) = true

-- No surviving event backs the row, and it is not yet what such a row is to be.
unfoldable pub is_orphaned : Standings → Investor → Bool
unfolding is_unknown
is_orphaned states inv =
    not (is_there (lookup inv.address states))
    && not (is_unknown inv.status && inv.valid_until == 0)

abbrev pub reset : ℕ → Investor → Investor
reset now inv = record inv { status = unknown; valid_until = 0; updated_at = now }

unfoldable pub reset_orphans : ℕ → Standings → List Investor → Investors → Investors
unfolding is_orphaned upsert_investor
reset_orphans now states [] m = m
reset_orphans now states (inv ∷ rest) m =
    reset_orphans now states rest
      (if is_orphaned states inv then upsert_investor (reset now inv) m else m)

unfoldable pub reconcile_states : ℕ → Standings → Investors → Investors
unfolding upsert_standings reset_orphans list_investors
reconcile_states now states m =
    reset_orphans now states (list_investors (upsert_standings now states m))
      (upsert_standings now states m)

unfoldable pub reconcile_investors : ℕ → Address → ℕ → EventStore → Investors → Investors
unfolding reconcile_states build_statuses
reconcile_investors chain registry now events m =
    reconcile_states now (build_statuses (list_by_name chain registry "StatusChanged" events)) m
