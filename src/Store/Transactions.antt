-- ===== src/Store/Transactions.antt =====
-- server/internal/dal/memory/transaction.go. `list` sorts by `SubmittedAt`; where two times are equal
-- Go leaves the order open, and this one keeps that of insertion.
pub mod Writes
pub mod Keyed
use rwa_platform_evm.Common.{
  ℕ, String, ◌+◌, Bool, true, false, not, ◌&&◌, ◌||◌, List, [], ◌∷◌, map, Option, none, some,
  if◌then◌else◌, leb, ◌==◌, string_eq, nat_eq, sort, keep,
}
use rwa_platform_evm.Common.Dict.{lookup, insert}
use rwa_platform_evm.Common.Result.{Result, ok, err}
use rwa_platform_evm.Models.Transaction.{
  Transaction, TxStatus, TxStatus-discrete, replaced, failed, confirmed, is_event_derived, Hash,
}
use mathlib.Core.Bool.{decide}

pub data RepoError : Type 0 where
  not_found already_exists fencing_token_mismatch : RepoError

-- The map of a `TransactionRepository`, by ID.
abbrev pub TransactionStore : Type 0
TransactionStore = List (String × Transaction)

unfoldable pub create : Transaction → TransactionStore → Result RepoError TransactionStore
create tx m = elim (lookup tx.id m) [ some _ ↦ err already_exists | none ↦ ok (insert tx.id tx m) ]

unfoldable pub get : String → TransactionStore → Result RepoError Transaction
get id m = elim (lookup id m) [ some v ↦ ok v | none ↦ err not_found ]

-- The first record with the key; none has the empty key.
unfoldable pub get_by_idempotency_key : String → TransactionStore → Result RepoError Transaction
get_by_idempotency_key key [] = err not_found
get_by_idempotency_key key ((i, v) ∷ m) =
    if v.idempotency_key == key && not (key == "") then ok v else get_by_idempotency_key key m

prefer_submitted : Option Transaction → Transaction → Option Transaction
prefer_submitted none v = some v
prefer_submitted (some old) v =
    if not (is_event_derived v) && is_event_derived old then some v else some old

match_tx_hash : ℕ → Hash → Option Transaction → TransactionStore → Option Transaction
match_tx_hash chain hash found [] = found
match_tx_hash chain hash found ((i, v) ∷ m) =
    match_tx_hash chain hash
      (if v.chain_id == chain && v.tx_hash == hash then prefer_submitted found v else found) m

unfoldable pub get_by_tx_hash : ℕ → Hash → TransactionStore → Result RepoError Transaction
unfolding match_tx_hash prefer_submitted
get_by_tx_hash chain hash m = elim (match_tx_hash chain hash none m) [
  | some v ↦ ok v
  | none ↦ err not_found
]

unfoldable pub update : Transaction → TransactionStore → Result RepoError TransactionStore
update tx m = elim (lookup tx.id m) [ some _ ↦ ok (insert tx.id tx m) | none ↦ err not_found ]

-- The write happens only at the expected version, which it increments.
unfoldable pub update_conditional :
    Transaction → ℕ → TransactionStore → Result RepoError (Bool × TransactionStore)
update_conditional tx expected m = elim (lookup tx.id m) [
  | none ↦ err not_found
  | some existing ↦
      if existing.version == expected
      then ok (true, insert tx.id (record tx { version = expected + 1 }) m)
      else ok (false, m)
]

abbrev pub submitted_before : Transaction → Transaction → Bool
submitted_before a b = leb a.submitted_at b.submitted_at

unfoldable pub list : TransactionStore → List Transaction
list m = sort submitted_before (map (λ e. e.1) m)

abbrev pub has_status : TxStatus → Transaction → Bool
has_status s tx = decide (TxStatus-discrete tx.status s)

abbrev pub any_status : List TxStatus → Transaction → Bool
any_status [] tx = false
any_status (s ∷ ss) tx = has_status s tx || any_status ss tx

unfoldable pub list_by_statuses : List TxStatus → TransactionStore → List Transaction
list_by_statuses ss m = keep (any_status ss) (list m)

abbrev unfinalized : ℕ → TxStatus → ℕ → Bool
unfinalized from replaced block = false
unfinalized from failed block = false
unfinalized from confirmed block = leb from block
unfinalized from _ block = true

unfoldable pub list_unfinalized : ℕ → TransactionStore → List Transaction
list_unfinalized from m = keep (λ tx. unfinalized from tx.status tx.block_number) (list m)

unfoldable pub list_replacements : TransactionStore → List Transaction
list_replacements m = keep (λ tx. not (tx.replaces == "")) (list m)
