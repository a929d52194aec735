-- ===== src/Store/Transactions/Writes.antt =====
-- server/internal/dal/memory/transaction.go: what a write leaves to a later read.
use rwa_platform_evm.Common.{String, none, some, ◌≡◌, string_eq, nat_eq, arith}
use rwa_platform_evm.Common.Dict.{lookup, insert}
use rwa_platform_evm.Common.Result.{ok}
use rwa_platform_evm.Models.Transaction.{Transaction}
use rwa_platform_evm.Store.Transactions.{TransactionStore, create, get, update}

pub update-found :
    (tx old : Transaction) (m : TransactionStore)
    → lookup tx.id m ≡ some old
    → update tx m ≡ ok (insert tx.id tx m)
unfolding update
update-found tx old m h = ground arith

pub create-ok :
    (tx : Transaction) (m n : TransactionStore)
    → create tx m ≡ ok n
    → (lookup tx.id m ≡ none) × (n ≡ insert tx.id tx m)
unfolding create
create-ok tx m n h = ground arith

pub update-ok :
    (tx : Transaction) (m n : TransactionStore) → update tx m ≡ ok n → n ≡ insert tx.id tx m
unfolding update
update-ok tx m n h = ground arith

pub get-ok :
    (id : String) (m : TransactionStore) (t : Transaction) → get id m ≡ ok t → lookup id m ≡ some t
unfolding get
get-ok id m t h = ground arith
