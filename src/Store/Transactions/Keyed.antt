-- ===== src/Store/Transactions/Keyed.antt =====
-- server/internal/dal/memory/transaction.go: the map holds each record under its own ID, once.
use rwa_platform_evm.Common.{String, string_eq, map, some, ◌≡◌, refl, In, In-sort}
use rwa_platform_evm.Common.Dict.{lookup, insert}
use rwa_platform_evm.Common.Rows.{AreRows, lookup-key_of, insert-AreRows, lookup-row}
use rwa_platform_evm.Models.Transaction.{Transaction}
use rwa_platform_evm.Store.Transactions.{TransactionStore, list, submitted_before}

abbrev pub record_id : Transaction → String
record_id t = t.id

-- Keys are the records' IDs, and no key stands twice.
abbrev pub IsKeyed : TransactionStore → Type 0
IsKeyed m = AreRows record_id m

-- A listed record is the one stored under its ID.
pub lookup-list :
    (m : TransactionStore) (t : Transaction) → IsKeyed m → In t (list m) → lookup t.id m ≡ some t
unfolding list
lookup-list m t k i = lookup-row record_id m t k (In-sort submitted_before (map (λ e. e.1) m) t i)

pub insert-IsKeyed :
    (t : Transaction) (m : TransactionStore) → IsKeyed m → IsKeyed (insert t.id t m)
insert-IsKeyed t m k = insert-AreRows record_id m t.id t refl k

-- What is found under a key has it as its ID.
pub lookup-id :
    (m : TransactionStore) (k : String) (t : Transaction)
    → IsKeyed m
    → lookup k m ≡ some t
    → t.id ≡ k
lookup-id m k t w h = lookup-key_of record_id m k t w h
