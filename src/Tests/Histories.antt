-- ===== src/Tests/Histories.antt =====
-- server/internal/txindex/txindex.go: concrete runs.
use rwa_platform_evm.Common.{
  [], ◌∷◌, none, some, ◌≡◌, ◌⊎◌, refl, true, false, sort, string_eq, nat_eq,
}
use mathlib.Core.Bool.{decide}
use rwa_platform_evm.Common.Dict.{lookup, insert}
use rwa_platform_evm.Models.Transaction.{
  Transaction, reorged, confirmed, TxStatus-discrete, is_event_derived,
}
use rwa_platform_evm.Models.ChainEvent.{ChainEvent, key_eq}
use rwa_platform_evm.Store.Chain.{list_all}
use rwa_platform_evm.TxIndex.{Texts, pick_primary, is_live, reconcile_stack_transactions, is_frozen}
use rwa_platform_evm.TxIndex.Primary.{IsPrimary, pick_primary-IsPrimary}
use rwa_platform_evm.TxIndex.Spares.{reconcile-spares}
use rwa_platform_evm.TxIndex.Groups.{IsWitness}
use rwa_platform_evm.TxIndex.Vanished.{reconcile-Reports}
use rwa_platform_evm.Store.Transactions.{
  TransactionStore, create, update, list, get_by_tx_hash, has_status,
}
use rwa_platform_evm.Store.Transactions.Keyed.{IsKeyed}
use rwa_platform_evm.Tests.Projections.{event_at, asked, sample_events}

abbrev role : ChainEvent
role = event_at "RoleGranted" 9 3 []

pick_primary-IsPrimary_example : IsPrimary (role ∷ asked ∷ []) (pick_primary (role ∷ asked ∷ []))
pick_primary-IsPrimary_example = pick_primary-IsPrimary (role ∷ asked ∷ [])

abbrev sample_texts : Texts
sample_texts = record { hash_text = λ _. "0x3"; address_of = λ _. none; amount_of = λ _. 25 }

-- One record of the transaction manager, and one whose events are gone.
abbrev own_record : Transaction
own_record = record {
  id = "tx-1";
  idempotency_key = "";
  kind = "mint";
  chain_id = 1;
  sender = 7;
  to = 70;
  input = [];
  value = 0;
  nonce = 5;
  tx_hash = 3;
  signed_raw_tx = "";
  status = confirmed;
  block_number = 0;
  block_hash = 0;
  replaced_by = "";
  replaces = "";
  replacement_count = 0;
  fencing_token = 0;
  allow_reorg_retry = false;
  version = 0;
  attempts = [];
  submitted_at = 800;
  updated_at = 800;
}

abbrev sample_txs : TransactionStore
sample_txs =
    ("tx-1", own_record) ∷ ("evt:0x9", record own_record { id = "evt:0x9"; tx_hash = 9 }) ∷ []

sample_txs-IsKeyed : IsKeyed sample_txs
unfolding lookup
sample_txs-IsKeyed = (refl, refl, (refl, refl, tt))

reconcile-spares_example :
    lookup "tx-1"
      ((reconcile_stack_transactions sample_texts 1 900 none sample_events sample_txs).txs)
    ≡ lookup "tx-1" sample_txs
reconcile-spares_example =
    reconcile-spares sample_texts 1 900 none sample_events sample_txs "tx-1" refl

abbrev vanished : Transaction
vanished = record own_record { id = "evt:0x9"; tx_hash = 9; status = reorged; updated_at = 900 }

went_through :
    (reconcile_stack_transactions sample_texts 1 900 none sample_events sample_txs).error ≡ none
unfolding reconcile_stack_transactions list_all sort lookup insert TxStatus-discrete decide
    is_event_derived create update list get_by_tx_hash has_status pick_primary is_live
went_through = refl

is_marked :
    lookup "evt:0x9"
      ((reconcile_stack_transactions sample_texts 1 900 none sample_events sample_txs).txs)
    ≡ some vanished
unfolding reconcile_stack_transactions list_all sort lookup insert TxStatus-discrete decide
    is_event_derived create update list get_by_tx_hash has_status pick_primary is_live
is_marked = refl

thawed : is_frozen none ≡ false
unfolding is_frozen
thawed = refl

derived : is_event_derived vanished ≡ true
unfolding is_event_derived
derived = refl

reconcile-Reports_example :
    (reorged ≡ reorged)
    ⊎ ((e : ChainEvent) × IsWitness (list_all 1 ("Transfer" ∷ []) sample_events) 9 e)
reconcile-Reports_example =
    reconcile-Reports sample_texts 1 900 none sample_events sample_txs sample_txs-IsKeyed thawed
      went_through "evt:0x9" vanished is_marked derived
