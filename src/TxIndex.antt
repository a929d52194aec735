-- ===== src/TxIndex.antt =====
-- server/internal/txindex/txindex.go: transaction records for wallet actions that were not submitted here.
pub mod Groups
pub mod Primary
pub mod Spares
pub mod Marking
pub mod Vanished
use rwa_platform_evm.Common.{
  ℕ, suc, String, Bool, true, false, not, ◌&&◌, ◌||◌, List, [], ◌∷◌, ◌++◌, Option, none, some,
  if◌then◌else◌, ◌==◌, nat_eq, string_eq, ltb, keep, length,
}
use Prim.Native.String.{◌++◌ as join}
use rwa_platform_evm.Common.Dict.{lookup, insert}
use rwa_platform_evm.Common.Result.{Result, ok, err}
use rwa_platform_evm.Models.Transaction.{
  Address, Hash, Transaction, confirmed, reorged, is_event_derived, event_derived_tx_id_prefix,
}
use rwa_platform_evm.Models.ChainEvent.{ChainEvent, IndexerCheckpoint, Value, earlier, text_of}
use rwa_platform_evm.Store.Transactions.{
  TransactionStore, RepoError, create, update, get_by_tx_hash, list, has_status,
}
use rwa_platform_evm.Store.Chain.{EventStore, list_all}

abbrev pub stack_tx_kinds : List (String × String)
stack_tx_kinds =
    ("ProceedsWithdrawn", "treasury_withdrawal")
    ∷ ("Purchased", "purchase")
    ∷ ("Minted", "mint")
    ∷ ("Burned", "burn")
    ∷ ("RedemptionRequested", "redemption_requested")
    ∷ ("RedemptionFunded", "redemption_funded")
    ∷ ("RedemptionCompleted", "redemption_claimed")
    ∷ ("RedemptionRejected", "redemption_rejected")
    ∷ ("RedemptionCancelled", "redemption_cancelled")
    ∷ ("DistributionCreated", "income_distribution_created")
    ∷ ("IncomeClaimed", "income_claimed")
    ∷ ("UnclaimedReclaimed", "income_reclaimed")
    ∷ ("ClaimDeadlineExtended", "income_deadline_extended")
    ∷ ("MinPurchaseQuoteChanged", "min_purchase_changed")
    ∷ ("StatusChanged", "compliance_status_changed")
    ∷ ("PurchasePriceUpdated", "price_updated")
    ∷ ("RedemptionPriceUpdated", "price_updated")
    ∷ ("AuditorChanged", "auditor_changed")
    ∷ ("TreasuryChanged", "treasury_changed")
    ∷ ("StrategyChanged", "strategy_changed")
    ∷ ("Paused", "paused")
    ∷ ("Unpaused", "unpaused")
    ∷ ("DefaultAdminTransferScheduled", "admin_transfer_scheduled")
    ∷ ("DefaultAdminTransferCanceled", "admin_transfer_canceled")
    ∷ ("RoleGranted", "role_granted")
    ∷ ("RoleRevoked", "role_revoked")
    ∷ []

-- go-ethereum's `IsHexAddress` and `HexToAddress`, the text of a hash, and the number that an amount's
-- decimal text stands for, as the record keeps it.
pub record Texts : Type 0 where
  pub hash_text : Hash → String
  pub address_of : String → Option Address
  pub amount_of : String → ℕ

-- The place of a name in the table, and its length where the name is not there.
rank_in : String → List (String × String) → ℕ
rank_in name [] = 0
rank_in name ((event, kind) ∷ rest) =
    let r = rank_in name rest in if event == name then 0 else suc r

unfoldable pub rank_by_event : String → ℕ
unfolding rank_in
rank_by_event name = rank_in name stack_tx_kinds

kind_or_name : String → Option String → String
kind_or_name name none = name
kind_or_name name (some kind) = kind

unfoldable pub kind_by_event : String → String
unfolding kind_or_name
kind_by_event name = kind_or_name name (lookup name stack_tx_kinds)

abbrev pub is_eligible : ChainEvent → Bool
is_eligible e = not (e.name == "" || e.name == "unknown")

abbrev pub Best : Type 0
Best = Option (ChainEvent × ℕ)

unfoldable pub better : ChainEvent → ℕ → Best → Bool
better e r none = true
better e r (some (best, best_rank)) = ltb r best_rank || (r == best_rank && earlier e best)

unfoldable pub pick_from : Best → List ChainEvent → Best
unfolding better
pick_from best [] = best
pick_from best (e ∷ es) =
    pick_from
      (if is_eligible e
        then (if better e (rank_by_event e.name) best then some (e, rank_by_event e.name) else best)
        else best)
      es

unfoldable pub pick_primary : List ChainEvent → Option ChainEvent
unfolding pick_from
pick_primary live = elim (pick_from none live) [ none ↦ none | some b ↦ some (b.0) ]

abbrev pub actor_keys : List String
actor_keys = "caller" ∷ "sender" ∷ "funder" ∷ "buyer" ∷ "account" ∷ "beneficiary" ∷ []

abbrev pub value_keys : List String
value_keys = "quoteAmount" ∷ "amount" ∷ "rwaAmount" ∷ "total" ∷ []

-- The zero address stands for the empty text that no actor leaves.
nonzero_address : Option Address → Address
nonzero_address none = 0
nonzero_address (some a) = a

unfoldable pub actor_from : Texts → List String → List (String × Value) → Address
unfolding nonzero_address
actor_from texts [] data_ = 0
actor_from texts (k ∷ ks) data_ =
    let s = text_of (lookup k data_) in
    let a = nonzero_address (texts.address_of s) in
    let rest = actor_from texts ks data_ in if s == "" || a == 0 then rest else a

unfoldable pub value_from : List String → List (String × Value) → String
value_from [] data_ = "0"
value_from (k ∷ ks) data_ =
    let s = text_of (lookup k data_) in
    let rest = value_from ks data_ in if s == "" then rest else s

unfoldable pub earliest_of : ChainEvent → List ChainEvent → ChainEvent
earliest_of a [] = a
earliest_of a (e ∷ es) = earliest_of (if earlier e a then e else a) es

unfoldable pub latest_of : ChainEvent → List ChainEvent → ChainEvent
latest_of a [] = a
latest_of a (e ∷ es) = latest_of (if earlier a e then e else a) es

unfoldable pub submitted_of : ChainEvent → Option Transaction → ℕ
submitted_of earliest none = earliest.indexed_at
submitted_of earliest (some old) =
    if old.submitted_at == 0 then earliest.indexed_at else old.submitted_at

-- `first` is `live[0]`, which a primary event shows to be there.
unfoldable pub build_event_derived_tx :
    Texts
    → ℕ
    → Hash
    → ChainEvent
    → List ChainEvent
    → ChainEvent
    → Option Transaction
    → ℕ
    → Transaction
unfolding earliest_of latest_of submitted_of kind_by_event actor_from value_from
build_event_derived_tx texts chain hash first live primary existing now = record {
  id = join event_derived_tx_id_prefix (texts.hash_text hash);
  idempotency_key = "";
  kind = kind_by_event primary.name;
  chain_id = chain;
  sender = actor_from texts actor_keys primary.fields;
  to = primary.address;
  input = [];
  value = texts.amount_of (value_from value_keys primary.fields);
  nonce = 0;
  tx_hash = hash;
  signed_raw_tx = "";
  status = confirmed;
  block_number = (latest_of first live).block_number;
  block_hash = (latest_of first live).block_hash;
  replaced_by = "";
  replaces = "";
  replacement_count = 0;
  fencing_token = 0;
  allow_reorg_retry = false;
  version = 0;
  attempts = [];
  submitted_at = submitted_of (earliest_of first live) existing;
  updated_at = now;
}

abbrev pub Groups : Type 0
Groups = List (Hash × List ChainEvent)

group_of : Option (List ChainEvent) → List ChainEvent
group_of none = []
group_of (some es) = es

-- The map iterates in the order in which its keys were put; Go leaves this open.
unfoldable pub group_by_hash : Groups → List ChainEvent → Groups
unfolding group_of
group_by_hash m [] = m
group_by_hash m (e ∷ es) =
    group_by_hash (insert e.tx_hash (group_of (lookup e.tx_hash m) ++ (e ∷ [])) m) es

-- The store that a call leaves, and its error.
pub record Done : Type 0 where
  pub txs : TransactionStore
  pub error : Option RepoError

-- The next call, unless the first one fails.
unfoldable pub then_on : Done → (TransactionStore → Done) → Done
then_on d next = elim d.error [ none ↦ next d.txs | some e ↦ d ]

unfoldable pub stored_as : TransactionStore → Result RepoError TransactionStore → Done
stored_as m (ok new) = record { txs = new; error = none }
stored_as m (err e) = record { txs = m; error = some e }

unfoldable pub found_record : Result RepoError Transaction → Option Transaction
found_record (ok t) = some t
found_record (err e) = none

-- The write for one hash: `existing` is the record that `GetByTxHash` gives for it.
unfoldable pub write_record : Option Transaction → Transaction → TransactionStore → Done
unfolding stored_as
write_record none rec m = stored_as m (create rec m)
write_record (some old) rec m =
    if is_event_derived old then stored_as m (update rec m) else record { txs = m; error = none }

unfoldable pub index_hash :
    Texts → ℕ → ℕ → Hash → List ChainEvent → Option ChainEvent → TransactionStore → Done
unfolding write_record build_event_derived_tx found_record
index_hash texts chain now hash (first ∷ rest) (some primary) m =
    let existing = found_record (get_by_tx_hash chain hash m) in
    write_record existing
      (build_event_derived_tx texts chain hash first (first ∷ rest) primary existing now) m
index_hash texts chain now hash _ _ m = record { txs = m; error = none }

abbrev pub live_of : List ChainEvent → List ChainEvent
live_of es = keep (λ e. not e.is_removed) es

unfoldable pub index_groups : Texts → ℕ → ℕ → Groups → TransactionStore → Done
unfolding index_hash then_on
index_groups texts chain now [] m = record { txs = m; error = none }
index_groups texts chain now ((hash, evs) ∷ groups) m =
    then_on (index_hash texts chain now hash (live_of evs) (pick_primary (live_of evs)) m)
      (index_groups texts chain now groups)

-- `liveHashes` as a test: the hash has a primary event.
is_primary : Option ChainEvent → Bool
is_primary none = false
is_primary (some e) = true

unfoldable pub is_live : Hash → Groups → Bool
unfolding is_primary
is_live hash [] = false
is_live hash ((h, evs) ∷ groups) =
    (h == hash && is_primary (pick_primary (live_of evs))) || is_live hash groups

unfoldable pub is_settled : Groups → Transaction → Bool
is_settled groups t = not (is_event_derived t) || (is_live t.tx_hash groups || has_status reorged t)

unfoldable pub mark_vanished : ℕ → Groups → List Transaction → TransactionStore → Done
unfolding is_settled then_on stored_as
mark_vanished now groups [] m = record { txs = m; error = none }
mark_vanished now groups (t ∷ ts) m =
    let skip = mark_vanished now groups ts m in
    if is_settled groups t
    then skip
    else then_on (stored_as m (update (record t { status = reorged; updated_at = now }) m))
        (mark_vanished now groups ts)

unfoldable pub is_frozen : Option IndexerCheckpoint → Bool
is_frozen none = false
is_frozen (some cp) = cp.reconciliation_required

unfoldable pub reconcile_groups : Texts → ℕ → ℕ → Groups → TransactionStore → Done
unfolding index_groups mark_vanished then_on
reconcile_groups texts chain now groups m =
    then_on (index_groups texts chain now groups m) (λ s. mark_vanished now groups (list s) s)

unfoldable pub reconcile_stack_transactions :
    Texts → ℕ → ℕ → Option IndexerCheckpoint → EventStore → TransactionStore → Done
unfolding reconcile_groups group_by_hash is_frozen
reconcile_stack_transactions texts chain now checkpoint events m =
    if is_frozen checkpoint
    then record { txs = m; error = none }
    else reconcile_groups texts chain now
        (group_by_hash [] (list_all chain ("Transfer" ∷ []) events)) m
