-- ===== src/TxManager/Refresh.antt =====
-- server/internal/blockchain/txmanager.go: `RefreshStatuses` and its parts. An update through a pointer
-- that the loop holds is the update of a copy of the listed record.
pub mod Receipts
pub mod Kept
pub mod Records
use rwa_platform_evm.Common.{
  ℕ, ◌+◌, ◌-◌, ◌%◌, String, Bool, true, false, not, ◌&&◌, ◌||◌, List, [], ◌∷◌, Option, none, some,
  if◌then◌else◌, ◌==◌, nat_eq, ltb, leb,
}
use rwa_platform_evm.Common.Result.{Result, ok, err}
use rwa_platform_evm.Models.Transaction.{
  Transaction, TxStatus, pending, mined, confirmed, replaced, reverted, reorged, failed,
  broadcast_unknown, nonce_consumed_externally, needs_intervention, is_event_derived, Hash,
}
use rwa_platform_evm.Store.Transactions
use rwa_platform_evm.Store.Transactions.{has_status, RepoError}
use rwa_platform_evm.TxManager.Fees.{uint64_mod}
use rwa_platform_evm.TxManager.State.{
  SignedTx, Client, Answer, found, missing, failed as lookup_failed, Receipt, TxError, rpc_failed,
  SendError,
}
use rwa_platform_evm.TxManager.Monad.{
  World, Env, M, ◌>>=◌, ◌>>◌, return, and_then, lift, require, update_tx, send,
}
use rwa_platform_evm.TxManager.Guards.{decode_signed_tx}

abbrev pub post_confirmation_reorg_window : ℕ
post_confirmation_reorg_window = 256

-- `replacements` first: a replacement whose send was not rejected marks its original.
abbrev pub linked : Env → Transaction → Transaction → Transaction
linked env tx original = record original {
  status = replaced;
  replaced_by = tx.id;
  updated_at = env.now;
}

link_original : Env → Transaction → Result RepoError Transaction → M (Unit {0})
link_original env tx (err e) w = (ok tt, w)
link_original env tx (ok original) w =
    if has_status replaced original then (ok tt, w) else update_tx (linked env tx original) w

reconcile_one : Env → Transaction → M (Unit {0})
unfolding link_original
reconcile_one env tx w =
    if has_status failed tx
    then (ok tt, w)
    else link_original env tx (Transactions.get tx.replaces w.txs) w

pub each : (Transaction → M (Unit {0})) → List Transaction → M (Unit {0})
each f [] w = (ok tt, w)
each f (tx ∷ txs) w = and_then (f tx w) (λ _. each f txs)

unfoldable pub reconcile_replacements : Env → M (Unit {0})
unfolding reconcile_one each
reconcile_replacements env w = each (reconcile_one env) (Transactions.list_replacements w.txs) w

unfoldable pub is_final : Transaction → ℕ → ℕ → Bool
is_final tx current confirmations = elim tx.status [
  | replaced ↦ true
  | failed ↦ true
  | confirmed ↦
      leb ((tx.block_number + confirmations + post_confirmation_reorg_window) % uint64_mod) current
  | _ ↦ false
]

-- The status, and the time of the change.
abbrev pub marked : Env → TxStatus → Transaction → Transaction
marked env s tx = record tx { status = s; updated_at = env.now }

pub mark : Env → TxStatus → Transaction → M (Unit {0})
mark env s tx w = if has_status s tx then (ok tt, w) else update_tx (marked env s tx) w

ignore_answer : Option SendError → M (Unit {0})
ignore_answer e w = (ok tt, w)

rebroadcast_unknown : Env → Transaction → M (Unit {0})
unfolding ignore_answer
rebroadcast_unknown env tx = lift (decode_signed_tx env.codec tx.signed_raw_tx) >>= λ signed.
    send env.client signed >>= ignore_answer

-- The mined nonce has passed the transaction's, though it has no receipt.
missing_unmined : Env → Transaction → M (Unit {0}) → M (Unit {0})
unfolding mark
missing_unmined env tx otherwise = require rpc_failed (env.client.nonce_at tx.sender) >>= λ latest.
    if ltb tx.nonce latest then mark env nonce_consumed_externally tx else otherwise

missing_receipt : Env → TxStatus → Transaction → M (Unit {0})
unfolding missing_unmined rebroadcast_unknown mark
missing_receipt env broadcast_unknown tx = missing_unmined env tx (rebroadcast_unknown env tx)
missing_receipt env pending tx = missing_unmined env tx (return tt)
missing_receipt env mined tx = mark env reorged tx
missing_receipt env confirmed tx = mark env reorged tx
missing_receipt env reverted tx = mark env reorged tx
missing_receipt env reorged tx = mark env reorged tx
missing_receipt env _ tx = return tt

unfoldable pub handle_missing_receipt : Env → Transaction → M (Unit {0})
unfolding missing_receipt
handle_missing_receipt env tx = missing_receipt env tx.status tx

unfoldable pub new_status : Receipt → ℕ → ℕ → TxStatus
new_status r current confirmations =
    if r.has_failed
    then reverted
    else if leb ((r.block_number + confirmations) % uint64_mod) current
    then confirmed
    else mined

abbrev pub advanced : Env → Receipt → TxStatus → Transaction → Transaction
advanced env r s tx = record tx {
  status = s;
  block_number = r.block_number;
  block_hash = r.block_hash;
  updated_at = env.now;
}

pub settle_receipt : Env → Receipt → TxStatus → Transaction → M (Unit {0})
settle_receipt env r s tx w =
    if has_status s tx && tx.block_number == r.block_number && tx.block_hash == r.block_hash
    then (ok tt, w)
    else update_tx (advanced env r s tx) w

-- The block that the node has at the receipt's height.
canonical_answer : Env → Receipt → Answer Hash → Result TxError Bool
canonical_answer env r (found h) = ok (h == r.block_hash)
canonical_answer env r missing = ok false
canonical_answer env r lookup_failed = err rpc_failed

-- A zero hash is not compared.
unfoldable pub is_canonical : Env → Receipt → Result TxError Bool
unfolding canonical_answer
is_canonical env r =
    if r.block_hash == 0
    then ok true
    else canonical_answer env r (env.client.header_by_number r.block_number)

unfoldable pub handle_receipt : Env → Transaction → Receipt → ℕ → ℕ → M (Unit {0})
unfolding mark settle_receipt
handle_receipt env tx r current confirmations = lift (is_canonical env r) >>= λ canonical.
    if canonical
    then settle_receipt env r (new_status r current confirmations) tx
    else mark env reorged tx

on_receipt : Env → Transaction → ℕ → ℕ → Answer Receipt → M (Unit {0})
on_receipt env tx current confirmations (found r) w =
    handle_receipt env tx r current confirmations w
on_receipt env tx current confirmations missing w = handle_missing_receipt env tx w
on_receipt env tx current confirmations lookup_failed w = (err rpc_failed, w)

unfoldable pub refresh_one : Env → ℕ → ℕ → Transaction → M (Unit {0})
unfolding on_receipt
refresh_one env current confirmations tx =
    on_receipt env tx current confirmations (env.client.transaction_receipt tx.tx_hash)

-- Event-derived and final records are passed over.
unfoldable pub refresh_listed : Env → ℕ → ℕ → Transaction → M (Unit {0})
refresh_listed env current confirmations tx w =
    if is_event_derived tx || is_final tx current confirmations
    then (ok tt, w)
    else refresh_one env current confirmations tx w

abbrev confirmed_from : ℕ → ℕ → ℕ
confirmed_from current confirmations =
    let cutoff = (confirmations + post_confirmation_reorg_window) % uint64_mod in
    if ltb cutoff current then current - cutoff else 0

unfoldable pub refresh_all : Env → ℕ → ℕ → M (Unit {0})
unfolding each
refresh_all env current confirmations w =
    each (refresh_listed env current confirmations)
      (Transactions.list_unfinalized (confirmed_from current confirmations) w.txs) w

unfoldable pub refresh_statuses : Env → ℕ → M (Unit {0})
refresh_statuses env confirmations =
    reconcile_replacements env
    >> (require rpc_failed env.client.block_number >>= λ current.
        refresh_all env current confirmations)
