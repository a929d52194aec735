-- ===== src/TxManager/Refresh/Records.antt =====
-- server/internal/blockchain/txmanager.go: what `RefreshStatuses` leaves as it was.
use rwa_platform_evm.Common.{
  ℕ, Bool, Option, none, some, ◌≡◌, refl, inl, inr, arith, In, In-keep, keep, Bool-cases,
  Option-cases, ◌∙◌, ap, string_eq, nat_eq, ◌||◌, ltb,
}
use rwa_platform_evm.Common.Dict.{lookup}
use rwa_platform_evm.Common.Result.{Result, ok, err}
use rwa_platform_evm.Models.Transaction.{
  Transaction, TxStatus, pending, replaced, mined, confirmed, reverted, reorged, failed,
  broadcast_unknown, nonce_consumed_externally, is_event_derived,
}
use rwa_platform_evm.Store.Transactions.{
  RepoError, has_status, get, list, list_replacements, list_unfinalized,
}
use rwa_platform_evm.Store.Transactions.Writes.{get-ok}
use rwa_platform_evm.Store.Transactions.Keyed.{IsKeyed, lookup-list, lookup-id}
use rwa_platform_evm.TxManager.State.{
  rpc_failed, Receipt, Answer, found, missing, failed as lookup_failed,
}
use rwa_platform_evm.TxManager.Monad.{World, Env, M, and_then, require, send}
use rwa_platform_evm.TxManager.Refresh.{
  reconcile_one, link_original, linked, reconcile_replacements, refresh_listed, refresh_one,
  refresh_all, refresh_statuses, missing_unmined, rebroadcast_unknown, missing_receipt, on_receipt,
  handle_missing_receipt, is_final,
}
use rwa_platform_evm.TxManager.Refresh.Kept.{
  Stands, Good, Keeps-refl, update_tx-Good, and_then-Good, each-Good, unchanged, mark-Good,
  handle_receipt-Good,
}

missing_unmined-Good :
    (env : Env) (t : Transaction) (w : World) (otherwise : M (Unit {0}))
    → IsKeyed w.txs
    → Stands w.txs t
    → (otherwise w).1.txs ≡ w.txs
    → Good w.txs (missing_unmined env t otherwise w)
unfolding missing_unmined
missing_unmined-Good env t w otherwise k st same =
    elim (Option-cases (env.client.nonce_at t.sender)) [
      | inl q ↦ rw (q, missing_unmined) (Keeps-refl w.txs, k)
      | inr (latest, q) ↦ elim (Bool-cases (ltb t.nonce latest)) [
        | inl over ↦
            rw (q, missing_unmined, over) (mark-Good env nonce_consumed_externally t w k st)
        | inr under ↦ rw (q, missing_unmined, under) (unchanged w (otherwise w) k same)
      ]
    ]

rebroadcast-txs :
    (env : Env) (t : Transaction) (w : World) → (rebroadcast_unknown env t w).1.txs ≡ w.txs
unfolding rebroadcast_unknown send
rebroadcast-txs env t w = ground arith

missing_receipt-Good :
    (env : Env) (s : TxStatus) (t : Transaction) (w : World)
    → IsKeyed w.txs
    → Stands w.txs t
    → Good w.txs (missing_receipt env s t w)
unfolding missing_receipt
missing_receipt-Good env mined t w k st = mark-Good env reorged t w k st
missing_receipt-Good env confirmed t w k st = mark-Good env reorged t w k st
missing_receipt-Good env reverted t w k st = mark-Good env reorged t w k st
missing_receipt-Good env reorged t w k st = mark-Good env reorged t w k st
missing_receipt-Good env pending t w k st = missing_unmined-Good env t w (λ v. (ok tt, v)) k st refl
missing_receipt-Good env broadcast_unknown t w k st =
    missing_unmined-Good env t w (rebroadcast_unknown env t) k st (rebroadcast-txs env t w)
missing_receipt-Good env _ t w k st = (Keeps-refl w.txs, k)

on_receipt-Good :
    (env : Env) (current confirmations : ℕ) (a : Answer Receipt) (t : Transaction) (w : World)
    → IsKeyed w.txs
    → Stands w.txs t
    → Good w.txs (on_receipt env t current confirmations a w)
unfolding on_receipt handle_missing_receipt
on_receipt-Good env current confirmations (found r) t w k st =
    handle_receipt-Good env current confirmations t w r k st
on_receipt-Good env current confirmations missing t w k st =
    missing_receipt-Good env t.status t w k st
on_receipt-Good env current confirmations lookup_failed t w k st = (Keeps-refl w.txs, k)

refresh_listed-Good :
    (env : Env) (current confirmations : ℕ) (t : Transaction) (w : World)
    → IsKeyed w.txs
    → Stands w.txs t
    → Good w.txs (refresh_listed env current confirmations t w)
unfolding refresh_listed refresh_one
refresh_listed-Good env current confirmations t w k st =
    elim (Bool-cases (is_event_derived t || is_final t current confirmations)) [
      | inl skip ↦ rw skip (Keeps-refl w.txs, k)
      | inr look ↦ rw look (on_receipt-Good env current confirmations _ t w k st)
    ]

reconcile_one-Good :
    (env : Env) (t : Transaction) (w : World) → IsKeyed w.txs → Good w.txs (reconcile_one env t w)
unfolding reconcile_one link_original get
reconcile_one-Good env t w k = elim (Bool-cases (has_status failed t)) [
  | inl skip ↦ rw skip (Keeps-refl w.txs, k)
  | inr live ↦ rw live (go (get t.replaces w.txs) refl)
]
  where
    go :
        (r : Result RepoError Transaction)
        → get t.replaces w.txs ≡ r
        → Good w.txs (link_original env t r w)
    go (err e) q = (Keeps-refl w.txs, k)
    go (ok o) q = elim (Bool-cases (has_status replaced o)) [
      | inl already ↦ rw already (Keeps-refl w.txs, k)
      | inr not_yet ↦
          rw not_yet
            (update_tx-Good (linked env t o) w k (o, stored o (get-ok t.replaces w.txs o q), refl))
    ]
      where
        stored : (x : Transaction) → lookup t.replaces w.txs ≡ some x → lookup x.id w.txs ≡ some x
        stored x h = ap (λ i. lookup i w.txs) (lookup-id w.txs t.replaces x k h) ∙ h

-- Where each record stands under its own ID, `RefreshStatuses` loses none and makes none another transaction: each keeps its sender, nonce,
-- hash, signed bytes, key and all else but its status, block, replacement link and time of change,
-- also where the refresh stops at an error.
pub refresh_statuses-Keeps :
    (env : Env) (confirmations : ℕ) (w : World)
    → IsKeyed w.txs
    → Good w.txs (refresh_statuses env confirmations w)
unfolding refresh_statuses reconcile_replacements refresh_all list_replacements list_unfinalized
refresh_statuses-Keeps env confirmations w k =
    and_then-Good w.txs (reconcile_replacements env w) _ linked_up
      λ _ keyed. refreshed (reconcile_replacements env w).1 keyed env.client.block_number
  where
    stands :
        (v : World)
        → IsKeyed v.txs
        → (p : Transaction → Bool) (t : Transaction) → In t (keep p (list v.txs))
        → Stands v.txs t
    stands v keyed p t i = (t, lookup-list v.txs t keyed (In-keep p (list v.txs) t i).0, refl)

    linked_up : Good w.txs (reconcile_replacements env w)
    linked_up =
        each-Good (reconcile_one env) (λ t v keyed _. reconcile_one-Good env t v keyed) _ w k
          (stands w k _)

    refreshed :
        (v : World)
        → IsKeyed v.txs
        → (block : Option ℕ)
        → Good v.txs (
            and_then
              (require rpc_failed block v)
              (λ current. refresh_all env current confirmations))
    refreshed v keyed none = (Keeps-refl v.txs, keyed)
    refreshed v keyed (some current) =
        each-Good (refresh_listed env current confirmations)
          (refresh_listed-Good env current confirmations) _ v keyed (stands v keyed _)
