-- ===== src/TxManager/Refresh/Receipts.antt =====
-- server/internal/blockchain/txmanager.go: what `refreshOne` may make of a transaction.
use rwa_platform_evm.Common.{
  ℕ, ◌+◌, ◌%◌, ◌^◌, ◌≤◌, ◌≢◌, ◌<◌, ◌&&◌, ◌==◌, nat_eq, Bool, true, false, some, ◌≡◌, refl, ◌⊎◌, inl,
  inr, arith, Bool-cases, Option-cases, ◌∙◌, ap, sym, subst, ltb, ltb→lt, string_eq,
}
use rwa_platform_evm.Common.Dict.{lookup, insert, lookup-insert_self}
use rwa_platform_evm.Common.Result.{Result, ok, err}
use rwa_platform_evm.Models.Transaction.{
  Transaction, TxStatus, pending, mined, confirmed, replaced, reverted, reorged, failed,
  broadcast_unknown, nonce_consumed_externally, needs_intervention, TxStatus-discrete, Hash,
}
use rwa_platform_evm.Store.Transactions.{has_status}
use mathlib.Core.Bool.{decide_iff}
use rwa_platform_evm.Store.Transactions.Writes.{update-found}
use rwa_platform_evm.TxManager.State.{
  Answer, found, missing, failed as lookup_failed, Receipt, TxError,
}
use rwa_platform_evm.TxManager.Monad.{World, Env, M, update_tx, send}
use rwa_platform_evm.TxManager.Refresh.{
  canonical_answer, refresh_one, on_receipt, handle_receipt, handle_missing_receipt,
  missing_receipt, missing_unmined, rebroadcast_unknown, mark, marked, settle_receipt, advanced,
  is_canonical, new_status,
}

-- The record found under the transaction's ID afterwards, in a status that satisfies `P`.
abbrev pub Leaves : Transaction → (TxStatus → Type 0) → Result TxError (Unit {0}) × World → Type 0
Leaves t P out = (t' : Transaction) × (lookup t.id out.1.txs ≡ some t') × P t'.status

update_tx-Leaves :
    (t t' : Transaction) (P : TxStatus → Type 0) (w : World)
    → lookup t.id w.txs ≡ some t
    → t'.id ≡ t.id
    → P t'.status
    → Leaves t P (update_tx t' w)
unfolding update_tx
update_tx-Leaves t t' P w h e p =
    rw (update-found t' t w.txs (rw e h)) (
      t',
      ap (λ i. lookup i (insert t'.id t' w.txs)) (sym e) ∙ lookup-insert_self t'.id t' w.txs,
      p,
    )

status_of : (s : TxStatus) (t : Transaction) → has_status s t ≡ true → t.status ≡ s
status_of s t h = (decide_iff (TxStatus-discrete t.status s)).0 h

mark-Leaves :
    (env : Env) (s : TxStatus) (t : Transaction) (w : World) (Q : TxStatus → Type 0)
    → lookup t.id w.txs ≡ some t
    → Q s
    → Leaves t Q (mark env s t w)
unfolding mark
mark-Leaves env s t w Q h q = elim (Bool-cases (has_status s t)) [
  | inl same ↦ rw same (t, h, subst Q (sym (status_of s t same)) q)
  | inr other ↦ rw other (update_tx-Leaves t (marked env s t) Q w h refl q)
]

settle_receipt-Leaves :
    (env : Env) (r : Receipt) (s : TxStatus) (t : Transaction) (w : World) (Q : TxStatus → Type 0)
    → lookup t.id w.txs ≡ some t
    → Q s
    → Leaves t Q (settle_receipt env r s t w)
unfolding settle_receipt
settle_receipt-Leaves env r s t w Q h q =
    elim (Bool-cases
      (has_status s t && t.block_number == r.block_number && t.block_hash == r.block_hash)) [
        | inl same ↦
            let unchanged : t.status ≡ s = status_of s t (ground (arith, same)) in
            rw same (t, h, subst Q (sym unchanged) q)
        | inr other ↦ rw other (update_tx-Leaves t (advanced env r s t) Q w h refl q)
      ]

-- The node has the receipt's block; a zero hash names no block and is not compared.
abbrev pub InChain : Env → Receipt → Type 0
InChain env r =
    (r.block_hash ≡ 0) ⊎ (env.client.header_by_number r.block_number ≡ found r.block_hash)

-- The node has no block, or another one, at the receipt's height.
abbrev pub OutOfChain : Env → Receipt → Type 0
OutOfChain env r =
    (r.block_hash ≢ 0)
    × ((env.client.header_by_number r.block_number ≡ missing)
        ⊎ ((h : Hash) × (env.client.header_by_number r.block_number ≡ found h)
            × (h ≢ r.block_hash)))

-- Reverted if the call failed; else confirmed once the head has reached the block's number plus the
-- confirmations, as a `uint64`, and mined before.
abbrev pub Calls : Receipt → ℕ → ℕ → TxStatus → Type 0
Calls r current confirmations s =
    ((r.has_failed ≡ true) × (s ≡ reverted))
    ⊎ ((r.has_failed ≡ false)
        × ((r.block_number + confirmations) % 2 ^ 64 ≤ current)
        × (s ≡ confirmed))
    ⊎ ((r.has_failed ≡ false) × (current < (r.block_number + confirmations) % 2 ^ 64) × (s ≡ mined))

is_canonical-InChain : (env : Env) (r : Receipt) → is_canonical env r ≡ ok true → InChain env r
unfolding is_canonical canonical_answer
is_canonical-InChain env r h = ground arith

is_canonical-OutOfChain :
    (env : Env) (r : Receipt) → is_canonical env r ≡ ok false → OutOfChain env r
unfolding is_canonical canonical_answer
is_canonical-OutOfChain env r h = ground arith

new_status-Calls :
    (r : Receipt) (current confirmations : ℕ)
    → Calls r current confirmations (new_status r current confirmations)
unfolding new_status
new_status-Calls r current confirmations = ground arith

-- Why a refresh may leave a transaction in a status.
pub data Justified (env : Env) (current confirmations : ℕ) (t : Transaction) (s : TxStatus)
    : Type 0 where
  kept : s ≡ t.status → Justified env current confirmations t s
  observed :
      (r : Receipt)
      → env.client.transaction_receipt t.tx_hash ≡ found r
      → InChain env r
      → Calls r current confirmations s
      → Justified env current confirmations t s
  orphaned :
      (r : Receipt)
      → env.client.transaction_receipt t.tx_hash ≡ found r
      → OutOfChain env r
      → s ≡ reorged
      → Justified env current confirmations t s
  vanished :
      env.client.transaction_receipt t.tx_hash ≡ missing
      → (t.status ≡ mined) ⊎ (t.status ≡ confirmed) ⊎ (t.status ≡ reverted)
      → s ≡ reorged
      → Justified env current confirmations t s
  overtaken :
      (latest : ℕ)
      → env.client.transaction_receipt t.tx_hash ≡ missing
      → env.client.nonce_at t.sender ≡ some latest
      → t.nonce < latest
      → (t.status ≡ pending) ⊎ (t.status ≡ broadcast_unknown)
      → s ≡ nonce_consumed_externally
      → Justified env current confirmations t s

handle_receipt-Justified :
    (env : Env) (current confirmations : ℕ) (t : Transaction) (w : World) (r : Receipt)
    → env.client.transaction_receipt t.tx_hash ≡ found r
    → lookup t.id w.txs ≡ some t
    → Leaves t
        (Justified env current confirmations t)
        (handle_receipt env t r current confirmations w)
unfolding handle_receipt
handle_receipt-Justified env current confirmations t w r e h = go (is_canonical env r) refl
  where
    go :
        (c : Result TxError Bool)
        → is_canonical env r ≡ c
        → Leaves t
            (Justified env current confirmations t)
            (handle_receipt env t r current confirmations w)
    go (err x) q = rw (q, handle_receipt) (t, h, kept refl)
    go (ok true) q =
        rw (q, handle_receipt)
          (settle_receipt-Leaves env r (new_status r current confirmations) t w
            (Justified env current confirmations t) h
            (observed r e (is_canonical-InChain env r q)
              (new_status-Calls r current confirmations)))
    go (ok false) q =
        rw (q, handle_receipt)
          (mark-Leaves env reorged t w (Justified env current confirmations t) h
            (orphaned r e (is_canonical-OutOfChain env r q) refl))

missing_unmined-Justified :
    (env : Env) (current confirmations : ℕ) (t : Transaction) (w : World) (otherwise : M (Unit {0}))
    → env.client.transaction_receipt t.tx_hash ≡ missing
    → lookup t.id w.txs ≡ some t
    → (t.status ≡ pending) ⊎ (t.status ≡ broadcast_unknown)
    → (otherwise w).1.txs ≡ w.txs
    → Leaves t (Justified env current confirmations t) (missing_unmined env t otherwise w)
unfolding missing_unmined
missing_unmined-Justified env current confirmations t w otherwise e h was same =
    elim (Option-cases (env.client.nonce_at t.sender)) [
      | inl q ↦ rw (q, missing_unmined) (t, h, kept refl)
      | inr (latest, q) ↦ elim (Bool-cases (ltb t.nonce latest)) [
        | inl over ↦
            rw (q, missing_unmined, over)
              (mark-Leaves env nonce_consumed_externally t w (Justified env current confirmations t)
                h (overtaken latest e q (ltb→lt t.nonce latest over) was refl))
        | inr under ↦ rw (q, missing_unmined, under) (t, ap (lookup t.id) same ∙ h, kept refl)
      ]
    ]

rebroadcast-txs :
    (env : Env) (t : Transaction) (w : World) → (rebroadcast_unknown env t w).1.txs ≡ w.txs
unfolding rebroadcast_unknown send
rebroadcast-txs env t w = ground arith

handle_missing-Justified :
    (env : Env) (current confirmations : ℕ) (t : Transaction) (w : World)
    → env.client.transaction_receipt t.tx_hash ≡ missing
    → lookup t.id w.txs ≡ some t
    → Leaves t (Justified env current confirmations t) (handle_missing_receipt env t w)
unfolding handle_missing_receipt
handle_missing-Justified env current confirmations t w e h = go t.status refl
  where
    gone :
        (t.status ≡ mined) ⊎ (t.status ≡ confirmed) ⊎ (t.status ≡ reverted)
        → Leaves t (Justified env current confirmations t) (mark env reorged t w)
    gone was =
        mark-Leaves env reorged t w (Justified env current confirmations t) h (vanished e was refl)

    go :
        (s : TxStatus)
        → t.status ≡ s
        → Leaves t (Justified env current confirmations t) (missing_receipt env s t w)
    go mined q = gone (inl q)
    go confirmed q = gone (inr (inl q))
    go reverted q = gone (inr (inr q))
    go pending q =
        missing_unmined-Justified env current confirmations t w (λ v. (ok tt, v)) e h (inl q) refl
    go broadcast_unknown q =
        missing_unmined-Justified env current confirmations t w (rebroadcast_unknown env t) e h
          (inr q) (rebroadcast-txs env t w)
    go reorged q =
        mark-Leaves env reorged t w (Justified env current confirmations t) h (kept (sym q))
    go replaced q = (t, h, kept refl)
    go failed q = (t, h, kept refl)
    go nonce_consumed_externally q = (t, h, kept refl)
    go needs_intervention q = (t, h, kept refl)

-- A refresh leaves a stored transaction on record, and its status is what it was unless the node gives
-- a reason. Mined, confirmed or reverted takes a receipt whose block the node still has at that height,
-- or that names no block: reverted if the call failed, and else confirmed if the head has reached the
-- block's number plus the confirmations, as a `uint64`, and mined if it has not. Reorged takes a receipt
-- of a block that the node no longer has at that height, or the loss of a receipt that was seen.
-- Consumed externally takes an unmined transaction without a receipt and a mined nonce beyond its own.
pub refresh_one-Justified :
    (env : Env) (current confirmations : ℕ) (t : Transaction) (w : World)
    → lookup t.id w.txs ≡ some t
    → Leaves t (Justified env current confirmations t) (refresh_one env current confirmations t w)
unfolding refresh_one
refresh_one-Justified env current confirmations t w h =
    go (env.client.transaction_receipt t.tx_hash) refl
  where
    go :
        (a : Answer Receipt)
        → env.client.transaction_receipt t.tx_hash ≡ a
        → Leaves t
            (Justified env current confirmations t)
            (on_receipt env t current confirmations a w)
    go (found r) q = handle_receipt-Justified env current confirmations t w r q h
    go missing q = handle_missing-Justified env current confirmations t w q h
    go lookup_failed q = (t, h, kept refl)
