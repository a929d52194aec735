-- ===== src/TxManager/Submit.antt =====
-- server/internal/blockchain/txmanager.go: `Submit`.
pub mod Durable
pub mod Refusals
use rwa_platform_evm.Common.{
  ℕ, String, Bool, true, false, List, [], ◌∷◌, ◌++◌, Option, none, some, if◌then◌else◌, ◌==◌,
  string_eq,
}
use rwa_platform_evm.Common.Result.{Result, ok, err, map_err}
use rwa_platform_evm.Models.Transaction.{
  Address, Transaction, TxAttempt, pending, failed, broadcast_unknown,
}
use rwa_platform_evm.Store.Transactions
use rwa_platform_evm.Store.Transactions.{RepoError, not_found, already_exists, TransactionStore}
use rwa_platform_evm.TxManager.Fees.{UnsignedTx, Call, build_tx}
use rwa_platform_evm.TxManager.State.{
  SignedTx, SendError, Signer, TxError, no_signer, signer_failed, sign_failed, outcome_unknown,
  rejected, blocked, fees, store,
}
use rwa_platform_evm.TxManager.Monad.{
  World, Env, M, ◌>>=◌, ◌>>◌, return, throw, require, lift, update_tx, try_update_tx, send,
  and_then,
}
use rwa_platform_evm.TxManager.Prepare.{SubmitRequest, Prepared, submit_record, prepare}
use rwa_platform_evm.TxManager.Guards.{
  is_ambiguous_broadcast, encode_signed_tx, renew_nonce_lease, with_lease, needs_intervention_tx,
  is_retryable_status, allocate_nonce,
}

-- A record that lost the race for its ID; the winner, if the key finds one.
lost_race : SubmitRequest → TransactionStore → RepoError → Result TxError (Option Transaction)
lost_race req m already_exists = elim (Transactions.get_by_idempotency_key req.idempotency_key m) [
  | ok winner ↦ ok (some winner)
  | err e ↦ err (store already_exists)
]
lost_race req m e = err (store e)

-- The winner of a lost race, or nothing once the record is stored.
unfoldable pub persist : SubmitRequest → Option Transaction → Transaction → M (Option Transaction)
unfolding lost_race
persist req none tx w = elim (Transactions.create tx w.txs) [
  | ok m ↦ (ok none, record w { txs = m })
  | err e ↦ (lost_race req w.txs e, w)
]
persist req (some existing) tx w = elim (Transactions.update tx w.txs) [
  | ok m ↦ (ok none, record w { txs = m })
  | err e ↦ (err (store e), w)
]

settle : Transaction → Option SendError → M Transaction
settle tx none w = let sent = record tx { status = pending } in (update_tx sent >> return sent) w
settle tx (some e) w =
    if is_ambiguous_broadcast e
    then (err outcome_unknown, w)
    else (err rejected, try_update_tx (record tx { status = failed }) w)

unfoldable pub broadcast : Env → Transaction → SignedTx → M Transaction
unfolding settle
broadcast env tx signed = send env.client signed >>= settle tx

-- A lost race returns the winner, and sends nothing.
after_persist : Env → Transaction → SignedTx → Option Transaction → M Transaction
after_persist env tx signed (some winner) w = (ok winner, w)
after_persist env tx signed none w = broadcast env tx signed w

unfoldable pub persist_and_broadcast :
    Env → SubmitRequest → Option Transaction → Transaction → SignedTx → M Transaction
unfolding after_persist
persist_and_broadcast env req existing tx signed =
    persist req existing tx >>= after_persist env tx signed

-- Other replicas may act until the lease is renewed.
others_act : Env → M (Unit {0})
others_act env w = (ok tt, env.others w)

prepared : Env → SubmitRequest → Signer → Address → M Prepared
prepared env req signer from w = lift (prepare env req signer from w.txs) w

unfoldable pub submit_new :
    Env → SubmitRequest → Signer → Address → ℕ → Option Transaction → M Transaction
unfolding prepared others_act
submit_new env req signer from token existing = do
  p ← prepared env req signer from
  others_act env
  renew_nonce_lease env from token
  persist_and_broadcast env req existing (submit_record env req from token existing p) p.signed

existing_under : String → TransactionStore → Result RepoError Transaction
existing_under key m =
    if key == "" then err not_found else Transactions.get_by_idempotency_key key m

unfoldable pub submit_unblocked : Env → SubmitRequest → Signer → Address → ℕ → M Transaction
unfolding existing_under
submit_unblocked env req signer from token w = elim (existing_under req.idempotency_key w.txs) [
  | err e ↦ submit_new env req signer from token none w
  | ok existing ↦
      if is_retryable_status existing
      then submit_new env req signer from token (some existing) w
      else (ok existing, w)
]

unfoldable pub submit_leased : Env → SubmitRequest → Signer → Address → ℕ → M Transaction
submit_leased env req signer from token w = elim (needs_intervention_tx from w.txs) [
  | some blocker ↦ (err (blocked blocker.id), w)
  | none ↦ submit_unblocked env req signer from token w
]

submit_from : Env → SubmitRequest → Signer → Option Address → M Transaction
submit_from env req signer none w = (err signer_failed, w)
submit_from env req signer (some from) w = with_lease env from (submit_leased env req signer from) w

submit_signed : Env → SubmitRequest → Option Signer → M Transaction
unfolding submit_from
submit_signed env req none w = (err no_signer, w)
submit_signed env req (some signer) w = submit_from env req signer signer.address w

unfoldable pub submit : Env → SubmitRequest → M Transaction
unfolding submit_signed
submit env req = submit_signed env req req.signer
