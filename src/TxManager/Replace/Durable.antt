-- ===== src/TxManager/Replace/Durable.antt =====
-- server/internal/blockchain/txmanager.go: `Replace` too stores what it signs before the node has it.
use rwa_platform_evm.Common.Int.{pos, int_ltb, int64_of}
use rwa_platform_evm.Common.{
  ℕ, String, not, Option, none, some, ◌==◌, nat_eq, ◌≡◌, ◌≢◌, refl, inl, inr, arith, Bool-cases,
  ◌∙◌, ap, subst, sym,
}
use rwa_platform_evm.Common.Result.{Result, ok, err}
use rwa_platform_evm.Models.Transaction.{Address, Transaction, pending, broadcast_unknown}
use rwa_platform_evm.Store.Transactions
use rwa_platform_evm.Store.Transactions.{RepoError, has_status}
use rwa_platform_evm.TxManager.State.{SignedTx, CodecLaws, Signer, TxError}
use rwa_platform_evm.TxManager.Monad.{World, Env, update_tx}
use rwa_platform_evm.TxManager.Guards.{encode_signed_tx, decode_signed_tx, renew_nonce_lease}
use rwa_platform_evm.TxManager.Prepare.{prepare_replacement}
use rwa_platform_evm.TxManager.Submit.Durable.{
  decode-encode, Careful, and_then-Careful, renew-sent, with_lease-Careful,
}
use rwa_platform_evm.TxManager.Replace.Fenced.{Fenced, store_and_replace-Fenced}
use rwa_platform_evm.TxManager.Replace.{
  replacement_record, store_and_replace, replace_old, replace_leased, replace_from, replace,
  is_exhausted, mark_needs_intervention, others_meanwhile,
}

Fenced-Careful :
    (env : Env) (old new : Transaction) (s : SignedTx) (w : World)
    (out : Result TxError Transaction × World)
    → new.tx_hash ≡ env.codec.hash s
    → decode_signed_tx env.codec new.signed_raw_tx ≡ ok s
    → new.status ≡ broadcast_unknown
    → Fenced env old new s w out
    → Careful env.codec w.sent out
Fenced-Careful env old new s w (r, v) h k u (inl (e, _, inl (x, y, z))) =
    inr (s, e, (_, y, h, k, inl (x, refl)))
Fenced-Careful env old new s w (r, v) h k u (inl (e, _, inr (inl (x, y, z)))) =
    inr (s, e, (_, y, h, k, inr (inr (x, u))))
Fenced-Careful env old new s w (r, v) h k u (inl (e, _, inr (inr (x, y, z)))) =
    inr (s, e, (_, y, h, k, inr (inl (x, refl))))
Fenced-Careful env old new s w (r, v) h k u (inr (inl (x, e, _, _, _))) = inl e
Fenced-Careful env old new s w (r, v) h k u (inr (inr (e, _))) = inl e

prepare_replacement-encodes :
    (env : Env) (signer : Signer) (from : Address) (percent : ℕ) (old : Transaction) (s : SignedTx)
    (raw : String)
    → prepare_replacement env signer from percent old ≡ ok (s, raw)
    → encode_signed_tx env.codec s ≡ ok raw
unfolding prepare_replacement
prepare_replacement-encodes env signer from percent old s raw h = ground arith

mark_needs_intervention-sent :
    (env : Env) (old : Transaction) (w : World)
    → (mark_needs_intervention env old w).1.sent ≡ w.sent
unfolding mark_needs_intervention update_tx
mark_needs_intervention-sent env old w = ground arith

stored_replacement-Careful :
    (env : Env) (token : ℕ) (old : Transaction) (made : SignedTx × String) (w : World)
    → CodecLaws env.codec
    → env.fresh_id ≢ old.id
    → encode_signed_tx env.codec made.0 ≡ ok made.1
    → Careful env.codec w.sent
        (store_and_replace env old (replacement_record env token old made) made.0 w)
stored_replacement-Careful env token old made w laws fresh e =
    Fenced-Careful env old (replacement_record env token old made) made.0 w
      (store_and_replace env old (replacement_record env token old made) made.0 w) refl
      (decode-encode env.codec laws made.0 made.1 e) refl
      (store_and_replace-Fenced env old (replacement_record env token old made) made.0 w fresh)

replace_old-Careful :
    (env : Env) (signer : Signer) (from : Address) (token percent : ℕ) (old : Transaction)
    (w : World)
    → CodecLaws env.codec
    → ((v : World) → (env.others v).sent ≡ v.sent)
    → env.fresh_id ≢ old.id
    → Careful env.codec w.sent (replace_old env signer from token percent old w)
unfolding replace_old mark_needs_intervention others_meanwhile update_tx
replace_old-Careful env signer from token percent old w laws quiet fresh =
    elim (Bool-cases (not (has_status pending old))) [
      | inl a ↦ rw a (inl refl)
      | inr a ↦ elim (Bool-cases (not (from == old.sender))) [
        | inl b ↦ rw (a, b) (inl refl)
        | inr b ↦ elim (Bool-cases (is_exhausted env old)) [
          | inl c ↦ rw (a, b, c) (inl (mark_needs_intervention-sent env old w))
          | inr c ↦
              rw (a, b, c)
                (and_then-Careful env.codec w.sent
                  (prepare_replacement env signer from percent old, w) _ refl
                  λ made q.
                    and_then-Careful env.codec w.sent
                      (renew_nonce_lease env from token (env.others w)) _
                      (renew-sent env from token (env.others w) ∙ quiet w)
                      λ _ _.
                        subst
                          (λ sent. Careful env.codec sent (
                            store_and_replace env old (replacement_record env token old made) made.0
                              (renew_nonce_lease env from token (env.others w)).1))
                          (renew-sent env from token (env.others w) ∙ quiet w)
                          (stored_replacement-Careful env token old made _ laws fresh (
                            prepare_replacement-encodes env signer from percent old made.0 made.1
                              q)))
        ]
      ]
    ]

-- `Replace` too sends at most one transaction, and what it sent is on record with its hash and with
-- bytes that decode to it: pending where it returns the record, failed where the node rejected it, and
-- still unknown where the outcome is. The codec keeps its laws and the fresh ID is not the original's;
-- other replicas may change the stores while it signs, but not the list of what this one sent.
pub replace-Careful :
    (env : Env) (id : String) (signer : Option Signer) (percent : ℕ) (w : World)
    → CodecLaws env.codec
    → ((v : World) → (env.others v).sent ≡ v.sent)
    → ((t : Transaction) → Transactions.get id w.txs ≡ ok t → env.fresh_id ≢ t.id)
    → Careful env.codec w.sent (replace env id signer percent w)
unfolding replace replace_leased
replace-Careful env id none percent w laws quiet fresh = inl refl
replace-Careful env id (some signer) percent w laws quiet fresh =
    elim (Bool-cases (int_ltb (pos 0) (int64_of percent))) [
      | inl y ↦ rw y (from_signer signer.address)
      | inr n ↦ rw n (inl refl)
    ]
  where
    loaded :
        (from : Address) (token : ℕ) (v : World)
        → v.txs ≡ w.txs
        → (r : Result RepoError Transaction) → Transactions.get id v.txs ≡ r
        → Careful env.codec v.sent (replace_leased env signer id percent from token v)
    loaded from token v same (ok old) q =
        rw (q, replace_leased)
          (replace_old-Careful env signer from token percent old v laws quiet
            (fresh old (ap (Transactions.get id) (sym same) ∙ q)))
    loaded from token v same (err e) q = rw (q, replace_leased) (inl refl)

    from_signer :
        (from : Option Address)
        → Careful env.codec w.sent (replace_from env signer id percent from w)
    from_signer none = inl refl
    from_signer (some from) =
        with_lease-Careful env from (replace_leased env signer id percent from) w
          (λ token v same. loaded from token v same (Transactions.get id v.txs) refl)
