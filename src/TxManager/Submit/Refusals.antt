-- ===== src/TxManager/Submit/Refusals.antt =====
-- server/internal/blockchain/txmanager.go: when `Submit` writes and sends nothing.
use rwa_platform_evm.Common.{
  ℕ, false, some, ◌==◌, string_eq, ◌≡◌, refl, ◌⊎◌, inl, inr, ◌∙◌, ap, sym, subst, arith,
  Option-cases, In,
}
use rwa_platform_evm.Common.Result.{Result, ok, err}
use rwa_platform_evm.Models.Transaction.{Address, Transaction}
use mathlib.Core.Bool.{false≢true}
use rwa_platform_evm.Store.Transactions
use rwa_platform_evm.Store.Transactions.{TransactionStore, RepoError}
use rwa_platform_evm.TxManager.State.{Signer, TxError, blocked}
use rwa_platform_evm.TxManager.Monad.{World, Env, M, and_then}
use rwa_platform_evm.TxManager.Prepare.{SubmitRequest}
use rwa_platform_evm.TxManager.Guards.{
  needs_intervention_tx, is_retryable_status, acquire_nonce_lease, release_lease, released,
  with_lease, is_stuck, is_unresolved,
}
use rwa_platform_evm.TxManager.Guards.Nonces.{IsBlocking, needs_intervention_tx-decides}
use rwa_platform_evm.TxManager.Submit.{
  submit_unblocked, submit_leased, submit, submit_signed, submit_from, existing_under,
}

-- Nothing is written to the transactions, and nothing is sent.
abbrev pub Untouched : World → Result TxError Transaction × World → Type 0
Untouched w out = (out.1.txs ≡ w.txs) × (out.1.sent ≡ w.sent)

acquire-kept :
    (env : Env) (from : Address) (w : World)
    → let w' = (acquire_nonce_lease env from w).1 in (w'.txs ≡ w.txs) × (w'.sent ≡ w.sent)
unfolding acquire_nonce_lease
acquire-kept env from w = ground arith

release-kept :
    (env : Env) (from : Address) (token : ℕ) (w : World)
    → let w' = release_lease env from token w in (w'.txs ≡ w.txs) × (w'.sent ≡ w.sent)
unfolding release_lease
release-kept env from token w = ground arith

-- Under the lease too, if the body answers with `Q` and leaves the world alone.
with_lease-Untouched :
    (env : Env) (from : Address) (body : ℕ → M Transaction) (w : World)
    → (Q : Result TxError Transaction → Type 0) → ((e : TxError) → Q (err e))
    → ((token : ℕ) (v : World) → v.txs ≡ w.txs → ((body token v).1 ≡ v) × Q (body token v).0)
    → Untouched w (with_lease env from body w) × Q (with_lease env from body w).0
unfolding with_lease
with_lease-Untouched env from body w Q failed alone =
    go (acquire_nonce_lease env from w) (acquire-kept env from w)
  where
    go :
        (out : Result TxError ℕ × World)
        → (out.1.txs ≡ w.txs) × (out.1.sent ≡ w.sent)
        → let end = and_then out (λ token v. released env from token (body token v)) in
          Untouched w end × Q end.0
    go (err e, v) kept = (kept, failed e)
    go (ok token, v) kept =
        let (same, q) = alone token v kept.0 in
        let gone = release-kept env from token (body token v).1 in
        (
          (
            gone.0 ∙ ap (λ (u : World). u.txs) same ∙ kept.0,
            gone.1 ∙ ap (λ (u : World). u.sent) same ∙ kept.1,
          ),
          q,
        )

submit-eq :
    (env : Env) (req : SubmitRequest) (w : World) (signer : Signer) (from : Address)
    → req.signer ≡ some signer
    → signer.address ≡ some from
    → submit env req w ≡ with_lease env from (submit_leased env req signer from) w
unfolding submit
submit-eq env req w signer from hs ha =
    ap (λ o. submit_signed env req o w) hs ∙ ap (λ o. submit_from env req signer o w) ha

leased-blocked :
    (env : Env) (req : SubmitRequest) (signer : Signer) (from : Address) (token : ℕ) (v : World)
    → (t : Transaction) → In t (Transactions.list v.txs)
    → IsBlocking from t
    → let out = submit_leased env req signer from token v in
      (out.1 ≡ v) × ((e : TxError) × (out.0 ≡ err e))
unfolding submit_leased
leased-blocked env req signer from token v t i b =
    elim (Option-cases (needs_intervention_tx from v.txs)) [
      | inr (x, e) ↦ rw (e, submit_leased) (refl, (blocked x.id, refl))
      | inl e ↦ absurd (free ((needs_intervention_tx-decides from v.txs).1 t e i) b)
    ]
  where
    free : (is_stuck from t ≡ false) × (is_unresolved from t ≡ false) → IsBlocking from t → ⊥
    free (s, u) (inl q) = false≢true (sym s ∙ q)
    free (s, u) (inr q) = false≢true (sym u ∙ q)

-- While a stored transaction blocks the signer, `Submit` fails, writes no transaction and sends none.
pub submit-blocked :
    (env : Env) (req : SubmitRequest) (w : World) (signer : Signer) (from : Address)
    (t : Transaction)
    → req.signer ≡ some signer
    → signer.address ≡ some from
    → In t (Transactions.list w.txs)
    → IsBlocking from t
    → Untouched w (submit env req w) × ((e : TxError) × ((submit env req w).0 ≡ err e))
submit-blocked env req w signer from t hs ha i b = rw (submit-eq env req w signer from hs ha) (
    with_lease-Untouched env from (submit_leased env req signer from) w
      (λ r. (e : TxError) × (r ≡ err e)) (λ e. (e, refl))
      (λ token v same.
        leased-blocked env req signer from token v t
          (subst (λ m. In t (Transactions.list m)) (sym same) i) b))

unblocked-repeat :
    (env : Env) (req : SubmitRequest) (signer : Signer) (from : Address) (token : ℕ) (v : World)
    → (old : Transaction) → (req.idempotency_key == "") ≡ false
    → Transactions.get_by_idempotency_key req.idempotency_key v.txs ≡ ok old
    → is_retryable_status old ≡ false
    → submit_unblocked env req signer from token v ≡ (ok old, v)
unfolding submit_unblocked
unblocked-repeat env req signer from token v old k g n =
    let found : existing_under req.idempotency_key v.txs ≡ ok old = rw (k, existing_under) g in
    rw (found, submit_unblocked) (rw n refl)

leased-repeat :
    (env : Env) (req : SubmitRequest) (signer : Signer) (from : Address) (token : ℕ) (v : World)
    → (old : Transaction) → (req.idempotency_key == "") ≡ false
    → Transactions.get_by_idempotency_key req.idempotency_key v.txs ≡ ok old
    → is_retryable_status old ≡ false
    → let out = submit_leased env req signer from token v in
      (out.1 ≡ v) × ((out.0 ≡ ok old) ⊎ ((e : TxError) × (out.0 ≡ err e)))
unfolding submit_leased
leased-repeat env req signer from token v old k g n =
    elim (Option-cases (needs_intervention_tx from v.txs)) [
      | inr (x, e) ↦ rw (e, submit_leased) (refl, inr (blocked x.id, refl))
      | inl e ↦
          rw (e, submit_leased, unblocked-repeat env req signer from token v old k g n)
            (refl, inl refl)
    ]

-- A key under which a record stands that may not be retried is never submitted again: nothing is
-- written to the transactions and nothing is sent, and the answer is that record or an error.
pub submit-repeat :
    (env : Env) (req : SubmitRequest) (w : World) (signer : Signer) (from : Address)
    → (old : Transaction) → req.signer ≡ some signer
    → signer.address ≡ some from
    → (req.idempotency_key == "") ≡ false
    → Transactions.get_by_idempotency_key req.idempotency_key w.txs ≡ ok old
    → is_retryable_status old ≡ false
    → Untouched w (submit env req w)
      × (((submit env req w).0 ≡ ok old) ⊎ ((e : TxError) × ((submit env req w).0 ≡ err e)))
submit-repeat env req w signer from old hs ha k g n = rw (submit-eq env req w signer from hs ha) (
    with_lease-Untouched env from (submit_leased env req signer from) w
      (λ r. (r ≡ ok old) ⊎ ((e : TxError) × (r ≡ err e))) (λ e. inr (e, refl))
      (λ token v same.
        leased-repeat env req signer from token v old k
          (ap (Transactions.get_by_idempotency_key req.idempotency_key) same ∙ g) n))
