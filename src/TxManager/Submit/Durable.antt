-- ===== src/TxManager/Submit/Durable.antt =====
-- server/internal/blockchain/txmanager.go: `Submit` stores what it signs before the node has it.
use rwa_platform_evm.Common.{
  ℕ, String, List, [], ◌∷◌, Option, none, some, string_eq, ◌≡◌, refl, ◌⊎◌, inl, inr, arith,
  Bool-cases, Option-cases, ◌∙◌, ap, subst,
}
use rwa_platform_evm.Common.Dict.{lookup, lookup-insert_self}
use rwa_platform_evm.Common.Result.{Result, ok, err}
use rwa_platform_evm.Models.Transaction.{Address, Transaction, pending, failed, broadcast_unknown}
use Prim.Native.String.{◌++◌ as ◌+++◌}
use rwa_platform_evm.Store.Transactions
use rwa_platform_evm.Store.Transactions.Writes.{update-found}
use rwa_platform_evm.Store.Transactions.{RepoError, not_found, already_exists, TransactionStore}
use rwa_platform_evm.TxManager.State.{
  SignedTx, SendError, Codec, CodecLaws, Signer, TxError, outcome_unknown, rejected,
}
use rwa_platform_evm.TxManager.Monad.{World, Env, M, and_then, update_tx, try_update_tx, send}
use rwa_platform_evm.TxManager.Guards.{
  is_ambiguous_broadcast, encode_signed_tx, decode_signed_tx, decode_bytes, renew_nonce_lease,
  needs_intervention_tx, is_retryable_status, release_lease, released, acquire_nonce_lease,
  with_lease,
}
use rwa_platform_evm.TxManager.Prepare.{SubmitRequest, Prepared, submit_record, prepare}
use rwa_platform_evm.TxManager.Submit.{
  persist, lost_race, after_persist, settle, broadcast, persist_and_broadcast, submit_new,
  submit_unblocked, submit_leased, submit, submit_signed, submit_from, existing_under, others_act,
  prepared,
}

-- Reading back the stored bytes of a signed transaction gives that transaction.
pub decode-encode :
    (c : Codec) (laws : CodecLaws c) (tx : SignedTx) (raw : String)
    → encode_signed_tx c tx ≡ ok raw
    → decode_signed_tx c raw ≡ ok tx
unfolding encode_signed_tx decode_signed_tx decode_bytes
decode-encode c laws tx raw h = from_bytes (Option-cases (c.marshal_binary tx))
  where
    read : (b : List ℕ) → c.marshal_binary tx ≡ some b → decode_bytes c b ≡ ok tx
    read [] e = absurd (laws.marshal-ne-nil tx e)
    read (b ∷ bs) e = rw (laws.unmarshal-marshal tx (b ∷ bs) e, decode_bytes)

    from_bytes :
        (c.marshal_binary tx ≡ none) ⊎ ((b : List ℕ) × (c.marshal_binary tx ≡ some b))
        → decode_bytes c (c.from_hex raw) ≡ ok tx
    from_bytes (inl e) = cc (rw (e, encode_signed_tx) at h)
    from_bytes (inr (b, e)) =
        let same : raw ≡ "0x" +++ c.bytes_to_hex b = cc (rw (e, encode_signed_tx) at h) in
        rw (same, laws.from_hex_lem tx b e) (read b e)

-- How a broadcast of `s` ends: the record of it that the store then has, and the result.
abbrev pub Settled : Codec → SignedTx → Result TxError Transaction × World → Type 0
Settled c s (r, w) =
    (t : Transaction) × (lookup t.id w.txs ≡ some t)
    × (t.tx_hash ≡ c.hash s)
    × (decode_signed_tx c t.signed_raw_tx ≡ ok s)
    × (((r ≡ ok t) × (t.status ≡ pending))
        ⊎ ((r ≡ err rejected) × (t.status ≡ failed))
        ⊎ ((r ≡ err outcome_unknown) × (t.status ≡ broadcast_unknown)))

settle-Settled :
    (c : Codec) (tx : Transaction) (s : SignedTx) (answer : Option SendError) (w : World)
    → lookup tx.id w.txs ≡ some tx
    → tx.tx_hash ≡ c.hash s
    → decode_signed_tx c tx.signed_raw_tx ≡ ok s
    → tx.status ≡ broadcast_unknown
    → ((settle tx answer w).1.sent ≡ w.sent) × Settled c s (settle tx answer w)
unfolding settle update_tx try_update_tx
settle-Settled c tx s none w h k d u =
    rw (update-found (record tx { status = pending }) tx w.txs h) (
      refl,
      (record tx { status = pending }, lookup-insert_self tx.id _ w.txs, k, d, inl (refl, refl)),
    )
settle-Settled c tx s (some e) w h k d u = elim (Bool-cases (is_ambiguous_broadcast e)) [
  | inl q ↦ rw q (refl, (tx, h, k, d, inr (inr (refl, u))))
  | inr q ↦
      rw (q, update-found (record tx { status = failed }) tx w.txs h)
        (
          refl,
          (
            record tx { status = failed },
            lookup-insert_self tx.id _ w.txs,
            k,
            d,
            inr (inl (refl, refl)),
          ),
        )
]

broadcast-Settled :
    (env : Env) (tx : Transaction) (s : SignedTx) (w : World)
    → lookup tx.id w.txs ≡ some tx
    → tx.tx_hash ≡ env.codec.hash s
    → decode_signed_tx env.codec tx.signed_raw_tx ≡ ok s
    → tx.status ≡ broadcast_unknown
    → ((broadcast env tx s w).1.sent ≡ s ∷ w.sent) × Settled env.codec s (broadcast env tx s w)
unfolding broadcast send
broadcast-Settled env tx s w h k d u =
    settle-Settled env.codec tx s (env.client.send_transaction s) _ h k d u

prepare-encodes :
    (env : Env) (req : SubmitRequest) (signer : Signer) (from : Address) (m : TransactionStore)
    → (p : Prepared) → prepare env req signer from m ≡ ok p
    → encode_signed_tx env.codec p.signed ≡ ok p.raw
unfolding prepare
prepare-encodes env req signer from m p h = ground arith

-- Once a record is stored it is found under its ID; otherwise nothing is written.
persist-lem :
    (req : SubmitRequest) (existing : Option Transaction) (tx : Transaction) (w : World)
    → let out = persist req existing tx w in
      (out.1.sent ≡ w.sent) × (out.0 ≡ ok none → lookup tx.id out.1.txs ≡ some tx)
unfolding persist Transactions.create Transactions.update lost_race
persist-lem req none tx w = ground (arith, lookup-insert_self tx.id tx w.txs)
persist-lem req (some existing) tx w = ground (arith, lookup-insert_self tx.id tx w.txs)

-- What `Submit` may leave behind: nothing was sent, or one transaction was, and is on record.
abbrev pub Careful : Codec → List SignedTx → Result TxError Transaction × World → Type 0
Careful c sent out =
    (out.1.sent ≡ sent) ⊎ ((s : SignedTx) × (out.1.sent ≡ s ∷ sent) × Settled c s out)

pub and_then-Careful :
    {A : Type 0} (c : Codec) (sent : List SignedTx) (out : Result TxError A × World)
    → (f : A → M Transaction) → out.1.sent ≡ sent
    → ((a : A) → out.0 ≡ ok a → Careful c sent (f a out.1))
    → Careful c sent (and_then out f)
and_then-Careful c sent (ok a, w) f h k = k a refl
and_then-Careful c sent (err e, w) f h k = inl h

persist_and_broadcast-Careful :
    (env : Env) (req : SubmitRequest) (existing : Option Transaction) (tx : Transaction)
    (s : SignedTx)
    → (w : World) → tx.tx_hash ≡ env.codec.hash s
    → decode_signed_tx env.codec tx.signed_raw_tx ≡ ok s
    → tx.status ≡ broadcast_unknown
    → Careful env.codec w.sent (persist_and_broadcast env req existing tx s w)
unfolding persist_and_broadcast after_persist
persist_and_broadcast-Careful env req existing tx s w k d u =
    let (kept, found) = persist-lem req existing tx w in
    and_then-Careful env.codec w.sent (persist req existing tx w) _ kept (next kept found)
  where
    next :
        (persist req existing tx w).1.sent ≡ w.sent
        → ((persist req existing tx w).0 ≡ ok none
            → lookup tx.id (persist req existing tx w).1.txs ≡ some tx)
        → (a : Option Transaction) → (persist req existing tx w).0 ≡ ok a
        → Careful env.codec w.sent (after_persist env tx s a (persist req existing tx w).1)
    next kept found (some winner) e = inl kept
    next kept found none e =
        let (out, settled) =
          broadcast-Settled env tx s (persist req existing tx w).1 (found e) k d u in
        inr (s, out ∙ ap (◌∷◌ s) kept, settled)

pub renew-sent :
    (env : Env) (from : Address) (token : ℕ) (w : World)
    → (renew_nonce_lease env from token w).1.sent ≡ w.sent
unfolding renew_nonce_lease
renew-sent env from token w = ground arith

submit_new-Careful :
    (env : Env) (req : SubmitRequest) (signer : Signer) (from : Address) (token : ℕ)
    → (existing : Option Transaction) (w : World) → CodecLaws env.codec
    → (env.others w).sent ≡ w.sent
    → Careful env.codec w.sent (submit_new env req signer from token existing w)
unfolding submit_new others_act prepared submit_record
submit_new-Careful env req signer from token existing w laws quiet =
    and_then-Careful env.codec w.sent (prepare env req signer from w.txs, w) _ refl
      λ p made.
        and_then-Careful env.codec w.sent (renew_nonce_lease env from token (env.others w)) _
          (renew-sent env from token (env.others w) ∙ quiet)
          λ _ _.
            subst
              (λ sent. Careful env.codec sent (
                persist_and_broadcast env req existing (submit_record env req from token existing p)
                  p.signed (renew_nonce_lease env from token (env.others w)).1))
              (renew-sent env from token (env.others w) ∙ quiet)
              (persist_and_broadcast-Careful env req existing _ p.signed _ refl
                (decode-encode env.codec laws p.signed p.raw
                  (prepare-encodes env req signer from w.txs p made))
                refl)

submit_unblocked-Careful :
    (env : Env) (req : SubmitRequest) (signer : Signer) (from : Address) (token : ℕ) (w : World)
    → CodecLaws env.codec
    → (env.others w).sent ≡ w.sent
    → Careful env.codec w.sent (submit_unblocked env req signer from token w)
unfolding submit_unblocked
submit_unblocked-Careful env req signer from token w laws quiet =
    go (existing_under req.idempotency_key w.txs) refl
  where
    go :
        (r : Result RepoError Transaction)
        → existing_under req.idempotency_key w.txs ≡ r
        → Careful env.codec w.sent (submit_unblocked env req signer from token w)
    go (err e) q =
        rw (q, submit_unblocked) (submit_new-Careful env req signer from token none w laws quiet)
    go (ok t) q = elim (Bool-cases (is_retryable_status t)) [
      | inl yes_ ↦
          rw (q, yes_, submit_unblocked)
            (submit_new-Careful env req signer from token (some t) w laws quiet)
      | inr no_ ↦ rw (q, no_, submit_unblocked) (inl refl)
    ]

submit_leased-Careful :
    (env : Env) (req : SubmitRequest) (signer : Signer) (from : Address) (token : ℕ) (w : World)
    → CodecLaws env.codec
    → (env.others w).sent ≡ w.sent
    → Careful env.codec w.sent (submit_leased env req signer from token w)
unfolding submit_leased
submit_leased-Careful env req signer from token w laws quiet =
    elim (Option-cases (needs_intervention_tx from w.txs)) [
      | inl q ↦
          rw (q, submit_leased) (submit_unblocked-Careful env req signer from token w laws quiet)
      | inr (b, q) ↦ rw (q, submit_leased) (inl refl)
    ]

release_lease-kept :
    (env : Env) (from : Address) (token : ℕ) (w : World)
    → let w' = release_lease env from token w in (w'.sent ≡ w.sent) × (w'.txs ≡ w.txs)
unfolding release_lease
release_lease-kept env from token w = ground arith

released-Careful :
    (env : Env) (from : Address) (token : ℕ) (sent : List SignedTx)
    → (out : Result TxError Transaction × World) → Careful env.codec sent out
    → Careful env.codec sent (released env from token out)
released-Careful env from token sent (r, w) (inl e) =
    inl ((release_lease-kept env from token w).0 ∙ e)
released-Careful env from token sent (r, w) (inr (s, e, (t, found, hashed, stored, status))) =
    let kept = release_lease-kept env from token w in
    inr (s, kept.0 ∙ e, (t, ap (lookup t.id) kept.1 ∙ found, hashed, stored, status))

acquire-kept :
    (env : Env) (from : Address) (w : World)
    → let v = (acquire_nonce_lease env from w).1 in (v.sent ≡ w.sent) × (v.txs ≡ w.txs)
unfolding acquire_nonce_lease
acquire-kept env from w = ground arith

pub with_lease-Careful :
    (env : Env) (from : Address) (body : ℕ → M Transaction) (w : World)
    → ((token : ℕ) (v : World) → v.txs ≡ w.txs → Careful env.codec v.sent (body token v))
    → Careful env.codec w.sent (with_lease env from body w)
unfolding with_lease
with_lease-Careful env from body w careful =
    let leased = acquire_nonce_lease env from w in
    let kept = acquire-kept env from w in
    and_then-Careful env.codec w.sent leased _ kept.0 λ token _.
      released-Careful env from token w.sent (body token leased.1) (
        subst (λ sent. Careful env.codec sent (body token leased.1)) kept.0
          (careful token leased.1 kept.1))

-- `Submit` sends at most one transaction, and what it sent is on record with its hash and with bytes
-- that decode to it: pending where it returns the record, failed where the node rejected it, and
-- still unknown where the outcome is. The codec keeps its laws; other replicas may change the stores
-- while it signs, but not the list of what this one sent.
pub submit-Careful :
    (env : Env) (req : SubmitRequest) (w : World)
    → CodecLaws env.codec
    → ((v : World) → (env.others v).sent ≡ v.sent)
    → Careful env.codec w.sent (submit env req w)
unfolding submit
submit-Careful env req w laws quiet = signed req.signer
  where
    sent_from :
        (signer : Signer) (from : Option Address)
        → Careful env.codec w.sent (submit_from env req signer from w)
    sent_from signer none = inl refl
    sent_from signer (some from) =
        with_lease-Careful env from (submit_leased env req signer from) w
          (λ token v _. submit_leased-Careful env req signer from token v laws (quiet v))

    signed : (signer : Option Signer) → Careful env.codec w.sent (submit_signed env req signer w)
    signed none = inl refl
    signed (some signer) = sent_from signer signer.address
