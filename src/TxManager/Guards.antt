-- ===== src/TxManager/Guards.antt =====
-- server/internal/blockchain/txmanager.go: what `Submit` and `Replace` check before they sign: the
-- lease, the transactions that block a signer, the nonce.
pub mod Nonces
use rwa_platform_evm.Common.{
  ℕ, ◌+◌, ◌%◌, String, Bool, true, false, not, ◌&&◌, ◌||◌, List, [], ◌∷◌, ◌++◌, Option, none, some,
  if◌then◌else◌, ◌==◌, nat_eq, string_eq, ltb,
}
use rwa_platform_evm.Common.Result.{Result, ok, err}
use rwa_platform_evm.Models.Transaction.{
  Address, Transaction, TxAttempt, TxStatus, pending, replaced, reorged, failed, broadcast_unknown,
  nonce_consumed_externally, needs_intervention,
}
use rwa_platform_evm.Store.Transactions
use rwa_platform_evm.Store.Transactions.{
  RepoError, not_found, already_exists, TransactionStore, has_status,
}
use rwa_platform_evm.Store.NonceLeases
use rwa_platform_evm.TxManager.Fees.{UnsignedTx, Call, FeeError, build_tx, uint64_mod}
use rwa_platform_evm.TxManager.State.{
  SignedTx, SendError, Client, Codec, Signer, TxError, no_signer, signer_failed, lease_unavailable,
  rpc_failed, sign_failed, encode_failed, no_bytes, undecodable, outcome_unknown, rejected, blocked,
  fees, store,
}
use rwa_platform_evm.TxManager.Monad.{
  Manager, World, Env, M, ◌>>=◌, ◌>>◌, return, throw, require, lift, create_tx, update_tx,
  try_update_tx, send, and_then,
}
use Prim.Native.String.{◌++◌ as ◌+++◌}

unfoldable pub is_ambiguous_broadcast : SendError → Bool
is_ambiguous_broadcast SendError.other = false
is_ambiguous_broadcast _ = true

unfoldable pub encode_signed_tx : Codec → SignedTx → Result TxError String
encode_signed_tx c tx = elim (c.marshal_binary tx) [
  | some b ↦ ok ("0x" +++ c.bytes_to_hex b)
  | none ↦ err encode_failed
]

unfoldable pub decode_bytes : Codec → List ℕ → Result TxError SignedTx
decode_bytes c [] = err no_bytes
decode_bytes c (b ∷ bs) = elim (c.unmarshal_binary (b ∷ bs)) [
  | some tx ↦ ok tx
  | none ↦ err undecodable
]

unfoldable pub decode_signed_tx : Codec → String → Result TxError SignedTx
unfolding decode_bytes
decode_signed_tx c raw = decode_bytes c (c.from_hex raw)

unfoldable pub lease_key : Codec → ℕ → Address → String
lease_key c chain_id from = c.decimal chain_id +++ ":" +++ c.address_hex from

-- The token: 0 in in-process mode.
unfoldable pub acquire_nonce_lease : Env → Address → M ℕ
unfolding lease_key
acquire_nonce_lease env from w = elim env.manager.lease [
  | none ↦ (ok 0, w)
  | some l ↦
      let key = lease_key env.codec env.manager.policy.chain_id from in
      let (granted, leases) = NonceLeases.acquire key l.holder_id l.ttl env.now w.leases in
      require lease_unavailable granted (record w { leases = leases })
]

unfoldable pub renew_nonce_lease : Env → Address → ℕ → M (Unit {0})
unfolding lease_key
renew_nonce_lease env from token w = elim env.manager.lease [
  | none ↦ (ok tt, w)
  | some l ↦
      let key = lease_key env.codec env.manager.policy.chain_id from in
      let (held, leases) = NonceLeases.renew key l.holder_id token l.ttl env.now w.leases in
      (if held then ok tt else err lease_unavailable, record w { leases = leases })
]

-- The deferred release, whose error the source drops.
unfoldable pub release_lease : Env → Address → ℕ → World → World
unfolding lease_key
release_lease env from token w = elim env.manager.lease [
  | none ↦ w
  | some l ↦
      let key = lease_key env.codec env.manager.policy.chain_id from in
      record w { leases = (NonceLeases.release key l.holder_id token env.now w.leases).1 }
]

-- A body under the lease: released on every way out, unless it was not acquired.
abbrev pub released {ℓ} :
    {A : Type ℓ} → Env → Address → ℕ → Result TxError A × World → Result TxError A × World
released env from token (r, w) = (r, release_lease env from token w)

unfoldable pub with_lease {ℓ} : {A : Type ℓ} → Env → Address → (ℕ → M A) → M A
with_lease env from body =
    acquire_nonce_lease env from >>= λ token w. released env from token (body token w)

abbrev pub is_sender : Address → Transaction → Bool
is_sender from tx = tx.sender == from

first_where : (Transaction → Bool) → List Transaction → Option Transaction
first_where p [] = none
first_where p (tx ∷ txs) = if p tx then some tx else first_where p txs

abbrev pub is_stuck : Address → Transaction → Bool
is_stuck from tx = has_status needs_intervention tx && is_sender from tx

abbrev pub is_unresolved : Address → Transaction → Bool
is_unresolved from tx =
    (has_status reorged tx || has_status nonce_consumed_externally tx)
    && (is_sender from tx && not tx.allow_reorg_retry)

unfoldable pub needs_intervention_tx : Address → TransactionStore → Option Transaction
unfolding first_where
needs_intervention_tx from m =
    let stuck =
      Transactions.list_by_statuses (needs_intervention ∷ reorged ∷ nonce_consumed_externally ∷ [])
        m in
    elim (first_where (is_stuck from) stuck) [
      | some tx ↦ some tx
      | none ↦ first_where (is_unresolved from) stuck
    ]

unfoldable pub is_retryable_status : Transaction → Bool
is_retryable_status tx = elim tx.status [
  | failed ↦ true
  | reorged ↦ tx.allow_reorg_retry
  | nonce_consumed_externally ↦ tx.allow_reorg_retry
  | _ ↦ false
]

-- A record in one of these states no longer holds its nonce.
unfoldable pub holds_nonce : TxStatus → Bool
holds_nonce failed = false
holds_nonce reorged = false
holds_nonce nonce_consumed_externally = false
holds_nonce replaced = false
holds_nonce _ = true

raised : Address → ℕ → Transaction → ℕ
unfolding holds_nonce
raised from next tx =
    let candidate = (tx.nonce + 1) % uint64_mod in
    if is_sender from tx && holds_nonce tx.status && ltb next candidate then candidate else next

raise_nonce : Address → ℕ → List Transaction → ℕ
unfolding raised
raise_nonce from next [] = next
raise_nonce from next (tx ∷ txs) = raise_nonce from (raised from next tx) txs

abbrev larger : ℕ → ℕ → ℕ
larger a b = if ltb a b then b else a

unfoldable pub allocate_nonce : Client → Address → TransactionStore → Result TxError ℕ
unfolding raise_nonce
allocate_nonce client from m = elim (client.pending_nonce_at from) [
  | none ↦ err rpc_failed
  | some pending_nonce ↦ elim (client.nonce_at from) [
    | none ↦ err rpc_failed
    | some latest ↦ ok (raise_nonce from (larger pending_nonce latest) (Transactions.list m))
  ]
]
