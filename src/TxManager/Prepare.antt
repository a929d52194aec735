-- ===== src/TxManager/Prepare.antt =====
-- server/internal/blockchain/txmanager.go: what `Submit` signs and the record that it makes of it,
-- and what `Replace` signs.
use rwa_platform_evm.Common.{
  ℕ, String, Bool, List, [], ◌∷◌, ◌++◌, Option, none, some, if◌then◌else◌, ◌==◌, string_eq,
}
use rwa_platform_evm.Common.Result.{Result, ok, err, map_err, or_fail, ◌>>=◌}
use rwa_platform_evm.Models.Transaction.{Address, Transaction, TxAttempt, broadcast_unknown}
use rwa_platform_evm.Store.Transactions.{TransactionStore}
use rwa_platform_evm.TxManager.Fees.{UnsignedTx, Call, build_tx, build_bumped_tx}
use rwa_platform_evm.TxManager.State.{SignedTx, Codec, Signer, TxError, sign_failed, fees}
use rwa_platform_evm.TxManager.Monad.{Env}
use rwa_platform_evm.TxManager.Guards.{encode_signed_tx, decode_signed_tx, allocate_nonce}

pub record SubmitRequest : Type 0 where
  pub idempotency_key : String
  pub kind : String
  pub signer : Option Signer
  pub to : Address
  pub input : List ℕ
  pub value : ℕ
  pub allow_reorg_retry : Bool

-- What is signed and not yet stored.
pub record Prepared : Type 0 where
  pub nonce : ℕ
  pub signed : SignedTx
  pub raw : String

abbrev attempt_of : Transaction → TxAttempt
attempt_of tx = record {
  nonce = tx.nonce;
  tx_hash = tx.tx_hash;
  signed_raw_tx = tx.signed_raw_tx;
  status = tx.status;
  recorded_at = tx.updated_at;
}

id_of : Env → Option Transaction → String
id_of env none = env.fresh_id
id_of env (some existing) = existing.id

attempts_of : Option Transaction → List TxAttempt
attempts_of none = []
attempts_of (some existing) = existing.attempts ++ attempt_of existing ∷ []

-- A retry keeps the ID of its record and archives the earlier attempt.
unfoldable pub submit_record :
    Env → SubmitRequest → Address → ℕ → Option Transaction → Prepared → Transaction
unfolding id_of attempts_of
submit_record env req from token existing p = record {
  id = id_of env existing;
  idempotency_key = req.idempotency_key;
  kind = req.kind;
  chain_id = env.manager.policy.chain_id;
  sender = from;
  to = req.to;
  input = req.input;
  value = req.value;
  nonce = p.nonce;
  tx_hash = env.codec.hash p.signed;
  signed_raw_tx = p.raw;
  status = broadcast_unknown;
  block_number = 0;
  block_hash = 0;
  replaced_by = "";
  replaces = "";
  replacement_count = 0;
  fencing_token = token;
  allow_reorg_retry = req.allow_reorg_retry;
  version = 0;
  attempts = attempts_of existing;
  submitted_at = env.now;
  updated_at = env.now;
}

abbrev call_of : SubmitRequest → ℕ → Call
call_of req nonce = record { to = req.to; input = req.input; value = req.value; nonce = nonce }

-- Allocate the nonce, build, sign and encode: all that happens before anything is written.
unfoldable pub prepare :
    Env → SubmitRequest → Signer → Address → TransactionStore → Result TxError Prepared
prepare env req signer from m = do
  nonce ← allocate_nonce env.client from m
  let call = call_of req nonce
  unsigned ← map_err fees (build_tx env.manager.policy (env.client.fees from call) call)
  signed ← or_fail sign_failed (signer.sign_tx unsigned env.manager.policy.chain_id)
  raw ← encode_signed_tx env.codec signed
  ok (record { nonce = nonce; signed = signed; raw = raw })

-- The original's transaction, where its bytes decode.
unfoldable pub original_tx : Codec → Transaction → Option UnsignedTx
original_tx codec old =
    if old.signed_raw_tx == ""
    then none
    else elim (decode_signed_tx codec old.signed_raw_tx) [ ok tx ↦ some tx.body | err e ↦ none ]

abbrev pub call_again : Transaction → Call
call_again old = record { to = old.to; input = old.input; value = old.value; nonce = old.nonce }

-- The replacement, signed, with its bytes.
unfoldable pub prepare_replacement :
    Env → Signer → Address → ℕ → Transaction → Result TxError (SignedTx × String)
unfolding original_tx
prepare_replacement env signer from percent old = do
  let call = call_again old
  unsigned ← map_err fees (
      build_bumped_tx env.manager.policy (env.client.fees from call) call percent
        (original_tx env.codec old))
  signed ← or_fail sign_failed (signer.sign_tx unsigned env.manager.policy.chain_id)
  raw ← encode_signed_tx env.codec signed
  ok (signed, raw)
