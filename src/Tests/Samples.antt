-- ===== src/Tests/Samples.antt =====
-- A small manager over a codec that knows one transaction, and its records.
use native.Mathlib.Decide.{ℕ_discrete}
use rwa_platform_evm.Common.Int.{pos}
use rwa_platform_evm.Common.{ℕ, List, [], ◌∷◌, Option, none, some, ◌≡◌, ◌≢◌, false, string_eq}
use rwa_platform_evm.Common.Result.{ok}
use rwa_platform_evm.Models.Transaction.{Transaction, TxStatus}
use rwa_platform_evm.TxManager.Fees.{UnsignedTx, legacy_tx, FeePolicy, FeeView, legacy}
use rwa_platform_evm.TxManager.State.{SignedTx, Client, Codec, CodecLaws, Signer, found}
use rwa_platform_evm.TxManager.Monad.{World, Env}
use rwa_platform_evm.TxManager.Prepare.{SubmitRequest}

unfoldable pub SignedTx-discrete : Discrete SignedTx
SignedTx-discrete = hlevel (ℕ_discrete)

abbrev pub sample_tx : UnsignedTx
sample_tx = legacy_tx 5 (pos 30) 21000 77 1 []

abbrev pub sample_signed : SignedTx
sample_signed = record { body = sample_tx; signature = 9 }

abbrev pub marshal_sample : {tx : SignedTx} → Dec (tx ≡ sample_signed) → Option (List ℕ)
marshal_sample (yes e) = some (1 ∷ [])
marshal_sample (no n) = none

abbrev pub sample_codec : Codec
sample_codec = record {
  marshal_binary = λ tx. marshal_sample (SignedTx-discrete tx sample_signed);
  unmarshal_binary = λ _. some sample_signed;
  bytes_to_hex = λ _. "01";
  from_hex = λ _. 1 ∷ [];
  hash = λ _. 12;
  decimal = λ _. "1";
  address_hex = λ _. "0xa";
}

pub sample_codec-CodecLaws : CodecLaws sample_codec
sample_codec-CodecLaws = record {
  from_hex_lem = λ tx b. bytes tx (SignedTx-discrete tx sample_signed) b;
  unmarshal-marshal = λ tx b. back tx (SignedTx-discrete tx sample_signed) b;
  marshal-ne-nil = λ tx. full tx (SignedTx-discrete tx sample_signed);
}
  where
    bytes :
        (tx : SignedTx) (d : Dec (tx ≡ sample_signed)) (b : List ℕ)
        → marshal_sample d ≡ some b
        → 1 ∷ [] ≡ b
    bytes tx (yes e) b h = cc
    bytes tx (no n) b h = cc

    back :
        (tx : SignedTx) (d : Dec (tx ≡ sample_signed)) (b : List ℕ)
        → marshal_sample d ≡ some b
        → some sample_signed ≡ some tx
    back tx (yes e) b h = cc
    back tx (no n) b h = cc

    full : (tx : SignedTx) (d : Dec (tx ≡ sample_signed)) → marshal_sample d ≢ some []
    full tx (yes e) h = cc
    full tx (no n) h = cc

abbrev sample_fees : FeeView
sample_fees = record {
  estimate_gas = ok 21000;
  header_base_fee = ok (some 10);
  suggest_gas_tip_cap = ok 2;
  suggest_gas_price = ok 30;
}

abbrev pub sample_policy : FeePolicy
sample_policy = record {
  fee_mode = legacy;
  fee_caps = record { max_fee_per_gas = some 100; max_tip_per_gas = none; max_total_cost = none };
  gas_limit_buffer_percent = 0;
  chain_id = 1;
}

abbrev sample_client : Client
sample_client = record {
  pending_nonce_at = λ _. some 5;
  nonce_at = λ _. some 4;
  fees = λ _ _. sample_fees;
  block_number = some 100;
  header_by_number = λ _. found 50;
  transaction_receipt =
      λ _. found (record { block_number = 90; block_hash = 50; has_failed = false });
  send_transaction = λ _. none;
}

abbrev pub sample_env : Env
sample_env = record {
  manager = record { policy = sample_policy; max_replacement_attempts = 3; lease = none };
  client = sample_client;
  codec = sample_codec;
  now = 1000;
  fresh_id = "b";
  others = λ w. w;
}

abbrev pub sample_signer : Signer
sample_signer = record { address = some 7; sign_tx = λ _ _. some sample_signed }

abbrev pub sample_request : SubmitRequest
sample_request = record {
  idempotency_key = "k";
  kind = "mint";
  signer = some sample_signer;
  to = 77;
  input = [];
  value = 1;
  allow_reorg_retry = false;
}

abbrev pub record_with : TxStatus → Transaction
record_with s = record {
  id = "a";
  idempotency_key = "k";
  kind = "mint";
  chain_id = 1;
  sender = 7;
  to = 77;
  input = [];
  value = 1;
  nonce = 4;
  tx_hash = 12;
  signed_raw_tx = "0x01";
  status = s;
  block_number = 0;
  block_hash = 0;
  replaced_by = "";
  replaces = "";
  replacement_count = 0;
  fencing_token = 0;
  allow_reorg_retry = false;
  version = 0;
  attempts = [];
  submitted_at = 900;
  updated_at = 900;
}

abbrev pub empty_world : World
empty_world = record { txs = []; leases = []; sent = [] }

abbrev pub world_with : TxStatus → World
world_with s = record { txs = ("a", record_with s) ∷ []; leases = []; sent = [] }
