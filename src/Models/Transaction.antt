-- ===== src/Models/Transaction.antt =====
-- server/internal/dal/models/transaction.go. `value` is the number whose decimal digits the source
-- stores, `input` the bytes whose hex digits it stores;
use rwa_platform_evm.Common.{ℕ, String, Bool, List}
use text.Mathlib.Text.{starts_with}

pub data TxStatus : Type 0 where
  pending mined confirmed replaced reverted reorged failed broadcast_unknown : TxStatus
  nonce_consumed_externally needs_intervention : TxStatus

unfoldable pub TxStatus-discrete : Discrete TxStatus
TxStatus-discrete = hlevel

abbrev pub Address : Type 0
Address = ℕ

abbrev pub Hash : Type 0
Hash = ℕ

pub record TxAttempt : Type 0 where
  pub nonce : ℕ
  pub tx_hash : Hash
  pub signed_raw_tx : String
  pub status : TxStatus
  pub recorded_at : ℕ

pub record Transaction : Type 0 where
  pub id : String
  pub idempotency_key : String
  pub kind : String
  pub chain_id : ℕ
  pub sender : Address
  pub to : Address
  pub input : List ℕ
  pub value : ℕ
  pub nonce : ℕ
  pub tx_hash : Hash
  pub signed_raw_tx : String
  pub status : TxStatus
  pub block_number : ℕ
  pub block_hash : Hash
  pub replaced_by : String
  pub replaces : String
  pub replacement_count : ℕ
  pub fencing_token : ℕ
  pub allow_reorg_retry : Bool
  pub version : ℕ
  pub attempts : List TxAttempt
  pub submitted_at : ℕ
  pub updated_at : ℕ

abbrev pub event_derived_tx_id_prefix : String
event_derived_tx_id_prefix = "evt:"

unfoldable pub is_event_derived : Transaction → Bool
is_event_derived t = starts_with t.id event_derived_tx_id_prefix
