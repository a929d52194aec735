-- ===== src/Models/DeadLetter.antt =====
-- server/internal/dal/models/dlq.go. An ID is the chain, the transaction and the log index that its text
-- is made of, and the source data is the log that its bytes encode. The error's message is left out.
use rwa_platform_evm.Common.{ℕ, Bool, true, List, Option, Eq, ◌==◌, nat_eq, ◌&&◌, ◌≡◌, ◌↔◌, arith}
use rwa_platform_evm.Models.Transaction.{Address, Hash}

-- go-ethereum's `types.Log`.
pub record Log : Type 0 where
  pub address : Address
  pub topics : List Hash
  pub input : List ℕ
  pub block_number : ℕ
  pub tx_hash : Hash
  pub index : ℕ
  pub block_hash : Hash
  pub is_removed : Bool

pub data ErrorCategory : Type 0 where
  decode_failure orphaned : ErrorCategory

pub record DeadLetterId : Type 0 where
  pub chain_id : ℕ
  pub tx_hash : Hash
  pub log_index : ℕ

pub record DeadLetterEntry : Type 0 where
  pub id : DeadLetterId
  pub block_number : ℕ
  pub block_hash : Hash
  pub event_signature : Option Hash
  pub error_category : ErrorCategory
  pub retry_count : ℕ
  pub first_failed_at : ℕ
  pub last_failed_at : ℕ
  pub source_data : Option Log
  pub is_resolved : Bool

abbrev pub id_beq : DeadLetterId → DeadLetterId → Bool
id_beq a b = a.chain_id == b.chain_id && (a.tx_hash == b.tx_hash && a.log_index == b.log_index)

pub id_beq_iff : (a b : DeadLetterId) → (id_beq a b ≡ true) ↔ (a ≡ b)
id_beq_iff a b = ground arith

instance abbrev pub dead_letter_eq : Eq DeadLetterId
dead_letter_eq = record { beq = id_beq; beq_iff = id_beq_iff }
