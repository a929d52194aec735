-- ===== src/Models/Redemption.antt =====
-- server/internal/dal/models/redemption.go. An `int64` is its bit pattern; a hash is absent where the
-- source has the empty text.
use rwa_platform_evm.Common.{ℕ, String, Option}
use rwa_platform_evm.Models.Transaction.{Hash}

pub data RedemptionStatus : Type 0 where
  pending funded completed rejected cancelled : RedemptionStatus

pub record RedemptionRequest : Type 0 where
  pub id : String
  pub beneficiary : String
  pub rwa_amount : String
  pub quote_amount : String
  pub status : RedemptionStatus
  pub created_at : ℕ
  pub timeout_at : ℕ
  pub reason_code : String
  pub request_tx_hash : Option Hash
  pub fund_tx_hash : Option Hash
  pub funded_at_block : ℕ
  pub funded_at : ℕ
  pub claim_tx_hash : Option Hash
  pub updated_at : ℕ
  pub generation : ℕ
