-- ===== src/Models/Investor.antt =====
-- server/internal/dal/models/investor.go and compliance.go. `valid_until` is a bit pattern.
use rwa_platform_evm.Common.{ℕ, String, Bool}

pub data ComplianceStatus : Type 0 where
  unknown allowed blocked : ComplianceStatus

pub record Investor : Type 0 where
  pub address : String
  pub status : ComplianceStatus
  pub valid_until : ℕ
  pub is_ownership_verified : Bool
  pub created_at : ℕ
  pub updated_at : ℕ
