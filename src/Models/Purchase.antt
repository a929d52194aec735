-- ===== src/Models/Purchase.antt =====
-- server/internal/dal/models: a fill of the vault. The ID is the transaction and the log index that its
-- text is made of.
use rwa_platform_evm.Common.{ℕ, String, Bool, Eq, ◌==◌, nat_eq, ◌&&◌, ◌≡◌, ◌↔◌, true, arith}
use rwa_platform_evm.Models.Transaction.{Hash}

pub record PurchaseId : Type 0 where
  pub tx_hash : Hash
  pub log_index : ℕ

pub record Purchase : Type 0 where
  pub id : PurchaseId
  pub buyer : String
  pub recipient : String
  pub token_amount : String
  pub quote_amount : String
  pub tx_hash : Hash
  pub block_number : ℕ
  pub created_at : ℕ
  pub generation : ℕ

abbrev pub purchase_id_beq : PurchaseId → PurchaseId → Bool
purchase_id_beq a b = a.tx_hash == b.tx_hash && a.log_index == b.log_index

pub purchase_id_beq_iff : (a b : PurchaseId) → (purchase_id_beq a b ≡ true) ↔ (a ≡ b)
purchase_id_beq_iff a b = ground arith

instance abbrev pub purchase_id_eq : Eq PurchaseId
purchase_id_eq = record { beq = purchase_id_beq; beq_iff = purchase_id_beq_iff }
