-- ===== src/TxManager/State.antt =====
-- server/internal/blockchain/txmanager.go: what the manager works on. The client, the signer and the
-- encoding of transactions are go-ethereum's, and so parameters.
use rwa_platform_evm.Common.{ℕ, String, Bool, List, Option, some, nat_eq, string_eq, ◌≡◌, ◌≢◌, []}
use rwa_platform_evm.Models.Transaction.{Address, Hash}
use rwa_platform_evm.Store.Transactions.{RepoError}
use rwa_platform_evm.TxManager.Fees.{FeeView, FeeError, UnsignedTx, Call}
use Prim.Native.String.{◌++◌ as ◌+++◌}

pub record SignedTx : Type 0 where
  pub body : UnsignedTx
  pub signature : ℕ

pub data SendError : Type 0 where
  ambiguous_broadcast deadline_exceeded canceled eof unexpected_eof net_error other : SendError

-- A lookup that can fail, or find nothing (`ethereum.NotFound`).
pub data Answer (A : Type 0) : Type 0 where
  found : A → Answer A
  missing : Answer A
  failed : Answer A

pub record Receipt : Type 0 where
  pub block_number : ℕ
  pub block_hash : Hash
  pub has_failed : Bool

-- The node as one operation sees it.
pub record Client : Type 0 where
  pub pending_nonce_at : Address → Option ℕ
  pub nonce_at : Address → Option ℕ
  pub fees : Address → Call → FeeView
  pub block_number : Option ℕ
  pub header_by_number : ℕ → Answer Hash
  pub transaction_receipt : Hash → Answer Receipt
  pub send_transaction : SignedTx → Option SendError

pub record Codec : Type 0 where
  pub marshal_binary : SignedTx → Option (List ℕ)
  pub unmarshal_binary : List ℕ → Option SignedTx
  pub bytes_to_hex : List ℕ → String
  pub from_hex : String → List ℕ
  pub hash : SignedTx → Hash
  pub decimal : ℕ → String
  pub address_hex : Address → String

-- What go-ethereum documents of them: reading back what was written.
pub record CodecLaws (c : Codec) : Type 0 where
  pub from_hex_lem :
      (tx : SignedTx) (b : List ℕ)
      → c.marshal_binary tx ≡ some b
      → c.from_hex ("0x" +++ c.bytes_to_hex b) ≡ b
  pub unmarshal-marshal :
      (tx : SignedTx) (b : List ℕ) → c.marshal_binary tx ≡ some b → c.unmarshal_binary b ≡ some tx
  pub marshal-ne-nil : (tx : SignedTx) → c.marshal_binary tx ≢ some []

pub record Signer : Type 0 where
  pub address : Option Address
  pub sign_tx : UnsignedTx → ℕ → Option SignedTx

pub data TxError : Type 0 where
  no_signer signer_failed lease_failed lease_unavailable rpc_failed sign_failed encode_failed :
      TxError
  no_bytes undecodable attempts_exhausted concurrently_modified outcome_unknown rejected : TxError
  bad_bump bad_status wrong_signer : TxError
  blocked : String → TxError
  fees : FeeError → TxError
  store : RepoError → TxError
