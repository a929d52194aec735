-- ===== src/Models/ChainEvent.antt =====
-- server/internal/dal/models/chain_event.go and indexer_checkpoint.go. A value of an event's `Data` is
-- one of the dynamic types that the readers tell apart; an `int64` is kept as its bit pattern, and a
-- `float64` as the bit pattern of the integer that Go converts it to, with whether it is in 0..255.
use rwa_platform_evm.Common.{
  ℕ, String, Bool, List, Option, some, Eq, ◌==◌, nat_eq, ◌&&◌, ◌≡◌, ◌↔◌, true, arith, not, ltb,
  if◌then◌else◌, string_eq,
}
use rwa_platform_evm.Common.Dict.{lookup}
use rwa_platform_evm.Models.Transaction.{Address, Hash}

pub data Value : Type 0 where
  text : String → Value
  uint8 int64 uint64 int32 int : ℕ → Value
  float64 : ℕ → Bool → Value
  other : Value

pub record ChainEvent : Type 0 where
  pub chain_id : ℕ
  pub address : Address
  pub tx_hash : Hash
  pub log_index : ℕ
  pub block_number : ℕ
  pub block_hash : Hash
  pub name : String
  pub fields : List (String × Value)
  pub is_removed : Bool
  pub indexed_at : ℕ

pub record EventKey : Type 0 where
  pub chain_id : ℕ
  pub address : Address
  pub tx_hash : Hash
  pub log_index : ℕ

abbrev pub key_beq : EventKey → EventKey → Bool
key_beq a b =
    a.chain_id == b.chain_id
    && (a.address == b.address && (a.tx_hash == b.tx_hash && a.log_index == b.log_index))

pub key_beq_iff : (a b : EventKey) → (key_beq a b ≡ true) ↔ (a ≡ b)
key_beq_iff a b = ground arith

instance abbrev pub key_eq : Eq EventKey
key_eq = record { beq = key_beq; beq_iff = key_beq_iff }

abbrev pub event_key : ChainEvent → EventKey
event_key e = record {
  chain_id = e.chain_id;
  address = e.address;
  tx_hash = e.tx_hash;
  log_index = e.log_index;
}

-- `none` for the empty hash of a checkpoint at genesis.
pub record IndexerCheckpoint : Type 0 where
  pub last_block : ℕ
  pub last_block_hash : Option Hash
  pub updated_at : ℕ
  pub reconciliation_required : Bool
  pub version : ℕ

-- The order of (block, log index).
abbrev pub earlier : ChainEvent → ChainEvent → Bool
earlier a b =
    if not (a.block_number == b.block_number)
    then ltb a.block_number b.block_number
    else ltb a.log_index b.log_index

-- What a stable sort by `earlier` may leave in this order.
abbrev pub in_order : ChainEvent → ChainEvent → Bool
in_order a b = not (earlier b a)

-- The text of a field, and the empty text where it is absent or no text.
abbrev pub text_of : Option Value → String
text_of (some (text s)) = s
text_of _ = ""

abbrev pub text_field : String → ChainEvent → String
text_field key e = text_of (lookup key e.fields)
