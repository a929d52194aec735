-- ===== src/Indexer/State.antt =====
-- server/internal/indexer/indexer.go: the indexer's settings, its source and its calls. The chain may
-- change between any two calls to the source, so a source is a view for each call's number.
use rwa_platform_evm.Common.{ℕ, ◌+◌, String, Bool, List, Option, none, some}
use rwa_platform_evm.Common.Result.{Result, ok, err}
use rwa_platform_evm.Models.Transaction.{Address, Hash}
use rwa_platform_evm.Models.ChainEvent.{Value}
use rwa_platform_evm.Store.Chain.{ChainStore}
use rwa_platform_evm.Store.DeadLetters.{DeadLetterStore}
pub use rwa_platform_evm.Models.DeadLetter.{Log}

-- What `isRangeTooLargeError` and `isTimeoutError` make of a provider's error.
pub data LogError : Type 0 where
  range_too_large timed_out other : LogError

pub record View : Type 0 where
  pub block_number : Option ℕ
  pub header_by_number : ℕ → Option Hash
  pub filter_logs : ℕ → ℕ → Result LogError (List Log)

pub record Config : Type 0 where
  pub source : ℕ → View
  pub decode : Log → Option (String × List (String × Value))
  pub chain_id : ℕ
  pub addresses : List Address
  pub start_block : ℕ
  pub has_block_hashes : Bool
  pub has_dead_letters : Bool
  pub rollback_window : ℕ
  pub max_history : ℕ
  pub max_auto_reorg_depth : ℕ
  pub max_log_range : ℕ
  pub max_range_retries : ℕ
  pub now : ℕ

pub data IndexError : Type 0 where
  rpc_failed reconciliation_required version_conflict not_coherent logs_failed decode_failed :
      IndexError
  no_dead_letters unknown_entry unreadable_entry : IndexError

-- `calls` counts the calls to the source so far.
pub record World : Type 0 where
  pub store : ChainStore
  pub dead_letters : DeadLetterStore
  pub calls : ℕ

abbrev pub M {ℓ} : Type ℓ → Type ℓ
M A = World → Result IndexError A × World

abbrev pub and_then {ℓ κ} :
    {A : Type ℓ} {B : Type κ}
    → Result IndexError A × World
    → (A → M B)
    → Result IndexError B × World
and_then (ok a, w) f = f a w
and_then (err e, w) f = (err e, w)

infixl 5 ◌>>=◌ ◌>>◌
abbrev pub ◌>>=◌ {ℓ κ} : {A : Type ℓ} {B : Type κ} → M A → (A → M B) → M B
◌>>=◌ m f w = and_then (m w) f

abbrev pub ◌>>◌ {κ} : {B : Type κ} → M (Unit {0}) → M B → M B
m >> k = m >>= λ _. k

-- One call to the source.
abbrev pub ask : {A : Type 0} → Config → (View → A) → M A
ask c q w = (ok (q (c.source w.calls)), record w { calls = w.calls + 1 })

abbrev pub answered : {A : Type 0} → Option A → M A
answered none w = (err rpc_failed, w)
answered (some a) w = (ok a, w)

unfoldable pub header_at : Config → ℕ → M Hash
header_at c n w = (ask c (λ v. v.header_by_number n) >>= answered) w
