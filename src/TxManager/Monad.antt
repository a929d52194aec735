-- ===== src/TxManager/Monad.antt =====
-- server/internal/blockchain/txmanager.go: the state that an operation changes, and the chain of calls
-- that stops at the first error and keeps what was written before it.
use rwa_platform_evm.Common.{ℕ, String, Option, none, some, List, ◌∷◌}
use rwa_platform_evm.Common.Result.{Result, ok, err}
use rwa_platform_evm.Models.Transaction.{Transaction}
use rwa_platform_evm.Store.Transactions
use rwa_platform_evm.Store.Transactions.{TransactionStore, RepoError}
use rwa_platform_evm.Store.NonceLeases.{LeaseStore}
use rwa_platform_evm.TxManager.Fees.{FeePolicy}
use rwa_platform_evm.TxManager.State.{SignedTx, Client, Codec, TxError, SendError}

-- `lease` is `nil` in in-process mode; `max_replacement_attempts` is 0 where no limit is set.
pub record LeaseSettings : Type 0 where
  pub holder_id : String
  pub ttl : ℕ

pub record Manager : Type 0 where
  pub policy : FeePolicy
  pub max_replacement_attempts : ℕ
  pub lease : Option LeaseSettings

-- `sent` lists the transactions handed to the node, newest first, whatever it answered.
pub record World : Type 0 where
  pub txs : TransactionStore
  pub leases : LeaseStore
  pub sent : List SignedTx

-- One call of an operation: the node and the clock, the ID that `uuid.NewString` makes, and what other
-- replicas do to the shared stores between the acquisition of the lease and its renewal.
pub record Env : Type 0 where
  pub manager : Manager
  pub client : Client
  pub codec : Codec
  pub now : ℕ
  pub fresh_id : String
  pub others : World → World

abbrev pub M {ℓ} : Type ℓ → Type ℓ
M A = World → Result TxError A × World

abbrev pub and_then {ℓ κ} :
    {A : Type ℓ} {B : Type κ} → Result TxError A × World → (A → M B) → Result TxError B × World
and_then (ok a, w) f = f a w
and_then (err e, w) f = (err e, w)

infixl 5 ◌>>=◌ ◌>>◌
abbrev pub ◌>>=◌ {ℓ κ} : {A : Type ℓ} {B : Type κ} → M A → (A → M B) → M B
◌>>=◌ m f w = and_then (m w) f

abbrev pub ◌>>◌ {κ} : {B : Type κ} → M (Unit {0}) → M B → M B
m >> k = m >>= λ _. k

abbrev pub return {ℓ} : {A : Type ℓ} → A → M A
return a w = (ok a, w)

abbrev pub throw {ℓ} : {A : Type ℓ} → TxError → M A
throw e w = (err e, w)

abbrev pub lift {ℓ} : {A : Type ℓ} → Result TxError A → M A
lift r w = (r, w)

abbrev pub require {ℓ} : {A : Type ℓ} → TxError → Option A → M A
require e none w = (err e, w)
require e (some a) w = (ok a, w)

-- A write to the transactions that a repository error refuses.
abbrev pub stored : Result RepoError TransactionStore → M (Unit {0})
stored (ok m) w = (ok tt, record w { txs = m })
stored (err e) w = (err (TxError.store e), w)

-- A write whose error the source ignores.
abbrev pub stored_anyway : Result RepoError TransactionStore → World → World
stored_anyway (ok m) w = record w { txs = m }
stored_anyway (err e) w = w

unfoldable pub create_tx : Transaction → M (Unit {0})
create_tx tx w = stored (Transactions.create tx w.txs) w

unfoldable pub update_tx : Transaction → M (Unit {0})
update_tx tx w = stored (Transactions.update tx w.txs) w

unfoldable pub try_update_tx : Transaction → World → World
try_update_tx tx w = stored_anyway (Transactions.update tx w.txs) w

abbrev pub after_send : Option SendError → M (Option SendError)
after_send e w = (ok e, w)

unfoldable pub send : Client → SignedTx → M (Option SendError)
send client tx w = (ok (client.send_transaction tx), record w { sent = tx ∷ w.sent })
