-- ===== src/TxManager.antt =====
-- server/internal/blockchain/txmanager.go.
pub mod Fees
pub mod State
pub mod Monad
pub mod Guards
pub mod Prepare
pub mod Submit
pub mod Refresh
pub mod Replace
