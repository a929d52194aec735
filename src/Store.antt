-- ===== src/Store.antt =====
-- server/internal/dal/memory: the repositories as pure stores. A method that changes its map returns
-- the new one, and the mutex that each method holds makes it one step.
pub mod Transactions
pub mod NonceLeases
pub mod Chain
pub mod DeadLetters
