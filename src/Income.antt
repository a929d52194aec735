-- ===== src/Income.antt =====
-- server/internal/income: the Merkle tree of a distribution, and the entitlements it pays.
pub mod Merkle
pub mod Snapshot
