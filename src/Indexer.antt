-- ===== src/Indexer.antt =====
-- server/internal/indexer/indexer.go, as cmd/platform/main.go sets it up: with the block-hash history
-- and the chunk committer, so that the separate writes of the fallback are not made.
pub mod DeadLetters
pub mod Retry
pub mod State
pub mod Ancestor
pub mod Scan
pub mod Poll
