-- ===== src/Models.antt =====
-- server/internal/dal/models: the records that the components share. Times are nanoseconds since the
-- epoch; an address and a hash are the numbers that their bytes spell, big end first, so that
-- `bytes.Compare` is the order of the numbers and `.Hex()`, which prints a fixed number of digits,
-- is kept as the number that it prints.
pub mod Transaction
pub mod ChainEvent
pub mod Redemption
pub mod Investor
pub mod DeadLetter
pub mod Purchase
