-- ===== src/Tests.antt =====
-- Concrete inputs.
mod Samples
mod Managers
mod Indexers
mod Projections
mod Histories
mod Incomes
mod Fills
mod Investors
