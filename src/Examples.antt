-- ===== src/Examples.antt =====
-- Concrete runs of the models: what they compute, and inputs at which the theorems' hypotheses hold.
pub mod Data
pub mod Wallets
pub mod Service
pub mod Transfers
pub mod Outbox
pub mod Validation
pub mod Saga
pub mod Limits
pub mod Splits
pub mod Requests
