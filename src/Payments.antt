-- ===== src/Payments.antt =====
-- apps/payments-service: transfers, their states, their currency quotes, and the saga that drives a
-- transfer through the ledger.
pub mod TransferStatus
pub mod FxQuote
pub mod RateLimit
pub mod SplitBillStatus
pub mod Tables
pub mod LedgerGateway
pub mod World
pub mod OutboxEvents
pub mod TransferPolicy
pub mod Saga
pub mod SplitBills
pub mod Transfers
