-- ===== src/Ledger.antt =====
-- apps/ledger-service: wallets as event-sourced aggregates over a double-entry ledger.
pub mod Fault
pub mod Event
pub mod Transaction
pub mod Aggregate
pub mod EventStore
pub mod Tables
pub mod Wallets
pub mod Outbox
