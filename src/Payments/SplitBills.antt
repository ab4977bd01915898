-- ===== src/Payments/SplitBills.antt =====
-- apps/payments-service/src/split-bills: money texts, the shares of a bill, its creation, its views and
-- the reminders of shares that are overdue.
pub mod Money
pub mod Shares
pub mod Bills
pub mod Written
pub mod Views
pub mod Reminders
pub mod Reminded
pub mod Payment
