-- ===== src/Payments/SplitBillStatus.antt =====
-- apps/payments-service/src/split-bills/domain/split-bill-status.ts: how far a bill is paid.
use p2p_ledger_starter.Common.{ℕ, ◌&&◌, ltb, ◌==◌, if◌then◌else◌}

pub data SplitBillStatus : Type 0 where
  pending partially_paid settled : SplitBillStatus

pub data SplitSharePaymentStatus : Type 0 where
  unpaid payment_pending payment_failed paid : SplitSharePaymentStatus

abbrev pub derive_split_bill_status : ℕ → ℕ → SplitBillStatus
derive_split_bill_status paid_shares total_shares =
    if ltb 0 total_shares && paid_shares == total_shares
    then settled
    else (if ltb 0 paid_shares then partially_paid else pending)
