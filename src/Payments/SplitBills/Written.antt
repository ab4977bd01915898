-- ===== src/Payments/SplitBills/Written.antt =====
-- What the creation of a bill leaves in the tables.
use p2p_ledger_starter.Payments.Tables.{SplitBill, SplitBillShare}
use p2p_ledger_starter.Payments.World.{World}
use p2p_ledger_starter.Common.{ℕ, ◌+◌, ◌≡◌, some, [], ◌∷◌, length, ◌==◌, if◌then◌else◌}
use p2p_ledger_starter.Common.Dict.{Dict, lookup}

-- What the shares of a bill owe together.
unfoldable pub owed : ℕ → Dict SplitBillShare → ℕ
owed bill_id [] = 0
owed bill_id ((id, share) ∷ shares) =
    (if share.bill_id == bill_id then share.amount_minor else 0) + owed bill_id shares

-- The shares of the bill owe so much more, and so many messages were added.
pub record Wrote (bill_id amount messages : ℕ) (w next : World) : Type 0 where
  pub owes : owed bill_id next.db.shares ≡ amount + owed bill_id w.db.shares
  pub tells : length next.db.outbox ≡ messages + length w.db.outbox
  pub bills : next.db.bills ≡ w.db.bills

-- The bill stands in its table, its shares owe its total, and each participant is told.
abbrev pub IsWritten : SplitBill → ℕ → World → World → Type 0
IsWritten bill participants w next =
    (lookup bill.id next.db.bills ≡ some bill)
    × (owed bill.id next.db.shares ≡ bill.total_minor)
    × (length next.db.outbox ≡ participants + length w.db.outbox)
