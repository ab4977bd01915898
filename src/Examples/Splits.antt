-- ===== src/Examples/Splits.antt =====
-- A bill of ten that three share.
use p2p_ledger_starter.Payments.SplitBills.Reminders.{
  sort_overdue, detect_and_enqueue, RemindersConfig, insert_overdue, overdue_ids, is_overdue,
  remind_each, remind,
}
use p2p_ledger_starter.Payments.SplitBills.Reminded.{detect_and_enqueue-once, count_reminders}
use p2p_ledger_starter.Payments.Tables.{SplitBill, Transfer, SplitBillShare}
use p2p_ledger_starter.Payments.SplitBills.Views.{is_settled, has_paid, to_bill_view-settled, all}
use p2p_ledger_starter.Payments.SplitBills.Shares.{
  equal_amounts, SplitParticipant, share_amounts-equal, share_amounts, share_amounts-total, sum,
  CreateSplitBill, equal,
}
use p2p_ledger_starter.Payments.SplitBills.Money.{
  parse_money_to_minor, format_money, money_value, parse_money_to_minor-format_money, split_dot,
}
use p2p_ledger_starter.Payments.SplitBills.Bills.{to_bill_view}
use p2p_ledger_starter.Payments.World.{World}
use p2p_ledger_starter.Common.{
  false, some, ltb, ◌&&◌, ℕ, ◌+◌, ◌/◌, ◌≤◌, ◌≡◌, refl, Option, none, [], ◌∷◌, ok, All, length,
  arith,
}
use p2p_ledger_starter.Common.Decimal.{digits_value, Text}

abbrev usd_code : Text
usd_code = b'U' ∷ b'S' ∷ b'D' ∷ []

abbrev participant : ℕ → SplitParticipant
participant id = record { user_id = id; share = none }

abbrev request : CreateSplitBill
request = record {
  total = b'1' ∷ b'0' ∷ b'.' ∷ b'0' ∷ b'0' ∷ [];
  currency = usd_code;
  mode = equal;
  participants = participant 1 ∷ participant 2 ∷ participant 3 ∷ [];
  deadline = none;
}

abbrev bill : SplitBill
bill = record {
  id = 40;
  creator_user_id = 1;
  creator_reference = b'a' ∷ [];
  total_minor = 1000;
  currency = usd_code;
  deadline = none;
  created_at = 5;
  updated_at = 5;
}

abbrev empty_world : World
empty_world = record {
  db = record { transfers = []; bills = []; shares = []; reminders = []; outbox = [] };
  log = [];
  clock = 5;
  next_id = 100;
}

request_read : parse_money_to_minor request.total ≡ ok 1000
unfolding parse_money_to_minor split_dot money_value digits_value
request_read = refl

request_split : share_amounts request 1000 ≡ ok (334 ∷ 333 ∷ 333 ∷ [])
unfolding share_amounts equal_amounts
request_split = refl

parse_money_to_minor-format_money_example : parse_money_to_minor (format_money 1234) ≡ ok 1234
parse_money_to_minor-format_money_example =
    parse_money_to_minor-format_money 1234 (omega arith) (omega arith)

share_amounts-total_example :
    (sum (334 ∷ 333 ∷ 333 ∷ []) ≡ 1000)
    × (length {A = ℕ} (334 ∷ 333 ∷ 333 ∷ []) ≡ length request.participants)
share_amounts-total_example = share_amounts-total request 1000 request_split

share_amounts-equal_example :
    (1 ≤ 1000 / length request.participants)
    × All
        (λ a.
          (1000 / length request.participants ≤ a) × (a ≤ 1000 / length request.participants + 1))
        (334 ∷ 333 ∷ 333 ∷ [])
share_amounts-equal_example = share_amounts-equal request 1000 refl request_split

abbrev share : SplitBillShare
share = record {
  id = 41;
  bill_id = 40;
  participant_user_id = 2;
  amount_minor = 333;
  position = 0;
  created_at = 5;
}

to_bill_view-settled_example : is_settled (to_bill_view bill ((share, none) ∷ [])).status ≡ (
    ltb 0 (length {A = SplitBillShare × Option Transfer} ((share, none) ∷ []))
    && all has_paid ((share, none) ∷ []))
to_bill_view-settled_example = to_bill_view-settled bill ((share, none) ∷ [])

-- The share is overdue at 10.
abbrev late_world : World
late_world = record empty_world {
  db = record {
    transfers = [];
    bills = (40, record bill { deadline = some 8 }) ∷ [];
    shares = (41, share) ∷ [];
    reminders = [];
    outbox = [];
  };
}

abbrev unlocked : RemindersConfig
unlocked = record { arrive = λ w. w; is_locked = λ id. false }

late_reminded : (detect_and_enqueue unlocked 10 100 late_world).0 ≡ ok 1
unfolding detect_and_enqueue remind_each remind overdue_ids sort_overdue insert_overdue is_overdue
late_reminded = refl

detect_and_enqueue-once_example :
    (count_reminders 41 (detect_and_enqueue unlocked 10 100 late_world).1 ≤ 1)
    × (length (detect_and_enqueue unlocked 10 100 late_world).1.db.reminders ≡ 1 + 0)
    × (length (detect_and_enqueue unlocked 10 100 late_world).1.db.outbox ≡ 1 + 0)
detect_and_enqueue-once_example =
    detect_and_enqueue-once unlocked 10 100 1 41 late_world late_reminded (omega arith)
