-- ===== src/Payments/SplitBills/Reminders.antt =====
-- split-bills/split-bill-reminder.service.ts: each share that is overdue is reminded of once. The rows
-- that other transactions lock are a parameter.
use p2p_ledger_starter.Payments.Tables.{
  PaymentPayload, overdue, SplitBillReminder, split_bill_share_aggregate, Unexpected,
  SplitBillShare, share_overdue, share_missing, share_overdue_v1, Transfer, overdue_payload,
  SplitBill,
}
use p2p_ledger_starter.Payments.OutboxEvents.{enqueue_with_id, payments_of}
use p2p_ledger_starter.Payments.World.{World, Action, pure, throw, modify, ◌>>=◌, ◌>>◌, transaction}
use p2p_ledger_starter.Payments.TransferStatus.{failed, index}
use p2p_ledger_starter.Common.{
  ℕ, zero, suc, ◌+◌, Bool, true, false, ◌&&◌, ◌||◌, not, Option, none, some, List, [], ◌∷◌, ◌++◌,
  any, keep, map, leb, ltb, ◌==◌, if◌then◌else◌,
}
use p2p_ledger_starter.Common.Dict.{lookup}

-- What others do before the transaction, and the rows that they lock.
pub record RemindersConfig : Type 0 where
  pub arrive : World → World
  pub is_locked : ℕ → Bool

abbrev deadline_of : World → SplitBillShare → Option ℕ
deadline_of w share = elim (lookup share.bill_id w.db.bills) [
  | none ↦ none
  | some bill ↦ bill.deadline
]

abbrev is_past_deadline : ℕ → Option ℕ → Bool
is_past_deadline now none = false
is_past_deadline now (some t) = leb t now

-- `t.id IS NULL OR t.status = 'Failed'`, over the rows of the join.
abbrev is_unpaid : List Transfer → Bool
is_unpaid [] = true
is_unpaid (t ∷ ts) = any (λ row. index row.status == index failed) (t ∷ ts)

abbrev pub reminds : ℕ → SplitBillReminder → Bool
reminds share_id reminder = reminder.share_id == share_id

unfoldable pub is_overdue : RemindersConfig → ℕ → World → SplitBillShare → Bool
is_overdue config now w share =
    is_past_deadline now (deadline_of w share)
    && (is_unpaid (payments_of share.id w.db.transfers)
        && (not (any (reminds share.id) w.db.reminders) && not (config.is_locked share.id)))

abbrev deadline_or_zero : Option ℕ → ℕ
deadline_or_zero none = 0
deadline_or_zero (some t) = t

-- `ORDER BY b.deadline, s.id`
abbrev is_earlier : World → SplitBillShare → SplitBillShare → Bool
is_earlier w a b =
    let s = deadline_or_zero (deadline_of w a) in
    let t = deadline_or_zero (deadline_of w b) in ltb s t || (s == t && leb a.id b.id)

unfoldable pub insert_overdue : World → SplitBillShare → List SplitBillShare → List SplitBillShare
insert_overdue w share [] = share ∷ []
insert_overdue w share (other ∷ shares) =
    let rest = insert_overdue w share shares in
    if is_earlier w share other then share ∷ other ∷ shares else other ∷ rest

unfoldable pub sort_overdue : World → List SplitBillShare → List SplitBillShare
sort_overdue w [] = []
sort_overdue w (share ∷ shares) = insert_overdue w share (sort_overdue w shares)

-- `LIMIT`
abbrev pub take_overdue : ℕ → List SplitBillShare → List SplitBillShare
take_overdue zero shares = []
take_overdue (suc n) [] = []
take_overdue (suc n) (share ∷ shares) = share ∷ take_overdue n shares

unfoldable pub overdue_ids : RemindersConfig → ℕ → ℕ → World → List ℕ
overdue_ids config now limit w =
    map (λ s. s.id)
      (take_overdue limit
        (sort_overdue w (keep (is_overdue config now w) (map (λ e. e.1) w.db.shares))))

abbrev overdue_payload_of : SplitBill → SplitBillShare → PaymentPayload
overdue_payload_of bill share = overdue_payload (record {
  owner_id = share.participant_user_id;
  split_bill_id = bill.id;
  share_id = share.id;
  amount_minor = share.amount_minor;
  currency = bill.currency;
  deadline = bill.deadline;
})

abbrev pub enqueue_overdue_reminder : ℕ → SplitBill → SplitBillShare → Action Unexpected (Unit {0})
enqueue_overdue_reminder event_id bill share =
    enqueue_with_id share_overdue share_overdue_v1 split_bill_share_aggregate share.id bill.id
      (overdue_payload_of bill share) event_id

abbrev pub put_reminder : SplitBillReminder → World → World
put_reminder reminder w = record w {
  db = record w.db { reminders = w.db.reminders ++ (reminder ∷ []) };
}

abbrev pub draw_two : World → World
draw_two w = record w { next_id = suc (suc w.next_id) }

-- `ON CONFLICT (share_id, kind) DO NOTHING`, and the event of a row that was inserted: how many were.
unfoldable pub remind : SplitBill → SplitBillShare → Action Unexpected ℕ
remind bill share w =
    let drawn = draw_two w in
    let row : SplitBillReminder = record {
      id = w.next_id;
      share_id = share.id;
      kind = overdue;
      event_id = suc w.next_id;
      created_at = w.clock;
    } in
    if any (reminds share.id) w.db.reminders
    then pure 0 drawn
    else (enqueue_overdue_reminder (suc w.next_id) bill share >> pure 1) (put_reminder row drawn)

-- The share with its bill, which the foreign key of the share guards.
abbrev pub remind_share : Option SplitBillShare → Action Unexpected ℕ
remind_share none w = pure 0 w
remind_share (some share) w = elim (lookup share.bill_id w.db.bills) [
  | none ↦ throw share_missing w
  | some bill ↦ remind bill share w
]

unfoldable pub remind_each : List ℕ → Action Unexpected ℕ
remind_each [] = pure 0
remind_each (id ∷ ids) = (λ w. remind_share (lookup id w.db.shares) w) >>= λ first.
    remind_each ids >>= λ rest. pure (first + rest)

unfoldable pub detect_and_enqueue : RemindersConfig → ℕ → ℕ → Action Unexpected ℕ
detect_and_enqueue config now limit =
    modify config.arrive >> transaction (λ w. remind_each (overdue_ids config now limit w) w)
