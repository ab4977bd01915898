-- ===== src/Payments/SplitBills/Bills.antt =====
-- `create`, `get` and the views of split-bills.service.ts. What others do between the statements of a
-- request is `arrive`; the trimming and lower-casing of texts is a parameter.
use p2p_ledger_starter.Payments.Tables.{
  bill_created, created_payload, SplitBillShare, split_bill_aggregate, Transfer, PaymentPayload,
  SplitBill, created_v1,
}
use p2p_ledger_starter.Payments.SplitBills.Shares.{
  not_unique, bill_not_found, SplitBillFault, share_amounts, write_failed, money, CreateSplitBill,
}
use p2p_ledger_starter.Payments.SplitBills.Money.{format_money, parse_money_to_minor}
use p2p_ledger_starter.Payments.OutboxEvents.{pays_share, enqueue}
use p2p_ledger_starter.Payments.World.{
  World, Action, pure, throw, lift, gets, modify, random_uuid, ◌>>=◌, ◌>>◌, handle, transaction,
}
use p2p_ledger_starter.Payments.TransferStatus.{TransferStatus, completed, failed, index}
use p2p_ledger_starter.Payments.SplitBillStatus.{
  SplitBillStatus, SplitSharePaymentStatus, unpaid, payment_pending, payment_failed, paid,
  derive_split_bill_status,
}
use p2p_ledger_starter.Common.{
  ℕ, suc, Bool, true, false, ◌&&◌, ◌||◌, Option, none, some, List, [], ◌∷◌, any, keep, map, find,
  length, Result, ok, err, leb, ◌==◌, if◌then◌else◌, is_some,
}
use p2p_ledger_starter.Common.Dict.{Dict, lookup, insert}
use p2p_ledger_starter.Common.Decimal.{Text}

pub record BillsConfig : Type 0 where
  pub arrive : World → World
  pub normalize : Text → Text

pub record SplitShareView : Type 0 where
  pub id : ℕ
  pub participant_user_id : ℕ
  pub amount : Text
  pub payment_status : SplitSharePaymentStatus
  pub transfer_id : Option ℕ
  pub transfer_status : Option TransferStatus

pub record SplitBillView : Type 0 where
  pub id : ℕ
  pub creator_user_id : ℕ
  pub creator_reference : Text
  pub total : Text
  pub currency : Text
  pub deadline : Option ℕ
  pub status : SplitBillStatus
  pub shares : List SplitShareView
  pub created_at : ℕ
  pub updated_at : ℕ

-- `new Set(ids).size !== ids.length`
abbrev pub has_repeats : List ℕ → Bool
has_repeats [] = false
has_repeats (id ∷ ids) = any (λ j. j == id) ids || has_repeats ids

-- The primary key and the check of `split_bills`.
abbrev pub insert_bill : SplitBill → Action SplitBillFault (Unit {0})
insert_bill bill w =
    if is_some (lookup bill.id w.db.bills) || bill.total_minor == 0
    then throw write_failed w
    else modify (λ w. record w { db = record w.db { bills = insert bill.id bill w.db.bills } }) w

-- The unique constraints of `split_bill_shares`, on the participant and on the position.
abbrev pub clashes : SplitBillShare → ℕ × SplitBillShare → Bool
clashes share (id, other) =
    other.bill_id == share.bill_id
    && (other.participant_user_id == share.participant_user_id || other.position == share.position)

abbrev pub put_share : SplitBillShare → World → World
put_share share w = record w { db = record w.db { shares = insert share.id share w.db.shares } }

abbrev pub insert_share : SplitBillShare → Action SplitBillFault (Unit {0})
insert_share share w =
    if is_some (lookup share.id w.db.shares)
      || (any (clashes share) w.db.shares || share.amount_minor == 0)
    then throw write_failed w
    else modify (put_share share) w

abbrev pub created_payload_of : SplitBill → SplitBillShare → PaymentPayload
created_payload_of bill share = created_payload (record {
  owner_id = share.participant_user_id;
  split_bill_id = bill.id;
  share_id = share.id;
  creator_user_id = bill.creator_user_id;
  amount_minor = share.amount_minor;
  currency = bill.currency;
  deadline = bill.deadline;
})

abbrev pub enqueue_split_bill_created :
    SplitBill → SplitBillShare → Action SplitBillFault (Unit {0})
enqueue_split_bill_created bill share =
    handle
      (enqueue bill_created created_v1 split_bill_aggregate bill.id bill.id
        (created_payload_of bill share))
      (λ _. throw write_failed)

abbrev pub new_share : SplitBill → ℕ → ℕ → ℕ → ℕ → ℕ → SplitBillShare
new_share bill id participant amount position at = record {
  id = id;
  bill_id = bill.id;
  participant_user_id = participant;
  amount_minor = amount;
  position = position;
  created_at = at;
}

-- One turn of the loop over the participants.
unfoldable pub write_share : SplitBill → ℕ → ℕ → ℕ → Action SplitBillFault (Unit {0})
write_share bill participant amount position = do
  id ← random_uuid
  at ← gets (λ w. w.clock)
  let share = new_share bill id participant amount position at
  insert_share share
  enqueue_split_bill_created bill share

unfoldable pub write_shares : SplitBill → List ℕ → List ℕ → ℕ → Action SplitBillFault (Unit {0})
write_shares bill (participant ∷ participants) (amount ∷ amounts) position =
    write_share bill participant amount position
    >> write_shares bill participants amounts (suc position)
write_shares bill _ _ position = pure tt

unfoldable pub write_bill : SplitBill → List ℕ → List ℕ → Action SplitBillFault (Unit {0})
write_bill bill participants amounts =
    transaction (insert_bill bill >> write_shares bill participants amounts 0)

abbrev pub new_bill : BillsConfig → CreateSplitBill → ℕ → Text → ℕ → ℕ → ℕ → SplitBill
new_bill config dto creator_user_id creator_reference total id at = record {
  id = id;
  creator_user_id = creator_user_id;
  creator_reference = config.normalize creator_reference;
  total_minor = total;
  currency = dto.currency;
  deadline = dto.deadline;
  created_at = at;
  updated_at = at;
}

abbrev pub payment_status_of : Option Transfer → SplitSharePaymentStatus
payment_status_of none = unpaid
payment_status_of (some transfer) =
    if index transfer.status == index completed
    then paid
    else (if index transfer.status == index failed then payment_failed else payment_pending)

-- `shareView`
unfoldable pub share_view : SplitBillShare × Option Transfer → SplitShareView
share_view (share, transfer) = record {
  id = share.id;
  participant_user_id = share.participant_user_id;
  amount = format_money share.amount_minor;
  payment_status = payment_status_of transfer;
  transfer_id = elim transfer [ none ↦ none | some t ↦ some t.id ];
  transfer_status = elim transfer [ none ↦ none | some t ↦ some t.status ];
}

abbrev pub is_paid : SplitSharePaymentStatus → Bool
is_paid paid = true
is_paid _ = false

-- `toView`
unfoldable pub to_bill_view : SplitBill → List (SplitBillShare × Option Transfer) → SplitBillView
to_bill_view bill rows =
    let shares = map share_view rows in
    let paid_shares = length (keep (λ v. is_paid v.payment_status) shares) in
    record {
      id = bill.id;
      creator_user_id = bill.creator_user_id;
      creator_reference = bill.creator_reference;
      total = format_money bill.total_minor;
      currency = bill.currency;
      deadline = bill.deadline;
      status = derive_split_bill_status paid_shares (length shares);
      shares = shares;
      created_at = bill.created_at;
      updated_at = bill.updated_at;
    }

-- `order: { shares: { position: 'ASC' } }`
abbrev insert_by_position : SplitBillShare → List SplitBillShare → List SplitBillShare
insert_by_position share [] = share ∷ []
insert_by_position share (other ∷ shares) =
    let rest = insert_by_position share shares in
    if leb share.position other.position then share ∷ other ∷ shares else other ∷ rest

abbrev sort_by_position : List SplitBillShare → List SplitBillShare
sort_by_position [] = []
sort_by_position (share ∷ shares) = insert_by_position share (sort_by_position shares)

abbrev transfer_of : Dict Transfer → SplitBillShare → SplitBillShare × Option Transfer
transfer_of transfers share = (share, find (pays_share share.id) (map (λ e. e.1) transfers))

unfoldable pub shares_of : ℕ → World → List (SplitBillShare × Option Transfer)
shares_of bill_id w =
    map (transfer_of w.db.transfers)
      (sort_by_position (keep (λ s. s.bill_id == bill_id) (map (λ e. e.1) w.db.shares)))

unfoldable pub get_bill : BillsConfig → ℕ → ℕ → Action SplitBillFault SplitBillView
get_bill config id user_id w0 =
    let w = config.arrive w0 in
    let rows = shares_of id w in
    elim (lookup id w.db.bills) [
      | none ↦ throw bill_not_found w
      | some bill ↦
          if bill.creator_user_id == user_id || any (λ r. r.0.participant_user_id == user_id) rows
          then pure (to_bill_view bill rows) w
          else throw bill_not_found w
    ]

abbrev pub check_bill : CreateSplitBill → Result SplitBillFault (ℕ × List ℕ)
check_bill dto = elim (parse_money_to_minor dto.total) [
  | err e ↦ err (money e)
  | ok total ↦
      if has_repeats (map (λ p. p.user_id) dto.participants)
      then err not_unique
      else (elim (share_amounts dto total) [ err e ↦ err e | ok amounts ↦ ok (total, amounts) ])
]

abbrev pub create_checked :
    BillsConfig → CreateSplitBill → ℕ → Text → ℕ × List ℕ → Action SplitBillFault SplitBillView
create_checked config dto creator_user_id creator_reference (total, amounts) = do
  id ← random_uuid
  modify config.arrive
  at ← gets (λ w. w.clock)
  write_bill (new_bill config dto creator_user_id creator_reference total id at)
      (map (λ p. p.user_id) dto.participants) amounts
  get_bill config id creator_user_id

unfoldable pub create_bill :
    BillsConfig → CreateSplitBill → ℕ → Text → Action SplitBillFault SplitBillView
create_bill config dto creator_user_id creator_reference =
    lift (check_bill dto) >>= create_checked config dto creator_user_id creator_reference
