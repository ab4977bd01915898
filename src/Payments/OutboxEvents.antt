-- ===== src/Payments/OutboxEvents.antt =====
-- apps/payments-service/src/messaging/outbox.service.ts, the part that the other services call: one row
-- of the outbox for each event, written in the transaction of what it announces.
use p2p_ledger_starter.Payments.Tables.{
  PaymentPayload, PaymentEventType, completed_payload, SplitBillShare, share_paid_v1, share_payload,
  duplicate_event, transfer_completed_v1, share_paid, Unexpected, transfer_aggregate,
  transfer_completed, TransferPayload, receiver_wallet_missing, status_changed_v1, AggregateType,
  split_bill_aggregate, RoutingKey, status_changed, SharePayload, SplitBill,
  PaymentIntegrationEvent, split_bill_share_aggregate, share_missing, PaymentOutboxMessage,
  Transfer,
}
use p2p_ledger_starter.Common.{
  false, ℕ, ◌+◌, Bool, any, length, keep, List, [], ◌∷◌, ◌++◌, Option, none, some, ◌==◌,
  if◌then◌else◌, map,
}
use p2p_ledger_starter.Common.Dict.{Dict, lookup}
use p2p_ledger_starter.Payments.World.{
  World, Action, pure, throw, gets, modify, random_uuid, ◌>>=◌, ◌>>◌,
}
use p2p_ledger_starter.Payments.TransferStatus.{completed, index}
use p2p_ledger_starter.Payments.SplitBillStatus.{derive_split_bill_status}

abbrev pub new_message : ℕ → RoutingKey → PaymentIntegrationEvent → ℕ → PaymentOutboxMessage
new_message event_id routing_key event created_at = record {
  event_id = event_id;
  routing_key = routing_key;
  event = event;
  attempts = 0;
  available_at = event.occurred_at;
  locked_until = none;
  lock_id = none;
  published_at = none;
  last_error = none;
  created_at = created_at;
}

-- `getRepository(PaymentOutboxMessage).insert(…)`, under the table's primary key.
abbrev pub insert_event : PaymentOutboxMessage → Action Unexpected (Unit {0})
insert_event message w =
    if any (λ m. m.event_id == message.event_id) w.db.outbox
    then throw duplicate_event w
    else modify (λ w. record w { db = record w.db { outbox = w.db.outbox ++ (message ∷ []) } }) w

abbrev transfer_payload : Transfer → ℕ → TransferPayload
transfer_payload transfer receiver_wallet_id = record {
  sender_user_id = transfer.sender_user_id;
  sender_wallet_id = transfer.sender_wallet_id;
  receiver_wallet_id = receiver_wallet_id;
  amount_minor = transfer.amount_minor;
  currency = transfer.currency;
  destination_amount_minor = transfer.destination_amount_minor;
  destination_currency = transfer.destination_currency;
  fx_rate = transfer.fx_display_rate;
}

abbrev pub completed_event : Transfer → ℕ → ℕ → ℕ → PaymentIntegrationEvent
completed_event transfer receiver_wallet_id event_id occurred_at = record {
  event_id = event_id;
  event_type = transfer_completed;
  occurred_at = occurred_at;
  correlation_id = transfer.id;
  aggregate_type = transfer_aggregate;
  aggregate_id = transfer.id;
  aggregate_version = transfer.version;
  payload = completed_payload (transfer_payload transfer receiver_wallet_id);
}

abbrev pub enqueue_completed_for : Transfer → Option ℕ → Action Unexpected (Unit {0})
enqueue_completed_for transfer none = throw receiver_wallet_missing
enqueue_completed_for transfer (some receiver_wallet_id) = do
  occurred_at ← gets (λ w. w.clock)
  event_id ← random_uuid
  insert_event (
      new_message event_id transfer_completed_v1
        (completed_event transfer receiver_wallet_id event_id occurred_at) occurred_at)

unfoldable pub enqueue_transfer_completed : Transfer → Action Unexpected (Unit {0})
enqueue_transfer_completed transfer = enqueue_completed_for transfer transfer.receiver_wallet_id

-- `enqueue`, with the id of its event given.
abbrev pub enqueue_with_id :
    PaymentEventType
    → RoutingKey
    → AggregateType
    → ℕ
    → ℕ
    → PaymentPayload
    → ℕ
    → Action Unexpected (Unit {0})
enqueue_with_id event_type routing_key aggregate_type aggregate_id correlation_id payload event_id =
    do
      occurred_at ← gets (λ w. w.clock)
      insert_event (
          new_message event_id routing_key
            (record {
              event_id = event_id;
              event_type = event_type;
              occurred_at = occurred_at;
              correlation_id = correlation_id;
              aggregate_type = aggregate_type;
              aggregate_id = aggregate_id;
              aggregate_version = 1;
              payload = payload;
            })
            occurred_at)

abbrev pub enqueue :
    PaymentEventType
    → RoutingKey
    → AggregateType
    → ℕ
    → ℕ
    → PaymentPayload
    → Action Unexpected (Unit {0})
enqueue event_type routing_key aggregate_type aggregate_id correlation_id payload =
    random_uuid
    >>= enqueue_with_id event_type routing_key aggregate_type aggregate_id correlation_id payload

abbrev pub pays_share : ℕ → Transfer → Bool
pays_share share_id transfer = elim transfer.split_bill_share_id [
  | none ↦ false
  | some id ↦ id == share_id
]

-- The transfers that the `LEFT JOIN` finds for a share.
abbrev pub payments_of : ℕ → Dict Transfer → List Transfer
payments_of share_id transfers = keep (pays_share share_id) (map (λ e. e.1) transfers)

abbrev pub is_completed : Transfer → Bool
is_completed transfer = index transfer.status == index completed

-- The rows of the join, of which a share without a transfer makes one, and those that are completed.
unfoldable pub count_paid : ℕ → Dict SplitBillShare → Dict Transfer → ℕ × ℕ
count_paid bill_id [] transfers = (0, 0)
count_paid bill_id ((id, share) ∷ shares) transfers =
    let rest = count_paid bill_id shares transfers in
    let rows = payments_of share.id transfers in
    if share.bill_id == bill_id
    then (
      rest.0 + (if length rows == 0 then 1 else length rows),
      rest.1 + length (keep is_completed rows),
    )
    else rest

unfoldable pub payload_of : Transfer → SplitBillShare → SplitBill → World → ℕ → SharePayload
payload_of transfer share bill w owner_id =
    let counts = count_paid share.bill_id w.db.shares w.db.transfers in
    record {
      split_bill_id = share.bill_id;
      share_id = share.id;
      transfer_id = transfer.id;
      participant_user_id = share.participant_user_id;
      amount_minor = share.amount_minor;
      currency = bill.currency;
      bill_status = derive_split_bill_status counts.1 counts.0;
      owner_id = owner_id;
    }

-- The creator of the bill is told too, unless the share is the creator's own.
abbrev pub enqueue_status_changed :
    Transfer → SplitBillShare → SplitBill → SharePayload → Action Unexpected (Unit {0})
enqueue_status_changed transfer share bill payload =
    if bill.creator_user_id == share.participant_user_id
    then pure tt
    else enqueue status_changed status_changed_v1 split_bill_aggregate share.bill_id transfer.id
        (share_payload payload)

abbrev pub enqueue_share_events :
    Transfer → SplitBillShare → SplitBill → (ℕ → SharePayload) → Action Unexpected (Unit {0})
enqueue_share_events transfer share bill payload =
    enqueue share_paid share_paid_v1 split_bill_share_aggregate share.id transfer.id
      (share_payload (payload share.participant_user_id))
    >> enqueue_status_changed transfer share bill (payload bill.creator_user_id)

-- The share with its bill, which the foreign key of the share guards.
abbrev pub enqueue_share_paid : Transfer → Option SplitBillShare → Action Unexpected (Unit {0})
enqueue_share_paid transfer none w = throw share_missing w
enqueue_share_paid transfer (some share) w = elim (lookup share.bill_id w.db.bills) [
  | none ↦ throw share_missing w
  | some bill ↦ enqueue_share_events transfer share bill (payload_of transfer share bill w) w
]

unfoldable pub enqueue_split_share_paid : Transfer → Action Unexpected (Unit {0})
enqueue_split_share_paid transfer w = elim transfer.split_bill_share_id [
  | none ↦ pure tt w
  | some share_id ↦ enqueue_share_paid transfer (lookup share_id w.db.shares) w
]
