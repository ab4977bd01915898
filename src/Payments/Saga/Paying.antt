-- ===== src/Payments/Saga/Paying.antt =====
-- The events of a completed transfer are written: those of its share too, where it pays one.
use p2p_ledger_starter.Payments.World.{continue, World}
use p2p_ledger_starter.Payments.Tables.{
  split_bill_share_aggregate, share_payload, PaymentPayload, Transfer, share_paid, SharePayload,
  SplitBillShare, AggregateType, status_changed, PaymentOutboxMessage, share_paid_v1,
  split_bill_aggregate, PaymentsDb, status_changed_v1, PaymentEventType, RoutingKey, SplitBill,
}
use p2p_ledger_starter.Payments.Saga.Announcing.{any-append}
use p2p_ledger_starter.Payments.OutboxEvents.{
  enqueue_status_changed, enqueue, enqueue_split_share_paid, enqueue_share_paid,
  enqueue_share_events, insert_event, payload_of, new_message,
}
use p2p_ledger_starter.Common.{
  ap, any, ok, Bool-cases, ==_refl, ◌==◌, ℕ, suc, ◌≤◌, ◌≡◌, refl, ◌∙◌, subst, Bool, true, false,
  ◌&&◌, Option, none, some, [], ◌∷◌, ◌++◌, arith, inl, inr,
}
use p2p_ledger_starter.Common.Dict.{lookup}

-- No message of the outbox has an id that is still to be drawn.
abbrev pub AreFresh : World → Type 0
AreFresh w = (i : ℕ) → w.next_id ≤ i → any (λ m. m.event_id == i) w.db.outbox ≡ false

-- A share that is to be paid is there, under its id, with its bill, as the foreign keys have it.
abbrev pub IsKnownShare : Option ℕ → PaymentsDb → Type 0
IsKnownShare none db = Unit {0}
IsKnownShare (some share_id) db =
    (share : SplitBillShare) × (bill : SplitBill) × (lookup share_id db.shares ≡ some share)
    × (share.id ≡ share_id)
    × (lookup share.bill_id db.bills ≡ some bill)

-- The event `payments.split-share.Paid` of a share and the transfer that pays it.
abbrev pub is_share_payment : ℕ → ℕ → PaymentOutboxMessage → Bool
is_share_payment share_id transfer_id m = elim m.event.event_type [
  | share_paid ↦ m.event.aggregate_id == share_id && m.event.correlation_id == transfer_id
  | _ ↦ false
]

abbrev pub is_share_told : Option ℕ → ℕ → World → Bool
is_share_told none transfer_id w = true
is_share_told (some share_id) transfer_id w =
    any (is_share_payment share_id transfer_id) w.db.outbox

-- The world behind a message that was written under the next id.
abbrev pub posted : PaymentOutboxMessage → World → World
posted m w = record w {
  db = record w.db { outbox = w.db.outbox ++ (m ∷ []) };
  next_id = suc w.next_id;
}

pub posted-AreFresh :
    (m : PaymentOutboxMessage) (w : World)
    → m.event_id ≡ w.next_id
    → AreFresh w
    → AreFresh (posted m w)
posted-AreFresh m w drawn fresh i later =
    rw (any-append (λ (n : PaymentOutboxMessage). n.event_id == i) w.db.outbox (m ∷ []))
      (ground (arith, fresh i (omega (arith, later)), drawn, later))

module _ (event_type : PaymentEventType) (routing_key : RoutingKey) (aggregate_type : AggregateType)
    (aggregate_id correlation_id : ℕ) (payload : PaymentPayload) where
  abbrev message_of : World → PaymentOutboxMessage
  message_of w =
      new_message w.next_id routing_key
        (record {
          event_id = w.next_id;
          event_type = event_type;
          occurred_at = w.clock;
          correlation_id = correlation_id;
          aggregate_type = aggregate_type;
          aggregate_id = aggregate_id;
          aggregate_version = 1;
          payload = payload;
        })
        w.clock

  enqueue-posts :
      (w : World)
      → AreFresh w
      → enqueue event_type routing_key aggregate_type aggregate_id correlation_id payload w
        ≡ (ok tt, posted (message_of w) w)
  enqueue-posts w fresh = let new = fresh w.next_id (omega arith) in rw (insert_event, new) refl

enqueue_status_changed-succeeds :
    (transfer : Transfer) (share : SplitBillShare) (bill : SplitBill) (payload : SharePayload)
    (w : World) (p : PaymentOutboxMessage → Bool)
    → AreFresh w
    → any p w.db.outbox ≡ true
    → (last : World) × (enqueue_status_changed transfer share bill payload w ≡ (ok tt, last))
      × (any p last.db.outbox ≡ true)
enqueue_status_changed-succeeds transfer share bill payload w p fresh told =
    elim (Bool-cases (bill.creator_user_id == share.participant_user_id)) [
      | inl own ↦ (w, rw (enqueue_status_changed, own) refl, told)
      | inr other ↦
          let m =
            message_of status_changed status_changed_v1 split_bill_aggregate share.bill_id
              transfer.id (share_payload payload) w in
          (
            posted m w,
            rw (enqueue_status_changed, other)
                (enqueue-posts status_changed status_changed_v1 split_bill_aggregate share.bill_id
                  transfer.id (share_payload payload) w fresh),
            rw (any-append p w.db.outbox (m ∷ [])) (ground (arith, told)),
          )
    ]

enqueue_share_events-succeeds :
    (transfer : Transfer) (share : SplitBillShare) (bill : SplitBill) (payload : ℕ → SharePayload)
    (w : World)
    → AreFresh w
    → (last : World) × (enqueue_share_events transfer share bill payload w ≡ (ok tt, last))
      × (any (is_share_payment share.id transfer.id) last.db.outbox ≡ true)
enqueue_share_events-succeeds transfer share bill payload w fresh =
    let p = is_share_payment share.id transfer.id in
    let body = share_payload (payload share.participant_user_id) in
    let m =
      message_of share_paid share_paid_v1 split_bill_share_aggregate share.id transfer.id body w in
    let told : any p (posted m w).db.outbox ≡ true =
      rw (any-append p w.db.outbox (m ∷ []))
        (ground (arith, ==_refl share.id, ==_refl transfer.id)) in
    let (last, done, kept) =
      enqueue_status_changed-succeeds transfer share bill (payload bill.creator_user_id)
        (posted m w) p (posted-AreFresh m w refl fresh) told in
    let first : enqueue share_paid share_paid_v1 split_bill_share_aggregate share.id transfer.id
          body w
        ≡ (ok tt, posted m w) =
      enqueue-posts share_paid share_paid_v1 split_bill_share_aggregate share.id transfer.id body w
        fresh in
    (
      last,
      ap
            (λ r.
              continue r
                (λ _. enqueue_status_changed transfer share bill (payload bill.creator_user_id)))
            first
          ∙ done,
      kept,
    )

pub enqueue_split_share_paid-succeeds :
    (share_id : Option ℕ) (transfer : Transfer) (w : World)
    → transfer.split_bill_share_id ≡ share_id
    → IsKnownShare share_id w.db
    → AreFresh w
    → (last : World) × (enqueue_split_share_paid transfer w ≡ (ok tt, last))
      × (is_share_told share_id transfer.id last ≡ true)
unfolding enqueue_split_share_paid payload_of
enqueue_split_share_paid-succeeds none transfer w here known fresh =
    (w, rw (enqueue_split_share_paid, here) refl, refl)
enqueue_split_share_paid-succeeds (some share_id) transfer w here
      (share, bill, found, keyed, billed) fresh =
    let (last, done, told) =
      enqueue_share_events-succeeds transfer share bill (payload_of transfer share bill w) w
        fresh in
    let plain : enqueue_split_share_paid transfer w
        ≡ enqueue_share_events transfer share bill (payload_of transfer share bill w) w =
      rw (enqueue_split_share_paid, here, found, enqueue_share_paid, billed) refl in
    (
      last,
      plain ∙ done,
      subst (λ id. any (is_share_payment id transfer.id) last.db.outbox ≡ true) keyed told,
    )
