-- ===== src/Payments/Saga/Announcing.antt =====
-- What the events of a completed transfer do to the world: the outbox grows, and nothing else that the
-- saga reads changes.
use p2p_ledger_starter.Payments.Tables.{
  transfer_completed_v1, PaymentPayload, PaymentEventType, SplitBillShare, Unexpected, SharePayload,
  status_changed, PaymentOutboxMessage, AggregateType, split_bill_share_aggregate, SplitBill,
  RoutingKey, share_paid, share_payload, share_paid_v1, Transfer, split_bill_aggregate,
  status_changed_v1,
}
use p2p_ledger_starter.Payments.Saga.Evolution.{is_announced, is_announcement}
use p2p_ledger_starter.Payments.Saga.{unexpected, from_outbox}
use p2p_ledger_starter.Payments.OutboxEvents.{
  completed_event, enqueue_transfer_completed, insert_event, enqueue_share_events,
  enqueue_share_paid, enqueue_status_changed, payload_of, enqueue, new_message,
  enqueue_split_share_paid,
}
use p2p_ledger_starter.Common.{
  ==_refl, ℕ, suc, ◌≡◌, refl, ◌∙◌, Bool, true, ◌||◌, Option, none, some, List, [], ◌∷◌, ◌++◌, any,
  Result, ok, err, ◌==◌, arith, inl, inr, Bool-cases, Option-cases,
}
use p2p_ledger_starter.Common.Dict.{lookup}
use p2p_ledger_starter.Payments.World.{◌>>◌, World, Action, ◌>>=◌, throw, continue, recover}

pub record Enqueued (w next : World) : Type 0 where
  pub transfers : next.db.transfers ≡ w.db.transfers
  pub log : next.log ≡ w.log
  pub announced : (id : ℕ) → is_announced id w ≡ true → is_announced id next ≡ true

pub Enqueued-refl : (w : World) → Enqueued w w
Enqueued-refl w = record { transfers = refl; log = refl; announced = λ id h. h }

pub Enqueued-trans : {a b c : World} → Enqueued a b → Enqueued b c → Enqueued a c
Enqueued-trans f g = record {
  transfers = g.transfers ∙ f.transfers;
  log = g.log ∙ f.log;
  announced = λ id h. g.announced id (f.announced id h);
}

-- The action writes to the outbox at most, also where it throws.
pub record Enqueues {E A : Type 0} (m : Action E A) : Type 0 where
  pub at : (w : World) → Enqueued w (m w).1

pub any-append {ℓ} :
    {A : Type ℓ} (p : A → Bool) (xs ys : List A) → any p (xs ++ ys) ≡ (any p xs || any p ys)
any-append p [] ys = refl
any-append p (x ∷ xs) ys = ground (arith, any-append p xs ys)

insert_event-Enqueues : (m : PaymentOutboxMessage) → Enqueues (insert_event m)
insert_event-Enqueues m = record {
  at = λ w. elim (Bool-cases (any (λ n. n.event_id == m.event_id) w.db.outbox)) [
    | inl taken ↦ rw (insert_event, taken) (Enqueued-refl w)
    | inr fresh ↦
        rw (insert_event, fresh)
          (record {
            transfers = refl;
            log = refl;
            announced = λ id h.
                rw (any-append (is_announcement id) w.db.outbox (m ∷ [])) (ground (arith, h));
          })
  ];
}

module _ {E A B : Type 0} where
  Enqueued-continue :
      (w : World) (outcome : Result E A × World) (f : A → Action E B)
      → Enqueued w outcome.1
      → ((a : A) → Enqueues (f a))
      → Enqueued w (continue outcome f).1
  Enqueued-continue w (ok a, next) f first after = Enqueued-trans first ((after a).at next)
  Enqueued-continue w (err e, next) f first after = first

  pub Enqueues-bind :
      (m : Action E A) (f : A → Action E B)
      → Enqueues m
      → ((a : A) → Enqueues (f a))
      → Enqueues (m >>= f)
  Enqueues-bind m f first after = record {
    at = λ w. Enqueued-continue w (m w) f (first.at w) after;
  }

Enqueued-recover :
    {A : Type 0} (w : World) (outcome : Result Unexpected A × World)
    → Enqueued w outcome.1
    → Enqueued w (recover outcome (λ u. throw {A = A} (unexpected u))).1
Enqueued-recover w (ok a, next) first = first
Enqueued-recover w (err e, next) first = first

pub Enqueues-from_outbox :
    {A : Type 0} (m : Action Unexpected A) → Enqueues m → Enqueues (from_outbox m)
Enqueues-from_outbox m first = record { at = λ w. Enqueued-recover w (m w) (first.at w) }

enqueue-Enqueues :
    (event_type : PaymentEventType) (key : RoutingKey) (kind : AggregateType) (id correlation : ℕ)
    (payload : PaymentPayload)
    → Enqueues (enqueue event_type key kind id correlation payload)
enqueue-Enqueues event_type key kind id correlation payload = record {
  at = λ w.
      let step =
        (insert_event-Enqueues (
            new_message w.next_id key
              (record {
                event_id = w.next_id;
                event_type = event_type;
                occurred_at = w.clock;
                correlation_id = correlation;
                aggregate_type = kind;
                aggregate_id = id;
                aggregate_version = 1;
                payload = payload;
              })
              w.clock)).at
          (record w { next_id = suc w.next_id }) in
      record { transfers = step.transfers; log = step.log; announced = step.announced };
}

enqueue_status_changed-Enqueues :
    (transfer : Transfer) (share : SplitBillShare) (bill : SplitBill) (payload : SharePayload)
    → Enqueues (enqueue_status_changed transfer share bill payload)
enqueue_status_changed-Enqueues transfer share bill payload =
    elim (Bool-cases (bill.creator_user_id == share.participant_user_id)) [
      | inl own ↦ rw (enqueue_status_changed, own) (record { at = Enqueued-refl })
      | inr other ↦
          rw (enqueue_status_changed, other)
            (enqueue-Enqueues status_changed status_changed_v1 split_bill_aggregate share.bill_id
              transfer.id (share_payload payload))
    ]

enqueue_share_events-Enqueues :
    (transfer : Transfer) (share : SplitBillShare) (bill : SplitBill) (payload : ℕ → SharePayload)
    → Enqueues (enqueue_share_events transfer share bill payload)
enqueue_share_events-Enqueues transfer share bill payload =
    Enqueues-bind
      (enqueue share_paid share_paid_v1 split_bill_share_aggregate share.id transfer.id
        (share_payload (payload share.participant_user_id)))
      (λ _. enqueue_status_changed transfer share bill (payload bill.creator_user_id))
      (enqueue-Enqueues share_paid share_paid_v1 split_bill_share_aggregate share.id transfer.id
        (share_payload (payload share.participant_user_id)))
      (λ _. enqueue_status_changed-Enqueues transfer share bill (payload bill.creator_user_id))

enqueue_share_paid-Enqueues :
    (transfer : Transfer) (share : Option SplitBillShare)
    → Enqueues (enqueue_share_paid transfer share)
enqueue_share_paid-Enqueues transfer none = record { at = Enqueued-refl }
enqueue_share_paid-Enqueues transfer (some share) = record {
  at = λ w. elim (Option-cases (lookup share.bill_id w.db.bills)) [
    | inl missing ↦ rw (enqueue_share_paid, missing) (Enqueued-refl w)
    | inr (bill, found) ↦
        rw (enqueue_share_paid, found)
          ((enqueue_share_events-Enqueues transfer share bill (payload_of transfer share bill w)).at
            w)
  ];
}

pub enqueue_split_share_paid-Enqueues :
    (transfer : Transfer) → Enqueues (enqueue_split_share_paid transfer)
unfolding enqueue_split_share_paid
enqueue_split_share_paid-Enqueues transfer = record {
  at = λ w. elim (Option-cases transfer.split_bill_share_id) [
    | inl plain ↦ rw (enqueue_split_share_paid, plain) (Enqueued-refl w)
    | inr (share_id, split) ↦
        rw (enqueue_split_share_paid, split)
          ((enqueue_share_paid-Enqueues transfer (lookup share_id w.db.shares)).at w)
  ];
}

insert_event-announces :
    (m : PaymentOutboxMessage) (id : ℕ) (w : World)
    → is_announcement id m ≡ true
    → (insert_event m w).0 ≡ ok tt
    → is_announced id (insert_event m w).1 ≡ true
insert_event-announces m id w tells done =
    elim (Bool-cases (any (λ n. n.event_id == m.event_id) w.db.outbox)) [
      | inl taken ↦ let bad = rw (insert_event, taken) at done in cc
      | inr fresh ↦
          rw (insert_event, fresh, any-append (is_announcement id) w.db.outbox (m ∷ []))
            (ground (arith, tells))
    ]

pub enqueue_transfer_completed-Enqueues :
    (transfer : Transfer) → Enqueues (enqueue_transfer_completed transfer)
unfolding enqueue_transfer_completed
enqueue_transfer_completed-Enqueues transfer = record {
  at = λ w. elim (Option-cases transfer.receiver_wallet_id) [
    | inl missing ↦ rw (enqueue_transfer_completed, missing) (Enqueued-refl w)
    | inr (receiver, found) ↦
        let step =
          (insert_event-Enqueues (
              new_message w.next_id transfer_completed_v1
                (completed_event transfer receiver w.next_id w.clock) w.clock)).at
            (record w { next_id = suc w.next_id }) in
        rw (enqueue_transfer_completed, found)
          (record { transfers = step.transfers; log = step.log; announced = step.announced })
  ];
}

pub enqueue_transfer_completed-announces :
    (transfer : Transfer) (w : World)
    → (enqueue_transfer_completed transfer w).0 ≡ ok tt
    → is_announced transfer.id (enqueue_transfer_completed transfer w).1 ≡ true
unfolding enqueue_transfer_completed
enqueue_transfer_completed-announces transfer w done =
    elim (Option-cases transfer.receiver_wallet_id) [
      | inl missing ↦ let bad = rw (enqueue_transfer_completed, missing) at done in cc
      | inr (receiver, found) ↦
          rw (enqueue_transfer_completed, found)
            (insert_event-announces
              (new_message w.next_id transfer_completed_v1
                (completed_event transfer receiver w.next_id w.clock) w.clock)
              transfer.id (record w { next_id = suc w.next_id }) (==_refl transfer.id)
              (rw (enqueue_transfer_completed, found) at done))
    ]

announced-behind :
    (outcome : Result Unexpected (Unit {0}) × World) (transfer : Transfer)
    → (outcome.0 ≡ ok tt → is_announced transfer.id outcome.1 ≡ true)
    → Enqueues (from_outbox (enqueue_split_share_paid transfer))
    → (continue
        (recover outcome (λ u. throw {A = Unit {0}} (unexpected u)))
        (λ _. from_outbox (enqueue_split_share_paid transfer))).0
      ≡ ok tt
    → is_announced transfer.id
        (continue
          (recover outcome (λ u. throw {A = Unit {0}} (unexpected u)))
          (λ _. from_outbox (enqueue_split_share_paid transfer))).1
      ≡ true
announced-behind (ok value, next) transfer tells second done =
    (second.at next).announced transfer.id (tells (cc))
announced-behind (err e, next) transfer tells second done = cc

-- Both events of a completed transfer.
pub announce-cases :
    (transfer : Transfer) (w : World)
    → Enqueued w
        ((from_outbox (enqueue_transfer_completed transfer)
            >> from_outbox (enqueue_split_share_paid transfer))
          w).1
      × (((from_outbox (enqueue_transfer_completed transfer)
                >> from_outbox (enqueue_split_share_paid transfer))
              w).0
            ≡ ok tt
          → is_announced transfer.id
              ((from_outbox (enqueue_transfer_completed transfer)
                  >> from_outbox (enqueue_split_share_paid transfer))
                w).1
            ≡ true)
announce-cases transfer w =
    let first =
      Enqueues-from_outbox (enqueue_transfer_completed transfer)
        (enqueue_transfer_completed-Enqueues transfer) in
    let second =
      Enqueues-from_outbox (enqueue_split_share_paid transfer)
        (enqueue_split_share_paid-Enqueues transfer) in
    (
      (Enqueues-bind (from_outbox (enqueue_transfer_completed transfer))
            (λ _. from_outbox (enqueue_split_share_paid transfer)) first (λ _. second)).at
          w,
      announced-behind (enqueue_transfer_completed transfer w) transfer
          (enqueue_transfer_completed-announces transfer w) second,
    )
