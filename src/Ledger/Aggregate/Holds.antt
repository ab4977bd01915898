-- ===== src/Ledger/Aggregate/Holds.antt =====
-- Commands on holds, and what a replay makes of the events that they decide.
use p2p_ledger_starter.Common.{
  ℕ, ◌+◌, ◌≡◌, ◌≢◌, refl, none, some, arith, ok, err, ◌∙◌, if◌then◌else◌,
}
use p2p_ledger_starter.Common.Int.{ℤ, pos, ◌-ℤ◌, ◌≤ℤ◌, neg, eqb_ℤ, eqb_ℤ_iff}
use p2p_ledger_starter.Common.Dict.{lookup, insert}
use p2p_ledger_starter.Ledger.Fault.{hold_conflict}
use p2p_ledger_starter.Ledger.Event.{funds_held, EventData, StoredEvent}
use p2p_ledger_starter.Ledger.Transaction.{transaction_postings, minor_text}
use p2p_ledger_starter.Ledger.Transaction.Amounts.{parse_minor_units-minor_text}
use p2p_ledger_starter.Ledger.Transaction.Postings.{
  create_ledger_transaction_nonzero, read_postings-transaction,
}
use p2p_ledger_starter.Ledger.Aggregate.{
  hold_consumed, Payload, hold_released, hold_id_payload, blank_payload, funds_held, HoldState,
  active, released, consumed, WalletAggregate, available_minor, event_data, transaction_payload,
  place_hold, release_hold, consume_hold,
}
use p2p_ledger_starter.Ledger.Aggregate.Replay.{
  with_hold, apply_funds_held, apply_hold_released, apply_hold_consumed, apply, read_hold_id,
  read_hold_payload,
}
use p2p_ledger_starter.Ledger.Aggregate.Decisions.{
  Stores, apply-handler, negative-ne, wallet_postings-transaction,
}

apply_funds_held-placed :
    (w : WalletAggregate) (k : ℕ) (a : ℤ) (e : StoredEvent)
    → k ≢ 0
    → lookup k w.holds ≡ none
    → pos 1 ≤ℤ a
    → a ≤ℤ available_minor w
    → e.payload ≡ record blank_payload { hold_id = some k; amount_minor = some (minor_text a) }
    → e.stream_version ≡ w.version + 1
    → apply_funds_held w e
      ≡ ok (with_hold w (w.version + 1) k (record { amount_minor = a; status = active }))
unfolding apply_funds_held read_hold_payload
apply_funds_held-placed w k a e ne new p c q v = ground (arith, parse_minor_units-minor_text a)

-- A new hold of a positive amount that is available is decided, and its event reserves the amount.
pub place_hold-apply :
    (w : WalletAggregate) (k : ℕ) (a : ℤ) (event_id : ℕ)
    → k ≢ 0
    → lookup k w.holds ≡ none
    → pos 1 ≤ℤ a
    → a ≤ℤ available_minor w
    → (d : EventData) × (place_hold w k a event_id ≡ ok (some d))
      × ((e : StoredEvent)
          → Stores w d e
          → apply w e
            ≡ ok (with_hold w (w.version + 1) k (record { amount_minor = a; status = active })))
unfolding place_hold
place_hold-apply w k a event_id ne new p c = (
  event_data event_id funds_held 1
      (record blank_payload { hold_id = some k; amount_minor = some (minor_text a) }),
  ground arith,
  λ e s.
      apply-handler w _ e s refl
      ∙ apply_funds_held-placed w k a e ne new p c s.same_payload s.next_version,
)

-- Placing a hold again is accepted with nothing to do exactly for the amount that it was placed with,
-- whatever has become of it.
pub place_hold_again :
    (w : WalletAggregate) (k : ℕ) (a : ℤ) (event_id : ℕ) {hold : HoldState}
    → lookup k w.holds ≡ some hold
    → pos 1 ≤ℤ a
    → place_hold w k a event_id ≡ (if eqb_ℤ hold.amount_minor a then ok none else err hold_conflict)
unfolding place_hold
place_hold_again w k a event_id f p = ground arith

apply_hold_released-active :
    (w : WalletAggregate) (k : ℕ) (hold : HoldState) (e : StoredEvent)
    → k ≢ 0
    → lookup k w.holds ≡ some hold
    → hold.status ≡ active
    → e.payload ≡ hold_id_payload k
    → e.stream_version ≡ w.version + 1
    → apply_hold_released w e
      ≡ ok (with_hold w (w.version + 1) k (record hold { status = released }))
unfolding apply_hold_released read_hold_id
apply_hold_released-active w k hold e ne f a q v = ground arith

-- Releasing an active hold is decided, and its event frees the amount.
pub release_hold-apply :
    (w : WalletAggregate) (k event_id : ℕ) {hold : HoldState}
    → k ≢ 0
    → lookup k w.holds ≡ some hold
    → hold.status ≡ active
    → (d : EventData) × (release_hold w k event_id ≡ ok (some d))
      × ((e : StoredEvent)
          → Stores w d e
          → apply w e ≡ ok (with_hold w (w.version + 1) k (record hold { status = released })))
unfolding release_hold
release_hold-apply w k event_id {hold} ne f a = (
  event_data event_id hold_released 1 (hold_id_payload k),
  ground arith,
  λ e s.
      apply-handler w _ e s refl
      ∙ apply_hold_released-active w k hold e ne f a s.same_payload s.next_version,
)

abbrev pub after_consumption : WalletAggregate → ℕ → HoldState → WalletAggregate
after_consumption w k hold = record w {
  version = w.version + 1;
  balance_minor = w.balance_minor -ℤ hold.amount_minor;
  holds = insert k (record hold { status = consumed }) w.holds;
}

consumption_payload : ℕ → ℕ → ℕ → ℤ → Payload
unfolding transaction_payload
consumption_payload k wallet_id transaction_id a =
    record (transaction_payload (record {
      transaction_id = transaction_id;
      postings = transaction_postings wallet_id (neg a);
    })) { hold_id = some k }

apply_hold_consumed-active :
    (w : WalletAggregate) (k : ℕ) (hold : HoldState) (transaction_id : ℕ) (e : StoredEvent)
    → k ≢ 0
    → lookup k w.holds ≡ some hold
    → hold.status ≡ active
    → e.payload ≡ consumption_payload k w.id transaction_id hold.amount_minor
    → e.stream_version ≡ w.version + 1
    → apply_hold_consumed w e ≡ ok (after_consumption w k hold)
unfolding apply_hold_consumed read_hold_id consumption_payload
apply_hold_consumed-active w k hold transaction_id e ne f a q v =
    rw
      (
        read_postings-transaction w.id (neg hold.amount_minor) e.payload (ground arith),
        wallet_postings-transaction w (neg hold.amount_minor),
        parse_minor_units-minor_text (neg hold.amount_minor),
      )
      (ground (arith, eqb_ℤ_iff (neg hold.amount_minor) (neg hold.amount_minor)))

-- Consuming an active hold is decided, and its event takes the reserved amount off the balance.
pub consume_hold-apply :
    (w : WalletAggregate) (k event_id transaction_id : ℕ) {hold : HoldState}
    → k ≢ 0
    → pos 1 ≤ℤ hold.amount_minor
    → lookup k w.holds ≡ some hold
    → hold.status ≡ active
    → (d : EventData) × (consume_hold w k event_id transaction_id ≡ ok (some d))
      × ((e : StoredEvent) → Stores w d e → apply w e ≡ ok (after_consumption w k hold))
unfolding consume_hold consumption_payload
consume_hold-apply w k event_id transaction_id {hold} ne p f a = (
  event_data event_id hold_consumed 1 (consumption_payload k w.id transaction_id hold.amount_minor),
  rw (
    f,
    a,
    create_ledger_transaction_nonzero w.id (neg hold.amount_minor) transaction_id
        (negative-ne hold.amount_minor p),
  ),
  λ e s.
      apply-handler w _ e s refl
      ∙ apply_hold_consumed-active w k hold transaction_id e ne f a s.same_payload s.next_version,
)
