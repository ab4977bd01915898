-- ===== src/Ledger/Aggregate/Step.antt =====
-- The abstract wallet: the five ways in which an event may change it, and the proof that a replay
-- makes no other change.
use p2p_ledger_starter.Common.{
  ensure, ◌==◌, ◌||◌, subst, ℕ, ◌+◌, ◌≡◌, none, some, [], arith, ok, Option-cases, inl, inr,
  >>=-eq-ok, or_throw,
}
use p2p_ledger_starter.Common.Int.{ℤ, pos, ◌+ℤ◌, ◌-ℤ◌, ◌≤ℤ◌, +ℤ_parts, -ℤ_parts}
use p2p_ledger_starter.Ledger.Transaction.{read_postings, parse_minor_units}
use p2p_ledger_starter.Common.Dict.{lookup, insert}
use p2p_ledger_starter.Ledger.Event.{
  EventType, wallet_created, money_deposited, withdrawal_completed, funds_held, hold_released,
  hold_consumed, other, StoredEvent,
}
use p2p_ledger_starter.Ledger.Fault.{Fault, version_gap, unsupported_schema, not_one_wallet_posting}
use p2p_ledger_starter.Ledger.Aggregate.{
  HoldState, active, released, consumed, WalletAggregate, held_minor, available_minor,
}
use p2p_ledger_starter.Ledger.Aggregate.Invariant.{active_sum, held_minor-active_sum}
use p2p_ledger_starter.Ledger.Aggregate.Replay.{
  apply_created, apply_money, apply_funds_held, apply_hold_released, apply_hold_consumed, apply,
  active_hold, apply_type, is_wallet_created, single, wallet_postings, created_currency,
  read_hold_id, read_hold_payload, with_hold,
}

-- Funds held under `k`, released, or consumed: `hold` is what stood under `k` before.
pub data Step (w : WalletAggregate) (version : ℕ) (w' : WalletAggregate) : Type 0 where
  created :
      (owner_id currency : ℕ)
      → w.version ≡ 0
      → w' ≡ record {
        id = w.id;
        version = version;
        owner_id = some owner_id;
        currency = some currency;
        balance_minor = pos 0;
        holds = [];
      }
      → Step w version w'
  moved :
      (amount : ℤ)
      → active_sum w.holds ≤ℤ w.balance_minor +ℤ amount
      → w' ≡ record w { version = version; balance_minor = w.balance_minor +ℤ amount }
      → Step w version w'
  placed :
      (k : ℕ) (amount : ℤ)
      → lookup k w.holds ≡ none
      → pos 1 ≤ℤ amount
      → active_sum w.holds +ℤ amount ≤ℤ w.balance_minor
      → w' ≡ with_hold w version k (record { amount_minor = amount; status = active })
      → Step w version w'
  freed :
      (k : ℕ) (hold : HoldState)
      → lookup k w.holds ≡ some hold
      → hold.status ≡ active
      → w' ≡ with_hold w version k (record hold { status = released })
      → Step w version w'
  spent :
      (k : ℕ) (hold : HoldState)
      → lookup k w.holds ≡ some hold
      → hold.status ≡ active
      → w' ≡ record w {
        version = version;
        balance_minor = w.balance_minor -ℤ hold.amount_minor;
        holds = insert k (record hold { status = consumed }) w.holds;
      }
      → Step w version w'

apply_created-Step :
    (w : WalletAggregate) (e : StoredEvent) {w' : WalletAggregate}
    → apply_created w e ≡ ok w'
    → Step w e.stream_version w'
unfolding apply_created
apply_created-Step w e h = elim (Option-cases e.payload.owner_id) [
  | inl absent ↦ absurd (ground arith)
  | inr (owner_id, present) ↦ elim (Option-cases (created_currency e.schema_version e.payload)) [
    | inl absent ↦ absurd (ground arith)
    | inr (currency, given) ↦ created owner_id currency (ground arith) (ground arith)
  ]
]

apply_money-Step :
    (w : WalletAggregate) (e : StoredEvent) {w' : WalletAggregate}
    → apply_money w e ≡ ok w'
    → Step w e.stream_version w'
unfolding apply_money
apply_money-Step w e {w'} h =
    let (postings, _, h1) = >>=-eq-ok (read_postings e.payload) _ h in
    let (posting, _, h2) =
      >>=-eq-ok (or_throw (single (wallet_postings w postings)) not_one_wallet_posting) _ h1 in
    let (amount, _, h3) = >>=-eq-ok (parse_minor_units posting.amount_minor) _ h2 in
    moved amount (ground (arith, held_minor-active_sum w)) (ground arith)

apply_funds_held-Step :
    (w : WalletAggregate) (e : StoredEvent) {w' : WalletAggregate}
    → apply_funds_held w e ≡ ok w'
    → Step w e.stream_version w'
unfolding apply_funds_held available_minor
apply_funds_held-Step w e h =
    let (p, _, h1) = >>=-eq-ok (read_hold_payload e.payload) _ h in
    placed p.0 p.1 (ground arith) (ground arith)
      (ground (
        arith,
        held_minor-active_sum w,
        -ℤ_parts w.balance_minor (held_minor w),
        +ℤ_parts (active_sum w.holds) p.1,
      ))
      (ground arith)

active_hold-ok :
    (w : WalletAggregate) (k : ℕ) (f : Fault) {hold : HoldState}
    → active_hold w k f ≡ ok hold
    → (lookup k w.holds ≡ some hold) × (hold.status ≡ active)
active_hold-ok w k f h = ground arith

apply_hold_released-Step :
    (w : WalletAggregate) (e : StoredEvent) {w' : WalletAggregate}
    → apply_hold_released w e ≡ ok w'
    → Step w e.stream_version w'
unfolding apply_hold_released
apply_hold_released-Step w e h =
    let (k, _, h1) = >>=-eq-ok (read_hold_id e.payload) _ h in
    let (hold, found, h2) = >>=-eq-ok (active_hold w k _) _ h1 in
    freed k hold (active_hold-ok w k _ found).0 (active_hold-ok w k _ found).1 (ground arith)

apply_hold_consumed-Step :
    (w : WalletAggregate) (e : StoredEvent) {w' : WalletAggregate}
    → apply_hold_consumed w e ≡ ok w'
    → Step w e.stream_version w'
unfolding apply_hold_consumed
apply_hold_consumed-Step w e h =
    let (k, _, h1) = >>=-eq-ok (read_hold_id e.payload) _ h in
    let (hold, found, h2) = >>=-eq-ok (active_hold w k _) _ h1 in
    spent k hold (active_hold-ok w k _ found).0 (active_hold-ok w k _ found).1 (ground arith)

apply_type-Step :
    (t : EventType) (w : WalletAggregate) (e : StoredEvent) {w' : WalletAggregate}
    → apply_type t w e ≡ ok w'
    → Step w e.stream_version w'
apply_type-Step wallet_created w e h = apply_created-Step w e h
apply_type-Step money_deposited w e h = apply_money-Step w e h
apply_type-Step withdrawal_completed w e h = apply_money-Step w e h
apply_type-Step funds_held w e h = apply_funds_held-Step w e h
apply_type-Step hold_released w e h = apply_hold_released-Step w e h
apply_type-Step hold_consumed w e h = apply_hold_consumed-Step w e h
apply_type-Step (other _) w e h = absurd (cc)

-- Every event that a replay accepts carries the next version and is one of the five steps.
pub apply-Step :
    (w : WalletAggregate) (e : StoredEvent) {w' : WalletAggregate}
    → apply w e ≡ ok w'
    → Step w (w.version + 1) w'
unfolding apply
apply-Step w e {w'} h =
    let (_, next, h1) = >>=-eq-ok (ensure (e.stream_version == w.version + 1) version_gap) _ h in
    let (_, _, h2) =
      >>=-eq-ok
        (ensure (is_wallet_created e.event_type || e.schema_version == 1) unsupported_schema) _
        h1 in
    subst (λ v. Step w v w') (ground arith) (apply_type-Step e.event_type w e h2)
