-- ===== src/Ledger/Aggregate/Replay.antt =====
-- `WalletAggregate.apply` and `rehydrate`: how a stored event changes the wallet, and which events a
-- replay refuses.
use p2p_ledger_starter.Common.{
  ℕ, ◌+◌, Bool, true, false, ◌||◌, ◌&&◌, Option, none, some, List, [], ◌∷◌, ◌==◌, not,
  if◌then◌else◌, keep, is_some, Result, ok, err, ◌>>=◌, ◌>>◌, ensure, or_throw,
}
use p2p_ledger_starter.Common.Int.{ℤ, pos, ◌+ℤ◌, ◌-ℤ◌, neg, ltb_ℤ, leb_ℤ, eqb_ℤ}
use p2p_ledger_starter.Common.Dict.{lookup, contains, insert}
use p2p_ledger_starter.Ledger.Fault.{
  Fault, version_gap, unsupported_schema, invalid_wallet_created, not_one_wallet_posting,
  spends_reserved_funds, invalid_funds_held, invalid_hold_released, invalid_hold_consumed,
  settlement_mismatch, unsupported_event_type, invalid_hold_id, invalid_hold_payload,
}
use p2p_ledger_starter.Ledger.Event.{
  account_eq, Posting, Payload, EventType, wallet_created, money_deposited, withdrawal_completed,
  funds_held, hold_released, hold_consumed, other, StoredEvent,
}
use p2p_ledger_starter.Ledger.Transaction.{parse_minor_units, wallet_account_id, read_postings}
use p2p_ledger_starter.Ledger.Aggregate.{
  active, released, consumed, HoldState, WalletAggregate, empty, is_active, held_minor,
  available_minor,
}

-- `currency` of schema version 1, `currencyCode` of version 2, and nothing of any other.
abbrev pub created_currency : ℕ → Payload → Option ℕ
created_currency schema_version payload =
    if schema_version == 1
    then payload.currency
    else if schema_version == 2
    then payload.currency_code
    else none

unfoldable pub apply_created : WalletAggregate → StoredEvent → Result Fault WalletAggregate
apply_created w event = do
  let currency = created_currency event.schema_version event.payload
  ensure (w.version == 0 && (is_some event.payload.owner_id && is_some currency))
      invalid_wallet_created
  ok (record {
    id = w.id;
    version = event.stream_version;
    owner_id = event.payload.owner_id;
    currency = currency;
    balance_minor = pos 0;
    holds = [];
  })

-- The only element of a list with one element.
abbrev pub single {ℓ} : {A : Type ℓ} → List A → Option A
single [] = none
single (x ∷ []) = some x
single (x ∷ y ∷ xs) = none

-- The postings on the wallet's own account.
unfoldable pub wallet_postings : WalletAggregate → List Posting → List Posting
wallet_postings w = keep (λ p. account_eq p.account_id (wallet_account_id w.id))

unfoldable pub apply_money : WalletAggregate → StoredEvent → Result Fault WalletAggregate
apply_money w event = do
  postings ← read_postings event.payload
  posting ← or_throw (single (wallet_postings w postings)) not_one_wallet_posting
  amount ← parse_minor_units posting.amount_minor
  let next_balance = w.balance_minor +ℤ amount
  ensure (not (ltb_ℤ next_balance (held_minor w))) spends_reserved_funds
  ok (record w { version = event.stream_version; balance_minor = next_balance })

unfoldable pub read_hold_id : Payload → Result Fault ℕ
read_hold_id payload = do
  hold_id ← or_throw payload.hold_id invalid_hold_id
  ensure (not (hold_id == 0)) invalid_hold_id
  ok hold_id

unfoldable pub read_hold_payload : Payload → Result Fault (ℕ × ℤ)
unfolding read_hold_id
read_hold_payload payload = do
  hold_id ← read_hold_id payload
  text ← or_throw payload.amount_minor invalid_hold_payload
  amount ← parse_minor_units text
  ok (hold_id, amount)

abbrev pub with_hold : WalletAggregate → ℕ → ℕ → HoldState → WalletAggregate
with_hold w version hold_id hold = record w {
  version = version;
  holds = insert hold_id hold w.holds;
}

-- `has(holdId) || amountMinor <= 0n || amountMinor > availableMinor`
abbrev pub is_invalid_held : WalletAggregate → ℕ → ℤ → Bool
is_invalid_held w hold_id amount =
    contains hold_id w.holds || (leb_ℤ amount (pos 0) || ltb_ℤ (available_minor w) amount)

unfoldable pub apply_funds_held : WalletAggregate → StoredEvent → Result Fault WalletAggregate
apply_funds_held w event = do
  (hold_id, amount) ← read_hold_payload event.payload
  ensure (not (is_invalid_held w hold_id amount)) invalid_funds_held
  ok (with_hold w event.stream_version hold_id (record { amount_minor = amount; status = active }))

-- `!hold || hold.status !== 'active'` throws.
abbrev pub active_hold : WalletAggregate → ℕ → Fault → Result Fault HoldState
active_hold w hold_id fault = do
  hold ← or_throw (lookup hold_id w.holds) fault
  ensure (is_active hold.status) fault
  ok hold

unfoldable pub apply_hold_released : WalletAggregate → StoredEvent → Result Fault WalletAggregate
apply_hold_released w event = do
  hold_id ← read_hold_id event.payload
  hold ← active_hold w hold_id invalid_hold_released
  ok (with_hold w event.stream_version hold_id (record hold { status = released }))

unfoldable pub apply_hold_consumed : WalletAggregate → StoredEvent → Result Fault WalletAggregate
apply_hold_consumed w event = do
  hold_id ← read_hold_id event.payload
  hold ← active_hold w hold_id invalid_hold_consumed
  postings ← read_postings event.payload
  posting ← or_throw (single (wallet_postings w postings)) settlement_mismatch
  amount ← parse_minor_units posting.amount_minor
  ensure (eqb_ℤ amount (neg hold.amount_minor)) settlement_mismatch
  let next = with_hold w event.stream_version hold_id (record hold { status = consumed })
  ok (record next { balance_minor = next.balance_minor -ℤ hold.amount_minor })

abbrev pub is_wallet_created : EventType → Bool
is_wallet_created wallet_created = true
is_wallet_created _ = false

abbrev pub apply_type : EventType → WalletAggregate → StoredEvent → Result Fault WalletAggregate
apply_type wallet_created = apply_created
apply_type money_deposited = apply_money
apply_type withdrawal_completed = apply_money
apply_type funds_held = apply_funds_held
apply_type hold_released = apply_hold_released
apply_type hold_consumed = apply_hold_consumed
apply_type (other _) = λ w event. err unsupported_event_type

unfoldable pub apply : WalletAggregate → StoredEvent → Result Fault WalletAggregate
apply w event = do
  ensure (event.stream_version == w.version + 1) version_gap
  ensure (is_wallet_created event.event_type || event.schema_version == 1) unsupported_schema
  apply_type event.event_type w event

-- `events.reduce((aggregate, event) => aggregate.apply(event), from)`
unfoldable pub replay_from : WalletAggregate → List StoredEvent → Result Fault WalletAggregate
replay_from w [] = ok w
replay_from w (event ∷ events) = do next ← apply w event; replay_from next events

unfoldable pub rehydrate : ℕ → List StoredEvent → Result Fault WalletAggregate
unfolding replay_from
rehydrate wallet_id events = replay_from (empty wallet_id) events
