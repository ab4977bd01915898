-- ===== src/Ledger/Aggregate.antt =====
-- wallets/domain/wallet.aggregate.ts: the wallet as a fold over its events, and the commands that
-- decide the next event.
pub mod Replay
pub mod Step
pub mod Invariant
pub mod Soundness
pub mod Lifecycle
pub mod Accounting
pub mod Decisions
pub mod Holds
use p2p_ledger_starter.Common.{
  ℕ, suc, ◌+◌, Bool, true, false, ◌||◌, ◌&&◌, Option, none, some, List, [], ◌∷◌, map, ltb, leb,
  ◌==◌, not, if◌then◌else◌, keep, is_some, Result, ok, err, ◌>>=◌, ◌>>◌, ensure, or_throw,
}
use p2p_ledger_starter.Common.Int.{ℤ, pos, ◌+ℤ◌, ◌-ℤ◌, neg, ltb_ℤ, leb_ℤ, eqb_ℤ}
use p2p_ledger_starter.Common.Dict.{Dict, lookup, contains, insert}
use p2p_ledger_starter.Ledger.Fault.{
  Fault, insufficient_funds, invalid_hold_amount, hold_conflict, hold_not_found,
  hold_already_consumed, hold_already_released, version_gap, unsupported_schema,
  invalid_wallet_created, not_one_wallet_posting, spends_reserved_funds, invalid_funds_held,
  invalid_hold_released, invalid_hold_consumed, settlement_mismatch, unsupported_event_type,
  invalid_hold_id, invalid_hold_payload,
}
use p2p_ledger_starter.Ledger.Event.{
  account_eq, Posting, Payload, EventType, wallet_created, money_deposited, withdrawal_completed,
  funds_held, hold_released, hold_consumed, other, EventData, StoredEvent,
}
use p2p_ledger_starter.Ledger.Transaction.{
  parse_minor_units, minor_text, wallet_account_id, LedgerTransactionPayload,
  create_ledger_transaction, read_postings,
}

pub data HoldStatus : Type 0 where
  active released consumed : HoldStatus

pub record HoldState : Type 0 where
  pub amount_minor : ℤ
  pub status : HoldStatus

pub record WalletAggregate : Type 0 where
  pub id : ℕ
  pub version : ℕ
  pub owner_id : Option ℕ
  pub currency : Option ℕ
  pub balance_minor : ℤ
  pub holds : Dict HoldState

-- `WalletAggregate.empty`
abbrev pub empty : ℕ → WalletAggregate
empty wallet_id = record {
  id = wallet_id;
  version = 0;
  owner_id = none;
  currency = none;
  balance_minor = pos 0;
  holds = [];
}

abbrev pub is_active : HoldStatus → Bool
is_active active = true
is_active _ = false

-- What a hold takes from the funds that are available.
unfoldable pub active_amount : HoldState → ℤ
active_amount hold = if is_active hold.status then hold.amount_minor else pos 0

unfoldable pub held_from : ℤ → Dict HoldState → ℤ
held_from sum [] = sum
held_from sum ((_, hold) ∷ holds) = held_from (sum +ℤ active_amount hold) holds

unfoldable pub held_minor : WalletAggregate → ℤ
held_minor w = held_from (pos 0) w.holds

unfoldable pub available_minor : WalletAggregate → ℤ
available_minor w = w.balance_minor -ℤ held_minor w

abbrev pub blank_payload : Payload
blank_payload = record {
  owner_id = none;
  currency = none;
  currency_code = none;
  hold_id = none;
  amount_minor = none;
  transaction_id = none;
  postings = none;
}

abbrev pub event_data : ℕ → EventType → ℕ → Payload → EventData
event_data event_id event_type schema_version payload = record {
  event_id = event_id;
  event_type = event_type;
  schema_version = schema_version;
  payload = payload;
  metadata = none;
  correlation_id = none;
  trace_id = none;
}

-- `createdEvent`; the `randomUUID()` is the first argument.
unfoldable pub created_event : ℕ → ℕ → ℕ → EventData
created_event event_id owner_id currency =
    event_data event_id wallet_created 2
      (record blank_payload { owner_id = some owner_id; currency_code = some currency })

unfoldable pub transaction_payload : LedgerTransactionPayload → Payload
transaction_payload t = record blank_payload {
  transaction_id = some t.transaction_id;
  postings = some (map some t.postings);
}

unfoldable pub money_event : WalletAggregate → EventType → ℤ → ℕ → ℕ → Result Fault EventData
unfolding transaction_payload
money_event w event_type wallet_amount event_id transaction_id = do
  transaction ← create_ledger_transaction w.id wallet_amount transaction_id
  ok (event_data event_id event_type 1 (transaction_payload transaction))

unfoldable pub deposit : WalletAggregate → ℤ → ℕ → ℕ → Result Fault EventData
unfolding money_event
deposit w amount event_id transaction_id =
    money_event w money_deposited amount event_id transaction_id

unfoldable pub withdraw : WalletAggregate → ℤ → ℕ → ℕ → Result Fault EventData
unfolding money_event
withdraw w amount event_id transaction_id = do
  ensure (not (ltb_ℤ (available_minor w) amount)) insufficient_funds
  money_event w withdrawal_completed (neg amount) event_id transaction_id

-- `none` is the source's `null`: nothing is left to do.
abbrev pub place_new_hold : WalletAggregate → ℕ → ℤ → ℕ → Result Fault (Option EventData)
place_new_hold w hold_id amount event_id = do
  ensure (not (ltb_ℤ (available_minor w) amount)) insufficient_funds
  ok (
      some (
        event_data event_id funds_held 1 (record blank_payload {
          hold_id = some hold_id;
          amount_minor = some (minor_text amount);
        })))

abbrev pub place_existing_hold : HoldState → ℤ → Result Fault (Option EventData)
place_existing_hold existing amount = do
  ensure (eqb_ℤ existing.amount_minor amount) hold_conflict
  ok none

unfoldable pub place_hold : WalletAggregate → ℕ → ℤ → ℕ → Result Fault (Option EventData)
place_hold w hold_id amount event_id = do
  ensure (not (leb_ℤ amount (pos 0))) invalid_hold_amount
  elim (lookup hold_id w.holds) [
    | some existing ↦ place_existing_hold existing amount
    | none ↦ place_new_hold w hold_id amount event_id
  ]

abbrev pub hold_id_payload : ℕ → Payload
hold_id_payload hold_id = record blank_payload { hold_id = some hold_id }

abbrev pub release_found : HoldStatus → ℕ → ℕ → Result Fault (Option EventData)
release_found released hold_id event_id = ok none
release_found consumed hold_id event_id = err hold_already_consumed
release_found active hold_id event_id =
    ok (some (event_data event_id hold_released 1 (hold_id_payload hold_id)))

unfoldable pub release_hold : WalletAggregate → ℕ → ℕ → Result Fault (Option EventData)
release_hold w hold_id event_id = do
  hold ← or_throw (lookup hold_id w.holds) hold_not_found
  release_found hold.status hold_id event_id

abbrev pub consume_found :
    WalletAggregate → HoldState → HoldStatus → ℕ → ℕ → ℕ → Result Fault (Option EventData)
consume_found w hold consumed hold_id event_id transaction_id = ok none
consume_found w hold released hold_id event_id transaction_id = err hold_already_released
consume_found w hold active hold_id event_id transaction_id = do
  transaction ← create_ledger_transaction w.id (neg hold.amount_minor) transaction_id
  ok (
      some (
        event_data event_id hold_consumed 1
          (record (transaction_payload transaction) { hold_id = some hold_id })))

unfoldable pub consume_hold : WalletAggregate → ℕ → ℕ → ℕ → Result Fault (Option EventData)
unfolding transaction_payload
consume_hold w hold_id event_id transaction_id = do
  hold ← or_throw (lookup hold_id w.holds) hold_not_found
  consume_found w hold hold.status hold_id event_id transaction_id
