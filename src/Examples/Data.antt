-- ===== src/Examples/Data.antt =====
-- Two wallets, with a deposit of 100.00 and a hold of 30.00 on the first.
use p2p_ledger_starter.Ledger.Transaction.{
  total_from, read_postings, assert_balanced_postings, read_entries, parse_minor_units,
}
use p2p_ledger_starter.Common.Decimal.{parse_natural, digits_value}
use p2p_ledger_starter.Ledger.Wallets.{wallet_aggregate_type}
use p2p_ledger_starter.Ledger.Tables.{LedgerDb}
use p2p_ledger_starter.Ledger.EventStore.Streams.{IsGapless}
use p2p_ledger_starter.Ledger.Event.{
  EventType, wallet_account, money_deposited, Payload, funds_held, StoredEvent, wallet_created,
  external_clearing_account,
}
use p2p_ledger_starter.Ledger.Aggregate.Replay.{
  read_hold_payload, apply_hold_released, replay_from, apply_hold_consumed, apply, apply_funds_held,
  wallet_postings, apply_created, read_hold_id, apply_money, rehydrate,
}
use p2p_ledger_starter.Ledger.Aggregate.{
  held_from, available_minor, active_amount, held_minor, HoldState, WalletAggregate, blank_payload,
  active, HoldStatus,
}
use p2p_ledger_starter.Common.{ok, ℕ, ◌≡◌, refl, none, some, List, [], ◌∷◌, arith}
use p2p_ledger_starter.Common.Int.{◌-ℤ◌, ◌+ℤ◌, neg, pos}

abbrev pub stored_event : ℕ → ℕ → EventType → ℕ → ℕ → Payload → StoredEvent
stored_event event_id stream_id event_type schema_version stream_version payload = record {
  event_id = event_id;
  stream_id = stream_id;
  aggregate_type = wallet_aggregate_type;
  event_type = event_type;
  schema_version = schema_version;
  stream_version = stream_version;
  payload = payload;
  metadata = 0;
  correlation_id = none;
  trace_id = none;
  created_at = 1000;
}

abbrev pub first_created : StoredEvent
first_created =
    stored_event 901 1 wallet_created 2 1
      (record blank_payload { owner_id = some 10; currency_code = some 840 })

abbrev pub first_deposited : StoredEvent
first_deposited = stored_event 902 1 money_deposited 1 2 (record blank_payload {
  transaction_id = some 801;
  postings = some (
      some (record {
        account_id = wallet_account 1;
        amount_minor = b'1' ∷ b'0' ∷ b'0' ∷ b'0' ∷ b'0' ∷ [];
      })
      ∷ some (record {
        account_id = external_clearing_account;
        amount_minor = b'-' ∷ b'1' ∷ b'0' ∷ b'0' ∷ b'0' ∷ b'0' ∷ [];
      })
      ∷ []);
})

abbrev pub first_held : StoredEvent
first_held = stored_event 903 1 funds_held 1 3 (record blank_payload {
  hold_id = some 7;
  amount_minor = some (b'3' ∷ b'0' ∷ b'0' ∷ b'0' ∷ []);
})

abbrev pub second_created : StoredEvent
second_created =
    stored_event 904 2 wallet_created 2 1
      (record blank_payload { owner_id = some 20; currency_code = some 978 })

abbrev pub first_stream : List StoredEvent
first_stream = first_created ∷ first_deposited ∷ first_held ∷ []

abbrev pub two_wallets : LedgerDb
two_wallets = record {
  wallets =
      record { id = 1; owner_id = 10; currency = 840 }
      ∷ record { id = 2; owner_id = 20; currency = 978 }
      ∷ [];
  events = first_created ∷ first_deposited ∷ first_held ∷ second_created ∷ [];
  balances = [];
  settlements = [];
  outbox = [];
  now = 2000;
}

abbrev pub hold_of : ℕ → HoldStatus → HoldState
hold_of amount status = record { amount_minor = pos amount; status = status }

-- The first wallet behind its three events, with its hold in a status.
abbrev pub first_wallet : HoldStatus → WalletAggregate
first_wallet status = record {
  id = 1;
  version = 3;
  owner_id = some 10;
  currency = some 840;
  balance_minor = pos 10000;
  holds = (7, hold_of 3000 status) ∷ [];
}

pub two_wallets-IsGapless : IsGapless two_wallets.events
two_wallets-IsGapless s = ground arith

pub first_wallet-rehydrate : rehydrate 1 first_stream ≡ ok (first_wallet active)
unfolding rehydrate replay_from apply apply_created apply_money apply_funds_held apply_hold_released
    apply_hold_consumed read_hold_id read_hold_payload wallet_postings read_postings read_entries
    assert_balanced_postings total_from parse_minor_units parse_natural digits_value ◌+ℤ◌ ◌-ℤ◌ neg
    held_minor held_from active_amount available_minor
first_wallet-rehydrate = refl
