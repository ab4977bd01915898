-- ===== src/Ledger/Event.antt =====
-- The events of a wallet: event-store/event-store.types.ts, entities/stored-event.entity.ts and the
-- event names of wallets/domain/wallet.aggregate.ts.
-- Ids, currencies and other texts that the code only compares or tests for emptiness are numbers, of
-- which 0 is the empty text. Amounts stay texts, since the code prints and parses them.
use p2p_ledger_starter.Common.{ℕ, Bool, true, false, Option, List, ◌==◌}
use p2p_ledger_starter.Common.Decimal.{Text}

-- `wallet:<id>`, `system:external`, and any other text.
pub data AccountId : Type 0 where
  wallet_account : ℕ → AccountId
  external_clearing_account : AccountId
  other_account : ℕ → AccountId

abbrev pub account_eq : AccountId → AccountId → Bool
account_eq (wallet_account a) (wallet_account b) = a == b
account_eq external_clearing_account external_clearing_account = true
account_eq (other_account a) (other_account b) = a == b
account_eq _ _ = false

pub record Posting : Type 0 where
  pub account_id : AccountId
  pub amount_minor : Text

-- The JSON payload as the code reads it: each field is `none` where it is absent or not of the type
-- that the code tests for. An entry of `postings` is `none` where it is no object with two texts.
pub record Payload : Type 0 where
  pub owner_id : Option ℕ
  pub currency : Option ℕ
  pub currency_code : Option ℕ
  pub hold_id : Option ℕ
  pub amount_minor : Option Text
  pub transaction_id : Option ℕ
  pub postings : Option (List (Option Posting))

-- `other` is any other text, of which `other 0` is the blank one.
pub data EventType : Type 0 where
  wallet_created money_deposited withdrawal_completed : EventType
  funds_held hold_released hold_consumed : EventType
  other : ℕ → EventType

-- `interface EventData`; metadata is only stored, so it is a number, 0 for `{}`.
pub record EventData : Type 0 where
  pub event_id : ℕ
  pub event_type : EventType
  pub schema_version : ℕ
  pub payload : Payload
  pub metadata : Option ℕ
  pub correlation_id : Option ℕ
  pub trace_id : Option ℕ

-- A row of `ledger_events`.
pub record StoredEvent : Type 0 where
  pub event_id : ℕ
  pub stream_id : ℕ
  pub aggregate_type : ℕ
  pub event_type : EventType
  pub schema_version : ℕ
  pub stream_version : ℕ
  pub payload : Payload
  pub metadata : ℕ
  pub correlation_id : Option ℕ
  pub trace_id : Option ℕ
  pub created_at : ℕ
