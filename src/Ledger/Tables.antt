-- ===== src/Ledger/Tables.antt =====
-- The tables of the ledger service: wallets/entities/*.ts and messaging/entities/outbox-message.entity.ts.
use p2p_ledger_starter.Common.{ℕ, Option, List}
use p2p_ledger_starter.Common.Decimal.{Text}
use p2p_ledger_starter.Common.Dict.{Dict}
use p2p_ledger_starter.Ledger.Event.{EventType, StoredEvent}

pub record Wallet : Type 0 where
  pub id : ℕ
  pub owner_id : ℕ
  pub currency : ℕ

-- A row of `wallet_balance_projection`; the `bigint` columns are texts in the code.
pub record WalletBalanceProjection : Type 0 where
  pub wallet_id : ℕ
  pub balance_minor : Text
  pub held_minor : Text
  pub available_minor : Text
  pub stream_version : ℕ

pub record LedgerTransferSettlement : Type 0 where
  pub transfer_id : ℕ
  pub sender_wallet_id : ℕ
  pub receiver_wallet_id : ℕ
  pub amount_minor : Text
  pub currency : ℕ
  pub destination_amount_minor : Text
  pub destination_currency : ℕ

-- `wallet.owner_id` and `wallet.currency` of the payload, and the row that the envelope is made of.
pub record WalletEnvelope : Type 0 where
  pub event : StoredEvent
  pub owner_id : ℕ
  pub currency : ℕ

pub record OutboxMessage : Type 0 where
  pub event_id : ℕ
  pub routing_key : EventType
  pub envelope : WalletEnvelope
  pub attempts : ℕ
  pub available_at : ℕ
  pub locked_until : Option ℕ
  pub lock_id : Option ℕ
  pub published_at : Option ℕ
  pub last_error : Option ℕ
  pub created_at : ℕ

-- The committed state. Projections and settlements are keyed by their primary keys.
pub record LedgerDb : Type 0 where
  pub wallets : List Wallet
  pub events : List StoredEvent
  pub balances : Dict WalletBalanceProjection
  pub settlements : Dict LedgerTransferSettlement
  pub outbox : List OutboxMessage
  pub now : ℕ
