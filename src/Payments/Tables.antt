-- ===== src/Payments/Tables.antt =====
-- The tables of apps/payments-service: transfers, split bills with their shares, and the outbox. Ids
-- and instants are numbers; a `bigint` column, which the driver reads as its decimal text, is the
-- number that it stands for. A table is keyed by its primary key.
use p2p_ledger_starter.Common.{ℕ, Bool, Option, List}
use p2p_ledger_starter.Common.Dict.{Dict}
use p2p_ledger_starter.Common.Decimal.{Text}
use p2p_ledger_starter.Payments.TransferStatus.{TransferStatus}
use p2p_ledger_starter.Payments.SplitBillStatus.{SplitBillStatus}

-- `failureCode` and `failureMessage`: the codes and texts that the service writes, and those that the
-- ledger answers.
pub data FailureCode : Type 0 where
  unsupported_currency transfer_limit_exceeded receiver_blocked fx_quote_expired : FailureCode
  unexpected_saga_error saga_step_budget_exhausted : FailureCode
  ledger_code : Text → FailureCode

-- The errors that are no answer of the ledger.
pub data Unexpected : Type 0 where
  invalid_transition row_missing receiver_wallet_missing share_missing : Unexpected
  duplicate_event : Unexpected

pub data FailureMessage : Type 0 where
  currency_message limit_message blocked_message expired_message budget_message : FailureMessage
  unexpected_message : Unexpected → FailureMessage
  ledger_message : Text → FailureMessage

pub record Transfer : Type 0 where
  pub id : ℕ
  pub sender_user_id : ℕ
  pub sender_wallet_id : ℕ
  pub receiver_reference : Text
  pub receiver_wallet_id : Option ℕ
  pub split_bill_share_id : Option ℕ
  pub amount_minor : ℕ
  pub currency : Text
  pub destination_currency : Text
  pub destination_amount_minor : ℕ
  pub fx_rate_numerator : ℕ
  pub fx_rate_denominator : ℕ
  pub fx_display_rate : Text
  pub fx_quoted_at : ℕ
  pub fx_expires_at : ℕ
  pub status : TransferStatus
  pub idempotency_key : Text
  pub request_fingerprint : ℕ
  pub failure_code : Option FailureCode
  pub failure_message : Option FailureMessage
  pub retry_count : ℕ
  pub next_retry_at : Option ℕ
  pub hold_may_exist : Bool
  pub last_attempt_at : Option ℕ
  pub lease_owner : Option ℕ
  pub lease_until : Option ℕ
  pub version : ℕ
  pub created_at : ℕ
  pub updated_at : ℕ

pub record SplitBill : Type 0 where
  pub id : ℕ
  pub creator_user_id : ℕ
  pub creator_reference : Text
  pub total_minor : ℕ
  pub currency : Text
  pub deadline : Option ℕ
  pub created_at : ℕ
  pub updated_at : ℕ

pub record SplitBillShare : Type 0 where
  pub id : ℕ
  pub bill_id : ℕ
  pub participant_user_id : ℕ
  pub amount_minor : ℕ
  pub position : ℕ
  pub created_at : ℕ

pub data ReminderKind : Type 0 where
  overdue : ReminderKind

pub record SplitBillReminder : Type 0 where
  pub id : ℕ
  pub share_id : ℕ
  pub kind : ReminderKind
  pub event_id : ℕ
  pub created_at : ℕ

pub record TransferPayload : Type 0 where
  pub sender_user_id : ℕ
  pub sender_wallet_id : ℕ
  pub receiver_wallet_id : ℕ
  pub amount_minor : ℕ
  pub currency : Text
  pub destination_amount_minor : ℕ
  pub destination_currency : Text
  pub fx_rate : Text

pub record SharePayload : Type 0 where
  pub split_bill_id : ℕ
  pub share_id : ℕ
  pub transfer_id : ℕ
  pub participant_user_id : ℕ
  pub amount_minor : ℕ
  pub currency : Text
  pub bill_status : SplitBillStatus
  pub owner_id : ℕ

pub record CreatedPayload : Type 0 where
  pub owner_id : ℕ
  pub split_bill_id : ℕ
  pub share_id : ℕ
  pub creator_user_id : ℕ
  pub amount_minor : ℕ
  pub currency : Text
  pub deadline : Option ℕ

pub record OverduePayload : Type 0 where
  pub owner_id : ℕ
  pub split_bill_id : ℕ
  pub share_id : ℕ
  pub amount_minor : ℕ
  pub currency : Text
  pub deadline : Option ℕ

pub data PaymentPayload : Type 0 where
  completed_payload : TransferPayload → PaymentPayload
  share_payload : SharePayload → PaymentPayload
  created_payload : CreatedPayload → PaymentPayload
  overdue_payload : OverduePayload → PaymentPayload

pub data PaymentEventType : Type 0 where
  transfer_completed share_paid status_changed bill_created share_overdue : PaymentEventType

pub data RoutingKey : Type 0 where
  transfer_completed_v1 share_paid_v1 status_changed_v1 created_v1 share_overdue_v1 : RoutingKey

pub data AggregateType : Type 0 where
  transfer_aggregate split_bill_aggregate split_bill_share_aggregate : AggregateType

-- The trace headers of an event are left out.
pub record PaymentIntegrationEvent : Type 0 where
  pub event_id : ℕ
  pub event_type : PaymentEventType
  pub occurred_at : ℕ
  pub correlation_id : ℕ
  pub aggregate_type : AggregateType
  pub aggregate_id : ℕ
  pub aggregate_version : ℕ
  pub payload : PaymentPayload

pub record PaymentOutboxMessage : Type 0 where
  pub event_id : ℕ
  pub routing_key : RoutingKey
  pub event : PaymentIntegrationEvent
  pub attempts : ℕ
  pub available_at : ℕ
  pub locked_until : Option ℕ
  pub lock_id : Option ℕ
  pub published_at : Option ℕ
  pub last_error : Option ℕ
  pub created_at : ℕ

pub record PaymentsDb : Type 0 where
  pub transfers : Dict Transfer
  pub bills : Dict SplitBill
  pub shares : Dict SplitBillShare
  pub reminders : List SplitBillReminder
  pub outbox : List PaymentOutboxMessage
