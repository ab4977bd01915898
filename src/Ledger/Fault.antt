-- ===== src/Ledger/Fault.antt =====
-- What apps/ledger-service/src throws: one constructor for each `throw`, without the message's text.
use p2p_ledger_starter.Common.{ℕ, Option}

pub data Fault : Type 0 where
  -- ledger/domain/ledger-transaction.ts
  too_few_postings unbalanced_postings zero_amount no_postings invalid_posting : Fault
  invalid_minor_units amount_out_of_range : Fault
  -- wallets/domain/wallet.aggregate.ts, commands
  insufficient_funds invalid_hold_amount hold_conflict hold_not_found : Fault
  hold_already_consumed hold_already_released : Fault
  -- wallets/domain/wallet.aggregate.ts, `apply`
  version_gap unsupported_schema invalid_wallet_created not_one_wallet_posting : Fault
  spends_reserved_funds invalid_funds_held invalid_hold_released invalid_hold_consumed : Fault
  settlement_mismatch unsupported_event_type invalid_hold_id invalid_hold_payload : Fault
  -- event-store/event-store.errors.ts and the checks of event-store.service.ts
  expected_stream_version : ℕ → ℕ → Option ℕ → Fault
  duplicate_event_id : Option ℕ → Fault
  stream_aggregate_type : ℕ → ℕ → ℕ → Fault
  stream_and_type_required no_events event_and_type_required bad_schema_version : Fault
  stream_id_required bad_from_version : Fault
  -- a `QueryFailedError` of an insert into `ledger_events`, by its constraint
  event_id_constraint stream_version_constraint check_constraint : Fault
  -- wallets/wallets.service.ts; a Nest exception is its status around its cause
  bad_request not_found conflict : Fault → Fault
  non_positive_amount wallet_missing identity_mismatch projection_missing : Fault
  sender_missing receiver_missing same_wallet transfer_wallet_missing : Fault
  transfer_hold_missing transfer_amount_differs consumed_without_receipt : Fault
  settlement_differs hold_amount_required retries_exhausted : Fault
  wallet_not_persistent : Fault
  -- the first element of an empty result, and another table's constraints
  no_row unique_violation projection_check value_out_of_range settlement_check : Fault
