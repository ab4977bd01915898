-- ===== src/Examples/Service.antt =====
-- Runs of the wallets service: a withdrawal, and the settlement of the transfer that the hold is for.
use p2p_ledger_starter.Ledger.Wallets.Accounts.Opening.{open_wallet-Opened, Opened}
use p2p_ledger_starter.Ledger.Wallets.Accounts.{save_projection, save_wallet, open_wallet}
use p2p_ledger_starter.Ledger.Wallets.Settlement.Settled.{
  Settled, IsLater, settle_in_transaction-Settled,
}
use p2p_ledger_starter.Ledger.Wallets.Settlement.Receipts.{
  settle_transfer_again, settle_transfer_differs,
}
use p2p_ledger_starter.Ledger.Wallets.Settlement.{
  receipt_of, settle_transfer, SettledViews, SettleRequest, SettleCommand, SettleMoments,
  finish_settlement, read_settlement_wallets, write_settlement, settle_in_transaction,
  settle_request, read_wallet_view, prepare_settlement, project_event, insert_receipt,
  settled_views,
}
use p2p_ledger_starter.Ledger.Wallets.Retries.{IsOrdered, execute_money_command-Committed}
use p2p_ledger_starter.Ledger.Wallets.Money.{Covered, posted_amount}
use p2p_ledger_starter.Ledger.Wallets.Effect.{Committed}
use p2p_ledger_starter.Ledger.Wallets.Commands.{
  release, execute_hold_command_attempt, withdraw_money, execute_money_command,
  execute_money_command_attempt, Moments, commit_event,
}
use p2p_ledger_starter.Ledger.Wallets.{
  project, to_view, to_positive_minor_units, enqueue_wallet_event, check_projection, append_event,
  with_retries, load_aggregate, find_wallet, projection_from_aggregate, WalletView,
  assert_aggregate_identity,
}
use p2p_ledger_starter.Ledger.Transaction.{
  assert_balanced_postings, create_ledger_transaction, format_minor_units, read_entries, minor_text,
  amount_to_minor_units, parse_minor_units, read_postings, integer, total_from,
}
use p2p_ledger_starter.Ledger.Tables.{Wallet, LedgerDb}
use p2p_ledger_starter.Ledger.Fault.{conflict, Fault, settlement_differs}
use p2p_ledger_starter.Ledger.EventStore.{
  latest, load_stream, find_between, validate_events, append_within_transaction,
  append_using_manager, create_rows, sort_by_version, validate_append_request, insert_by_version,
  insert_rows,
}
use p2p_ledger_starter.Ledger.Aggregate.Replay.{
  apply_hold_released, apply, read_hold_payload, replay_from, apply_funds_held, wallet_postings,
  apply_hold_consumed, apply_money, read_hold_id, apply_created, rehydrate,
}
use p2p_ledger_starter.Ledger.Aggregate.Decisions.{after_posting}
use p2p_ledger_starter.Ledger.Aggregate.{
  created_event, WalletAggregate, available_minor, held_minor, consume_hold, held_from, consumed,
  withdraw, transaction_payload, deposit, released, money_event, active_amount,
}
use p2p_ledger_starter.Examples.Data.{first_wallet, two_wallets-IsGapless, two_wallets}
use p2p_ledger_starter.Common.{
  false, Result, is_ok, value_of, value_of-ok, err, ok, ℕ, ◌≤◌, ◌≡◌, ◌≢◌, refl, sym, ap, true, some,
  [], ◌∷◌, append-nil, arith,
}
use p2p_ledger_starter.Common.Int.{◌-ℤ◌, ◌+ℤ◌, pos, neg, ◌≤ℤ◌, ℤ}
use p2p_ledger_starter.Common.Decimal.{
  pad_start, digits_value, natural_text, digits_before, parse_natural,
}

-- A withdrawal of 50.00, whose attempts all meet the same database.
abbrev now_only : ℕ → Moments
now_only n = record { seen = two_wallets; mid = two_wallets.events; db = two_wallets }

abbrev withdrawal : Result Fault (WalletView × LedgerDb)
withdrawal = execute_money_command now_only 1 10 (integer (pos 5000)) withdraw_money 908 803

withdrawal_done : is_ok withdrawal ≡ true
unfolding execute_money_command execute_money_command_attempt with_retries to_positive_minor_units
    amount_to_minor_units find_wallet load_aggregate load_stream assert_aggregate_identity withdraw
    deposit money_event transaction_payload create_ledger_transaction minor_text natural_text
    digits_before commit_event append_event append_within_transaction append_using_manager
    validate_append_request validate_events latest insert_rows create_rows find_between
    sort_by_version insert_by_version enqueue_wallet_event project projection_from_aggregate
    check_projection to_view format_minor_units pad_start rehydrate replay_from apply apply_created
    apply_money apply_funds_held apply_hold_released apply_hold_consumed read_hold_id
    read_hold_payload wallet_postings read_postings read_entries assert_balanced_postings total_from
    parse_minor_units parse_natural digits_value ◌+ℤ◌ ◌-ℤ◌ neg held_minor held_from active_amount
    available_minor
withdrawal_done = refl

now_only-IsOrdered : (n : ℕ) → IsOrdered (now_only n)
now_only-IsOrdered n = record {
  between = [];
  more = [];
  since_seen = sym (append-nil two_wallets.events);
  since_mid = sym (append-nil two_wallets.events);
  gapless_seen = two_wallets-IsGapless;
  gapless_mid = two_wallets-IsGapless;
  gapless_db = two_wallets-IsGapless;
}

execute_money_command-Committed_example :
    (n : ℕ) × (a : ℤ) × (w : WalletAggregate) × (1 ≤ n)
    × (n ≤ 25)
    × (to_positive_minor_units (integer (pos 5000)) ≡ ok a)
    × (pos 1 ≤ℤ a)
    × Covered withdraw_money w a
    × Committed 1 w
        (after_posting w (posted_amount withdraw_money a))
        two_wallets
        (value_of withdrawal withdrawal_done).1
execute_money_command-Committed_example =
    execute_money_command-Committed now_only 1 10 (integer (pos 5000)) withdraw_money 908 803
      now_only-IsOrdered (value_of-ok withdrawal withdrawal_done)

-- 30.00 are settled for 27.60 in the other currency.
abbrev settle_command : SettleCommand
settle_command = record {
  sender_wallet_id = 1;
  sender_user_id = 10;
  receiver_wallet_id = 2;
  amount = integer (pos 3000);
  currency = 840;
  target_currency = some 978;
  destination_amount = some (integer (pos 2760));
}

abbrev transfer_7 : SettleRequest
transfer_7 = record {
  transfer_id = 7;
  command = settle_command;
  amount_minor = pos 3000;
  destination_amount_minor = pos 2760;
  destination_currency = 978;
}

abbrev settle_now : SettleMoments
settle_now = record {
  before = two_wallets;
  seen = two_wallets;
  mid₁ = two_wallets.events;
  mid₂ = two_wallets.events;
  db = two_wallets;
}

settle_now-IsLater : IsLater settle_now
settle_now-IsLater = record {
  later = [];
  more₁ = [];
  more₂ = [];
  since_seen = sym (append-nil two_wallets.events);
  since_mid₁ = sym (append-nil two_wallets.events);
  since_mid₂ = sym (append-nil two_wallets.events);
  gapless_seen = two_wallets-IsGapless;
  gapless_mid₁ = two_wallets-IsGapless;
  gapless_mid₂ = two_wallets-IsGapless;
  gapless_db = two_wallets-IsGapless;
}

abbrev settlement : Result Fault (SettledViews × LedgerDb)
settlement = settle_in_transaction settle_now transfer_7 909 910

settlement_done : is_ok settlement ≡ true
unfolding settle_in_transaction prepare_settlement write_settlement finish_settlement project_event
    settled_views insert_receipt consume_hold execute_money_command_attempt with_retries
    to_positive_minor_units amount_to_minor_units find_wallet load_aggregate load_stream
    assert_aggregate_identity withdraw deposit money_event transaction_payload
    create_ledger_transaction minor_text natural_text digits_before commit_event append_event
    append_within_transaction append_using_manager validate_append_request validate_events latest
    insert_rows create_rows find_between sort_by_version insert_by_version enqueue_wallet_event
    project projection_from_aggregate check_projection to_view format_minor_units pad_start
    rehydrate replay_from apply apply_created apply_money apply_funds_held apply_hold_released
    apply_hold_consumed read_hold_id read_hold_payload wallet_postings read_postings read_entries
    assert_balanced_postings total_from parse_minor_units parse_natural digits_value ◌+ℤ◌ ◌-ℤ◌ neg
    held_minor held_from active_amount available_minor
settlement_done = refl

settle_in_transaction-Settled_example :
    Settled transfer_7 two_wallets (value_of settlement settlement_done).1
settle_in_transaction-Settled_example =
    settle_in_transaction-Settled settle_now transfer_7 909 910 settle_now-IsLater (omega arith)
      (omega arith) refl (value_of-ok settlement settlement_done)

-- The database once transfer 7 has its receipt and both wallets their projections.
abbrev settled_db : LedgerDb
settled_db = record two_wallets {
  balances =
      (1, projection_from_aggregate (first_wallet consumed))
      ∷ (2, projection_from_aggregate (first_wallet released))
      ∷ [];
  settlements = (7, receipt_of transfer_7) ∷ [];
}

abbrev settled_moments : ℕ → SettleMoments
settled_moments n = record settle_now { before = settled_db; seen = settled_db; db = settled_db }

abbrev fresh_ids : ℕ → ℕ × ℕ
fresh_ids n = (909, 910)

abbrev read_back : Result Fault SettledViews
read_back = read_settlement_wallets settled_db (receipt_of transfer_7)

read_back_done : is_ok read_back ≡ true
unfolding read_settlement_wallets read_wallet_view execute_money_command_attempt with_retries
    to_positive_minor_units amount_to_minor_units find_wallet load_aggregate load_stream
    assert_aggregate_identity withdraw deposit money_event transaction_payload
    create_ledger_transaction minor_text natural_text digits_before commit_event append_event
    append_within_transaction append_using_manager validate_append_request validate_events latest
    insert_rows create_rows find_between sort_by_version insert_by_version enqueue_wallet_event
    project projection_from_aggregate check_projection to_view format_minor_units pad_start
    rehydrate replay_from apply apply_created apply_money apply_funds_held apply_hold_released
    apply_hold_consumed read_hold_id read_hold_payload wallet_postings read_postings read_entries
    assert_balanced_postings total_from parse_minor_units parse_natural digits_value ◌+ℤ◌ ◌-ℤ◌ neg
    held_minor held_from active_amount available_minor
read_back_done = refl

settle_request-transfer_7 : settle_request 7 settle_command ≡ ok transfer_7
unfolding settle_request to_positive_minor_units amount_to_minor_units
settle_request-transfer_7 = refl

settle_transfer_again_example :
    settle_transfer settled_moments fresh_ids 7 settle_command
    ≡ ok (value_of read_back read_back_done, settled_db)
settle_transfer_again_example =
    settle_transfer_again settled_moments fresh_ids 7 settle_command transfer_7
      settle_request-transfer_7 refl (value_of-ok read_back read_back_done)

-- The same transfer for another amount.
abbrev other_command : SettleCommand
other_command = record settle_command { destination_amount = some (integer (pos 2761)) }

abbrev other_transfer_7 : SettleRequest
other_transfer_7 = record transfer_7 {
  command = other_command;
  destination_amount_minor = pos 2761;
}

settle_request-other : settle_request 7 other_command ≡ ok other_transfer_7
unfolding settle_request to_positive_minor_units amount_to_minor_units
settle_request-other = refl

other-ne : receipt_of transfer_7 ≢ receipt_of other_transfer_7
unfolding minor_text natural_text digits_before
other-ne e = let texts = ap (λ s. s.destination_amount_minor) e in ground arith

settle_transfer_differs_example :
    settle_transfer settled_moments fresh_ids 7 other_command ≡ err (conflict settlement_differs)
settle_transfer_differs_example =
    settle_transfer_differs settled_moments fresh_ids 7 other_command other_transfer_7
      (receipt_of transfer_7) settle_request-other refl other-ne refl

-- The hold of 30.00 is released.
abbrev release_7 : Result Fault (WalletView × LedgerDb)
release_7 =
    execute_hold_command_attempt two_wallets two_wallets.events two_wallets 1 10 7 (release false)
      911 804

-- A third wallet is opened.
abbrev third_wallet : Wallet
third_wallet = record { id = 3; owner_id = 30; currency = 980 }

abbrev opening : Result Fault (WalletView × LedgerDb)
opening = open_wallet third_wallet 912 two_wallets.events two_wallets

opening_done : is_ok opening ≡ true
unfolding open_wallet save_wallet save_projection created_event execute_money_command_attempt
    with_retries to_positive_minor_units amount_to_minor_units find_wallet load_aggregate
    load_stream assert_aggregate_identity withdraw deposit money_event transaction_payload
    create_ledger_transaction minor_text natural_text digits_before commit_event append_event
    append_within_transaction append_using_manager validate_append_request validate_events latest
    insert_rows create_rows find_between sort_by_version insert_by_version enqueue_wallet_event
    project projection_from_aggregate check_projection to_view format_minor_units pad_start
    rehydrate replay_from apply apply_created apply_money apply_funds_held apply_hold_released
    apply_hold_consumed read_hold_id read_hold_payload wallet_postings read_postings read_entries
    assert_balanced_postings total_from parse_minor_units parse_natural digits_value ◌+ℤ◌ ◌-ℤ◌ neg
    held_minor held_from active_amount available_minor
opening_done = refl

open_wallet-Opened_example : Opened third_wallet two_wallets (value_of opening opening_done).1
open_wallet-Opened_example =
    open_wallet-Opened third_wallet 912 two_wallets.events [] two_wallets
      (sym (append-nil two_wallets.events)) two_wallets-IsGapless two_wallets-IsGapless
      (value_of-ok opening opening_done)
