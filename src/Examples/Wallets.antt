-- ===== src/Examples/Wallets.antt =====
-- Runs of the aggregate and of the event store.
use p2p_ledger_starter.Ledger.Wallets.Projection.{project-IsValid}
use p2p_ledger_starter.Ledger.Wallets.Decided.{
  replay_from_ends_hold, place_hold-row, deposit-row, withdraw-row, active_hold-row,
}
use p2p_ledger_starter.Ledger.Wallets.Commit.{row_of}
use p2p_ledger_starter.Ledger.Wallets.{projection_from_aggregate, project, wallet_aggregate_type}
use p2p_ledger_starter.Ledger.Transaction.Postings.{read_postings-IsBalanced, IsBalanced}
use p2p_ledger_starter.Ledger.Transaction.Amounts.{parse_minor_units-minor_text}
use p2p_ledger_starter.Ledger.Transaction.{
  total_from, read_entries, minor_text, assert_balanced_postings, read_postings, parse_minor_units,
}
use p2p_ledger_starter.Ledger.Fault.{insufficient_funds}
use p2p_ledger_starter.Ledger.EventStore.Streams.{IsGapless, load_stream_all}
use p2p_ledger_starter.Ledger.EventStore.Concurrency.{append-Appended}
use p2p_ledger_starter.Ledger.EventStore.Appending.{Appended}
use p2p_ledger_starter.Ledger.EventStore.{
  append_using_manager, latest, create_rows, stream, load_stream, AppendToStreamRequest,
  insert_rows, append_within_transaction, validate_events, sort_by_version, validate_append_request,
  find_between, insert_by_version,
}
use p2p_ledger_starter.Ledger.Event.{
  hold_released, external_clearing_account, wallet_account, StoredEvent, Posting, EventData,
}
use p2p_ledger_starter.Ledger.Aggregate.Soundness.{rehydrate-IsValid}
use p2p_ledger_starter.Ledger.Aggregate.Replay.{
  wallet_postings, with_hold, apply, apply_funds_held, read_hold_id, apply_created, replay_from,
  rehydrate, apply_hold_consumed, read_hold_payload, apply_hold_released, apply_money,
}
use p2p_ledger_starter.Ledger.Aggregate.Lifecycle.{replay_from_keeps_hold}
use p2p_ledger_starter.Ledger.Aggregate.Invariant.{IsValid}
use p2p_ledger_starter.Ledger.Aggregate.Holds.{after_consumption}
use p2p_ledger_starter.Ledger.Aggregate.Decisions.{after_posting}
use p2p_ledger_starter.Ledger.Aggregate.Accounting.{rehydrate-posted, posted_sum}
use p2p_ledger_starter.Ledger.Aggregate.{
  released, active, release_hold, event_data, deposit, active_amount, held_minor, held_from,
  place_hold, available_minor, withdraw, consume_hold, blank_payload, WalletAggregate,
}
use p2p_ledger_starter.Examples.Data.{
  hold_of, first_wallet-rehydrate, first_stream, second_created, two_wallets, two_wallets-IsGapless,
  first_wallet, first_deposited,
}
use p2p_ledger_starter.Common.{
  ◌≢◌, length, ok, err, ℕ, ◌≡◌, refl, some, List, [], ◌∷◌, ◌++◌, arith, ◌⊎◌,
}
use p2p_ledger_starter.Common.Int.{◌-ℤ◌, ◌≤ℤ◌, pos, negsuc, ◌+ℤ◌, neg}
use p2p_ledger_starter.Common.Dict.{insert, lookup}
use p2p_ledger_starter.Common.Decimal.{parse_natural, digits_value}

abbrev first_created_only : WalletAggregate
first_created_only = record {
  id = 1;
  version = 1;
  owner_id = some 10;
  currency = some 840;
  balance_minor = pos 0;
  holds = [];
}

rehydrate-IsValid_example :
    IsValid (first_wallet active) × (3 ≡ length first_stream) × (◌≡◌ {A = ℕ} 1 1)
rehydrate-IsValid_example = rehydrate-IsValid 1 first_stream first_wallet-rehydrate

rehydrate-posted_example : pos 10000 ≡ posted_sum 1 first_stream
rehydrate-posted_example = rehydrate-posted 1 first_stream first_wallet-rehydrate

-- A deposit of 5.00 behind the release of the hold.
abbrev second_deposited : StoredEvent
second_deposited = record first_deposited { event_id = 905; stream_version = 4 }

deposited_later :
    (w' : WalletAggregate) × (replay_from (first_wallet released) (second_deposited ∷ []) ≡ ok w')
unfolding rehydrate replay_from apply apply_created apply_money apply_funds_held apply_hold_released
    apply_hold_consumed read_hold_id read_hold_payload wallet_postings read_postings read_entries
    assert_balanced_postings total_from parse_minor_units parse_natural digits_value ◌+ℤ◌ ◌-ℤ◌ neg
    held_minor held_from active_amount available_minor
deposited_later = (record (first_wallet released) { version = 4; balance_minor = pos 20000 }, refl)

replay_from_keeps_hold_example : lookup 7 deposited_later.0.holds ≡ some (hold_of 3000 released)
replay_from_keeps_hold_example =
    replay_from_keeps_hold (first_wallet released) (second_deposited ∷ []) 7 (hold_of 3000 released)
      deposited_later.1 (omega arith) refl (λ e. cc)

deposit-row_example :
    (d : EventData) × (deposit (first_wallet active) (pos 500) 906 802 ≡ ok d)
    × (apply (first_wallet active) (row_of 1 3 d 2000)
        ≡ ok (after_posting (first_wallet active) (pos 500)))
deposit-row_example =
    deposit-row (first_wallet active) (pos 500) 906 802 1 2000 rehydrate-IsValid_example.0
      (omega arith)

withdraw-row_example :
    ((d : EventData) × (pos 7001 ≤ℤ available_minor (first_wallet active))
      × (withdraw (first_wallet active) (pos 7001) 906 802 ≡ ok d)
      × (apply (first_wallet active) (row_of 1 3 d 2000)
          ≡ ok (after_posting (first_wallet active) (neg (pos 7001)))))
    ⊎ ((available_minor (first_wallet active) +ℤ pos 1 ≤ℤ pos 7001)
        × (withdraw (first_wallet active) (pos 7001) 906 802 ≡ err insufficient_funds))
withdraw-row_example = withdraw-row (first_wallet active) (pos 7001) 906 802 1 2000 (omega arith)

place_hold-row_example :
    (d : EventData) × (place_hold (first_wallet active) 8 (pos 7000) 906 ≡ ok (some d))
    × (apply (first_wallet active) (row_of 1 3 d 2000)
        ≡ ok (with_hold (first_wallet active) 4 8 (hold_of 7000 active)))
unfolding available_minor held_minor held_from active_amount ◌+ℤ◌ ◌-ℤ◌
place_hold-row_example =
    place_hold-row (first_wallet active) 8 (pos 7000) 906 1 2000 (omega arith) refl (omega arith)
      (omega arith)

active_hold-row_example :
    (d : EventData) × (d' : EventData) × (release_hold (first_wallet active) 7 906 ≡ ok (some d))
    × (apply (first_wallet active) (row_of 1 3 d 2000)
        ≡ ok (with_hold (first_wallet active) 4 7 (hold_of 3000 released)))
    × (consume_hold (first_wallet active) 7 906 802 ≡ ok (some d'))
    × (apply (first_wallet active) (row_of 1 3 d' 2000)
        ≡ ok (after_consumption (first_wallet active) 7 (hold_of 3000 active)))
active_hold-row_example =
    active_hold-row (first_wallet active) 7 906 802 1 2000 (omega arith) (omega arith) refl refl

abbrev deposited_postings : List Posting
deposited_postings =
    record { account_id = wallet_account 1; amount_minor = b'1' ∷ b'0' ∷ b'0' ∷ b'0' ∷ b'0' ∷ [] }
    ∷ record {
      account_id = external_clearing_account;
      amount_minor = b'-' ∷ b'1' ∷ b'0' ∷ b'0' ∷ b'0' ∷ b'0' ∷ [];
    }
    ∷ []

deposited_postings-read : read_postings first_deposited.payload ≡ ok deposited_postings
unfolding rehydrate replay_from apply apply_created apply_money apply_funds_held apply_hold_released
    apply_hold_consumed read_hold_id read_hold_payload wallet_postings read_postings read_entries
    assert_balanced_postings total_from parse_minor_units parse_natural digits_value ◌+ℤ◌ ◌-ℤ◌ neg
    held_minor held_from active_amount available_minor
deposited_postings-read = refl

read_postings-IsBalanced_example : IsBalanced deposited_postings
read_postings-IsBalanced_example =
    read_postings-IsBalanced first_deposited.payload deposited_postings deposited_postings-read

parse_minor_units-minor_text_example : parse_minor_units (minor_text (negsuc 41)) ≡ ok (negsuc 41)
parse_minor_units-minor_text_example = parse_minor_units-minor_text (negsuc 41)

load_stream_all_example : load_stream 1 1 two_wallets.events ≡ ok (stream 1 two_wallets.events)
load_stream_all_example = load_stream_all 1 two_wallets.events (omega arith) two_wallets-IsGapless

-- An append to the first wallet, with the event of the second wallet committed behind its read.
abbrev released_event : EventData
released_event = event_data 907 hold_released 1 (record blank_payload { hold_id = some 7 })

abbrev append_release : AppendToStreamRequest
append_release = record {
  stream_id = 1;
  aggregate_type = wallet_aggregate_type;
  expected_version = 3;
  events = released_event ∷ [];
}

first_stream-IsGapless : IsGapless first_stream
first_stream-IsGapless s = ground arith

released_appended :
    (p : List StoredEvent × List StoredEvent) × (append_within_transaction append_release 2000
        first_stream
        (first_stream ++ (second_created ∷ []))
      ≡ ok p)
unfolding append_within_transaction append_using_manager validate_append_request validate_events
    latest insert_rows create_rows find_between sort_by_version insert_by_version
released_appended = (_, refl)

append-Appended_example :
    Appended append_release 2000
      (first_stream ++ (second_created ∷ []))
      released_appended.0.0
      released_appended.0.1
    × IsGapless released_appended.0.0
append-Appended_example =
    append-Appended append_release 2000 first_stream (second_created ∷ []) first_stream-IsGapless
      two_wallets-IsGapless released_appended.1

replay_from_ends_hold_example :
    (place_hold deposited_later.0 7 (pos 3000) 907 ≢ ok (some (released_event)))
    × (release_hold deposited_later.0 7 907 ≢ ok (some (released_event)))
    × (consume_hold deposited_later.0 7 907 803 ≢ ok (some (released_event)))
replay_from_ends_hold_example =
    replay_from_ends_hold (first_wallet released) (second_deposited ∷ []) deposited_later.0 7
      (pos 3000) 907 803 released_event (hold_of 3000 released) deposited_later.1 (omega arith) refl
      (λ e. cc)

project-IsValid_example :
    project (first_wallet active) two_wallets
    ≡ ok (
      projection_from_aggregate (first_wallet active),
      record two_wallets {
        balances = insert 1 (projection_from_aggregate (first_wallet active)) two_wallets.balances;
      },
    )
project-IsValid_example =
    project-IsValid (first_wallet active) two_wallets rehydrate-IsValid_example.0 (omega arith)
