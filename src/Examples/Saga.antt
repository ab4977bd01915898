-- ===== src/Examples/Saga.antt =====
-- A transfer that two workers meet: one runs while the other waits.
use p2p_ledger_starter.Payments.Saga.Liveness.{run-completes, IsDone}
use p2p_ledger_starter.Payments.Saga.Leases.{update_claimed-lost}
use p2p_ledger_starter.Payments.Saga.Completion.{IsAnswering}
use p2p_ledger_starter.Payments.TransferPolicy.{validate_policy, PolicyConfig, parse_currency}
use p2p_ledger_starter.Payments.Tables.{SplitBillShare, SplitBill, Transfer}
use p2p_ledger_starter.Payments.Saga.Steps.{
  fresh_patch, claim_transfer, ask_hold, run, handle_failure, compensate, announce_hold, step_in,
  step_validating, step_compensating, on_error, step_pending, step_processing, give_up, claim_row,
  step_funds_held, resolve_receiver, settle, end_steps, run_claimed, run_steps,
}
use p2p_ledger_starter.Payments.Saga.Safety.{run-forward, run_steps-ends, recover_due-is_sound}
use p2p_ledger_starter.Payments.Saga.Recovery.{sort_due, due_ids, run_each, insert_due, recover_due}
use p2p_ledger_starter.Payments.Saga.Guarantee.{run-Rely}
use p2p_ledger_starter.Payments.Saga.Evolution.{
  is_sound, implies, Evolves-refl, Follows-refl, Rely, Sound,
}
use p2p_ledger_starter.Payments.Saga.{
  put_transfer, lease_lost, fail, transition_using_manager, SagaConfig, update_claimed,
  transition_claimed, schedule_retry, complete, complete_in_transaction, ask,
}
use p2p_ledger_starter.Payments.OutboxEvents.{enqueue_transfer_completed, enqueue_split_share_paid}
use p2p_ledger_starter.Payments.LedgerGateway.{ReleaseAnswer, LedgerGateway}
use p2p_ledger_starter.Payments.World.{World}
use p2p_ledger_starter.Payments.TransferStatus.{
  validating, Run, assert_transfer_transition, pending,
}
use p2p_ledger_starter.Common.{
  inr, ℕ, ◌≤◌, ◌≡◌, ◌≢◌, refl, true, false, none, some, List, [], ◌∷◌, ok, err, is_some, some_of,
  some_of-some, arith,
}
use p2p_ledger_starter.Common.Dict.{lookup}

abbrev usd_text : List ℕ
usd_text = b'U' ∷ b'S' ∷ b'D' ∷ []

abbrev transfer : Transfer
transfer = record {
  id = 7;
  sender_user_id = 1;
  sender_wallet_id = 11;
  receiver_reference = b'b' ∷ [];
  receiver_wallet_id = none;
  split_bill_share_id = none;
  amount_minor = 500;
  currency = usd_text;
  destination_currency = usd_text;
  destination_amount_minor = 500;
  fx_rate_numerator = 1000000;
  fx_rate_denominator = 1000000;
  fx_display_rate = b'1' ∷ [];
  fx_quoted_at = 0;
  fx_expires_at = 900000;
  status = pending;
  idempotency_key = b'k' ∷ [];
  request_fingerprint = 3;
  failure_code = none;
  failure_message = none;
  retry_count = 0;
  next_retry_at = none;
  hold_may_exist = false;
  last_attempt_at = none;
  lease_owner = none;
  lease_until = none;
  version = 1;
  created_at = 0;
  updated_at = 0;
}

-- A ledger that does what it is asked.
abbrev ledger : LedgerGateway
ledger = record {
  validate = λ log t. ok 22;
  place_hold = λ log t. ok tt;
  settle = λ log t. ok tt;
  release = λ log t. ok ReleaseAnswer.released;
}

ledger-IsAnswering : IsAnswering ledger
ledger-IsAnswering = record {
  validates = λ log t. (22, refl);
  holds = λ log t. refl;
  settles = λ log t. refl;
}

abbrev policy : PolicyConfig
policy = record { maximum_minor = 1000000; blocked = []; to_lower = λ t. t }

abbrev alone : SagaConfig
alone = record {
  ledger = ledger;
  policy = some policy;
  max_step_attempts = 3;
  retry_base_ms = 1000;
  lease_ms = 30000;
  is_locked = λ w id. false;
  query_length = λ taken. 2;
  arrive = λ w. w;
}

alone-Rely : Rely alone.arrive
alone-Rely = record { at = λ w sound. (sound, Follows-refl w) }

-- Another worker recovers the transfer whenever this one waits.
abbrev contended : SagaConfig
contended = record alone { arrive = λ w. (run alone 7 90000 w).1 }

contended-Rely : Rely contended.arrive
contended-Rely = run-Rely alone alone-Rely 7 90000

abbrev start : World
start = record {
  db = record {
    transfers = (7, transfer) ∷ [];
    bills = [];
    shares = [];
    reminders = [];
    outbox = [];
  };
  log = [];
  clock = 50;
  next_id = 100;
}

start-sound_at :
    (id : ℕ) (row : Transfer)
    → lookup id start.db.transfers ≡ some row
    → is_sound start id row ≡ true
start-sound_at id row found = ground arith

start-Sound : Sound start
start-Sound = record { at = λ id row found. start-sound_at id row found }

recovered_some : is_some (lookup 7 (recover_due contended 10 50 start).1.db.transfers) ≡ true
unfolding recover_due run_each due_ids sort_due insert_due run run_claimed end_steps claim_transfer
    claim_row run_steps step_in step_pending step_validating step_funds_held step_processing
    step_compensating resolve_receiver announce_hold ask_hold settle compensate ask update_claimed
    transition_using_manager transition_claimed complete_in_transaction complete fail schedule_retry
    on_error handle_failure give_up validate_policy parse_currency enqueue_transfer_completed
    enqueue_split_share_paid assert_transfer_transition
recovered_some = refl

recover_due-is_sound_example :
    is_sound
      (recover_due contended 10 50 start).1
      7
      (some_of (lookup 7 (recover_due contended 10 50 start).1.db.transfers) recovered_some)
    ≡ true
recover_due-is_sound_example =
    recover_due-is_sound contended 10 50 start contended-Rely start-Sound 7
      (some_of (lookup 7 (recover_due contended 10 50 start).1.db.transfers) recovered_some)
      (some_of-some (lookup 7 (recover_due contended 10 50 start).1.db.transfers) recovered_some)

run-forward_example :
    (later : Transfer) × (lookup 7 (run contended 7 10 start).1.db.transfers ≡ some later)
    × (later.id ≡ 7)
    × (1 ≤ later.version)
    × (implies false later.hold_may_exist ≡ true)
    × ((n : ℕ) × Run pending n later.status)
run-forward_example = run-forward contended 7 10 start contended-Rely start-Sound 7 transfer refl

run_steps-ends_example : (run_steps 8 contended 100 10 transfer start).0 ≢ ok (some transfer)
run_steps-ends_example =
    run_steps-ends contended 100 10 transfer start contended-Rely start-Sound
      (transfer, refl, Evolves-refl transfer) transfer

-- A transfer that pays the share of a bill.
abbrev paying : Transfer
paying = record transfer { split_bill_share_id = some 41 }

abbrev paid_bill : SplitBill
paid_bill = record {
  id = 40;
  creator_user_id = 2;
  creator_reference = b'b' ∷ [];
  total_minor = 500;
  currency = usd_text;
  deadline = none;
  created_at = 5;
  updated_at = 5;
}

abbrev paid_share : SplitBillShare
paid_share = record {
  id = 41;
  bill_id = 40;
  participant_user_id = 1;
  amount_minor = 500;
  position = 0;
  created_at = 5;
}

abbrev bill_world : World
bill_world = record start {
  db = record start.db {
    transfers = (7, paying) ∷ [];
    bills = (40, paid_bill) ∷ [];
    shares = (41, paid_share) ∷ [];
  };
}

run-completes_example : (last : World) × (run alone 7 10 bill_world ≡ (ok tt, last)) × IsDone 7 last
unfolding validate_policy parse_currency
run-completes_example =
    run-completes alone policy 7 10 paying bill_world (λ u. refl) (λ u. refl)
      (λ e. omega (arith, e)) ledger-IsAnswering refl refl refl refl refl refl
      (paid_share, paid_bill, refl, refl, refl) (λ i le. refl)

-- The transfer as another worker has it by now.
abbrev taken : Transfer
taken = record transfer { lease_owner = some 101; lease_until = some 30010 }

abbrev taken_world : World
taken_world = put_transfer 7 taken start

update_claimed-lost_example :
    (update_claimed alone transfer 100 fresh_patch taken_world ≡ (err lease_lost, taken_world))
    × (transition_claimed alone transfer 100 validating fresh_patch taken_world
        ≡ (err lease_lost, taken_world))
unfolding assert_transfer_transition
update_claimed-lost_example =
    update_claimed-lost alone transfer taken 100 validating fresh_patch taken_world refl
      (inr (λ e. ground arith)) refl
