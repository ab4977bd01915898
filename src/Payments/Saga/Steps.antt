-- ===== src/Payments/Saga/Steps.antt =====
-- The loop of transfer-saga.service.ts: the steps of each status, what becomes of an error, the claim
-- of a transfer, and the recovery of those that are due.
use p2p_ledger_starter.Payments.TransferPolicy.{validate_policy}
use p2p_ledger_starter.Payments.Tables.{
  unexpected_message, Unexpected, saga_step_budget_exhausted, unexpected_saga_error, budget_message,
  Transfer,
}
use p2p_ledger_starter.Payments.Saga.{
  unexpected, find_transfer, ask, schedule_retry, is_terminal, put_transfer, fail, fresh_step,
  SagaError, complete, ledger_failed, SagaConfig, lease_lost, transition_claimed, update_claimed,
}
use p2p_ledger_starter.Payments.LedgerGateway.{
  released, already_settled, ReleaseAnswer, LedgerCommandError, retryable, validate_asked,
  hold_asked, settle_asked, release_asked, terminal, LedgerFailureKind,
}
use p2p_ledger_starter.Payments.World.{
  Action, pure, throw, lift, modify, random_uuid, ◌>>=◌, ◌>>◌, handle, throwing_with,
}
use p2p_ledger_starter.Common.{
  ◌==◌, ℕ, zero, suc, ◌+◌, Bool, true, false, ◌&&◌, ◌||◌, not, Option, none, some, ok, ltb, leb,
  if◌then◌else◌,
}
use p2p_ledger_starter.Common.Dict.{lookup}
use p2p_ledger_starter.Payments.TransferStatus.{
  TransferStatus, pending, validating, funds_held, processing, completed, compensating, failed,
}

-- An error is thrown with the value that the variable `transfer` has then.
abbrev pub Step : Type 0 → Type 0
Step A = Action (SagaError × Transfer) A

-- The loop has returned, or goes on with a transfer.
pub data Progress : Type 0 where
  returned : Progress
  going : Transfer → Progress

abbrev pub and_go : Transfer → Action SagaError Transfer → Step Progress
and_go transfer m = throwing_with transfer m >>= λ next. pure (going next)

abbrev pub and_return : Transfer → Action SagaError (Unit {0}) → Step Progress
and_return transfer m = throwing_with transfer m >> pure returned

-- `this.policy?.validate(current, now)`
abbrev pub check_policy : SagaConfig → Transfer → ℕ → Action SagaError (Unit {0})
check_policy config transfer now w = elim config.policy [
  | none ↦ pure tt w
  | some policy ↦
      handle (lift (validate_policy policy transfer now)) (λ e. throw (ledger_failed e)) w
]

abbrev pub receiver_patch : ℕ → ℕ → Transfer → Transfer
receiver_patch receiver_wallet_id at row = record (fresh_step row) {
  receiver_wallet_id = some receiver_wallet_id;
  failure_code = none;
  failure_message = none;
}

abbrev pub resolve_unless : Option ℕ → SagaConfig → ℕ → Transfer → Action SagaError Transfer
resolve_unless (some _) config owner transfer = pure transfer
resolve_unless none config owner transfer =
    ask config config.ledger.validate validate_asked transfer >>= λ receiver.
    update_claimed config transfer owner (receiver_patch receiver)

unfoldable pub resolve_receiver : SagaConfig → ℕ → Transfer → Action SagaError Transfer
resolve_receiver config owner transfer =
    resolve_unless transfer.receiver_wallet_id config owner transfer

abbrev pub hold_patch : ℕ → Transfer → Transfer
hold_patch at row = record row { hold_may_exist = true; last_attempt_at = some at }

abbrev pub announce_unless : Bool → SagaConfig → ℕ → Transfer → Action SagaError Transfer
announce_unless true config owner transfer = pure transfer
announce_unless false config owner transfer = update_claimed config transfer owner hold_patch

-- The hold is announced in the row before the ledger is asked for it.
unfoldable pub announce_hold : SagaConfig → ℕ → Transfer → Action SagaError Transfer
announce_hold config owner transfer = announce_unless transfer.hold_may_exist config owner transfer

abbrev pub held_patch : ℕ → Transfer → Transfer
held_patch at row = record (fresh_step row) { last_attempt_at = some at }

unfoldable pub ask_hold : SagaConfig → ℕ → Transfer → Action SagaError Transfer
ask_hold config owner transfer =
    ask config config.ledger.place_hold hold_asked transfer
    >> transition_claimed config transfer owner funds_held held_patch

unfoldable pub step_validating : SagaConfig → ℕ → ℕ → Transfer → Step Progress
step_validating config owner now transfer = do
  throwing_with transfer (check_policy config transfer now)
  resolved ← throwing_with transfer (resolve_receiver config owner transfer)
  holding ← throwing_with resolved (announce_hold config owner resolved)
  and_go holding (ask_hold config owner holding)

unfoldable pub settle : SagaConfig → ℕ → Transfer → Action SagaError (Unit {0})
settle config owner transfer =
    ask config config.ledger.settle settle_asked transfer >> complete config transfer owner

abbrev pub end_release : SagaConfig → ℕ → Transfer → ReleaseAnswer → Action SagaError (Unit {0})
end_release config owner transfer already_settled = complete config transfer owner
end_release config owner transfer released = fail config transfer owner none

unfoldable pub compensate : SagaConfig → ℕ → Transfer → Action SagaError (Unit {0})
compensate config owner transfer =
    ask config config.ledger.release release_asked transfer >>= end_release config owner transfer

abbrev pub fresh_patch : ℕ → Transfer → Transfer
fresh_patch at row = fresh_step row

unfoldable pub step_pending : SagaConfig → ℕ → Transfer → Step Progress
step_pending config owner transfer =
    and_go transfer (transition_claimed config transfer owner validating fresh_patch)

unfoldable pub step_funds_held : SagaConfig → ℕ → Transfer → Step Progress
step_funds_held config owner transfer =
    and_go transfer (transition_claimed config transfer owner processing fresh_patch)

unfoldable pub step_processing : SagaConfig → ℕ → Transfer → Step Progress
step_processing config owner transfer = and_return transfer (settle config owner transfer)

unfoldable pub step_compensating : SagaConfig → ℕ → Transfer → Step Progress
step_compensating config owner transfer = and_return transfer (compensate config owner transfer)

unfoldable pub step_in : TransferStatus → SagaConfig → ℕ → ℕ → Transfer → Step Progress
step_in pending config owner now transfer = step_pending config owner transfer
step_in validating config owner now transfer = step_validating config owner now transfer
step_in funds_held config owner now transfer = step_funds_held config owner transfer
step_in processing config owner now transfer = step_processing config owner transfer
step_in compensating config owner now transfer = step_compensating config owner transfer
step_in completed config owner now transfer = pure (going transfer)
step_in failed config owner now transfer = pure (going transfer)

abbrev pub compensating_patch : LedgerCommandError → ℕ → Transfer → Transfer
compensating_patch failure at row = record (fresh_step row) {
  failure_code = some failure.code;
  failure_message = some failure.message;
}

abbrev is_retryable : LedgerFailureKind → Bool
is_retryable retryable = true
is_retryable terminal = false

-- Behind the statuses and attempts that are retried: a hold that may exist is released first.
unfoldable pub give_up : SagaConfig → ℕ → Transfer → LedgerCommandError → Action SagaError Progress
give_up config owner transfer failure w = elim transfer.hold_may_exist [
  | true ↦
      (transition_claimed config transfer owner compensating (compensating_patch failure)
          >>= λ next. pure (going next))
        w
  | false ↦ (fail config transfer owner (some failure) >> pure returned) w
]

abbrev is_compensating : TransferStatus → Bool
is_compensating compensating = true
is_compensating _ = false

abbrev pub should_retry : SagaConfig → Transfer → LedgerCommandError → Bool
should_retry config transfer failure =
    is_compensating transfer.status
    || (is_retryable failure.kind && ltb (transfer.retry_count + 1) config.max_step_attempts)

-- `handleFailure`: `'stop'` is `returned`.
unfoldable pub handle_failure :
    SagaConfig → ℕ → ℕ → Transfer → LedgerCommandError → Action SagaError Progress
handle_failure config owner now transfer failure w = elim (should_retry config transfer failure) [
  | true ↦ (schedule_retry config transfer owner failure now >> pure returned) w
  | false ↦ give_up config owner transfer failure w
]

-- `asLedgerError`
abbrev pub unexpected_error : Unexpected → LedgerCommandError
unexpected_error u = record {
  message = unexpected_message u;
  kind = retryable;
  code = unexpected_saga_error;
  ambiguous = true;
}

-- The `catch` of the loop.
unfoldable pub on_error : SagaConfig → ℕ → ℕ → SagaError × Transfer → Action SagaError Progress
on_error config owner now (lease_lost, transfer) = pure returned
on_error config owner now (ledger_failed failure, transfer) =
    handle_failure config owner now transfer failure
on_error config owner now (unexpected u, transfer) =
    handle_failure config owner now transfer (unexpected_error u)

abbrev pub go_on :
    Progress → (Transfer → Action SagaError (Option Transfer)) → Action SagaError (Option Transfer)
go_on returned k = pure none
go_on (going transfer) k = k transfer

-- The loop over its remaining steps; the transfer that is left when they are used up.
unfoldable pub run_steps : ℕ → SagaConfig → ℕ → ℕ → Transfer → Action SagaError (Option Transfer)
run_steps zero config owner now transfer w = pure (some transfer) w
run_steps (suc n) config owner now transfer w = elim (is_terminal transfer.status) [
  | true ↦ pure none w
  | false ↦
      (handle (step_in transfer.status config owner now transfer) (on_error config owner now)
          >>= λ progress. go_on progress (run_steps n config owner now))
        w
]

abbrev is_past : ℕ → Option ℕ → Bool
is_past now none = true
is_past now (some t) = ltb t now

abbrev is_reached : ℕ → Option ℕ → Bool
is_reached now none = true
is_reached now (some t) = leb t now

-- The `WHERE` of `claim` and of `recoverDue`.
abbrev pub is_due : ℕ → Transfer → Bool
is_due now row =
    not (is_terminal row.status)
    && (is_reached now row.next_retry_at && is_past now row.lease_until)

abbrev pub take_lease : SagaConfig → ℕ → ℕ → Transfer → Transfer
take_lease config owner now row = record row {
  lease_owner = some owner;
  lease_until = some (now + config.lease_ms);
}

-- The update of `claim`, with whether it has updated a row.
unfoldable pub claim_row : SagaConfig → ℕ → ℕ → ℕ → Action SagaError Bool
claim_row config id owner now w = elim (lookup id w.db.transfers) [
  | none ↦ pure false w
  | some row ↦
      if is_due now row && not (config.is_locked w id)
      then (ok true, put_transfer id (take_lease config owner now row) w)
      else pure false w
]

abbrev read_taken : SagaConfig → ℕ → Action SagaError (Option Transfer)
read_taken config id = modify config.arrive >> find_transfer id >>= λ transfer. pure (some transfer)

-- `raw.length === 0`
abbrev pub read_claimed : SagaConfig → ℕ → Bool → Action SagaError (Option Transfer)
read_claimed config id taken =
    if config.query_length taken == 0 then pure none else read_taken config id

unfoldable pub claim_transfer : SagaConfig → ℕ → ℕ → ℕ → Action SagaError (Option Transfer)
claim_transfer config id owner now =
    modify config.arrive >> claim_row config id owner now >>= read_claimed config id

abbrev pub budget_exhausted : LedgerCommandError
budget_exhausted = record {
  message = budget_message;
  kind = retryable;
  code = saga_step_budget_exhausted;
  ambiguous = true;
}

unfoldable pub end_steps : SagaConfig → ℕ → ℕ → Option Transfer → Action SagaError (Unit {0})
end_steps config owner now none = pure tt
end_steps config owner now (some transfer) =
    schedule_retry config transfer owner budget_exhausted now

unfoldable pub run_claimed : SagaConfig → ℕ → ℕ → Option Transfer → Action SagaError (Unit {0})
run_claimed config owner now none = pure tt
run_claimed config owner now (some transfer) =
    run_steps 8 config owner now transfer >>= end_steps config owner now

unfoldable pub run : SagaConfig → ℕ → ℕ → Action SagaError (Unit {0})
run config id now =
    random_uuid >>= λ owner. claim_transfer config id owner now >>= run_claimed config owner now
