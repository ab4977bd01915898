-- ===== src/Payments/Saga.antt =====
-- apps/payments-service/src/transfers/transfer-saga.service.ts: a worker that takes the lease of a
-- transfer, drives it through the ledger, and retries, compensates or completes it. What other workers
-- do while this one waits is `arrive`, which takes place before each statement and each call.
pub mod Steps
pub mod Evolution
pub mod Updates
pub mod Ensures
pub mod Claimed
pub mod Transitions
pub mod Announcing
pub mod Endings
pub mod Asking
pub mod Failures
pub mod Progressing
pub mod Guarantee
pub mod Recovery
pub mod Safety
pub mod Success
pub mod Paying
pub mod Completion
pub mod Liveness
pub mod Leases
use p2p_ledger_starter.Payments.TransferPolicy.{PolicyConfig}
use p2p_ledger_starter.Payments.Tables.{row_missing, Transfer, invalid_transition, Unexpected}
use p2p_ledger_starter.Payments.OutboxEvents.{enqueue_split_share_paid, enqueue_transfer_completed}
use p2p_ledger_starter.Payments.LedgerGateway.{Exchange, LedgerCommandError, LedgerGateway}
use p2p_ledger_starter.Payments.World.{
  World, Action, pure, throw, lift, gets, modify, random_uuid, ◌>>=◌, ◌>>◌, handle, throwing_with,
  transaction,
}
use p2p_ledger_starter.Common.{
  ℕ, zero, suc, ◌+◌, ◌-◌, ◌*◌, Bool, true, false, ◌&&◌, ◌||◌, not, Option, none, some, List, ◌∷◌,
  Result, ok, err, ltb, leb, ◌==◌, if◌then◌else◌,
}
use p2p_ledger_starter.Common.Dict.{lookup, insert}
use p2p_ledger_starter.Payments.TransferStatus.{
  TransferStatus, pending, validating, funds_held, processing, completed, compensating, failed,
  index, assert_transfer_transition,
}

-- `arrive` is what others do to the world, `is_locked` tells the rows that others hold; `query_length` is
-- the length of what the driver's `query` returns for an update, which has a row or has none.
pub record SagaConfig : Type 0 where
  pub ledger : LedgerGateway
  pub policy : Option PolicyConfig
  pub max_step_attempts : ℕ
  pub retry_base_ms : ℕ
  pub lease_ms : ℕ
  pub is_locked : World → ℕ → Bool
  pub query_length : Bool → ℕ
  pub arrive : World → World

pub data SagaError : Type 0 where
  ledger_failed : LedgerCommandError → SagaError
  unexpected : Unexpected → SagaError
  lease_lost : SagaError

abbrev pub is_terminal : TransferStatus → Bool
is_terminal completed = true
is_terminal failed = true
is_terminal _ = false

abbrev pub is_owned_by : ℕ → Option ℕ → Bool
is_owned_by owner none = false
is_owned_by owner (some o) = o == owner

-- `{ id, version: transfer.version, leaseOwner }`
abbrev pub is_claimed : Transfer → ℕ → Transfer → Bool
is_claimed transfer owner row = row.version == transfer.version && is_owned_by owner row.lease_owner

-- The same with `status: transfer.status`.
abbrev pub is_claimed_in_status : Transfer → ℕ → Transfer → Bool
is_claimed_in_status transfer owner row =
    index row.status == index transfer.status && is_claimed transfer owner row

abbrev pub put_transfer : ℕ → Transfer → World → World
put_transfer id row w = record w { db = record w.db { transfers = insert id row w.db.transfers } }

-- `{ ...patch, version: () => '"version" + 1' }`; the column `updated_at` is set by every update.
abbrev pub touch : ℕ → Transfer → Transfer
touch at row = record row { version = suc row.version; updated_at = at }

-- One row at most has the id; that none matched is a lost lease.
abbrev pub update_transfer :
    ℕ → (Transfer → Bool) → (ℕ → Transfer → Transfer) → Action SagaError (Unit {0})
update_transfer id matches patch w = elim (lookup id w.db.transfers) [
  | none ↦ throw lease_lost w
  | some row ↦
      if matches row
      then modify (put_transfer id (touch w.clock (patch w.clock row))) w
      else throw lease_lost w
]

-- `findOneByOrFail({ id })`
abbrev pub find_transfer : ℕ → Action SagaError Transfer
find_transfer id w = elim (lookup id w.db.transfers) [
  | none ↦ throw (unexpected row_missing) w
  | some row ↦ pure row w
]

unfoldable pub update_claimed :
    SagaConfig → Transfer → ℕ → (ℕ → Transfer → Transfer) → Action SagaError Transfer
update_claimed config transfer owner patch =
    modify config.arrive
    >> update_transfer transfer.id (is_claimed transfer owner) patch
    >> modify config.arrive
    >> find_transfer transfer.id

abbrev pub check_transition : TransferStatus → TransferStatus → Action SagaError (Unit {0})
check_transition current next w = elim (assert_transfer_transition current next) [
  | ok _ ↦ pure tt w
  | err _ ↦ throw (unexpected invalid_transition) w
]

unfoldable pub transition_using_manager :
    Transfer → ℕ → TransferStatus → (ℕ → Transfer → Transfer) → Action SagaError Transfer
transition_using_manager transfer owner next patch =
    check_transition transfer.status next
    >> update_transfer transfer.id (is_claimed_in_status transfer owner)
        (λ at row. record (patch at row) { status = next })
    >> find_transfer transfer.id

unfoldable pub transition_claimed :
    SagaConfig
    → Transfer
    → ℕ
    → TransferStatus
    → (ℕ → Transfer → Transfer)
    → Action SagaError Transfer
transition_claimed config transfer owner next patch =
    modify config.arrive >> transaction (transition_using_manager transfer owner next patch)

-- `leaseOwner: null, leaseUntil: null`
abbrev pub give_up_lease : Transfer → Transfer
give_up_lease row = record row { lease_owner = none; lease_until = none }

abbrev pub fresh_step : Transfer → Transfer
fresh_step row = record row { retry_count = 0; next_retry_at = none }

abbrev pub complete_patch : ℕ → Transfer → Transfer
complete_patch at row = record (give_up_lease (fresh_step row)) {
  failure_code = none;
  failure_message = none;
  last_attempt_at = some at;
}

abbrev pub from_outbox : {A : Type 0} → Action Unexpected A → Action SagaError A
from_outbox m = handle m (λ u. throw (unexpected u))

unfoldable pub complete_in_transaction : Transfer → ℕ → Action SagaError (Unit {0})
complete_in_transaction transfer owner =
    transition_using_manager transfer owner completed complete_patch >>= λ row.
    from_outbox (enqueue_transfer_completed row) >> from_outbox (enqueue_split_share_paid row)

unfoldable pub complete : SagaConfig → Transfer → ℕ → Action SagaError (Unit {0})
complete config transfer owner =
    modify config.arrive >> transaction (complete_in_transaction transfer owner)

-- `failure?.code ?? transfer.failureCode`, and the message likewise.
abbrev pub fail_patch : Transfer → Option LedgerCommandError → ℕ → Transfer → Transfer
fail_patch transfer none at row = record (give_up_lease row) {
  next_retry_at = none;
  failure_code = transfer.failure_code;
  failure_message = transfer.failure_message;
  last_attempt_at = some at;
}
fail_patch transfer (some failure) at row = record (give_up_lease row) {
  next_retry_at = none;
  failure_code = some failure.code;
  failure_message = some failure.message;
  last_attempt_at = some at;
}

unfoldable pub fail :
    SagaConfig → Transfer → ℕ → Option LedgerCommandError → Action SagaError (Unit {0})
fail config transfer owner failure =
    transition_claimed config transfer owner failed (fail_patch transfer failure) >>= λ _. pure tt

abbrev doublings : ℕ → ℕ
doublings zero = 1
doublings (suc n) = 2 * doublings n

-- `Math.min(base * 2 ** (retryCount - 1), 60_000)`, with `retryCount` one more than `retries`.
abbrev pub retry_delay : ℕ → ℕ → ℕ
retry_delay base retries =
    let wanted = base * doublings retries in if leb wanted 60000 then wanted else 60000

abbrev pub retry_patch : SagaConfig → Transfer → LedgerCommandError → ℕ → ℕ → Transfer → Transfer
retry_patch config transfer failure now at row = record (give_up_lease row) {
  retry_count = transfer.retry_count + 1;
  next_retry_at = some (now + retry_delay config.retry_base_ms transfer.retry_count);
  last_attempt_at = some now;
  failure_code = some failure.code;
  failure_message = some failure.message;
}

unfoldable pub schedule_retry :
    SagaConfig → Transfer → ℕ → LedgerCommandError → ℕ → Action SagaError (Unit {0})
schedule_retry config transfer owner failure now =
    update_claimed config transfer owner (retry_patch config transfer failure now) >>= λ _. pure tt

-- A call of the ledger, which is put on the log with its answer.
unfoldable pub ask :
    {A : Type 0}
    → SagaConfig
    → (List Exchange → Transfer → Result LedgerCommandError A)
    → (ℕ → Result LedgerCommandError A → Exchange)
    → Transfer
    → Action SagaError A
ask config call exchange transfer w0 =
    let w = config.arrive w0 in
    let answer = call w.log transfer in
    handle (lift answer) (λ e. throw (ledger_failed e))
      (record w { log = exchange transfer.id answer ∷ w.log })
