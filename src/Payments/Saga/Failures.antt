-- ===== src/Payments/Saga/Failures.antt =====
-- What becomes of an error of a step.
use p2p_ledger_starter.Payments.Tables.{Transfer}
use p2p_ledger_starter.Payments.Saga.Transitions.{move_claimed-Ensures}
use p2p_ledger_starter.Payments.Saga.Steps.{
  handle_failure, give_up, Progress, going, returned, unexpected_error, compensating_patch,
  should_retry, on_error,
}
use p2p_ledger_starter.Payments.Saga.Evolution.{Rely, IsSnapshot}
use p2p_ledger_starter.Payments.Saga.Ensures.{Ensures, Ensures-weaken, Ensures-bind, Ensures-pure}
use p2p_ledger_starter.Payments.Saga.Endings.{IsUnheld, Nothing, fail-Ensures}
use p2p_ledger_starter.Payments.Saga.Claimed.{update_claimed-Ensures, IsPatch}
use p2p_ledger_starter.Payments.Saga.{
  lease_lost, SagaError, unexpected, retry_patch, SagaConfig, schedule_retry, ledger_failed,
}
use p2p_ledger_starter.Payments.LedgerGateway.{LedgerCommandError}
use p2p_ledger_starter.Common.{ℕ, ◌≤◌, ◌<◌, refl, some, arith, inl, inr, Bool-cases}
use p2p_ledger_starter.Payments.World.{World}
use p2p_ledger_starter.Payments.TransferStatus.{compensating, longest}

-- The loop has returned, or goes on with a transfer that was read and has fewer transitions left.
abbrev pub Proceeds : Transfer → Progress → World → Type 0
Proceeds transfer returned w = Unit {0}
Proceeds transfer (going next) w =
    IsSnapshot next w × (longest next.status < longest transfer.status)

-- An error comes with a transfer that was read, later than that of the step or the same.
abbrev pub Throws : Transfer → SagaError × Transfer → World → Type 0
Throws transfer (e, current) w =
    IsSnapshot current w × (longest current.status ≤ longest transfer.status)

retry_patch-IsPatch :
    (config : SagaConfig) (transfer : Transfer) (failure : LedgerCommandError) (now : ℕ)
    → IsPatch (retry_patch config transfer failure now)
retry_patch-IsPatch config transfer failure now = record {
  id = λ at row. refl;
  status = λ at row. refl;
  version = λ at row. refl;
  held = λ at row h. h;
}

compensating_patch-IsPatch : (failure : LedgerCommandError) → IsPatch (compensating_patch failure)
compensating_patch-IsPatch failure = record {
  id = λ at row. refl;
  status = λ at row. refl;
  version = λ at row. refl;
  held = λ at row h. h;
}

module _ (config : SagaConfig) (rely : Rely config.arrive) (owner now : ℕ) where
  pub schedule_retry-Ensures :
      (transfer : Transfer) (failure : LedgerCommandError)
      → Ensures
          (IsSnapshot transfer)
          (schedule_retry config transfer owner failure now)
          Nothing
          Nothing
  unfolding schedule_retry
  schedule_retry-Ensures transfer failure =
      Ensures-bind
        (Ensures-weaken {R = λ _. IsSnapshot transfer} {P = IsSnapshot transfer} (λ w p. p)
          (λ _ w q. q) (λ _ w r. tt)
          (update_claimed-Ensures config transfer owner (retry_patch config transfer failure now)
            rely (retry_patch-IsPatch config transfer failure now)))
        (λ _. Ensures-pure tt _ (λ w _. tt))

  give_up-Ensures :
      (transfer : Transfer) (failure : LedgerCommandError)
      → Ensures
          (IsSnapshot transfer)
          (give_up config owner transfer failure)
          (Proceeds transfer)
          Nothing
  unfolding give_up
  give_up-Ensures transfer failure = elim (Bool-cases transfer.hold_may_exist) [
    | inl held ↦ record {
      at = λ start w sound follows snapshot.
          rw (give_up, held)
            ((Ensures-bind {R = Nothing}
                (Ensures-weaken {R = λ _. IsSnapshot transfer} {P = IsSnapshot transfer} (λ w p. p)
                  (λ _ w q. q) (λ _ w r. tt)
                  (move_claimed-Ensures config transfer owner compensating
                    (compensating_patch failure) rely (compensating_patch-IsPatch failure) refl))
                (λ next.
                  Ensures-pure (going next) (Proceeds transfer)
                    (λ w (read, _, _, fewer). (read, fewer)))).at
              start w sound follows snapshot);
    }
    | inr free ↦ record {
      at = λ start w sound follows snapshot.
          rw (give_up, free)
            ((Ensures-bind {R = Nothing}
                (Ensures-weaken {R = λ _. IsSnapshot transfer} {P = IsUnheld transfer}
                  (λ w p. (p, inl free)) (λ _ w q. q) (λ _ w r. tt)
                  (fail-Ensures config transfer owner (some failure) rely))
                (λ _. Ensures-pure returned (Proceeds transfer) (λ w _. tt))).at
              start w sound follows snapshot);
    }
  ]

  handle_failure-Ensures :
      (transfer : Transfer) (failure : LedgerCommandError)
      → Ensures
          (IsSnapshot transfer)
          (handle_failure config owner now transfer failure)
          (Proceeds transfer)
          Nothing
  unfolding handle_failure
  handle_failure-Ensures transfer failure =
      elim (Bool-cases (should_retry config transfer failure)) [
        | inl again ↦ record {
          at = λ start w sound follows snapshot.
              rw (handle_failure, again)
                ((Ensures-bind {R = Nothing} (schedule_retry-Ensures transfer failure)
                    (λ _. Ensures-pure returned (Proceeds transfer) (λ w _. tt))).at
                  start w sound follows snapshot);
        }
        | inr enough ↦ record {
          at = λ start w sound follows snapshot.
              rw (handle_failure, enough)
                ((give_up-Ensures transfer failure).at start w sound follows snapshot);
        }
      ]

  Proceeds-later :
      (transfer current : Transfer)
      → longest current.status ≤ longest transfer.status
      → (progress : Progress) (w : World) → Proceeds current progress w
      → Proceeds transfer progress w
  Proceeds-later transfer current le returned w p = tt
  Proceeds-later transfer current le (going next) w (read, fewer) = (read, omega (arith, fewer, le))

  handled-Ensures :
      (transfer current : Transfer) (failure : LedgerCommandError)
      → Ensures
          (λ w. IsSnapshot current w × (longest current.status ≤ longest transfer.status))
          (handle_failure config owner now current failure)
          (Proceeds transfer)
          Nothing
  handled-Ensures transfer current failure = record {
    at = λ start w sound follows (read, le).
        (Ensures-weaken {R = Nothing} {P = IsSnapshot current} (λ w p. p)
            (Proceeds-later transfer current le) (λ _ w r. r)
            (handle_failure-Ensures current failure)).at
          start w sound follows read;
  }

  pub on_error-Ensures :
      (transfer : Transfer) (thrown : SagaError × Transfer)
      → Ensures
          (Throws transfer thrown)
          (on_error config owner now thrown)
          (Proceeds transfer)
          Nothing
  unfolding on_error
  on_error-Ensures transfer (lease_lost, current) =
      Ensures-pure returned (Proceeds transfer) (λ w _. tt)
  on_error-Ensures transfer (ledger_failed failure, current) =
      handled-Ensures transfer current failure
  on_error-Ensures transfer (unexpected u, current) =
      handled-Ensures transfer current (unexpected_error u)
