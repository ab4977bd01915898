-- ===== src/Payments/Saga/Safety.antt =====
-- What holds of every transfer behind a run or a recovery, whatever the ledger answers, whatever is
-- thrown, and whatever the other workers do while this one waits.
use p2p_ledger_starter.Payments.Tables.{Transfer}
use p2p_ledger_starter.Payments.Saga.Steps.{run, run_steps}
use p2p_ledger_starter.Payments.Saga.Recovery.{run_each, due_ids, recover_due}
use p2p_ledger_starter.Payments.Saga.Guarantee.{
  anything-IsStable, run-Rely, run_steps-within, run-Ensures, Post-Sound,
}
use p2p_ledger_starter.Payments.Saga.Evolution.{
  is_sound, Sound, Follows-refl, implies, IsSnapshot, Rely,
}
use p2p_ledger_starter.Payments.Saga.Ensures.{Ensures-pure, Ensures, Ensures-bind, Ensures-arrive}
use p2p_ledger_starter.Payments.Saga.Endings.{Nothing}
use p2p_ledger_starter.Payments.Saga.{SagaError, SagaConfig}
use p2p_ledger_starter.Common.{length, ℕ, ◌≤◌, ◌≡◌, ◌≢◌, true, some, List, [], ◌∷◌, ok, arith}
use p2p_ledger_starter.Common.Dict.{lookup}
use p2p_ledger_starter.Payments.World.{World, gets}
use p2p_ledger_starter.Payments.TransferStatus.{Run}

implies-held :
    (row later : Transfer)
    → (row.hold_may_exist ≡ true → later.hold_may_exist ≡ true)
    → implies row.hold_may_exist later.hold_may_exist ≡ true
implies-held row later held = ground arith

gets-Ensures :
    {A : Type 0} (f : World → A) → Ensures {E = SagaError} (λ w. Unit {0}) (gets f) Nothing Nothing
gets-Ensures f = record { at = λ start w sound follows _. (sound, follows, tt) }

module _ (config : SagaConfig) (rely : Rely config.arrive) (now : ℕ) where
  run_each-Ensures :
      (ids : List ℕ) → Ensures (λ w. Unit {0}) (run_each config now ids) Nothing Nothing
  unfolding run_each
  run_each-Ensures [] = Ensures-pure tt Nothing (λ w _. tt)
  run_each-Ensures (id ∷ ids) =
      Ensures-bind (run-Ensures config rely id now) (λ _. run_each-Ensures ids)

  recover_due-Ensures :
      (limit : ℕ) → Ensures (λ w. Unit {0}) (recover_due config now limit) Nothing Nothing
  unfolding recover_due
  recover_due-Ensures limit =
      Ensures-bind
        (Ensures-bind (Ensures-arrive config.arrive rely anything-IsStable)
          (λ _. gets-Ensures (λ w. due_ids now limit w.db.transfers)))
        (λ ids.
          Ensures-bind (run_each-Ensures ids) (λ _. Ensures-pure (length ids) Nothing (λ w _. tt)))

-- The others only move the world forward and keep every row sound. Then, behind a recovery of all that
-- is due, whether it returned or threw, a row that is `Completed` has been settled at the ledger (its
-- settlement was answered with success, or its release with "already settled") and its event is in the
-- outbox; one that is `Failed` has no hold on record or the ledger has released it; one whose hold was
-- asked for says that it may exist; and none that is finished is leased.
pub recover_due-is_sound :
    (config : SagaConfig) (now limit : ℕ) (w : World)
    → Rely config.arrive
    → Sound w
    → (id : ℕ) (row : Transfer)
    → lookup id (recover_due config now limit w).1.db.transfers ≡ some row
    → is_sound (recover_due config now limit w).1 id row ≡ true
recover_due-is_sound config now limit w rely sound id row found =
    (Post-Sound w (recover_due config now limit w)
        ((recover_due-Ensures config rely now limit).at w w sound (Follows-refl w) tt)).0.at
      id row found

-- Under the same conditions a run loses no transfer and moves each forward only: the status it has
-- behind the run was reached by allowed transitions, its version has not fallen, a hold that may exist is
-- not forgotten, and its id is the same.
pub run-forward :
    (config : SagaConfig) (id now : ℕ) (w : World)
    → Rely config.arrive
    → Sound w
    → (j : ℕ) (row : Transfer) → lookup j w.db.transfers ≡ some row
    → (later : Transfer) × (lookup j (run config id now w).1.db.transfers ≡ some later)
      × (later.id ≡ row.id)
      × (row.version ≤ later.version)
      × (implies row.hold_may_exist later.hold_may_exist ≡ true)
      × ((n : ℕ) × Run row.status n later.status)
run-forward config id now w rely sound j row found =
    let (later, found', moved) = ((run-Rely config rely id now).at w sound).1.rows j row found in
    (later, found', moved.id, moved.version, implies-held row later moved.held, moved.steps)

-- Under the same conditions, from a transfer that was read, the loop of eight steps never uses them up:
-- it ends by returning or by an error, and the budget is never found exhausted.
pub run_steps-ends :
    (config : SagaConfig) (owner now : ℕ) (transfer : Transfer) (w : World)
    → Rely config.arrive
    → Sound w
    → IsSnapshot transfer w
    → (left : Transfer) → (run_steps 8 config owner now transfer w).0 ≢ ok (some left)
run_steps-ends config owner now transfer w rely sound read left =
    run_steps-within config rely owner now transfer w sound read left
