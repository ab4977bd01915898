-- ===== src/Payments/Saga/Guarantee.antt =====
-- A run of the saga from its claim to its end, whatever the ledger answers and others do meanwhile.
use p2p_ledger_starter.Payments.SplitBills.Views.{all}
use p2p_ledger_starter.Payments.Tables.{Transfer}
use p2p_ledger_starter.Payments.Saga.Updates.{put-Sound}
use p2p_ledger_starter.Payments.Saga.Steps.{
  run, claim_transfer, end_steps, take_lease, claim_row, Progress, go_on, run_steps, is_due, going,
  budget_exhausted, returned, run_claimed, read_claimed, on_error, step_in,
}
use p2p_ledger_starter.Payments.Saga.Progressing.{StepEnsures, step_in-StepEnsures}
use p2p_ledger_starter.Payments.Saga.Failures.{schedule_retry-Ensures, Proceeds, on_error-Ensures}
use p2p_ledger_starter.Payments.Saga.Evolution.{
  Sound, Follows, Follows-refl, Rely, Evolves-refl, Evolves, Follows-trans, IsSnapshot, is_sound,
}
use p2p_ledger_starter.Payments.Saga.Ensures.{
  Post, Ensures-pure, IsStable, Ensures-weaken, Ensures-arrive, Ensures-bind, Ensures,
  Ensures-handle,
}
use p2p_ledger_starter.Payments.Saga.Endings.{rolled-Sound, Nothing}
use p2p_ledger_starter.Payments.Saga.Claimed.{open-IsSound}
use p2p_ledger_starter.Payments.Saga.{
  put_transfer, is_terminal, SagaError, SagaConfig, find_transfer,
}
use p2p_ledger_starter.Common.{
  ◌==◌, ℕ, zero, suc, ◌≤◌, ◌<◌, ◌≡◌, ◌≢◌, refl, ◌∙◌, ap, Bool, true, false, Option, none, some,
  Result, ok, err, arith, inl, inr, Bool-cases, Option-cases, ◌&&◌, not,
}
use p2p_ledger_starter.Common.Dict.{lookup}
use p2p_ledger_starter.Payments.World.{World, handle, random_uuid}
use p2p_ledger_starter.Payments.TransferStatus.{TransferStatus, stay, longest}

-- The loop leaves a transfer only if all its steps were taken, each with one transition fewer to go.
abbrev pub Leaves : ℕ → Transfer → Option Transfer → World → Type 0
Leaves n transfer none w = Unit {0}
Leaves n transfer (some last) w = IsSnapshot last w × (n ≤ longest transfer.status)

sound-id : (w : World) (id : ℕ) (row : Transfer) → is_sound w id row ≡ true → row.id ≡ id
sound-id w id row good = ground arith

pub anything-IsStable : IsStable (λ w. Unit {0})
anything-IsStable = record { at = λ f p. p }

take_lease-Evolves :
    (config : SagaConfig) (owner now : ℕ) (row : Transfer)
    → Evolves row (take_lease config owner now row)
take_lease-Evolves config owner now row = record {
  id = refl;
  version = omega arith;
  status = λ _. refl;
  flag = λ _. refl;
  held = λ h. h;
  steps = (0, stay);
}

take_lease-IsSound :
    (config : SagaConfig) (w : World) (id owner now : ℕ) (row : Transfer)
    → is_sound w id row ≡ true
    → (is_due now row && not (config.is_locked w id)) ≡ true
    → is_sound w id (take_lease config owner now row) ≡ true
take_lease-IsSound config w id owner now row good free =
    open-IsSound w id row (take_lease config owner now row) good refl (λ h. h) (ground arith)

random_uuid-Ensures : Ensures {E = SagaError} (λ w. Unit {0}) random_uuid Nothing Nothing
random_uuid-Ensures = record {
  at = λ start w sound follows _.
      let (sound', moves) = rolled-Sound w (record w { next_id = suc w.next_id }) sound refl in
      (sound', Follows-trans follows moves, tt);
}

longest-bounded : (s : TransferStatus) → longest s ≤ 5
longest-bounded s = ground arith

within :
    {E : Type 0} (start : World) (transfer left : Transfer)
    (outcome : Result E (Option Transfer) × World)
    → outcome.0 ≡ ok (some left)
    → Post start (Leaves 8 transfer) Nothing outcome
    → ⊥
within start transfer left (ok none, w) all post = cc
within start transfer left (ok (some last), w) all (sound, follows, (read, le)) =
    omega (arith, le, longest-bounded transfer.status)
within start transfer left (err e, w) all post = cc

pub Post-Sound :
    {E A : Type 0} (start : World) (outcome : Result E A × World)
    → Post start Nothing Nothing outcome
    → Sound outcome.1 × Follows start outcome.1
Post-Sound start (ok a, w) (sound, follows, _) = (sound, follows)
Post-Sound start (err e, w) (sound, follows, _) = (sound, follows)

module _ (config : SagaConfig) (rely : Rely config.arrive) (owner now : ℕ) where
  Leaves-later :
      (n : ℕ) (transfer next : Transfer)
      → longest next.status < longest transfer.status
      → (left : Option Transfer) (w : World) → Leaves n next left w
      → Leaves (suc n) transfer left w
  Leaves-later n transfer next lt none w h = tt
  Leaves-later n transfer next lt (some last) w (read, le) = (read, omega (arith, le, lt))

  go_on-Ensures :
      (n : ℕ) (transfer : Transfer) (progress : Progress)
      → ((next : Transfer)
          → Ensures (IsSnapshot next) (run_steps n config owner now next) (Leaves n next) Nothing)
      → Ensures
          (Proceeds transfer progress)
          (go_on progress (run_steps n config owner now))
          (Leaves (suc n) transfer)
          Nothing
  go_on-Ensures n transfer returned rest = Ensures-pure none (Leaves (suc n) transfer) (λ w _. tt)
  go_on-Ensures n transfer (going next) rest = record {
    at = λ start w sound follows (read, lt).
        (Ensures-weaken {R = Nothing} {P = IsSnapshot next} (λ w p. p)
            (Leaves-later n transfer next lt) (λ _ w r. r) (rest next)).at
          start w sound follows read;
  }

  step-Ensures :
      (transfer : Transfer)
      → is_terminal transfer.status ≡ false
      → Ensures
          (IsSnapshot transfer)
          (handle (step_in transfer.status config owner now transfer) (on_error config owner now))
          (Proceeds transfer)
          Nothing
  unfolding StepEnsures
  step-Ensures transfer unfinished =
      Ensures-handle (step_in-StepEnsures config rely owner now transfer.status transfer unfinished)
        (on_error-Ensures config rely owner now transfer)

  run_steps-Ensures :
      (n : ℕ) (transfer : Transfer)
      → Ensures
          (IsSnapshot transfer)
          (run_steps n config owner now transfer)
          (Leaves n transfer)
          Nothing
  unfolding run_steps
  run_steps-Ensures zero transfer =
      Ensures-pure (some transfer) (Leaves zero transfer) (λ w read. (read, omega arith))
  run_steps-Ensures (suc n) transfer = record {
    at = λ start w sound follows read. elim (Bool-cases (is_terminal transfer.status)) [
      | inl finished ↦ rw (run_steps, finished) (sound, follows, tt)
      | inr unfinished ↦
          rw (run_steps, unfinished)
            ((Ensures-bind (step-Ensures transfer unfinished)
                (λ progress. go_on-Ensures n transfer progress (run_steps-Ensures n))).at
              start w sound follows read)
    ];
  }

  end_steps-Ensures :
      (transfer : Transfer) (left : Option Transfer)
      → Ensures (Leaves 8 transfer left) (end_steps config owner now left) Nothing Nothing
  unfolding end_steps
  end_steps-Ensures transfer none = Ensures-pure tt Nothing (λ w _. tt)
  end_steps-Ensures transfer (some last) =
      Ensures-weaken {R = Nothing} {P = IsSnapshot last} (λ w p. p.0) (λ _ w q. q) (λ _ w r. r)
        (schedule_retry-Ensures config rely owner now last budget_exhausted)

  -- What a claim has read.
  Claims : Option Transfer → World → Type 0
  Claims none w = Unit {0}
  Claims (some transfer) w = IsSnapshot transfer w

  run_claimed-Ensures :
      (claimed : Option Transfer)
      → Ensures (Claims claimed) (run_claimed config owner now claimed) Nothing Nothing
  unfolding run_claimed Claims
  run_claimed-Ensures none = Ensures-pure tt Nothing (λ w _. tt)
  run_claimed-Ensures (some transfer) =
      Ensures-bind (run_steps-Ensures 8 transfer) (end_steps-Ensures transfer)

  claim_row-Ensures :
      (id : ℕ)
      → Ensures {E = SagaError} (λ w. Unit {0}) (claim_row config id owner now) Nothing Nothing
  unfolding claim_row
  claim_row-Ensures id = record {
    at = λ start w sound follows _. elim (Option-cases (lookup id w.db.transfers)) [
      | inl missing ↦ rw (claim_row, missing) (sound, follows, tt)
      | inr (row, found) ↦ elim (Bool-cases (is_due now row && not (config.is_locked w id))) [
        | inr busy ↦ rw (claim_row, found, busy) (sound, follows, tt)
        | inl free ↦
            let (sound', moves, _) =
              put-Sound w (put_transfer id (take_lease config owner now row) w) id row
                (take_lease config owner now row) sound found refl refl (λ j h. h)
                (take_lease-Evolves config owner now row)
                (take_lease-IsSound config w id owner now row (sound.at id row found) free) in
            rw (claim_row, found, free) (sound', Follows-trans follows moves, tt)
      ]
    ];
  }

  find-Ensures : (id : ℕ) → Ensures (λ w. Unit {0}) (find_transfer id) IsSnapshot Nothing
  find-Ensures id = record {
    at = λ start w sound follows _. elim (Option-cases (lookup id w.db.transfers)) [
      | inl missing ↦ rw (find_transfer, missing) (sound, follows, tt)
      | inr (row, found) ↦
          rw (find_transfer, found)
            (
              sound,
              follows,
              (
                row,
                ap (λ k. lookup k w.db.transfers) (sound-id w id row (sound.at id row found))
                    ∙ found,
                Evolves-refl row,
              ),
            )
    ];
  }

  read_claimed-Ensures :
      (id : ℕ) (taken : Bool)
      → Ensures (Nothing taken) (read_claimed config id taken) Claims Nothing
  unfolding Claims
  read_claimed-Ensures id taken = elim (Bool-cases (config.query_length taken == 0)) [
    | inl stops ↦ rw stops (Ensures-pure none Claims (λ w _. tt))
    | inr reads ↦ rw reads (
        Ensures-bind
          (Ensures-bind (Ensures-arrive config.arrive rely anything-IsStable)
            (λ _. find-Ensures id))
          (λ transfer. Ensures-pure (some transfer) Claims (λ w read. read)))
  ]

  claim-Ensures :
      (id : ℕ) → Ensures (λ w. Unit {0}) (claim_transfer config id owner now) Claims Nothing
  unfolding claim_transfer
  claim-Ensures id =
      Ensures-bind
        (Ensures-bind (Ensures-arrive config.arrive rely anything-IsStable)
          (λ _. claim_row-Ensures id))
        (read_claimed-Ensures id)

  pub run_steps-within :
      (transfer : Transfer) (w : World)
      → Sound w
      → IsSnapshot transfer w
      → (left : Transfer) → (run_steps 8 config owner now transfer w).0 ≢ ok (some left)
  run_steps-within transfer w sound read left all =
      within w transfer left (run_steps 8 config owner now transfer w) all
        ((run_steps-Ensures 8 transfer).at w w sound (Follows-refl w) read)

module _ (config : SagaConfig) (rely : Rely config.arrive) (id now : ℕ) where
  pub run-Ensures : Ensures (λ w. Unit {0}) (run config id now) Nothing Nothing
  unfolding run
  run-Ensures = Ensures-bind {Q = Nothing} random_uuid-Ensures (λ owner.
      Ensures-bind (claim-Ensures config rely owner now id)
        (run_claimed-Ensures config rely owner now))

  -- A run, whatever it ends with, keeps every row sound and only moves the world forward: what others may
  -- rely on when this run is one of the things that they wait for.
  pub run-Rely : Rely (λ w. (run config id now w).1)
  run-Rely = record {
    at = λ w sound.
        Post-Sound w (run config id now w) (run-Ensures.at w w sound (Follows-refl w) tt);
  }
