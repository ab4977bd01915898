-- ===== src/Payments/Saga/Progressing.antt =====
-- The steps of the loop, each in the status that it is for.
use p2p_ledger_starter.Payments.TransferPolicy.{validate_policy}
use p2p_ledger_starter.Payments.Tables.{Transfer}
use p2p_ledger_starter.Payments.Saga.Transitions.{move_claimed-Ensures, Moved}
use p2p_ledger_starter.Payments.Saga.Steps.{
  Progress, fresh_patch, step_processing, step_pending, step_funds_held, step_compensating,
  resolve_unless, step_in, announce_unless, step_validating, ask_hold, compensate, announce_hold,
  returned, and_return, receiver_patch, resolve_receiver, held_patch, and_go, hold_patch, going,
  end_release, check_policy, settle,
}
use p2p_ledger_starter.Payments.Saga.Failures.{Throws, Proceeds}
use p2p_ledger_starter.Payments.Saga.Evolution.{Rely, Evolves-longest, IsSnapshot}
use p2p_ledger_starter.Payments.Saga.Ensures.{
  Ensures-throwing_with, Ensures-bind, Ensures-pure, Ensures-weaken, Ensures,
}
use p2p_ledger_starter.Payments.Saga.Endings.{
  complete-Ensures, Nothing, fail-Ensures, IsUnheld, IsSettled,
}
use p2p_ledger_starter.Payments.Saga.Claimed.{update_claimed-Ensures, IsPatch}
use p2p_ledger_starter.Payments.Saga.Asking.{IsKnown, Answered, ask-Ensures}
use p2p_ledger_starter.Payments.Saga.{is_terminal, SagaError, SagaConfig}
use p2p_ledger_starter.Payments.LedgerGateway.{
  ReleaseAnswer, release_asked, validate_asked, settle_asked, hold_asked,
}
use p2p_ledger_starter.Common.{
  ℕ, ◌≤◌, ◌≡◌, refl, Bool, true, false, Option, none, some, arith, inl, inr, Option-cases,
  Result-cases, ==_iff, ==_refl,
}
use p2p_ledger_starter.Payments.World.{World, Action, throwing_with}
use p2p_ledger_starter.Payments.TransferStatus.{
  TransferStatus, pending, validating, funds_held, processing, completed, failed, compensating,
  longest,
}

-- A transfer that was read in a step that began with `transfer`.
abbrev pub Later : Transfer → Transfer → World → Type 0
Later transfer current w = IsSnapshot current w × (longest current.status ≤ longest transfer.status)

fresh_patch-IsPatch : IsPatch fresh_patch
fresh_patch-IsPatch = record {
  id = λ at row. refl;
  status = λ at row. refl;
  version = λ at row. refl;
  held = λ at row h. h;
}

receiver_patch-IsPatch : (receiver : ℕ) → IsPatch (receiver_patch receiver)
receiver_patch-IsPatch receiver = record {
  id = λ at row. refl;
  status = λ at row. refl;
  version = λ at row. refl;
  held = λ at row h. h;
}

hold_patch-IsPatch : IsPatch hold_patch
hold_patch-IsPatch = record {
  id = λ at row. refl;
  status = λ at row. refl;
  version = λ at row. refl;
  held = λ at row h. refl;
}

held_patch-IsPatch : IsPatch held_patch
held_patch-IsPatch = record {
  id = λ at row. refl;
  status = λ at row. refl;
  version = λ at row. refl;
  held = λ at row h. h;
}

-- What is thrown in a step of `transfer` behind a read of `current`.
pub throwing-Ensures :
    {A : Type 0} {P : World → Type 0} {Q : A → World → Type 0} {m : Action SagaError A}
    (transfer current : Transfer)
    → longest current.status ≤ longest transfer.status
    → Ensures P m Q (λ _. IsSnapshot current)
    → Ensures P (throwing_with current m) Q (Throws transfer)
throwing-Ensures transfer current le known =
    Ensures-throwing_with {R = λ _. IsSnapshot current} {R' = Throws transfer} current
      (λ e w read. (read, le)) known

pub and_go-Ensures :
    {P : World → Type 0} {m : Action SagaError Transfer} (transfer current : Transfer)
    (next : TransferStatus)
    → longest current.status ≤ longest transfer.status
    → Ensures P m (Moved current next) (λ _. IsSnapshot current)
    → Ensures P (and_go current m) (Proceeds transfer) (Throws transfer)
and_go-Ensures transfer current next le known =
    Ensures-bind (throwing-Ensures transfer current le known) (λ last.
      Ensures-pure (going last) (Proceeds transfer)
        (λ w (read, _, _, fewer). (read, omega (arith, fewer, le))))

pub and_return-Ensures :
    {P : World → Type 0} {m : Action SagaError (Unit {0})} (transfer : Transfer)
    → Ensures P m Nothing (λ _. IsSnapshot transfer)
    → Ensures P (and_return transfer m) (Proceeds transfer) (Throws transfer)
and_return-Ensures transfer known =
    Ensures-bind (throwing-Ensures transfer transfer (omega arith) known)
      (λ _. Ensures-pure returned (Proceeds transfer) (λ w _. tt))

validate-IsKnown : (transfer : Transfer) → IsKnown validate_asked transfer
validate-IsKnown transfer id answer h = cc

settle-IsKnown : (transfer : Transfer) → IsKnown settle_asked transfer
settle-IsKnown transfer id answer h = cc

release-IsKnown : (transfer : Transfer) → IsKnown release_asked transfer
release-IsKnown transfer id answer h = cc

hold-IsKnown : (transfer : Transfer) → transfer.hold_may_exist ≡ true → IsKnown hold_asked transfer
hold-IsKnown transfer held id answer h = ((==_iff transfer.id id).0 h, held)

module _ (config : SagaConfig) (rely : Rely config.arrive) (owner now : ℕ) where
  check_policy-Ensures :
      (transfer : Transfer)
      → Ensures
          (IsSnapshot transfer)
          (check_policy config transfer now)
          (λ _. IsSnapshot transfer)
          (λ _. IsSnapshot transfer)
  check_policy-Ensures transfer = record {
    at = λ start w sound follows read. elim (Option-cases config.policy) [
      | inl absent ↦ rw (check_policy, absent) (sound, follows, read)
      | inr (policy, present) ↦ elim (Result-cases (validate_policy policy transfer now)) [
        | inl (value, passed) ↦ rw (check_policy, present, passed) (sound, follows, read)
        | inr (e, rejected) ↦ rw (check_policy, present, rejected) (sound, follows, read)
      ]
    ];
  }

  resolve_unless-Ensures :
      (receiver : Option ℕ) (transfer : Transfer)
      → Ensures
          (IsSnapshot transfer)
          (resolve_unless receiver config owner transfer)
          (Later transfer)
          (λ _. IsSnapshot transfer)
  resolve_unless-Ensures (some _) transfer =
      Ensures-pure transfer (Later transfer) (λ w read. (read, omega arith))
  resolve_unless-Ensures none transfer =
      Ensures-bind
        (ask-Ensures config config.ledger.validate validate_asked transfer rely
          (validate-IsKnown transfer))
        (λ receiver.
          Ensures-weaken {R = λ _. IsSnapshot transfer} {P = IsSnapshot transfer} (λ w p. p.0)
            (λ next w (read, moved, _). (read, Evolves-longest moved)) (λ _ w r. r)
            (update_claimed-Ensures config transfer owner (receiver_patch receiver) rely
              (receiver_patch-IsPatch receiver)))

  announce_unless-Ensures :
      (known : Bool) (transfer : Transfer)
      → transfer.hold_may_exist ≡ known
      → Ensures
          (IsSnapshot transfer)
          (announce_unless known config owner transfer)
          (λ next w. Later transfer next w × (next.hold_may_exist ≡ true))
          (λ _. IsSnapshot transfer)
  announce_unless-Ensures true transfer same =
      Ensures-pure transfer (λ next w. Later transfer next w × (next.hold_may_exist ≡ true))
        (λ w read. ((read, omega arith), same))
  announce_unless-Ensures false transfer same =
      Ensures-weaken {R = λ _. IsSnapshot transfer} {P = IsSnapshot transfer} (λ w p. p)
        (λ next w (read, moved, (old, at, changed)).
          ((read, Evolves-longest moved), changed.held refl))
        (λ _ w r. r)
        (update_claimed-Ensures config transfer owner hold_patch rely hold_patch-IsPatch)

  place_hold-Ensures :
      (transfer : Transfer)
      → transfer.hold_may_exist ≡ true
      → Ensures
          (IsSnapshot transfer)
          (ask_hold config owner transfer)
          (Moved transfer funds_held)
          (λ _. IsSnapshot transfer)
  unfolding ask_hold
  place_hold-Ensures transfer held =
      Ensures-bind
        (ask-Ensures config config.ledger.place_hold hold_asked transfer rely
          (hold-IsKnown transfer held))
        (λ _.
          Ensures-weaken {R = λ _. IsSnapshot transfer} {P = IsSnapshot transfer} (λ w p. p.0)
            (λ _ w q. q) (λ _ w r. r)
            (move_claimed-Ensures config transfer owner funds_held held_patch rely
              held_patch-IsPatch refl))

  settle-Ensures :
      (transfer : Transfer)
      → Ensures
          (IsSnapshot transfer)
          (settle config owner transfer)
          Nothing
          (λ _. IsSnapshot transfer)
  unfolding settle
  settle-Ensures transfer =
      Ensures-bind
        (ask-Ensures config config.ledger.settle settle_asked transfer rely
          (settle-IsKnown transfer))
        (λ _.
          Ensures-weaken {R = λ _. IsSnapshot transfer} {P = IsSettled transfer}
            (λ w (read, (rest, logged)). (read, rw logged (rw (==_refl transfer.id) refl)))
            (λ _ w q. q) (λ _ w r. r) (complete-Ensures config transfer owner rely))

  end_release-Ensures :
      (transfer : Transfer) (outcome : ReleaseAnswer)
      → Ensures
          (Answered release_asked transfer outcome)
          (end_release config owner transfer outcome)
          Nothing
          (λ _. IsSnapshot transfer)
  end_release-Ensures transfer ReleaseAnswer.already_settled =
      Ensures-weaken {R = λ _. IsSnapshot transfer} {P = IsSettled transfer}
        (λ w (read, (rest, logged)). (read, rw logged (rw (==_refl transfer.id) refl))) (λ _ w q. q)
        (λ _ w r. r) (complete-Ensures config transfer owner rely)
  end_release-Ensures transfer ReleaseAnswer.released =
      Ensures-weaken {R = λ _. IsSnapshot transfer} {P = IsUnheld transfer}
        (λ w (read, (rest, logged)). (read, inr (rw logged (rw (==_refl transfer.id) refl))))
        (λ _ w q. q) (λ _ w r. r) (fail-Ensures config transfer owner none rely)

  compensate-Ensures :
      (transfer : Transfer)
      → Ensures
          (IsSnapshot transfer)
          (compensate config owner transfer)
          Nothing
          (λ _. IsSnapshot transfer)
  unfolding compensate
  compensate-Ensures transfer =
      Ensures-bind
        (ask-Ensures config config.ledger.release release_asked transfer rely
          (release-IsKnown transfer))
        (end_release-Ensures transfer)

  place-Ensures :
      (transfer holding : Transfer)
      → Ensures
          (λ w.
            (IsSnapshot holding w × (longest holding.status ≤ longest transfer.status))
            × (holding.hold_may_exist ≡ true))
          (and_go holding (ask_hold config owner holding))
          (Proceeds transfer)
          (Throws transfer)
  place-Ensures transfer holding = record {
    at = λ start w sound follows ((read, le), held).
        (and_go-Ensures transfer holding funds_held le (place_hold-Ensures holding held)).at start w
          sound follows read;
  }

  announce-Ensures :
      (transfer resolved : Transfer)
      → Ensures
          (Later transfer resolved)
          (throwing_with resolved (announce_hold config owner resolved))
          (λ next w. Later transfer next w × (next.hold_may_exist ≡ true))
          (Throws transfer)
  unfolding announce_hold
  announce-Ensures transfer resolved = record {
    at = λ start w sound follows (read, le).
        (Ensures-weaken {R = Throws transfer} {P = IsSnapshot resolved} (λ w p. p)
            (λ next w ((again, fewer), held). ((again, omega (arith, fewer, le)), held))
            (λ _ w r. r)
            (throwing-Ensures transfer resolved le
              (announce_unless-Ensures resolved.hold_may_exist resolved refl))).at
          start w sound follows read;
  }

  step_validating-Ensures :
      (transfer : Transfer)
      → Ensures
          (IsSnapshot transfer)
          (step_validating config owner now transfer)
          (Proceeds transfer)
          (Throws transfer)
  unfolding step_validating resolve_receiver
  step_validating-Ensures transfer =
      Ensures-bind
        (throwing-Ensures transfer transfer (omega arith) (check_policy-Ensures transfer))
        (λ _.
          Ensures-bind
            (throwing-Ensures transfer transfer (omega arith)
              (resolve_unless-Ensures transfer.receiver_wallet_id transfer))
            (λ resolved.
              Ensures-bind (announce-Ensures transfer resolved)
                (λ holding. place-Ensures transfer holding)))

  step_pending-Ensures :
      (transfer : Transfer)
      → Ensures
          (IsSnapshot transfer)
          (step_pending config owner transfer)
          (Proceeds transfer)
          (Throws transfer)
  unfolding step_pending
  step_pending-Ensures transfer = and_go-Ensures transfer transfer validating (omega arith) (
      move_claimed-Ensures config transfer owner validating fresh_patch rely fresh_patch-IsPatch
        refl)

  step_funds_held-Ensures :
      (transfer : Transfer)
      → Ensures
          (IsSnapshot transfer)
          (step_funds_held config owner transfer)
          (Proceeds transfer)
          (Throws transfer)
  unfolding step_funds_held
  step_funds_held-Ensures transfer = and_go-Ensures transfer transfer processing (omega arith) (
      move_claimed-Ensures config transfer owner processing fresh_patch rely fresh_patch-IsPatch
        refl)

  step_processing-Ensures :
      (transfer : Transfer)
      → Ensures
          (IsSnapshot transfer)
          (step_processing config owner transfer)
          (Proceeds transfer)
          (Throws transfer)
  unfolding step_processing
  step_processing-Ensures transfer = and_return-Ensures transfer (settle-Ensures transfer)

  step_compensating-Ensures :
      (transfer : Transfer)
      → Ensures
          (IsSnapshot transfer)
          (step_compensating config owner transfer)
          (Proceeds transfer)
          (Throws transfer)
  unfolding step_compensating
  step_compensating-Ensures transfer = and_return-Ensures transfer (compensate-Ensures transfer)

  finished-Ensures :
      (transfer : Transfer) {m : Action (SagaError × Transfer) Progress}
      → true ≡ false
      → Ensures (IsSnapshot transfer) m (Proceeds transfer) (Throws transfer)
  finished-Ensures transfer h = cc

  unfoldable pub StepEnsures : TransferStatus → Transfer → Type 0
  StepEnsures status transfer =
      Ensures (IsSnapshot transfer) (step_in status config owner now transfer) (Proceeds transfer)
        (Throws transfer)

  -- Each step of the loop returns, or goes on with fewer transitions left.
  pub step_in-StepEnsures :
      (status : TransferStatus) (transfer : Transfer)
      → is_terminal status ≡ false
      → StepEnsures status transfer
  unfolding step_in StepEnsures
  step_in-StepEnsures pending transfer unfinished = step_pending-Ensures transfer
  step_in-StepEnsures validating transfer unfinished = step_validating-Ensures transfer
  step_in-StepEnsures funds_held transfer unfinished = step_funds_held-Ensures transfer
  step_in-StepEnsures processing transfer unfinished = step_processing-Ensures transfer
  step_in-StepEnsures compensating transfer unfinished = step_compensating-Ensures transfer
  step_in-StepEnsures completed transfer unfinished = finished-Ensures transfer unfinished
  step_in-StepEnsures failed transfer unfinished = finished-Ensures transfer unfinished
