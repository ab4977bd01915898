-- ===== src/Payments/Saga/Endings.antt =====
-- The two ends of a transfer, and the calls of the ledger that lead to them.
use p2p_ledger_starter.Payments.Saga.Announcing.{Enqueued, announce-cases}
use p2p_ledger_starter.Payments.OutboxEvents.{enqueue_split_share_paid, enqueue_transfer_completed}
use p2p_ledger_starter.Payments.Tables.{Transfer}
use p2p_ledger_starter.Payments.Saga.Transitions.{
  change-Sound, transition-cases, Allows, transition_claimed-Ensures, to_status,
}
use p2p_ledger_starter.Payments.Saga.Evolution.{
  Follows-trans, Follows, has_settled, IsSnapshot-Follows, Evolves-refl, IsSnapshot, is_sound,
  Sound, is_announced, Rely, has_released,
}
use p2p_ledger_starter.Payments.Saga.Ensures.{
  Post, Ensures-arrive, Ensures-pure, Ensures-bind, Ensures-weaken, IsStable, Ensures,
}
use p2p_ledger_starter.Payments.Saga.Claimed.{Updated, IsPatch}
use p2p_ledger_starter.Payments.Saga.{
  SagaError, complete_in_transaction, from_outbox, put_transfer, complete, fail_patch, is_owned_by,
  complete_patch, SagaConfig, touch, fail,
}
use p2p_ledger_starter.Payments.LedgerGateway.{LedgerCommandError}
use p2p_ledger_starter.Common.{
  ok, err, Result, subst, ℕ, ◌≡◌, refl, ◌∙◌, true, false, Option, none, some, arith, inl, inr, ◌⊎◌,
}
use p2p_ledger_starter.Payments.World.{◌>>◌, roll_back, transaction, World}
use p2p_ledger_starter.Payments.TransferStatus.{assert_transfer_transition, completed, failed}

pub is_owned_by-some : (owner : ℕ) (o : Option ℕ) → is_owned_by owner o ≡ true → o ≡ some owner
is_owned_by-some owner none h = cc
is_owned_by-some owner (some o) h = ground arith

-- The transfer holds no funds: none were asked for, or the ledger released them.
abbrev pub IsUnheld : Transfer → World → Type 0
IsUnheld transfer w =
    IsSnapshot transfer w
    × ((transfer.hold_may_exist ≡ false) ⊎ (has_released transfer.id w ≡ true))

pub IsUnheld-IsStable : (transfer : Transfer) → IsStable (IsUnheld transfer)
IsUnheld-IsStable transfer = record {
  at = λ f (snapshot, free). (
    IsSnapshot-Follows transfer f snapshot,
    elim free [ inl never ↦ inl never | inr gone ↦ inr (f.released transfer.id gone) ],
  );
}

fail_patch-IsPatch :
    (transfer : Transfer) (failure : Option LedgerCommandError)
    → IsPatch (fail_patch transfer failure)
fail_patch-IsPatch transfer none = record {
  id = λ at row. refl;
  status = λ at row. refl;
  version = λ at row. refl;
  held = λ at row h. h;
}
fail_patch-IsPatch transfer (some failure) = record {
  id = λ at row. refl;
  status = λ at row. refl;
  version = λ at row. refl;
  held = λ at row h. h;
}

failed-IsSound :
    (w : World) (id : ℕ) (transfer row : Transfer) (failure : Option LedgerCommandError)
    → is_sound w id row ≡ true
    → (row.hold_may_exist ≡ false) ⊎ (has_released id w ≡ true)
    → is_sound w id (touch w.clock (to_status failed (fail_patch transfer failure) w.clock row))
      ≡ true
failed-IsSound w id transfer row none good (inl never) = ground arith
failed-IsSound w id transfer row none good (inr gone) = ground arith
failed-IsSound w id transfer row (some failure) good (inl never) = ground arith
failed-IsSound w id transfer row (some failure) good (inr gone) = ground arith

fail-Allows :
    (transfer : Transfer) (owner : ℕ) (failure : Option LedgerCommandError)
    → Allows (IsUnheld transfer) transfer owner failed (fail_patch transfer failure)
fail-Allows transfer owner failure w row sound (snapshot, free) (found, moved, version, leased) =
    failed-IsSound w transfer.id transfer row failure (sound.at transfer.id row found)
      (elim free [ inl never ↦ inl (moved.flag version ∙ never) | inr gone ↦ inr gone ])

abbrev pub Nothing : {A : Type 0} → A → World → Type 0
Nothing a w = Unit {0}

pub fail-Ensures :
    (config : SagaConfig) (transfer : Transfer) (owner : ℕ) (failure : Option LedgerCommandError)
    → Rely config.arrive
    → Ensures
        (IsUnheld transfer)
        (fail config transfer owner failure)
        Nothing
        (λ _. IsSnapshot transfer)
unfolding fail
fail-Ensures config transfer owner failure rely =
    Ensures-bind
      (Ensures-weaken {R = λ _. IsUnheld transfer} {P = IsUnheld transfer} (λ w p. p) (λ _ w q. q)
        (λ _ w r. r.0)
        (transition_claimed-Ensures (IsUnheld transfer) config transfer owner failed
          (fail_patch transfer failure) rely (fail_patch-IsPatch transfer failure)
          (IsUnheld-IsStable transfer) (λ w p. p.0) (fail-Allows transfer owner failure)))
      (λ _. Ensures-pure tt _ (λ w _. tt))

-- The ledger has settled the transfer.
abbrev pub IsSettled : Transfer → World → Type 0
IsSettled transfer w = IsSnapshot transfer w × (has_settled transfer.id w ≡ true)

pub IsSettled-IsStable : (transfer : Transfer) → IsStable (IsSettled transfer)
IsSettled-IsStable transfer = record {
  at = λ f (snapshot, done). (IsSnapshot-Follows transfer f snapshot, f.settled transfer.id done);
}

complete_patch-IsPatch : IsPatch complete_patch
complete_patch-IsPatch = record {
  id = λ at row. refl;
  status = λ at row. refl;
  version = λ at row. refl;
  held = λ at row h. h;
}

completed-IsSound :
    (w last : World) (id : ℕ) (row : Transfer)
    → is_sound w id row ≡ true
    → last.log ≡ w.log
    → has_settled id w ≡ true
    → is_announced id last ≡ true
    → is_sound last id (touch w.clock (to_status completed complete_patch w.clock row)) ≡ true
completed-IsSound w last id row good logs done told = rw logs (ground arith)

-- A transaction that throws leaves the world as it was, ids that were drawn aside.
pub rolled-Sound :
    (w next : World)
    → Sound w
    → next.log ≡ w.log
    → Sound (record next { db = w.db }) × Follows w (record next { db = w.db })
rolled-Sound w next sound logs = (
  record { at = λ id row h. rw logs (sound.at id row h) },
  record {
    rows = λ id row h. (row, h, Evolves-refl row);
    settled = λ id h. rw logs h;
    released = λ id h. rw logs h;
    announced = λ id h. h;
  },
)

completed-Post :
    (transfer : Transfer) (owner : ℕ) (start w : World) (row : Transfer)
    → Sound w
    → Follows start w
    → IsSettled transfer w
    → Updated transfer owner (to_status completed complete_patch) w row
    → assert_transfer_transition transfer.status completed ≡ ok tt
    → (outcome : Result SagaError (Unit {0}) × World)
    → Enqueued
        (put_transfer transfer.id
          (touch w.clock (to_status completed complete_patch w.clock row))
          w)
        outcome.1
    → (outcome.0 ≡ ok tt → is_announced row.id outcome.1 ≡ true)
    → Post start Nothing (λ _. IsSettled transfer) (roll_back w.db outcome)
completed-Post transfer owner start w row sound follows (snapshot, done) updated allowed
      (err e, last) wrote tells =
    let (sound', moves) = rolled-Sound w last sound wrote.log in
    (
      sound',
      Follows-trans follows moves,
      (IsSnapshot-Follows transfer moves snapshot, moves.settled transfer.id done),
    )
completed-Post transfer owner start w row sound follows (snapshot, done) updated allowed
      (ok value, last) wrote tells =
    let (found, moved, version, leased) = updated in
    let told : is_announced transfer.id last ≡ true =
      subst (λ id. is_announced id last ≡ true) moved.id (tells refl) in
    let (sound', moves, _) =
      change-Sound transfer owner completed complete_patch w last row complete_patch-IsPatch sound
        updated allowed wrote.transfers wrote.log wrote.announced
        (completed-IsSound w last transfer.id row (sound.at transfer.id row found) wrote.log done
          told) in
    (sound', Follows-trans follows moves, tt)

complete_in_transaction-Ensures :
    (transfer : Transfer) (owner : ℕ)
    → Ensures
        (IsSettled transfer)
        (transaction (complete_in_transaction transfer owner))
        Nothing
        (λ _. IsSettled transfer)
unfolding complete_in_transaction
complete_in_transaction-Ensures transfer owner = record {
  at = λ start w sound follows settled.
      elim (transition-cases transfer owner completed complete_patch w settled.0) [
        | inl (e, refused) ↦
            rw (transaction, complete_in_transaction, refused, Post) (sound, follows, settled)
        | inr (row, updated, allowed, done) ↦
            let later : Transfer = touch w.clock (to_status completed complete_patch w.clock row) in
            let (wrote, tells) = announce-cases later (put_transfer transfer.id later w) in
            rw (transaction, complete_in_transaction, done)
              (completed-Post transfer owner start w row sound follows settled updated allowed
                ((from_outbox (enqueue_transfer_completed later)
                    >> from_outbox (enqueue_split_share_paid later))
                  (put_transfer transfer.id later w))
                wrote tells)
      ];
}

pub complete-Ensures :
    (config : SagaConfig) (transfer : Transfer) (owner : ℕ)
    → Rely config.arrive
    → Ensures
        (IsSettled transfer)
        (complete config transfer owner)
        Nothing
        (λ _. IsSnapshot transfer)
unfolding complete
complete-Ensures config transfer owner rely =
    Ensures-weaken {R = λ _. IsSettled transfer} {P = IsSettled transfer} (λ w p. p) (λ _ w q. q)
      (λ _ w r. r.0)
      (Ensures-bind (Ensures-arrive config.arrive rely (IsSettled-IsStable transfer))
        (λ _. complete_in_transaction-Ensures transfer owner))
