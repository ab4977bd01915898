-- ===== src/Payments/Saga/Transitions.antt =====
-- The transitions that a worker makes of the transfer it has claimed, each in a transaction.
use p2p_ledger_starter.Payments.Tables.{invalid_transition, Transfer}
use p2p_ledger_starter.Payments.Saga.Updates.{put-Sound}
use p2p_ledger_starter.Payments.Saga.Evolution.{
  Evolves-refl, Evolves, Follows, Follows-trans, Rely, is_sound, IsSnapshot, Evolves-trans,
  is_announced, Sound,
}
use p2p_ledger_starter.Payments.Saga.Ensures.{
  IsSnapshot-IsStable, Ensures, Post, Ensures-bind, Ensures-arrive, IsStable,
}
use p2p_ledger_starter.Payments.Saga.Claimed.{
  Updated, IsPatch, open-IsSound, update_transfer-cases, transition-Evolves,
}
use p2p_ledger_starter.Payments.Saga.{
  unexpected, SagaConfig, transition_claimed, is_claimed, is_terminal, transition_using_manager,
  touch, check_transition, is_claimed_in_status, find_transfer, lease_lost, SagaError, put_transfer,
}
use p2p_ledger_starter.Common.{
  ◌<◌, ℕ, ◌≡◌, refl, ◌∙◌, ap, true, false, some, ok, err, ==_refl, arith, inl, inr, ◌⊎◌,
  Result-cases,
}
use p2p_ledger_starter.Common.Dict.{lookup, insert, lookup-insert}
use p2p_ledger_starter.Payments.World.{World, transaction}
use p2p_ledger_starter.Payments.TransferStatus.{
  longest, longest-transition, TransferStatus, assert_transfer_transition,
}

abbrev pub to_status : TransferStatus → (ℕ → Transfer → Transfer) → ℕ → Transfer → Transfer
to_status next patch at row = record (patch at row) { status = next }

lookup-put :
    (id : ℕ) (later : Transfer) (w : World)
    → lookup id (insert id later w.db.transfers) ≡ some later
lookup-put id later w = ground (arith, lookup-insert id id later w.db.transfers, ==_refl id)

claimed_in_status-claimed :
    (transfer : Transfer) (owner : ℕ) (row : Transfer)
    → is_claimed_in_status transfer owner row ≡ true
    → is_claimed transfer owner row ≡ true
claimed_in_status-claimed transfer owner row h = ground arith

-- A transition throws and leaves the world alone, or its row moves on to the status.
pub transition-cases :
    (transfer : Transfer) (owner : ℕ) (next : TransferStatus) (patch : ℕ → Transfer → Transfer)
    (w : World)
    → IsSnapshot transfer w
    → ((e : SagaError) × (transition_using_manager transfer owner next patch w ≡ (err e, w)))
      ⊎ ((row : Transfer) × Updated transfer owner (to_status next patch) w row
          × (assert_transfer_transition transfer.status next ≡ ok tt)
          × (transition_using_manager transfer owner next patch w ≡ (
            ok (touch w.clock (to_status next patch w.clock row)),
            put_transfer transfer.id (touch w.clock (to_status next patch w.clock row)) w,
          )))
unfolding transition_using_manager
transition-cases transfer owner next patch w snapshot =
    elim (Result-cases (assert_transfer_transition transfer.status next)) [
      | inr (e, refused) ↦ inl (unexpected invalid_transition, rw (check_transition, refused) refl)
      | inl (value, allowed) ↦
          elim (update_transfer-cases transfer owner (is_claimed_in_status transfer owner)
            (to_status next patch) w snapshot (claimed_in_status-claimed transfer owner)) [
              | inl lost ↦ inl (lease_lost, rw (check_transition, allowed, lost) refl)
              | inr (row, updated, done) ↦ inr (
                row,
                updated,
                allowed,
                rw
                    (
                      check_transition,
                      allowed,
                      done,
                      find_transfer,
                      lookup-put transfer.id (touch w.clock (to_status next patch w.clock row)) w,
                    )
                    refl,
              )
            ]
    ]

abbrev pub Moved : Transfer → TransferStatus → Transfer → World → Type 0
Moved transfer next later w =
    IsSnapshot later w
    × Evolves transfer later
    × (later.status ≡ next)
    × (longest later.status < longest transfer.status)

-- The row of a transition moves on, in a world that differs in the row and in the outbox at most.
pub change-Sound :
    (transfer : Transfer) (owner : ℕ) (next : TransferStatus) (patch : ℕ → Transfer → Transfer)
    (w last : World) (row : Transfer)
    → IsPatch patch
    → Sound w
    → Updated transfer owner (to_status next patch) w row
    → assert_transfer_transition transfer.status next ≡ ok tt
    → last.db.transfers
      ≡ insert transfer.id (touch w.clock (to_status next patch w.clock row)) w.db.transfers
    → last.log ≡ w.log
    → ((j : ℕ) → is_announced j w ≡ true → is_announced j last ≡ true)
    → is_sound last transfer.id (touch w.clock (to_status next patch w.clock row)) ≡ true
    → Sound last
      × Follows w last
      × Moved transfer next (touch w.clock (to_status next patch w.clock row)) last
change-Sound transfer owner next patch w last row is sound (found, moved, version, leased) allowed
      tables logs announces good =
    let later : Transfer = touch w.clock (to_status next patch w.clock row) in
    let step =
      transition-Evolves patch next w.clock row is
        (ap (λ s. assert_transfer_transition s next) (moved.status version) ∙ allowed) in
    let whole = Evolves-trans moved step in
    let (sound', moves, found') =
      put-Sound w last transfer.id row later sound found tables logs announces step good in
    (
      sound',
      moves,
      (
        (later, ap (λ k. lookup k last.db.transfers) whole.id ∙ found', Evolves-refl later),
        whole,
        refl,
        longest-transition transfer.status next allowed,
      ),
    )

-- Whether a fact about the world lets the row be sound in its new status.
abbrev pub Allows :
    (World → Type 0) → Transfer → ℕ → TransferStatus → (ℕ → Transfer → Transfer) → Type 0
Allows P transfer owner next patch =
    (w : World) (row : Transfer)
    → Sound w
    → P w
    → Updated transfer owner (to_status next patch) w row
    → is_sound w transfer.id (touch w.clock (to_status next patch w.clock row)) ≡ true

pub transition-Ensures :
    (P : World → Type 0) (transfer : Transfer) (owner : ℕ) (next : TransferStatus)
    (patch : ℕ → Transfer → Transfer)
    → IsPatch patch
    → ((w : World) → P w → IsSnapshot transfer w)
    → Allows P transfer owner next patch
    → Ensures P
        (transaction (transition_using_manager transfer owner next patch))
        (Moved transfer next)
        (λ _. P)
transition-Ensures P transfer owner next patch is reads allows = record {
  at = λ start w sound follows p. elim (transition-cases transfer owner next patch w (reads w p)) [
    | inl (e, refused) ↦ rw (transaction, refused, Post) (sound, follows, p)
    | inr (row, updated, allowed, done) ↦
        let (sound', moves, moved) =
          change-Sound transfer owner next patch w
            (put_transfer transfer.id (touch w.clock (to_status next patch w.clock row)) w) row is
            sound updated allowed refl refl (λ j h. h) (allows w row sound p updated) in
        rw (transaction, done, Post) (sound', Follows-trans follows moves, moved)
  ];
}

pub transition_claimed-Ensures :
    (P : World → Type 0) (config : SagaConfig) (transfer : Transfer) (owner : ℕ)
    (next : TransferStatus) (patch : ℕ → Transfer → Transfer)
    → Rely config.arrive
    → IsPatch patch
    → IsStable P
    → ((w : World) → P w → IsSnapshot transfer w)
    → Allows P transfer owner next patch
    → Ensures P (transition_claimed config transfer owner next patch) (Moved transfer next) (λ _. P)
unfolding transition_claimed
transition_claimed-Ensures P config transfer owner next patch rely is stable reads allows =
    Ensures-bind (Ensures-arrive config.arrive rely stable)
      (λ _. transition-Ensures P transfer owner next patch is reads allows)

-- A transition to a status that is not final.
pub move_claimed-Ensures :
    (config : SagaConfig) (transfer : Transfer) (owner : ℕ) (next : TransferStatus)
    (patch : ℕ → Transfer → Transfer)
    → Rely config.arrive
    → IsPatch patch
    → is_terminal next ≡ false
    → Ensures
        (IsSnapshot transfer)
        (transition_claimed config transfer owner next patch)
        (Moved transfer next)
        (λ _. IsSnapshot transfer)
move_claimed-Ensures config transfer owner next patch rely is unfinished =
    transition_claimed-Ensures (IsSnapshot transfer) config transfer owner next patch rely is
      (IsSnapshot-IsStable transfer) (λ w p. p)
      (λ w row sound p (found, _, _, leased).
        open-IsSound w transfer.id row (touch w.clock (to_status next patch w.clock row))
          (sound.at transfer.id row found) (is.id w.clock row) (is.held w.clock row) unfinished)
