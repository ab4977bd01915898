-- ===== src/Payments/Saga/Claimed.antt =====
-- The updates that a worker makes of the transfer it has claimed.
use p2p_ledger_starter.Payments.Saga.Updates.{put-Sound}
use p2p_ledger_starter.Payments.Saga.Ensures.{
  IsStable, Ensures-arrive, IsSnapshot-IsStable, Ensures, Ensures-bind, Post,
}
use p2p_ledger_starter.Payments.Tables.{Transfer}
use p2p_ledger_starter.Payments.Saga.Evolution.{
  Follows-trans, Rely, Follows, Evolves-trans, Sound, Evolves-refl, is_sound, Evolves, IsSnapshot,
}
use p2p_ledger_starter.Payments.Saga.{
  SagaConfig, SagaError, update_claimed, find_transfer, is_owned_by, put_transfer, is_terminal,
  lease_lost, update_transfer, touch, is_claimed,
}
use p2p_ledger_starter.Common.{
  ℕ, ◌≡◌, refl, sym, ◌∙◌, ap, subst, Bool, true, false, some, ok, err, arith, inl, inr, ◌⊎◌,
  Bool-cases,
}
use p2p_ledger_starter.Common.Dict.{lookup}
use p2p_ledger_starter.Payments.World.{World}
use p2p_ledger_starter.Payments.TransferStatus.{
  TransferStatus, Run, stay, move, assert_transfer_transition,
}

-- The fields of a patch leave the row's identity, status and version alone, and forget no hold.
pub record IsPatch (patch : ℕ → Transfer → Transfer) : Type 0 where
  pub id : (at : ℕ) (row : Transfer) → (patch at row).id ≡ row.id
  pub status : (at : ℕ) (row : Transfer) → (patch at row).status ≡ row.status
  pub version : (at : ℕ) (row : Transfer) → (patch at row).version ≡ row.version
  pub held :
      (at : ℕ) (row : Transfer) → row.hold_may_exist ≡ true → (patch at row).hold_may_exist ≡ true

pub patch-Evolves :
    (patch : ℕ → Transfer → Transfer) (at : ℕ) (row : Transfer)
    → IsPatch patch
    → Evolves row (touch at (patch at row))
patch-Evolves patch at row is = record {
  id = is.id at row;
  version = omega (arith, is.version at row);
  status = λ e. absurd (omega (arith, is.version at row, e));
  flag = λ e. absurd (omega (arith, is.version at row, e));
  held = is.held at row;
  steps = (0, subst (λ s. Run row.status 0 s) (sym (is.status at row)) stay);
}

pub transition-Evolves :
    (patch : ℕ → Transfer → Transfer) (next : TransferStatus) (at : ℕ) (row : Transfer)
    → IsPatch patch
    → assert_transfer_transition row.status next ≡ ok tt
    → Evolves row (touch at (record (patch at row) { status = next }))
transition-Evolves patch next at row is allowed = record {
  id = is.id at row;
  version = omega (arith, is.version at row);
  status = λ e. absurd (omega (arith, is.version at row, e));
  flag = λ e. absurd (omega (arith, is.version at row, e));
  held = is.held at row;
  steps = (1, move allowed stay);
}

-- A row that is leased is not finished, and stays sound while it is not finished.
pub open-IsSound :
    (w : World) (id : ℕ) (row later : Transfer)
    → is_sound w id row ≡ true
    → later.id ≡ row.id
    → (row.hold_may_exist ≡ true → later.hold_may_exist ≡ true)
    → is_terminal later.status ≡ false
    → is_sound w id later ≡ true
open-IsSound w id row later good same held unfinished = ground arith

pub leased-open :
    (w : World) (id owner : ℕ) (row : Transfer)
    → is_sound w id row ≡ true
    → is_owned_by owner row.lease_owner ≡ true
    → is_terminal row.status ≡ false
leased-open w id owner row good leased = ground arith

-- What an update of the transfer `transfer` does: nothing, or one row moves on.
abbrev pub Updated : Transfer → ℕ → (ℕ → Transfer → Transfer) → World → Transfer → Type 0
Updated transfer owner change w row =
    (lookup transfer.id w.db.transfers ≡ some row)
    × Evolves transfer row
    × (row.version ≡ transfer.version)
    × (is_owned_by owner row.lease_owner ≡ true)

pub update_transfer-cases :
    (transfer : Transfer) (owner : ℕ) (matches : Transfer → Bool) (change : ℕ → Transfer → Transfer)
    (w : World)
    → IsSnapshot transfer w
    → ((row : Transfer) → matches row ≡ true → is_claimed transfer owner row ≡ true)
    → (update_transfer transfer.id matches change w ≡ (err lease_lost, w))
      ⊎ ((row : Transfer) × Updated transfer owner change w row
          × (update_transfer transfer.id matches change w
              ≡ (ok tt, put_transfer transfer.id (touch w.clock (change w.clock row)) w)))
update_transfer-cases transfer owner matches change w (row, found, moved) claims =
    elim (Bool-cases (matches row)) [
      | inr other ↦ inl (rw (update_transfer, found, other) refl)
      | inl matched ↦
          let claimed = claims row matched in
          inr (
            row,
            (found, moved, ground arith, ground arith),
            rw (update_transfer, found, matched) refl,
          )
    ]

-- A later state of the transfer is in its row, behind the change.
abbrev pub Passed : Transfer → (ℕ → Transfer → Transfer) → World → Type 0
Passed transfer change w =
    (later : Transfer) × (lookup transfer.id w.db.transfers ≡ some later)
    × Evolves transfer later
    × ((old : Transfer) × (at : ℕ) × Evolves (touch at (change at old)) later)

pub Passed-IsStable :
    (transfer : Transfer) (change : ℕ → Transfer → Transfer) → IsStable (Passed transfer change)
Passed-IsStable transfer change = record {
  at = λ f (later, found, moved, (old, at, changed)).
      let (last, found', rest) = f.rows transfer.id later found in
      (last, found', Evolves-trans moved rest, (old, at, Evolves-trans changed rest));
}

-- What was read behind an update.
abbrev pub Reread : Transfer → (ℕ → Transfer → Transfer) → Transfer → World → Type 0
Reread transfer change next w =
    IsSnapshot next w
    × Evolves transfer next
    × ((old : Transfer) × (at : ℕ) × Evolves (touch at (change at old)) next)

pub find-Reread :
    (transfer : Transfer) (change : ℕ → Transfer → Transfer)
    → Ensures
        (Passed transfer change)
        (find_transfer transfer.id)
        (Reread transfer change)
        (λ _. IsSnapshot transfer)
find-Reread transfer change = record {
  at = λ start w sound follows (later, found, moved, changed).
      rw (find_transfer, found, Post)
        (
          sound,
          follows,
          (
            (later, ap (λ k. lookup k w.db.transfers) moved.id ∙ found, Evolves-refl later),
            moved,
            changed,
          ),
        );
}

put-Passed :
    (transfer : Transfer) (owner : ℕ) (patch : ℕ → Transfer → Transfer) (start w : World)
    (row : Transfer)
    → IsPatch patch
    → Sound w
    → Follows start w
    → Updated transfer owner patch w row
    → Post {E = SagaError} start
        (λ _. Passed transfer patch)
        (λ _. IsSnapshot transfer)
        (ok tt, put_transfer transfer.id (touch w.clock (patch w.clock row)) w)
put-Passed transfer owner patch start w row is sound follows (found, moved, version, leased) =
    let good = sound.at transfer.id row found in
    let later : Transfer = touch w.clock (patch w.clock row) in
    let step = patch-Evolves patch w.clock row is in
    let unfinished : is_terminal later.status ≡ false =
      rw (is.status w.clock row) (leased-open w transfer.id owner row good leased) in
    let (sound', moves, found') =
      put-Sound w (put_transfer transfer.id later w) transfer.id row later sound found refl refl
        (λ j h. h) step (open-IsSound w transfer.id row later good step.id step.held unfinished) in
    (
      sound',
      Follows-trans follows moves,
      (later, found', Evolves-trans moved step, (row, w.clock, Evolves-refl later)),
    )

pub update-Ensures :
    (transfer : Transfer) (owner : ℕ) (patch : ℕ → Transfer → Transfer)
    → IsPatch patch
    → Ensures
        (IsSnapshot transfer)
        (update_transfer transfer.id (is_claimed transfer owner) patch)
        (λ _. Passed transfer patch)
        (λ _. IsSnapshot transfer)
update-Ensures transfer owner patch is = record {
  at = λ start w sound follows snapshot.
      elim (update_transfer-cases transfer owner (is_claimed transfer owner) patch w snapshot
        (λ _ h. h)) [
          | inl lost ↦
              subst (Post start (λ _. Passed transfer patch) (λ _. IsSnapshot transfer)) (sym lost)
                (sound, follows, snapshot)
          | inr (row, updated, done) ↦
              subst (Post start (λ _. Passed transfer patch) (λ _. IsSnapshot transfer)) (sym done)
                (put-Passed transfer owner patch start w row is sound follows updated)
        ];
}

pub update_claimed-Ensures :
    (config : SagaConfig) (transfer : Transfer) (owner : ℕ) (patch : ℕ → Transfer → Transfer)
    → Rely config.arrive
    → IsPatch patch
    → Ensures
        (IsSnapshot transfer)
        (update_claimed config transfer owner patch)
        (Reread transfer patch)
        (λ _. IsSnapshot transfer)
unfolding update_claimed
update_claimed-Ensures config transfer owner patch rely is =
    Ensures-bind
      (Ensures-bind
        (Ensures-bind (Ensures-arrive config.arrive rely (IsSnapshot-IsStable transfer))
          (λ _. update-Ensures transfer owner patch is))
        (λ _. Ensures-arrive config.arrive rely (Passed-IsStable transfer patch)))
      (λ _. find-Reread transfer patch)
