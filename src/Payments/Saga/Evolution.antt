-- ===== src/Payments/Saga/Evolution.antt =====
-- How the world of the saga may change: rows only move forward, and a row agrees with what the ledger
-- answered and with the outbox.
use p2p_ledger_starter.Payments.Tables.{Transfer, transfer_completed, PaymentOutboxMessage}
use p2p_ledger_starter.Payments.Saga.{is_terminal}
use p2p_ledger_starter.Payments.LedgerGateway.{
  ReleaseAnswer, settle_asked, Exchange, hold_asked, release_asked,
}
use p2p_ledger_starter.Common.{
  ℕ, suc, ◌≤◌, ◌≡◌, refl, ◌∙◌, Bool, true, false, ◌&&◌, ◌||◌, not, some, any, ok, ◌==◌, arith,
  is_some,
}
use p2p_ledger_starter.Common.Dict.{lookup}
use p2p_ledger_starter.Payments.World.{World}
use p2p_ledger_starter.Payments.TransferStatus.{
  Run-falls, TransferStatus, Run, stay, move, completed, failed, longest,
}

-- A row's later state: its status was reached by transitions that are allowed, each under a new
-- version, and a hold that may exist is never forgotten.
pub record Evolves (old new : Transfer) : Type 0 where
  pub id : new.id ≡ old.id
  pub version : old.version ≤ new.version
  pub status : new.version ≡ old.version → new.status ≡ old.status
  pub flag : new.version ≡ old.version → new.hold_may_exist ≡ old.hold_may_exist
  pub held : old.hold_may_exist ≡ true → new.hold_may_exist ≡ true
  pub steps : (n : ℕ) × Run old.status n new.status

pub Evolves-refl : (row : Transfer) → Evolves row row
Evolves-refl row = record {
  id = refl;
  version = omega arith;
  status = λ _. refl;
  flag = λ _. refl;
  held = λ h. h;
  steps = (0, stay);
}

Run-append : {s t u : TransferStatus} {n m : ℕ} → Run s n t → Run t m u → (k : ℕ) × Run s k u
Run-append {m = m} stay run = (m, run)
Run-append (move h first) run = let (k, rest) = Run-append first run in (suc k, move h rest)

pub Evolves-trans : {a b c : Transfer} → Evolves a b → Evolves b c → Evolves a c
Evolves-trans {a} {b} {c} f g =
    let same : c.version ≡ a.version → (c.version ≡ b.version) × (b.version ≡ a.version) =
      λ e. (omega (arith, e, f.version, g.version), omega (arith, e, f.version, g.version)) in
    record {
      id = g.id ∙ f.id;
      version = omega (arith, f.version, g.version);
      status = λ e. g.status (same e).0 ∙ f.status (same e).1;
      flag = λ e. g.flag (same e).0 ∙ f.flag (same e).1;
      held = λ h. g.held (f.held h);
      steps = Run-append f.steps.1 g.steps.1;
    }

-- A row that has moved on has fewer transitions left.
pub Evolves-longest : {a b : Transfer} → Evolves a b → longest b.status ≤ longest a.status
Evolves-longest {a} {b} f = Run-falls f.steps.1

abbrev pub is_settlement : ℕ → Exchange → Bool
is_settlement id (settle_asked j (ok _)) = j == id
is_settlement id (release_asked j (ok ReleaseAnswer.already_settled)) = j == id
is_settlement id _ = false

abbrev pub is_release : ℕ → Exchange → Bool
is_release id (release_asked j (ok ReleaseAnswer.released)) = j == id
is_release id _ = false

abbrev pub is_hold : ℕ → Exchange → Bool
is_hold id (hold_asked j _) = j == id
is_hold id _ = false

-- The event `payments.transfer.Completed` of a transfer.
abbrev pub is_announcement : ℕ → PaymentOutboxMessage → Bool
is_announcement id m = elim m.event.event_type [
  | transfer_completed ↦ m.event.aggregate_id == id
  | _ ↦ false
]

abbrev pub has_settled : ℕ → World → Bool
has_settled id w = any (is_settlement id) w.log

abbrev pub has_released : ℕ → World → Bool
has_released id w = any (is_release id) w.log

abbrev pub has_asked_hold : ℕ → World → Bool
has_asked_hold id w = any (is_hold id) w.log

abbrev pub is_announced : ℕ → World → Bool
is_announced id w = any (is_announcement id) w.db.outbox

abbrev pub implies : Bool → Bool → Bool
implies a b = not a || b

abbrev pub is_failed : TransferStatus → Bool
is_failed failed = true
is_failed _ = false

abbrev pub is_finished : TransferStatus → Bool
is_finished completed = true
is_finished _ = false

-- A completed transfer was settled at the ledger and is announced; a failed one has no hold, or the
-- ledger has released it; a hold that was asked for is known to its row; and no finished transfer is
-- leased.
abbrev pub sound_with : Bool → Bool → Bool → Bool → ℕ → Transfer → Bool
sound_with settled announced released asked id row =
    row.id == id
    && (implies (is_finished row.status) (settled && announced)
        && (implies (is_failed row.status) (not row.hold_may_exist || released)
            && (implies asked row.hold_may_exist
                && implies (is_terminal row.status) (not (is_some row.lease_owner)))))

abbrev pub is_sound : World → ℕ → Transfer → Bool
is_sound w id row =
    sound_with (has_settled id w) (is_announced id w) (has_released id w) (has_asked_hold id w) id
      row

pub record Sound (w : World) : Type 0 where
  pub at :
      (id : ℕ) (row : Transfer) → lookup id w.db.transfers ≡ some row → is_sound w id row ≡ true

-- A later world: no row is lost, each has moved forward, and what the ledger answered and what was
-- announced stays known.
pub record Follows (w next : World) : Type 0 where
  pub rows :
      (id : ℕ) (row : Transfer)
      → lookup id w.db.transfers ≡ some row
      → (later : Transfer) × (lookup id next.db.transfers ≡ some later) × Evolves row later
  pub settled : (id : ℕ) → has_settled id w ≡ true → has_settled id next ≡ true
  pub released : (id : ℕ) → has_released id w ≡ true → has_released id next ≡ true
  pub announced : (id : ℕ) → is_announced id w ≡ true → is_announced id next ≡ true

pub Follows-refl : (w : World) → Follows w w
Follows-refl w = record {
  rows = λ id row h. (row, h, Evolves-refl row);
  settled = λ id h. h;
  released = λ id h. h;
  announced = λ id h. h;
}

pub Follows-trans : {a b c : World} → Follows a b → Follows b c → Follows a c
Follows-trans f g = record {
  rows = λ id row h.
      let (middle, found, first) = f.rows id row h in
      let (last, found', rest) = g.rows id middle found in (last, found', Evolves-trans first rest);
  settled = λ id h. g.settled id (f.settled id h);
  released = λ id h. g.released id (f.released id h);
  announced = λ id h. g.announced id (f.announced id h);
}

-- What was read of a transfer: its row is there, and has moved forward at most.
abbrev pub IsSnapshot : Transfer → World → Type 0
IsSnapshot transfer w =
    (row : Transfer) × (lookup transfer.id w.db.transfers ≡ some row) × Evolves transfer row

pub IsSnapshot-Follows :
    (transfer : Transfer) {w next : World}
    → Follows w next
    → IsSnapshot transfer w
    → IsSnapshot transfer next
IsSnapshot-Follows transfer f (row, found, moved) =
    let (later, found', rest) = f.rows transfer.id row found in
    (later, found', Evolves-trans moved rest)

-- What others do keeps every row sound and only moves the world forward.
pub record Rely (arrive : World → World) : Type 0 where
  pub at : (w : World) → Sound w → Sound (arrive w) × Follows w (arrive w)
