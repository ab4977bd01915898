-- ===== src/Payments/Saga/Asking.antt =====
-- The calls of the ledger: each is on the log with its answer.
use p2p_ledger_starter.Payments.Tables.{Transfer}
use p2p_ledger_starter.Payments.Saga.Updates.{is_sound-held, some-injective, is_sound-grows}
use p2p_ledger_starter.Payments.Saga.Evolution.{
  IsSnapshot, implies, is_release, Follows-trans, Follows, is_settlement, IsSnapshot-Follows,
  is_sound, Rely, Sound, has_asked_hold, Evolves-refl, is_hold,
}
use p2p_ledger_starter.Payments.Saga.Ensures.{Post, Ensures}
use p2p_ledger_starter.Payments.Saga.{ask, SagaConfig, ledger_failed}
use p2p_ledger_starter.Payments.LedgerGateway.{Exchange, LedgerCommandError}
use p2p_ledger_starter.Common.{
  ℕ, ◌≡◌, refl, sym, ◌∙◌, ap, Bool, true, false, ◌||◌, some, List, ◌∷◌, Result, ok, err, or-true,
}
use p2p_ledger_starter.Common.Dict.{lookup}
use p2p_ledger_starter.Payments.World.{World, throw, recover}

-- A call for a hold is made for a transfer whose row knows of it.
abbrev pub IsKnown : {A : Type 0} → (ℕ → Result LedgerCommandError A → Exchange) → Transfer → Type 0
IsKnown {A} exchange transfer =
    (id : ℕ) (answer : Result LedgerCommandError A)
    → is_hold id (exchange transfer.id answer) ≡ true
    → (transfer.id ≡ id) × (transfer.hold_may_exist ≡ true)

held-row :
    (transfer : Transfer) (w : World) (id : ℕ) (row : Transfer) (asks : Bool)
    → IsSnapshot transfer w
    → lookup id w.db.transfers ≡ some row
    → is_sound w id row ≡ true
    → (asks ≡ true → (transfer.id ≡ id) × (transfer.hold_may_exist ≡ true))
    → implies (asks || has_asked_hold id w) row.hold_may_exist ≡ true
held-row transfer w id row false snapshot found good known = is_sound-held w id row good
held-row transfer w id row true (current, read, moved) found good known =
    let (here, flag) = known refl in
    let same : current ≡ row =
      some-injective (sym read ∙ ap (λ k. lookup k w.db.transfers) here ∙ found) in
    let held : row.hold_may_exist ≡ true =
      ap (λ r. r.hold_may_exist) (sym same) ∙ moved.held flag in
    rw held refl

logged-Sound :
    (transfer : Transfer) (w : World) (e : Exchange)
    → Sound w
    → IsSnapshot transfer w
    → ((id : ℕ) → is_hold id e ≡ true → (transfer.id ≡ id) × (transfer.hold_may_exist ≡ true))
    → Sound (record w { log = e ∷ w.log }) × Follows w (record w { log = e ∷ w.log })
logged-Sound transfer w e sound snapshot known = (
  record {
    at = λ id row found.
        let good = sound.at id row found in
        is_sound-grows w (record w { log = e ∷ w.log }) id row (λ h. or-true (is_settlement id e) h)
          (λ h. or-true (is_release id e) h) (λ h. h)
          (held-row transfer w id row (is_hold id e) snapshot found good (known id)) good;
  },
  record {
    rows = λ id row found. (row, found, Evolves-refl row);
    settled = λ id h. or-true (is_settlement id e) h;
    released = λ id h. or-true (is_release id e) h;
    announced = λ id h. h;
  },
)

-- The answer is what was logged last.
abbrev pub Answered :
    {A : Type 0} → (ℕ → Result LedgerCommandError A → Exchange) → Transfer → A → World → Type 0
Answered exchange transfer a w =
    IsSnapshot transfer w × ((rest : List Exchange) × (w.log ≡ exchange transfer.id (ok a) ∷ rest))

reply-Post :
    {A : Type 0} (exchange : ℕ → Result LedgerCommandError A → Exchange) (transfer : Transfer)
    (start w : World) (answer : Result LedgerCommandError A)
    → Sound (record w { log = exchange transfer.id answer ∷ w.log })
    → Follows start (record w { log = exchange transfer.id answer ∷ w.log })
    → IsSnapshot transfer w
    → Post start
        (Answered exchange transfer)
        (λ _. IsSnapshot transfer)
        (recover
          (answer, record w { log = exchange transfer.id answer ∷ w.log })
          (λ e. throw {A = A} (ledger_failed e)))
reply-Post exchange transfer start w (ok a) sound follows snapshot =
    (sound, follows, (snapshot, (w.log, refl)))
reply-Post exchange transfer start w (err e) sound follows snapshot = (sound, follows, snapshot)

pub ask-Ensures :
    {A : Type 0} (config : SagaConfig)
    (call : List Exchange → Transfer → Result LedgerCommandError A)
    (exchange : ℕ → Result LedgerCommandError A → Exchange) (transfer : Transfer)
    → Rely config.arrive
    → IsKnown exchange transfer
    → Ensures
        (IsSnapshot transfer)
        (ask config call exchange transfer)
        (Answered exchange transfer)
        (λ _. IsSnapshot transfer)
unfolding ask
ask-Ensures config call exchange transfer rely known = record {
  at = λ start w0 sound0 follows0 snapshot0.
      let w : World = config.arrive w0 in
      let (sound, moves) = rely.at w0 sound0 in
      let snapshot = IsSnapshot-Follows transfer moves snapshot0 in
      let answer = call w.log transfer in
      let (sound', logged) =
        logged-Sound transfer w (exchange transfer.id answer) sound snapshot
          (λ id h. known id answer h) in
      reply-Post exchange transfer start w answer sound'
        (Follows-trans follows0 (Follows-trans moves logged)) snapshot;
}
