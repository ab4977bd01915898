-- ===== src/Payments/Saga/Leases.antt =====
-- What a worker that has lost its lease can still do.
use p2p_ledger_starter.Payments.Tables.{Transfer}
use p2p_ledger_starter.Payments.Saga.{
  transition_claimed, is_claimed_in_status, SagaError, lease_lost, update_transfer, update_claimed,
  transition_using_manager, find_transfer, check_transition, SagaConfig, is_claimed,
}
use p2p_ledger_starter.Common.{
  ◌≢◌, inl, inr, ◌⊎◌, ℕ, ◌≡◌, refl, ◌∙◌, ap, Bool, false, some, ok, err, arith,
}
use p2p_ledger_starter.Common.Dict.{lookup}
use p2p_ledger_starter.Payments.World.{World, Action, modify, ◌>>=◌, ◌>>◌, continue, roll_back}
use p2p_ledger_starter.Payments.TransferStatus.{TransferStatus, assert_transfer_transition}

bind-err :
    {E A B : Type 0} (m : Action E A) (f : A → Action E B) {w next : World} {e : E}
    → m w ≡ (err e, next)
    → (m >>= f) w ≡ (err e, next)
bind-err m f thrown = ap (λ r. continue r f) thrown

unclaimed-status :
    (transfer : Transfer) (owner : ℕ) (row : Transfer)
    → is_claimed transfer owner row ≡ false
    → is_claimed_in_status transfer owner row ≡ false
unclaimed-status transfer owner row lost = ground arith

lost-unclaimed :
    (transfer : Transfer) (owner : ℕ) (row : Transfer)
    → (row.version ≢ transfer.version) ⊎ (row.lease_owner ≢ some owner)
    → is_claimed transfer owner row ≡ false
lost-unclaimed transfer owner row (inl moved) = ground arith
lost-unclaimed transfer owner row (inr other) = ground (arith, other)

update_transfer-lost :
    (id : ℕ) (row : Transfer) (matches : Transfer → Bool) (change : ℕ → Transfer → Transfer)
    (w : World)
    → lookup id w.db.transfers ≡ some row
    → matches row ≡ false
    → update_transfer id matches change w ≡ (err lease_lost, w)
update_transfer-lost id row matches change w found lost = rw (update_transfer, found, lost) refl

-- Where, when a worker's statement comes to the database, the row has another version than the worker
-- read or another lease owner, the update of a claimed transfer throws that the lease is lost and writes
-- nothing, whatever it was to set; and a transition that is allowed from the status that the worker read
-- does the same.
pub update_claimed-lost :
    (config : SagaConfig) (transfer row : Transfer) (owner : ℕ) (next : TransferStatus)
    (patch : ℕ → Transfer → Transfer) (w : World)
    → lookup transfer.id (config.arrive w).db.transfers ≡ some row
    → (row.version ≢ transfer.version) ⊎ (row.lease_owner ≢ some owner)
    → assert_transfer_transition transfer.status next ≡ ok tt
    → (update_claimed config transfer owner patch w ≡ (err lease_lost, config.arrive w))
      × (transition_claimed config transfer owner next patch w ≡ (err lease_lost, config.arrive w))
unfolding update_claimed transition_claimed transition_using_manager
update_claimed-lost config transfer row owner next patch w found moved allowed =
    let lost = lost-unclaimed transfer owner row moved in
    let arrived : World = config.arrive w in
    let write =
      modify {E = SagaError} config.arrive
      >> update_transfer transfer.id (is_claimed transfer owner) patch in
    let change = λ (at : ℕ) (row : Transfer). record (patch at row) { status = next } in
    let moves =
      check_transition transfer.status next
      >> update_transfer transfer.id (is_claimed_in_status transfer owner) change in
    let checked : check_transition transfer.status next arrived ≡ (ok tt, arrived) =
      rw (check_transition, allowed) refl in
    (
      bind-err (write >> modify config.arrive) (λ _. find_transfer transfer.id)
          (bind-err write (λ _. modify config.arrive)
            (update_transfer-lost transfer.id row (is_claimed transfer owner) patch arrived found
              lost)),
      ap (roll_back arrived.db) (
          bind-err moves (λ _. find_transfer transfer.id)
            (ap
                (λ r.
                  continue r
                    (λ _. update_transfer transfer.id (is_claimed_in_status transfer owner) change))
                checked
              ∙ update_transfer-lost transfer.id row (is_claimed_in_status transfer owner) change
                  arrived found (unclaimed-status transfer owner row lost))),
    )
