-- ===== src/Payments/Saga/Liveness.antt =====
-- A run that nobody disturbs brings a transfer to its end.
use p2p_ledger_starter.Payments.Saga.Paying.{
  posted-AreFresh, posted, is_share_told, AreFresh, enqueue_split_share_paid-succeeds, IsKnownShare,
}
use p2p_ledger_starter.Payments.TransferPolicy.{validate_policy, PolicyConfig}
use p2p_ledger_starter.Payments.Saga.Steps.{
  run, claim_transfer, take_lease, go_on, settle, on_error, is_due, run_steps, claim_row,
  step_processing, returned, read_claimed, end_steps, step_in, run_claimed,
}
use p2p_ledger_starter.Payments.Saga.Completion.{
  pending-goes, IsAnswering, validating-goes, held-goes,
}
use p2p_ledger_starter.Payments.LedgerGateway.{settle_asked}
use p2p_ledger_starter.Payments.Tables.{
  PaymentsDb, Unexpected, PaymentOutboxMessage, Transfer, transfer_completed_v1,
}
use p2p_ledger_starter.Payments.Saga.Transitions.{to_status}
use p2p_ledger_starter.Payments.Saga.Success.{
  Onward-trans, ask-succeeds, catch-ok, bind-ok, transition_using_manager-succeeds, lookup-put,
  Leased,
}
use p2p_ledger_starter.Payments.Saga.Evolution.{is_announced}
use p2p_ledger_starter.Payments.Saga.Announcing.{
  enqueue_split_share_paid-Enqueues, Enqueued, enqueue_transfer_completed-announces,
}
use p2p_ledger_starter.Payments.Saga.{
  handle, find_transfer, SagaError, ask, is_terminal, put_transfer, complete_patch, SagaConfig,
  unexpected, from_outbox, touch, complete_in_transaction, complete, transition_using_manager,
}
use p2p_ledger_starter.Payments.OutboxEvents.{
  insert_event, enqueue_split_share_paid, completed_event, enqueue_transfer_completed, new_message,
}
use p2p_ledger_starter.Common.{
  Result, if◌then◌else◌, ◌≤◌, ◌≢◌, Bool, arith, subst, ℕ, suc, ◌≡◌, refl, sym, ◌∙◌, ap, true, false,
  Option, none, some, ◌∷◌, ok, ◌==◌, is_some,
}
use p2p_ledger_starter.Common.Dict.{lookup}
use p2p_ledger_starter.Payments.World.{
  ◌>>=◌, modify, pure, throwing_with, roll_back, World, ◌>>◌, transaction, throw,
}
use p2p_ledger_starter.Payments.TransferStatus.{
  pending, processing, completed, assert_transfer_transition,
}

-- The transfer is completed, its event is in the outbox, and that of its share, where it pays one.
abbrev pub IsDone : ℕ → World → Type 0
IsDone id w =
    (row : Transfer) × (lookup id w.db.transfers ≡ some row)
    × (row.status ≡ completed)
    × (is_announced id w ≡ true)
    × (is_share_told row.split_bill_share_id id w ≡ true)

is_some-some : {A : Type 0} (o : Option A) → is_some o ≡ true → (a : A) × (o ≡ some a)
is_some-some none h = cc
is_some-some (some a) h = (a, refl)

abbrev completed_message : Transfer → ℕ → World → PaymentOutboxMessage
completed_message transfer receiver w =
    new_message w.next_id transfer_completed_v1
      (completed_event transfer receiver w.next_id w.clock) w.clock

enqueue_transfer_completed-posts :
    (transfer : Transfer) (receiver : ℕ) (w : World)
    → transfer.receiver_wallet_id ≡ some receiver
    → AreFresh w
    → enqueue_transfer_completed transfer w
      ≡ (ok tt, posted (completed_message transfer receiver w) w)
unfolding enqueue_transfer_completed
enqueue_transfer_completed-posts transfer receiver w known fresh =
    let new = fresh w.next_id (omega arith) in
    rw (enqueue_transfer_completed, known, insert_event, new) refl

IsKnownShare-stays :
    (id : Option ℕ) (db db' : PaymentsDb)
    → db'.shares ≡ db.shares
    → db'.bills ≡ db.bills
    → IsKnownShare id db
    → IsKnownShare id db'
IsKnownShare-stays none db db' shares bills known = tt
IsKnownShare-stays (some id) db db' shares bills (share, bill, found, keyed, billed) =
    (share, bill, ap (lookup id) shares ∙ found, keyed, ap (lookup share.bill_id) bills ∙ billed)

IsKnownShare-kept :
    (id id' : Option ℕ) (db db' : PaymentsDb)
    → id' ≡ id
    → db'.shares ≡ db.shares
    → db'.bills ≡ db.bills
    → IsKnownShare id db
    → IsKnownShare id' db'
IsKnownShare-kept id id' db db' same shares bills known =
    subst (λ i. IsKnownShare i db') (sym same) (IsKnownShare-stays id db db' shares bills known)

-- The completion of a settled transfer.
complete-succeeds :
    (config : SagaConfig) (quiet : (w : World) → config.arrive w ≡ w) (transfer : Transfer)
    (owner receiver : ℕ) (w : World)
    → Leased transfer owner w
    → transfer.status ≡ processing
    → transfer.receiver_wallet_id ≡ some receiver
    → IsKnownShare transfer.split_bill_share_id w.db
    → AreFresh w
    → (last : World) × (complete config transfer owner w ≡ (ok tt, last)) × IsDone transfer.id last
unfolding complete complete_in_transaction assert_transfer_transition
complete-succeeds config quiet transfer owner receiver w leased here known share fresh =
    let later : Transfer = touch w.clock (to_status completed complete_patch w.clock transfer) in
    let moved : World = put_transfer transfer.id later w in
    let m = completed_message later receiver moved in
    let told = enqueue_transfer_completed-posts later receiver moved known fresh in
    let (last, paid_events, share_told) =
      enqueue_split_share_paid-succeeds transfer.split_bill_share_id later (posted m moved) refl
        (IsKnownShare-stays transfer.split_bill_share_id w.db (posted m moved).db refl refl share)
        (posted-AreFresh m moved refl fresh) in
    let enqueued : Enqueued (posted m moved) last =
      subst (λ (r : Result Unexpected (Unit {0}) × World). Enqueued (posted m moved) r.1)
        paid_events ((enqueue_split_share_paid-Enqueues later).at (posted m moved)) in
    let first : from_outbox (enqueue_transfer_completed later) moved ≡ (ok tt, posted m moved) =
      catch-ok (enqueue_transfer_completed later) (λ u. throw (unexpected u)) told in
    let second : from_outbox (enqueue_split_share_paid later) (posted m moved) ≡ (ok tt, last) =
      catch-ok (enqueue_split_share_paid later) (λ u. throw (unexpected u)) paid_events in
    let both : (from_outbox (enqueue_transfer_completed later)
            >> from_outbox (enqueue_split_share_paid later))
          moved
        ≡ (ok tt, last) =
      bind-ok (from_outbox (enqueue_transfer_completed later))
        (λ _. from_outbox (enqueue_split_share_paid later)) first
      ∙ second in
    let whole : complete_in_transaction transfer owner w ≡ (ok tt, last) =
      bind-ok (transition_using_manager transfer owner completed complete_patch)
        (λ row.
          from_outbox (enqueue_transfer_completed row)
          >> from_outbox (enqueue_split_share_paid row))
        (transition_using_manager-succeeds config quiet transfer owner completed complete_patch w
          leased (ap (λ s. assert_transfer_transition s completed) here))
      ∙ both in
    let announced : is_announced transfer.id (posted m moved) ≡ true =
      ap (λ r. is_announced transfer.id r.1) (sym told)
      ∙ enqueue_transfer_completed-announces later moved (ap (λ r. r.0) told) in
    (
      last,
      ap (λ u. transaction (complete_in_transaction transfer owner) u) (quiet w)
          ∙ ap (λ r. roll_back w.db r) whole,
      (
        later,
        ap (lookup transfer.id) enqueued.transfers ∙ lookup-put transfer.id later w,
        refl,
        enqueued.announced transfer.id announced,
        share_told,
      ),
    )

module _ (config : SagaConfig) (quiet : (w : World) → config.arrive w ≡ w)
    (answering : IsAnswering config.ledger) (owner now : ℕ) where
  settle-succeeds :
      (transfer : Transfer) (receiver : ℕ) (w : World)
      → Leased transfer owner w
      → transfer.status ≡ processing
      → transfer.receiver_wallet_id ≡ some receiver
      → IsKnownShare transfer.split_bill_share_id w.db
      → AreFresh w
      → (last : World) × (settle config owner transfer w ≡ (ok tt, last)) × IsDone transfer.id last
  unfolding settle
  settle-succeeds transfer receiver w leased here known share fresh =
      let asked : World = record w { log = settle_asked transfer.id (ok tt) ∷ w.log } in
      let leased' : Leased transfer owner asked = record {
        row = leased.row;
        lease = leased.lease;
      } in
      let (last, done, end) =
        complete-succeeds config quiet transfer owner receiver asked leased' here known share
          fresh in
      (
        last,
        bind-ok (ask config config.ledger.settle settle_asked transfer)
              (λ _. complete config transfer owner)
              (ask-succeeds config quiet config.ledger.settle settle_asked transfer w tt
                (answering.settles w.log transfer))
            ∙ done,
        end,
      )

  processing-ends :
      (n : ℕ) (transfer : Transfer) (w last : World)
      → transfer.status ≡ processing
      → settle config owner transfer w ≡ (ok tt, last)
      → run_steps (suc n) config owner now transfer w ≡ (ok none, last)
  unfolding run_steps step_in step_processing
  processing-ends n transfer w last here answered =
      let step = step_in transfer.status config owner now transfer in
      let returns : step w ≡ (ok returned, last) =
        ap (λ s. step_in s config owner now transfer w) here
        ∙ bind-ok (throwing_with transfer (settle config owner transfer)) (λ _. pure returned)
            (catch-ok (settle config owner transfer) (λ e. throw (e, transfer)) answered) in
      rw (run_steps, ap is_terminal here)
        (bind-ok (handle step (on_error config owner now))
          (λ progress. go_on progress (run_steps n config owner now))
          (catch-ok step (on_error config owner now) returns))

  run_steps-completes :
      (policy : PolicyConfig) (transfer : Transfer) (w : World)
      → Leased transfer owner w
      → transfer.status ≡ pending
      → config.policy ≡ some policy
      → validate_policy policy transfer now ≡ ok tt
      → IsKnownShare transfer.split_bill_share_id w.db
      → AreFresh w
      → (last : World) × (run_steps 8 config owner now transfer w ≡ (ok none, last))
        × IsDone transfer.id last
  run_steps-completes policy transfer w leased here present passes share fresh =
      let (t1, w1, step1, on1, status1, policy1) =
        pending-goes config quiet answering owner now transfer w leased here in
      let (t2, w2, step2, on2, status2, known2) =
        validating-goes config quiet answering owner now policy t1 w1 on1.leased status1 present
          (policy1 policy ∙ passes) in
      let (t3, w3, step3, on3, status3, known3) =
        held-goes config quiet answering owner now t2 w2 on2.leased status2 in
      let whole = Onward-trans on1 (Onward-trans on2 on3) in
      let (receiver, known) = is_some-some t3.receiver_wallet_id (ap is_some known3 ∙ known2) in
      let still : AreFresh w3 =
        λ i le. rw whole.outbox (fresh i (subst (λ n. n ≤ i) whole.ids le)) in
      let shared : IsKnownShare t3.split_bill_share_id w3.db =
        IsKnownShare-kept transfer.split_bill_share_id t3.split_bill_share_id w.db w3.db whole.split
          whole.shares whole.bills share in
      let (last, answered, done) =
        settle-succeeds t3 receiver w3 on3.leased status3 known shared still in
      (
        last,
        step1 7 ∙ step2 6 ∙ step3 5 ∙ processing-ends 4 t3 w3 last status3 answered,
        subst (λ id. IsDone id last) whole.id done,
      )

claim-succeeds :
    (config : SagaConfig) (quiet : (w : World) → config.arrive w ≡ w) (id owner now : ℕ)
    (row : Transfer) (w : World)
    → lookup id w.db.transfers ≡ some row
    → is_due now row ≡ true
    → config.is_locked w id ≡ false
    → config.query_length true ≢ 0
    → claim_transfer config id owner now w ≡ (
      ok (some (take_lease config owner now row)),
      put_transfer id (take_lease config owner now row) w,
    )
unfolding claim_transfer claim_row
claim-succeeds config quiet id owner now row w found due free nonempty =
    let leased : Transfer = take_lease config owner now row in
    let last = put_transfer id leased w in
    let waits : (u : World) → modify {E = SagaError} config.arrive u ≡ (ok tt, u) =
      λ u. rw (quiet u) refl in
    let takes : claim_row config id owner now w ≡ (ok true, last) =
      rw (claim_row, found, due, free) refl in
    let goes : (config.query_length true == 0) ≡ false = ground arith in
    let reads : find_transfer id last ≡ (ok leased, last) =
      rw (find_transfer, lookup-put id leased w) refl in
    let first = modify {E = SagaError} config.arrive >> claim_row config id owner now in
    let again = modify {E = SagaError} config.arrive >> find_transfer id in
    bind-ok first (read_claimed config id)
      (bind-ok (modify config.arrive) (λ _. claim_row config id owner now) (waits w) ∙ takes)
    ∙ ap
        (λ (b : Bool). (if b then pure none else (again >>= λ transfer. pure (some transfer))) last)
        goes
    ∙ bind-ok again (λ transfer. pure (some transfer))
        (bind-ok (modify config.arrive) (λ _. find_transfer id) (waits last) ∙ reads)

-- A worker that is not disturbed (nothing arrives while it waits, no other transaction locks the row, and
-- the driver does not answer an update of a row with an empty array), with a ledger that does what it is
-- asked for: a run of a `Pending` transfer that is due and passes the policy returns, and then the
-- transfer is `Completed`, its event is in the outbox, and, where it pays a share of a bill, the event of
-- the paid share too. The share and its bill must be there, and the ids that the run draws must not be in
-- the outbox yet.
pub run-completes :
    (config : SagaConfig) (policy : PolicyConfig) (id now : ℕ) (row : Transfer) (w : World)
    → ((u : World) → config.arrive u ≡ u)
    → ((u : World) → config.is_locked u id ≡ false)
    → config.query_length true ≢ 0
    → IsAnswering config.ledger
    → config.policy ≡ some policy
    → lookup id w.db.transfers ≡ some row
    → row.id ≡ id
    → row.status ≡ pending
    → is_due now row ≡ true
    → validate_policy policy row now ≡ ok tt
    → IsKnownShare row.split_bill_share_id w.db
    → AreFresh w
    → (last : World) × (run config id now w ≡ (ok tt, last)) × IsDone id last
unfolding run run_claimed end_steps validate_policy
run-completes config policy id now row w quiet free nonempty answering present found keyed here due
      passes share fresh =
    let owner = w.next_id in
    let drawn : World = record w { next_id = suc w.next_id } in
    let leased : Transfer = take_lease config owner now row in
    let claimed : World = put_transfer id leased drawn in
    let read = claim-succeeds config quiet id owner now row drawn found due (free drawn) nonempty in
    let held : Leased leased owner claimed = record {
      row = ap (λ k. lookup k claimed.db.transfers) keyed ∙ lookup-put id leased drawn;
      lease = refl;
    } in
    let (last, steps, done) =
      run_steps-completes config quiet answering owner now policy leased claimed held here present
        passes (IsKnownShare-stays row.split_bill_share_id w.db claimed.db refl refl share)
        (λ i le. fresh i (omega (arith, le))) in
    (
      last,
      bind-ok (claim_transfer config id owner now) (run_claimed config owner now) read
          ∙ bind-ok (run_steps 8 config owner now leased) (end_steps config owner now) steps,
      subst (λ j. IsDone j last) keyed done,
    )
