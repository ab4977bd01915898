-- ===== src/Payments/Saga/Completion.antt =====
-- From `Pending` to `Completed`, step by step.
use p2p_ledger_starter.Payments.TransferPolicy.{validate_policy, PolicyConfig}
use p2p_ledger_starter.Payments.Tables.{Transfer}
use p2p_ledger_starter.Payments.Saga.Transitions.{to_status}
use p2p_ledger_starter.Payments.Saga.Success.{
  Onward-trans, Onward-refl, update_claimed-succeeds, ask-succeeds, catch-ok, bind-ok, Leased,
  put-Onward, transition_claimed-succeeds, Onward,
}
use p2p_ledger_starter.Payments.Saga.Steps.{
  ask_hold, step_funds_held, hold_patch, check_policy, resolve_unless, announce_hold,
  step_validating, announce_unless, resolve_receiver, held_patch, receiver_patch, on_error, and_go,
  go_on, going, step_pending, fresh_patch, step_in, run_steps,
}
use p2p_ledger_starter.Payments.Saga.{
  update_claimed, ask, is_terminal, SagaError, transition_claimed, SagaConfig, touch, put_transfer,
}
use p2p_ledger_starter.Payments.LedgerGateway.{hold_asked, validate_asked, Exchange, LedgerGateway}
use p2p_ledger_starter.Common.{
  is_some, ℕ, suc, ◌≡◌, refl, ◌∙◌, ap, Bool, true, false, Option, none, some, List, ◌∷◌, ok,
}
use p2p_ledger_starter.Payments.World.{throw, throwing_with, handle, World, Action, ◌>>=◌, pure}
use p2p_ledger_starter.Payments.TransferStatus.{
  TransferStatus, pending, validating, funds_held, processing, assert_transfer_transition,
}

-- A ledger that does all it is asked for.
pub record IsAnswering (ledger : LedgerGateway) : Type 0 where
  pub validates :
      (log : List Exchange) (transfer : Transfer)
      → (receiver : ℕ) × (ledger.validate log transfer ≡ ok receiver)
  pub holds : (log : List Exchange) (transfer : Transfer) → ledger.place_hold log transfer ≡ ok tt
  pub settles : (log : List Exchange) (transfer : Transfer) → ledger.settle log transfer ≡ ok tt

module _ (config : SagaConfig) (quiet : (w : World) → config.arrive w ≡ w)
    (answering : IsAnswering config.ledger) (owner now : ℕ) where
  and_go-succeeds :
      (transfer : Transfer) (m : Action SagaError Transfer) {w last : World} {next : Transfer}
      → m w ≡ (ok next, last)
      → and_go transfer m w ≡ (ok (going next), last)
  and_go-succeeds transfer m done =
      bind-ok (throwing_with transfer m) (λ next. pure (going next))
        (catch-ok m (λ e. throw (e, transfer)) done)

  step-goes :
      (status : TransferStatus) (transfer next : Transfer) (w last : World)
      → transfer.status ≡ status
      → is_terminal status ≡ false
      → step_in status config owner now transfer w ≡ (ok (going next), last)
      → (n : ℕ)
      → run_steps (suc n) config owner now transfer w ≡ run_steps n config owner now next last
  unfolding run_steps
  step-goes status transfer next w last here unfinished done n =
      let step = step_in transfer.status config owner now transfer in
      let same : step w ≡ (ok (going next), last) =
        ap (λ s. step_in s config owner now transfer w) here ∙ done in
      rw (run_steps, ap is_terminal here ∙ unfinished)
        (bind-ok (handle step (on_error config owner now))
          (λ progress. go_on progress (run_steps n config owner now))
          (catch-ok step (on_error config owner now) same))

  pub pending-goes :
      (transfer : Transfer) (w : World)
      → Leased transfer owner w
      → transfer.status ≡ pending
      → (next : Transfer) × (last : World) × ((n : ℕ)
          → run_steps (suc n) config owner now transfer w ≡ run_steps n config owner now next last)
        × Onward owner transfer next w last
        × (next.status ≡ validating)
        × ((policy : PolicyConfig)
            → validate_policy policy next now ≡ validate_policy policy transfer now)
  unfolding step_in step_pending assert_transfer_transition validate_policy
  pending-goes transfer w leased here =
      let later : Transfer = touch w.clock (to_status validating fresh_patch w.clock transfer) in
      let last = put_transfer transfer.id later w in
      let moves =
        transition_claimed-succeeds config quiet transfer owner validating fresh_patch w leased
          (ap (λ s. assert_transfer_transition s validating) here) in
      (
        later,
        last,
        step-goes pending transfer later w last here refl (
            and_go-succeeds transfer
              (transition_claimed config transfer owner validating fresh_patch) moves),
        put-Onward transfer later owner w leased refl refl refl,
        refl,
        λ policy. refl,
      )

  check_policy-succeeds :
      (policy : PolicyConfig) (transfer : Transfer) (w : World)
      → config.policy ≡ some policy
      → validate_policy policy transfer now ≡ ok tt
      → check_policy config transfer now w ≡ (ok tt, w)
  check_policy-succeeds policy transfer w present passes = rw (check_policy, present, passes) refl

  validating-succeeds :
      (transfer resolved holding next : Transfer) (w w1 w2 w3 : World)
      → check_policy config transfer now w ≡ (ok tt, w)
      → resolve_receiver config owner transfer w ≡ (ok resolved, w1)
      → announce_hold config owner resolved w1 ≡ (ok holding, w2)
      → ask_hold config owner holding w2 ≡ (ok next, w3)
      → step_validating config owner now transfer w ≡ (ok (going next), w3)
  unfolding step_validating
  validating-succeeds transfer resolved holding next w w1 w2 w3 passed done1 done2 done3 =
      let last = λ (holding : Transfer). and_go holding (ask_hold config owner holding) in
      let hold = λ (resolved : Transfer).
        throwing_with {F = Transfer} resolved (announce_hold config owner resolved) >>= last in
      let resolve : Action (SagaError × Transfer) Transfer =
        throwing_with transfer (resolve_receiver config owner transfer) in
      bind-ok (throwing_with transfer (check_policy config transfer now)) (λ _. resolve >>= hold)
        (catch-ok (check_policy config transfer now) (λ e. throw (e, transfer)) passed)
      ∙ bind-ok resolve hold
          (catch-ok (resolve_receiver config owner transfer) (λ e. throw (e, transfer)) done1)
      ∙ bind-ok (throwing_with resolved (announce_hold config owner resolved)) last
          (catch-ok (announce_hold config owner resolved) (λ e. throw (e, resolved)) done2)
      ∙ and_go-succeeds holding (ask_hold config owner holding) done3

  resolve-succeeds :
      (receiver : Option ℕ) (transfer : Transfer) (w : World)
      → transfer.receiver_wallet_id ≡ receiver
      → Leased transfer owner w
      → (next : Transfer) × (last : World) × (resolve_unless receiver config owner transfer w
          ≡ (ok next, last))
        × Onward owner transfer next w last
        × (next.status ≡ transfer.status)
        × (is_some next.receiver_wallet_id ≡ true)
  resolve-succeeds (some id) transfer w here leased =
      (transfer, w, refl, Onward-refl transfer owner w leased, refl, ap is_some here)
  resolve-succeeds none transfer w here leased =
      let (receiver, answered) = answering.validates w.log transfer in
      let asked : World = record w { log = validate_asked transfer.id (ok receiver) ∷ w.log } in
      let leased' : Leased transfer owner asked = record {
        row = leased.row;
        lease = leased.lease;
      } in
      let later : Transfer = touch w.clock (receiver_patch receiver w.clock transfer) in
      let onward = put-Onward transfer later owner asked leased' refl refl refl in
      (
        later,
        put_transfer transfer.id later asked,
        bind-ok (ask config config.ledger.validate validate_asked transfer)
              (λ receiver. update_claimed config transfer owner (receiver_patch receiver))
              (ask-succeeds config quiet config.ledger.validate validate_asked transfer w receiver
                answered)
            ∙ update_claimed-succeeds config quiet transfer owner (receiver_patch receiver) asked
                leased',
        record {
          leased = onward.leased;
          id = refl;
          split = refl;
          outbox = refl;
          ids = refl;
          shares = refl;
          bills = refl;
        },
        refl,
        refl,
      )

  announce-succeeds :
      (known : Bool) (transfer : Transfer) (w : World)
      → Leased transfer owner w
      → (next : Transfer) × (last : World) × (announce_unless known config owner transfer w
          ≡ (ok next, last))
        × Onward owner transfer next w last
        × (next.status ≡ transfer.status)
        × (next.receiver_wallet_id ≡ transfer.receiver_wallet_id)
  announce-succeeds true transfer w leased =
      (transfer, w, refl, Onward-refl transfer owner w leased, refl, refl)
  announce-succeeds false transfer w leased =
      let later : Transfer = touch w.clock (hold_patch w.clock transfer) in
      (
        later,
        put_transfer transfer.id later w,
        update_claimed-succeeds config quiet transfer owner hold_patch w leased,
        put-Onward transfer later owner w leased refl refl refl,
        refl,
        refl,
      )

  place-succeeds :
      (transfer : Transfer) (w : World)
      → Leased transfer owner w
      → transfer.status ≡ validating
      → (next : Transfer) × (last : World) × (ask_hold config owner transfer w ≡ (ok next, last))
        × Onward owner transfer next w last
        × (next.status ≡ funds_held)
        × (next.receiver_wallet_id ≡ transfer.receiver_wallet_id)
  unfolding ask_hold assert_transfer_transition
  place-succeeds transfer w leased here =
      let asked : World = record w { log = hold_asked transfer.id (ok tt) ∷ w.log } in
      let leased' : Leased transfer owner asked = record {
        row = leased.row;
        lease = leased.lease;
      } in
      let later : Transfer = touch w.clock (to_status funds_held held_patch w.clock transfer) in
      let onward = put-Onward transfer later owner asked leased' refl refl refl in
      (
        later,
        put_transfer transfer.id later asked,
        bind-ok (ask config config.ledger.place_hold hold_asked transfer)
              (λ _. transition_claimed config transfer owner funds_held held_patch)
              (ask-succeeds config quiet config.ledger.place_hold hold_asked transfer w tt
                (answering.holds w.log transfer))
            ∙ transition_claimed-succeeds config quiet transfer owner funds_held held_patch asked
                leased' (ap (λ s. assert_transfer_transition s funds_held) here),
        record {
          leased = onward.leased;
          id = refl;
          split = refl;
          outbox = refl;
          ids = refl;
          shares = refl;
          bills = refl;
        },
        refl,
        refl,
      )

  pub validating-goes :
      (policy : PolicyConfig) (transfer : Transfer) (w : World)
      → Leased transfer owner w
      → transfer.status ≡ validating
      → config.policy ≡ some policy
      → validate_policy policy transfer now ≡ ok tt
      → (next : Transfer) × (last : World) × ((n : ℕ)
          → run_steps (suc n) config owner now transfer w ≡ run_steps n config owner now next last)
        × Onward owner transfer next w last
        × (next.status ≡ funds_held)
        × (is_some next.receiver_wallet_id ≡ true)
  unfolding step_in step_validating resolve_receiver announce_hold
  validating-goes policy transfer w leased here present passes =
      let (resolved, w1, done1, on1, same1, known1) =
        resolve-succeeds transfer.receiver_wallet_id transfer w refl leased in
      let (holding, w2, done2, on2, same2, known2) =
        announce-succeeds resolved.hold_may_exist resolved w1 on1.leased in
      let (next, w3, done3, on3, same3, known3) =
        place-succeeds holding w2 on2.leased (same2 ∙ same1 ∙ here) in
      (
        next,
        w3,
        step-goes validating transfer next w w3 here refl (
            validating-succeeds transfer resolved holding next w w1 w2 w3
              (check_policy-succeeds policy transfer w present passes) done1 done2 done3),
        Onward-trans on1 (Onward-trans on2 on3),
        same3,
        ap is_some (known3 ∙ known2) ∙ known1,
      )

  pub held-goes :
      (transfer : Transfer) (w : World)
      → Leased transfer owner w
      → transfer.status ≡ funds_held
      → (next : Transfer) × (last : World) × ((n : ℕ)
          → run_steps (suc n) config owner now transfer w ≡ run_steps n config owner now next last)
        × Onward owner transfer next w last
        × (next.status ≡ processing)
        × (next.receiver_wallet_id ≡ transfer.receiver_wallet_id)
  unfolding step_in step_funds_held assert_transfer_transition
  held-goes transfer w leased here =
      let later : Transfer = touch w.clock (to_status processing fresh_patch w.clock transfer) in
      let last = put_transfer transfer.id later w in
      let moves =
        transition_claimed-succeeds config quiet transfer owner processing fresh_patch w leased
          (ap (λ s. assert_transfer_transition s processing) here) in
      (
        later,
        last,
        step-goes funds_held transfer later w last here refl (
            and_go-succeeds transfer
              (transition_claimed config transfer owner processing fresh_patch) moves),
        put-Onward transfer later owner w leased refl refl refl,
        refl,
        refl,
      )
