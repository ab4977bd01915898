-- ===== src/Payments/Saga/Success.antt =====
-- A worker that nobody disturbs, with a ledger that answers: each step succeeds.
use p2p_ledger_starter.Payments.Saga.Transitions.{to_status}
use p2p_ledger_starter.Payments.LedgerGateway.{LedgerCommandError, Exchange}
use p2p_ledger_starter.Payments.Tables.{Transfer}
use p2p_ledger_starter.Payments.Saga.{
  SagaError, check_transition, is_claimed_in_status, find_transfer, update_transfer,
  transition_claimed, ask, transition_using_manager, is_claimed, update_claimed, touch,
  put_transfer, SagaConfig,
}
use p2p_ledger_starter.Common.{
  ℕ, ◌≡◌, refl, ◌∙◌, ap, true, some, List, ◌∷◌, Result, ok, ==_refl, arith,
}
use p2p_ledger_starter.Common.Dict.{lookup, insert, lookup-insert}
use p2p_ledger_starter.Payments.World.{
  continue, recover, handle, World, Action, modify, ◌>>=◌, ◌>>◌, transaction,
}
use p2p_ledger_starter.Payments.TransferStatus.{TransferStatus, assert_transfer_transition, index}

-- The worker's lease: what it has read of the transfer is its row.
pub record Leased (transfer : Transfer) (owner : ℕ) (w : World) : Type 0 where
  pub row : lookup transfer.id w.db.transfers ≡ some transfer
  pub lease : transfer.lease_owner ≡ some owner

pub lookup-put :
    (id : ℕ) (later : Transfer) (w : World)
    → lookup id (insert id later w.db.transfers) ≡ some later
lookup-put id later w = ground (arith, lookup-insert id id later w.db.transfers, ==_refl id)

module _ {E A : Type 0} where
  -- What comes behind an action that succeeded.
  pub bind-ok :
      {B : Type 0} (m : Action E A) (f : A → Action E B) {w next : World} {a : A}
      → m w ≡ (ok a, next)
      → (m >>= f) w ≡ f a next
  bind-ok m f done = ap (λ r. continue r f) done

  pub catch-ok :
      {F : Type 0} (m : Action E A) (h : E → Action F A) {w next : World} {a : A}
      → m w ≡ (ok a, next)
      → handle m h w ≡ (ok a, next)
  catch-ok m h done = ap (λ r. recover r h) done

-- What a step leaves: the lease, the transfer's own data, the outbox, the shares and the bills,
-- and the ids that are to come.
pub record Onward (owner : ℕ) (old new : Transfer) (w next : World) : Type 0 where
  pub leased : Leased new owner next
  pub id : new.id ≡ old.id
  pub split : new.split_bill_share_id ≡ old.split_bill_share_id
  pub outbox : next.db.outbox ≡ w.db.outbox
  pub ids : next.next_id ≡ w.next_id
  pub shares : next.db.shares ≡ w.db.shares
  pub bills : next.db.bills ≡ w.db.bills

pub Onward-refl :
    (transfer : Transfer) (owner : ℕ) (w : World)
    → Leased transfer owner w
    → Onward owner transfer transfer w w
Onward-refl transfer owner w leased = record {
  leased = leased;
  id = refl;
  split = refl;
  outbox = refl;
  ids = refl;
  shares = refl;
  bills = refl;
}

pub Onward-trans :
    {owner : ℕ} {a b c : Transfer} {u v w : World}
    → Onward owner a b u v
    → Onward owner b c v w
    → Onward owner a c u w
Onward-trans f g = record {
  leased = g.leased;
  id = g.id ∙ f.id;
  split = g.split ∙ f.split;
  outbox = g.outbox ∙ f.outbox;
  ids = g.ids ∙ f.ids;
  shares = g.shares ∙ f.shares;
  bills = g.bills ∙ f.bills;
}

-- A row that is written under the lease and keeps it.
pub put-Onward :
    (transfer later : Transfer) (owner : ℕ) (w : World)
    → Leased transfer owner w
    → later.id ≡ transfer.id
    → later.lease_owner ≡ transfer.lease_owner
    → later.split_bill_share_id ≡ transfer.split_bill_share_id
    → Onward owner transfer later w (put_transfer transfer.id later w)
put-Onward transfer later owner w leased id lease split = record {
  leased = record {
    row =
        ap (λ k. lookup k (insert transfer.id later w.db.transfers)) id
        ∙ lookup-put transfer.id later w;
    lease = lease ∙ leased.lease;
  };
  id = id;
  split = split;
  outbox = refl;
  ids = refl;
  shares = refl;
  bills = refl;
}

module _ (config : SagaConfig) (quiet : (w : World) → config.arrive w ≡ w) where
  pub update_claimed-succeeds :
      (transfer : Transfer) (owner : ℕ) (patch : ℕ → Transfer → Transfer) (w : World)
      → Leased transfer owner w
      → update_claimed config transfer owner patch w ≡ (
        ok (touch w.clock (patch w.clock transfer)),
        put_transfer transfer.id (touch w.clock (patch w.clock transfer)) w,
      )
  unfolding update_claimed
  update_claimed-succeeds transfer owner patch w leased =
      let later : Transfer = touch w.clock (patch w.clock transfer) in
      let claimed : is_claimed transfer owner transfer ≡ true =
        rw leased.lease (ground (arith, ==_refl transfer.version, ==_refl owner)) in
      let next = put_transfer transfer.id later w in
      let waits : (u : World) → modify {E = SagaError} config.arrive u ≡ (ok tt, u) =
        λ u. rw (quiet u) refl in
      let updates : update_transfer transfer.id (is_claimed transfer owner) patch w
          ≡ (ok tt, next) =
        rw (update_transfer, leased.row, claimed) refl in
      let reads : find_transfer transfer.id next ≡ (ok later, next) =
        rw (find_transfer, lookup-put transfer.id later w) refl in
      let write =
        modify config.arrive >> update_transfer transfer.id (is_claimed transfer owner) patch in
      let written : write w ≡ (ok tt, next) =
        bind-ok (modify config.arrive)
          (λ _. update_transfer transfer.id (is_claimed transfer owner) patch) (waits w)
        ∙ updates in
      let waited : (write >> modify config.arrive) w ≡ (ok tt, next) =
        bind-ok write (λ _. modify config.arrive) written ∙ waits next in
      bind-ok (write >> modify config.arrive) (λ _. find_transfer transfer.id) waited ∙ reads

  pub transition_using_manager-succeeds :
      (transfer : Transfer) (owner : ℕ) (next : TransferStatus) (patch : ℕ → Transfer → Transfer)
      (w : World)
      → Leased transfer owner w
      → assert_transfer_transition transfer.status next ≡ ok tt
      → transition_using_manager transfer owner next patch w ≡ (
        ok (touch w.clock (to_status next patch w.clock transfer)),
        put_transfer transfer.id (touch w.clock (to_status next patch w.clock transfer)) w,
      )
  unfolding transition_using_manager
  transition_using_manager-succeeds transfer owner next patch w leased allowed =
      let later : Transfer = touch w.clock (to_status next patch w.clock transfer) in
      let claimed : is_claimed_in_status transfer owner transfer ≡ true = rw leased.lease (
        ground (arith, ==_refl transfer.version, ==_refl owner, ==_refl (index transfer.status))) in
      rw
        (
          check_transition,
          allowed,
          update_transfer,
          leased.row,
          claimed,
          find_transfer,
          lookup-put transfer.id later w,
        )
        refl

  pub transition_claimed-succeeds :
      (transfer : Transfer) (owner : ℕ) (next : TransferStatus) (patch : ℕ → Transfer → Transfer)
      (w : World)
      → Leased transfer owner w
      → assert_transfer_transition transfer.status next ≡ ok tt
      → transition_claimed config transfer owner next patch w ≡ (
        ok (touch w.clock (to_status next patch w.clock transfer)),
        put_transfer transfer.id (touch w.clock (to_status next patch w.clock transfer)) w,
      )
  unfolding transition_claimed
  transition_claimed-succeeds transfer owner next patch w leased allowed =
      rw
        (
          quiet w,
          transaction,
          transition_using_manager-succeeds transfer owner next patch w leased allowed,
        )
        refl

  pub ask-succeeds :
      {A : Type 0} (call : List Exchange → Transfer → Result LedgerCommandError A)
      (exchange : ℕ → Result LedgerCommandError A → Exchange) (transfer : Transfer) (w : World)
      (a : A)
      → call w.log transfer ≡ ok a
      → ask config call exchange transfer w
        ≡ (ok a, record w { log = exchange transfer.id (ok a) ∷ w.log })
  unfolding ask
  ask-succeeds call exchange transfer w a answered = rw (quiet w, answered) refl
