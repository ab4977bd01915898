-- ===== src/Ledger/Wallets/Settlement/Checks.antt =====
-- What a prepared settlement has checked of the two wallets that it read.
use p2p_ledger_starter.Ledger.Wallets.Money.{load_aggregate-ok, or_throw-some, catch-ok}
use p2p_ledger_starter.Ledger.Wallets.Settlement.{
  find_receiver, find_sender, SettleRequest, prepare_settlement, Prepared,
}
use p2p_ledger_starter.Ledger.Wallets.Commands.{hold_domain_fault, catch}
use p2p_ledger_starter.Ledger.Wallets.{load_aggregate, assert_aggregate_identity}
use p2p_ledger_starter.Ledger.Tables.{LedgerDb, Wallet}
use p2p_ledger_starter.Ledger.Fault.{
  bad_request, conflict, same_wallet, consumed_without_receipt, transfer_amount_differs, Fault,
  transfer_hold_missing, transfer_wallet_missing, not_found,
}
use p2p_ledger_starter.Ledger.EventStore.Streams.{IsGapless}
use p2p_ledger_starter.Ledger.EventStore.{stream}
use p2p_ledger_starter.Ledger.Event.{EventData, StoredEvent}
use p2p_ledger_starter.Ledger.Aggregate.Soundness.{rehydrate-IsValid}
use p2p_ledger_starter.Ledger.Aggregate.Replay.{rehydrate, apply}
use p2p_ledger_starter.Ledger.Aggregate.Invariant.{lookup-HasAmount, IsValid}
use p2p_ledger_starter.Ledger.Aggregate.Holds.{after_consumption, consume_hold-apply}
use p2p_ledger_starter.Ledger.Aggregate.Decisions.{after_posting, deposit-apply, Stores}
use p2p_ledger_starter.Ledger.Aggregate.{
  HoldState, WalletAggregate, active, released, consume_found, deposit, consumed, consume_hold,
  HoldStatus,
}
use p2p_ledger_starter.Common.{
  find-passes, ok, >>=-eq-ok, ok-injective, ensure, or_throw, ◌==◌, ℕ, ◌≡◌, ◌≢◌, refl, sym, ◌∙◌, ap,
  subst, ◌&&◌, not, some, arith,
}
use p2p_ledger_starter.Common.Int.{pos, eqb_ℤ_iff, ◌≤ℤ◌, ℤ, eqb_ℤ}
use p2p_ledger_starter.Common.Dict.{lookup}

-- The wallets and the two decisions of a settlement that was prepared.
pub record Decided (seen : LedgerDb) (r : SettleRequest) (p : Prepared) : Type 0 where
  pub sender_id : p.sender.id ≡ r.command.sender_wallet_id
  pub receiver_id : p.receiver.id ≡ r.command.receiver_wallet_id
  pub distinct : p.sender.id ≢ p.receiver.id
  pub sender_read : rehydrate p.sender.id (stream p.sender.id seen.events) ≡ ok p.sender_aggregate
  pub receiver_read :
      rehydrate p.receiver.id (stream p.receiver.id seen.events) ≡ ok p.receiver_aggregate
  pub hold : HoldState
  pub found : lookup r.transfer_id p.sender_aggregate.holds ≡ some hold
  pub is_waiting : hold.status ≡ active
  pub same_amount : hold.amount_minor ≡ r.amount_minor
  pub debit_effect :
      (e : StoredEvent)
      → Stores p.sender_aggregate p.debit_event e
      → apply p.sender_aggregate e ≡ ok (after_consumption p.sender_aggregate r.transfer_id hold)
  pub credit_effect :
      (e : StoredEvent)
      → Stores p.receiver_aggregate p.credit_event e
      → apply p.receiver_aggregate e
        ≡ ok (after_posting p.receiver_aggregate r.destination_amount_minor)

consume_found-active :
    (w : WalletAggregate) (hold : HoldState) (status : HoldStatus) (k event_id transaction_id : ℕ)
    {d : EventData}
    → consume_found w hold status k event_id transaction_id ≡ ok (some d)
    → status ≡ active
consume_found-active w hold active k event_id transaction_id h = refl
consume_found-active w hold released k event_id transaction_id h = absurd (cc)
consume_found-active w hold consumed k event_id transaction_id h = absurd (cc)

-- A hold that is consumed was active, and its consumption does what it says.
pub consume_hold-effect :
    (w : WalletAggregate) (k event_id transaction_id : ℕ) {hold : HoldState} {d : EventData}
    → IsValid w
    → k ≢ 0
    → lookup k w.holds ≡ some hold
    → consume_hold w k event_id transaction_id ≡ ok (some d)
    → (hold.status ≡ active)
      × ((e : StoredEvent) → Stores w d e → apply w e ≡ ok (after_consumption w k hold))
unfolding consume_hold
consume_hold-effect w k event_id transaction_id {hold} {d} v ne found h =
    let waiting : hold.status ≡ active =
      consume_found-active w hold hold.status k event_id transaction_id (rw found at h) in
    let (d', decided, effect) =
      consume_hold-apply w k event_id transaction_id ne
        (lookup-HasAmount k hold w.holds v.holds_positive found) found waiting in
    let same : some d' ≡ some d = ok-injective (sym decided ∙ h) in
    (waiting, λ e s. effect e (subst (λ x. Stores w x e) (cc) s))

deposit-effect :
    (w : WalletAggregate) (a : ℤ) (event_id transaction_id : ℕ) {d : EventData}
    → IsValid w
    → pos 1 ≤ℤ a
    → deposit w a event_id transaction_id ≡ ok d
    → (e : StoredEvent) → Stores w d e
    → apply w e ≡ ok (after_posting w a)
deposit-effect w a event_id transaction_id {d} v p h =
    let (d', decided, effect) = deposit-apply w a event_id transaction_id v p in
    let same : d' ≡ d = ok-injective (sym decided ∙ h) in
    λ e s. effect e (subst (λ x. Stores w x e) (sym same) s)

find_sender-id :
    (db : LedgerDb) (r : SettleRequest) {wallet : Wallet}
    → find_sender db r ≡ some wallet
    → wallet.id ≡ r.command.sender_wallet_id
find_sender-id db r {wallet} h =
    let passes =
      find-passes
        (λ w.
          w.id == r.command.sender_wallet_id
          && (w.owner_id == r.command.sender_user_id && w.currency == r.command.currency))
        db.wallets h in
    ground arith

find_receiver-id :
    (db : LedgerDb) (r : SettleRequest) {wallet : Wallet}
    → find_receiver db r ≡ some wallet
    → wallet.id ≡ r.command.receiver_wallet_id
find_receiver-id db r {wallet} h =
    let passes =
      find-passes
        (λ w. w.id == r.command.receiver_wallet_id && w.currency == r.destination_currency)
        db.wallets h in
    ground arith

pub differ-ne :
    (a b : ℕ) (fault : Fault) {u : Unit {0}} → ensure (not (a == b)) fault ≡ ok u → a ≢ b
differ-ne a b fault h = ground arith

equal-eq : (a b : ℤ) (fault : Fault) {u : Unit {0}} → ensure (eqb_ℤ a b) fault ≡ ok u → a ≡ b
equal-eq a b fault h = ground (arith, eqb_ℤ_iff a b)

pub prepare_settlement-Decided :
    (seen : LedgerDb) (r : SettleRequest) (debit_id credit_id : ℕ) {p : Prepared}
    → IsGapless seen.events
    → r.transfer_id ≢ 0
    → pos 1 ≤ℤ r.destination_amount_minor
    → prepare_settlement seen r debit_id credit_id ≡ ok p
    → Decided seen r p
unfolding prepare_settlement
prepare_settlement-Decided seen r debit_id credit_id {p} gapless ne positive h0 =
    let (sender, found_s, h1) =
      >>=-eq-ok (or_throw (find_sender seen r) (not_found transfer_wallet_missing)) _ h0 in
    let (receiver, found_r, h2) =
      >>=-eq-ok (or_throw (find_receiver seen r) (not_found transfer_wallet_missing)) _ h1 in
    let (_, differ, h3) =
      >>=-eq-ok (ensure (not (sender.id == receiver.id)) (bad_request same_wallet)) _ h2 in
    let (sa, loaded_s, h4) = >>=-eq-ok (load_aggregate seen sender.id) _ h3 in
    let (ra, loaded_r, h5) = >>=-eq-ok (load_aggregate seen receiver.id) _ h4 in
    let (_, _, h6) = >>=-eq-ok (assert_aggregate_identity sender sa) _ h5 in
    let (_, _, h7) = >>=-eq-ok (assert_aggregate_identity receiver ra) _ h6 in
    let (hold, found, h8) =
      >>=-eq-ok (or_throw (lookup r.transfer_id sa.holds) (not_found transfer_hold_missing)) _ h7 in
    let (_, equal, h9) =
      >>=-eq-ok (ensure (eqb_ℤ hold.amount_minor r.amount_minor) (conflict transfer_amount_differs))
        _ h8 in
    let (decision, spent, h10) =
      >>=-eq-ok (catch hold_domain_fault (consume_hold sa r.transfer_id debit_id r.transfer_id)) _
        h9 in
    let (debit, chosen, h11) =
      >>=-eq-ok (or_throw decision (conflict consumed_without_receipt)) _ h10 in
    let (credit, credited, h12) =
      >>=-eq-ok (deposit ra r.destination_amount_minor credit_id r.transfer_id) _ h11 in
    let read_s = load_aggregate-ok seen sender.id gapless loaded_s in
    let read_r = load_aggregate-ok seen receiver.id gapless loaded_r in
    let (valid_s, _, _) = rehydrate-IsValid sender.id (stream sender.id seen.events) read_s in
    let (valid_r, _, _) = rehydrate-IsValid receiver.id (stream receiver.id seen.events) read_r in
    let found' =
      or_throw-some (lookup r.transfer_id sa.holds) (not_found transfer_hold_missing) found in
    let (waiting, effect) =
      consume_hold-effect sa r.transfer_id debit_id r.transfer_id valid_s ne found' (
        catch-ok hold_domain_fault (consume_hold sa r.transfer_id debit_id r.transfer_id) spent
        ∙ ap ok (or_throw-some decision (conflict consumed_without_receipt) chosen)) in
    subst (Decided seen r) (ok-injective h12) (record {
      sender_id =
          find_sender-id seen r
            (or_throw-some (find_sender seen r) (not_found transfer_wallet_missing) found_s);
      receiver_id =
          find_receiver-id seen r
            (or_throw-some (find_receiver seen r) (not_found transfer_wallet_missing) found_r);
      distinct = differ-ne sender.id receiver.id (bad_request same_wallet) differ;
      sender_read = read_s;
      receiver_read = read_r;
      hold = hold;
      found = found';
      is_waiting = waiting;
      same_amount =
          equal-eq hold.amount_minor r.amount_minor (conflict transfer_amount_differs) equal;
      debit_effect = effect;
      credit_effect =
          deposit-effect ra r.destination_amount_minor credit_id r.transfer_id valid_r positive
            credited;
    })
