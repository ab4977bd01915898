-- ===== src/Ledger/Aggregate/Accounting.antt =====
-- The balance is what the ledger's postings say it is.
use p2p_ledger_starter.Common.{
  ap, ℕ, ◌+◌, ◌≡◌, sym, some, List, [], ◌∷◌, arith, ok, err, Result, >>=-eq-ok, ◌>>=◌, ◌∙◌,
  or_throw, keep, ensure, ◌==◌, ◌||◌,
}
use p2p_ledger_starter.Common.Int.{
  ℤ, pos, ◌+ℤ◌, ◌-ℤ◌, neg, int_laws, +ℤ_parts, eq_of_parts, eqb_ℤ_iff,
}
use p2p_ledger_starter.Ledger.Fault.{
  Fault, not_one_wallet_posting, settlement_mismatch, version_gap, unsupported_schema,
}
use p2p_ledger_starter.Ledger.Event.{
  account_eq, Posting, Payload, EventType, wallet_created, money_deposited, withdrawal_completed,
  funds_held, hold_released, hold_consumed, other, StoredEvent,
}
use p2p_ledger_starter.Ledger.Transaction.{
  parse_minor_units, total_from, read_postings, wallet_account_id,
}
use p2p_ledger_starter.Ledger.Aggregate.{WalletAggregate, empty}
use p2p_ledger_starter.Ledger.Aggregate.Replay.{
  single, wallet_postings, read_hold_id, read_hold_payload, active_hold, apply_created, apply_money,
  apply_funds_held, apply_hold_released, apply_hold_consumed, apply_type, is_wallet_created, apply,
  replay_from, rehydrate,
}
use p2p_ledger_starter.Ledger.Aggregate.Invariant.{IsValid, empty-IsValid}
use p2p_ledger_starter.Ledger.Aggregate.Soundness.{apply-IsValid, apply-id}

abbrev total_or_zero : Result Fault ℤ → ℤ
total_or_zero (ok total) = total
total_or_zero (err _) = pos 0

-- The sum of the amounts that an event's postings put on the account of a wallet.
pub posted_on : ℕ → Payload → ℤ
posted_on wallet_id payload = total_or_zero (
    read_postings payload >>= λ ps.
    total_from (pos 0) (keep (λ p. account_eq p.account_id (wallet_account_id wallet_id)) ps))

-- What an event posts on the wallet's account; the other events have no postings.
pub posted : ℕ → EventType → Payload → ℤ
posted wallet_id money_deposited payload = posted_on wallet_id payload
posted wallet_id withdrawal_completed payload = posted_on wallet_id payload
posted wallet_id hold_consumed payload = posted_on wallet_id payload
posted wallet_id _ payload = pos 0

pub posted_sum : ℕ → List StoredEvent → ℤ
posted_sum wallet_id [] = pos 0
posted_sum wallet_id (e ∷ es) = posted wallet_id e.event_type e.payload +ℤ posted_sum wallet_id es

total_from-single :
    (ps : List Posting) (p : Posting) {a : ℤ}
    → single ps ≡ some p
    → parse_minor_units p.amount_minor ≡ ok a
    → total_from (pos 0) ps ≡ ok a
unfolding total_from
total_from-single [] p s h = cc
total_from-single (q ∷ []) p {a} s h =
    let same : q ≡ p = cc in rw (same, h) (ap ok (omega int_laws))
total_from-single (q ∷ r ∷ ps) p s h = cc

add-zero : (a : ℤ) → a +ℤ pos 0 ≡ a
add-zero a = omega int_laws

zero-add : (a : ℤ) → pos 0 +ℤ a ≡ a
zero-add a = omega int_laws

subtract_neg : {y : ℤ} (x amount b : ℤ) → y ≡ x -ℤ b → amount ≡ neg b → y ≡ x +ℤ amount
subtract_neg x amount b p q = rw (p, q) (omega int_laws)

module _ (w : WalletAggregate) (e : StoredEvent) {w' : WalletAggregate} where
  apply_money-posted :
      apply_money w e ≡ ok w' → w'.balance_minor ≡ w.balance_minor +ℤ posted_on w.id e.payload
  unfolding apply_money posted_on wallet_postings
  apply_money-posted h =
      let (postings, read, h1) = >>=-eq-ok (read_postings e.payload) _ h in
      let (posting, one, h2) =
        >>=-eq-ok (or_throw (single (wallet_postings w postings)) not_one_wallet_posting) _ h1 in
      let (amount, parsed, h3) = >>=-eq-ok (parse_minor_units posting.amount_minor) _ h2 in
      rw (read, total_from-single (wallet_postings w postings) posting (ground arith) parsed)
        (ground arith)

  apply_hold_consumed-posted :
      apply_hold_consumed w e ≡ ok w'
      → w'.balance_minor ≡ w.balance_minor +ℤ posted_on w.id e.payload
  unfolding apply_hold_consumed posted_on wallet_postings
  apply_hold_consumed-posted h =
      let (k, _, h1) = >>=-eq-ok (read_hold_id e.payload) _ h in
      let (hold, found, h2) = >>=-eq-ok (active_hold w k _) _ h1 in
      let (postings, read, h3) = >>=-eq-ok (read_postings e.payload) _ h2 in
      let (posting, one, h4) =
        >>=-eq-ok (or_throw (single (wallet_postings w postings)) settlement_mismatch) _ h3 in
      let (amount, parsed, h5) = >>=-eq-ok (parse_minor_units posting.amount_minor) _ h4 in
      rw (read, total_from-single (wallet_postings w postings) posting (ground arith) parsed)
        (subtract_neg w.balance_minor amount hold.amount_minor (ground arith)
          (ground (arith, eqb_ℤ_iff amount (neg hold.amount_minor))))

  apply_created-posted :
      apply_created w e ≡ ok w' → IsValid w → w'.balance_minor ≡ w.balance_minor +ℤ pos 0
  unfolding apply_created
  apply_created-posted h v = ground (
    arith,
    v.unopened,
    +ℤ_parts w.balance_minor (pos 0),
    eq_of_parts w'.balance_minor (w.balance_minor +ℤ pos 0),
  )

  apply_funds_held-posted :
      apply_funds_held w e ≡ ok w' → w'.balance_minor ≡ w.balance_minor +ℤ pos 0
  unfolding apply_funds_held
  apply_funds_held-posted h =
      let (p, _, h1) = >>=-eq-ok (read_hold_payload e.payload) _ h in
      let same : w'.balance_minor ≡ w.balance_minor = ground arith in
      same ∙ sym (add-zero w.balance_minor)

  apply_hold_released-posted :
      apply_hold_released w e ≡ ok w' → w'.balance_minor ≡ w.balance_minor +ℤ pos 0
  unfolding apply_hold_released
  apply_hold_released-posted h =
      let (k, _, h1) = >>=-eq-ok (read_hold_id e.payload) _ h in
      let (hold, _, h2) = >>=-eq-ok (active_hold w k _) _ h1 in
      let same : w'.balance_minor ≡ w.balance_minor = ground arith in
      same ∙ sym (add-zero w.balance_minor)

apply_type-posted :
    (t : EventType) (w : WalletAggregate) (e : StoredEvent) {w' : WalletAggregate}
    → apply_type t w e ≡ ok w'
    → IsValid w
    → w'.balance_minor ≡ w.balance_minor +ℤ posted w.id t e.payload
unfolding posted
apply_type-posted wallet_created w e h v = apply_created-posted w e h v
apply_type-posted money_deposited w e h v = apply_money-posted w e h
apply_type-posted withdrawal_completed w e h v = apply_money-posted w e h
apply_type-posted funds_held w e h v = apply_funds_held-posted w e h
apply_type-posted hold_released w e h v = apply_hold_released-posted w e h
apply_type-posted hold_consumed w e h v = apply_hold_consumed-posted w e h
apply_type-posted (other _) w e h v = absurd (cc)

apply-posted :
    (w : WalletAggregate) (e : StoredEvent) {w' : WalletAggregate}
    → apply w e ≡ ok w'
    → IsValid w
    → w'.balance_minor ≡ w.balance_minor +ℤ posted w.id e.event_type e.payload
unfolding apply
apply-posted w e h v =
    let (_, _, h1) = >>=-eq-ok (ensure (e.stream_version == w.version + 1) version_gap) _ h in
    let (_, _, h2) =
      >>=-eq-ok
        (ensure (is_wallet_created e.event_type || e.schema_version == 1) unsupported_schema) _
        h1 in
    apply_type-posted e.event_type w e h2 v

replay_from-posted :
    (w : WalletAggregate) (es : List StoredEvent) {w' : WalletAggregate}
    → replay_from w es ≡ ok w'
    → IsValid w
    → w'.balance_minor ≡ w.balance_minor +ℤ posted_sum w.id es
unfolding replay_from posted_sum
replay_from-posted w [] h v = ground (arith, add-zero w.balance_minor)
replay_from-posted w (e ∷ es) {w'} h v =
    let (next, one, rest) = >>=-eq-ok (apply w e) _ h in
    let later : w'.balance_minor ≡ next.balance_minor +ℤ posted_sum w.id es =
      rw (← apply-id w e one) (replay_from-posted next es rest (apply-IsValid w e one v)) in
    rw (later, apply-posted w e one v) (omega int_laws)

-- The balance of a rehydrated wallet is the sum of what the events post on the wallet's account.
pub rehydrate-posted :
    (wallet_id : ℕ) (es : List StoredEvent) {w : WalletAggregate}
    → rehydrate wallet_id es ≡ ok w
    → w.balance_minor ≡ posted_sum wallet_id es
unfolding rehydrate
rehydrate-posted wallet_id es h =
    replay_from-posted (empty wallet_id) es h (empty-IsValid wallet_id)
    ∙ zero-add (posted_sum wallet_id es)
