-- ===== src/Ledger/Wallets/Retries.antt =====
-- The retry loops of wallets.service.ts: which attempt gives the answer, and what a command that was
-- answered has done.
use p2p_ledger_starter.Ledger.Wallets.Money.{
  execute_money_command_attempt-Committed, Covered, posted_amount,
}
use p2p_ledger_starter.Ledger.Wallets.Effect.{Committed}
use p2p_ledger_starter.Ledger.Wallets.Commands.{
  MoneyOperation, execute_money_command_attempt, Moments, execute_money_command,
}
use p2p_ledger_starter.Ledger.Wallets.{
  is_version_error, WalletView, max_concurrency_retries, with_retries, to_positive_minor_units,
}
use p2p_ledger_starter.Ledger.Transaction.{amount_to_minor_units, Rounded}
use p2p_ledger_starter.Ledger.Tables.{LedgerDb}
use p2p_ledger_starter.Ledger.Fault.{non_positive_amount, bad_request, Fault}
use p2p_ledger_starter.Ledger.EventStore.Streams.{IsGapless}
use p2p_ledger_starter.Ledger.Event.{StoredEvent}
use p2p_ledger_starter.Ledger.Aggregate.Decisions.{after_posting}
use p2p_ledger_starter.Ledger.Aggregate.{WalletAggregate}
use p2p_ledger_starter.Common.{
  ok-injective, >>=-eq-ok, Result, err, Result-cases, ok, ltb, Bool-cases, ◌==◌, ℕ, zero, suc, ◌+◌,
  ◌≤◌, ◌<◌, ◌≡◌, refl, sym, ◌∙◌, ap, subst, Bool, true, ◌&&◌, List, ◌++◌, arith, inl, inr,
}
use p2p_ledger_starter.Common.Int.{leb_ℤ, pos, ◌≤ℤ◌, ℤ}

abbrev pub IsRetried : {A : Type 0} → (Fault → Bool) → Result Fault A → Type 0
IsRetried retryable m = (e : Fault) × (m ≡ err e) × (retryable e ≡ true)

-- The loop's answer is that of one of its attempts, and each earlier attempt failed with an error that
-- is retried: the `throw` behind the loop is never reached.
pub with_retries-attempt :
    {A : Type 0} (retryable : Fault → Bool) (run : ℕ → Result Fault A) (left attempt : ℕ)
    → 1 ≤ left
    → left + attempt ≡ max_concurrency_retries + 1
    → (n : ℕ) × (attempt ≤ n)
      × (n ≤ max_concurrency_retries)
      × (with_retries retryable run left attempt ≡ run n)
      × ((j : ℕ) → attempt ≤ j → j < n → IsRetried retryable (run j))
unfolding with_retries
with_retries-attempt retryable run zero attempt positive total = absurd (omega arith)
with_retries-attempt retryable run (suc left) attempt positive total =
    elim (Result-cases (run attempt)) [
      | inl (a, done) ↦ (
        attempt,
        omega arith,
        omega arith,
        rw (done, with_retries) refl,
        λ j low high. absurd (omega arith),
      )
      | inr (e, failed) ↦ elim (Bool-cases (retryable e && ltb attempt max_concurrency_retries)) [
        | inr final ↦ (
          attempt,
          omega arith,
          omega arith,
          rw (failed, with_retries, final) refl,
          λ j low high. absurd (omega arith),
        )
        | inl again ↦
            let (n, low, high, same, earlier) =
              with_retries-attempt retryable run left (attempt + 1) (ground arith) (omega arith) in
            (
              n,
              omega arith,
              high,
              rw (failed, with_retries, again) same,
              λ j from below. elim (Bool-cases (j == attempt)) [
                | inl first ↦
                    let same_attempt : attempt ≡ j = ground arith in
                    (e, rw (← same_attempt) failed, ground arith)
                | inr later ↦ earlier j (ground arith) below
              ],
            )
      ]
    ]

pub to_positive_minor_units-positive :
    (amount : Rounded) {a : ℤ} → to_positive_minor_units amount ≡ ok a → pos 1 ≤ℤ a
unfolding to_positive_minor_units
to_positive_minor_units-positive amount {a} h = elim (Result-cases (amount_to_minor_units amount)) [
  | inr (e, failed) ↦
      let refused : err (bad_request e) ≡ ok a = rw (failed, to_positive_minor_units) at h in
      absurd (cc)
  | inl (b, rounded) ↦ elim (Bool-cases (leb_ℤ b (pos 0))) [
    | inl low ↦
        let refused : err (bad_request non_positive_amount) ≡ ok a =
          rw (rounded, to_positive_minor_units, low) at h in
        absurd (cc)
    | inr high ↦
        let same : ok b ≡ ok a = rw (rounded, to_positive_minor_units, high) at h in
        rw (← ok-injective same) (ground arith)
  ]
]

-- The three moments of an attempt are in order, and every stream is numbered without gaps at each.
pub record IsOrdered (m : Moments) : Type 0 where
  pub between : List StoredEvent
  pub more : List StoredEvent
  pub since_seen : m.mid ≡ m.seen.events ++ between
  pub since_mid : m.db.events ≡ m.mid ++ more
  pub gapless_seen : IsGapless m.seen.events
  pub gapless_mid : IsGapless m.mid
  pub gapless_db : IsGapless m.db.events

-- Where the moments of every attempt are in order and every stream is without gaps, a deposit or a
-- withdrawal that is answered has been done by one attempt, the n-th of at most 25: the amount is
-- positive and covered, the wallet as it was committed until then moves by exactly the amount, its
-- projection is written, one event is added, and no other wallet or settlement changes.
pub execute_money_command-Committed :
    (moments : ℕ → Moments) (wallet_id owner_id : ℕ) (amount : Rounded) (operation : MoneyOperation)
    (event_id transaction_id : ℕ) {view : WalletView} {db' : LedgerDb}
    → ((n : ℕ) → IsOrdered (moments n))
    → execute_money_command moments wallet_id owner_id amount operation event_id transaction_id
      ≡ ok (view, db')
    → (n : ℕ) × (a : ℤ) × (w : WalletAggregate) × (1 ≤ n)
      × (n ≤ max_concurrency_retries)
      × (to_positive_minor_units amount ≡ ok a)
      × (pos 1 ≤ℤ a)
      × Covered operation w a
      × Committed wallet_id w (after_posting w (posted_amount operation a)) (moments n).db db'
unfolding execute_money_command
execute_money_command-Committed moments wallet_id owner_id amount operation event_id transaction_id
      {view} {db'} ordered h =
    let (a, parsed, h1) = >>=-eq-ok (to_positive_minor_units amount) _ h in
    let (n, low, high, same, earlier) =
      with_retries-attempt is_version_error
        (λ n.
          execute_money_command_attempt (moments n).seen (moments n).mid (moments n).db wallet_id
            owner_id a operation event_id transaction_id)
        max_concurrency_retries 1 (omega arith) refl in
    let o = ordered n in
    let positive = to_positive_minor_units-positive amount parsed in
    let (w, covered, committed) =
      execute_money_command_attempt-Committed (moments n).seen (moments n).db o.between o.more
        wallet_id owner_id a operation event_id transaction_id o.gapless_seen
        (subst IsGapless o.since_seen o.gapless_mid) o.gapless_db
        (o.since_mid ∙ ap (λ t. t ++ o.more) o.since_seen) positive
        (subst
          (λ t.
            execute_money_command_attempt (moments n).seen t (moments n).db wallet_id owner_id a
              operation event_id transaction_id
            ≡ ok (view, db'))
          o.since_seen (sym same ∙ h1)) in
    (n, a, w, low, high, parsed, positive, covered, committed)
