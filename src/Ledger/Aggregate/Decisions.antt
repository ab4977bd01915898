-- ===== src/Ledger/Aggregate/Decisions.antt =====
-- Commands and replay agree: what a command decides, a replay accepts, with the effect that the
-- command is for.
use p2p_ledger_starter.Common.{
  ◌==◌, not, ensure-bind, ap, Bool, ℕ, ◌+◌, ◌≡◌, ◌≢◌, refl, false, true, [], ◌∷◌, arith, ok, err,
  ==_refl, ◌∙◌, ◌||◌,
}
use p2p_ledger_starter.Common.Int.{neg_part, pos_part, ℤ, pos, ◌+ℤ◌, ◌≤ℤ◌, neg, int_laws, ltb_ℤ}
use p2p_ledger_starter.Ledger.Fault.{version_gap, unsupported_schema, insufficient_funds}
use p2p_ledger_starter.Ledger.Event.{
  wallet_account, EventType, EventData, StoredEvent, money_deposited, withdrawal_completed,
}
use p2p_ledger_starter.Ledger.Transaction.{transaction_postings, minor_text}
use p2p_ledger_starter.Ledger.Transaction.Amounts.{parse_minor_units-minor_text}
use p2p_ledger_starter.Ledger.Transaction.Postings.{
  create_ledger_transaction_nonzero, read_postings-transaction,
}
use p2p_ledger_starter.Ledger.Aggregate.{
  WalletAggregate, held_minor, available_minor, event_data, transaction_payload, money_event,
  deposit, withdraw,
}
use p2p_ledger_starter.Ledger.Aggregate.Replay.{
  is_wallet_created, apply_type, wallet_postings, apply_money, apply,
}
use p2p_ledger_starter.Ledger.Aggregate.Invariant.{IsValid, held_minor-active_sum}

-- The row that the event store makes of a decided event, as far as a replay reads it.
pub record Stores (w : WalletAggregate) (d : EventData) (e : StoredEvent) : Type 0 where
  pub same_type : e.event_type ≡ d.event_type
  pub same_schema : e.schema_version ≡ d.schema_version
  pub same_payload : e.payload ≡ d.payload
  pub next_version : e.stream_version ≡ w.version + 1

pub wallet_postings-transaction :
    (w : WalletAggregate) (a : ℤ)
    → wallet_postings w (transaction_postings w.id a)
      ≡ record { account_id = wallet_account w.id; amount_minor = minor_text a } ∷ []
unfolding wallet_postings
wallet_postings-transaction w a = rw (==_refl w.id)

money_event_lem :
    (w : WalletAggregate) (t : EventType) (a : ℤ) (event_id transaction_id : ℕ)
    → a ≢ pos 0
    → money_event w t a event_id transaction_id
      ≡ ok (
          event_data event_id t 1 (
            transaction_payload
              (record { transaction_id = transaction_id; postings = transaction_postings w.id a })))
unfolding money_event
money_event_lem w t a event_id transaction_id ne =
    rw (create_ledger_transaction_nonzero w.id a transaction_id ne)

-- A wallet after an amount was posted on its account.
abbrev pub after_posting : WalletAggregate → ℤ → WalletAggregate
after_posting w a = record w { version = w.version + 1; balance_minor = w.balance_minor +ℤ a }

apply_money-transaction :
    (w : WalletAggregate) (a : ℤ) (transaction_id : ℕ) (e : StoredEvent)
    → e.payload
      ≡ transaction_payload
          (record { transaction_id = transaction_id; postings = transaction_postings w.id a })
    → e.stream_version ≡ w.version + 1
    → held_minor w ≤ℤ w.balance_minor +ℤ a
    → apply_money w e ≡ ok (after_posting w a)
unfolding apply_money transaction_payload
apply_money-transaction w a transaction_id e p v c =
    rw
      (
        read_postings-transaction w.id a e.payload (ground arith),
        wallet_postings-transaction w a,
        parse_minor_units-minor_text a,
        v,
      )
      (ground arith)

or-true : (b : Bool) → (b || true) ≡ true
or-true true = refl
or-true false = refl

pub positive-ne : (a : ℤ) → pos 1 ≤ℤ a → a ≢ pos 0
positive-ne a p e = let bad : pos 1 ≤ℤ pos 0 = rw e at p in absurd (omega arith)

-- The next version and, from the second event on, schema version 1 are all that `apply` asks first.
pub apply-handler :
    (w : WalletAggregate) (d : EventData) (e : StoredEvent)
    → Stores w d e
    → d.schema_version ≡ 1
    → apply w e ≡ apply_type d.event_type w e
unfolding apply
apply-handler w d e s one =
    ensure-bind {c = e.stream_version == w.version + 1} version_gap _
      (rw s.next_version (==_refl (w.version + 1)))
    ∙ ensure-bind {c = is_wallet_created e.event_type || e.schema_version == 1} unsupported_schema _
        (rw (s.same_schema ∙ one) (or-true (is_wallet_created e.event_type)))
    ∙ ap (λ t. apply_type t w e) s.same_type

-- A deposit of a positive amount into a valid wallet is always decided, and its event adds the amount.
pub deposit-apply :
    (w : WalletAggregate) (a : ℤ) (event_id transaction_id : ℕ)
    → IsValid w
    → pos 1 ≤ℤ a
    → (d : EventData) × (deposit w a event_id transaction_id ≡ ok d)
      × ((e : StoredEvent) → Stores w d e → apply w e ≡ ok (after_posting w a))
unfolding deposit
deposit-apply w a event_id transaction_id v p = (
  _,
  money_event_lem w money_deposited a event_id transaction_id (positive-ne a p),
  λ e s.
      apply-handler w _ e s refl
      ∙ apply_money-transaction w a transaction_id e s.same_payload s.next_version
          (rw (held_minor-active_sum w) (omega (int_laws, v.holds_covered))),
)

pub negative-ne : (a : ℤ) → pos 1 ≤ℤ a → neg a ≢ pos 0
negative-ne a p e = absurd (omega (int_laws, ap pos_part e, ap neg_part e))

available-covers :
    (w : WalletAggregate) (a : ℤ)
    → a ≤ℤ available_minor w
    → held_minor w ≤ℤ w.balance_minor +ℤ neg a
unfolding available_minor
available-covers w a c = omega int_laws

withdraw-covered :
    (w : WalletAggregate) (a : ℤ) (event_id transaction_id : ℕ)
    → a ≤ℤ available_minor w
    → withdraw w a event_id transaction_id
      ≡ money_event w withdrawal_completed (neg a) event_id transaction_id
unfolding withdraw
withdraw-covered w a event_id transaction_id c =
    ensure-bind {c = not (ltb_ℤ (available_minor w) a)} insufficient_funds _ (ground arith)

-- A withdrawal of a positive amount that is available is decided, and its event takes the amount away.
pub withdraw-apply :
    (w : WalletAggregate) (a : ℤ) (event_id transaction_id : ℕ)
    → pos 1 ≤ℤ a
    → a ≤ℤ available_minor w
    → (d : EventData) × (withdraw w a event_id transaction_id ≡ ok d)
      × ((e : StoredEvent) → Stores w d e → apply w e ≡ ok (after_posting w (neg a)))
unfolding withdraw
withdraw-apply w a event_id transaction_id p c = (
  _,
  withdraw-covered w a event_id transaction_id c
      ∙ money_event_lem w withdrawal_completed (neg a) event_id transaction_id (negative-ne a p),
  λ e s.
      apply-handler w _ e s refl
      ∙ apply_money-transaction w (neg a) transaction_id e s.same_payload s.next_version
          (available-covers w a c),
)

-- A withdrawal of more than is available is refused.
pub withdraw_overdraft :
    (w : WalletAggregate) (a : ℤ) (event_id transaction_id : ℕ)
    → ¬ (a ≤ℤ available_minor w)
    → withdraw w a event_id transaction_id ≡ err insufficient_funds
unfolding withdraw
withdraw_overdraft w a event_id transaction_id c = ground arith
