-- ===== src/Ledger/Aggregate/Soundness.antt =====
-- A replay yields a valid wallet whose version is the number of its events.
use p2p_ledger_starter.Common.{
  ℕ, some, none, ◌∙◌, ◌+◌, ◌≡◌, refl, List, [], ◌∷◌, length, arith, ok, >>=-eq-ok,
}
use p2p_ledger_starter.Common.Int.{ℤ, ◌+ℤ◌, ◌-ℤ◌, ◌≤ℤ◌, int_laws}
use p2p_ledger_starter.Common.Dict.{lookup, insert}
use p2p_ledger_starter.Ledger.Event.{StoredEvent}
use p2p_ledger_starter.Ledger.Aggregate.{
  HoldState, active, released, consumed, WalletAggregate, empty, active_amount,
}
use p2p_ledger_starter.Ledger.Aggregate.Invariant.{
  active_sum, active_sum-insert, active_sum-insert_new, IsValid, empty-IsValid, All-insert,
  lookup-HasAmount,
}
use p2p_ledger_starter.Ledger.Aggregate.Replay.{apply, replay_from, rehydrate}
use p2p_ledger_starter.Ledger.Aggregate.Step.{
  Step, created, moved, placed, freed, spent, apply-Step,
}

module _ (w : WalletAggregate) (v : IsValid w) where
  placed-covered :
      (k : ℕ) (a : ℤ)
      → lookup k w.holds ≡ none
      → active_sum w.holds +ℤ a ≤ℤ w.balance_minor
      → active_sum (insert k (record { amount_minor = a; status = active }) w.holds)
        ≤ℤ w.balance_minor
  unfolding active_amount
  placed-covered k a e c =
      rw (active_sum-insert_new k (record { amount_minor = a; status = active }) w.holds e) c

  freed-covered :
      (k : ℕ) (hold : HoldState)
      → lookup k w.holds ≡ some hold
      → hold.status ≡ active
      → active_sum (insert k (record hold { status = released }) w.holds) ≤ℤ w.balance_minor
  unfolding active_amount
  freed-covered k hold e a = grind (
    int_laws,
    active_sum-insert k (record hold { status = released }) hold w.holds e,
    lookup-HasAmount k hold w.holds v.holds_positive e,
  )

  spent-covered :
      (k : ℕ) (hold : HoldState)
      → lookup k w.holds ≡ some hold
      → hold.status ≡ active
      → active_sum (insert k (record hold { status = consumed }) w.holds)
        ≤ℤ w.balance_minor -ℤ hold.amount_minor
  unfolding active_amount
  spent-covered k hold e a = grind (
    int_laws,
    active_sum-insert k (record hold { status = consumed }) hold w.holds e,
    lookup-HasAmount k hold w.holds v.holds_positive e,
  )

Step-IsValid : {w w' : WalletAggregate} → Step w (w.version + 1) w' → IsValid w → IsValid w'
Step-IsValid (created o c z e) v =
    rw e (record { holds_positive = tt; holds_covered = omega arith; unopened = λ _. (refl, refl) })
Step-IsValid {w} (moved a c e) v = rw e (record {
  holds_positive = v.holds_positive;
  holds_covered = c;
  unopened = λ z. absurd (omega arith);
})
Step-IsValid {w} (placed k a n p c e) v = rw e (record {
  holds_positive = All-insert k _ w.holds v.holds_positive p;
  holds_covered = placed-covered w v k a n c;
  unopened = λ z. absurd (omega arith);
})
Step-IsValid {w} (freed k hold f a e) v = rw e (record {
  holds_positive =
      All-insert k _ w.holds v.holds_positive (lookup-HasAmount k hold w.holds v.holds_positive f);
  holds_covered = freed-covered w v k hold f a;
  unopened = λ z. absurd (omega arith);
})
Step-IsValid {w} (spent k hold f a e) v = rw e (record {
  holds_positive =
      All-insert k _ w.holds v.holds_positive (lookup-HasAmount k hold w.holds v.holds_positive f);
  holds_covered = spent-covered w v k hold f a;
  unopened = λ z. absurd (omega arith);
})

-- An event that a replay accepts leads from a valid wallet to a valid wallet.
pub apply-IsValid :
    (w : WalletAggregate) (e : StoredEvent) {w' : WalletAggregate}
    → apply w e ≡ ok w'
    → IsValid w
    → IsValid w'
apply-IsValid w e h v = Step-IsValid (apply-Step w e h) v

Step-version : {w w' : WalletAggregate} {n : ℕ} → Step w n w' → w'.version ≡ n
Step-version (created _ _ _ e) = ground arith
Step-version (moved _ _ e) = ground arith
Step-version (placed _ _ _ _ _ e) = ground arith
Step-version (freed _ _ _ _ e) = ground arith
Step-version (spent _ _ _ _ e) = ground arith

pub apply-version :
    (w : WalletAggregate) (e : StoredEvent) {w' : WalletAggregate}
    → apply w e ≡ ok w'
    → w'.version ≡ w.version + 1
apply-version w e h = Step-version (apply-Step w e h)

Step-id : {w w' : WalletAggregate} {n : ℕ} → Step w n w' → w'.id ≡ w.id
Step-id (created _ _ _ e) = ground arith
Step-id (moved _ _ e) = ground arith
Step-id (placed _ _ _ _ _ e) = ground arith
Step-id (freed _ _ _ _ e) = ground arith
Step-id (spent _ _ _ _ e) = ground arith

pub apply-id :
    (w : WalletAggregate) (e : StoredEvent) {w' : WalletAggregate}
    → apply w e ≡ ok w'
    → w'.id ≡ w.id
apply-id w e h = Step-id (apply-Step w e h)

pub replay_from-IsValid :
    (w : WalletAggregate) (es : List StoredEvent) {w' : WalletAggregate}
    → replay_from w es ≡ ok w'
    → IsValid w
    → IsValid w' × (w'.version ≡ w.version + length es) × (w'.id ≡ w.id)
unfolding replay_from
replay_from-IsValid w [] h v = ground arith
replay_from-IsValid w (e ∷ es) h v =
    let (next, one, rest) = >>=-eq-ok (apply w e) _ h in
    let (valid, version, id) = replay_from-IsValid next es rest (apply-IsValid w e one v) in
    (valid, omega (arith, apply-version w e one), id ∙ apply-id w e one)

-- Every wallet that is rehydrated is valid: its holds are positive and its balance covers the
-- active ones. Its version is the number of events, and its id that of the stream.
pub rehydrate-IsValid :
    (wallet_id : ℕ) (es : List StoredEvent) {w : WalletAggregate}
    → rehydrate wallet_id es ≡ ok w
    → IsValid w × (w.version ≡ length es) × (w.id ≡ wallet_id)
unfolding rehydrate
rehydrate-IsValid wallet_id es h =
    let (valid, version, id) =
      replay_from-IsValid (empty wallet_id) es h (empty-IsValid wallet_id) in
    (valid, omega arith, id)
