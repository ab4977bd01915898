-- ===== src/Ledger/Aggregate/Invariant.antt =====
-- What holds of every wallet that a replay accepts.
use p2p_ledger_starter.Common.{refl, ℕ, ◌≡◌, none, some, [], ◌∷◌, All, arith}
use p2p_ledger_starter.Common.Int.{ℤ, pos, ◌+ℤ◌, ◌≤ℤ◌, int_laws}
use p2p_ledger_starter.Common.Dict.{Dict, lookup, insert}
use p2p_ledger_starter.Ledger.Aggregate.{
  empty, HoldState, WalletAggregate, active_amount, held_from, held_minor, available_minor,
}

-- The held funds as a plain recursion, which follows the shape of `insert`.
abbrev pub active_sum : Dict HoldState → ℤ
active_sum [] = pos 0
active_sum ((_, hold) ∷ holds) = active_amount hold +ℤ active_sum holds

held_from-active_sum :
    (sum : ℤ) (holds : Dict HoldState) → held_from sum holds ≡ sum +ℤ active_sum holds
unfolding held_from
held_from-active_sum sum [] = omega int_laws
held_from-active_sum sum ((k, hold) ∷ holds) =
    rw (held_from-active_sum (sum +ℤ active_amount hold) holds) (omega int_laws)

pub held_minor-active_sum : (w : WalletAggregate) → held_minor w ≡ active_sum w.holds
unfolding held_minor
held_minor-active_sum w = rw (held_from-active_sum (pos 0) w.holds) (omega int_laws)

pub active_sum-insert :
    (k : ℕ) (hold old : HoldState) (holds : Dict HoldState)
    → lookup k holds ≡ some old
    → active_sum (insert k hold holds) +ℤ active_amount old ≡ active_sum holds +ℤ active_amount hold
active_sum-insert k hold old [] e = cc
active_sum-insert k hold old (x ∷ holds) e = grind (int_laws, active_sum-insert k hold old holds)

pub active_sum-insert_new :
    (k : ℕ) (hold : HoldState) (holds : Dict HoldState)
    → lookup k holds ≡ none
    → active_sum (insert k hold holds) ≡ active_sum holds +ℤ active_amount hold
active_sum-insert_new k hold [] e = omega int_laws
active_sum-insert_new k hold (x ∷ holds) e = grind (int_laws, active_sum-insert_new k hold holds)

abbrev pub HasAmount : ℕ × HoldState → Type 0
HasAmount e = pos 1 ≤ℤ e.1.amount_minor

-- Every hold has a positive amount, the balance covers the holds that are active, and a wallet
-- with no event is empty.
pub record IsValid (w : WalletAggregate) : Type 0 where
  pub holds_positive : All HasAmount w.holds
  pub holds_covered : active_sum w.holds ≤ℤ w.balance_minor
  pub unopened : w.version ≡ 0 → (w.balance_minor ≡ pos 0) × (w.holds ≡ [])

pub empty-IsValid : (wallet_id : ℕ) → IsValid (empty wallet_id)
empty-IsValid wallet_id = record {
  holds_positive = tt;
  holds_covered = omega arith;
  unopened = λ _. (refl, refl);
}

pub All-insert :
    (k : ℕ) (hold : HoldState) (holds : Dict HoldState)
    → All HasAmount holds
    → pos 1 ≤ℤ hold.amount_minor
    → All HasAmount (insert k hold holds)
All-insert k hold [] h p = (p, tt)
All-insert k hold (x ∷ holds) h p = ground (arith, All-insert k hold holds h.1 p)

pub lookup-HasAmount :
    (k : ℕ) (hold : HoldState) (holds : Dict HoldState)
    → All HasAmount holds
    → lookup k holds ≡ some hold
    → pos 1 ≤ℤ hold.amount_minor
lookup-HasAmount k hold [] h e = cc
lookup-HasAmount k hold (x ∷ holds) h e = ground (arith, lookup-HasAmount k hold holds h.1)

pub active_sum_nonneg : (holds : Dict HoldState) → All HasAmount holds → pos 0 ≤ℤ active_sum holds
unfolding active_amount
active_sum_nonneg [] h = omega arith
active_sum_nonneg (x ∷ holds) h = grind (int_laws, active_sum_nonneg holds h.1)

-- The two numbers that a client sees are never negative.
pub IsValid-nonneg :
    (w : WalletAggregate) → IsValid w → (pos 0 ≤ℤ w.balance_minor) × (pos 0 ≤ℤ available_minor w)
unfolding available_minor
IsValid-nonneg w v =
    rw (held_minor-active_sum w) (omega (int_laws, active_sum_nonneg w.holds v.holds_positive))
