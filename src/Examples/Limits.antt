-- ===== src/Examples/Limits.antt =====
-- Two users who ask for transfers, of which a user may make two in a second.
use p2p_ledger_starter.Common.{ℕ, ◌≤◌, ◌≡◌, refl, List, [], ◌∷◌, arith}
use p2p_ledger_starter.Payments.RateLimit.{
  RateLimit, can_activate, admitted, can_activate-limited, prune,
}

abbrev two_each_second : RateLimit
two_each_second = record { limit = 2; window_ms = 1000 }

abbrev later_requests : List (ℕ × ℕ)
later_requests = (1, 10) ∷ (2, 20) ∷ (1, 30) ∷ (1, 900) ∷ []

two_let_through : admitted two_each_second 1 ((1, 0) ∷ later_requests) [] ≡ 2
unfolding can_activate prune
two_let_through = refl

can_activate-limited_example : admitted two_each_second 1 ((1, 0) ∷ later_requests) [] ≤ 2
can_activate-limited_example =
    can_activate-limited two_each_second 1 0 later_requests [] (omega arith) (omega arith) refl
      (omega arith, (omega arith, (omega arith, (omega arith, tt))))
