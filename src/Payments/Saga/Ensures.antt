-- ===== src/Payments/Saga/Ensures.antt =====
-- What an action promises: from a sound world it leads to a sound one that follows the world at the
-- start, with a promise on its value or on its error. One rule for each way to build an action.
use p2p_ledger_starter.Payments.Tables.{Transfer}
use p2p_ledger_starter.Payments.Saga.Evolution.{
  IsSnapshot-Follows, Rely, IsSnapshot, Follows, Sound, Follows-trans,
}
use p2p_ledger_starter.Common.{Result, ok, err}
use p2p_ledger_starter.Payments.World.{
  World, Action, pure, throw, modify, ◌>>=◌, handle, continue, recover, throwing_with,
}

abbrev pub Post :
    {E A : Type 0}
    → World
    → (A → World → Type 0)
    → (E → World → Type 0)
    → Result E A × World
    → Type 0
Post start Q R (ok a, w) = Sound w × Follows start w × Q a w
Post start Q R (err e, w) = Sound w × Follows start w × R e w

pub record Ensures {E A : Type 0} (P : World → Type 0) (m : Action E A) (Q : A → World → Type 0)
    (R : E → World → Type 0) : Type 0 where
  pub at : (start w : World) → Sound w → Follows start w → P w → Post start Q R (m w)

-- A fact that survives what others do.
pub record IsStable (P : World → Type 0) : Type 0 where
  pub at : {w next : World} → Follows w next → P w → P next

pub IsSnapshot-IsStable : (transfer : Transfer) → IsStable (IsSnapshot transfer)
IsSnapshot-IsStable transfer = record { at = λ f p. IsSnapshot-Follows transfer f p }

module _ {E A : Type 0} {P : World → Type 0} where
  pub Ensures-pure :
      {R : E → World → Type 0} (a : A) (Q : A → World → Type 0)
      → ((w : World) → P w → Q a w)
      → Ensures {E = E} P (pure a) Q R
  Ensures-pure a Q holds = record { at = λ start w sound follows p. (sound, follows, holds w p) }

  pub Ensures-throw :
      {Q : A → World → Type 0} (e : E) (R : E → World → Type 0)
      → ((w : World) → P w → R e w)
      → Ensures {A = A} P (throw e) Q R
  Ensures-throw e R holds = record { at = λ start w sound follows p. (sound, follows, holds w p) }

module _ {E A B : Type 0} {R : E → World → Type 0} where
  Post-bind :
      {Q : A → World → Type 0} {Q' : B → World → Type 0} (start : World) (f : A → Action E B)
      → ((a : A) → Ensures (Q a) (f a) Q' R)
      → (outcome : Result E A × World) → Post start Q R outcome
      → Post start Q' R (continue outcome f)
  Post-bind start f after (ok a, w) (sound, follows, q) = (after a).at start w sound follows q
  Post-bind start f after (err e, w) post = post

  pub Ensures-bind :
      {P : World → Type 0} {Q : A → World → Type 0} {Q' : B → World → Type 0} {m : Action E A}
      {f : A → Action E B}
      → Ensures P m Q R
      → ((a : A) → Ensures (Q a) (f a) Q' R)
      → Ensures P (m >>= f) Q' R
  Ensures-bind {m = m} {f = f} first after = record {
    at =
        λ start w sound follows p. Post-bind start f after (m w) (first.at start w sound follows p);
  }

module _ {E F A : Type 0} {Q : A → World → Type 0} where
  Post-recover :
      {R : E → World → Type 0} {R' : F → World → Type 0} (start : World) (h : E → Action F A)
      → ((e : E) → Ensures (R e) (h e) Q R')
      → (outcome : Result E A × World) → Post start Q R outcome
      → Post start Q R' (recover outcome h)
  Post-recover start h after (ok a, w) post = post
  Post-recover start h after (err e, w) (sound, follows, r) = (after e).at start w sound follows r

  pub Ensures-handle :
      {P : World → Type 0} {R : E → World → Type 0} {R' : F → World → Type 0} {m : Action E A}
      {h : E → Action F A}
      → Ensures P m Q R
      → ((e : E) → Ensures (R e) (h e) Q R')
      → Ensures P (handle m h) Q R'
  Ensures-handle {m = m} {h = h} first after = record {
    at = λ start w sound follows p.
        Post-recover start h after (m w) (first.at start w sound follows p);
  }

module _ {E A : Type 0} {Q Q' : A → World → Type 0} {R R' : E → World → Type 0} where
  Post-weaken :
      (start : World)
      → ((a : A) (w : World) → Q a w → Q' a w)
      → ((e : E) (w : World) → R e w → R' e w)
      → (outcome : Result E A × World) → Post start Q R outcome
      → Post start Q' R' outcome
  Post-weaken start value error (ok a, w) (sound, follows, q) = (sound, follows, value a w q)
  Post-weaken start value error (err e, w) (sound, follows, r) = (sound, follows, error e w r)

  pub Ensures-weaken :
      {P P' : World → Type 0} {m : Action E A}
      → ((w : World) → P' w → P w)
      → ((a : A) (w : World) → Q a w → Q' a w)
      → ((e : E) (w : World) → R e w → R' e w)
      → Ensures P m Q R
      → Ensures P' m Q' R'
  Ensures-weaken {m = m} before value error known = record {
    at = λ start w sound follows p.
        Post-weaken start value error (m w) (known.at start w sound follows (before w p));
  }

-- The step of an action that others may take.
pub Ensures-arrive :
    {E : Type 0} {P : World → Type 0} {R : E → World → Type 0} (arrive : World → World)
    → Rely arrive
    → IsStable P
    → Ensures {E = E} P (modify arrive) (λ _. P) R
Ensures-arrive arrive rely stable = record {
  at = λ start w sound follows p.
      let (sound', moved) = rely.at w sound in
      (sound', Follows-trans follows moved, stable.at moved p);
}

pub Ensures-throwing_with :
    {E F A : Type 0} {P : World → Type 0} {Q : A → World → Type 0} {R : E → World → Type 0}
    {R' : E × F → World → Type 0} {m : Action E A} (f : F)
    → ((e : E) (w : World) → R e w → R' (e, f) w)
    → Ensures P m Q R
    → Ensures P (throwing_with f m) Q R'
Ensures-throwing_with f error known =
    Ensures-handle known (λ e. Ensures-throw (e, f) _ (λ w r. error e w r))
