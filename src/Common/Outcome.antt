-- ===== src/Common/Outcome.antt =====
-- Code that may throw: a value, or the error that was thrown.
use mathlib.Core.Path.{ap, ◌≡◌, refl}
use mathlib.Core.Bool.{Bool, true, false}
use mathlib.Core.Logic.{◌⊎◌, inl, inr}
use mathlib.Core.Option.{Option, none, some}

pub data Result {ℓ κ} (E : Type ℓ) (A : Type κ) : Type (ℓ ⊔ κ) where
  ok : A → Result E A
  err : E → Result E A

module _ {ℓ κ μ} {E : Type ℓ} {A : Type κ} {B : Type μ} where
  infixl 5 ◌>>=◌
  abbrev pub ◌>>=◌ : Result E A → (A → Result E B) → Result E B
  ok a >>= f = f a
  err e >>= f = err e

  -- The two halves of a chain that succeeded.
  pub >>=-eq-ok :
      (first : Result E A) (rest : A → Result E B) {result : B}
      → (first >>= rest) ≡ ok result
      → (value : A) × (first ≡ ok value) × (rest value ≡ ok result)
  >>=-eq-ok (ok value) rest done = (value, refl, done)
  >>=-eq-ok (err fault) rest done = cc

infixl 5 ◌>>◌
abbrev pub ◌>>◌ {ℓ κ} : {E : Type ℓ} {B : Type κ} → Result E (Unit {0}) → Result E B → Result E B
m >> k = m >>= λ _. k

-- `if (!c) throw e`
abbrev pub ensure {ℓ} : {E : Type ℓ} → Bool → E → Result E (Unit {0})
ensure true e = ok tt
ensure false e = err e

-- `if (!o) throw e`
abbrev pub or_throw {ℓ κ} : {E : Type ℓ} {A : Type κ} → Option A → E → Result E A
or_throw none e = err e
or_throw (some a) e = ok a

-- A test that passes lets the rest run.
pub ensure-bind {ℓ κ} :
    {E : Type ℓ} {A : Type κ} {c : Bool} (e : E) (k : Unit {0} → Result E A)
    → c ≡ true
    → (ensure c e >>= k) ≡ k tt
ensure-bind e k h = rw h

pub Result-cases {ℓ κ} :
    {E : Type ℓ} {A : Type κ} (m : Result E A) → ((a : A) × (m ≡ ok a)) ⊎ ((e : E) × (m ≡ err e))
Result-cases (ok a) = inl (a, refl)
Result-cases (err e) = inr (e, refl)

abbrev ok_or {ℓ κ} : {E : Type ℓ} {A : Type κ} → A → Result E A → A
ok_or d (ok a) = a
ok_or d (err e) = d

pub ok-injective {ℓ κ} :
    {E : Type ℓ} {A : Type κ} {a b : A} → ◌≡◌ {A = Result E A} (ok a) (ok b) → a ≡ b
ok-injective {a = a} h = ap (ok_or a) h

-- What is paired with a result that was computed.
pub >>=-snd {ℓ κ μ} :
    {E : Type ℓ} {A : Type κ} {B : Type μ} (m : Result E A) (b : B) {p : A × B}
    → (m >>= λ a. ok (a, b)) ≡ ok p
    → b ≡ p.1
>>=-snd (ok a) b h = ap (λ p. p.1) (ok-injective h)
>>=-snd (err e) b h = absurd (cc)

abbrev pub is_ok {ℓ κ} : {E : Type ℓ} {A : Type κ} → Result E A → Bool
is_ok (ok a) = true
is_ok (err e) = false

-- The value of a result that is one.
pub value_of {ℓ κ} : {E : Type ℓ} {A : Type κ} (m : Result E A) → is_ok m ≡ true → A
value_of (ok a) h = a
value_of (err e) h = absurd (cc)

pub value_of-ok {ℓ κ} :
    {E : Type ℓ} {A : Type κ} (m : Result E A) (h : is_ok m ≡ true) → m ≡ ok (value_of m h)
unfolding value_of
value_of-ok (ok a) h = refl
value_of-ok (err e) h = absurd (cc)
