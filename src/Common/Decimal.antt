-- ===== src/Common/Decimal.antt =====
-- Texts as lists of character codes, and the decimal texts of `BigInt(text)` and `toString()`.
use p2p_ledger_starter.Common.{◌==◌}
use p2p_ledger_starter.Common.Tests.{◌==◌, ==_refl, ltb, leb, if◌then◌else◌, Bool-cases}
use Prim.Native.Nat.{ℕ, zero, suc, ◌+◌, ◌-◌, ◌*◌, ◌/◌, ◌%◌, ◌<◌}
use mathlib.Core.Path.{refl, ◌≡◌, ◌∙◌}
use mathlib.Core.Logic.{◌≢◌, inl, inr}
use mathlib.Core.Bool.{false, true, Bool, ◌&&◌}
use mathlib.Core.Option.{Option, none, some}
use mathlib.Core.List.{List, [], ◌∷◌, ◌++◌}
use p2p_ledger_starter.Common.Lists.{length, replicate}
use native.Mathlib.Omega.{arith}

abbrev pub Text : Type 0
Text = List ℕ

abbrev pub is_digit : ℕ → Bool
is_digit c = leb b'0' c && leb c b'9'

-- The number that the digits `t` stand for behind the digits of `acc`; `none` at another character.
unfoldable pub digits_value : ℕ → Text → Option ℕ
digits_value acc [] = some acc
digits_value acc (c ∷ t) =
    let rest = digits_value (acc * 10 + (c - b'0')) t in if is_digit c then rest else none

-- `/^\d+$/` and the value of `BigInt`.
unfoldable pub parse_natural : Text → Option ℕ
parse_natural [] = none
parse_natural (c ∷ t) = digits_value 0 (c ∷ t)

-- The digits of `n` in front of `t`; `n + 1` rounds suffice.
unfoldable pub digits_before : ℕ → ℕ → Text → Text
digits_before zero n t = t
digits_before (suc fuel) n t =
    let more = digits_before fuel (n / 10) ((b'0' + n % 10) ∷ t) in
    if ltb n 10 then (b'0' + n) ∷ t else more

-- `n.toString()`
unfoldable pub natural_text : ℕ → Text
natural_text n = digits_before (suc n) n []

pub digits_value-digits_before :
    (fuel n : ℕ) (t : Text) → n < fuel → digits_value 0 (digits_before fuel n t) ≡ digits_value n t
unfolding digits_value digits_before
digits_value-digits_before zero n t h = absurd (omega arith)
digits_value-digits_before (suc fuel) n t h = elim (Bool-cases (ltb n 10)) [
  | inl small ↦ rw small (ground arith)
  | inr big ↦ rw big (
      digits_value-digits_before fuel (n / 10) ((b'0' + n % 10) ∷ t) (ground arith)
      ∙ (ground arith))
]

-- `BigInt(n.toString()) === n`
pub digits_value-natural_text : (n : ℕ) → digits_value 0 (natural_text n) ≡ some n
unfolding natural_text digits_value
digits_value-natural_text n = digits_value-digits_before (suc n) n [] (omega arith)

digits_before-ne-nil : (fuel n c : ℕ) (t : Text) → digits_before fuel n (c ∷ t) ≢ []
unfolding digits_before
digits_before-ne-nil zero n c t = λ h. cc
digits_before-ne-nil (suc fuel) n c t = elim (Bool-cases (ltb n 10)) [
  | inl small ↦ rw small (λ h. cc)
  | inr big ↦ rw big (digits_before-ne-nil fuel (n / 10) (b'0' + n % 10) (c ∷ t))
]

pub natural_text-ne-nil : (n : ℕ) → natural_text n ≢ []
unfolding natural_text digits_before
natural_text-ne-nil n = elim (Bool-cases (ltb n 10)) [
  | inl small ↦ rw small (λ h. cc)
  | inr big ↦ rw big (digits_before-ne-nil n (n / 10) (b'0' + n % 10) [])
]

-- `s === t`
abbrev pub text_eq : Text → Text → Bool
text_eq [] [] = true
text_eq (c ∷ s) (d ∷ t) = c == d && text_eq s t
text_eq _ _ = false

pub text_eq_refl : (t : Text) → text_eq t t ≡ true
text_eq_refl [] = refl
text_eq_refl (c ∷ t) = rw (==_refl c, text_eq_refl t)

pub text_eq→≡ : (s t : Text) → text_eq s t ≡ true → s ≡ t
text_eq→≡ [] [] h = refl
text_eq→≡ [] (d ∷ t) h = cc
text_eq→≡ (c ∷ s) [] h = cc
text_eq→≡ (c ∷ s) (d ∷ t) h = ground (arith, text_eq→≡ s t)

-- `t.padStart(width, c)`
unfoldable pub pad_start : ℕ → ℕ → Text → Text
pad_start width c t = replicate (width - length t) c ++ t
