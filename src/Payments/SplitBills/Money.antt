-- ===== src/Payments/SplitBills/Money.antt =====
-- split-bills/domain/money.ts: an amount as a text with two decimals.

use p2p_ledger_starter.Common.{
  ℕ, zero, suc, ◌+◌, ◌*◌, ◌/◌, ◌%◌, ◌≤◌, ◌<◌, ◌≡◌, refl, ◌∙◌, ap, Bool, true, false, ◌&&◌, Option,
  none, some, [], ◌∷◌, ◌++◌, Result, ok, ◌>>=◌, ◌>>◌, ensure, or_throw, ltb, leb, ◌==◌,
  if◌then◌else◌, arith, Bool-cases, inl, inr,
}
use p2p_ledger_starter.Common.Decimal.{
  Text, is_digit, digits_value, natural_text, digits_before, pad_start, digits_value-natural_text,
}

pub data MoneyFault : Type 0 where
  bad_format not_positive out_of_range : MoneyFault

abbrev prefix : ℕ → Option (Text × Text) → Option (Text × Text)
prefix c none = none
prefix c (some (s, t)) = some (c ∷ s, t)

-- The text up to the first dot, and what stands behind it.
unfoldable pub split_dot : Text → Option (Text × Text)
split_dot [] = none
split_dot (c ∷ t) = if c == b'.' then some ([], t) else prefix c (split_dot t)

-- `(0|[1-9]\d*)`
abbrev is_whole : Text → Bool
is_whole [] = false
is_whole (c ∷ []) = is_digit c
is_whole (c ∷ d ∷ t) = leb b'1' c && leb c b'9'

-- `\d{2}`
abbrev is_fraction : Text → Bool
is_fraction (c ∷ d ∷ []) = is_digit c && is_digit d
is_fraction _ = false

-- `MONEY_PATTERN` and `BigInt(whole) * 100n + BigInt(fraction)`; that the other characters of the whole
-- part are digits is read with its value.
unfoldable pub money_value : Text × Text → Option ℕ
money_value (whole, fraction) = elim (digits_value 0 whole) [
  | none ↦ none
  | some w ↦ elim (digits_value 0 fraction) [
    | none ↦ none
    | some f ↦ if is_whole whole && is_fraction fraction then some (w * 100 + f) else none
  ]
]

abbrev bind_option : {A B : Type 0} → Option A → (A → Option B) → Option B
bind_option none f = none
bind_option (some a) f = f a

-- `Number.MAX_SAFE_INTEGER`
abbrev pub max_safe_minor : ℕ
max_safe_minor = 9007199254740991

unfoldable pub parse_money_to_minor : Text → Result MoneyFault ℕ
parse_money_to_minor value = do
  minor ← or_throw (bind_option (split_dot value) money_value) bad_format
  ensure (ltb 0 minor) not_positive
  ensure (leb minor max_safe_minor) out_of_range
  ok minor

unfoldable pub format_money : ℕ → Text
format_money value =
    natural_text (value / 100) ++ (b'.' ∷ pad_start 2 b'0' (natural_text (value % 100)))

-- The digits of a number hold no dot.
no_dot : Text → Bool
no_dot [] = true
no_dot (c ∷ t) = is_digit c && no_dot t

split_dot-append : (s t : Text) → no_dot s ≡ true → split_dot (s ++ (b'.' ∷ t)) ≡ some (s, t)
unfolding split_dot no_dot
split_dot-append [] t h = refl
split_dot-append (c ∷ s) t h =
    let rest = split_dot-append s t (ground arith) in
    let digit : (c == b'.') ≡ false = ground arith in rw (rest, digit) refl

digits_before-no_dot :
    (fuel n : ℕ) (t : Text) → no_dot t ≡ true → no_dot (digits_before fuel n t) ≡ true
unfolding digits_before no_dot
digits_before-no_dot zero n t h = h
digits_before-no_dot (suc fuel) n t h = elim (Bool-cases (ltb n 10)) [
  | inl small ↦ rw small (ground arith)
  | inr big ↦ rw big (digits_before-no_dot fuel (n / 10) ((b'0' + n % 10) ∷ t) (ground (arith, h)))
]

-- The first digit of a number that is behind other digits is not 0.
digits_before-is_whole :
    (fuel n d : ℕ) (t : Text) → 1 ≤ n → n < fuel → is_whole (digits_before fuel n (d ∷ t)) ≡ true
unfolding digits_before
digits_before-is_whole zero n d t large h = absurd (omega arith)
digits_before-is_whole (suc fuel) n d t large h = elim (Bool-cases (ltb n 10)) [
  | inl small ↦ rw small (ground arith)
  | inr big ↦
      rw big
        (digits_before-is_whole fuel (n / 10) (b'0' + n % 10) (d ∷ t) (ground arith) (ground arith))
]

natural_text-is_whole : (n : ℕ) → is_whole (natural_text n) ≡ true
unfolding natural_text digits_before
natural_text-is_whole n = elim (Bool-cases (ltb n 10)) [
  | inl small ↦ rw small (ground arith)
  | inr big ↦
      rw big (digits_before-is_whole n (n / 10) (b'0' + n % 10) [] (ground arith) (ground arith))
]

two_digits :
    (r : ℕ) → r < 100 → ltb r 10 ≡ false → natural_text r ≡ (b'0' + r / 10) ∷ (b'0' + r % 10) ∷ []
unfolding natural_text digits_before
two_digits zero h big = cc
two_digits (suc r) h big =
    let small : ltb (suc r / 10) 10 ≡ true = ground arith in rw (big, small) refl

one_digit : (r : ℕ) → ltb r 10 ≡ true → natural_text r ≡ (b'0' + r) ∷ []
unfolding natural_text digits_before
one_digit r small = rw small refl

-- The two decimals.
abbrev decimals : ℕ → Text
decimals r = pad_start 2 b'0' (natural_text r)

decimals_lem :
    (r : ℕ) → r < 100 → (is_fraction (decimals r) ≡ true) × (digits_value 0 (decimals r) ≡ some r)
unfolding pad_start digits_value
decimals_lem r h = elim (Bool-cases (ltb r 10)) [
  | inl small ↦ rw (one_digit r small) (ground arith, ground arith)
  | inr big ↦ rw (two_digits r h big) (ground arith, ground arith)
]

natural_text-no_dot : (n : ℕ) → no_dot (natural_text n) ≡ true
unfolding natural_text no_dot
natural_text-no_dot n = digits_before-no_dot (suc n) n [] refl

money_value_lem :
    (w f : ℕ)
    → is_fraction (decimals f) ≡ true
    → digits_value 0 (decimals f) ≡ some f
    → money_value (natural_text w, decimals f) ≡ some (w * 100 + f)
unfolding money_value
money_value_lem w f two read =
    rw (money_value, digits_value-natural_text w, read, natural_text-is_whole w, two) refl

-- An amount between one minor unit and the largest safe integer is read back from its text.
pub parse_money_to_minor-format_money :
    (value : ℕ)
    → 1 ≤ value
    → value ≤ max_safe_minor
    → parse_money_to_minor (format_money value) ≡ ok value
unfolding parse_money_to_minor format_money
parse_money_to_minor-format_money value low high =
    let (two, read) = decimals_lem (value % 100) (omega arith) in
    let split : split_dot (format_money value)
        ≡ some (natural_text (value / 100), decimals (value % 100)) =
      split_dot-append (natural_text (value / 100)) (decimals (value % 100))
        (natural_text-no_dot (value / 100)) in
    let joined : money_value (natural_text (value / 100), decimals (value % 100)) ≡ some value =
      money_value_lem (value / 100) (value % 100) two read ∙ ap some (omega arith) in
    let positive : ltb 0 value ≡ true = ground arith in
    let bounded : leb value max_safe_minor ≡ true = ground arith in
    rw (split, joined, positive, bounded) refl
