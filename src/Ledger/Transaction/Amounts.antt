-- ===== src/Ledger/Transaction/Amounts.antt =====
-- Amounts survive printing and parsing.
use p2p_ledger_starter.Common.{ℕ, suc, ◌≡◌, refl, ◌≢◌, some, [], ◌∷◌, arith, ok}
use p2p_ledger_starter.Common.Int.{ℤ, pos, negsuc, neg}
use p2p_ledger_starter.Common.Decimal.{
  Text, digits_value, parse_natural, natural_text, digits_value-natural_text, natural_text-ne-nil,
}
use p2p_ledger_starter.Ledger.Transaction.{parse_minor_units, minor_text}

parse_natural-digits :
    (t : Text) (n : ℕ) → digits_value 0 t ≡ some n → t ≢ [] → parse_natural t ≡ some n
unfolding parse_natural
parse_natural-digits [] n h ne = absurd (ne refl)
parse_natural-digits (c ∷ t) n h ne = h

parse_minor_units-digits :
    (t : Text) (n : ℕ) → digits_value 0 t ≡ some n → t ≢ [] → parse_minor_units t ≡ ok (pos n)
unfolding parse_minor_units parse_natural digits_value
parse_minor_units-digits [] n h ne = absurd (ne refl)
parse_minor_units-digits (c ∷ t) n h ne = ground arith

neg-pos_suc : (n : ℕ) → neg (pos (suc n)) ≡ negsuc n
unfolding neg
neg-pos_suc n = ground arith

-- Parsing the printed text of any amount gives the amount back.
pub parse_minor_units-minor_text : (a : ℤ) → parse_minor_units (minor_text a) ≡ ok a
unfolding minor_text
parse_minor_units-minor_text (pos n) =
    parse_minor_units-digits (natural_text n) n (digits_value-natural_text n)
      (natural_text-ne-nil n)
parse_minor_units-minor_text (negsuc n) =
    unfold parse_minor_units in
    rw (
      parse_natural-digits (natural_text (suc n)) (suc n) (digits_value-natural_text (suc n))
          (natural_text-ne-nil (suc n)),
      neg-pos_suc n,
    )
