-- ===== src/Payments/FxQuote.antt =====
-- apps/payments-service/src/transfers/domain/fx-quote.ts: the quote of a transfer between currencies.
use p2p_ledger_starter.Common.{
  >>=-eq-ok, ok-injective, sym, ◌∙◌, ap, or_throw, ok, ensure, Result, ltb, ℕ, ◌+◌, ◌≤◌, ◌<◌, ◌≡◌,
  not, Option, some, ◌∷◌, ◌++◌, arith, ◌*◌, ◌/◌, ◌%◌, ◌>>=◌, ◌>>◌,
}
use p2p_ledger_starter.Common.Int.{ℤ, pos, pos_part, leb_ℤ}
use p2p_ledger_starter.Common.Decimal.{
  digits_value-natural_text, Text, natural_text, digits_value, pad_start,
}

pub data SupportedCurrency : Type 0 where
  usd eur uah : SupportedCurrency

-- `MICRO_USD_VALUE`
abbrev pub micro_usd_value : SupportedCurrency → ℕ
micro_usd_value usd = 1000000
micro_usd_value eur = 1087000
micro_usd_value uah = 24390

pub record FxQuote : Type 0 where
  pub destination_amount_minor : Text
  pub rate_numerator : Text
  pub rate_denominator : Text
  pub display_rate : Text
  pub quoted_at : ℕ
  pub expires_at : ℕ

pub data QuoteFault : Type 0 where
  unsupported_currency invalid_transfer_amount below_one_minor_unit : QuoteFault

-- Half-up integer rounding.
abbrev pub destination_amount : ℕ → ℕ → ℕ → ℕ
destination_amount source numerator denominator =
    (source * numerator + denominator / 2) / denominator

abbrev scaled_rate : ℕ → ℕ → ℕ
scaled_rate numerator denominator = (numerator * 100000000 + denominator / 2) / denominator

unfoldable pub format_rate : ℕ → ℕ → Text
format_rate numerator denominator =
    natural_text (scaled_rate numerator denominator / 100000000)
    ++ (b'.' ∷ pad_start 8 b'0' (natural_text (scaled_rate numerator denominator % 100000000)))

-- `source` is the value of `BigInt(sourceAmountMinor)`; a currency that is not supported is `none`.
-- Behind its check the source is positive, so BigInt's division is that of the natural numbers.
unfoldable pub quote_transfer :
    ℤ → Option SupportedCurrency → Option SupportedCurrency → ℕ → Result QuoteFault FxQuote
quote_transfer source source_currency destination_currency quoted_at = do
  from ← or_throw source_currency unsupported_currency
  to ← or_throw destination_currency unsupported_currency
  ensure (not (leb_ℤ source (pos 0))) invalid_transfer_amount
  let numerator = micro_usd_value from
  let denominator = micro_usd_value to
  let destination = destination_amount (pos_part source) numerator denominator
  ensure (ltb 0 destination) below_one_minor_unit
  ok (record {
    destination_amount_minor = natural_text destination;
    rate_numerator = natural_text numerator;
    rate_denominator = natural_text denominator;
    display_rate = format_rate numerator denominator;
    quoted_at = quoted_at;
    expires_at = quoted_at + 15 * 60000;
  })

-- The rounded amount is the nearest to the exact one, and a tie is rounded up.
destination-nearest :
    (source : ℕ) (from to : SupportedCurrency)
    → (2 * (source * micro_usd_value from)
        < (2 * destination_amount source (micro_usd_value from) (micro_usd_value to) + 1)
          * micro_usd_value to)
      × ((2 * destination_amount source (micro_usd_value from) (micro_usd_value to))
            * micro_usd_value to
          ≤ 2 * (source * micro_usd_value from) + micro_usd_value to)
destination-nearest source usd usd = omega arith
destination-nearest source usd eur = omega arith
destination-nearest source usd uah = omega arith
destination-nearest source eur usd = omega arith
destination-nearest source eur eur = omega arith
destination-nearest source eur uah = omega arith
destination-nearest source uah usd = omega arith
destination-nearest source uah eur = omega arith
destination-nearest source uah uah = omega arith

-- A quote that is given for a positive amount has a positive destination amount, the number of minor
-- units nearest to the source at the rate, ties rounded up, prints it, and is valid for 15 minutes.
pub quote_transfer-nearest :
    (source : ℤ) (from to : SupportedCurrency) (quoted_at : ℕ) {q : FxQuote}
    → quote_transfer source (some from) (some to) quoted_at ≡ ok q
    → (d : ℕ) × (digits_value 0 q.destination_amount_minor ≡ some d)
      × (1 ≤ d)
      × (source ≡ pos (pos_part source))
      × (2 * (pos_part source * micro_usd_value from) < (2 * d + 1) * micro_usd_value to)
      × ((2 * d) * micro_usd_value to
          ≤ 2 * (pos_part source * micro_usd_value from) + micro_usd_value to)
      × (q.expires_at ≡ q.quoted_at + 900000)
unfolding quote_transfer
quote_transfer-nearest source from to quoted_at {q} h =
    let d : ℕ = destination_amount (pos_part source) (micro_usd_value from) (micro_usd_value to) in
    let (_, positive, h1) =
      >>=-eq-ok (ensure (not (leb_ℤ source (pos 0))) invalid_transfer_amount) _ h in
    let (_, large, h2) = >>=-eq-ok (ensure (ltb 0 d) below_one_minor_unit) _ h1 in
    let same = ok-injective h2 in
    let (above, below) = destination-nearest (pos_part source) from to in
    (
      d,
      ap (λ q. digits_value 0 q.destination_amount_minor) (sym same) ∙ digits_value-natural_text d,
      ground arith,
      ground arith,
      above,
      below,
      ap (λ q. q.expires_at) (sym same) ∙ ap (λ q. q.quoted_at + 900000) same,
    )
