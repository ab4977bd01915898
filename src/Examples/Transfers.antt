-- ===== src/Examples/Transfers.antt =====
-- Runs of a transfer's states and quotes.
use p2p_ledger_starter.Payments.TransferStatus.{
  assert_transfer_transition, funds_held, move, longest, stay, Run-longest, completed,
  Run-completed, compensating, pending, visited, validating, Run, is_reserved,
}
use p2p_ledger_starter.Payments.FxQuote.{
  eur, QuoteFault, usd, micro_usd_value, FxQuote, quote_transfer-nearest, quote_transfer,
}
use p2p_ledger_starter.Common.{
  any, Result, value_of, value_of-ok, is_ok, ℕ, ◌+◌, ◌≤◌, ◌<◌, ◌≡◌, refl, true, some, ◌*◌,
}
use p2p_ledger_starter.Common.Int.{pos, pos_part}
use p2p_ledger_starter.Common.Decimal.{digits_value}

compensated : Run pending 4 completed
unfolding assert_transfer_transition
compensated =
    move {t = validating} refl
      (move {t = funds_held} refl (move {t = compensating} refl (move {t = completed} refl stay)))

Run-longest_example : 4 ≤ longest pending
Run-longest_example = Run-longest compensated

Run-completed_example : any is_reserved (visited compensated) ≡ true
Run-completed_example = Run-completed compensated

abbrev quoted : Result QuoteFault FxQuote
quoted = quote_transfer (pos 3000) (some usd) (some eur) 5000

quoted_done : is_ok quoted ≡ true
unfolding quote_transfer
quoted_done = refl

quote_transfer-nearest_example :
    (d : ℕ) × (digits_value 0 (value_of quoted quoted_done).destination_amount_minor ≡ some d)
    × (1 ≤ d)
    × (pos 3000 ≡ pos (pos_part (pos 3000)))
    × (2 * (pos_part (pos 3000) * micro_usd_value usd) < (2 * d + 1) * micro_usd_value eur)
    × ((2 * d) * micro_usd_value eur
        ≤ 2 * (pos_part (pos 3000) * micro_usd_value usd) + micro_usd_value eur)
    × ((value_of quoted quoted_done).expires_at ≡ (value_of quoted quoted_done).quoted_at + 900000)
quote_transfer-nearest_example =
    quote_transfer-nearest (pos 3000) usd eur 5000 (value_of-ok quoted quoted_done)
