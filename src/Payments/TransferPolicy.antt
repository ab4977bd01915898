-- ===== src/Payments/TransferPolicy.antt =====
-- apps/payments-service/src/transfers/transfer-policy.service.ts: what a transfer has to pass before
-- the ledger is asked. The lower-casing of texts is a parameter.
use p2p_ledger_starter.Payments.Tables.{
  blocked_message, currency_message, FailureCode, fx_quote_expired, transfer_limit_exceeded,
  expired_message, receiver_blocked, Transfer, FailureMessage, limit_message,
}
use p2p_ledger_starter.Payments.LedgerGateway.{LedgerCommandError, terminal}
use p2p_ledger_starter.Common.{
  ℕ, Bool, any, List, Result, ensure, ◌>>◌, Option, none, some, leb, ltb, not, if◌then◌else◌, ◌&&◌,
  false, is_some, ◌∷◌, [],
}
use p2p_ledger_starter.Common.Decimal.{Text, text_eq}
use p2p_ledger_starter.Payments.FxQuote.{SupportedCurrency, usd, eur, uah}

-- `SUPPORTED_CURRENCIES.includes`
unfoldable pub parse_currency : Text → Option SupportedCurrency
parse_currency t =
    if text_eq t (b'U' ∷ b'S' ∷ b'D' ∷ [])
    then some usd
    else (if text_eq t (b'E' ∷ b'U' ∷ b'R' ∷ [])
        then some eur
        else (if text_eq t (b'U' ∷ b'A' ∷ b'H' ∷ []) then some uah else none))

abbrev pub is_supported_currency : Text → Bool
is_supported_currency t = is_some (parse_currency t)

-- The environment's limit in minor units, and the blocked references, trimmed and in lower case.
pub record PolicyConfig : Type 0 where
  pub maximum_minor : ℕ
  pub blocked : List Text
  pub to_lower : Text → Text

abbrev pub reject : FailureCode → FailureMessage → LedgerCommandError
reject code message = record { message = message; kind = terminal; code = code; ambiguous = false }

-- `TransferPolicyService.validate`
unfoldable pub validate_policy : PolicyConfig → Transfer → ℕ → Result LedgerCommandError (Unit {0})
validate_policy config transfer now = do
  ensure
      (is_supported_currency transfer.currency
        && is_supported_currency transfer.destination_currency)
      (reject FailureCode.unsupported_currency currency_message)
  ensure (leb transfer.amount_minor config.maximum_minor)
      (reject transfer_limit_exceeded limit_message)
  ensure (not (any (text_eq (config.to_lower transfer.receiver_reference)) config.blocked))
      (reject receiver_blocked blocked_message)
  ensure (ltb now transfer.fx_expires_at) (reject fx_quote_expired expired_message)
