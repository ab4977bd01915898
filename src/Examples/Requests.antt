-- ===== src/Examples/Requests.antt =====
-- A request for a transfer, and one that is made again under its key.
use p2p_ledger_starter.Payments.TransferPolicy.{parse_currency}
use p2p_ledger_starter.Payments.Transfers.Conflicts.{create_canonical-conflict}
use p2p_ledger_starter.Payments.Transfers.Idempotence.{create_canonical-again}
use p2p_ledger_starter.Payments.Transfers.{
  CreateFault, insert_new, TransfersConfig, new_transfer, resolve_existing,
  CanonicalTransferRequest, key_reused, create_canonical,
}
use p2p_ledger_starter.Payments.Tables.{Transfer}
use p2p_ledger_starter.Payments.FxQuote.{quote_transfer, FxQuote}
use p2p_ledger_starter.Payments.World.{World}
use p2p_ledger_starter.Common.{
  true, arith, ap, ◌≡◌, refl, none, [], ◌∷◌, Result, ok, err, is_ok, value_of, value_of-ok,
}
use p2p_ledger_starter.Common.Decimal.{digits_value, natural_text, digits_before, Text}

abbrev usd_code : Text
usd_code = b'U' ∷ b'S' ∷ b'D' ∷ []

abbrev canonical : CanonicalTransferRequest
canonical = record {
  sender_user_id = 1;
  sender_wallet_id = 11;
  receiver_reference = b'b' ∷ [];
  amount_minor = 500;
  currency = usd_code;
  destination_currency = usd_code;
  split_bill_share_id = none;
}

-- A hash that tells requests apart by their amount.
abbrev by_amount : TransfersConfig
by_amount = record { arrive = λ w. w; fingerprint = λ c. c.amount_minor }

abbrev key : Text
key = b'k' ∷ []

abbrev quote : FxQuote
quote = record {
  destination_amount_minor = b'5' ∷ b'0' ∷ b'0' ∷ [];
  rate_numerator = b'1' ∷ [];
  rate_denominator = b'1' ∷ [];
  display_rate = b'1' ∷ [];
  quoted_at = 0;
  expires_at = 900000;
}

abbrev known_row : Transfer
known_row = new_transfer canonical quote key 500 7 0

abbrev known_world : World
known_world = record {
  db = record {
    transfers = (7, known_row) ∷ [];
    bills = [];
    shares = [];
    reminders = [];
    outbox = [];
  };
  log = [];
  clock = 5;
  next_id = 100;
}

-- A world without transfers, in which the request makes one.
abbrev empty_world : World
empty_world = record known_world {
  db = record { transfers = []; bills = []; shares = []; reminders = []; outbox = [] };
}

abbrev first : Result CreateFault Transfer × World
first = create_canonical by_amount canonical key empty_world

first_done : is_ok first.0 ≡ true
unfolding create_canonical resolve_existing insert_new quote_transfer parse_currency natural_text
    digits_before digits_value
first_done = refl

create_canonical-again_example :
    create_canonical by_amount canonical key first.1 ≡ (ok (value_of first.0 first_done), first.1)
create_canonical-again_example =
    create_canonical-again by_amount canonical key empty_world first.1 (value_of first.0 first_done)
      (λ u. refl) refl
      (ap (λ (r : Result CreateFault Transfer). (r, first.1)) (value_of-ok first.0 first_done))

create_canonical-conflict_example :
    create_canonical by_amount (record canonical { amount_minor = 501 }) key first.1
    ≡ (err key_reused, first.1)
create_canonical-conflict_example =
    create_canonical-conflict by_amount canonical (record canonical { amount_minor = 501 }) key
      empty_world first.1 (value_of first.0 first_done) (λ u. refl) refl
      (ap (λ (r : Result CreateFault Transfer). (r, first.1)) (value_of-ok first.0 first_done)) refl
      refl (λ e. omega (arith, e))
