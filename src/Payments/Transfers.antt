-- ===== src/Payments/Transfers.antt =====
-- apps/payments-service/src/transfers/transfers.service.ts: the creation of a transfer under an
-- idempotency key. The hash of a request is a parameter, and so is what others do to the tables between
-- the statements; the view of a transfer is its row.
pub mod Idempotence
pub mod Conflicts
pub mod Requests
use p2p_ledger_starter.Payments.TransferPolicy.{parse_currency}
use p2p_ledger_starter.Payments.Tables.{Transfer}
use p2p_ledger_starter.Payments.OutboxEvents.{pays_share}
use p2p_ledger_starter.Payments.FxQuote.{QuoteFault, FxQuote, quote_transfer}
use p2p_ledger_starter.Payments.World.{
  World, Action, pure, throw, lift, gets, modify, random_uuid, ◌>>=◌, ◌>>◌, handle, transaction,
}
use p2p_ledger_starter.Payments.TransferStatus.{pending}
use p2p_ledger_starter.Common.{
  ℕ, Bool, true, false, ◌&&◌, ◌||◌, not, Option, none, some, List, map, find, Result, ok, err,
  ensure, ◌==◌, if◌then◌else◌, is_some,
}
use p2p_ledger_starter.Common.Int.{pos}
use p2p_ledger_starter.Common.Dict.{Dict, lookup, insert}
use p2p_ledger_starter.Common.Decimal.{Text, text_eq, digits_value}

pub record CanonicalTransferRequest : Type 0 where
  pub sender_user_id : ℕ
  pub sender_wallet_id : ℕ
  pub receiver_reference : Text
  pub amount_minor : ℕ
  pub currency : Text
  pub destination_currency : Text
  pub split_bill_share_id : Option ℕ

pub record TransfersConfig : Type 0 where
  pub arrive : World → World
  pub fingerprint : CanonicalTransferRequest → ℕ

pub data CreateFault : Type 0 where
  key_reused unique_violated id_taken row_lost winner_missing : CreateFault
  not_quoted : QuoteFault → CreateFault

abbrev pub pays_split : Option ℕ → Transfer → Bool
pays_split none row = false
pays_split (some share_id) row = pays_share share_id row

abbrev pub has_key : ℕ → Text → Transfer → Bool
has_key sender_user_id key row =
    row.sender_user_id == sender_user_id && text_eq row.idempotency_key key

abbrev pub rows_of : Dict Transfer → List Transfer
rows_of transfers = map (λ e. e.1) transfers

-- `findOne({ where: { splitBillShareId } })` and `findOne({ where: { senderUserId, idempotencyKey } })`
abbrev pub find_by_share : Option ℕ → World → Option Transfer
find_by_share share_id w = find (pays_split share_id) (rows_of w.db.transfers)

abbrev pub find_by_key : ℕ → Text → World → Option Transfer
find_by_key sender_user_id key w = find (has_key sender_user_id key) (rows_of w.db.transfers)

unfoldable pub resolve_existing : Transfer → ℕ → Action CreateFault Transfer
resolve_existing existing fingerprint w =
    if existing.request_fingerprint == fingerprint then pure existing w else throw key_reused w

-- The value of a `bigint` column that is given as a text.
abbrev column_value : Text → ℕ
column_value t = elim (digits_value 0 t) [ none ↦ 0 | some n ↦ n ]

abbrev pub new_transfer : CanonicalTransferRequest → FxQuote → Text → ℕ → ℕ → ℕ → Transfer
new_transfer canonical quote key fingerprint id at = record {
  id = id;
  sender_user_id = canonical.sender_user_id;
  sender_wallet_id = canonical.sender_wallet_id;
  receiver_reference = canonical.receiver_reference;
  receiver_wallet_id = none;
  split_bill_share_id = canonical.split_bill_share_id;
  amount_minor = canonical.amount_minor;
  currency = canonical.currency;
  destination_currency = canonical.destination_currency;
  destination_amount_minor = column_value quote.destination_amount_minor;
  fx_rate_numerator = column_value quote.rate_numerator;
  fx_rate_denominator = column_value quote.rate_denominator;
  fx_display_rate = quote.display_rate;
  fx_quoted_at = quote.quoted_at;
  fx_expires_at = quote.expires_at;
  status = pending;
  idempotency_key = key;
  request_fingerprint = fingerprint;
  failure_code = none;
  failure_message = none;
  retry_count = 0;
  next_retry_at = none;
  hold_may_exist = false;
  last_attempt_at = none;
  lease_owner = none;
  lease_until = none;
  version = 1;
  created_at = at;
  updated_at = at;
}

abbrev pub quote_canonical : CanonicalTransferRequest → ℕ → Result QuoteFault FxQuote
quote_canonical canonical at =
    quote_transfer (pos canonical.amount_minor) (parse_currency canonical.currency)
      (parse_currency canonical.destination_currency) at

-- The primary key of `transfers`, and its two unique constraints.
abbrev pub insert_transfer : Transfer → Action CreateFault (Unit {0})
insert_transfer row w =
    if is_some (lookup row.id w.db.transfers)
    then throw id_taken w
    else if is_some (find_by_share row.split_bill_share_id w)
        || is_some (find_by_key row.sender_user_id row.idempotency_key w)
    then throw unique_violated w
    else modify
        (λ w. record w { db = record w.db { transfers = insert row.id row w.db.transfers } }) w

abbrev pub read_transfer : ℕ → Action CreateFault Transfer
read_transfer id w = elim (lookup id w.db.transfers) [
  | none ↦ throw row_lost w
  | some row ↦ pure row w
]

abbrev pub resolve_winner : Option Transfer → ℕ → Action CreateFault Transfer
resolve_winner none fingerprint = throw winner_missing
resolve_winner (some winner) fingerprint = resolve_existing winner fingerprint

abbrev pub find_winner : CanonicalTransferRequest → Text → World → Option Transfer
find_winner canonical key w = elim canonical.split_bill_share_id [
  | none ↦ find_by_key canonical.sender_user_id key w
  | some share_id ↦ find_by_share (some share_id) w
]

-- The `catch` of the insertion, which throws all but a violation of the two unique constraints again.
abbrev pub on_violation :
    TransfersConfig → CanonicalTransferRequest → Text → CreateFault → Action CreateFault Transfer
on_violation config canonical key unique_violated w0 =
    let w = config.arrive w0 in
    resolve_winner (find_winner canonical key w) (config.fingerprint canonical) w
on_violation config canonical key fault w = throw fault w

unfoldable pub insert_new :
    TransfersConfig → CanonicalTransferRequest → Text → FxQuote → Action CreateFault Transfer
insert_new config canonical key quote = random_uuid >>= λ id.
    gets (λ w. new_transfer canonical quote key (config.fingerprint canonical) id w.clock)
    >>= λ row.
        handle
          (modify config.arrive
            >> transaction (insert_transfer row)
            >> modify config.arrive
            >> read_transfer row.id)
          (on_violation config canonical key)

abbrev pub quote_and_insert :
    TransfersConfig → CanonicalTransferRequest → Text → Action CreateFault Transfer
quote_and_insert config canonical key w = elim (quote_canonical canonical w.clock) [
  | err e ↦ throw (not_quoted e) w
  | ok quote ↦ insert_new config canonical key quote w
]

abbrev pub or_existing :
    Option Transfer → ℕ → Action CreateFault Transfer → Action CreateFault Transfer
or_existing none fingerprint rest = rest
or_existing (some existing) fingerprint rest = resolve_existing existing fingerprint

abbrev pub create_by_key :
    TransfersConfig → CanonicalTransferRequest → Text → Action CreateFault Transfer
create_by_key config canonical key w0 =
    let w = config.arrive w0 in
    or_existing (find_by_key canonical.sender_user_id key w) (config.fingerprint canonical)
      (quote_and_insert config canonical key) w

unfoldable pub create_canonical :
    TransfersConfig → CanonicalTransferRequest → Text → Action CreateFault Transfer
create_canonical config canonical key w0 =
    let w = config.arrive w0 in
    or_existing (find_by_share canonical.split_bill_share_id w) (config.fingerprint canonical)
      (create_by_key config canonical key) w
