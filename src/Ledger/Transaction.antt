-- ===== src/Ledger/Transaction.antt =====
-- ledger/domain/ledger-transaction.ts: postings, their balance, and amounts in minor units.
pub mod Amounts
pub mod Postings
use p2p_ledger_starter.Common.{
  ℕ, suc, ◌-◌, ◌/◌, ◌%◌, Bool, ◌&&◌, Option, none, some, List, [], ◌∷◌, ◌++◌, ltb, leb, ◌==◌, not,
  if◌then◌else◌, length, Result, ok, err, ◌>>=◌, ◌>>◌, ensure, or_throw,
}
use p2p_ledger_starter.Common.Int.{ℤ, pos, negsuc, ◌+ℤ◌, neg, ltb_ℤ, eqb_ℤ, pos_part, neg_part}
use p2p_ledger_starter.Common.Decimal.{Text, parse_natural, natural_text, pad_start}
use p2p_ledger_starter.Ledger.Fault.{
  Fault, too_few_postings, unbalanced_postings, zero_amount, no_postings, invalid_posting,
  invalid_minor_units, amount_out_of_range,
}
use p2p_ledger_starter.Ledger.Event.{
  AccountId, wallet_account, external_clearing_account, Posting, Payload,
}

-- `/^-?\d+$/` and `BigInt(value)`
unfoldable pub parse_minor_units : Text → Result Fault ℤ
parse_minor_units [] = err invalid_minor_units
parse_minor_units (c ∷ t) =
    if c == b'-'
    then (do n ← or_throw (parse_natural t) invalid_minor_units; ok (neg (pos n)))
    else (do n ← or_throw (parse_natural (c ∷ t)) invalid_minor_units; ok (pos n))

-- `amount.toString()`
unfoldable pub minor_text : ℤ → Text
minor_text (pos n) = natural_text n
minor_text (negsuc n) = b'-' ∷ natural_text (suc n)

abbrev pub wallet_account_id : ℕ → AccountId
wallet_account_id wallet_id = wallet_account wallet_id

-- The `reduce` of `assertBalancedPostings`.
unfoldable pub total_from : ℤ → List Posting → Result Fault ℤ
total_from sum [] = ok sum
total_from sum (p ∷ postings) = do
  amount ← parse_minor_units p.amount_minor
  total_from (sum +ℤ amount) postings

unfoldable pub assert_balanced_postings : List Posting → Result Fault (Unit {0})
unfolding total_from
assert_balanced_postings postings = do
  ensure (leb 2 (length postings)) too_few_postings
  total ← total_from (pos 0) postings
  ensure (eqb_ℤ total (pos 0)) unbalanced_postings

pub record LedgerTransactionPayload : Type 0 where
  pub transaction_id : ℕ
  pub postings : List Posting

-- The two postings of a transaction between a wallet and the clearing account.
abbrev pub transaction_postings : ℕ → ℤ → List Posting
transaction_postings wallet_id amount =
    record { account_id = wallet_account_id wallet_id; amount_minor = minor_text amount }
    ∷ record { account_id = external_clearing_account; amount_minor = minor_text (neg amount) }
    ∷ []

unfoldable pub create_ledger_transaction : ℕ → ℤ → ℕ → Result Fault LedgerTransactionPayload
create_ledger_transaction wallet_id amount transaction_id = do
  ensure (not (eqb_ℤ amount (pos 0))) zero_amount
  let postings = transaction_postings wallet_id amount
  assert_balanced_postings postings
  ok (record { transaction_id = transaction_id; postings = postings })

-- The `map` of `readPostings`, which throws at the first malformed entry.
unfoldable pub read_entries : List (Option Posting) → Result Fault (List Posting)
read_entries [] = ok []
read_entries (entry ∷ entries) = do
  posting ← or_throw entry invalid_posting
  postings ← read_entries entries
  ok (posting ∷ postings)

unfoldable pub read_postings : Payload → Result Fault (List Posting)
unfolding read_entries
read_postings payload = do
  entries ← or_throw payload.postings no_postings
  postings ← read_entries entries
  assert_balanced_postings postings
  ok postings

-- An amount of money as a request carries it, a JavaScript number, seen through what the code asks of
-- it first: `Math.round(amount * 100)`, which is an integer, or NaN or an infinity.
pub data Rounded : Type 0 where
  integer : ℤ → Rounded
  not_finite : Rounded

abbrev pub max_safe_integer : ℕ
max_safe_integer = 9007199254740991

abbrev pub is_safe_integer : ℤ → Bool
is_safe_integer a = leb (pos_part a) max_safe_integer && leb (neg_part a) max_safe_integer

unfoldable pub amount_to_minor_units : Rounded → Result Fault ℤ
amount_to_minor_units not_finite = err amount_out_of_range
amount_to_minor_units (integer rounded) = do
  ensure (is_safe_integer rounded) amount_out_of_range
  ok rounded

unfoldable pub format_minor_units : ℤ → Text
format_minor_units amount =
    let sign = if ltb_ℤ amount (pos 0) then b'-' ∷ [] else [] in
    let absolute = if ltb_ℤ amount (pos 0) then neg_part amount else pos_part amount in
    sign
    ++ (natural_text (absolute / 100) ++ (b'.' ∷ pad_start 2 b'0' (natural_text (absolute % 100))))
