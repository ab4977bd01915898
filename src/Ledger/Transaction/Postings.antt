-- ===== src/Ledger/Transaction/Postings.antt =====
-- Double entry: what is created is balanced and is read back as it was created.
use p2p_ledger_starter.Common.{
  ok-injective, ensure, >>=-eq-ok, leb, sym, ◌∙◌, ℕ, ◌≡◌, refl, ◌≢◌, false, some, List, [], map,
  ◌∷◌, ◌≤◌, length, arith, ok, err,
}
use p2p_ledger_starter.Common.Int.{ℤ, pos, ◌+ℤ◌, neg, int_laws, eqb_ℤ, eqb_ℤ_iff}
use p2p_ledger_starter.Ledger.Fault.{too_few_postings, zero_amount}
use p2p_ledger_starter.Ledger.Event.{Posting, Payload}
use p2p_ledger_starter.Ledger.Transaction.{
  parse_minor_units, total_from, assert_balanced_postings, transaction_postings,
  create_ledger_transaction, read_postings, read_entries,
}
use p2p_ledger_starter.Ledger.Transaction.Amounts.{parse_minor_units-minor_text}

add-neg : (a : ℤ) → pos 0 +ℤ a +ℤ neg a ≡ pos 0
add-neg a = omega int_laws

assert_balanced_postings-transaction :
    (wallet_id : ℕ) (a : ℤ) → assert_balanced_postings (transaction_postings wallet_id a) ≡ ok tt
unfolding assert_balanced_postings total_from
assert_balanced_postings-transaction wallet_id a =
    rw (parse_minor_units-minor_text a, parse_minor_units-minor_text (neg a), add-neg a)

zero_test : (a : ℤ) → a ≢ pos 0 → eqb_ℤ a (pos 0) ≡ false
zero_test a ne = ground (arith, eqb_ℤ_iff a (pos 0))

pub create_ledger_transaction_nonzero :
    (wallet_id : ℕ) (a : ℤ) (transaction_id : ℕ)
    → a ≢ pos 0
    → create_ledger_transaction wallet_id a transaction_id
      ≡ ok (record { transaction_id = transaction_id; postings = transaction_postings wallet_id a })
unfolding create_ledger_transaction
create_ledger_transaction_nonzero wallet_id a transaction_id ne =
    rw (zero_test a ne, assert_balanced_postings-transaction wallet_id a)

pub create_ledger_transaction_zero :
    (wallet_id transaction_id : ℕ)
    → create_ledger_transaction wallet_id (pos 0) transaction_id ≡ err zero_amount
unfolding create_ledger_transaction
create_ledger_transaction_zero wallet_id transaction_id = refl

read_entries-some : (ps : List Posting) → read_entries (map some ps) ≡ ok ps
unfolding read_entries
read_entries-some [] = refl
read_entries-some (p ∷ ps) = rw (read_entries-some ps)

-- A payload with the postings of a created transaction is read back.
pub read_postings-transaction :
    (wallet_id : ℕ) (a : ℤ) (payload : Payload)
    → payload.postings ≡ some (map some (transaction_postings wallet_id a))
    → read_postings payload ≡ ok (transaction_postings wallet_id a)
unfolding read_postings
read_postings-transaction wallet_id a payload e = rw (
  e,
  read_entries-some (transaction_postings wallet_id a),
  assert_balanced_postings-transaction wallet_id a,
)

-- The sum of integers.
abbrev pub amount_sum : List ℤ → ℤ
amount_sum [] = pos 0
amount_sum (a ∷ amounts) = a +ℤ amount_sum amounts

-- At least two postings, whose texts are of amounts that add up to zero.
pub record IsBalanced (ps : List Posting) : Type 0 where
  pub two_or_more : 2 ≤ length ps
  pub amounts : List ℤ
  pub parsed : map (λ (p : Posting). parse_minor_units p.amount_minor) ps ≡ map ok amounts
  pub zero_sum : amount_sum amounts ≡ pos 0

zero-add : (a : ℤ) → a ≡ pos 0 +ℤ a
zero-add a = omega int_laws

add-zero : (a : ℤ) → a +ℤ pos 0 ≡ a
add-zero a = omega int_laws

add_assoc : (a b c : ℤ) → (a +ℤ b) +ℤ c ≡ a +ℤ (b +ℤ c)
add_assoc a b c = omega int_laws

-- What the code's `reduce` comes to.
total_from-sum :
    (start total : ℤ) (ps : List Posting)
    → total_from start ps ≡ ok total
    → (amounts : List ℤ) × (map (λ (p : Posting). parse_minor_units p.amount_minor) ps
        ≡ map ok amounts)
      × (total ≡ start +ℤ amount_sum amounts)
unfolding total_from
total_from-sum start total [] h = ([], refl, sym (ok-injective h) ∙ sym (add-zero start))
total_from-sum start total (p ∷ ps) h =
    let (amount, read, rest) = >>=-eq-ok (parse_minor_units p.amount_minor) _ h in
    let (amounts, parsed, totals) = total_from-sum (start +ℤ amount) total ps rest in
    (amount ∷ amounts, rw (read, parsed) refl, totals ∙ add_assoc start amount (amount_sum amounts))

assert_balanced_postings-IsBalanced :
    (ps : List Posting) → assert_balanced_postings ps ≡ ok tt → IsBalanced ps
unfolding assert_balanced_postings
assert_balanced_postings-IsBalanced ps h =
    let (_, long, h1) = >>=-eq-ok (ensure (leb 2 (length ps)) too_few_postings) _ h in
    let (total, totals, h2) = >>=-eq-ok (total_from (pos 0) ps) _ h1 in
    let (amounts, parsed, same) = total_from-sum (pos 0) total ps totals in
    let zero : total ≡ pos 0 = ground (arith, eqb_ℤ_iff total (pos 0)) in
    record {
      two_or_more = ground arith;
      amounts = amounts;
      parsed = parsed;
      zero_sum = zero-add (amount_sum amounts) ∙ sym same ∙ zero;
    }

-- Whatever a payload holds, postings that are read from it are two or more, and their texts are of
-- amounts whose sum is zero.
pub read_postings-IsBalanced :
    (payload : Payload) (ps : List Posting) → read_postings payload ≡ ok ps → IsBalanced ps
unfolding read_postings
read_postings-IsBalanced payload ps h = ground (arith, assert_balanced_postings-IsBalanced ps)
