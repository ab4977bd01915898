-- ===== src/Ledger/Wallets/Settlement/Receipts.antt =====
-- A transfer that has its receipt is answered from it: nothing is written again.
use p2p_ledger_starter.Ledger.Wallets.Settlement.{
  SettleRequest, SettleMoments, SettleCommand, read_settlement_wallets, receipt_of,
  is_settlement_race, settle_attempt, assert_settlement_matches, SettledViews, replay_receipt,
  settle_request, settle_transfer,
}
use p2p_ledger_starter.Ledger.Wallets.{with_retries}
use p2p_ledger_starter.Ledger.Transaction.{minor_text}
use p2p_ledger_starter.Ledger.Tables.{LedgerTransferSettlement}
use p2p_ledger_starter.Ledger.Fault.{settlement_differs, conflict, Fault}
use p2p_ledger_starter.Common.{
  Bool-cases, ◌==◌, false, ◌&&◌, arith, inl, inr, ◌⊎◌, Result, err, ok, ◌>>=◌, ==_refl, ℕ, suc, ◌≡◌,
  ◌≢◌, refl, ◌∙◌, Bool, some,
}
use p2p_ledger_starter.Common.Dict.{lookup}
use p2p_ledger_starter.Common.Decimal.{text_eq, text_eq→≡, text_eq_refl}

receipt_of-matches : (r : SettleRequest) → assert_settlement_matches (receipt_of r) r ≡ ok tt
unfolding assert_settlement_matches
receipt_of-matches r =
    rw
      (
        ==_refl r.command.sender_wallet_id,
        ==_refl r.command.receiver_wallet_id,
        ==_refl r.command.currency,
        ==_refl r.destination_currency,
        text_eq_refl (minor_text r.amount_minor),
        text_eq_refl (minor_text r.destination_amount_minor),
      )
      refl

-- With the receipt there, an attempt answers from it.
settle_attempt-receipt :
    (m : SettleMoments) (r : SettleRequest) (debit_id credit_id : ℕ) {s : LedgerTransferSettlement}
    → lookup r.transfer_id m.before.settlements ≡ some s
    → settle_attempt m r debit_id credit_id
      ≡ (replay_receipt m.before s r >>= λ views. ok (views, m.db))
unfolding settle_attempt
settle_attempt-receipt m r debit_id credit_id found = rw (found, settle_attempt) refl

with_retries-first :
    {A : Type 0} (retryable : Fault → Bool) (run : ℕ → Result Fault A) (left attempt : ℕ) {a : A}
    → run attempt ≡ ok a
    → with_retries retryable run (suc left) attempt ≡ ok a
unfolding with_retries
with_retries-first retryable run left attempt h = rw (h, with_retries) refl

with_retries-refused :
    {A : Type 0} (retryable : Fault → Bool) (run : ℕ → Result Fault A) (left attempt : ℕ)
    {e : Fault}
    → run attempt ≡ err e
    → retryable e ≡ false
    → with_retries retryable run (suc left) attempt ≡ err e
unfolding with_retries
with_retries-refused retryable run left attempt h final = rw (h, with_retries, final) refl

-- A receipt that matches is the one that the transfer would leave.
assert_settlement_matches-receipt :
    (s : LedgerTransferSettlement) (r : SettleRequest)
    → s.transfer_id ≡ r.transfer_id
    → (s ≡ receipt_of r) ⊎ (assert_settlement_matches s r ≡ err (conflict settlement_differs))
unfolding assert_settlement_matches
assert_settlement_matches-receipt s r same =
    elim (Bool-cases (
      s.sender_wallet_id == r.command.sender_wallet_id
      && (s.receiver_wallet_id == r.command.receiver_wallet_id
          && (text_eq s.amount_minor (minor_text r.amount_minor)
              && (s.currency == r.command.currency
                  && (text_eq s.destination_amount_minor (minor_text r.destination_amount_minor)
                      && s.destination_currency == r.destination_currency)))))) [
                        | inl matches ↦ inl (
                            ground (
                              arith,
                              text_eq→≡ s.amount_minor (minor_text r.amount_minor),
                              text_eq→≡ s.destination_amount_minor
                                  (minor_text r.destination_amount_minor),
                            ))
                        | inr fails ↦ inr (rw fails refl)
                      ]

-- A retry of a transfer with the same parameters, whose receipt and wallets are read at its first
-- attempt, returns the two wallets as they are read, and leaves the database as it is: no event,
-- message or projection is written again.
pub settle_transfer_again :
    (moments : ℕ → SettleMoments) (ids : ℕ → ℕ × ℕ) (transfer_id : ℕ) (command : SettleCommand)
    (r : SettleRequest) {views : SettledViews}
    → settle_request transfer_id command ≡ ok r
    → lookup r.transfer_id (moments 1).before.settlements ≡ some (receipt_of r)
    → read_settlement_wallets (moments 1).before (receipt_of r) ≡ ok views
    → settle_transfer moments ids transfer_id command ≡ ok (views, (moments 1).db)
unfolding settle_transfer replay_receipt
settle_transfer_again moments ids transfer_id command r {views} requested found read =
    rw requested (
      with_retries-first is_settlement_race (λ n. settle_attempt (moments n) r (ids n).0 (ids n).1)
        24 1
        (settle_attempt-receipt (moments 1) r (ids 1).0 (ids 1).1 found
          ∙ rw (receipt_of-matches r, read) refl))

-- A transfer whose amounts are accepted, and whose receipt at the first attempt stands for other
-- parameters, is refused as a conflict.
pub settle_transfer_differs :
    (moments : ℕ → SettleMoments) (ids : ℕ → ℕ × ℕ) (transfer_id : ℕ) (command : SettleCommand)
    (r : SettleRequest) (s : LedgerTransferSettlement)
    → settle_request transfer_id command ≡ ok r
    → lookup r.transfer_id (moments 1).before.settlements ≡ some s
    → s ≢ receipt_of r
    → s.transfer_id ≡ r.transfer_id
    → settle_transfer moments ids transfer_id command ≡ err (conflict settlement_differs)
unfolding settle_transfer replay_receipt
settle_transfer_differs moments ids transfer_id command r s requested found differs same =
    rw requested (elim (assert_settlement_matches-receipt s r same) [
      | inl equal ↦ absurd (differs equal)
      | inr refused ↦
          with_retries-refused is_settlement_race
            (λ n. settle_attempt (moments n) r (ids n).0 (ids n).1) 24 1
            (settle_attempt-receipt (moments 1) r (ids 1).0 (ids 1).1 found ∙ rw refused refl) refl
    ])
