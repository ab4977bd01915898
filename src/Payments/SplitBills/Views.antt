-- ===== src/Payments/SplitBills/Views.antt =====
-- What the view of a bill says of its payment.
use p2p_ledger_starter.Payments.Tables.{Transfer, SplitBill, SplitBillShare}
use p2p_ledger_starter.Payments.SplitBills.Bills.{to_bill_view, share_view, is_paid}
use p2p_ledger_starter.Payments.TransferStatus.{completed, index}
use p2p_ledger_starter.Payments.SplitBillStatus.{SplitBillStatus, settled, derive_split_bill_status}
use p2p_ledger_starter.Common.{
  ℕ, ◌≤◌, ◌≡◌, refl, ◌∙◌, ap, Bool, true, false, ◌&&◌, Option, none, some, List, [], ◌∷◌, map, keep,
  length, length-map, ltb, ◌==◌, arith, Bool-cases, inl, inr,
}

abbrev pub is_settled : SplitBillStatus → Bool
is_settled settled = true
is_settled _ = false

-- The transfer of the share is completed.
abbrev pub has_paid : SplitBillShare × Option Transfer → Bool
has_paid (share, none) = false
has_paid (share, some transfer) = index transfer.status == index completed

abbrev pub all {ℓ} : {A : Type ℓ} → (A → Bool) → List A → Bool
all p [] = true
all p (x ∷ xs) = p x && all p xs

length-keep {ℓ} : {A : Type ℓ} (p : A → Bool) (xs : List A) → length (keep p xs) ≤ length xs
length-keep p [] = omega arith
length-keep p (x ∷ xs) = elim (Bool-cases (p x)) [
  | inl yes_ ↦ rw yes_ (omega (arith, length-keep p xs))
  | inr no_ ↦ rw no_ (omega (arith, length-keep p xs))
]

length-keep-all {ℓ} :
    {A : Type ℓ} (p : A → Bool) (xs : List A) → (length (keep p xs) == length xs) ≡ all p xs
length-keep-all p [] = refl
length-keep-all p (x ∷ xs) = elim (Bool-cases (p x)) [
  | inl passes ↦ rw passes (ground (arith, length-keep-all p xs))
  | inr fails ↦ rw fails (ground (arith, length-keep p xs))
]

view-is_paid :
    (row : SplitBillShare × Option Transfer)
    → is_paid (share_view row).payment_status ≡ has_paid row
unfolding share_view
view-is_paid (share, none) = refl
view-is_paid (share, some transfer) = ground arith

all-views :
    (rows : List (SplitBillShare × Option Transfer))
    → all (λ v. is_paid v.payment_status) (map share_view rows) ≡ all has_paid rows
all-views [] = refl
all-views (row ∷ rows) = rw (view-is_paid row, all-views rows) refl

status_lem :
    (paid_shares total : ℕ) (all_paid : Bool)
    → (paid_shares == total) ≡ all_paid
    → is_settled (derive_split_bill_status paid_shares total) ≡ (ltb 0 total && all_paid)
status_lem paid_shares total all_paid same = ground arith

-- A bill is shown as settled exactly when it has shares and the transfer of each is completed.
pub to_bill_view-settled :
    (bill : SplitBill) (rows : List (SplitBillShare × Option Transfer))
    → is_settled (to_bill_view bill rows).status ≡ (ltb 0 (length rows) && all has_paid rows)
unfolding to_bill_view
to_bill_view-settled bill rows =
    let views = map share_view rows in
    status_lem (length (keep (λ v. is_paid v.payment_status) views)) (length views)
      (all has_paid rows) (length-keep-all (λ v. is_paid v.payment_status) views ∙ all-views rows)
    ∙ ap (λ n. ltb 0 n && all has_paid rows) (length-map share_view rows)
