-- ===== src/Payments/SplitBills/Shares.antt =====
-- `shareAmounts` of split-bills.service.ts: the amounts that the participants of a bill owe.
use p2p_ledger_starter.Payments.TransferStatus.{index}
use p2p_ledger_starter.Payments.SplitBills.Money.{MoneyFault, parse_money_to_minor}
use p2p_ledger_starter.Common.{
  ok-injective, >>=-eq-ok, ◌<◌, sym, ◌∙◌, ◌⊎◌, subst, ℕ, suc, ◌+◌, ◌-◌, ◌*◌, ◌/◌, ◌%◌, ◌≤◌, ◌≡◌,
  refl, ap, false, not, Option, none, some, List, [], ◌∷◌, Result, ok, err, ◌>>=◌, ◌>>◌, ensure,
  ltb, ◌==◌, if◌then◌else◌, arith, Bool-cases, inl, inr, length, any, All, is_some,
}
use p2p_ledger_starter.Common.Decimal.{Text}
use native.Mathlib.Nat.{div-add-mod', mod-lt, suc-mul, mul_comm}

pub data SplitMode : Type 0 where
  equal custom : SplitMode

-- A user id is a UUID, of which the code takes the lower-case text.
pub record SplitParticipant : Type 0 where
  pub user_id : ℕ
  pub share : Option Text

-- The currency is three capital letters, which the request's validation has checked.
pub record CreateSplitBill : Type 0 where
  pub total : Text
  pub currency : Text
  pub mode : SplitMode
  pub participants : List SplitParticipant
  pub deadline : Option ℕ

pub data SplitBillFault : Type 0 where
  money : MoneyFault → SplitBillFault
  not_unique custom_share_in_equal no_participants total_too_small share_missing wrong_sum :
      SplitBillFault
  bill_not_found : SplitBillFault
  write_failed : SplitBillFault

-- `dto.participants.map((_, index) => base + (index < remainder ? 1n : 0n))`, from an index on.
unfoldable pub equal_amounts : ℕ → ℕ → ℕ → List SplitParticipant → List ℕ
equal_amounts base remainder index [] = []
equal_amounts base remainder index (_ ∷ participants) =
    (base + (if ltb index remainder then 1 else 0))
    ∷ equal_amounts base remainder (suc index) participants

-- A share that is absent or the empty text is missing.
abbrev given_share : Option Text → Option Text
given_share none = none
given_share (some []) = none
given_share (some (c ∷ t)) = some (c ∷ t)

abbrev custom_amount : Option Text → Result SplitBillFault ℕ
custom_amount none = err SplitBillFault.share_missing
custom_amount (some text) = elim (parse_money_to_minor text) [ ok a ↦ ok a | err e ↦ err (money e) ]

unfoldable pub custom_amounts : List SplitParticipant → Result SplitBillFault (List ℕ)
custom_amounts [] = ok []
custom_amounts (p ∷ participants) = do
  amount ← custom_amount (given_share p.share)
  amounts ← custom_amounts participants
  ok (amount ∷ amounts)

abbrev pub sum : List ℕ → ℕ
sum [] = 0
sum (a ∷ amounts) = a + sum amounts

abbrev equal_split : List SplitParticipant → ℕ → Result SplitBillFault (List ℕ)
equal_split participants total = do
  ensure (not (any (λ p. is_some p.share) participants)) custom_share_in_equal
  ensure (not (length participants == 0)) no_participants
  ensure (not (total / length participants == 0)) total_too_small
  ok (equal_amounts (total / length participants) (total % length participants) 0 participants)

abbrev custom_split : List SplitParticipant → ℕ → Result SplitBillFault (List ℕ)
custom_split participants total = do
  amounts ← custom_amounts participants
  ensure (sum amounts == total) wrong_sum
  ok amounts

unfoldable pub share_amounts : CreateSplitBill → ℕ → Result SplitBillFault (List ℕ)
share_amounts dto total = elim dto.mode [
  | equal ↦ equal_split dto.participants total
  | custom ↦ custom_split dto.participants total
]

length-equal_amounts :
    (base remainder index : ℕ) (participants : List SplitParticipant)
    → length (equal_amounts base remainder index participants) ≡ length participants
unfolding equal_amounts
length-equal_amounts base remainder index [] = refl
length-equal_amounts base remainder index (p ∷ participants) =
    ap suc (length-equal_amounts base remainder (suc index) participants)

-- Behind the remainder each owes the base.
sum-equal_rest :
    (base remainder index : ℕ) (participants : List SplitParticipant)
    → remainder ≤ index
    → sum (equal_amounts base remainder index participants) ≡ length participants * base
unfolding equal_amounts
sum-equal_rest base remainder index [] le = omega arith
sum-equal_rest base remainder index (p ∷ participants) le =
    let rest = sum-equal_rest base remainder (suc index) participants (omega arith) in
    let late : ltb index remainder ≡ false = ground arith in
    rw late (omega (arith, rest, suc-mul (length participants) base))

sum-equal_amounts :
    (base remainder index : ℕ) (participants : List SplitParticipant)
    → index ≤ remainder
    → remainder ≤ index + length participants
    → sum (equal_amounts base remainder index participants)
      ≡ length participants * base + (remainder - index)
unfolding equal_amounts
sum-equal_amounts base remainder index [] low high = omega arith
sum-equal_amounts base remainder index (p ∷ participants) low high =
    elim (Bool-cases (ltb index remainder)) [
      | inl early ↦
          let more : suc index ≤ remainder = ground arith in
          let rest = sum-equal_amounts base remainder (suc index) participants more (omega arith) in
          rw early (omega (arith, rest, more, suc-mul (length participants) base))
      | inr late ↦
          let enough : remainder ≤ index = ground arith in
          let rest = sum-equal_rest base remainder (suc index) participants (omega arith) in
          rw late (omega (arith, rest, enough, suc-mul (length participants) base))
    ]

-- An amount is the base or one minor unit more.
equal_amounts-near :
    (base remainder index : ℕ) (participants : List SplitParticipant)
    → All (λ a. (base ≤ a) × (a ≤ base + 1)) (equal_amounts base remainder index participants)
unfolding equal_amounts
equal_amounts-near base remainder index [] = tt
equal_amounts-near base remainder index (p ∷ participants) =
    ((ground arith, ground arith), equal_amounts-near base remainder (suc index) participants)

mode-cases : (mode : SplitMode) → (mode ≡ equal) ⊎ (mode ≡ custom)
mode-cases equal = inl refl
mode-cases custom = inr refl

positive-quotient : (q : ℕ) → ensure (not (q == 0)) total_too_small ≡ ok tt → 1 ≤ q
positive-quotient q h = ground arith

summed : (given total : ℕ) → ensure (given == total) wrong_sum ≡ ok tt → given ≡ total
summed given total h = ground arith

times_plus : (n q r total : ℕ) → q * n + r ≡ total → n * q + (r - 0) ≡ total
times_plus n q r total h = omega (arith, h, mul_comm n q)

length-custom_amounts :
    (participants : List SplitParticipant) {amounts : List ℕ}
    → custom_amounts participants ≡ ok amounts
    → length amounts ≡ length participants
unfolding custom_amounts
length-custom_amounts [] h = ap length (sym (ok-injective h))
length-custom_amounts (p ∷ participants) h =
    let (amount, _, h1) = >>=-eq-ok (custom_amount (given_share p.share)) _ h in
    let (rest, read, h2) = >>=-eq-ok (custom_amounts participants) _ h1 in
    ap length (sym (ok-injective h2)) ∙ ap suc (length-custom_amounts participants read)

equal_split-total :
    (participants : List SplitParticipant) (total : ℕ) {amounts : List ℕ}
    → equal_split participants total ≡ ok amounts
    → (amounts
        ≡ equal_amounts (total / length participants) (total % length participants) 0 participants)
      × (1 ≤ length participants)
      × (1 ≤ total / length participants)
equal_split-total participants total h =
    let (_, _, h1) =
      >>=-eq-ok (ensure (not (any (λ p. is_some p.share) participants)) custom_share_in_equal) _
        h in
    let (_, nonempty, h2) =
      >>=-eq-ok (ensure (not (length participants == 0)) no_participants) _ h1 in
    let (_, large, h3) =
      >>=-eq-ok (ensure (not (total / length participants == 0)) total_too_small) _ h2 in
    (sym (ok-injective h3), ground arith, positive-quotient (total / length participants) large)

sum-equal_split :
    (participants : List SplitParticipant) (total : ℕ)
    → 1 ≤ length participants
    → sum (equal_amounts (total / length participants) (total % length participants) 0 participants)
      ≡ total
sum-equal_split participants total nonempty =
    let n = length participants in
    let below : total % n < n = mod-lt total nonempty in
    sum-equal_amounts (total / n) (total % n) 0 participants (omega arith) (omega (arith, below))
    ∙ times_plus n (total / n) (total % n) total (div-add-mod' total n)

-- The amounts of the shares of a bill, equal or given by the request, sum to its total, and there is one
-- for each participant.
pub share_amounts-total :
    (dto : CreateSplitBill) (total : ℕ) {amounts : List ℕ}
    → share_amounts dto total ≡ ok amounts
    → (sum amounts ≡ total) × (length amounts ≡ length dto.participants)
unfolding share_amounts
share_amounts-total dto total {amounts} h = elim (mode-cases dto.mode) [
  | inl same ↦
      let split : equal_split dto.participants total ≡ ok amounts =
        sym (rw (share_amounts, same) refl) ∙ h in
      let (is, nonempty, _) = equal_split-total dto.participants total split in
      (
        ap sum is ∙ sum-equal_split dto.participants total nonempty,
        ap length is
            ∙ length-equal_amounts (total / length dto.participants)
                (total % length dto.participants) 0 dto.participants,
      )
  | inr same ↦
      let split : custom_split dto.participants total ≡ ok amounts =
        sym (rw (share_amounts, same) refl) ∙ h in
      let (given, read, h1) = >>=-eq-ok (custom_amounts dto.participants) _ split in
      let (_, exact, h2) = >>=-eq-ok (ensure (sum given == total) wrong_sum) _ h1 in
      let is : given ≡ amounts = ok-injective h2 in
      (
        ap sum (sym is) ∙ summed (sum given) total exact,
        ap length (sym is) ∙ length-custom_amounts dto.participants read,
      )
]

-- In an equal split each share is positive, and is the total divided by the number of participants,
-- rounded down, or one minor unit more.
pub share_amounts-equal :
    (dto : CreateSplitBill) (total : ℕ) {amounts : List ℕ}
    → dto.mode ≡ equal
    → share_amounts dto total ≡ ok amounts
    → (1 ≤ total / length dto.participants)
      × All
          (λ a. (total / length dto.participants ≤ a) × (a ≤ total / length dto.participants + 1))
          amounts
unfolding share_amounts
share_amounts-equal dto total {amounts} same h =
    let split : equal_split dto.participants total ≡ ok amounts =
      sym (rw (share_amounts, same) refl) ∙ h in
    let (is, _, positive) = equal_split-total dto.participants total split in
    (
      positive,
      subst
          (All (λ a.
            (total / length dto.participants ≤ a) × (a ≤ total / length dto.participants + 1)))
          (sym is)
          (equal_amounts-near (total / length dto.participants) (total % length dto.participants) 0
            dto.participants),
    )
