-- ===== src/Payments/TransferStatus.antt =====
-- apps/payments-service/src/transfers/domain/transfer-status.ts: the states of a transfer.
use p2p_ledger_starter.Common.{
  ◌≢◌, refl, true, false, inl, inr, any, ensure, ◌==◌, ℕ, suc, ◌≤◌, ◌<◌, ◌≡◌, Bool, arith, ◌⊎◌,
  Result, ok, List, [], ◌∷◌,
}

pub data TransferStatus : Type 0 where
  pending validating funds_held processing completed compensating failed : TransferStatus

-- The place of a status in the `enum`, by which two are compared.
abbrev pub index : TransferStatus → ℕ
index pending = 0
index validating = 1
index funds_held = 2
index processing = 3
index completed = 4
index compensating = 5
index failed = 6

-- `ALLOWED_TRANSITIONS`
abbrev pub allowed_transitions : TransferStatus → List TransferStatus
allowed_transitions pending = validating ∷ failed ∷ []
allowed_transitions validating = funds_held ∷ compensating ∷ failed ∷ []
allowed_transitions funds_held = processing ∷ compensating ∷ []
allowed_transitions processing = completed ∷ compensating ∷ []
allowed_transitions compensating = completed ∷ failed ∷ []
allowed_transitions completed = []
allowed_transitions failed = []

abbrev pub includes : TransferStatus → List TransferStatus → Bool
includes status statuses = any (λ s. index s == index status) statuses

-- `InvalidTransferTransitionError`
pub record InvalidTransferTransition : Type 0 where
  pub current : TransferStatus
  pub next : TransferStatus

unfoldable pub assert_transfer_transition :
    TransferStatus → TransferStatus → Result InvalidTransferTransition (Unit {0})
assert_transfer_transition current next =
    ensure (includes next (allowed_transitions current)) (record { current = current; next = next })

-- The life of a transfer: each status is set behind a transition that is allowed.
pub data Run : TransferStatus → ℕ → TransferStatus → Type 0 where
  stay : {s : TransferStatus} → Run s 0 s
  move :
      {s t u : TransferStatus} {n : ℕ}
      → assert_transfer_transition s t ≡ ok tt
      → Run t n u
      → Run s (suc n) u

-- How many transitions a transfer in a status can still make.
abbrev pub longest : TransferStatus → ℕ
longest pending = 5
longest validating = 4
longest funds_held = 3
longest processing = 2
longest compensating = 1
longest completed = 0
longest failed = 0

pub longest-transition :
    (s t : TransferStatus) → assert_transfer_transition s t ≡ ok tt → longest t < longest s
unfolding assert_transfer_transition
longest-transition s t h = ground arith

pub Run-falls : {s t : TransferStatus} {n : ℕ} → Run s n t → longest t ≤ longest s
Run-falls stay = omega arith
Run-falls (move {s = s} {t = t} h run) = omega (arith, longest-transition s t h, Run-falls run)

-- A transfer makes no more transitions than its status leaves it: at most five from `pending`, and none
-- once it has completed or failed.
pub Run-longest : {s t : TransferStatus} {n : ℕ} → Run s n t → n ≤ longest s
Run-longest stay = omega arith
Run-longest (move {s = s} {t = t} h run) = omega (arith, longest-transition s t h, Run-longest run)

-- The sender's funds are held, or the transfer is being given up.
abbrev pub is_reserved : TransferStatus → Bool
is_reserved funds_held = true
is_reserved compensating = true
is_reserved _ = false

-- The statuses that a run passes, its first and last included.
pub visited : {s t : TransferStatus} {n : ℕ} → Run s n t → List TransferStatus
visited (stay {s = s}) = s ∷ []
visited (move {s = s} h run) = s ∷ visited run

first_step :
    (s t : TransferStatus)
    → assert_transfer_transition s t ≡ ok tt
    → s ≢ processing
    → (is_reserved s ≡ true) ⊎ ((t ≢ processing) × (t ≢ completed))
unfolding assert_transfer_transition
first_step pending t h p = inr ((λ e. ground arith), λ e. ground arith)
first_step validating t h p = inr ((λ e. ground arith), λ e. ground arith)
first_step funds_held t h p = inl refl
first_step processing t h p = absurd (p refl)
first_step completed t h p = inr ((λ e. ground arith), λ e. ground arith)
first_step compensating t h p = inl refl
first_step failed t h p = inr ((λ e. ground arith), λ e. ground arith)

reserved-visited :
    {s : TransferStatus} {n : ℕ} (run : Run s n completed)
    → s ≢ processing
    → s ≢ completed
    → any is_reserved (visited run) ≡ true
unfolding visited
reserved-visited stay p c = absurd (c refl)
reserved-visited (move {s = s} {t = t} h run) p c = elim (first_step s t h p) [
  | inl here ↦ rw here refl
  | inr (p', c') ↦ ground (arith, reserved-visited run p' c')
]

-- A transfer that completes has had the sender's funds held, or completed while it was compensated.
pub Run-completed : {n : ℕ} (run : Run pending n completed) → any is_reserved (visited run) ≡ true
Run-completed run = reserved-visited run (λ e. cc) (λ e. cc)
