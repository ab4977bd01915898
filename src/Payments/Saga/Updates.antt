-- ===== src/Payments/Saga/Updates.antt =====
-- What an update of a claimed transfer does to the world.
use p2p_ledger_starter.Payments.Tables.{Transfer}
use p2p_ledger_starter.Payments.Saga.Evolution.{
  Evolves-refl, has_released, has_settled, sound_with, implies, has_asked_hold, is_announced,
  is_sound, Sound, Evolves, Follows,
}
use p2p_ledger_starter.Common.{
  ℕ, ◌≡◌, refl, sym, ◌∙◌, ap, subst, Bool, true, Option, some, ◌==◌, ==_refl, ==_iff, arith, inl,
  inr, Bool-cases, if◌then◌else◌,
}
use p2p_ledger_starter.Common.Dict.{lookup, insert, lookup-insert}
use p2p_ledger_starter.Payments.World.{World}

pub some-injective {ℓ} : {A : Type ℓ} {a b : A} → ◌≡◌ {A = Option A} (some a) (some b) → a ≡ b
some-injective {a = a} h = cc

implies-grows :
    (s s' r r' a a' k k' : Bool) (id : ℕ) (row : Transfer)
    → (s ≡ true → s' ≡ true)
    → (r ≡ true → r' ≡ true)
    → (a ≡ true → a' ≡ true)
    → implies k' row.hold_may_exist ≡ true
    → sound_with s a r k id row ≡ true
    → sound_with s' a' r' k' id row ≡ true
implies-grows s s' r r' a a' k k' id row hs hr ha hk good = ground arith

pub is_sound-held :
    (w : World) (id : ℕ) (row : Transfer)
    → is_sound w id row ≡ true
    → implies (has_asked_hold id w) row.hold_may_exist ≡ true
is_sound-held w id row good = ground arith

-- A row stays sound when more is known of the ledger's answers and of the outbox.
pub is_sound-grows :
    (w next : World) (id : ℕ) (row : Transfer)
    → (has_settled id w ≡ true → has_settled id next ≡ true)
    → (has_released id w ≡ true → has_released id next ≡ true)
    → (is_announced id w ≡ true → is_announced id next ≡ true)
    → implies (has_asked_hold id next) row.hold_may_exist ≡ true
    → is_sound w id row ≡ true
    → is_sound next id row ≡ true
is_sound-grows w next id row hs hr ha held good =
    implies-grows (has_settled id w) (has_settled id next) (has_released id w)
      (has_released id next) (is_announced id w) (is_announced id next) (has_asked_hold id w)
      (has_asked_hold id next) id row hs hr ha held good

put-Sound_at :
    (w next : World) (id : ℕ) (later : Transfer)
    → Sound w
    → next.log ≡ w.log
    → ((j : ℕ) → is_announced j w ≡ true → is_announced j next ≡ true)
    → is_sound next id later ≡ true
    → (j : ℕ) (other : Transfer)
    → lookup j next.db.transfers ≡ (if j == id then some later else lookup j w.db.transfers)
    → lookup j next.db.transfers ≡ some other
    → is_sound next j other ≡ true
put-Sound_at w next id later sound logs announces good j other reads h =
    elim (Bool-cases (j == id)) [
      | inl here ↦
          let same : j ≡ id = (==_iff j id).0 here in
          let is : later ≡ other = some-injective (sym (reads ∙ rw here refl) ∙ h) in
          rw (same, ← is) good
      | inr elsewhere ↦
          let found : lookup j w.db.transfers ≡ some other = sym (reads ∙ rw elsewhere refl) ∙ h in
          let old = sound.at j other found in
          is_sound-grows w next j other (λ e. rw logs e) (λ e. rw logs e) (announces j)
            (rw logs (is_sound-held w j other old)) old
    ]

put-Follows_rows :
    (w next : World) (id : ℕ) (row later : Transfer)
    → lookup id w.db.transfers ≡ some row
    → Evolves row later
    → (j : ℕ) (other : Transfer)
    → lookup j next.db.transfers ≡ (if j == id then some later else lookup j w.db.transfers)
    → lookup j w.db.transfers ≡ some other
    → (last : Transfer) × (lookup j next.db.transfers ≡ some last) × Evolves other last
put-Follows_rows w next id row later found moved j other reads h = elim (Bool-cases (j == id)) [
  | inl here ↦
      let same : j ≡ id = (==_iff j id).0 here in
      let is : row ≡ other =
        some-injective (sym found ∙ ap (λ k. lookup k w.db.transfers) (sym same) ∙ h) in
      (later, reads ∙ rw here refl, subst (λ r. Evolves r later) is moved)
  | inr elsewhere ↦ (other, reads ∙ rw elsewhere h, Evolves-refl other)
]

-- One row is replaced by a later state of it, and the rest of the world agrees with both.
pub put-Sound :
    (w next : World) (id : ℕ) (row later : Transfer)
    → Sound w
    → lookup id w.db.transfers ≡ some row
    → next.db.transfers ≡ insert id later w.db.transfers
    → next.log ≡ w.log
    → ((j : ℕ) → is_announced j w ≡ true → is_announced j next ≡ true)
    → Evolves row later
    → is_sound next id later ≡ true
    → Sound next × Follows w next × (lookup id next.db.transfers ≡ some later)
put-Sound w next id row later sound found tables logs announces moved good =
    let reads : (j : ℕ)
        → lookup j next.db.transfers ≡ (if j == id then some later else lookup j w.db.transfers) =
      λ j. ap (lookup j) tables ∙ lookup-insert id j later w.db.transfers in
    (
      record {
        at =
            λ j other h. put-Sound_at w next id later sound logs announces good j other (reads j) h;
      },
      record {
        rows = λ j other h. put-Follows_rows w next id row later found moved j other (reads j) h;
        settled = λ j h. rw logs h;
        released = λ j h. rw logs h;
        announced = announces;
      },
      ground (arith, reads id, ==_refl id),
    )
