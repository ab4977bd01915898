-- ===== src/Ledger/Wallets/Projection.antt =====
-- What the projection table accepts: a valid wallet passes its checks, and its columns have a range.
use p2p_ledger_starter.Ledger.Wallets.{
  max_integer, max_bigint, fits_bigint, projection_from_aggregate, project, check_projection,
}
use p2p_ledger_starter.Ledger.Transaction.Amounts.{parse_minor_units-minor_text}
use p2p_ledger_starter.Ledger.Tables.{LedgerDb}
use p2p_ledger_starter.Ledger.Fault.{value_out_of_range, projection_check}
use p2p_ledger_starter.Ledger.Aggregate.Invariant.{
  active_sum_nonneg, held_minor-active_sum, IsValid-nonneg, IsValid,
}
use p2p_ledger_starter.Ledger.Aggregate.{available_minor, WalletAggregate, held_minor}
use p2p_ledger_starter.Common.{
  err, Bool-cases, if◌then◌else◌, sym, ◌∙◌, ap, inl, inr, ok, ensure, leb, ℕ, ◌≤◌, ◌≡◌, refl, ◌&&◌,
  arith,
}
use p2p_ledger_starter.Common.Int.{int_laws, ◌+ℤ◌, eqb_ℤ_iff, eqb_ℤ, ◌-ℤ◌, leb_ℤ, ℤ, pos, ◌≤ℤ◌}
use p2p_ledger_starter.Common.Dict.{insert}

projection-checked :
    (b h a : ℤ) (version : ℕ)
    → pos 0 ≤ℤ b
    → pos 0 ≤ℤ h
    → pos 0 ≤ℤ a
    → a ≡ b -ℤ h
    → 1 ≤ version
    → ensure
        (leb_ℤ (pos 0) b
          && (leb_ℤ (pos 0) h && (leb_ℤ (pos 0) a && (eqb_ℤ a (b -ℤ h) && leb 1 version))))
        projection_check
      ≡ ok tt
projection-checked b h a version pb ph pa e pv = ground (arith, eqb_ℤ_iff a (b -ℤ h))

sub-add : (b h : ℤ) → (b -ℤ h) +ℤ h ≡ b
unfolding ◌-ℤ◌
sub-add b h = omega int_laws

held_nonneg : (w : WalletAggregate) → IsValid w → pos 0 ≤ℤ held_minor w
held_nonneg w v = rw (held_minor-active_sum w) (active_sum_nonneg w.holds v.holds_positive)

-- The columns have room for a wallet whose balance and version they have room for: of a valid wallet
-- held and available funds are at most the balance.
projection-fits :
    (b h a : ℤ) (version : ℕ)
    → pos 0 ≤ℤ b
    → pos 0 ≤ℤ h
    → pos 0 ≤ℤ a
    → a ≡ b -ℤ h
    → (fits_bigint b && (fits_bigint h && (fits_bigint a && leb version max_integer)))
      ≡ (leb_ℤ b (pos max_bigint) && leb version max_integer)
unfolding ◌-ℤ◌
projection-fits b h a version pb ph pa e =
    let split : a +ℤ h ≡ b = ap (λ x. x +ℤ h) e ∙ sub-add b h in
    let held : h ≤ℤ b = rw (sym split) (omega (int_laws, pa, ph)) in
    let free : a ≤ℤ b = rw (sym split) (omega (int_laws, pa, ph)) in
    ground (arith, held, free, pb, ph, pa)

-- Projecting a valid wallet that has an event: if its balance fits into a `bigint` column and its version
-- into an `integer` column, the checks of the table pass, and the row that is written is the
-- projection of the wallet; otherwise the database refuses a value that is out of range.
pub project-IsValid :
    (w : WalletAggregate) (db : LedgerDb)
    → IsValid w
    → 1 ≤ w.version
    → project w db ≡ (
        if leb_ℤ w.balance_minor (pos max_bigint) && leb w.version max_integer
        then ok (
          projection_from_aggregate w,
          record db { balances = insert w.id (projection_from_aggregate w) db.balances },
        )
        else err value_out_of_range)
unfolding project check_projection projection_from_aggregate available_minor
project-IsValid w db v opened =
    let (balance, available) = IsValid-nonneg w v in
    let free = w.balance_minor -ℤ held_minor w in
    let checked =
      projection-checked w.balance_minor (held_minor w) free w.version balance (held_nonneg w v)
        available refl opened in
    let fits =
      projection-fits w.balance_minor (held_minor w) free w.version balance (held_nonneg w v)
        available refl in
    elim (Bool-cases (leb_ℤ w.balance_minor (pos max_bigint) && leb w.version max_integer)) [
      | inl room ↦
          rw
            (
              parse_minor_units-minor_text w.balance_minor,
              parse_minor_units-minor_text (held_minor w),
              parse_minor_units-minor_text free,
              fits,
              checked,
              room,
            )
            refl
      | inr full ↦
          rw
            (
              parse_minor_units-minor_text w.balance_minor,
              parse_minor_units-minor_text (held_minor w),
              parse_minor_units-minor_text free,
              fits,
              full,
            )
            refl
    ]
