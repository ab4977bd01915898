-- ===== src/Payments/Transfers/Conflicts.antt =====
-- A key or a share that is used for another request.
use p2p_ledger_starter.Payments.World.{throw, World, pure}
use p2p_ledger_starter.Payments.Transfers.Idempotence.{
  stored_row, stored-found, stored, by_key, insert_new-stores, by_share,
}
use p2p_ledger_starter.Payments.Transfers.{
  create_canonical, TransfersConfig, quote_canonical, CreateFault, find_by_key,
  CanonicalTransferRequest, find_by_share, resolve_existing, quote_and_insert, key_reused,
}
use p2p_ledger_starter.Payments.Tables.{Transfer}
use p2p_ledger_starter.Common.{
  ==_iff, ok, err, ok-injective, Result, Result-cases, if◌then◌else◌, Bool-cases, Option-cases,
  ◌==◌, ℕ, ◌≡◌, ◌≢◌, refl, sym, ◌∙◌, ap, subst, Bool, false, none, some, arith, inl, inr, ◌⊎◌,
}
use p2p_ledger_starter.Common.Dict.{lookup}
use p2p_ledger_starter.Common.Decimal.{Text}

resolve-conflict :
    (existing : Transfer) (fingerprint : ℕ) (w : World)
    → existing.request_fingerprint ≢ fingerprint
    → resolve_existing existing fingerprint w ≡ (err key_reused, w)
unfolding resolve_existing
resolve-conflict existing fingerprint w other =
    let differs : (existing.request_fingerprint == fingerprint) ≡ false = ground arith in
    rw (resolve_existing, differs) refl

-- A request that was answered with a row is found again: by its share, or else by its key.
record Stands (config : TransfersConfig) (canonical : CanonicalTransferRequest) (key : Text)
    (row : Transfer) (w : World) : Type 0 where
  same : row.request_fingerprint ≡ config.fingerprint canonical
  found :
      (find_by_share canonical.split_bill_share_id w ≡ some row)
      ⊎ ((find_by_share canonical.split_bill_share_id w ≡ none)
          × (find_by_key canonical.sender_user_id key w ≡ some row))

resolved :
    (existing row : Transfer) (fingerprint : ℕ) (w next : World)
    → resolve_existing existing fingerprint w ≡ (ok row, next)
    → (existing ≡ row) × (w ≡ next) × (existing.request_fingerprint ≡ fingerprint)
unfolding resolve_existing
resolved existing row fingerprint w next done =
    elim (Bool-cases (existing.request_fingerprint == fingerprint)) [
      | inl same ↦
          let is : (ok existing, w) ≡ (ok row, next) =
            sym (ap (λ (b : Bool). if b then pure existing w else throw key_reused w) same)
            ∙ done in
          (
            ok-injective (ap (λ (r : Result CreateFault Transfer × World). r.0) is),
            ap (λ (r : Result CreateFault Transfer × World). r.1) is,
            (==_iff existing.request_fingerprint fingerprint).0 same,
          )
      | inr other ↦ let bad = rw (other) at done in cc
    ]

module _ (config : TransfersConfig) (quiet : (w : World) → config.arrive w ≡ w) where
  quoted-Stands :
      (canonical : CanonicalTransferRequest) (key : Text) (w next : World) (row : Transfer)
      → find_by_share canonical.split_bill_share_id w ≡ none
      → find_by_key canonical.sender_user_id key w ≡ none
      → lookup w.next_id w.db.transfers ≡ none
      → quote_and_insert config canonical key w ≡ (ok row, next)
      → Stands config canonical key row next
  quoted-Stands canonical key w next row no_share no_key fresh done =
      elim (Result-cases (quote_canonical canonical w.clock)) [
        | inr (e, refused) ↦ let bad = rw (quote_and_insert, refused) at done in cc
        | inl (quote, quoted) ↦
            let is : quote_and_insert config canonical key w ≡ (
              ok (stored_row config canonical key quote w),
              stored config canonical key quote w,
            ) =
              rw (quote_and_insert, quoted)
                (insert_new-stores config quiet canonical key quote w no_share no_key fresh) in
            let both = sym is ∙ done in
            subst (λ u. Stands config canonical key row u) (ap (λ r. r.1) both)
              (subst (λ r. Stands config canonical key r (stored config canonical key quote w))
                (ok-injective (ap (λ r. r.0) both))
                (record {
                  same = refl;
                  found =
                      stored-found config quiet canonical.split_bill_share_id canonical key quote w
                        refl no_share no_key fresh;
                }))
      ]

  answered-Stands :
      (canonical : CanonicalTransferRequest) (key : Text) (w next : World) (row : Transfer)
      → lookup w.next_id w.db.transfers ≡ none
      → create_canonical config canonical key w ≡ (ok row, next)
      → Stands config canonical key row next
  answered-Stands canonical key w next row fresh done =
      elim (Option-cases (find_by_share canonical.split_bill_share_id w)) [
        | inr (existing, share) ↦
            let (is, stays, same) =
              resolved existing row (config.fingerprint canonical) w next
                (sym (by_share config quiet canonical key w share) ∙ done) in
            record {
              same = ap (λ (r : Transfer). r.request_fingerprint) (sym is) ∙ same;
              found = inl (
                  ap (find_by_share canonical.split_bill_share_id) (sym stays)
                  ∙ share
                  ∙ ap some is);
            }
        | inl no_share ↦ elim (Option-cases (find_by_key canonical.sender_user_id key w)) [
          | inr (existing, keyed) ↦
              let (is, stays, same) =
                resolved existing row (config.fingerprint canonical) w next
                  (sym (by_key config quiet canonical key w no_share keyed) ∙ done) in
              record {
                same = ap (λ (r : Transfer). r.request_fingerprint) (sym is) ∙ same;
                found = inr (
                  ap (find_by_share canonical.split_bill_share_id) (sym stays) ∙ no_share,
                  ap (find_by_key canonical.sender_user_id key) (sym stays) ∙ keyed ∙ ap some is,
                );
              }
          | inl no_key ↦
              quoted-Stands canonical key w next row no_share no_key fresh
                (sym (by_key config quiet canonical key w no_share no_key) ∙ done)
        ]
      ]

-- While nothing else changes the tables, and when the id that is drawn is not taken: after a request was
-- answered with a transfer, a request of another fingerprint that the same sender makes under the
-- same key, for the same share or like it for none, is refused as a conflict, and nothing changes.
pub create_canonical-conflict :
    (config : TransfersConfig) (canonical other : CanonicalTransferRequest) (key : Text)
    (w next : World) (row : Transfer)
    → ((u : World) → config.arrive u ≡ u)
    → lookup w.next_id w.db.transfers ≡ none
    → create_canonical config canonical key w ≡ (ok row, next)
    → other.sender_user_id ≡ canonical.sender_user_id
    → other.split_bill_share_id ≡ canonical.split_bill_share_id
    → config.fingerprint other ≢ config.fingerprint canonical
    → create_canonical config other key next ≡ (err key_reused, next)
create_canonical-conflict config canonical other key w next row quiet fresh done sender share
      differs =
    let stands = answered-Stands config quiet canonical key w next row fresh done in
    let refused =
      resolve-conflict row (config.fingerprint other) next (λ e. differs (sym e ∙ stands.same)) in
    elim stands.found [
      | inl shared ↦
          by_share config quiet other key next (ap (λ o. find_by_share o next) share ∙ shared)
          ∙ refused
      | inr (none_shared, keyed) ↦
          by_key config quiet other key next (ap (λ o. find_by_share o next) share ∙ none_shared)
            (ap (λ u. find_by_key u key next) sender ∙ keyed)
          ∙ refused
    ]
