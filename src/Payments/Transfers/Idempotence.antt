-- ===== src/Payments/Transfers/Idempotence.antt =====
-- A request that is made again.
use p2p_ledger_starter.Payments.Saga.Success.{catch-ok, bind-ok}
use p2p_ledger_starter.Payments.FxQuote.{FxQuote}
use p2p_ledger_starter.Payments.World.{◌>>◌, modify, roll_back, Action, World, transaction}
use p2p_ledger_starter.Common.Decimal.{text_eq_refl, Text}
use p2p_ledger_starter.Payments.Transfers.{
  or_existing, quote_canonical, create_canonical, quote_and_insert, create_by_key, CreateFault,
  has_key, insert_new, CanonicalTransferRequest, insert_transfer, read_transfer, pays_split,
  find_by_key, find_by_share, resolve_existing, new_transfer, TransfersConfig, on_violation,
  rows_of,
}
use p2p_ledger_starter.Payments.Tables.{Transfer}
use p2p_ledger_starter.Common.{
  Result-cases, Result, Option-cases, ok, ==_refl, ◌==◌, Bool-cases, suc, sym, ◌∙◌, ap, Option, inl,
  inr, ◌⊎◌, subst, ℕ, ◌≡◌, refl, Bool, true, none, some, [], ◌∷◌, find, arith,
}
use p2p_ledger_starter.Common.Dict.{lookup-insert, Dict, lookup, insert}

-- The first row that passes is a new one, where none passed before.
find-insert :
    (p : Transfer → Bool) (id : ℕ) (row : Transfer) (transfers : Dict Transfer)
    → lookup id transfers ≡ none
    → find p (rows_of transfers) ≡ none
    → p row ≡ true
    → find p (rows_of (insert id row transfers)) ≡ some row
find-insert p id row [] absent before passes = rw passes refl
find-insert p id row ((j, other) ∷ transfers) absent before passes =
    ground (arith, find-insert p id row transfers)

find-never : (transfers : Dict Transfer) → find (pays_split none) (rows_of transfers) ≡ none
find-never [] = refl
find-never (e ∷ transfers) = rw (find-never transfers) refl

find_by_share-none : (w : World) → find_by_share none w ≡ none
find_by_share-none w = find-never w.db.transfers

-- A call that changed nothing gives the same when it is made again.
again-unchanged :
    {A : Type 0} (m : Action CreateFault A) (w next : World) (a : A)
    → (m w).1 ≡ w
    → m w ≡ (ok a, next)
    → m next ≡ (ok a, next)
again-unchanged m w next a same done =
    let is : w ≡ next = sym same ∙ ap (λ r. r.1) done in
    subst (λ u. m u ≡ (ok a, u)) is (done ∙ ap (λ u. (ok a, u)) (sym is))

resolve_existing-keeps :
    (existing : Transfer) (fingerprint : ℕ) (w : World)
    → (resolve_existing existing fingerprint w).1 ≡ w
unfolding resolve_existing
resolve_existing-keeps existing fingerprint w =
    elim (Bool-cases (existing.request_fingerprint == fingerprint)) [
      | inl same ↦ rw (resolve_existing, same) refl
      | inr other ↦ rw (resolve_existing, other) refl
    ]

-- The row of a request that was made for the first time, and the world that has it.
abbrev pub stored_row :
    TransfersConfig → CanonicalTransferRequest → Text → FxQuote → World → Transfer
stored_row config canonical key quote w =
    new_transfer canonical quote key (config.fingerprint canonical) w.next_id w.clock

abbrev pub stored : TransfersConfig → CanonicalTransferRequest → Text → FxQuote → World → World
stored config canonical key quote w = record w {
  db = record w.db {
    transfers = insert w.next_id (stored_row config canonical key quote w) w.db.transfers;
  };
  next_id = suc w.next_id;
}

module _ (config : TransfersConfig) (quiet : (w : World) → config.arrive w ≡ w) where
  pub insert_new-stores :
      (canonical : CanonicalTransferRequest) (key : Text) (quote : FxQuote) (w : World)
      → find_by_share canonical.split_bill_share_id w ≡ none
      → find_by_key canonical.sender_user_id key w ≡ none
      → lookup w.next_id w.db.transfers ≡ none
      → insert_new config canonical key quote w
        ≡ (ok (stored_row config canonical key quote w), stored config canonical key quote w)
  unfolding insert_new
  insert_new-stores canonical key quote w no_share no_key fresh =
      let row : Transfer = stored_row config canonical key quote w in
      let drawn : World = record w { next_id = suc w.next_id } in
      let last : World = stored config canonical key quote w in
      let waits : (u : World) → modify {E = CreateFault} config.arrive u ≡ (ok tt, u) =
        λ u. rw (quiet u) refl in
      let inserts : insert_transfer row drawn ≡ (ok tt, last) =
        rw (insert_transfer, no_share, no_key, fresh) refl in
      let reads : read_transfer row.id last ≡ (ok row, last) =
        rw (read_transfer, lookup-insert w.next_id w.next_id row w.db.transfers, ==_refl w.next_id)
          refl in
      let first = modify {E = CreateFault} config.arrive >> transaction (insert_transfer row) in
      let one : first drawn ≡ (ok tt, last) =
        bind-ok (modify config.arrive) (λ _. transaction (insert_transfer row)) (waits drawn)
        ∙ ap (roll_back drawn.db) inserts in
      let two : (first >> modify config.arrive) drawn ≡ (ok tt, last) =
        bind-ok first (λ _. modify config.arrive) one ∙ waits last in
      catch-ok (first >> modify config.arrive >> read_transfer row.id)
        (on_violation config canonical key)
        (bind-ok (first >> modify config.arrive) (λ _. read_transfer row.id) two ∙ reads)

  -- The request is found by its share or by its key.
  pub stored-found :
      (share_id : Option ℕ) (canonical : CanonicalTransferRequest) (key : Text) (quote : FxQuote)
      (w : World)
      → canonical.split_bill_share_id ≡ share_id
      → find_by_share share_id w ≡ none
      → find_by_key canonical.sender_user_id key w ≡ none
      → lookup w.next_id w.db.transfers ≡ none
      → (find_by_share share_id (stored config canonical key quote w)
          ≡ some (stored_row config canonical key quote w))
        ⊎ ((find_by_share share_id (stored config canonical key quote w) ≡ none)
            × (find_by_key canonical.sender_user_id key (stored config canonical key quote w)
                ≡ some (stored_row config canonical key quote w)))
  stored-found none canonical key quote w here no_share no_key fresh =
      let row : Transfer = stored_row config canonical key quote w in
      inr (
        find_by_share-none (stored config canonical key quote w),
        find-insert (has_key canonical.sender_user_id key) w.next_id row w.db.transfers fresh no_key
            (ground (arith, ==_refl canonical.sender_user_id, text_eq_refl key)),
      )
  stored-found (some share_id) canonical key quote w here no_share no_key fresh =
      let row : Transfer = stored_row config canonical key quote w in
      inl (
        find-insert (pays_split (some share_id)) w.next_id row w.db.transfers fresh no_share
          (rw here (==_refl share_id)))

  create_canonical_lem :
      (canonical : CanonicalTransferRequest) (key : Text) (w : World)
      → create_canonical config canonical key w
        ≡ or_existing
            (find_by_share canonical.split_bill_share_id w)
            (config.fingerprint canonical)
            (create_by_key config canonical key)
            w
  unfolding create_canonical
  create_canonical_lem canonical key w =
      ap
        (λ u.
          or_existing (find_by_share canonical.split_bill_share_id u) (config.fingerprint canonical)
            (create_by_key config canonical key) u)
        (quiet w)

  create_by_key_lem :
      (canonical : CanonicalTransferRequest) (key : Text) (w : World)
      → create_by_key config canonical key w
        ≡ or_existing
            (find_by_key canonical.sender_user_id key w)
            (config.fingerprint canonical)
            (quote_and_insert config canonical key)
            w
  create_by_key_lem canonical key w =
      ap
        (λ u.
          or_existing (find_by_key canonical.sender_user_id key u) (config.fingerprint canonical)
            (quote_and_insert config canonical key) u)
        (quiet w)

  pub by_share :
      (canonical : CanonicalTransferRequest) (key : Text) (w : World) {found : Option Transfer}
      → find_by_share canonical.split_bill_share_id w ≡ found
      → create_canonical config canonical key w
        ≡ or_existing found (config.fingerprint canonical) (create_by_key config canonical key) w
  by_share canonical key w h =
      create_canonical_lem canonical key w
      ∙ ap
          (λ o. or_existing o (config.fingerprint canonical) (create_by_key config canonical key) w)
          h

  pub by_key :
      (canonical : CanonicalTransferRequest) (key : Text) (w : World) {found : Option Transfer}
      → find_by_share canonical.split_bill_share_id w ≡ none
      → find_by_key canonical.sender_user_id key w ≡ found
      → create_canonical config canonical key w
        ≡ or_existing found (config.fingerprint canonical) (quote_and_insert config canonical key) w
  by_key canonical key w no_share h =
      by_share canonical key w no_share
      ∙ create_by_key_lem canonical key w
      ∙ ap
          (λ o.
            or_existing o (config.fingerprint canonical) (quote_and_insert config canonical key) w)
          h

  resolve_own :
      (row : Transfer) (fingerprint : ℕ) (w : World)
      → row.request_fingerprint ≡ fingerprint
      → resolve_existing row fingerprint w ≡ (ok row, w)
  unfolding resolve_existing
  resolve_own row fingerprint w same = rw (resolve_existing, same, ==_refl fingerprint) refl

  again-stored :
      (canonical : CanonicalTransferRequest) (key : Text) (quote : FxQuote) (w : World)
      → find_by_share canonical.split_bill_share_id w ≡ none
      → find_by_key canonical.sender_user_id key w ≡ none
      → lookup w.next_id w.db.transfers ≡ none
      → create_canonical config canonical key (stored config canonical key quote w)
        ≡ (ok (stored_row config canonical key quote w), stored config canonical key quote w)
  again-stored canonical key quote w no_share no_key fresh =
      let row : Transfer = stored_row config canonical key quote w in
      let last : World = stored config canonical key quote w in
      elim (stored-found canonical.split_bill_share_id canonical key quote w refl no_share no_key
        fresh) [
          | inl share ↦
              by_share canonical key last share
              ∙ resolve_own row (config.fingerprint canonical) last refl
          | inr (none_shared, keyed) ↦
              by_key canonical key last none_shared keyed
              ∙ resolve_own row (config.fingerprint canonical) last refl
        ]

  again-quoted :
      (canonical : CanonicalTransferRequest) (key : Text) (w next : World) (row : Transfer)
      → find_by_share canonical.split_bill_share_id w ≡ none
      → find_by_key canonical.sender_user_id key w ≡ none
      → lookup w.next_id w.db.transfers ≡ none
      → quote_and_insert config canonical key w ≡ (ok row, next)
      → create_canonical config canonical key next ≡ (ok row, next)
  again-quoted canonical key w next row no_share no_key fresh done =
      elim (Result-cases (quote_canonical canonical w.clock)) [
        | inr (e, refused) ↦ let bad = rw (quote_and_insert, refused) at done in cc
        | inl (quote, quoted) ↦
            let is : quote_and_insert config canonical key w ≡ (
              ok (stored_row config canonical key quote w),
              stored config canonical key quote w,
            ) =
              rw (quote_and_insert, quoted)
                (insert_new-stores canonical key quote w no_share no_key fresh) in
            subst
              (λ (r : Result CreateFault Transfer × World).
                create_canonical config canonical key r.1 ≡ r)
              (sym is ∙ done) (again-stored canonical key quote w no_share no_key fresh)
      ]

-- While nothing else changes the tables, and when the id that is drawn is not taken: a request that was
-- answered with a transfer is answered with the same transfer when it is made again under its key, and
-- the second time nothing changes.
pub create_canonical-again :
    (config : TransfersConfig) (canonical : CanonicalTransferRequest) (key : Text) (w next : World)
    (row : Transfer)
    → ((u : World) → config.arrive u ≡ u)
    → lookup w.next_id w.db.transfers ≡ none
    → create_canonical config canonical key w ≡ (ok row, next)
    → create_canonical config canonical key next ≡ (ok row, next)
create_canonical-again config canonical key w next row quiet fresh done =
    elim (Option-cases (find_by_share canonical.split_bill_share_id w)) [
      | inr (existing, share) ↦
          again-unchanged (create_canonical config canonical key) w next row
            (ap (λ r. r.1) (by_share config quiet canonical key w share)
              ∙ resolve_existing-keeps existing (config.fingerprint canonical) w)
            done
      | inl no_share ↦ elim (Option-cases (find_by_key canonical.sender_user_id key w)) [
        | inr (existing, keyed) ↦
            again-unchanged (create_canonical config canonical key) w next row
              (ap (λ r. r.1) (by_key config quiet canonical key w no_share keyed)
                ∙ resolve_existing-keeps existing (config.fingerprint canonical) w)
              done
        | inl no_key ↦
            again-quoted config quiet canonical key w next row no_share no_key fresh
              (sym (by_key config quiet canonical key w no_share no_key) ∙ done)
      ]
    ]
