-- ===== src/Ledger/Wallets/Accounts/Receivers.antt =====
-- wallets.service.ts, `validateTransfer`: whose wallet a transfer goes to.
use p2p_ledger_starter.Ledger.Wallets.Accounts.Transfers.{
  check_destination, validate_transfer-IsSender, ValidateCommand, uuid, target_of,
  validate_transfer, find_validated_receiver, find_referenced, find_or_open_receiver,
  find_validated_sender, IsSender, text, Reference,
}
use p2p_ledger_starter.Common.Int.{ℤ}
use p2p_ledger_starter.Ledger.Wallets.Money.{or_throw-some}
use p2p_ledger_starter.Ledger.Wallets.Commands.{Moments}
use p2p_ledger_starter.Ledger.Wallets.Accounts.{get_or_create_for_user, find_owned}
use p2p_ledger_starter.Ledger.Wallets.{to_positive_minor_units}
use p2p_ledger_starter.Ledger.Tables.{LedgerDb, Wallet}
use p2p_ledger_starter.Ledger.Fault.{
  not_found, receiver_missing, same_wallet, bad_request, sender_missing, no_row,
}
use p2p_ledger_starter.Common.{
  find-IsIn, IsIn, ◌≢◌, refl, Option, ◌⊎◌, ensure, Option-cases, not, inl, inr, subst, ap, find,
  find-passes, or_throw, ok-injective, ok, >>=-eq-ok, ◌==◌, ℕ, ◌≡◌, sym, ◌∙◌, ◌&&◌, some, arith,
}
use p2p_ledger_starter.Ledger.Wallets.Accounts.Shown.{Agree, find_owned-facts, get_or_create-Shows}

-- The wallet that a transfer goes to: one of the table, in the target currency, which the reference names by
-- its id or by its owner.
pub record IsReceiver (find_user : Reference → Option ℕ) (c : ValidateCommand) (wallet : Wallet)
    (db : LedgerDb) : Type 0 where
  pub there : IsIn wallet db.wallets
  pub same_currency : wallet.currency ≡ target_of c
  pub named :
      (c.receiver_reference ≡ uuid wallet.id)
      ⊎ (find_user c.receiver_reference ≡ some wallet.owner_id)

find_or_open_receiver-IsReceiver :
    (find_user : Reference → Option ℕ) (db : LedgerDb) (m : Moments) (after : LedgerDb)
    (wallet_id event_id : ℕ) (c : ValidateCommand) (r : Wallet × LedgerDb)
    → Agree m.seen m.db
    → Agree after after
    → find_or_open_receiver find_user db m after wallet_id event_id c ≡ ok r
    → IsReceiver find_user c r.0 r.1
unfolding find_or_open_receiver
find_or_open_receiver-IsReceiver find_user db m after wallet_id event_id c r agree winner h =
    let (user, known, h1) =
      >>=-eq-ok (or_throw (find_user c.receiver_reference) (not_found receiver_missing)) _ h in
    let user_known =
      or_throw-some (find_user c.receiver_reference) (not_found receiver_missing) known in
    elim (Option-cases (find_owned db user (target_of c))) [
      | inr (wallet, found) ↦
          let stays = rw (found) at h1 in
          let is : (wallet, db) ≡ r = ok-injective stays in
          let (owner, currency) = find_owned-facts db user (target_of c) found in
          subst (λ (p : Wallet × LedgerDb). IsReceiver find_user c p.0 p.1) is
            (record {
              there = find-IsIn _ db.wallets found;
              same_currency = currency;
              named = inr (user_known ∙ ap some (sym owner));
            })
      | inl free ↦
          let h2 = rw (free) at h1 in
          let (created, made, h3) =
            >>=-eq-ok (get_or_create_for_user db m after user (target_of c) wallet_id event_id) _
              h2 in
          let (wallet, again, h4) =
            >>=-eq-ok (or_throw (find (λ w. w.id == created.0.wallet.id) created.1.wallets) no_row)
              _ h3 in
          let found =
            or_throw-some (find (λ w. w.id == created.0.wallet.id) created.1.wallets) no_row
              again in
          let (owner, currency) =
            get_or_create-Shows db m after user (target_of c) wallet_id event_id created agree
              winner free made wallet found in
          subst (λ (p : Wallet × LedgerDb). IsReceiver find_user c p.0 p.1) (ok-injective h4)
            (record {
              there = find-IsIn _ created.1.wallets found;
              same_currency = currency;
              named = inr (user_known ∙ ap some (sym owner));
            })
    ]

referenced-IsReceiver :
    (find_user : Reference → Option ℕ) (db : LedgerDb) (c : ValidateCommand) (reference : Reference)
    (wallet : Wallet)
    → c.receiver_reference ≡ reference
    → find_referenced db reference (target_of c) ≡ some wallet
    → IsReceiver find_user c wallet db
referenced-IsReceiver find_user db c (uuid k) wallet is found =
    let passes = find-passes (λ w. w.id == k && w.currency == target_of c) db.wallets found in
    let same : wallet.id ≡ k = ground arith in
    record {
      there = find-IsIn _ db.wallets found;
      same_currency = ground arith;
      named = inl (is ∙ ap uuid (sym same));
    }
referenced-IsReceiver find_user db c (text t) wallet is found = absurd (cc)

find_validated_receiver-IsReceiver :
    (find_user : Reference → Option ℕ) (db : LedgerDb) (m : Moments) (after : LedgerDb)
    (wallet_id event_id : ℕ) (c : ValidateCommand) (r : Wallet × LedgerDb)
    → Agree m.seen m.db
    → Agree after after
    → find_validated_receiver find_user db m after wallet_id event_id c ≡ ok r
    → IsReceiver find_user c r.0 r.1
unfolding find_validated_receiver
find_validated_receiver-IsReceiver find_user db m after wallet_id event_id c r agree winner h =
    elim (Option-cases (find_referenced db c.receiver_reference (target_of c))) [
      | inr (wallet, found) ↦
          let stays = rw (find_validated_receiver, found) at h in
          let is : (wallet, db) ≡ r = ok-injective stays in
          subst (λ (p : Wallet × LedgerDb). IsReceiver find_user c p.0 p.1) is
            (referenced-IsReceiver find_user db c c.receiver_reference wallet refl found)
      | inl none_found ↦
          let opens = rw (find_validated_receiver, none_found) at h in
          find_or_open_receiver-IsReceiver find_user db m after wallet_id event_id c r agree winner
            opens
    ]

-- Where a wallet that was read by its owner and currency is read again as the same by its id: a transfer
-- that is validated has a positive amount, a sender's wallet of the user and the currency that the command
-- names, and goes to another wallet, which is in the table behind it, has the target currency, and is
-- named by the reference, by its id or as a wallet of the user that the reference is looked up to be.
pub validate_transfer-IsReceiver :
    (find_user : Reference → Option ℕ) (db : LedgerDb) (m : Moments) (after : LedgerDb)
    (wallet_id event_id : ℕ) (c : ValidateCommand) {receiver_wallet_id : ℕ} {db' : LedgerDb}
    → Agree m.seen m.db
    → Agree after after
    → validate_transfer find_user db m after wallet_id event_id c ≡ ok (receiver_wallet_id, db')
    → (sender : Wallet) × (a : ℤ) × (receiver : Wallet) × IsSender db c sender a
      × IsReceiver find_user c receiver db'
      × (receiver.id ≡ receiver_wallet_id)
      × (receiver_wallet_id ≢ c.sender_wallet_id)
unfolding validate_transfer
validate_transfer-IsReceiver find_user db m after wallet_id event_id c {receiver_wallet_id} {db'}
      agree winner h0 =
    let (sender, a, sends, differs) =
      validate_transfer-IsSender find_user db m after wallet_id event_id c h0 in
    let (_, _, h1) = >>=-eq-ok (to_positive_minor_units c.amount) _ h0 in
    let (_, _, h2) = >>=-eq-ok (check_destination c.destination_amount) _ h1 in
    let (found, _, h3) =
      >>=-eq-ok (or_throw (find_validated_sender db c) (not_found sender_missing)) _ h2 in
    let (r, received, h4) =
      >>=-eq-ok (find_validated_receiver find_user db m after wallet_id event_id c) _ h3 in
    let (_, _, h5) = >>=-eq-ok (ensure (not (r.0.id == found.id)) (bad_request same_wallet)) _ h4 in
    let is : (r.0.id, r.1) ≡ (receiver_wallet_id, db') = ok-injective h5 in
    (
      sender,
      a,
      r.0,
      sends,
      subst (λ d. IsReceiver find_user c r.0 d) (ap (λ (p : ℕ × LedgerDb). p.1) is)
          (find_validated_receiver-IsReceiver find_user db m after wallet_id event_id c r agree
            winner received),
      ap (λ (p : ℕ × LedgerDb). p.0) is,
      differs,
    )
