-- ===== src/Ledger/Wallets/Accounts/Transfers.antt =====
-- wallets.service.ts, `validateTransfer`: who a transfer is from and to.
use p2p_ledger_starter.Ledger.Wallets.Settlement.Checks.{differ-ne}
use p2p_ledger_starter.Ledger.Wallets.Retries.{to_positive_minor_units-positive}
use p2p_ledger_starter.Ledger.Wallets.Money.{or_throw-some}
use p2p_ledger_starter.Ledger.Wallets.Commands.{Moments}
use p2p_ledger_starter.Ledger.Wallets.Accounts.{get_or_create_for_user, find_owned}
use p2p_ledger_starter.Ledger.Wallets.{to_positive_minor_units}
use p2p_ledger_starter.Ledger.Transaction.{Rounded}
use p2p_ledger_starter.Ledger.Tables.{Wallet, LedgerDb}
use p2p_ledger_starter.Ledger.Fault.{
  receiver_missing, Fault, no_row, bad_request, same_wallet, sender_missing, not_found,
}
use p2p_ledger_starter.Ledger.EventStore.{or_default}
use p2p_ledger_starter.Common.{
  find-passes, find, Result, or_throw, ok, ok-injective, ensure, >>=-eq-ok, ◌>>=◌, ◌==◌, ℕ, ◌≡◌,
  ◌≢◌, sym, ◌∙◌, ap, ◌&&◌, not, Option, none, some, arith, ◌>>◌,
}
use p2p_ledger_starter.Common.Int.{ℤ, pos, ◌≤ℤ◌}

-- `receiverReference`: an id of a wallet, or a text that is none, such as an email.
pub data Reference : Type 0 where
  uuid : ℕ → Reference
  text : ℕ → Reference

-- `ValidateInternalTransferDto`
pub record ValidateCommand : Type 0 where
  pub sender_wallet_id : ℕ
  pub sender_user_id : ℕ
  pub receiver_reference : Reference
  pub amount : Rounded
  pub currency : ℕ
  pub target_currency : Option ℕ
  pub destination_amount : Option Rounded

abbrev pub target_of : ValidateCommand → ℕ
target_of c = or_default c.target_currency c.currency

unfoldable pub check_destination : Option Rounded → Result Fault (Unit {0})
check_destination none = ok tt
check_destination (some amount) = to_positive_minor_units amount >>= λ _. ok tt

abbrev pub find_validated_sender : LedgerDb → ValidateCommand → Option Wallet
find_validated_sender db c =
    find
      (λ w.
        w.id == c.sender_wallet_id && (w.owner_id == c.sender_user_id && w.currency == c.currency))
      db.wallets

abbrev pub find_referenced : LedgerDb → Reference → ℕ → Option Wallet
find_referenced db (uuid wallet_id) target =
    find (λ w. w.id == wallet_id && w.currency == target) db.wallets
find_referenced db (text _) target = none

-- The wallet of the user that the reference names, opened where there is none. `find_user` is the
-- lookup of a user by email.
unfoldable pub find_or_open_receiver :
    (Reference → Option ℕ)
    → LedgerDb
    → Moments
    → LedgerDb
    → ℕ
    → ℕ
    → ValidateCommand
    → Result Fault (Wallet × LedgerDb)
find_or_open_receiver find_user db m after wallet_id event_id c = do
  user ← or_throw (find_user c.receiver_reference) (not_found receiver_missing)
  elim (find_owned db user (target_of c)) [
    | some wallet ↦ ok (wallet, db)
    | none ↦ get_or_create_for_user db m after user (target_of c) wallet_id event_id >>= λ created.
        or_throw (find (λ w. w.id == created.0.wallet.id) created.1.wallets) no_row >>= λ wallet.
        ok (wallet, created.1)
  ]

unfoldable pub find_validated_receiver :
    (Reference → Option ℕ)
    → LedgerDb
    → Moments
    → LedgerDb
    → ℕ
    → ℕ
    → ValidateCommand
    → Result Fault (Wallet × LedgerDb)
find_validated_receiver find_user db m after wallet_id event_id c =
    elim (find_referenced db c.receiver_reference (target_of c)) [
      | some wallet ↦ ok (wallet, db)
      | none ↦ find_or_open_receiver find_user db m after wallet_id event_id c
    ]

-- The receiver's wallet id, and the database with the wallet that was opened for it.
unfoldable pub validate_transfer :
    (Reference → Option ℕ)
    → LedgerDb
    → Moments
    → LedgerDb
    → ℕ
    → ℕ
    → ValidateCommand
    → Result Fault (ℕ × LedgerDb)
validate_transfer find_user db m after wallet_id event_id c = do
  amount ← to_positive_minor_units c.amount
  check_destination c.destination_amount
  sender ← or_throw (find_validated_sender db c) (not_found sender_missing)
  receiver ← find_validated_receiver find_user db m after wallet_id event_id c
  ensure (not (receiver.0.id == sender.id)) (bad_request same_wallet)
  ok (receiver.0.id, receiver.1)

-- The sender's wallet of a transfer, and a positive amount to take from it.
pub record IsSender (db : LedgerDb) (c : ValidateCommand) (wallet : Wallet) (a : ℤ) : Type 0 where
  pub found : find_validated_sender db c ≡ some wallet
  pub same_id : wallet.id ≡ c.sender_wallet_id
  pub same_owner : wallet.owner_id ≡ c.sender_user_id
  pub same_currency : wallet.currency ≡ c.currency
  pub parsed : to_positive_minor_units c.amount ≡ ok a
  pub positive : pos 1 ≤ℤ a

sender-facts :
    (db : LedgerDb) (c : ValidateCommand) {w : Wallet}
    → find_validated_sender db c ≡ some w
    → (w.id ≡ c.sender_wallet_id) × (w.owner_id ≡ c.sender_user_id) × (w.currency ≡ c.currency)
sender-facts db c {w} h =
    let passes =
      find-passes
        (λ w.
          w.id == c.sender_wallet_id
          && (w.owner_id == c.sender_user_id && w.currency == c.currency))
        db.wallets h in
    ground arith

-- A transfer that is validated has a positive amount, a sender's wallet of the user and the currency
-- that the command names, and another id for its receiver than the sender's.
pub validate_transfer-IsSender :
    (find_user : Reference → Option ℕ) (db : LedgerDb) (m : Moments) (after : LedgerDb)
    (wallet_id event_id : ℕ) (c : ValidateCommand) {receiver_wallet_id : ℕ} {db' : LedgerDb}
    → validate_transfer find_user db m after wallet_id event_id c ≡ ok (receiver_wallet_id, db')
    → (sender : Wallet) × (a : ℤ) × IsSender db c sender a
      × (receiver_wallet_id ≢ c.sender_wallet_id)
unfolding validate_transfer
validate_transfer-IsSender find_user db m after wallet_id event_id c {receiver_wallet_id} h0 =
    let (a, parsed, h1) = >>=-eq-ok (to_positive_minor_units c.amount) _ h0 in
    let (_, _, h2) = >>=-eq-ok (check_destination c.destination_amount) _ h1 in
    let (sender, found, h3) =
      >>=-eq-ok (or_throw (find_validated_sender db c) (not_found sender_missing)) _ h2 in
    let (r, _, h4) =
      >>=-eq-ok (find_validated_receiver find_user db m after wallet_id event_id c) _ h3 in
    let (_, differ, h5) =
      >>=-eq-ok (ensure (not (r.0.id == sender.id)) (bad_request same_wallet)) _ h4 in
    let there = or_throw-some (find_validated_sender db c) (not_found sender_missing) found in
    let (id, owner, currency) = sender-facts db c there in
    let same : r.0.id ≡ receiver_wallet_id = ap (λ p. p.0) (ok-injective h5) in
    let ne = differ-ne r.0.id sender.id (bad_request same_wallet) differ in
    (
      sender,
      a,
      record {
        found = there;
        same_id = id;
        same_owner = owner;
        same_currency = currency;
        parsed = parsed;
        positive = to_positive_minor_units-positive c.amount parsed;
      },
      λ e. ne (same ∙ e ∙ sym id),
    )
