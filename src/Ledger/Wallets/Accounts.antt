-- ===== src/Ledger/Wallets/Accounts.antt =====
-- wallets.service.ts: opening a wallet, validating a transfer, and the hold of a transfer.
use p2p_ledger_starter.Ledger.Wallets.Commands.{Moments, execute_hold_command, release, place}
use p2p_ledger_starter.Ledger.Wallets.{
  append_event, check_projection, WalletView, to_view, to_positive_minor_units,
  enqueue_wallet_event,
}
use p2p_ledger_starter.Ledger.Transaction.{Rounded}
use p2p_ledger_starter.Ledger.Tables.{WalletBalanceProjection, Wallet, LedgerDb}
use p2p_ledger_starter.Ledger.Fault.{
  no_row, Fault, unique_violation, wallet_not_persistent, projection_missing,
}
use p2p_ledger_starter.Ledger.Event.{StoredEvent}
use p2p_ledger_starter.Ledger.Aggregate.{created_event, available_minor, held_minor}
use p2p_ledger_starter.Common.{
  find, any, ◌>>=◌, or_throw, ok, err, ensure, Result, ◌==◌, is_some, if◌then◌else◌, ℕ, Bool, true,
  false, ◌&&◌, not, Option, none, some, List, [], ◌∷◌, ◌++◌, ◌>>◌,
}
use p2p_ledger_starter.Common.Dict.{lookup, insert, contains}
pub mod Opening
pub mod Transfers
pub mod Shown
pub mod Receivers

-- `findOne({ where: { ownerId, currency } })`
abbrev pub find_owned : LedgerDb → ℕ → ℕ → Option Wallet
find_owned db owner_id currency =
    find (λ w. w.owner_id == owner_id && w.currency == currency) db.wallets

-- `wallets.save`, under the primary key and the unique index of an owner's currency.
unfoldable pub save_wallet : Wallet → LedgerDb → Result Fault LedgerDb
save_wallet wallet db = do
  ensure (not (any (λ w. w.id == wallet.id) db.wallets)) unique_violation
  ensure (not (is_some (find_owned db wallet.owner_id wallet.currency))) unique_violation
  ok (record db { wallets = db.wallets ++ (wallet ∷ []) })

abbrev pub opening_projection : ℕ → ℕ → WalletBalanceProjection
opening_projection wallet_id stream_version = record {
  wallet_id = wallet_id;
  balance_minor = b'0' ∷ [];
  held_minor = b'0' ∷ [];
  available_minor = b'0' ∷ [];
  stream_version = stream_version;
}

-- `balances.save`, under the checks of the table.
unfoldable pub save_projection : WalletBalanceProjection → LedgerDb → Result Fault LedgerDb
save_projection projection db = do
  check_projection projection
  ok (record db { balances = insert projection.wallet_id projection db.balances })

unfoldable pub open_wallet :
    Wallet → ℕ → List StoredEvent → LedgerDb → Result Fault (WalletView × LedgerDb)
open_wallet wallet event_id mid db = do
  db₁ ← save_wallet wallet db
  (created, db₂) ←
      append_event wallet.id 0 (created_event event_id wallet.owner_id wallet.currency) mid db₁
  db₃ ← enqueue_wallet_event created wallet db₂
  let projection = opening_projection wallet.id created.stream_version
  db₄ ← save_projection projection db₃
  view ← to_view wallet projection
  ok (view, db₄)

-- The view of a wallet that is there.
unfoldable pub view_wallet : LedgerDb → Fault → Wallet → Result Fault WalletView
view_wallet db missing wallet = do
  projection ← or_throw (lookup wallet.id db.balances) missing
  to_view wallet projection

-- The transaction of `getOrCreateForUser`; the id of the new wallet is the database's.
unfoldable pub create_in_transaction :
    Moments → ℕ → ℕ → ℕ → ℕ → Result Fault (WalletView × LedgerDb)
create_in_transaction m user_id currency wallet_id event_id =
    elim (find_owned m.seen user_id currency) [
      | some raced ↦ view_wallet m.seen no_row raced >>= λ view. ok (view, m.db)
      | none ↦
          open_wallet (record { id = wallet_id; owner_id = user_id; currency = currency }) event_id
            m.mid m.db
    ]

abbrev pub is_unique_violation : Fault → Bool
is_unique_violation unique_violation = true
is_unique_violation _ = false

-- The `catch`: who lost the race reads the wallet of the winner.
unfoldable pub read_winner : LedgerDb → ℕ → ℕ → Result Fault (WalletView × LedgerDb)
read_winner after user_id currency = do
  wallet ← or_throw (find_owned after user_id currency) wallet_not_persistent
  view ← view_wallet after projection_missing wallet
  ok (view, after)

-- `before` is read first, `after` behind a transaction that failed.
unfoldable pub get_or_create_for_user :
    LedgerDb → Moments → LedgerDb → ℕ → ℕ → ℕ → ℕ → Result Fault (WalletView × LedgerDb)
get_or_create_for_user before m after user_id currency wallet_id event_id =
    elim (find_owned before user_id currency) [
      | some existing ↦ view_wallet before projection_missing existing >>= λ view. ok (view, m.db)
      | none ↦ elim (create_in_transaction m user_id currency wallet_id event_id) [
        | ok created ↦ ok created
        | err e ↦ if is_unique_violation e then read_winner after user_id currency else err e
      ]
    ]

pub data ReleaseOutcome : Type 0 where
  hold_is_released already_settled : ReleaseOutcome

-- `releaseTransferHold`: the receipt is looked up in `before`, and in `after` when the release failed.
unfoldable pub release_transfer_hold :
    LedgerDb
    → (ℕ → Moments)
    → LedgerDb
    → ℕ
    → ℕ
    → ℕ
    → ℕ
    → ℕ
    → Result Fault (ReleaseOutcome × LedgerDb)
release_transfer_hold before moments after transfer_id sender_wallet_id sender_user_id event_id
      transaction_id =
    if contains transfer_id before.settlements
    then ok (already_settled, before)
    else elim (execute_hold_command moments sender_wallet_id sender_user_id transfer_id
        (release true) event_id transaction_id) [
          | ok answer ↦ ok (hold_is_released, answer.1)
          | err e ↦
              if contains transfer_id after.settlements then ok (already_settled, after) else err e
        ]

-- `placeHold` and `placeTransferHold`
unfoldable pub place_transfer_hold :
    (ℕ → Moments) → ℕ → ℕ → ℕ → Rounded → ℕ → ℕ → Result Fault (WalletView × LedgerDb)
place_transfer_hold moments transfer_id sender_wallet_id sender_user_id amount event_id
      transaction_id =
    do
      a ← to_positive_minor_units amount
      execute_hold_command moments sender_wallet_id sender_user_id transfer_id (place (some a))
          event_id transaction_id
