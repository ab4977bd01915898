-- ===== src/Ledger/Wallets/Commands.antt =====
-- wallets/wallets.service.ts: deposits, withdrawals and holds, one attempt at a time and with retries.
-- An attempt reads the wallet and its history from `seen`, its append reads the latest rows from `mid`,
-- and it writes to `db`: three moments of the same database, later ones with what others committed.
use p2p_ledger_starter.Common.{
  ℕ, Bool, ◌&&◌, Option, none, some, List, not, Result, ok, err, ◌>>=◌, ◌>>◌, or_throw,
  if◌then◌else◌,
}
use p2p_ledger_starter.Common.Int.{ℤ}
use p2p_ledger_starter.Common.Dict.{contains}
use p2p_ledger_starter.Ledger.Fault.{
  Fault, insufficient_funds, hold_not_found, hold_conflict, hold_already_consumed,
  hold_already_released, bad_request, not_found, wallet_missing, hold_amount_required,
}
use p2p_ledger_starter.Ledger.Event.{EventData, StoredEvent}
use p2p_ledger_starter.Ledger.Tables.{Wallet, LedgerDb}
use p2p_ledger_starter.Ledger.Transaction.{Rounded}
use p2p_ledger_starter.Ledger.Aggregate.{
  WalletAggregate, deposit, withdraw, place_hold, release_hold, consume_hold,
}
use p2p_ledger_starter.Ledger.Aggregate.Replay.{apply}
use p2p_ledger_starter.Ledger.Wallets.{
  WalletView, to_view, to_positive_minor_units, find_wallet, assert_aggregate_identity,
  load_aggregate, append_event, enqueue_wallet_event, projection_from_aggregate, project,
  is_version_error, with_retries, max_concurrency_retries,
}

-- Appending a decided event, its outbox message, and the projection of the wallet after it.
unfoldable pub commit_event :
    Wallet
    → WalletAggregate
    → EventData
    → List StoredEvent
    → LedgerDb
    → Result Fault (WalletView × LedgerDb)
commit_event wallet aggregate event mid db = do
  (stored, db₁) ← append_event wallet.id aggregate.version event mid db
  db₂ ← enqueue_wallet_event stored wallet db₁
  updated ← apply aggregate stored
  (projection, db₃) ← project updated db₂
  view ← to_view wallet projection
  ok (view, db₃)

pub data MoneyOperation : Type 0 where
  deposit_money withdraw_money : MoneyOperation

abbrev pub decide_money : MoneyOperation → WalletAggregate → ℤ → ℕ → ℕ → Result Fault EventData
decide_money deposit_money = deposit
decide_money withdraw_money = withdraw

-- The `catch` around the decision.
abbrev pub money_fault : Fault → Fault
money_fault insufficient_funds = bad_request insufficient_funds
money_fault e = e

abbrev pub catch {ℓ} : {A : Type ℓ} → (Fault → Fault) → Result Fault A → Result Fault A
catch handler (ok a) = ok a
catch handler (err e) = err (handler e)

unfoldable pub execute_money_command_attempt :
    LedgerDb
    → List StoredEvent
    → LedgerDb
    → ℕ
    → ℕ
    → ℤ
    → MoneyOperation
    → ℕ
    → ℕ
    → Result Fault (WalletView × LedgerDb)
execute_money_command_attempt seen mid db wallet_id owner_id amount operation event_id
      transaction_id =
    do
      wallet ← or_throw (find_wallet seen wallet_id owner_id) (not_found wallet_missing)
      aggregate ← load_aggregate seen wallet_id
      assert_aggregate_identity wallet aggregate
      event ← catch money_fault (decide_money operation aggregate amount event_id transaction_id)
      commit_event wallet aggregate event mid db

-- The three moments of an attempt.
pub record Moments : Type 0 where
  pub seen : LedgerDb
  pub mid : List StoredEvent
  pub db : LedgerDb

-- `deposit` and `withdraw`; `moments n` is the database that the n-th attempt meets.
unfoldable pub execute_money_command :
    (ℕ → Moments) → ℕ → ℕ → Rounded → MoneyOperation → ℕ → ℕ → Result Fault (WalletView × LedgerDb)
execute_money_command moments wallet_id owner_id amount operation event_id transaction_id = do
  a ← to_positive_minor_units amount
  with_retries is_version_error
      (λ n.
        execute_money_command_attempt (moments n).seen (moments n).mid (moments n).db wallet_id
          owner_id a operation event_id transaction_id)
      max_concurrency_retries 1

pub data HoldOperation : Type 0 where
  place : Option ℤ → HoldOperation
  release : Bool → HoldOperation
  consume : HoldOperation

-- `place` carries `amountMinor`, `release` the flag `allowMissingRelease`.
abbrev pub decide_hold :
    HoldOperation → WalletAggregate → ℕ → ℕ → ℕ → Result Fault (Option EventData)
decide_hold (place none) w hold_id event_id transaction_id = err hold_amount_required
decide_hold (place (some a)) w hold_id event_id transaction_id = place_hold w hold_id a event_id
decide_hold (release allow_missing) w hold_id event_id transaction_id =
    if allow_missing && not (contains hold_id w.holds)
    then ok none
    else release_hold w hold_id event_id
decide_hold consume w hold_id event_id transaction_id =
    consume_hold w hold_id event_id transaction_id

-- `throwHoldDomainError`: `INVALID_HOLD_AMOUNT` does not start with `HOLD_`, and passes through.
abbrev pub hold_domain_fault : Fault → Fault
hold_domain_fault insufficient_funds = bad_request insufficient_funds
hold_domain_fault hold_not_found = not_found hold_not_found
hold_domain_fault hold_conflict = bad_request hold_conflict
hold_domain_fault hold_already_consumed = bad_request hold_already_consumed
hold_domain_fault hold_already_released = bad_request hold_already_released
hold_domain_fault e = e

-- With nothing to do the view is made of the aggregate, and nothing is written.
abbrev pub commit_decision :
    Wallet
    → WalletAggregate
    → List StoredEvent
    → LedgerDb
    → Option EventData
    → Result Fault (WalletView × LedgerDb)
commit_decision wallet aggregate mid db none = do
  view ← to_view wallet (projection_from_aggregate aggregate)
  ok (view, db)
commit_decision wallet aggregate mid db (some event) = commit_event wallet aggregate event mid db

unfoldable pub execute_hold_command_attempt :
    LedgerDb
    → List StoredEvent
    → LedgerDb
    → ℕ
    → ℕ
    → ℕ
    → HoldOperation
    → ℕ
    → ℕ
    → Result Fault (WalletView × LedgerDb)
execute_hold_command_attempt seen mid db wallet_id owner_id hold_id operation event_id
      transaction_id =
    do
      wallet ← or_throw (find_wallet seen wallet_id owner_id) (not_found wallet_missing)
      aggregate ← load_aggregate seen wallet_id
      assert_aggregate_identity wallet aggregate
      decision ←
          catch hold_domain_fault (decide_hold operation aggregate hold_id event_id transaction_id)
      commit_decision wallet aggregate mid db decision

unfoldable pub execute_hold_command :
    (ℕ → Moments) → ℕ → ℕ → ℕ → HoldOperation → ℕ → ℕ → Result Fault (WalletView × LedgerDb)
execute_hold_command moments wallet_id owner_id hold_id operation event_id transaction_id =
    with_retries is_version_error
      (λ n.
        execute_hold_command_attempt (moments n).seen (moments n).mid (moments n).db wallet_id
          owner_id hold_id operation event_id transaction_id)
      max_concurrency_retries 1
