-- ===== src/Ledger/Wallets.antt =====
-- wallets/wallets.service.ts, the parts that the commands share: what is read, the event that is
-- appended, its outbox message, and the balance projection.
pub mod Commands
pub mod Commit
pub mod Effect
pub mod Money
pub mod Retries
pub mod Decided
pub mod HoldEffect
pub mod Accounts
pub mod Projection
pub mod Settlement
use p2p_ledger_starter.Common.{
  ℕ, zero, suc, ◌+◌, Bool, true, false, ◌&&◌, ◌||◌, Option, none, some, List, [], ◌∷◌, ◌++◌, ltb,
  leb, ◌==◌, not, if◌then◌else◌, find, any, Result, ok, err, ◌>>=◌, ◌>>◌, ensure, or_throw,
}
use p2p_ledger_starter.Common.Int.{ℤ, pos, negsuc, ◌-ℤ◌, ltb_ℤ, leb_ℤ, eqb_ℤ}
use p2p_ledger_starter.Common.Decimal.{Text}
use p2p_ledger_starter.Common.Dict.{lookup, insert}
use p2p_ledger_starter.Ledger.Fault.{
  Fault, expected_stream_version, bad_request, not_found, non_positive_amount, wallet_missing,
  identity_mismatch, projection_missing, retries_exhausted, no_row, unique_violation,
  projection_check, value_out_of_range,
}
use p2p_ledger_starter.Ledger.Event.{EventData, StoredEvent}
use p2p_ledger_starter.Ledger.Tables.{Wallet, WalletBalanceProjection, OutboxMessage, LedgerDb}
use p2p_ledger_starter.Ledger.Transaction.{
  parse_minor_units, minor_text, format_minor_units, Rounded, amount_to_minor_units,
}
use p2p_ledger_starter.Ledger.Aggregate.{WalletAggregate, held_minor, available_minor}
use p2p_ledger_starter.Ledger.Aggregate.Replay.{rehydrate}
use p2p_ledger_starter.Ledger.EventStore.{append_within_transaction, load_stream}

pub record WalletView : Type 0 where
  pub wallet : Wallet
  pub balance : Text
  pub held : Text
  pub available : Text

unfoldable pub to_view : Wallet → WalletBalanceProjection → Result Fault WalletView
to_view wallet projection = do
  balance ← parse_minor_units projection.balance_minor
  held ← parse_minor_units projection.held_minor
  available ← parse_minor_units projection.available_minor
  ok (record {
    wallet = wallet;
    balance = format_minor_units balance;
    held = format_minor_units held;
    available = format_minor_units available;
  })

-- `amountToMinorUnits` in its `try`, and the test that the amount is positive.
unfoldable pub to_positive_minor_units : Rounded → Result Fault ℤ
to_positive_minor_units amount = elim (amount_to_minor_units amount) [
  | err e ↦ err (bad_request e)
  | ok a ↦ if leb_ℤ a (pos 0) then err (bad_request non_positive_amount) else ok a
]

-- `findOne({ where: { id, ownerId } })`
unfoldable pub find_wallet : LedgerDb → ℕ → ℕ → Option Wallet
find_wallet db wallet_id owner_id =
    find (λ w. w.id == wallet_id && w.owner_id == owner_id) db.wallets

abbrev pub is_same : Option ℕ → ℕ → Bool
is_same none b = false
is_same (some a) b = a == b

unfoldable pub assert_aggregate_identity : Wallet → WalletAggregate → Result Fault (Unit {0})
assert_aggregate_identity wallet aggregate =
    ensure
      (is_same aggregate.owner_id wallet.owner_id && is_same aggregate.currency wallet.currency)
      identity_mismatch

-- `loadStream(walletId, 1, manager)` and `rehydrate`
unfoldable pub load_aggregate : LedgerDb → ℕ → Result Fault WalletAggregate
load_aggregate db wallet_id = do
  history ← load_stream wallet_id 1 db.events
  rehydrate wallet_id history

-- The text `Wallet` of `aggregateType: 'Wallet'`.
abbrev pub wallet_aggregate_type : ℕ
wallet_aggregate_type = 1

abbrev pub first_row : List StoredEvent → Option StoredEvent
first_row [] = none
first_row (e ∷ _) = some e

-- `const [stored] = await this.eventStore.appendWithinTransaction(…)` with one event; `mid` is what the
-- append reads as the latest rows.
unfoldable pub append_event :
    ℕ → ℕ → EventData → List StoredEvent → LedgerDb → Result Fault (StoredEvent × LedgerDb)
append_event stream_id expected_version event mid db = do
  (table, rows) ←
      append_within_transaction
        (record {
          stream_id = stream_id;
          aggregate_type = wallet_aggregate_type;
          expected_version = expected_version;
          events = event ∷ [];
        })
        db.now mid db.events
  stored ← or_throw (first_row rows) no_row
  ok (stored, record db { events = table })

-- `outbox.enqueueWalletEvents([stored], wallet, manager)`, under the table's primary key.
unfoldable pub enqueue_wallet_event : StoredEvent → Wallet → LedgerDb → Result Fault LedgerDb
enqueue_wallet_event event wallet db = do
  ensure (not (any (λ m. m.event_id == event.event_id) db.outbox)) unique_violation
  ok (record db {
    outbox =
        db.outbox
        ++ (record {
          event_id = event.event_id;
          routing_key = event.event_type;
          envelope = record {
            event = event;
            owner_id = wallet.owner_id;
            currency = wallet.currency;
          };
          attempts = 0;
          available_at = event.created_at;
          locked_until = none;
          lock_id = none;
          published_at = none;
          last_error = none;
          created_at = db.now;
        }
            ∷ []);
  })

unfoldable pub projection_from_aggregate : WalletAggregate → WalletBalanceProjection
projection_from_aggregate aggregate = record {
  wallet_id = aggregate.id;
  balance_minor = minor_text aggregate.balance_minor;
  held_minor = minor_text (held_minor aggregate);
  available_minor = minor_text (available_minor aggregate);
  stream_version = aggregate.version;
}

-- The range of a `bigint` column and that of an `integer` column.
abbrev pub max_bigint : ℕ
max_bigint = 9223372036854775807

abbrev pub max_integer : ℕ
max_integer = 2147483647

abbrev pub fits_bigint : ℤ → Bool
fits_bigint a = leb_ℤ (negsuc max_bigint) a && leb_ℤ a (pos max_bigint)

-- The columns and the checks of the table `wallet_balance_projection`.
unfoldable pub check_projection : WalletBalanceProjection → Result Fault (Unit {0})
check_projection p = do
  balance ← parse_minor_units p.balance_minor
  held ← parse_minor_units p.held_minor
  available ← parse_minor_units p.available_minor
  ensure
      (fits_bigint balance
        && (fits_bigint held && (fits_bigint available && leb p.stream_version max_integer)))
      value_out_of_range
  ensure
      (leb_ℤ (pos 0) balance
        && (leb_ℤ (pos 0) held
            && (leb_ℤ (pos 0) available
                && (eqb_ℤ available (balance -ℤ held) && leb 1 p.stream_version))))
      projection_check

unfoldable pub project :
    WalletAggregate → LedgerDb → Result Fault (WalletBalanceProjection × LedgerDb)
project aggregate db = do
  let projection = projection_from_aggregate aggregate
  check_projection projection
  ok (projection, record db { balances = insert aggregate.id projection db.balances })

abbrev pub max_concurrency_retries : ℕ
max_concurrency_retries = 25

abbrev pub is_version_error : Fault → Bool
is_version_error (expected_stream_version _ _ _) = true
is_version_error _ = false

-- `for (let attempt = 1; attempt <= MAX_CONCURRENCY_RETRIES; attempt += 1)` around a transaction:
-- `run n` is what the n-th attempt does, `retryable` the test of its `catch`.
unfoldable pub with_retries :
    {A : Type 0} → (Fault → Bool) → (ℕ → Result Fault A) → ℕ → ℕ → Result Fault A
with_retries retryable run zero attempt = err retries_exhausted
with_retries retryable run (suc left) attempt =
    let again = with_retries retryable run left (attempt + 1) in
    elim (run attempt) [
      | ok a ↦ ok a
      | err e ↦ if retryable e && ltb attempt max_concurrency_retries then again else err e
    ]

unfoldable pub rebuild_balance_projection :
    ℕ → LedgerDb → Result Fault (WalletBalanceProjection × LedgerDb)
rebuild_balance_projection wallet_id db = do
  wallet ← or_throw (find (λ w. w.id == wallet_id) db.wallets) (not_found wallet_missing)
  aggregate ← load_aggregate db wallet_id
  assert_aggregate_identity wallet aggregate
  project aggregate db

unfoldable pub get_projection : LedgerDb → ℕ → Result Fault WalletBalanceProjection
get_projection db wallet_id = or_throw (lookup wallet_id db.balances) projection_missing

unfoldable pub get_by_id : LedgerDb → ℕ → ℕ → Result Fault WalletView
get_by_id db wallet_id owner_id = do
  wallet ← or_throw (find_wallet db wallet_id owner_id) (not_found wallet_missing)
  projection ← get_projection db wallet.id
  to_view wallet projection
