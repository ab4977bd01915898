-- ===== src/Ledger/Wallets/Settlement.antt =====
-- wallets.service.ts: settling a transfer between two wallets under a receipt, and releasing its hold.
-- The writes of an attempt are one moment `db`; the reads of its transaction are from `seen`, the reads
-- of the two appends from `mid₁` and `mid₂`.
pub mod Checks
pub mod Settled
pub mod Receipts
use p2p_ledger_starter.Ledger.Wallets.Commands.{hold_domain_fault, catch}
use p2p_ledger_starter.Ledger.Wallets.{
  to_view, max_concurrency_retries, WalletView, load_aggregate, project, assert_aggregate_identity,
  enqueue_wallet_event, to_positive_minor_units, append_event, with_retries,
}
use p2p_ledger_starter.Ledger.Transaction.{minor_text, Rounded, parse_minor_units}
use p2p_ledger_starter.Ledger.Tables.{
  WalletBalanceProjection, Wallet, LedgerDb, LedgerTransferSettlement,
}
use p2p_ledger_starter.Ledger.Fault.{
  not_found, transfer_wallet_missing, settlement_differs, no_row, transfer_hold_missing,
  settlement_check, same_wallet, unique_violation, Fault, conflict, bad_request,
  transfer_amount_differs, consumed_without_receipt, expected_stream_version,
}
use p2p_ledger_starter.Ledger.EventStore.{or_default}
use p2p_ledger_starter.Ledger.Event.{StoredEvent, EventData}
use p2p_ledger_starter.Ledger.Aggregate.Replay.{apply}
use p2p_ledger_starter.Ledger.Aggregate.{WalletAggregate, consume_hold, deposit}
use p2p_ledger_starter.Common.{
  ◌>>◌, find, ◌>>=◌, or_throw, Result, ok, ensure, ◌==◌, ℕ, Bool, true, false, ◌&&◌, not, Option,
  none, some, List,
}
use p2p_ledger_starter.Common.Int.{eqb_ℤ, ltb_ℤ, ℤ, pos}
use p2p_ledger_starter.Common.Dict.{contains, insert, lookup}
use p2p_ledger_starter.Common.Decimal.{text_eq}

-- `SettleInternalTransferDto`
pub record SettleCommand : Type 0 where
  pub sender_wallet_id : ℕ
  pub sender_user_id : ℕ
  pub receiver_wallet_id : ℕ
  pub amount : Rounded
  pub currency : ℕ
  pub target_currency : Option ℕ
  pub destination_amount : Option Rounded

-- The command with its amounts in minor units and its defaults filled in.
pub record SettleRequest : Type 0 where
  pub transfer_id : ℕ
  pub command : SettleCommand
  pub amount_minor : ℤ
  pub destination_amount_minor : ℤ
  pub destination_currency : ℕ

abbrev pub or_rounded : Option Rounded → Rounded → Rounded
or_rounded none d = d
or_rounded (some a) d = a

unfoldable pub settle_request : ℕ → SettleCommand → Result Fault SettleRequest
settle_request transfer_id command = do
  amount ← to_positive_minor_units command.amount
  destination ← to_positive_minor_units (or_rounded command.destination_amount command.amount)
  ok (record {
    transfer_id = transfer_id;
    command = command;
    amount_minor = amount;
    destination_amount_minor = destination;
    destination_currency = or_default command.target_currency command.currency;
  })

pub record SettledViews : Type 0 where
  pub sender : WalletView
  pub receiver : WalletView

abbrev pub receipt_of : SettleRequest → LedgerTransferSettlement
receipt_of r = record {
  transfer_id = r.transfer_id;
  sender_wallet_id = r.command.sender_wallet_id;
  receiver_wallet_id = r.command.receiver_wallet_id;
  amount_minor = minor_text r.amount_minor;
  currency = r.command.currency;
  destination_amount_minor = minor_text r.destination_amount_minor;
  destination_currency = r.destination_currency;
}

unfoldable pub assert_settlement_matches :
    LedgerTransferSettlement → SettleRequest → Result Fault (Unit {0})
assert_settlement_matches s r =
    ensure
      (s.sender_wallet_id == r.command.sender_wallet_id
        && (s.receiver_wallet_id == r.command.receiver_wallet_id
            && (text_eq s.amount_minor (minor_text r.amount_minor)
                && (s.currency == r.command.currency
                    && (text_eq s.destination_amount_minor (minor_text r.destination_amount_minor)
                        && s.destination_currency == r.destination_currency)))))
      (conflict settlement_differs)

-- `findOneByOrFail` on the wallets and on the projections.
unfoldable pub read_wallet_view : LedgerDb → ℕ → Result Fault WalletView
read_wallet_view db wallet_id = do
  wallet ← or_throw (find (λ w. w.id == wallet_id) db.wallets) no_row
  projection ← or_throw (lookup wallet_id db.balances) no_row
  to_view wallet projection

unfoldable pub read_settlement_wallets :
    LedgerDb → LedgerTransferSettlement → Result Fault SettledViews
read_settlement_wallets db s = do
  sender ← read_wallet_view db s.sender_wallet_id
  receiver ← read_wallet_view db s.receiver_wallet_id
  ok (record { sender = sender; receiver = receiver })

-- The answer to a transfer that has its receipt.
unfoldable pub replay_receipt :
    LedgerDb → LedgerTransferSettlement → SettleRequest → Result Fault SettledViews
replay_receipt db s r = do assert_settlement_matches s r; read_settlement_wallets db s

-- What a settlement has decided before it writes.
pub record Prepared : Type 0 where
  pub sender : Wallet
  pub receiver : Wallet
  pub sender_aggregate : WalletAggregate
  pub receiver_aggregate : WalletAggregate
  pub debit_event : EventData
  pub credit_event : EventData

abbrev pub find_sender : LedgerDb → SettleRequest → Option Wallet
find_sender db r =
    find
      (λ w.
        w.id == r.command.sender_wallet_id
        && (w.owner_id == r.command.sender_user_id && w.currency == r.command.currency))
      db.wallets

abbrev pub find_receiver : LedgerDb → SettleRequest → Option Wallet
find_receiver db r =
    find (λ w. w.id == r.command.receiver_wallet_id && w.currency == r.destination_currency)
      db.wallets

-- `debit_id` and `credit_id` are the two `randomUUID()`.
unfoldable pub prepare_settlement : LedgerDb → SettleRequest → ℕ → ℕ → Result Fault Prepared
prepare_settlement seen r debit_id credit_id = do
  sender ← or_throw (find_sender seen r) (not_found transfer_wallet_missing)
  receiver ← or_throw (find_receiver seen r) (not_found transfer_wallet_missing)
  ensure (not (sender.id == receiver.id)) (bad_request same_wallet)
  sender_aggregate ← load_aggregate seen sender.id
  receiver_aggregate ← load_aggregate seen receiver.id
  assert_aggregate_identity sender sender_aggregate
  assert_aggregate_identity receiver receiver_aggregate
  hold ← or_throw (lookup r.transfer_id sender_aggregate.holds) (not_found transfer_hold_missing)
  ensure (eqb_ℤ hold.amount_minor r.amount_minor) (conflict transfer_amount_differs)
  decision ←
      catch hold_domain_fault (consume_hold sender_aggregate r.transfer_id debit_id r.transfer_id)
  debit_event ← or_throw decision (conflict consumed_without_receipt)
  credit_event ← deposit receiver_aggregate r.destination_amount_minor credit_id r.transfer_id
  ok (record {
    sender = sender;
    receiver = receiver;
    sender_aggregate = sender_aggregate;
    receiver_aggregate = receiver_aggregate;
    debit_event = debit_event;
    credit_event = credit_event;
  })

-- `receipts.insert`, under the primary key and the checks of `ledger_transfer_settlements`.
unfoldable pub insert_receipt : LedgerTransferSettlement → LedgerDb → Result Fault LedgerDb
insert_receipt s db = do
  ensure (not (contains s.transfer_id db.settlements)) unique_violation
  amount ← parse_minor_units s.amount_minor
  destination ← parse_minor_units s.destination_amount_minor
  ensure
      (ltb_ℤ (pos 0) amount
        && (ltb_ℤ (pos 0) destination && not (s.sender_wallet_id == s.receiver_wallet_id)))
      settlement_check
  ok (record db { settlements = insert s.transfer_id s db.settlements })

-- `project(manager, aggregate.apply(stored))`
unfoldable pub project_event :
    WalletAggregate → StoredEvent → LedgerDb → Result Fault (WalletBalanceProjection × LedgerDb)
project_event aggregate stored db = do updated ← apply aggregate stored; project updated db

unfoldable pub settled_views :
    Prepared → WalletBalanceProjection → WalletBalanceProjection → Result Fault SettledViews
settled_views p sender_projection receiver_projection = do
  sender_view ← to_view p.sender sender_projection
  receiver_view ← to_view p.receiver receiver_projection
  ok (record { sender = sender_view; receiver = receiver_view })

-- The receipt of a settlement between the wallets that were found.
abbrev pub written : Prepared → SettleRequest → LedgerTransferSettlement
written p r = record (receipt_of r) {
  sender_wallet_id = p.sender.id;
  receiver_wallet_id = p.receiver.id;
}

-- Behind the two appends: the messages, the projections and the receipt.
unfoldable pub finish_settlement :
    Prepared
    → SettleRequest
    → StoredEvent
    → StoredEvent
    → LedgerDb
    → Result Fault (SettledViews × LedgerDb)
finish_settlement p r stored_debit stored_credit db₂ = do
  db₃ ← enqueue_wallet_event stored_debit p.sender db₂
  db₄ ← enqueue_wallet_event stored_credit p.receiver db₃
  (sender_projection, db₅) ← project_event p.sender_aggregate stored_debit db₄
  (receiver_projection, db₆) ← project_event p.receiver_aggregate stored_credit db₅
  db₇ ← insert_receipt (written p r) db₆
  views ← settled_views p sender_projection receiver_projection
  ok (views, db₇)

unfoldable pub write_settlement :
    Prepared
    → SettleRequest
    → List StoredEvent
    → List StoredEvent
    → LedgerDb
    → Result Fault (SettledViews × LedgerDb)
write_settlement p r mid₁ mid₂ db = do
  (stored_debit, db₁) ← append_event p.sender.id p.sender_aggregate.version p.debit_event mid₁ db
  (stored_credit, db₂) ←
      append_event p.receiver.id p.receiver_aggregate.version p.credit_event mid₂ db₁
  finish_settlement p r stored_debit stored_credit db₂

-- The moments of an attempt: the receipt that is looked up before the transaction, the reads of the
-- transaction, those of its two appends, and the database that it writes to.
pub record SettleMoments : Type 0 where
  pub before : LedgerDb
  pub seen : LedgerDb
  pub mid₁ : List StoredEvent
  pub mid₂ : List StoredEvent
  pub db : LedgerDb

-- The callback of `dataSource.transaction`.
unfoldable pub settle_in_transaction :
    SettleMoments → SettleRequest → ℕ → ℕ → Result Fault (SettledViews × LedgerDb)
settle_in_transaction m r debit_id credit_id = elim (lookup r.transfer_id m.seen.settlements) [
  | some raced ↦ replay_receipt m.seen raced r >>= λ views. ok (views, m.db)
  | none ↦ prepare_settlement m.seen r debit_id credit_id >>= λ p.
      write_settlement p r m.mid₁ m.mid₂ m.db
]

unfoldable pub settle_attempt :
    SettleMoments → SettleRequest → ℕ → ℕ → Result Fault (SettledViews × LedgerDb)
settle_attempt m r debit_id credit_id = elim (lookup r.transfer_id m.before.settlements) [
  | some completed ↦ replay_receipt m.before completed r >>= λ views. ok (views, m.db)
  | none ↦ settle_in_transaction m r debit_id credit_id
]

abbrev pub is_settlement_race : Fault → Bool
is_settlement_race (expected_stream_version _ _ _) = true
is_settlement_race unique_violation = true
is_settlement_race _ = false

-- `ids n` are the two event ids that the n-th attempt draws.
unfoldable pub settle_transfer :
    (ℕ → SettleMoments) → (ℕ → ℕ × ℕ) → ℕ → SettleCommand → Result Fault (SettledViews × LedgerDb)
settle_transfer moments ids transfer_id command = do
  r ← settle_request transfer_id command
  with_retries is_settlement_race (λ n. settle_attempt (moments n) r (ids n).0 (ids n).1)
      max_concurrency_retries 1
