-- ===== src/Ledger/Wallets/HoldEffect.antt =====
-- wallets.service.ts, `executeHoldCommand`: what an attempt on a hold does.
use p2p_ledger_starter.Ledger.Wallets.Effect.{Committed}
use p2p_ledger_starter.Ledger.Tables.{LedgerDb}
use p2p_ledger_starter.Ledger.Wallets.Commands.{HoldOperation, consume, release, place}
use p2p_ledger_starter.Ledger.Event.{StoredEvent, EventData}
use p2p_ledger_starter.Ledger.Aggregate.Replay.{with_hold, apply}
use p2p_ledger_starter.Ledger.Aggregate.Holds.{after_consumption}
use p2p_ledger_starter.Ledger.Aggregate.Decisions.{Stores}
use p2p_ledger_starter.Ledger.Aggregate.{
  consumed, released, available_minor, HoldState, WalletAggregate, active,
}
use p2p_ledger_starter.Common.{true, ok, ℕ, ◌+◌, ◌≡◌, Bool, Option, none, some}
use p2p_ledger_starter.Common.Int.{◌≤ℤ◌, ℤ, pos}
use p2p_ledger_starter.Common.Dict.{lookup}

-- What a hold operation makes of a wallet: nothing, where it is done already, or the wallet behind its
-- event.
pub data HoldChange : ℕ → HoldOperation → WalletAggregate → Option WalletAggregate → Type 0 where
  held_before :
      (k : ℕ) (a : ℤ) (w : WalletAggregate) (hold : HoldState)
      → lookup k w.holds ≡ some hold
      → hold.amount_minor ≡ a
      → HoldChange k (place (some a)) w none
  never_held :
      (k : ℕ) (w : WalletAggregate) → lookup k w.holds ≡ none → HoldChange k (release true) w none
  freed_before :
      (k : ℕ) (allow_missing : Bool) (w : WalletAggregate) (hold : HoldState)
      → lookup k w.holds ≡ some hold
      → hold.status ≡ released
      → HoldChange k (release allow_missing) w none
  spent_before :
      (k : ℕ) (w : WalletAggregate) (hold : HoldState)
      → lookup k w.holds ≡ some hold
      → hold.status ≡ consumed
      → HoldChange k consume w none
  placed :
      (k : ℕ) (a : ℤ) (w : WalletAggregate)
      → lookup k w.holds ≡ none
      → pos 1 ≤ℤ a
      → a ≤ℤ available_minor w
      → HoldChange k
          (place (some a))
          w
          (some (with_hold w (w.version + 1) k (record { amount_minor = a; status = active })))
  freed :
      (k : ℕ) (allow_missing : Bool) (w : WalletAggregate) (hold : HoldState)
      → lookup k w.holds ≡ some hold
      → hold.status ≡ active
      → HoldChange k
          (release allow_missing)
          w
          (some (with_hold w (w.version + 1) k (record hold { status = released })))
  spent :
      (k : ℕ) (w : WalletAggregate) (hold : HoldState)
      → lookup k w.holds ≡ some hold
      → hold.status ≡ active
      → HoldChange k consume w (some (after_consumption w k hold))

-- The event of a decision does what the operation is to do.
pub record Decision (k : ℕ) (operation : HoldOperation) (w : WalletAggregate) (d : EventData)
    : Type 0 where
  pub after : WalletAggregate
  pub change : HoldChange k operation w (some after)
  pub effect : (e : StoredEvent) → Stores w d e → apply w e ≡ ok after

-- What is written: nothing, or the event that takes the wallet to its next state.
abbrev pub Written : ℕ → WalletAggregate → Option WalletAggregate → LedgerDb → LedgerDb → Type 0
Written wallet_id w none db db' = db' ≡ db
Written wallet_id w (some w') db db' = Committed wallet_id w w' db db'
