-- ===== src/Payments/LedgerGateway.antt =====
-- apps/payments-service/src/transfers/ledger.gateway.ts: what the saga asks of the ledger. The ledger
-- answers as it likes, also depending on all that was asked before.
use p2p_ledger_starter.Common.{ℕ, Bool, List, Result}
use p2p_ledger_starter.Payments.Tables.{Transfer, FailureCode, FailureMessage}

pub data LedgerFailureKind : Type 0 where
  retryable terminal : LedgerFailureKind

pub record LedgerCommandError : Type 0 where
  pub message : FailureMessage
  pub kind : LedgerFailureKind
  pub code : FailureCode
  pub ambiguous : Bool

pub data ReleaseAnswer : Type 0 where
  released already_settled : ReleaseAnswer

-- A call that was made for the transfer of an id, and its answer.
pub data Exchange : Type 0 where
  validate_asked : ℕ → Result LedgerCommandError ℕ → Exchange
  hold_asked : ℕ → Result LedgerCommandError (Unit {0}) → Exchange
  settle_asked : ℕ → Result LedgerCommandError (Unit {0}) → Exchange
  release_asked : ℕ → Result LedgerCommandError ReleaseAnswer → Exchange

pub record LedgerGateway : Type 0 where
  pub validate : List Exchange → Transfer → Result LedgerCommandError ℕ
  pub place_hold : List Exchange → Transfer → Result LedgerCommandError (Unit {0})
  pub settle : List Exchange → Transfer → Result LedgerCommandError (Unit {0})
  pub release : List Exchange → Transfer → Result LedgerCommandError ReleaseAnswer
