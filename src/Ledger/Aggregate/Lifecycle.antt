-- ===== src/Ledger/Aggregate/Lifecycle.antt =====
-- A hold that was released or consumed stays as it is: no later event of the wallet touches it.
use p2p_ledger_starter.Common.{ℕ, ◌≡◌, ◌≢◌, some, List, [], ◌∷◌, arith, ok, >>=-eq-ok, ◌<◌}
use p2p_ledger_starter.Common.Dict.{lookup, lookup-insert}
use p2p_ledger_starter.Ledger.Event.{StoredEvent}
use p2p_ledger_starter.Ledger.Aggregate.{HoldState, active, WalletAggregate}
use p2p_ledger_starter.Ledger.Aggregate.Replay.{apply, replay_from}
use p2p_ledger_starter.Ledger.Aggregate.Step.{
  Step, created, moved, placed, freed, spent, apply-Step,
}
use p2p_ledger_starter.Ledger.Aggregate.Soundness.{apply-version}

Step-keeps_hold :
    {w w' : WalletAggregate} {n : ℕ}
    → Step w n w'
    → (k : ℕ) (hold : HoldState) → 0 < w.version
    → lookup k w.holds ≡ some hold
    → hold.status ≢ active
    → lookup k w'.holds ≡ some hold
Step-keeps_hold (created o c z e) k hold pv f s = absurd (omega arith)
Step-keeps_hold (moved a c e) k hold pv f s = rw e f
Step-keeps_hold {w} (placed j a n p c e) k hold pv f s =
    rw (e, lookup-insert j k _ w.holds) (ground arith)
Step-keeps_hold {w} (freed j old g a e) k hold pv f s =
    rw (e, lookup-insert j k _ w.holds) (ground arith)
Step-keeps_hold {w} (spent j old g a e) k hold pv f s =
    rw (e, lookup-insert j k _ w.holds) (ground arith)

-- From a wallet with an event on, a hold that is not active any more keeps its amount and status
-- through every further event that the replay accepts.
pub replay_from_keeps_hold :
    (w : WalletAggregate) (es : List StoredEvent) {w' : WalletAggregate} (k : ℕ) (hold : HoldState)
    → replay_from w es ≡ ok w'
    → 0 < w.version
    → lookup k w.holds ≡ some hold
    → hold.status ≢ active
    → lookup k w'.holds ≡ some hold
unfolding replay_from
replay_from_keeps_hold w [] k hold h pv f s = ground arith
replay_from_keeps_hold w (e ∷ es) k hold h pv f s =
    let (next, one, rest) = >>=-eq-ok (apply w e) _ h in
    replay_from_keeps_hold next es k hold rest (omega (arith, apply-version w e one))
      (Step-keeps_hold (apply-Step w e one) k hold pv f s) s
