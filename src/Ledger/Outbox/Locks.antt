-- ===== src/Ledger/Outbox/Locks.antt =====
-- Every lock that a batch takes is given back, whatever the publisher answers.
use p2p_ledger_starter.Ledger.Tables.{OutboxMessage}
use p2p_ledger_starter.Ledger.Outbox.{has_id, is_held}
use p2p_ledger_starter.Common.{All, ℕ, ◌≡◌, Bool, true, ◌||◌, not, List}

abbrev pub is_free : ℕ → OutboxMessage → Bool
is_free lock_id m = not (is_held m.lock_id lock_id)

-- Whether a row is held under the lock, its message is still to be published.
abbrev AreHeldFor : ℕ → List OutboxMessage → List OutboxMessage → Type 0
AreHeldFor lock_id ms table = All (λ n. (has_id n.event_id ms || is_free lock_id n) ≡ true) table
