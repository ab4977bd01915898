-- ===== src/Examples/Outbox.antt =====
-- Runs of the outbox: a batch of two, of which the publisher refuses one.
use p2p_ledger_starter.Ledger.Tables.{OutboxMessage}
use p2p_ledger_starter.Ledger.Outbox.Claims.{rows_beside, IsClaimed, claim-IsClaimed}
use p2p_ledger_starter.Ledger.Outbox.{claim}
use p2p_ledger_starter.Ledger.Event.{money_deposited}
use p2p_ledger_starter.Examples.Data.{first_deposited}
use p2p_ledger_starter.Common.{
  IsIn, length, All, ◌==◌, if◌then◌else◌, ℕ, ◌≤◌, ◌≡◌, Bool, false, Option, none, some, List, [],
  ◌∷◌,
}

abbrev message : ℕ → Option ℕ → OutboxMessage
message event_id published_at = record {
  event_id = event_id;
  routing_key = money_deposited;
  envelope = record { event = first_deposited; owner_id = 10; currency = 840 };
  attempts = 0;
  available_at = 1000;
  locked_until = none;
  lock_id = none;
  published_at = published_at;
  last_error = none;
  created_at = 1000;
}

abbrev pending_table : List OutboxMessage
pending_table = message 902 none ∷ message 903 (some 1500) ∷ message 904 none ∷ []

abbrev none_skipped : ℕ → Bool
none_skipped event_id = false

-- Message 904 is refused with error 5.
abbrev refuse_904 : OutboxMessage → Option ℕ
refuse_904 m = if m.event_id == 904 then some 5 else none

claim-IsClaimed_example :
    (length (claim none_skipped 2000 50 77 pending_table).0 ≤ 50)
    × All (IsClaimed 77 2000) (claim none_skipped 2000 50 77 pending_table).0
    × All
        (λ m. IsIn m (claim none_skipped 2000 50 77 pending_table).1)
        (claim none_skipped 2000 50 77 pending_table).0
    × (rows_beside
          (claim none_skipped 2000 50 77 pending_table).0
          (claim none_skipped 2000 50 77 pending_table).1
        ≡ rows_beside (claim none_skipped 2000 50 77 pending_table).0 pending_table)
claim-IsClaimed_example = claim-IsClaimed none_skipped 2000 50 77 pending_table
