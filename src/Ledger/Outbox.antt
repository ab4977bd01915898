-- ===== src/Ledger/Outbox.antt =====
-- messaging/outbox.service.ts of apps/ledger-service: claiming a batch of messages under a lock,
-- publishing it, and backing off. What the publisher and the database answer is a parameter; times are milliseconds.
use p2p_ledger_starter.Ledger.Tables.{OutboxMessage}
use p2p_ledger_starter.Common.{
  any, length, keep, leb, ◌==◌, if◌then◌else◌, is_some, ltb, ℕ, zero, suc, ◌+◌, Bool, true, false,
  ◌&&◌, ◌||◌, not, Option, none, some, List, [], ◌∷◌, map, ◌*◌, ◌-◌,
}
pub mod Claims
pub mod Locks

abbrev pub default_batch_size : ℕ
default_batch_size = 50

abbrev pub lock_duration_ms : ℕ
lock_duration_ms = 30000

abbrev pub max_backoff_ms : ℕ
max_backoff_ms = 60000

abbrev pub is_unlocked : ℕ → Option ℕ → Bool
is_unlocked now none = true
is_unlocked now (some t) = ltb t now

-- The `WHERE` of the query for candidates.
abbrev pub is_claimable : ℕ → OutboxMessage → Bool
is_claimable now m =
    not (is_some m.published_at) && (leb m.available_at now && is_unlocked now m.locked_until)

-- `ORDER BY created_at, event_id`
abbrev pub is_before : OutboxMessage → OutboxMessage → Bool
is_before m n =
    ltb m.created_at n.created_at || (m.created_at == n.created_at && leb m.event_id n.event_id)

unfoldable pub insert_message : OutboxMessage → List OutboxMessage → List OutboxMessage
insert_message m [] = m ∷ []
insert_message m (n ∷ ns) =
    let rest = insert_message m ns in if is_before m n then m ∷ n ∷ ns else n ∷ rest

unfoldable pub sort_messages : List OutboxMessage → List OutboxMessage
sort_messages [] = []
sort_messages (m ∷ ms) = insert_message m (sort_messages ms)

-- `LIMIT`
abbrev pub take {ℓ} : {A : Type ℓ} → ℕ → List A → List A
take zero xs = []
take (suc n) [] = []
take (suc n) (x ∷ xs) = x ∷ take n xs

-- The rows that the update takes: `is_skipped` are those that another transaction holds (`SKIP LOCKED`).
unfoldable pub candidates : (ℕ → Bool) → ℕ → ℕ → List OutboxMessage → List OutboxMessage
candidates is_skipped now batch_size table =
    take batch_size
      (sort_messages (keep (λ m. is_claimable now m && not (is_skipped m.event_id)) table))

abbrev pub lock_message : ℕ → ℕ → OutboxMessage → OutboxMessage
lock_message lock_id now m = record m {
  lock_id = some lock_id;
  locked_until = some (now + lock_duration_ms);
}

abbrev pub has_id : ℕ → List OutboxMessage → Bool
has_id event_id ms = any (λ m. m.event_id == event_id) ms

-- The rows that the query returns, and the table behind it; `lock_id` is the `randomUUID()`.
unfoldable pub claim :
    (ℕ → Bool) → ℕ → ℕ → ℕ → List OutboxMessage → List OutboxMessage × List OutboxMessage
claim is_skipped now batch_size lock_id table =
    let chosen = candidates is_skipped now batch_size table in
    (
      map (lock_message lock_id now) chosen,
      map (λ m. if has_id m.event_id chosen then lock_message lock_id now m else m) table,
    )

abbrev pub is_held : Option ℕ → ℕ → Bool
is_held none lock_id = false
is_held (some l) lock_id = l == lock_id

-- `update({ eventId, lockId }, …)`: a lock that was lost meanwhile matches no row.
abbrev pub holds_lock : ℕ → ℕ → OutboxMessage → Bool
holds_lock event_id lock_id m = m.event_id == event_id && is_held m.lock_id lock_id

unfoldable pub update_locked :
    ℕ → ℕ → (OutboxMessage → OutboxMessage) → List OutboxMessage → List OutboxMessage
update_locked event_id lock_id change table =
    map (λ m. if holds_lock event_id lock_id m then change m else m) table

abbrev pub mark_published : ℕ → OutboxMessage → OutboxMessage
mark_published at m = record m {
  published_at = some at;
  locked_until = none;
  lock_id = none;
  last_error = none;
}

abbrev pub power_of_two : ℕ → ℕ
power_of_two zero = 1
power_of_two (suc n) = 2 * power_of_two n

-- `Math.min(2 ** (attempts - 1) * 1000, MAX_BACKOFF_MS)`
abbrev pub backoff_ms : ℕ → ℕ
backoff_ms attempts =
    let wanted = power_of_two (attempts - 1) * 1000 in
    if leb wanted max_backoff_ms then wanted else max_backoff_ms

abbrev pub mark_failed : ℕ → ℕ → ℕ → OutboxMessage → OutboxMessage
mark_failed attempts now error m = record m {
  attempts = attempts;
  available_at = now + backoff_ms attempts;
  locked_until = none;
  lock_id = none;
  last_error = some error;
}

-- One message of the loop. `publish` is what its `try` meets: nothing, or the error of the publisher or
-- of the update behind it, which then has written nothing; `at` is the time behind the call.
unfoldable pub publish_message :
    (OutboxMessage → Option ℕ) → ℕ → ℕ → ℕ → OutboxMessage → List OutboxMessage → List OutboxMessage
publish_message publish now at lock_id message table = elim (publish message) [
  | none ↦ update_locked message.event_id lock_id (mark_published at) table
  | some error ↦
      update_locked message.event_id lock_id (mark_failed (message.attempts + 1) now error) table
]

unfoldable pub publish_claimed :
    (OutboxMessage → Option ℕ)
    → ℕ
    → ℕ
    → ℕ
    → List OutboxMessage
    → List OutboxMessage
    → List OutboxMessage
publish_claimed publish now at lock_id [] table = table
publish_claimed publish now at lock_id (m ∷ ms) table =
    publish_claimed publish now at lock_id ms (publish_message publish now at lock_id m table)

-- The number of messages that were claimed, and the table behind the batch.
unfoldable pub publish_batch :
    (OutboxMessage → Option ℕ)
    → (ℕ → Bool)
    → ℕ
    → ℕ
    → ℕ
    → ℕ
    → List OutboxMessage
    → ℕ × List OutboxMessage
publish_batch publish is_skipped now at batch_size lock_id table =
    let claimed = claim is_skipped now batch_size lock_id table in
    (length claimed.0, publish_claimed publish now at lock_id claimed.0 claimed.1)
