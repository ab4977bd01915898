-- ===== src/Ledger/Outbox/Claims.antt =====
-- What a claim takes, and what becomes of a message that was claimed.
use p2p_ledger_starter.Ledger.Tables.{OutboxMessage}
use p2p_ledger_starter.Ledger.Outbox.{
  has_id, insert_message, candidates, is_claimable, is_before, lock_message, sort_messages, claim,
  take, lock_duration_ms,
}
use p2p_ledger_starter.Common.{
  IsIn, sym, subst, if◌then◌else◌, refl, ap, length-map, keep, length, All, Bool-cases, ℕ, zero,
  suc, ◌+◌, ◌≤◌, ◌≡◌, Bool, true, false, ◌&&◌, not, none, some, List, [], ◌∷◌, map, arith, inl, inr,
}

pub keep-All {ℓ} : {A : Type ℓ} (p : A → Bool) (xs : List A) → All (λ x. p x ≡ true) (keep p xs)
keep-All p [] = tt
keep-All p (x ∷ xs) = elim (Bool-cases (p x)) [
  | inl passes ↦ rw passes (passes, keep-All p xs)
  | inr fails ↦ rw fails (keep-All p xs)
]

insert_message-All :
    (P : OutboxMessage → Type 0) (m : OutboxMessage) (ms : List OutboxMessage)
    → P m
    → All P ms
    → All P (insert_message m ms)
unfolding insert_message
insert_message-All P m [] h hs = (h, tt)
insert_message-All P m (n ∷ ns) h hs = elim (Bool-cases (is_before m n)) [
  | inl first ↦ rw first (h, hs)
  | inr later ↦ rw later (hs.0, insert_message-All P m ns h hs.1)
]

sort_messages-All :
    (P : OutboxMessage → Type 0) (ms : List OutboxMessage) → All P ms → All P (sort_messages ms)
unfolding sort_messages
sort_messages-All P [] hs = tt
sort_messages-All P (m ∷ ms) hs =
    insert_message-All P m (sort_messages ms) hs.0 (sort_messages-All P ms hs.1)

take-All :
    (P : OutboxMessage → Type 0) (n : ℕ) (ms : List OutboxMessage) → All P ms → All P (take n ms)
take-All P zero ms hs = tt
take-All P (suc n) [] hs = tt
take-All P (suc n) (m ∷ ms) hs = (hs.0, take-All P n ms hs.1)

length-take : (n : ℕ) (ms : List OutboxMessage) → length (take n ms) ≤ n
length-take zero ms = omega arith
length-take (suc n) [] = omega arith
length-take (suc n) (m ∷ ms) = omega (arith, length-take n ms)

-- A claimed message waits for no other publisher, and for no later claim until its lock has run out.
abbrev pub IsClaimed : ℕ → ℕ → OutboxMessage → Type 0
IsClaimed lock_id now m =
    (m.published_at ≡ none)
    × (m.available_at ≤ now)
    × (m.lock_id ≡ some lock_id)
    × (m.locked_until ≡ some (now + lock_duration_ms))

lock-IsClaimed :
    (lock_id now : ℕ) (m : OutboxMessage)
    → is_claimable now m ≡ true
    → IsClaimed lock_id now (lock_message lock_id now m)
lock-IsClaimed lock_id now m h = ground arith

map_lock-IsClaimed :
    (is_skipped : ℕ → Bool) (lock_id now : ℕ) (ms : List OutboxMessage)
    → All (λ m. (is_claimable now m && not (is_skipped m.event_id)) ≡ true) ms
    → All (IsClaimed lock_id now) (map (lock_message lock_id now) ms)
map_lock-IsClaimed is_skipped lock_id now [] hs = tt
map_lock-IsClaimed is_skipped lock_id now (m ∷ ms) hs =
    (lock-IsClaimed lock_id now m (ground arith), map_lock-IsClaimed is_skipped lock_id now ms hs.1)

All-IsIn :
    (P : OutboxMessage → Type 0) (ms : List OutboxMessage)
    → ((m : OutboxMessage) → IsIn m ms → P m)
    → All P ms
All-IsIn P [] f = tt
All-IsIn P (m ∷ ms) f = (f m (inl refl), All-IsIn P ms (λ n i. f n (inr i)))

All-at :
    (P : OutboxMessage → Type 0) (ms : List OutboxMessage) (m : OutboxMessage)
    → All P ms
    → IsIn m ms
    → P m
All-at P [] m hs i = absurd i
All-at P (n ∷ ns) m hs (inl same) = subst P (sym same) hs.0
All-at P (n ∷ ns) m hs (inr later) = All-at P ns m hs.1 later

All-keep :
    (P : OutboxMessage → Type 0) (p : OutboxMessage → Bool) (ms : List OutboxMessage)
    → All P ms
    → All P (keep p ms)
All-keep P p [] hs = tt
All-keep P p (m ∷ ms) hs = elim (Bool-cases (p m)) [
  | inl passes ↦ rw passes (hs.0, All-keep P p ms hs.1)
  | inr fails ↦ rw fails (All-keep P p ms hs.1)
]

All-map :
    (P : OutboxMessage → Type 0) (f : OutboxMessage → OutboxMessage) (ms : List OutboxMessage)
    → All (λ m. P (f m)) ms
    → All P (map f ms)
All-map P f [] hs = tt
All-map P f (m ∷ ms) hs = (hs.0, All-map P f ms hs.1)

-- What is chosen is claimable, and a row of the table.
candidates-All :
    (is_skipped : ℕ → Bool) (now batch_size : ℕ) (table : List OutboxMessage)
    → All (λ m. IsIn m table) (candidates is_skipped now batch_size table)
unfolding candidates
candidates-All is_skipped now batch_size table =
    let due = keep (λ m. is_claimable now m && not (is_skipped m.event_id)) table in
    take-All (λ m. IsIn m table) batch_size (sort_messages due)
      (sort_messages-All (λ m. IsIn m table) due
        (All-keep (λ m. IsIn m table) (λ m. is_claimable now m && not (is_skipped m.event_id)) table
          (All-IsIn (λ m. IsIn m table) table (λ m i. i))))

-- The lock that is written to the rows that were chosen.
abbrev lock_chosen : ℕ → ℕ → List OutboxMessage → OutboxMessage → OutboxMessage
lock_chosen lock_id now chosen m =
    if has_id m.event_id chosen then lock_message lock_id now m else m

has_id-IsIn :
    (m : OutboxMessage) (ms : List OutboxMessage) → IsIn m ms → has_id m.event_id ms ≡ true
has_id-IsIn m [] i = absurd i
has_id-IsIn m (n ∷ ns) (inl same) = ground (arith, ap (λ (k : OutboxMessage). k.event_id) same)
has_id-IsIn m (n ∷ ns) (inr later) = ground (arith, has_id-IsIn m ns later)

has_id-map_lock :
    (event_id lock_id now : ℕ) (ms : List OutboxMessage)
    → has_id event_id (map (lock_message lock_id now) ms) ≡ has_id event_id ms
has_id-map_lock event_id lock_id now [] = refl
has_id-map_lock event_id lock_id now (m ∷ ms) = rw (has_id-map_lock event_id lock_id now ms) refl

map-IsIn :
    (f : OutboxMessage → OutboxMessage) (m : OutboxMessage) (ms : List OutboxMessage)
    → IsIn m ms
    → IsIn (f m) (map f ms)
map-IsIn f m [] i = absurd i
map-IsIn f m (n ∷ ns) (inl same) = inl (ap f same)
map-IsIn f m (n ∷ ns) (inr later) = inr (map-IsIn f m ns later)

lock_chosen-rows :
    (lock_id now : ℕ) (chosen table : List OutboxMessage)
    → All (λ m. IsIn m table) chosen
    → All
        (λ m. IsIn m (map (lock_chosen lock_id now chosen) table))
        (map (lock_message lock_id now) chosen)
lock_chosen-rows lock_id now chosen table rows =
    All-map (λ m. IsIn m (map (lock_chosen lock_id now chosen) table)) (lock_message lock_id now)
      chosen
      (All-IsIn
        (λ m. IsIn (lock_message lock_id now m) (map (lock_chosen lock_id now chosen) table)) chosen
        (λ m i.
          subst (λ k. IsIn k (map (lock_chosen lock_id now chosen) table))
            (ap (λ b. if b then lock_message lock_id now m else m) (has_id-IsIn m chosen i))
            (map-IsIn (lock_chosen lock_id now chosen) m table
              (All-at (λ n. IsIn n table) chosen m rows i))))

-- The rows of all ids but those of some messages.
abbrev pub rows_beside : List OutboxMessage → List OutboxMessage → List OutboxMessage
rows_beside claimed table = keep (λ m. not (has_id m.event_id claimed)) table

lock_chosen-rows_beside :
    (lock_id now : ℕ) (chosen table : List OutboxMessage)
    → rows_beside
        (map (lock_message lock_id now) chosen)
        (map (lock_chosen lock_id now chosen) table)
      ≡ rows_beside (map (lock_message lock_id now) chosen) table
lock_chosen-rows_beside lock_id now chosen [] = refl
lock_chosen-rows_beside lock_id now chosen (m ∷ ms) = elim (Bool-cases (has_id m.event_id chosen)) [
  | inl taken ↦
      rw (taken, has_id-map_lock m.event_id lock_id now chosen, taken)
        (lock_chosen-rows_beside lock_id now chosen ms)
  | inr left ↦
      rw (left, has_id-map_lock m.event_id lock_id now chosen, left)
        (ap (λ t. m ∷ t) (lock_chosen-rows_beside lock_id now chosen ms))
]

-- A claim takes no more messages than the batch has room for, each unpublished and due. Each of them,
-- locked for 30 seconds under the claim's own lock, is a row of the table behind the claim, in which the
-- rows of all other ids are as they were.
pub claim-IsClaimed :
    (is_skipped : ℕ → Bool) (now batch_size lock_id : ℕ) (table : List OutboxMessage)
    → (length (claim is_skipped now batch_size lock_id table).0 ≤ batch_size)
      × All (IsClaimed lock_id now) (claim is_skipped now batch_size lock_id table).0
      × All
          (λ m. IsIn m (claim is_skipped now batch_size lock_id table).1)
          (claim is_skipped now batch_size lock_id table).0
      × (rows_beside
            (claim is_skipped now batch_size lock_id table).0
            (claim is_skipped now batch_size lock_id table).1
          ≡ rows_beside (claim is_skipped now batch_size lock_id table).0 table)
unfolding claim candidates
claim-IsClaimed is_skipped now batch_size lock_id table =
    let due : List OutboxMessage =
      sort_messages (keep (λ m. is_claimable now m && not (is_skipped m.event_id)) table) in
    (
      rw (length-map (lock_message lock_id now) (take batch_size due)) (length-take batch_size due),
      map_lock-IsClaimed is_skipped lock_id now (take batch_size due) (
          take-All (λ m. (is_claimable now m && not (is_skipped m.event_id)) ≡ true) batch_size due
            (sort_messages-All (λ m. (is_claimable now m && not (is_skipped m.event_id)) ≡ true)
              (keep (λ m. is_claimable now m && not (is_skipped m.event_id)) table)
              (keep-All (λ m. is_claimable now m && not (is_skipped m.event_id)) table))),
      lock_chosen-rows lock_id now (take batch_size due) table
          (candidates-All is_skipped now batch_size table),
      lock_chosen-rows_beside lock_id now (take batch_size due) table,
    )

-- Until its lock has run out a claimed message cannot be claimed again.
pub IsClaimed-exclusive :
    (lock_id now later : ℕ) (m : OutboxMessage)
    → IsClaimed lock_id now m
    → later ≤ now + lock_duration_ms
    → is_claimable later m ≡ false
IsClaimed-exclusive lock_id now later m c le = ground arith
