-- ===== src/Ledger/EventStore/Appending.antt =====
-- Appending under concurrency: an append that succeeds continues the stream where its expected version
-- says, and one that lost the race fails.
use p2p_ledger_starter.Common.{
  ℕ, suc, ◌+◌, ◌≤◌, ◌<◌, ◌≡◌, ◌≢◌, refl, ◌∙◌, ap, true, false, ◌&&◌, some, List, [], ◌∷◌, ◌++◌,
  append-nil, append_assoc, length, keep, any, leb, ◌==◌, arith, ok, err, Result, >>=-eq-ok, ensure,
  subst, ==_refl,
}
use p2p_ledger_starter.Ledger.Fault.{Fault, expected_stream_version}
use p2p_ledger_starter.Ledger.Event.{EventData, StoredEvent}
use p2p_ledger_starter.Ledger.EventStore.{
  AppendToStreamRequest, validate_append_request, aggregate_type_matches, stream, has_version,
  latest, version_of, create_rows, insert_rows, find_between, append_using_manager,
  map_append_errors,
}
use p2p_ledger_starter.Ledger.EventStore.Streams.{Numbered}

pub insert_rows-append :
    (rows table : List StoredEvent) {table' : List StoredEvent}
    → insert_rows rows table ≡ ok table'
    → table' ≡ table ++ rows
unfolding insert_rows
insert_rows-append [] table h = ground (arith, append-nil table)
insert_rows-append (row ∷ rows) table {table'} h =
    let inserted : insert_rows rows (table ++ (row ∷ [])) ≡ ok table' = ground arith in
    insert_rows-append rows (table ++ (row ∷ [])) inserted ∙ append_assoc table (row ∷ []) rows

-- The version of the first row was free.
pub insert_rows-free :
    (row : StoredEvent) (rows table : List StoredEvent) {table' : List StoredEvent}
    → insert_rows (row ∷ rows) table ≡ ok table'
    → has_version row.stream_id row.stream_version table ≡ false
unfolding insert_rows
insert_rows-free row rows table h = ground arith

pub has_version-stream :
    (s v : ℕ) (table : List StoredEvent)
    → has_version s v table ≡ any (λ e. e.stream_version == v) (stream s table)
has_version-stream s v [] = refl
has_version-stream s v (e ∷ es) = ground (arith, has_version-stream s v es)

pub taken-Numbered :
    (k v : ℕ) (xs : List StoredEvent)
    → Numbered k xs
    → k ≤ v
    → v < k + length xs
    → any (λ e. e.stream_version == v) xs ≡ true
taken-Numbered k v [] h low high = absurd (omega arith)
taken-Numbered k v (x ∷ xs) h low high = ground (arith, taken-Numbered (suc k) v xs)

module _ (r : AppendToStreamRequest) (now : ℕ) where
  pub create_rows-Numbered : (v : ℕ) (es : List EventData) → Numbered v (create_rows r now v es)
  unfolding create_rows
  create_rows-Numbered v [] = tt
  create_rows-Numbered v (e ∷ es) = (
    refl,
    subst (λ n. Numbered n (create_rows r now (v + 1) es)) (omega arith)
        (create_rows-Numbered (v + 1) es),
  )

  pub length-create_rows :
      (v : ℕ) (es : List EventData) → length (create_rows r now v es) ≡ length es
  unfolding create_rows
  length-create_rows v [] = refl
  length-create_rows v (e ∷ es) = ap suc (length-create_rows (v + 1) es)

  pub stream-create_rows :
      (v : ℕ) (es : List EventData)
      → stream r.stream_id (create_rows r now v es) ≡ create_rows r now v es
  unfolding create_rows
  stream-create_rows v [] = refl
  stream-create_rows v (e ∷ es) = rw (==_refl r.stream_id, stream-create_rows (v + 1) es)

  pub stream-create_rows_ne :
      (s v : ℕ) (es : List EventData) → s ≢ r.stream_id → stream s (create_rows r now v es) ≡ []
  unfolding create_rows
  stream-create_rows_ne s v [] ne = refl
  stream-create_rows_ne s v (e ∷ es) ne = ground (arith, stream-create_rows_ne s (v + 1) es ne)

find_all :
    (low high k : ℕ) (ys : List StoredEvent)
    → Numbered k ys
    → low ≤ k
    → k + length ys ≤ high + 1
    → keep (λ e. leb low e.stream_version && leb e.stream_version high) ys ≡ ys
find_all low high k [] h l u = refl
find_all low high k (y ∷ ys) h l u = ground (arith, find_all low high (suc k) ys)

-- Between two versions of a numbered stream lie just the rows behind the first of them.
pub find-Numbered :
    (low high k : ℕ) (xs ys : List StoredEvent)
    → Numbered k (xs ++ ys)
    → k + length xs ≡ low
    → low + length ys ≡ high + 1
    → keep (λ e. leb low e.stream_version && leb e.stream_version high) (xs ++ ys) ≡ ys
find-Numbered low high k [] ys h l u = find_all low high k ys h (omega arith) (omega arith)
find-Numbered low high k (x ∷ xs) ys h l u = ground (arith, find-Numbered low high (suc k) xs ys)

pub map_append_errors-ok :
    {A : Type 0} (r : AppendToStreamRequest) (m : Result Fault A) {a : A}
    → map_append_errors r m ≡ ok a
    → m ≡ ok a
map_append_errors-ok r (ok a) h = h
map_append_errors-ok r (err e) h = absurd (cc)

-- What an append that succeeded has done.
pub record Appended (r : AppendToStreamRequest) (now : ℕ) (table table' stored : List StoredEvent)
    : Type 0 where
  pub as_expected : length (stream r.stream_id table) ≡ r.expected_version
  pub added : table' ≡ table ++ create_rows r now (r.expected_version + 1) r.events
  pub returned : stored ≡ create_rows r now (r.expected_version + 1) r.events

-- The three steps of an append that succeeded.
pub append_using-ok :
    (r : AppendToStreamRequest) (now : ℕ) (seen table : List StoredEvent)
    {table' stored : List StoredEvent}
    → append_using_manager r now seen table ≡ ok (table', stored)
    → (validate_append_request r ≡ ok tt)
      × (version_of (latest (stream r.stream_id seen)) ≡ r.expected_version)
      × (insert_rows (create_rows r now (r.expected_version + 1) r.events) table ≡ ok table')
      × (stored
          ≡ find_between r.stream_id
              (r.expected_version + 1)
              (r.expected_version + length r.events)
              table')
unfolding append_using_manager
append_using-ok r now seen table {table'} {stored} h =
    let (_, valid, h1) = >>=-eq-ok (validate_append_request r) _ h in
    let (_, same, h2) =
      >>=-eq-ok
        (ensure (version_of (latest (stream r.stream_id seen)) == r.expected_version) (
          expected_stream_version r.stream_id r.expected_version
            (some (version_of (latest (stream r.stream_id seen))))))
        _ h1 in
    let (_, _, h3) = >>=-eq-ok (aggregate_type_matches r (latest (stream r.stream_id seen))) _ h2 in
    let (table'', inserted, h4) =
      >>=-eq-ok (insert_rows (create_rows r now (r.expected_version + 1) r.events) table) _ h3 in
    (valid, ground arith, ground arith, ground arith)
