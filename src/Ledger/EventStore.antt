-- ===== src/Ledger/EventStore.antt =====
-- event-store/event-store.service.ts: the append-only table `ledger_events`, appending with an
-- expected version, and loading a stream.
-- The rows that were committed are a list in the order of the inserts. An append reads the latest row
-- from the rows `seen` at that moment, and inserts into the rows `table` at a later one: what another
-- transaction commits between the two is in `table` alone.
pub mod Streams
pub mod Appending
pub mod Concurrency
use p2p_ledger_starter.Common.{
  ℕ, suc, ◌+◌, Bool, true, false, ◌&&◌, ◌||◌, Option, none, some, List, [], ◌∷◌, ◌++◌, length, ltb,
  leb, ◌==◌, not, if◌then◌else◌, keep, any, Result, ok, err, ◌>>=◌, ◌>>◌, ensure, or_throw,
}
use p2p_ledger_starter.Ledger.Fault.{
  Fault, expected_stream_version, duplicate_event_id, stream_aggregate_type,
  stream_and_type_required, no_events, event_and_type_required, bad_schema_version,
  stream_id_required, bad_from_version, event_id_constraint, stream_version_constraint,
  check_constraint,
}
use p2p_ledger_starter.Ledger.Event.{EventType, other, EventData, StoredEvent}

-- `interface AppendToStreamRequest`
pub record AppendToStreamRequest : Type 0 where
  pub stream_id : ℕ
  pub aggregate_type : ℕ
  pub expected_version : ℕ
  pub events : List EventData

-- `!eventType.trim()`
abbrev pub is_blank : EventType → Bool
is_blank (other n) = n == 0
is_blank _ = false

unfoldable pub validate_events : List EventData → Result Fault (Unit {0})
validate_events [] = ok tt
validate_events (e ∷ events) = do
  ensure (not (e.event_id == 0 || is_blank e.event_type)) event_and_type_required
  ensure (leb 1 e.schema_version) bad_schema_version
  validate_events events

unfoldable pub validate_append_request : AppendToStreamRequest → Result Fault (Unit {0})
unfolding validate_events
validate_append_request r = do
  ensure (not (r.stream_id == 0 || r.aggregate_type == 0)) stream_and_type_required
  ensure (leb 1 (length r.events)) no_events
  validate_events r.events

abbrev pub in_stream : ℕ → StoredEvent → Bool
in_stream stream_id e = e.stream_id == stream_id

-- The rows of a stream, in the order of their insertion.
abbrev pub stream : ℕ → List StoredEvent → List StoredEvent
stream stream_id table = keep (in_stream stream_id) table

-- The row with the greatest version, `findOne` with `order: { streamVersion: 'DESC' }`.
unfoldable pub latest : List StoredEvent → Option StoredEvent
latest [] = none
latest (e ∷ es) = elim (latest es) [
  | none ↦ some e
  | some f ↦ if ltb e.stream_version f.stream_version then some f else some e
]

abbrev pub version_of : Option StoredEvent → ℕ
version_of none = 0
version_of (some e) = e.stream_version

abbrev pub or_default : Option ℕ → ℕ → ℕ
or_default none d = d
or_default (some n) d = n

-- The row of an event; `now` is the default of `created_at`.
abbrev pub create_row : AppendToStreamRequest → ℕ → ℕ → EventData → StoredEvent
create_row r now version e = record {
  event_id = e.event_id;
  stream_id = r.stream_id;
  aggregate_type = r.aggregate_type;
  event_type = e.event_type;
  schema_version = e.schema_version;
  stream_version = version;
  payload = e.payload;
  metadata = or_default e.metadata 0;
  correlation_id = e.correlation_id;
  trace_id = e.trace_id;
  created_at = now;
}

-- `request.events.map((event, index) => …)` with `streamVersion: expectedVersion + index + 1`.
unfoldable pub create_rows : AppendToStreamRequest → ℕ → ℕ → List EventData → List StoredEvent
create_rows r now version [] = []
create_rows r now version (e ∷ events) =
    create_row r now version e ∷ create_rows r now (version + 1) events

abbrev pub has_event_id : ℕ → List StoredEvent → Bool
has_event_id event_id table = any (λ e. e.event_id == event_id) table

abbrev pub has_version : ℕ → ℕ → List StoredEvent → Bool
has_version stream_id version table =
    any (λ e. in_stream stream_id e && e.stream_version == version) table

-- `insert`, under the primary key, the unique constraint and the checks of `ledger_events`.
unfoldable pub insert_rows : List StoredEvent → List StoredEvent → Result Fault (List StoredEvent)
insert_rows [] table = ok table
insert_rows (row ∷ rows) table = do
  ensure (leb 1 row.stream_version && leb 1 row.schema_version) check_constraint
  ensure (not (has_event_id row.event_id table)) event_id_constraint
  ensure (not (has_version row.stream_id row.stream_version table)) stream_version_constraint
  insert_rows rows (table ++ (row ∷ []))

-- `ORDER BY stream_version`
unfoldable pub insert_by_version : StoredEvent → List StoredEvent → List StoredEvent
insert_by_version e [] = e ∷ []
insert_by_version e (f ∷ fs) =
    let rest = insert_by_version e fs in
    if leb e.stream_version f.stream_version then e ∷ f ∷ fs else f ∷ rest

unfoldable pub sort_by_version : List StoredEvent → List StoredEvent
unfolding insert_by_version
sort_by_version [] = []
sort_by_version (e ∷ es) = insert_by_version e (sort_by_version es)

-- The rows of a stream whose version is in a range, sorted by version.
unfoldable pub find_between : ℕ → ℕ → ℕ → List StoredEvent → List StoredEvent
unfolding sort_by_version
find_between stream_id low high table =
    sort_by_version
      (keep (λ e. leb low e.stream_version && leb e.stream_version high) (stream stream_id table))

abbrev pub aggregate_type_matches :
    AppendToStreamRequest → Option StoredEvent → Result Fault (Unit {0})
aggregate_type_matches r none = ok tt
aggregate_type_matches r (some e) =
    ensure (e.aggregate_type == r.aggregate_type)
      (stream_aggregate_type r.stream_id r.aggregate_type e.aggregate_type)

-- The table after the insert, and the rows that were stored.
unfoldable pub append_using_manager :
    AppendToStreamRequest
    → ℕ
    → List StoredEvent
    → List StoredEvent
    → Result Fault (List StoredEvent × List StoredEvent)
append_using_manager r now seen table = do
  validate_append_request r
  let last = latest (stream r.stream_id seen)
  ensure (version_of last == r.expected_version)
      (expected_stream_version r.stream_id r.expected_version (some (version_of last)))
  aggregate_type_matches r last
  table' ← insert_rows (create_rows r now (r.expected_version + 1) r.events) table
  ok (
    table',
    find_between r.stream_id (r.expected_version + 1) (r.expected_version + length r.events) table',
  )

abbrev pub only_event_id : List EventData → Option ℕ
only_event_id (e ∷ []) = some e.event_id
only_event_id _ = none

abbrev pub map_append_error : AppendToStreamRequest → Fault → Fault
map_append_error r event_id_constraint = duplicate_event_id (only_event_id r.events)
map_append_error r stream_version_constraint =
    expected_stream_version r.stream_id r.expected_version none
map_append_error r other_fault = other_fault

abbrev pub map_append_errors {ℓ} :
    {A : Type ℓ} → AppendToStreamRequest → Result Fault A → Result Fault A
map_append_errors r (ok a) = ok a
map_append_errors r (err e) = err (map_append_error r e)

-- `append` and `appendWithinTransaction`: on an error the transaction is rolled back, so the table
-- stays as it was.
unfoldable pub append_within_transaction :
    AppendToStreamRequest
    → ℕ
    → List StoredEvent
    → List StoredEvent
    → Result Fault (List StoredEvent × List StoredEvent)
append_within_transaction r now seen table =
    map_append_errors r (append_using_manager r now seen table)

unfoldable pub load_stream : ℕ → ℕ → List StoredEvent → Result Fault (List StoredEvent)
unfolding sort_by_version
load_stream stream_id from_version table = do
  ensure (not (stream_id == 0)) stream_id_required
  ensure (leb 1 from_version) bad_from_version
  ok (sort_by_version (keep (λ e. leb from_version e.stream_version) (stream stream_id table)))
