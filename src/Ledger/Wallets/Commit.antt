-- ===== src/Ledger/Wallets/Commit.antt =====
-- What a committed event has done to the database, whatever other transactions committed meanwhile.
use p2p_ledger_starter.Common.{
  Result-cases, ℕ, ◌+◌, ◌≡◌, ◌≢◌, refl, ◌∙◌, ap, List, [], ◌∷◌, ◌++◌, append-nil, length, arith, ok,
  >>=-eq-ok, ◌>>=◌, or_throw, subst, keep-append, length-append, ==_refl, inl, inr,
}
use p2p_ledger_starter.Ledger.Fault.{no_row}
use p2p_ledger_starter.Ledger.Event.{EventData, StoredEvent}
use p2p_ledger_starter.Ledger.Tables.{LedgerDb}
use p2p_ledger_starter.Ledger.EventStore.{
  AppendToStreamRequest, stream, in_stream, create_row, create_rows, append_within_transaction,
}
use p2p_ledger_starter.Ledger.EventStore.Streams.{IsGapless}
use p2p_ledger_starter.Ledger.EventStore.Concurrency.{append-Appended}
use p2p_ledger_starter.Ledger.Aggregate.{WalletAggregate}
use p2p_ledger_starter.Ledger.Aggregate.Replay.{apply, replay_from}
use p2p_ledger_starter.Ledger.Aggregate.Decisions.{Stores}
use p2p_ledger_starter.Ledger.Wallets.{append_event, wallet_aggregate_type, first_row}

pub replay_from-append :
    (w : WalletAggregate) (xs ys : List StoredEvent)
    → replay_from w (xs ++ ys) ≡ (replay_from w xs >>= λ w'. replay_from w' ys)
unfolding replay_from
replay_from-append w [] ys = refl
replay_from-append w (x ∷ xs) ys = elim (Result-cases (apply w x)) [
  | inl (next, one) ↦ rw one (replay_from-append next xs ys)
  | inr (e, failed) ↦ rw failed
]

-- The row that a single event becomes.
abbrev pub row_of : ℕ → ℕ → EventData → ℕ → StoredEvent
row_of stream_id version event now =
    create_row
      (record {
        stream_id = stream_id;
        aggregate_type = wallet_aggregate_type;
        expected_version = version;
        events = event ∷ [];
      })
      now (version + 1) event

-- An appended event is the next of its stream, and is all that is added.
pub append_event-ok :
    (s v : ℕ) (event : EventData) (mid more : List StoredEvent) (db : LedgerDb)
    {stored : StoredEvent} {db' : LedgerDb}
    → db.events ≡ mid ++ more
    → IsGapless mid
    → IsGapless db.events
    → append_event s v event mid db ≡ ok (stored, db')
    → (length (stream s db.events) ≡ v)
      × (stored ≡ row_of s v event db.now)
      × (db' ≡ record db { events = db.events ++ (row_of s v event db.now ∷ []) })
      × IsGapless (db.events ++ (row_of s v event db.now ∷ []))
unfolding append_event create_rows
append_event-ok s v event mid more db {stored} {db'} split gm gd h =
    let r : AppendToStreamRequest = record {
      stream_id = s;
      aggregate_type = wallet_aggregate_type;
      expected_version = v;
      events = event ∷ [];
    } in
    let (p, appended, h1) = >>=-eq-ok (append_within_transaction r db.now mid db.events) _ h in
    let (row, first, h2) = >>=-eq-ok (or_throw (first_row p.1) no_row) _ h1 in
    let (done, gapless) =
      append-Appended r db.now mid more gm (subst IsGapless split gd)
        (subst (λ t. append_within_transaction r db.now mid t ≡ ok p) split appended) in
    let events : p.0 ≡ db.events ++ (row_of s v event db.now ∷ []) = rw split done.added in
    let first' = subst (λ rows. or_throw (first_row rows) no_row ≡ ok row) done.returned first in
    (rw split done.as_expected, ground arith, ground arith, subst IsGapless events gapless)

no_more : (xs ys : List StoredEvent) → length (xs ++ ys) ≡ length xs → ys ≡ []
no_more xs [] h = refl
no_more xs (y ∷ ys) h = absurd (omega (arith, length-append xs (y ∷ ys)))

-- A stream that is as long as it was when it was read is the stream that was read.
pub unchanged_stream :
    (s : ℕ) (seen more : List StoredEvent)
    → length (stream s (seen ++ more)) ≡ length (stream s seen)
    → stream s (seen ++ more) ≡ stream s seen
unchanged_stream s seen more h =
    let parts = keep-append (in_stream s) seen more in
    parts
    ∙ ap (λ ys. stream s seen ++ ys) (no_more (stream s seen) (stream s more) (rw parts at h))
    ∙ append-nil (stream s seen)

pub stream-row :
    (s v now : ℕ) (event : EventData) (table : List StoredEvent)
    → stream s (table ++ (row_of s v event now ∷ []))
      ≡ stream s table ++ (row_of s v event now ∷ [])
stream-row s v now event table =
    keep-append (in_stream s) table (row_of s v event now ∷ []) ∙ rw (==_refl s)

other_row : (t s v now : ℕ) (event : EventData) → t ≢ s → stream t (row_of s v event now ∷ []) ≡ []
other_row t s v now event ne = ground arith

pub stream-row_ne :
    (t s v now : ℕ) (event : EventData) (table : List StoredEvent)
    → t ≢ s
    → stream t (table ++ (row_of s v event now ∷ [])) ≡ stream t table
stream-row_ne t s v now event table ne =
    keep-append (in_stream t) table (row_of s v event now ∷ [])
    ∙ ap (λ ys. stream t table ++ ys) (other_row t s v now event ne)
    ∙ append-nil (stream t table)

pub row-Stores :
    (w : WalletAggregate) (s now : ℕ) (event : EventData)
    → Stores w event (row_of s w.version event now)
row-Stores w s now event = record {
  same_type = refl;
  same_schema = refl;
  same_payload = refl;
  next_version = refl;
}
