-- ===== src/Ledger/EventStore/Concurrency.antt =====
-- An append that succeeds, with other transactions committed between its read and its insert.
use p2p_ledger_starter.Common.{
  ◌&&◌, leb, ℕ, ◌+◌, ◌≤◌, ◌≡◌, sym, ◌∙◌, ap, false, List, [], ◌∷◌, ◌++◌, append-nil, length, ◌==◌,
  arith, Bool-cases, inl, inr, ok, subst, keep-append, length-append, keep,
}
use p2p_ledger_starter.Ledger.Event.{EventData, StoredEvent}
use p2p_ledger_starter.Ledger.EventStore.{
  AppendToStreamRequest, validate_append_request, stream, in_stream, has_version, latest,
  version_of, create_rows, create_row, insert_rows, find_between, sort_by_version,
  append_within_transaction,
}
use p2p_ledger_starter.Ledger.EventStore.Streams.{
  Numbered, IsGapless, Numbered-append, sort-Numbered, version-Numbered,
}
use p2p_ledger_starter.Ledger.EventStore.Appending.{
  insert_rows-append, insert_rows-free, has_version-stream, taken-Numbered, find-Numbered,
  map_append_errors-ok, append_using-ok, create_rows-Numbered, length-create_rows,
  stream-create_rows, stream-create_rows_ne, Appended,
}

nonempty : (r : AppendToStreamRequest) → validate_append_request r ≡ ok tt → 1 ≤ length r.events
unfolding validate_append_request
nonempty r h = ground arith

module _ (r : AppendToStreamRequest) (now : ℕ) where
  -- Rows that could be inserted found their first version free.
  first_free :
      (v : ℕ) (events : List EventData) (table : List StoredEvent) {table' : List StoredEvent}
      → 1 ≤ length events
      → insert_rows (create_rows r now v events) table ≡ ok table'
      → has_version r.stream_id v table ≡ false
  unfolding create_rows
  first_free v [] table some_given h = absurd (omega arith)
  first_free v (e ∷ es) table some_given h =
      insert_rows-free (create_row r now v e) (create_rows r now (v + 1) es) table h

  -- With a numbered stream that is at least as long as expected, it is just as long.
  as_long_as_expected :
      (v : ℕ) (table : List StoredEvent)
      → Numbered 1 (stream r.stream_id table)
      → v ≤ length (stream r.stream_id table)
      → has_version r.stream_id (v + 1) table ≡ false
      → length (stream r.stream_id table) ≡ v
  as_long_as_expected v table numbered le free = ground (
    arith,
    taken-Numbered 1 (v + 1) (stream r.stream_id table) numbered,
    has_version-stream r.stream_id (v + 1) table,
  )

  module _ (v : ℕ) (table : List StoredEvent) (gapless : IsGapless table)
      (len : length (stream r.stream_id table) ≡ v) where
    abbrev rows : List StoredEvent
    rows = create_rows r now (v + 1) r.events

    own_stream : stream r.stream_id (table ++ rows) ≡ stream r.stream_id table ++ rows
    own_stream =
        keep-append (in_stream r.stream_id) table rows
        ∙ ap (λ xs. stream r.stream_id table ++ xs) (stream-create_rows r now (v + 1) r.events)

    own_Numbered : Numbered 1 (stream r.stream_id table ++ rows)
    own_Numbered =
        Numbered-append 1 (stream r.stream_id table) rows (gapless r.stream_id)
          (subst (λ n. Numbered n rows) (omega arith) (create_rows-Numbered r now (v + 1) r.events))

    rows-IsGapless : IsGapless (table ++ rows)
    rows-IsGapless s = elim (Bool-cases (s == r.stream_id)) [
      | inl same ↦
          let e : r.stream_id ≡ s = ground arith in
          subst (λ t. Numbered 1 (stream t (table ++ rows))) e
            (subst (Numbered 1) (sym own_stream) own_Numbered)
      | inr differs ↦ subst (Numbered 1) (sym (keep-append (in_stream s) table rows)) (
          rw
            (
              stream-create_rows_ne r now s (v + 1) r.events (ground arith),
              append-nil (stream s table),
            )
            (gapless s))
    ]

    -- Reading back the versions that were added gives the added rows.
    find_added : find_between r.stream_id (v + 1) (v + length r.events) (table ++ rows) ≡ rows
    unfolding find_between
    find_added =
        ap
          (λ xs. sort_by_version (
            keep (λ e. leb (v + 1) e.stream_version && leb e.stream_version (v + length r.events))
              xs))
          own_stream
        ∙ ap sort_by_version (
            find-Numbered (v + 1) (v + length r.events) 1 (stream r.stream_id table) rows
              own_Numbered (omega arith) (omega (arith, length-create_rows r now (v + 1) r.events)))
        ∙ sort-Numbered (v + 1) rows (create_rows-Numbered r now (v + 1) r.events)

-- An append reads a stream no longer than it is when the append inserts.
expected_le :
    (s : ℕ) (seen more : List StoredEvent)
    → IsGapless seen
    → version_of (latest (stream s seen)) ≤ length (stream s (seen ++ more))
expected_le s seen more gapless = rw (keep-append (in_stream s) seen more) (
    omega (
      arith,
      version-Numbered (stream s seen) (gapless s),
      length-append (stream s seen) (stream s more),
    ))

-- However many events other transactions committed to any stream since the append read it, where
-- every stream is numbered without gaps before: an append that succeeds found its own stream at the
-- expected version, has added its events as the next versions, returns the rows that it added, and
-- leaves every stream numbered without gaps.
pub append-Appended :
    (r : AppendToStreamRequest) (now : ℕ) (seen more : List StoredEvent)
    {table' stored : List StoredEvent}
    → IsGapless seen
    → IsGapless (seen ++ more)
    → append_within_transaction r now seen (seen ++ more) ≡ ok (table', stored)
    → Appended r now (seen ++ more) table' stored × IsGapless table'
unfolding append_within_transaction
append-Appended r now seen more {table'} {stored} gs gt h =
    let (valid, version, inserted, found) =
      append_using-ok r now seen (seen ++ more) (map_append_errors-ok r _ h) in
    let free =
      first_free r now (r.expected_version + 1) r.events (seen ++ more) (nonempty r valid)
        inserted in
    let len =
      as_long_as_expected r now r.expected_version (seen ++ more) (gt r.stream_id)
        (rw version at (expected_le r.stream_id seen more gs)) free in
    let added =
      insert_rows-append (create_rows r now (r.expected_version + 1) r.events) (seen ++ more)
        inserted in
    (
      record {
        as_expected = len;
        added = added;
        returned = found ∙ rw added (find_added r now r.expected_version (seen ++ more) gt len);
      },
      rw added (rows-IsGapless r now r.expected_version (seen ++ more) gt len),
    )
