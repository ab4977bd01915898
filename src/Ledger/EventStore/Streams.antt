-- ===== src/Ledger/EventStore/Streams.antt =====
-- Streams that are numbered without gaps, and what loading makes of them.
use p2p_ledger_starter.Common.{
  ◌==◌, not, ensure-bind, subst, ℕ, suc, ◌+◌, ◌≤◌, ◌≡◌, ◌≢◌, refl, some, List, [], ◌∷◌, ◌++◌,
  length, keep, leb, arith, ok,
}
use p2p_ledger_starter.Ledger.Event.{StoredEvent}
use p2p_ledger_starter.Ledger.EventStore.{
  stream_id_required, stream, latest, version_of, sort_by_version, load_stream,
}

-- The versions are k, k + 1, k + 2, …
abbrev pub Numbered : ℕ → List StoredEvent → Type 0
Numbered k [] = Unit
Numbered k (e ∷ es) = (e.stream_version ≡ k) × Numbered (suc k) es

-- Every stream of the table is numbered from 1.
abbrev pub IsGapless : List StoredEvent → Type 0
IsGapless table = (s : ℕ) → Numbered 1 (stream s table)

pub Numbered-append :
    (k : ℕ) (xs ys : List StoredEvent)
    → Numbered k xs
    → Numbered (k + length xs) ys
    → Numbered k (xs ++ ys)
Numbered-append k [] ys hx hy = subst (λ n. Numbered n ys) (omega arith) hy
Numbered-append k (x ∷ xs) ys hx hy =
    (hx.0, Numbered-append (suc k) xs ys hx.1 (subst (λ n. Numbered n ys) (omega arith) hy))

pub sort-Numbered : (k : ℕ) (xs : List StoredEvent) → Numbered k xs → sort_by_version xs ≡ xs
unfolding sort_by_version
sort-Numbered k [] h = refl
sort-Numbered k (x ∷ []) h = refl
sort-Numbered k (x ∷ y ∷ xs) h = rw (sort-Numbered (suc k) (y ∷ xs) h.1) (ground arith)

pub keep_from :
    (n k : ℕ) (xs : List StoredEvent)
    → n ≤ k
    → Numbered k xs
    → keep (λ e. leb n e.stream_version) xs ≡ xs
keep_from n k [] le h = refl
keep_from n k (x ∷ xs) le h = ground (arith, keep_from n (suc k) xs)

-- In a numbered stream the greatest version is the number of rows.
pub latest-Numbered :
    (k : ℕ) (x : StoredEvent) (xs : List StoredEvent)
    → Numbered k (x ∷ xs)
    → (e : StoredEvent) × (latest (x ∷ xs) ≡ some e) × (e.stream_version ≡ k + length xs)
unfolding latest
latest-Numbered k x [] h = (x, refl, omega arith)
latest-Numbered k x (y ∷ xs) h =
    let (e, found, version) = latest-Numbered (suc k) y xs h.1 in
    (e, rw found (ground arith), omega arith)

pub version-Numbered : (xs : List StoredEvent) → Numbered 1 xs → version_of (latest xs) ≡ length xs
unfolding latest
version-Numbered [] h = refl
version-Numbered (x ∷ xs) h =
    let (e, found, version) = latest-Numbered 1 x xs h in unfold latest in rw found (omega arith)

-- Loading a stream from version 1 gives its rows in the order of their insertion.
pub load_stream_all :
    (stream_id : ℕ) (table : List StoredEvent)
    → stream_id ≢ 0
    → IsGapless table
    → load_stream stream_id 1 table ≡ ok (stream stream_id table)
unfolding load_stream
load_stream_all s table ne gapless =
    rw
      (
        keep_from 1 1 (stream s table) (omega arith) (gapless s),
        sort-Numbered 1 (stream s table) (gapless s),
      )
      (ensure-bind {c = not (s == 0)} stream_id_required _ (ground arith))
