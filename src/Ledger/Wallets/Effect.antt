-- ===== src/Ledger/Wallets/Effect.antt =====
-- The effect of a committed command on a wallet, on the other streams and on the projections.
use p2p_ledger_starter.Ledger.Aggregate.Soundness.{rehydrate-IsValid, apply-id}
use p2p_ledger_starter.Common.{
  refl, subst, ok-injective, >>=-snd, ℕ, ◌≡◌, ◌≢◌, sym, ◌∙◌, ap, List, [], ◌∷◌, ◌++◌, length, arith,
  ok, >>=-eq-ok,
}
use p2p_ledger_starter.Common.Dict.{insert}
use p2p_ledger_starter.Ledger.Event.{EventData, StoredEvent}
use p2p_ledger_starter.Ledger.Tables.{WalletBalanceProjection, OutboxMessage, Wallet, LedgerDb}
use p2p_ledger_starter.Ledger.EventStore.{stream}
use p2p_ledger_starter.Ledger.EventStore.Streams.{IsGapless}
use p2p_ledger_starter.Ledger.Aggregate.{WalletAggregate, empty}
use p2p_ledger_starter.Ledger.Aggregate.Replay.{apply, replay_from, rehydrate}
use p2p_ledger_starter.Ledger.Aggregate.Decisions.{Stores}
use p2p_ledger_starter.Ledger.Wallets.{
  WalletView, append_event, enqueue_wallet_event, project, projection_from_aggregate, to_view,
}
use p2p_ledger_starter.Ledger.Wallets.Commands.{commit_event}
use p2p_ledger_starter.Ledger.Wallets.Commit.{
  stream-row, unchanged_stream, stream-row_ne, replay_from-append, row_of, append_event-ok,
  row-Stores,
}

-- Wallet `wallet_id` goes from `w` to `w'`, and nothing else about the wallets changes.
pub record Committed (wallet_id : ℕ) (w w' : WalletAggregate) (db db' : LedgerDb) : Type 0 where
  pub before : rehydrate wallet_id (stream wallet_id db.events) ≡ ok w
  pub after : rehydrate wallet_id (stream wallet_id db'.events) ≡ ok w'
  pub row : StoredEvent
  pub row_stream : row.stream_id ≡ wallet_id
  pub added : db'.events ≡ db.events ++ (row ∷ [])
  pub projected : db'.balances ≡ insert wallet_id (projection_from_aggregate w') db.balances
  pub gapless : IsGapless db'.events
  pub same_wallets : db'.wallets ≡ db.wallets
  pub same_settlements : db'.settlements ≡ db.settlements

rehydrate-row :
    (wallet_id : ℕ) (es : List StoredEvent) (e : StoredEvent) {w w' : WalletAggregate}
    → rehydrate wallet_id es ≡ ok w
    → apply w e ≡ ok w'
    → rehydrate wallet_id (es ++ (e ∷ [])) ≡ ok w'
unfolding rehydrate replay_from
rehydrate-row wallet_id es e h a = rw (replay_from-append (empty wallet_id) es (e ∷ []), h, a)

pub project-ok :
    (w : WalletAggregate) (db db' : LedgerDb) {p : WalletBalanceProjection}
    → project w db ≡ ok (p, db')
    → (p ≡ projection_from_aggregate w) × (db' ≡ record db { balances = insert w.id p db.balances })
unfolding project
project-ok w db db' h = ground arith

pub enqueue-ok :
    (e : StoredEvent) (wallet : Wallet) (db db' : LedgerDb)
    → enqueue_wallet_event e wallet db ≡ ok db'
    → (out : List OutboxMessage) × (db' ≡ record db { outbox = out })
unfolding enqueue_wallet_event
enqueue-ok e wallet db db' h = (db'.outbox, ground arith)

-- What an append did that succeeded, of a decision on the wallet `w` of the stream `s`.
pub record Added (s : ℕ) (w w' : WalletAggregate) (event : EventData) (db : LedgerDb)
    (stored : StoredEvent) (db' : LedgerDb) : Type 0 where
  pub row : stored ≡ row_of s w.version event db.now
  pub added : db' ≡ record db { events = db.events ++ (row_of s w.version event db.now ∷ []) }
  pub before : rehydrate s (stream s db.events) ≡ ok w
  pub applied : apply w (row_of s w.version event db.now) ≡ ok w'
  pub after : rehydrate s (stream s db'.events) ≡ ok w'
  pub others : (t : ℕ) → t ≢ s → stream t db'.events ≡ stream t db.events
  pub gapless : IsGapless db'.events
  pub same_id : w'.id ≡ s

pub append_event-Added :
    (s : ℕ) (w : WalletAggregate) (event : EventData) (mid more seen later : List StoredEvent)
    (db : LedgerDb) {w' : WalletAggregate} {stored : StoredEvent} {db' : LedgerDb}
    → db.events ≡ mid ++ more
    → db.events ≡ seen ++ later
    → IsGapless mid
    → IsGapless db.events
    → rehydrate s (stream s seen) ≡ ok w
    → ((e : StoredEvent) → Stores w event e → apply w e ≡ ok w')
    → append_event s w.version event mid db ≡ ok (stored, db')
    → Added s w w' event db stored db'
append_event-Added s w event mid more seen later db {w'} {stored} {db'} split all gm gd read effect
      h =
    let row : StoredEvent = row_of s w.version event db.now in
    let (len, stored_row, added, gapless) =
      append_event-ok s w.version event mid more db split gm gd h in
    let (_, version, id) = rehydrate-IsValid s (stream s seen) read in
    let unchanged : stream s db.events ≡ stream s seen = rw all (
      unchanged_stream s seen later
        (subst (λ t. length (stream s t) ≡ length (stream s seen)) all (len ∙ version))) in
    let before : rehydrate s (stream s db.events) ≡ ok w = ap (rehydrate s) unchanged ∙ read in
    let applied : apply w row ≡ ok w' = effect row (row-Stores w s db.now event) in
    let events : db'.events ≡ db.events ++ (row ∷ []) = ap (λ d. d.events) added in
    record {
      row = stored_row;
      added = added;
      before = before;
      applied = applied;
      after =
          ap (λ t. rehydrate s (stream s t)) events
          ∙ ap (rehydrate s) (stream-row s w.version db.now event db.events)
          ∙ rehydrate-row s (stream s db.events) row before applied;
      others = λ t ne. ap (stream t) events ∙ stream-row_ne t s w.version db.now event db.events ne;
      gapless = subst IsGapless (sym events) gapless;
      same_id = apply-id w row applied ∙ id;
    }

-- The steps of a commit that succeeded.
record Steps (wallet : Wallet) (w : WalletAggregate) (event : EventData) (mid : List StoredEvent)
    (db db' : LedgerDb) : Type 0 where
  stored : StoredEvent
  db₁ : LedgerDb
  db₂ : LedgerDb
  updated : WalletAggregate
  projection : WalletBalanceProjection
  appended : append_event wallet.id w.version event mid db ≡ ok (stored, db₁)
  enqueued : enqueue_wallet_event stored wallet db₁ ≡ ok db₂
  applied : apply w stored ≡ ok updated
  saved : project updated db₂ ≡ ok (projection, db')

commit_event-Steps :
    (wallet : Wallet) (w : WalletAggregate) (event : EventData) (mid : List StoredEvent)
    (db : LedgerDb) {view : WalletView} {db' : LedgerDb}
    → commit_event wallet w event mid db ≡ ok (view, db')
    → Steps wallet w event mid db db'
unfolding commit_event
commit_event-Steps wallet w event mid db {view} {db'} h =
    let (a, appended, h1) = >>=-eq-ok (append_event wallet.id w.version event mid db) _ h in
    let (db₂, enqueued, h2) = >>=-eq-ok (enqueue_wallet_event a.0 wallet a.1) _ h1 in
    let (updated, applied, h3) = >>=-eq-ok (apply w a.0) _ h2 in
    let (p, projected, h4) = >>=-eq-ok (project updated db₂) _ h3 in
    let same : p.1 ≡ db' = >>=-snd (to_view wallet p.0) p.1 h4 in
    record {
      stored = a.0;
      db₁ = a.1;
      db₂ = db₂;
      updated = updated;
      projection = p.0;
      appended = appended;
      enqueued = enqueued;
      applied = applied;
      saved = projected ∙ ap (λ d. ok (p.0, d)) same;
    }

-- A commit that succeeded, of a decision on the wallet as it was read from `seen`.
pub commit_event-Committed :
    (wallet : Wallet) (w : WalletAggregate) (event : EventData)
    (mid more seen later : List StoredEvent) (db : LedgerDb) {view : WalletView} {db' : LedgerDb}
    {w' : WalletAggregate}
    → db.events ≡ mid ++ more
    → db.events ≡ seen ++ later
    → IsGapless mid
    → IsGapless db.events
    → rehydrate wallet.id (stream wallet.id seen) ≡ ok w
    → ((e : StoredEvent) → Stores w event e → apply w e ≡ ok w')
    → commit_event wallet w event mid db ≡ ok (view, db')
    → Committed wallet.id w w' db db'
commit_event-Committed wallet w event mid more seen later db {w' = w'} split all gm gd read effect
      h =
    let st = commit_event-Steps wallet w event mid db h in
    let a =
      append_event-Added wallet.id w event mid more seen later db split all gm gd read effect
        st.appended in
    let (out, second) = enqueue-ok st.stored wallet st.db₁ st.db₂ st.enqueued in
    let (projected, third) = project-ok st.updated st.db₂ _ st.saved in
    let same : st.updated ≡ w' = ok-injective (sym st.applied ∙ ap (apply w) a.row ∙ a.applied) in
    let events = ap (λ d. d.events) third ∙ ap (λ d. d.events) second in
    record {
      before = a.before;
      after = ap (λ t. rehydrate wallet.id (stream wallet.id t)) events ∙ a.after;
      row = row_of wallet.id w.version event db.now;
      row_stream = refl;
      added = events ∙ ap (λ d. d.events) a.added;
      projected =
          ap (λ d. d.balances) third
          ∙ ap (λ d. insert st.updated.id st.projection d.balances) second
          ∙ ap (λ d. insert st.updated.id st.projection d.balances) a.added
          ∙ ap (λ p. insert st.updated.id p db.balances) projected
          ∙ ap (λ u. insert u.id (projection_from_aggregate u) db.balances) same
          ∙ ap (λ i. insert i (projection_from_aggregate w') db.balances) a.same_id;
      gapless = subst IsGapless (sym events) a.gapless;
      same_wallets =
          ap (λ d. d.wallets) third ∙ ap (λ d. d.wallets) second ∙ ap (λ d. d.wallets) a.added;
      same_settlements =
          ap (λ d. d.settlements) third
          ∙ ap (λ d. d.settlements) second
          ∙ ap (λ d. d.settlements) a.added;
    }
