-- ===== src/Ledger/Wallets/Accounts/Opening.antt =====
-- What opening a wallet does.
use p2p_ledger_starter.Ledger.Wallets.Effect.{append_event-Added, enqueue-ok}
use p2p_ledger_starter.Ledger.Wallets.Commit.{row_of}
use p2p_ledger_starter.Ledger.Wallets.Accounts.{
  save_wallet, find_owned, open_wallet, save_projection, opening_projection,
}
use p2p_ledger_starter.Ledger.Wallets.{
  WalletView, check_projection, enqueue_wallet_event, to_view, append_event,
}
use p2p_ledger_starter.Ledger.Tables.{LedgerDb, WalletBalanceProjection, Wallet}
use p2p_ledger_starter.Ledger.Fault.{unique_violation}
use p2p_ledger_starter.Ledger.EventStore.Streams.{IsGapless}
use p2p_ledger_starter.Ledger.EventStore.{stream}
use p2p_ledger_starter.Ledger.Event.{StoredEvent}
use p2p_ledger_starter.Ledger.Aggregate.Replay.{rehydrate, apply_created, apply}
use p2p_ledger_starter.Ledger.Aggregate.Decisions.{Stores}
use p2p_ledger_starter.Ledger.Aggregate.{created_event, empty}
use p2p_ledger_starter.Common.{
  any, >>=-eq-ok, ok-injective, >>=-snd, ok, ensure, ◌==◌, is_some, ℕ, ◌≡◌, refl, sym, ◌∙◌, ap,
  subst, not, none, some, List, [], ◌∷◌, ◌++◌, arith,
}
use p2p_ledger_starter.Common.Dict.{insert}

-- A wallet that was opened is there once for its owner's currency, and its stream has the one event
-- that makes it an empty wallet.
pub record Opened (wallet : Wallet) (db db' : LedgerDb) : Type 0 where
  pub was_free : find_owned db wallet.owner_id wallet.currency ≡ none
  pub added_wallet : db'.wallets ≡ db.wallets ++ (wallet ∷ [])
  pub after :
      rehydrate wallet.id (stream wallet.id db'.events)
      ≡ ok (record (empty wallet.id) {
        version = 1;
        owner_id = some wallet.owner_id;
        currency = some wallet.currency;
      })
  pub row : StoredEvent
  pub row_stream : row.stream_id ≡ wallet.id
  pub added : db'.events ≡ db.events ++ (row ∷ [])
  pub projected : db'.balances ≡ insert wallet.id (opening_projection wallet.id 1) db.balances

pub save_wallet-ok :
    (wallet : Wallet) (db db' : LedgerDb)
    → save_wallet wallet db ≡ ok db'
    → (find_owned db wallet.owner_id wallet.currency ≡ none)
      × (db' ≡ record db { wallets = db.wallets ++ (wallet ∷ []) })
unfolding save_wallet
save_wallet-ok wallet db db' h =
    let (_, _, h1) =
      >>=-eq-ok (ensure (not (any (λ w. w.id == wallet.id) db.wallets)) unique_violation) _ h in
    let (_, free, h2) =
      >>=-eq-ok
        (ensure (not (is_some (find_owned db wallet.owner_id wallet.currency))) unique_violation) _
        h1 in
    (ground arith, sym (ok-injective h2))

pub save_projection-ok :
    (p : WalletBalanceProjection) (db db' : LedgerDb)
    → save_projection p db ≡ ok db'
    → db' ≡ record db { balances = insert p.wallet_id p db.balances }
unfolding save_projection
save_projection-ok p db db' h =
    let (_, _, h1) = >>=-eq-ok (check_projection p) _ h in sym (ok-injective h1)

created-apply :
    (wallet : Wallet) (event_id : ℕ) (e : StoredEvent)
    → Stores (empty wallet.id) (created_event event_id wallet.owner_id wallet.currency) e
    → apply (empty wallet.id) e
      ≡ ok (record (empty wallet.id) {
        version = 1;
        owner_id = some wallet.owner_id;
        currency = some wallet.currency;
      })
unfolding apply apply_created created_event
created-apply wallet event_id e s =
    rw (s.next_version, s.same_type, s.same_schema, s.same_payload) refl

-- Where the append reads the first of the rows that it adds to and every stream is without gaps:
-- opening a wallet that succeeds adds it where its owner had none of the currency, with one event
-- that makes it an empty wallet, and a projection of zeros.
pub open_wallet-Opened :
    (wallet : Wallet) (event_id : ℕ) (mid more : List StoredEvent) (db : LedgerDb)
    {view : WalletView} {db' : LedgerDb}
    → db.events ≡ mid ++ more
    → IsGapless mid
    → IsGapless db.events
    → open_wallet wallet event_id mid db ≡ ok (view, db')
    → Opened wallet db db'
unfolding open_wallet
open_wallet-Opened wallet event_id mid more db {db' = db'} split gm gd h0 =
    let event = created_event event_id wallet.owner_id wallet.currency in
    let (db₁, saved, h1) = >>=-eq-ok (save_wallet wallet db) _ h0 in
    let (c, appended, h2) = >>=-eq-ok (append_event wallet.id 0 event mid db₁) _ h1 in
    let (db₃, enqueued, h3) = >>=-eq-ok (enqueue_wallet_event c.0 wallet c.1) _ h2 in
    let projection = opening_projection wallet.id c.0.stream_version in
    let (db₄, projected, h4) = >>=-eq-ok (save_projection projection db₃) _ h3 in
    let same : db₄ ≡ db' = >>=-snd (to_view wallet projection) db₄ h4 in
    let (free, first) = save_wallet-ok wallet db db₁ saved in
    let events₁ : db₁.events ≡ db.events = ap (λ d. d.events) first in
    let a =
      append_event-Added wallet.id (empty wallet.id) event mid more [] db₁.events db₁
        (events₁ ∙ split) refl gm (subst IsGapless (sym events₁) gd) (unfold rehydrate in refl)
        (created-apply wallet event_id) appended in
    let (_, third) = enqueue-ok c.0 wallet c.1 db₃ enqueued in
    let fourth = save_projection-ok projection db₃ db₄ projected in
    let events : db'.events ≡ c.1.events =
      ap (λ d. d.events) (sym same) ∙ ap (λ d. d.events) fourth ∙ ap (λ d. d.events) third in
    record {
      was_free = free;
      added_wallet =
          ap (λ d. d.wallets) (sym same)
          ∙ ap (λ d. d.wallets) fourth
          ∙ ap (λ d. d.wallets) third
          ∙ ap (λ d. d.wallets) a.added
          ∙ ap (λ d. d.wallets) first;
      after = ap (λ t. rehydrate wallet.id (stream wallet.id t)) events ∙ a.after;
      row = row_of wallet.id 0 event db₁.now;
      row_stream = refl;
      added =
          events
          ∙ ap (λ d. d.events) a.added
          ∙ ap (λ t. t ++ (row_of wallet.id 0 event db₁.now ∷ [])) events₁;
      projected =
          ap (λ d. d.balances) (sym same)
          ∙ ap (λ d. d.balances) fourth
          ∙ ap (λ n. insert wallet.id (opening_projection wallet.id n) db₃.balances)
              (ap (λ e. e.stream_version) a.row)
          ∙ ap (λ d. insert wallet.id (opening_projection wallet.id 1) d.balances) third
          ∙ ap (λ d. insert wallet.id (opening_projection wallet.id 1) d.balances) a.added
          ∙ ap (λ d. insert wallet.id (opening_projection wallet.id 1) d.balances) first;
    }
