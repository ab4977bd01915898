-- ===== src/Ledger/Wallets/Accounts/Shown.antt =====
-- wallets.service.ts, `getOrCreateForUser`: whose wallet it shows.
use p2p_ledger_starter.Ledger.Wallets.Money.{or_throw-some}
use p2p_ledger_starter.Ledger.Wallets.Effect.{enqueue-ok}
use p2p_ledger_starter.Ledger.Wallets.Commands.{Moments}
use p2p_ledger_starter.Ledger.Wallets.Accounts.Opening.{save_projection-ok, save_wallet-ok}
use p2p_ledger_starter.Ledger.EventStore.{append_within_transaction}
use p2p_ledger_starter.Ledger.Event.{EventData, StoredEvent}
use p2p_ledger_starter.Ledger.Aggregate.{created_event}
use p2p_ledger_starter.Ledger.Wallets.Accounts.{
  is_unique_violation, read_winner, create_in_transaction, open_wallet, save_projection,
  get_or_create_for_user, opening_projection, save_wallet, find_owned, view_wallet,
}
use p2p_ledger_starter.Ledger.Wallets.{
  first_row, enqueue_wallet_event, append_event, to_view, WalletView,
}
use p2p_ledger_starter.Ledger.Transaction.{parse_minor_units}
use p2p_ledger_starter.Ledger.Tables.{LedgerDb, WalletBalanceProjection, Wallet}
use p2p_ledger_starter.Ledger.Fault.{
  projection_missing, no_row, wallet_not_persistent, unique_violation, Fault,
}
use p2p_ledger_starter.Common.{
  any, find-append_new, ensure, Result-cases, Option-cases, ==_refl, Bool-cases, false, not, none,
  List, [], ◌∷◌, ◌++◌, inl, inr, subst, ap, find, find-passes, ◌>>=◌, or_throw, ok-injective, ok,
  >>=-eq-ok, ◌==◌, ℕ, ◌≡◌, sym, ◌∙◌, ◌&&◌, some, arith,
}
use p2p_ledger_starter.Common.Dict.{lookup}

-- What a read of a wallet by its owner and currency has found is what a later read by its id finds: rows of
-- `wallets` are neither changed nor deleted, and have one id each.
abbrev pub Agree : LedgerDb → LedgerDb → Type 0
Agree seen db =
    (owner_id currency : ℕ) (w v : Wallet)
    → find_owned seen owner_id currency ≡ some w
    → find (λ u. u.id == w.id) db.wallets ≡ some v
    → v ≡ w

to_view-wallet :
    (wallet : Wallet) (p : WalletBalanceProjection) (view : WalletView)
    → to_view wallet p ≡ ok view
    → view.wallet ≡ wallet
unfolding to_view
to_view-wallet wallet p view h =
    let (_, _, h1) = >>=-eq-ok (parse_minor_units p.balance_minor) _ h in
    let (_, _, h2) = >>=-eq-ok (parse_minor_units p.held_minor) _ h1 in
    let (_, _, h3) = >>=-eq-ok (parse_minor_units p.available_minor) _ h2 in
    ap (λ (v : WalletView). v.wallet) (sym (ok-injective h3))

view_wallet-wallet :
    (db : LedgerDb) (missing : Fault) (wallet : Wallet) (view : WalletView)
    → view_wallet db missing wallet ≡ ok view
    → view.wallet ≡ wallet
unfolding view_wallet
view_wallet-wallet db missing wallet view h =
    let (p, _, h1) = >>=-eq-ok (or_throw (lookup wallet.id db.balances) missing) _ h in
    to_view-wallet wallet p view h1

pub find_owned-facts :
    (db : LedgerDb) (owner_id currency : ℕ) {w : Wallet}
    → find_owned db owner_id currency ≡ some w
    → (w.owner_id ≡ owner_id) × (w.currency ≡ currency)
find_owned-facts db owner_id currency {w} h =
    let passes = find-passes (λ w. w.owner_id == owner_id && w.currency == currency) db.wallets h in
    ground arith

-- The wallet that a view shows, read again by its id, is a wallet of the owner in the currency.
abbrev pub Shows : ℕ → ℕ → WalletView × LedgerDb → Type 0
Shows owner_id currency created =
    (v : Wallet)
    → find (λ u. u.id == created.0.wallet.id) created.1.wallets ≡ some v
    → (v.owner_id ≡ owner_id) × (v.currency ≡ currency)

found-Shows :
    (seen db : LedgerDb) (owner_id currency : ℕ) (w : Wallet) (missing : Fault)
    (created : WalletView × LedgerDb)
    → Agree seen db
    → find_owned seen owner_id currency ≡ some w
    → (view_wallet seen missing w >>= λ view. ok (view, db)) ≡ ok created
    → Shows owner_id currency created
found-Shows seen db owner_id currency w missing created agree found h v again =
    let (view, viewed, h1) = >>=-eq-ok (view_wallet seen missing w) _ h in
    let is : (view, db) ≡ created = ok-injective h1 in
    let id : created.0.wallet.id ≡ w.id =
      ap (λ (p : WalletView × LedgerDb). p.0.wallet.id) (sym is)
      ∙ ap (λ (u : Wallet). u.id) (view_wallet-wallet seen missing w view viewed) in
    let there : find (λ u. u.id == w.id) db.wallets ≡ some v =
      ap (λ (d : LedgerDb). find (λ u. u.id == w.id) d.wallets)
        (ap (λ (p : WalletView × LedgerDb). p.1) is)
      ∙ ap (λ i. find (λ u. u.id == i) created.1.wallets) (sym id)
      ∙ again in
    subst (λ (u : Wallet). (u.owner_id ≡ owner_id) × (u.currency ≡ currency))
      (sym (agree owner_id currency w v found there))
      (find_owned-facts seen owner_id currency found)

append_event-wallets :
    (stream_id version : ℕ) (event : EventData) (mid : List StoredEvent) (db : LedgerDb)
    (c : StoredEvent × LedgerDb)
    → append_event stream_id version event mid db ≡ ok c
    → c.1.wallets ≡ db.wallets
unfolding append_event
append_event-wallets stream_id version event mid db c h =
    let (appended, _, h1) = >>=-eq-ok (append_within_transaction _ db.now mid db.events) _ h in
    let (stored, _, h2) = >>=-eq-ok (or_throw (first_row appended.1) no_row) _ h1 in
    ap (λ (p : StoredEvent × LedgerDb). p.1.wallets) (sym (ok-injective h2))

save_wallet-fresh :
    (wallet : Wallet) (db db' : LedgerDb)
    → save_wallet wallet db ≡ ok db'
    → any (λ w. w.id == wallet.id) db.wallets ≡ false
unfolding save_wallet
save_wallet-fresh wallet db db' h =
    let (_, fresh, _) =
      >>=-eq-ok (ensure (not (any (λ w. w.id == wallet.id) db.wallets)) unique_violation) _ h in
    ground arith

open_wallet-Shows :
    (wallet : Wallet) (event_id : ℕ) (mid : List StoredEvent) (db : LedgerDb)
    (created : WalletView × LedgerDb)
    → open_wallet wallet event_id mid db ≡ ok created
    → Shows wallet.owner_id wallet.currency created
unfolding open_wallet
open_wallet-Shows wallet event_id mid db created h0 v again =
    let event = created_event event_id wallet.owner_id wallet.currency in
    let (db₁, saved, h1) = >>=-eq-ok (save_wallet wallet db) _ h0 in
    let (c, appended, h2) = >>=-eq-ok (append_event wallet.id 0 event mid db₁) _ h1 in
    let (db₃, enqueued, h3) = >>=-eq-ok (enqueue_wallet_event c.0 wallet c.1) _ h2 in
    let projection = opening_projection wallet.id c.0.stream_version in
    let (db₄, projected, h4) = >>=-eq-ok (save_projection projection db₃) _ h3 in
    let (view, viewed, h5) = >>=-eq-ok (to_view wallet projection) _ h4 in
    let is : (view, db₄) ≡ created = ok-injective h5 in
    let shown : created.0.wallet ≡ wallet =
      ap (λ (p : WalletView × LedgerDb). p.0.wallet) (sym is)
      ∙ to_view-wallet wallet projection view viewed in
    let (_, first) = save_wallet-ok wallet db db₁ saved in
    let (_, third) = enqueue-ok c.0 wallet c.1 db₃ enqueued in
    let fourth = save_projection-ok projection db₃ db₄ projected in
    let wallets : created.1.wallets ≡ db.wallets ++ (wallet ∷ []) =
      ap (λ (p : WalletView × LedgerDb). p.1.wallets) (sym is)
      ∙ ap (λ (d : LedgerDb). d.wallets) fourth
      ∙ ap (λ (d : LedgerDb). d.wallets) third
      ∙ append_event-wallets wallet.id 0 event mid db₁ c appended
      ∙ ap (λ (d : LedgerDb). d.wallets) first in
    let there : find (λ u. u.id == wallet.id) (db.wallets ++ (wallet ∷ [])) ≡ some v =
      ap (λ ws. find (λ u. u.id == wallet.id) ws) (sym wallets)
      ∙ ap (λ (u : Wallet). find (λ u'. u'.id == u.id) created.1.wallets) (sym shown)
      ∙ again in
    let both : some wallet ≡ some v =
      sym (
        find-append_new (λ (u : Wallet). u.id == wallet.id) db.wallets wallet
          (save_wallet-fresh wallet db db₁ saved) (==_refl wallet.id))
      ∙ there in
    let same : wallet ≡ v = cc in
    (ap (λ (u : Wallet). u.owner_id) (sym same), ap (λ (u : Wallet). u.currency) (sym same))

-- Opening or reading a wallet shows one of the user in the currency.
create_in_transaction-Shows :
    (m : Moments) (user_id currency wallet_id event_id : ℕ) (created : WalletView × LedgerDb)
    → Agree m.seen m.db
    → create_in_transaction m user_id currency wallet_id event_id ≡ ok created
    → Shows user_id currency created
unfolding create_in_transaction
create_in_transaction-Shows m user_id currency wallet_id event_id created agree h =
    elim (Option-cases (find_owned m.seen user_id currency)) [
      | inr (raced, found) ↦
          let seen = rw (create_in_transaction, found) at h in
          found-Shows m.seen m.db user_id currency raced no_row created agree found seen
      | inl free ↦
          let opens = rw (create_in_transaction, free) at h in
          open_wallet-Shows (record { id = wallet_id; owner_id = user_id; currency = currency })
            event_id m.mid m.db created opens
    ]

read_winner-Shows :
    (after : LedgerDb) (user_id currency : ℕ) (created : WalletView × LedgerDb)
    → Agree after after
    → read_winner after user_id currency ≡ ok created
    → Shows user_id currency created
unfolding read_winner
read_winner-Shows after user_id currency created agree h =
    let (wallet, found, h1) =
      >>=-eq-ok (or_throw (find_owned after user_id currency) wallet_not_persistent) _ h in
    found-Shows after after user_id currency wallet projection_missing created agree
      (or_throw-some (find_owned after user_id currency) wallet_not_persistent found) h1

pub get_or_create-Shows :
    (before : LedgerDb) (m : Moments) (after : LedgerDb) (user_id currency wallet_id event_id : ℕ)
    (created : WalletView × LedgerDb)
    → Agree m.seen m.db
    → Agree after after
    → find_owned before user_id currency ≡ none
    → get_or_create_for_user before m after user_id currency wallet_id event_id ≡ ok created
    → Shows user_id currency created
unfolding get_or_create_for_user
get_or_create-Shows before m after user_id currency wallet_id event_id created agree winner free h =
    elim (Result-cases (create_in_transaction m user_id currency wallet_id event_id)) [
      | inl (made, done) ↦
          let opens = rw (get_or_create_for_user, free, done) at h in
          create_in_transaction-Shows m user_id currency wallet_id event_id created agree
            (done ∙ opens)
      | inr (e, failed) ↦ elim (Bool-cases (is_unique_violation e)) [
        | inl lost ↦
            let wins = rw (get_or_create_for_user, free, failed, lost) at h in
            read_winner-Shows after user_id currency created winner wins
        | inr kept ↦ let bad = rw (get_or_create_for_user, free, failed, kept) at h in cc
      ]
    ]
