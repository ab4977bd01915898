-- ===== src/Ledger/Wallets/Money.antt =====
-- wallets.service.ts, `executeMoneyCommandAttempt`: what a deposit or a withdrawal does.
use p2p_ledger_starter.Ledger.Wallets.Effect.{commit_event-Committed, Committed}
use p2p_ledger_starter.Ledger.Aggregate.Soundness.{rehydrate-IsValid}
use p2p_ledger_starter.Ledger.Wallets.Commands.{
  execute_money_command_attempt, money_fault, decide_money, MoneyOperation, catch, deposit_money,
  withdraw_money,
}
use p2p_ledger_starter.Ledger.Wallets.{
  assert_aggregate_identity, WalletView, load_aggregate, find_wallet,
}
use p2p_ledger_starter.Ledger.Tables.{Wallet, LedgerDb}
use p2p_ledger_starter.Ledger.Fault.{wallet_missing, not_found, Fault}
use p2p_ledger_starter.Ledger.EventStore.Streams.{load_stream_all, IsGapless}
use p2p_ledger_starter.Ledger.EventStore.{load_stream, stream}
use p2p_ledger_starter.Ledger.Event.{StoredEvent, EventData}
use p2p_ledger_starter.Ledger.Aggregate.Replay.{apply, rehydrate}
use p2p_ledger_starter.Ledger.Aggregate.Invariant.{IsValid}
use p2p_ledger_starter.Ledger.Aggregate.Decisions.{
  withdraw-apply, withdraw_overdraft, deposit-apply, after_posting, Stores,
}
use p2p_ledger_starter.Ledger.Aggregate.{WalletAggregate, available_minor}
use p2p_ledger_starter.Common.{
  append_assoc, find-passes, or_throw, >>=-eq-ok, ◌==◌, Bool-cases, leb→le, ◌≢◌, ap, ◌&&◌, Option,
  none, List, ◌++◌, arith, ok, Result, ok-injective, err, ℕ, ◌≡◌, sym, ◌∙◌, subst, some, inl, inr,
}
use p2p_ledger_starter.Common.Int.{leb_ℤ, ℤ, pos, neg, ◌≤ℤ◌}

-- What an operation posts on the wallet.
pub posted_amount : MoneyOperation → ℤ → ℤ
posted_amount deposit_money a = a
posted_amount withdraw_money a = neg a

-- The wallet's funds cover the amount.
pub Covered : MoneyOperation → WalletAggregate → ℤ → Type 0
Covered deposit_money w a = Unit
Covered withdraw_money w a = a ≤ℤ available_minor w

pub catch-ok :
    {A : Type 0} (handler : Fault → Fault) (m : Result Fault A) {a : A}
    → catch handler m ≡ ok a
    → m ≡ ok a
catch-ok handler (ok a) h = h
catch-ok handler (err e) h = absurd (cc)

-- A decision that was taken.
decide_money-apply :
    (operation : MoneyOperation) (w : WalletAggregate) (a : ℤ) (event_id transaction_id : ℕ)
    {d : EventData}
    → IsValid w
    → pos 1 ≤ℤ a
    → decide_money operation w a event_id transaction_id ≡ ok d
    → Covered operation w a
      × ((e : StoredEvent)
          → Stores w d e
          → apply w e ≡ ok (after_posting w (posted_amount operation a)))
unfolding Covered posted_amount
decide_money-apply deposit_money w a i t {d} v p h =
    let (d', decided, effect) = deposit-apply w a i t v p in
    let same : d' ≡ d = ok-injective (sym decided ∙ h) in
    (tt, λ e s. effect e (subst (λ x. Stores w x e) (sym same) s))
decide_money-apply withdraw_money w a i t {d} v p h =
    elim (Bool-cases (leb_ℤ a (available_minor w))) [
      | inl le ↦
          let covered : a ≤ℤ available_minor w = leb→le _ _ le in
          let (d', decided, effect) = withdraw-apply w a i t p covered in
          let same : d' ≡ d = ok-injective (sym decided ∙ h) in
          (covered, λ e s. effect e (subst (λ x. Stores w x e) (sym same) s))
      | inr gt ↦
          let short : ¬ (a ≤ℤ available_minor w) = ground arith in
          let failed = withdraw_overdraft w a i t short in absurd (cc)
    ]

load_stream-nonzero :
    (s : ℕ) (table : List StoredEvent) {es : List StoredEvent}
    → load_stream s 1 table ≡ ok es
    → s ≢ 0
unfolding load_stream
load_stream-nonzero s table h = ground arith

pub load_aggregate-ok :
    (db : LedgerDb) (wallet_id : ℕ) {w : WalletAggregate}
    → IsGapless db.events
    → load_aggregate db wallet_id ≡ ok w
    → rehydrate wallet_id (stream wallet_id db.events) ≡ ok w
unfolding load_aggregate
load_aggregate-ok db wallet_id gapless h =
    let (es, loaded, replayed) = >>=-eq-ok (load_stream wallet_id 1 db.events) _ h in
    let all =
      load_stream_all wallet_id db.events (load_stream-nonzero wallet_id db.events loaded)
        gapless in
    ap (rehydrate wallet_id) (ok-injective (sym all ∙ loaded)) ∙ replayed

pub find_wallet-id :
    (db : LedgerDb) (wallet_id owner_id : ℕ) {wallet : Wallet}
    → find_wallet db wallet_id owner_id ≡ some wallet
    → (wallet.id ≡ wallet_id) × (wallet.owner_id ≡ owner_id)
unfolding find_wallet
find_wallet-id db wallet_id owner_id {wallet} h =
    let passes = find-passes (λ w. w.id == wallet_id && w.owner_id == owner_id) db.wallets h in
    ground arith

pub or_throw-some :
    {A : Type 0} (m : Option A) (fault : Fault) {a : A} → or_throw m fault ≡ ok a → m ≡ some a
or_throw-some none fault h = absurd (cc)
or_throw-some (some x) fault h = ap some (ok-injective h)

-- An attempt reads the wallet from `seen`; its append reads the rows `seen.events ++ between`, and it
-- writes to a database with the rows `between ++ more` added. When it succeeds, the amount was positive
-- and covered, the wallet as committed until then moves by exactly the amount, its projection is
-- written, and no other stream, projection, wallet or settlement changes.
pub execute_money_command_attempt-Committed :
    (seen db : LedgerDb) (between more : List StoredEvent) (wallet_id owner_id : ℕ) (a : ℤ)
    (operation : MoneyOperation) (event_id transaction_id : ℕ) {view : WalletView} {db' : LedgerDb}
    → IsGapless seen.events
    → IsGapless (seen.events ++ between)
    → IsGapless db.events
    → db.events ≡ (seen.events ++ between) ++ more
    → pos 1 ≤ℤ a
    → execute_money_command_attempt seen
        (seen.events ++ between)
        db
        wallet_id
        owner_id
        a
        operation
        event_id
        transaction_id
      ≡ ok (view, db')
    → (w : WalletAggregate) × Covered operation w a
      × Committed wallet_id w (after_posting w (posted_amount operation a)) db db'
unfolding execute_money_command_attempt
execute_money_command_attempt-Committed seen db between more wallet_id owner_id a operation event_id
      transaction_id {db' = db'} gs gm gd split p h =
    let (wallet, found, h1) =
      >>=-eq-ok (or_throw (find_wallet seen wallet_id owner_id) (not_found wallet_missing)) _ h in
    let (w, loaded, h2) = >>=-eq-ok (load_aggregate seen wallet_id) _ h1 in
    let (_, identical, h3) = >>=-eq-ok (assert_aggregate_identity wallet w) _ h2 in
    let (d, decided, h4) =
      >>=-eq-ok (catch money_fault (decide_money operation w a event_id transaction_id)) _ h3 in
    let (same_id, _) =
      find_wallet-id seen wallet_id owner_id (or_throw-some _ (not_found wallet_missing) found) in
    let read = load_aggregate-ok seen wallet_id gs loaded in
    let (valid, _, _) = rehydrate-IsValid wallet_id (stream wallet_id seen.events) read in
    let (covered, effect) =
      decide_money-apply operation w a event_id transaction_id valid p
        (catch-ok money_fault _ decided) in
    (
      w,
      covered,
      subst (λ i. Committed i w (after_posting w (posted_amount operation a)) db db') same_id
          (commit_event-Committed wallet w d (seen.events ++ between) more seen.events
            (between ++ more) db split (split ∙ append_assoc seen.events between more) gm gd
            (subst (λ i. rehydrate i (stream i seen.events) ≡ ok w) (sym same_id) read) effect h4),
    )
