-- ===== src/Ledger/Wallets/Settlement/Settled.antt =====
-- The effect of a settlement on the two wallets, on every other stream, and on the receipts.
use p2p_ledger_starter.Ledger.Wallets.Settlement.Checks.{prepare_settlement-Decided, Decided}
use p2p_ledger_starter.Ledger.Wallets.Effect.{project-ok, enqueue-ok, append_event-Added}
use p2p_ledger_starter.Ledger.Wallets.Commit.{row_of}
use p2p_ledger_starter.Ledger.Wallets.Settlement.{
  project_event, settled_views, finish_settlement, written, SettleMoments, prepare_settlement,
  settle_in_transaction, Prepared, write_settlement, SettledViews, SettleRequest, insert_receipt,
  receipt_of,
}
use p2p_ledger_starter.Ledger.Wallets.{append_event, enqueue_wallet_event}
use p2p_ledger_starter.Ledger.Transaction.{parse_minor_units}
use p2p_ledger_starter.Ledger.Tables.{LedgerDb, LedgerTransferSettlement, WalletBalanceProjection}
use p2p_ledger_starter.Ledger.Fault.{settlement_check, unique_violation}
use p2p_ledger_starter.Ledger.EventStore.Streams.{IsGapless}
use p2p_ledger_starter.Ledger.EventStore.{stream}
use p2p_ledger_starter.Ledger.Event.{StoredEvent}
use p2p_ledger_starter.Ledger.Aggregate.Replay.{apply, rehydrate}
use p2p_ledger_starter.Ledger.Aggregate.Holds.{after_consumption}
use p2p_ledger_starter.Ledger.Aggregate.Decisions.{after_posting}
use p2p_ledger_starter.Ledger.Aggregate.{active, HoldState, WalletAggregate}
use p2p_ledger_starter.Common.{
  >>=-snd, subst, none, [], ◌∷◌, ◌++◌, append_assoc, >>=-eq-ok, ok-injective, ensure, ok, ◌==◌, ℕ,
  ◌≡◌, ◌≢◌, sym, ◌∙◌, ap, false, ◌&&◌, not, some, List, arith,
}
use p2p_ledger_starter.Common.Int.{◌≤ℤ◌, ltb_ℤ, pos}
use p2p_ledger_starter.Common.Dict.{contains, insert, lookup}

-- Transfer `r` has moved its amounts from the sender's hold to the receiver, under a receipt.
pub record Settled (r : SettleRequest) (db db' : LedgerDb) : Type 0 where
  pub sender : WalletAggregate
  pub receiver : WalletAggregate
  pub hold : HoldState
  pub sender_before :
      rehydrate r.command.sender_wallet_id (stream r.command.sender_wallet_id db.events) ≡ ok sender
  pub receiver_before :
      rehydrate r.command.receiver_wallet_id (stream r.command.receiver_wallet_id db.events)
      ≡ ok receiver
  pub found : lookup r.transfer_id sender.holds ≡ some hold
  pub was_active : hold.status ≡ active
  pub same_amount : hold.amount_minor ≡ r.amount_minor
  pub sender_after :
      rehydrate r.command.sender_wallet_id (stream r.command.sender_wallet_id db'.events)
      ≡ ok (after_consumption sender r.transfer_id hold)
  pub receiver_after :
      rehydrate r.command.receiver_wallet_id (stream r.command.receiver_wallet_id db'.events)
      ≡ ok (after_posting receiver r.destination_amount_minor)
  pub debit : StoredEvent
  pub credit : StoredEvent
  pub debit_stream : debit.stream_id ≡ r.command.sender_wallet_id
  pub credit_stream : credit.stream_id ≡ r.command.receiver_wallet_id
  pub added : db'.events ≡ db.events ++ (debit ∷ credit ∷ [])
  pub no_receipt : contains r.transfer_id db.settlements ≡ false
  pub receipt : db'.settlements ≡ insert r.transfer_id (receipt_of r) db.settlements
  pub gapless : IsGapless db'.events

insert_receipt-ok :
    (s : LedgerTransferSettlement) (db db' : LedgerDb)
    → insert_receipt s db ≡ ok db'
    → (contains s.transfer_id db.settlements ≡ false)
      × (db' ≡ record db { settlements = insert s.transfer_id s db.settlements })
unfolding insert_receipt
insert_receipt-ok s db db' h0 =
    let (_, fresh, h1) =
      >>=-eq-ok (ensure (not (contains s.transfer_id db.settlements)) unique_violation) _ h0 in
    let (amount, _, h2) = >>=-eq-ok (parse_minor_units s.amount_minor) _ h1 in
    let (destination, _, h3) = >>=-eq-ok (parse_minor_units s.destination_amount_minor) _ h2 in
    let (_, _, h4) =
      >>=-eq-ok
        (ensure
          (ltb_ℤ (pos 0) amount
            && (ltb_ℤ (pos 0) destination && not (s.sender_wallet_id == s.receiver_wallet_id)))
          settlement_check)
        _ h3 in
    (ground arith, sym (ok-injective h4))

-- What the messages, the projections and the receipt leave of a database.
record Rest (s : LedgerTransferSettlement) (db db' : LedgerDb) : Type 0 where
  same_events : db'.events ≡ db.events
  fresh : contains s.transfer_id db.settlements ≡ false
  receipt : db'.settlements ≡ insert s.transfer_id s db.settlements

project_event-ok :
    (w : WalletAggregate) (stored : StoredEvent) (db db' : LedgerDb) {p : WalletBalanceProjection}
    → project_event w stored db ≡ ok (p, db')
    → (db'.events ≡ db.events) × (db'.settlements ≡ db.settlements)
unfolding project_event
project_event-ok w stored db db' h =
    let (updated, _, h1) = >>=-eq-ok (apply w stored) _ h in
    let (_, projected) = project-ok updated db db' h1 in
    (ap (λ d. d.events) projected, ap (λ d. d.settlements) projected)

finish_settlement-Rest :
    (p : Prepared) (r : SettleRequest) (debit credit : StoredEvent) (db : LedgerDb)
    {views : SettledViews} {db' : LedgerDb}
    → finish_settlement p r debit credit db ≡ ok (views, db')
    → Rest (written p r) db db'
unfolding finish_settlement
finish_settlement-Rest p r debit credit db {views} {db'} h0 =
    let (db₃, first, h1) = >>=-eq-ok (enqueue_wallet_event debit p.sender db) _ h0 in
    let (db₄, second, h2) = >>=-eq-ok (enqueue_wallet_event credit p.receiver db₃) _ h1 in
    let (sp, third, h3) = >>=-eq-ok (project_event p.sender_aggregate debit db₄) _ h2 in
    let (rp, fourth, h4) = >>=-eq-ok (project_event p.receiver_aggregate credit sp.1) _ h3 in
    let (db₇, fifth, h5) = >>=-eq-ok (insert_receipt (written p r) rp.1) _ h4 in
    let same : db₇ ≡ db' = >>=-snd (settled_views p sp.0 rp.0) db₇ h5 in
    let (_, e₁) = enqueue-ok debit p.sender db db₃ first in
    let (_, e₂) = enqueue-ok credit p.receiver db₃ db₄ second in
    let (e₃, s₃) = project_event-ok p.sender_aggregate debit db₄ sp.1 third in
    let (e₄, s₄) = project_event-ok p.receiver_aggregate credit sp.1 rp.1 fourth in
    let (fresh, e₅) = insert_receipt-ok (written p r) rp.1 db₇ fifth in
    let settlements : rp.1.settlements ≡ db.settlements =
      s₄ ∙ s₃ ∙ ap (λ d. d.settlements) e₂ ∙ ap (λ d. d.settlements) e₁ in
    record {
      same_events =
          ap (λ d. d.events) (sym same)
          ∙ ap (λ d. d.events) e₅
          ∙ e₄
          ∙ e₃
          ∙ ap (λ d. d.events) e₂
          ∙ ap (λ d. d.events) e₁;
      fresh = subst (λ t. contains r.transfer_id t ≡ false) settlements fresh;
      receipt =
          ap (λ d. d.settlements) (sym same)
          ∙ ap (λ d. d.settlements) e₅
          ∙ ap (λ t. insert r.transfer_id (written p r) t) settlements;
    }

written-receipt :
    (p : Prepared) (r : SettleRequest)
    → p.sender.id ≡ r.command.sender_wallet_id
    → p.receiver.id ≡ r.command.receiver_wallet_id
    → written p r ≡ receipt_of r
written-receipt p r sender receiver =
    ap (λ i. record (receipt_of r) { sender_wallet_id = i; receiver_wallet_id = p.receiver.id })
      sender
    ∙ ap (λ i. record (receipt_of r) { receiver_wallet_id = i }) receiver

-- The rows that the reads of an attempt met are the first of those that it writes to, and every stream
-- is numbered without gaps.
pub record IsLater (m : SettleMoments) : Type 0 where
  pub later : List StoredEvent
  pub more₁ : List StoredEvent
  pub more₂ : List StoredEvent
  pub since_seen : m.db.events ≡ m.seen.events ++ later
  pub since_mid₁ : m.db.events ≡ m.mid₁ ++ more₁
  pub since_mid₂ : m.db.events ≡ m.mid₂ ++ more₂
  pub gapless_seen : IsGapless m.seen.events
  pub gapless_mid₁ : IsGapless m.mid₁
  pub gapless_mid₂ : IsGapless m.mid₂
  pub gapless_db : IsGapless m.db.events

write_settlement-Settled :
    (m : SettleMoments) (r : SettleRequest) (p : Prepared) {views : SettledViews} {db' : LedgerDb}
    → IsLater m
    → Decided m.seen r p
    → write_settlement p r m.mid₁ m.mid₂ m.db ≡ ok (views, db')
    → Settled r m.db db'
unfolding write_settlement
write_settlement-Settled m r p {db' = db'} l d h =
    let (debit, debited, h1) =
      >>=-eq-ok (append_event p.sender.id p.sender_aggregate.version p.debit_event m.mid₁ m.db) _
        h in
    let (credit, credited, finished) =
      >>=-eq-ok
        (append_event p.receiver.id p.receiver_aggregate.version p.credit_event m.mid₂ debit.1) _
        h1 in
    let a₁ =
      append_event-Added p.sender.id p.sender_aggregate p.debit_event m.mid₁ l.more₁ m.seen.events
        l.later m.db l.since_mid₁ l.since_seen l.gapless_mid₁ l.gapless_db d.sender_read
        d.debit_effect debited in
    let debit_row = row_of p.sender.id p.sender_aggregate.version p.debit_event m.db.now in
    let credit_row = row_of p.receiver.id p.receiver_aggregate.version p.credit_event debit.1.now in
    let row = debit_row ∷ [] in
    let events₁ : debit.1.events ≡ m.db.events ++ row = ap (λ d. d.events) a₁.added in
    let a₂ =
      append_event-Added p.receiver.id p.receiver_aggregate p.credit_event m.mid₂ (l.more₂ ++ row)
        m.seen.events (l.later ++ row) debit.1
        (events₁ ∙ ap (λ t. t ++ row) l.since_mid₂ ∙ append_assoc m.mid₂ l.more₂ row)
        (events₁ ∙ ap (λ t. t ++ row) l.since_seen ∙ append_assoc m.seen.events l.later row)
        l.gapless_mid₂ a₁.gapless d.receiver_read d.credit_effect credited in
    let rest = finish_settlement-Rest p r debit.0 credit.0 credit.1 finished in
    let settlements : credit.1.settlements ≡ m.db.settlements =
      ap (λ d. d.settlements) a₂.added ∙ ap (λ d. d.settlements) a₁.added in
    let same_sender = ap (stream p.sender.id) rest.same_events ∙ a₂.others p.sender.id d.distinct in
    let untouched = a₁.others p.receiver.id (λ e. d.distinct (sym e)) in
    record {
      sender = p.sender_aggregate;
      receiver = p.receiver_aggregate;
      hold = d.hold;
      sender_before =
          subst (λ i. rehydrate i (stream i m.db.events) ≡ ok p.sender_aggregate) d.sender_id
            a₁.before;
      receiver_before =
          subst (λ i. rehydrate i (stream i m.db.events) ≡ ok p.receiver_aggregate) d.receiver_id
            (ap (rehydrate p.receiver.id) (sym untouched) ∙ a₂.before);
      found = d.found;
      was_active = d.is_waiting;
      same_amount = d.same_amount;
      sender_after =
          subst
            (λ i.
              rehydrate i (stream i db'.events)
              ≡ ok (after_consumption p.sender_aggregate r.transfer_id d.hold))
            d.sender_id (ap (rehydrate p.sender.id) same_sender ∙ a₁.after);
      receiver_after =
          subst
            (λ i.
              rehydrate i (stream i db'.events)
              ≡ ok (after_posting p.receiver_aggregate r.destination_amount_minor))
            d.receiver_id
            (ap (λ t. rehydrate p.receiver.id (stream p.receiver.id t)) rest.same_events
              ∙ a₂.after);
      debit = debit_row;
      credit = credit_row;
      debit_stream = d.sender_id;
      credit_stream = d.receiver_id;
      added =
          rest.same_events
          ∙ ap (λ d. d.events) a₂.added
          ∙ ap (λ t. t ++ (credit_row ∷ [])) events₁
          ∙ append_assoc m.db.events row (credit_row ∷ []);
      no_receipt = subst (λ t. contains r.transfer_id t ≡ false) settlements rest.fresh;
      receipt =
          rest.receipt
          ∙ ap (λ t. insert r.transfer_id (written p r) t) settlements
          ∙ ap (λ s. insert r.transfer_id s m.db.settlements)
              (written-receipt p r d.sender_id d.receiver_id);
      gapless = subst IsGapless (sym rest.same_events) a₂.gapless;
    }

-- Where the rows that the reads met are the first of those that the writes go to and every stream
-- is without gaps, and for a transfer id that is not empty and a positive destination amount: a
-- transaction that finds no receipt and settles the transfer consumes the sender's active hold of
-- just the amount, credits the receiver with the destination amount, adds these two events and no
-- other, and leaves a receipt where there was none.
pub settle_in_transaction-Settled :
    (m : SettleMoments) (r : SettleRequest) (debit_id credit_id : ℕ) {views : SettledViews}
    {db' : LedgerDb}
    → IsLater m
    → r.transfer_id ≢ 0
    → pos 1 ≤ℤ r.destination_amount_minor
    → lookup r.transfer_id m.seen.settlements ≡ none
    → settle_in_transaction m r debit_id credit_id ≡ ok (views, db')
    → Settled r m.db db'
unfolding settle_in_transaction
settle_in_transaction-Settled m r debit_id credit_id l ne positive fresh h =
    let (p, prepared, h1) =
      >>=-eq-ok (prepare_settlement m.seen r debit_id credit_id) _
        (rw (fresh, settle_in_transaction) at h) in
    write_settlement-Settled m r p l
      (prepare_settlement-Decided m.seen r debit_id credit_id l.gapless_seen ne positive prepared)
      h1
