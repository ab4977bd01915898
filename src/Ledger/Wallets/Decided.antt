-- ===== src/Ledger/Wallets/Decided.antt =====
-- What a command has decided is what a replay reads from the row that its event becomes.
use p2p_ledger_starter.Ledger.Aggregate.Lifecycle.{replay_from_keeps_hold}
use p2p_ledger_starter.Ledger.Wallets.Commit.{row_of, row-Stores}
use p2p_ledger_starter.Ledger.Fault.{insufficient_funds}
use p2p_ledger_starter.Ledger.Event.{StoredEvent, EventData}
use p2p_ledger_starter.Ledger.Aggregate.Replay.{replay_from, apply, with_hold}
use p2p_ledger_starter.Ledger.Aggregate.Invariant.{IsValid}
use p2p_ledger_starter.Ledger.Aggregate.Holds.{
  release_hold-apply, place_hold-apply, consume_hold-apply, after_consumption,
}
use p2p_ledger_starter.Ledger.Aggregate.Decisions.{
  withdraw-apply, after_posting, deposit-apply, withdraw_overdraft,
}
use p2p_ledger_starter.Ledger.Aggregate.{
  released, withdraw, WalletAggregate, release_hold, place_hold, HoldState, active, consume_hold,
  available_minor, deposit,
}
use p2p_ledger_starter.Common.{
  ◌<◌, List, ok, err, leb→le, Bool-cases, ℕ, ◌+◌, ◌≡◌, ◌≢◌, none, some, arith, inl, inr, ◌⊎◌,
}
use p2p_ledger_starter.Common.Int.{int_laws, ◌+ℤ◌, pos, leb_ℤ, ℤ, ◌≤ℤ◌, neg}
use p2p_ledger_starter.Common.Dict.{lookup}

-- A deposit of a positive amount into a valid wallet is decided, and a replay of the row that its event
-- becomes adds just the amount to the balance.
pub deposit-row :
    (w : WalletAggregate) (a : ℤ) (event_id transaction_id stream_id now : ℕ)
    → IsValid w
    → pos 1 ≤ℤ a
    → (d : EventData) × (deposit w a event_id transaction_id ≡ ok d)
      × (apply w (row_of stream_id w.version d now) ≡ ok (after_posting w a))
deposit-row w a event_id transaction_id stream_id now v p =
    let (d, decided, effect) = deposit-apply w a event_id transaction_id v p in
    (d, decided, effect (row_of stream_id w.version d now) (row-Stores w stream_id now d))

-- A withdrawal of a positive amount is decided just if the available funds cover it, and a replay
-- of the row that its event becomes then takes just the amount; otherwise it is refused.
pub withdraw-row :
    (w : WalletAggregate) (a : ℤ) (event_id transaction_id stream_id now : ℕ)
    → pos 1 ≤ℤ a
    → ((d : EventData) × (a ≤ℤ available_minor w)
        × (withdraw w a event_id transaction_id ≡ ok d)
        × (apply w (row_of stream_id w.version d now) ≡ ok (after_posting w (neg a))))
      ⊎ ((available_minor w +ℤ pos 1 ≤ℤ a)
          × (withdraw w a event_id transaction_id ≡ err insufficient_funds))
withdraw-row w a event_id transaction_id stream_id now p =
    elim (Bool-cases (leb_ℤ a (available_minor w))) [
      | inl le ↦
          let covered : a ≤ℤ available_minor w = leb→le _ _ le in
          let (d, decided, effect) = withdraw-apply w a event_id transaction_id p covered in
          inl (
            d,
            covered,
            decided,
            effect (row_of stream_id w.version d now) (row-Stores w stream_id now d),
          )
      | inr gt ↦
          let short : ¬ (a ≤ℤ available_minor w) = ground arith in
          inr (omega int_laws, withdraw_overdraft w a event_id transaction_id short)
    ]

-- A new hold with an id that is not empty, of a positive amount that the available funds cover, is
-- placed, and the row that its event becomes makes it active with its amount.
pub place_hold-row :
    (w : WalletAggregate) (k : ℕ) (a : ℤ) (event_id stream_id now : ℕ)
    → k ≢ 0
    → lookup k w.holds ≡ none
    → pos 1 ≤ℤ a
    → a ≤ℤ available_minor w
    → (d : EventData) × (place_hold w k a event_id ≡ ok (some d))
      × (apply w (row_of stream_id w.version d now)
          ≡ ok (with_hold w (w.version + 1) k (record { amount_minor = a; status = active })))
place_hold-row w k a event_id stream_id now ne fresh p c =
    let (d, decided, effect) = place_hold-apply w k a event_id ne fresh p c in
    (d, decided, effect (row_of stream_id w.version d now) (row-Stores w stream_id now d))

-- An active hold of a positive amount, with an id that is not empty, can be released, which gives
-- its amount back, and it can be consumed, which takes its amount off the balance.
pub active_hold-row :
    (w : WalletAggregate) (k event_id transaction_id stream_id now : ℕ) {hold : HoldState}
    → k ≢ 0
    → pos 1 ≤ℤ hold.amount_minor
    → lookup k w.holds ≡ some hold
    → hold.status ≡ active
    → (d : EventData) × (d' : EventData) × (release_hold w k event_id ≡ ok (some d))
      × (apply w (row_of stream_id w.version d now)
          ≡ ok (with_hold w (w.version + 1) k (record hold { status = released })))
      × (consume_hold w k event_id transaction_id ≡ ok (some d'))
      × (apply w (row_of stream_id w.version d' now) ≡ ok (after_consumption w k hold))
active_hold-row w k event_id transaction_id stream_id now ne p found waiting =
    let (d, freed, effect) = release_hold-apply w k event_id ne found waiting in
    let (d', spent, effect') = consume_hold-apply w k event_id transaction_id ne p found waiting in
    (
      d,
      d',
      freed,
      effect (row_of stream_id w.version d now) (row-Stores w stream_id now d),
      spent,
      effect' (row_of stream_id w.version d' now) (row-Stores w stream_id now d'),
    )

settled_hold-decides_nothing :
    (w : WalletAggregate) (k : ℕ) (a : ℤ) (event_id transaction_id : ℕ) (d : EventData)
    {hold : HoldState}
    → lookup k w.holds ≡ some hold
    → hold.status ≢ active
    → (place_hold w k a event_id ≢ ok (some d))
      × (release_hold w k event_id ≢ ok (some d))
      × (consume_hold w k event_id transaction_id ≢ ok (some d))
unfolding place_hold release_hold consume_hold
settled_hold-decides_nothing w k a event_id transaction_id d {hold} found settled =
    (λ h. ground arith, λ h. ground arith, λ h. ground arith)

-- From a wallet with an event on, once a hold is released or consumed, no command finds an event to
-- append for it ever again, whatever further events the replay accepts: it is not placed, not
-- released and not consumed a second time.
pub replay_from_ends_hold :
    (w : WalletAggregate) (es : List StoredEvent) (w' : WalletAggregate) (k : ℕ) (a : ℤ)
    (event_id transaction_id : ℕ) (d : EventData) (hold : HoldState)
    → replay_from w es ≡ ok w'
    → 0 < w.version
    → lookup k w.holds ≡ some hold
    → hold.status ≢ active
    → (place_hold w' k a event_id ≢ ok (some d))
      × (release_hold w' k event_id ≢ ok (some d))
      × (consume_hold w' k event_id transaction_id ≢ ok (some d))
replay_from_ends_hold w es w' k a event_id transaction_id d hold replayed opened found settled =
    settled_hold-decides_nothing w' k a event_id transaction_id d
      (replay_from_keeps_hold w es k hold replayed opened found settled) settled
