-- ===== src/Payments/Saga/Recovery.antt =====
-- `recoverDue` of transfer-saga.service.ts: the transfers that are due, one run after the other; an
-- error that a run throws ends the pass.
use p2p_ledger_starter.Payments.Tables.{Transfer}
use p2p_ledger_starter.Payments.Saga.Steps.{run, is_due}
use p2p_ledger_starter.Payments.Saga.{SagaError, SagaConfig}
use p2p_ledger_starter.Common.{
  ℕ, zero, suc, Bool, none, some, List, [], ◌∷◌, keep, map, length, if◌then◌else◌, leb, ltb, ◌==◌,
  ◌&&◌, ◌||◌,
}
use p2p_ledger_starter.Common.Dict.{Dict}
use p2p_ledger_starter.Payments.World.{Action, ◌>>=◌, ◌>>◌, pure, modify, gets}

-- `COALESCE(next_retry_at, created_at)`
abbrev due_at : Transfer → ℕ
due_at row = elim row.next_retry_at [ none ↦ row.created_at | some t ↦ t ]

-- `ORDER BY COALESCE(next_retry_at, created_at), created_at`
abbrev is_due_before : Transfer → Transfer → Bool
is_due_before a b =
    ltb (due_at a) (due_at b) || (due_at a == due_at b && leb a.created_at b.created_at)

unfoldable pub insert_due : Transfer → List Transfer → List Transfer
insert_due row [] = row ∷ []
insert_due row (next ∷ rows) =
    let rest = insert_due row rows in
    if is_due_before row next then row ∷ next ∷ rows else next ∷ rest

unfoldable pub sort_due : List Transfer → List Transfer
sort_due [] = []
sort_due (row ∷ rows) = insert_due row (sort_due rows)

-- `LIMIT`
abbrev pub take_due {ℓ} : {A : Type ℓ} → ℕ → List A → List A
take_due zero xs = []
take_due (suc n) [] = []
take_due (suc n) (x ∷ xs) = x ∷ take_due n xs

unfoldable pub due_ids : ℕ → ℕ → Dict Transfer → List ℕ
due_ids now limit transfers =
    map (λ row. row.id) (take_due limit (sort_due (keep (is_due now) (map (λ e. e.1) transfers))))

unfoldable pub run_each : SagaConfig → ℕ → List ℕ → Action SagaError (Unit {0})
run_each config now [] = pure tt
run_each config now (id ∷ ids) = run config id now >> run_each config now ids

-- The number of transfers that were due.
unfoldable pub recover_due : SagaConfig → ℕ → ℕ → Action SagaError ℕ
recover_due config now limit =
    modify config.arrive >> gets (λ w. due_ids now limit w.db.transfers) >>= λ ids.
    run_each config now ids >> pure (length ids)
