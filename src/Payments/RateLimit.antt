-- ===== src/Payments/RateLimit.antt =====
-- apps/payments-service/src/transfers/transfer-rate-limit.guard.ts: how many requests a user may make in
-- a window of time. The limit and the length of a window are read from the environment.
use p2p_ledger_starter.Common.{
  ==_refl, refl, ==_iff, ◌∙◌, ap, subst, All, Bool-cases, ◌≤◌, inl, inr, ◌-◌, false, length,
  if◌then◌else◌, ◌==◌, leb, ltb, ℕ, suc, ◌+◌, ◌<◌, ◌≡◌, Bool, true, ◌&&◌, Option, none, some, List,
  [], ◌∷◌, arith,
}
use p2p_ledger_starter.Common.Dict.{lookup-insert, Dict, lookup, insert}

pub record RateLimit : Type 0 where
  pub limit : ℕ
  pub window_ms : ℕ

pub record WindowState : Type 0 where
  pub count : ℕ
  pub reset_at : ℕ

abbrev drop_expired : ℕ → Dict WindowState → Dict WindowState
drop_expired now [] = []
drop_expired now ((user_id, state) ∷ windows) =
    let rest = drop_expired now windows in
    if leb state.reset_at now then rest else (user_id, state) ∷ rest

unfoldable pub prune : ℕ → Dict WindowState → Dict WindowState
prune now windows = if ltb (length windows) 10000 then windows else drop_expired now windows

abbrev opened : RateLimit → ℕ → WindowState
opened config now = record { count = 1; reset_at = now + config.window_ms }

abbrev open_window : RateLimit → ℕ → ℕ → Dict WindowState → Bool × Dict WindowState
open_window config user_id now windows =
    (true, prune now (insert user_id (opened config now) windows))

abbrev count_request : RateLimit → ℕ → ℕ → Dict WindowState → WindowState → Bool × Dict WindowState
count_request config user_id now windows current = (
  leb (suc current.count) config.limit,
  insert user_id (record current { count = suc current.count }) windows,
)

abbrev judge_request :
    RateLimit → ℕ → ℕ → Dict WindowState → Option WindowState → Bool × Dict WindowState
judge_request config user_id now windows none = open_window config user_id now windows
judge_request config user_id now windows (some current) =
    if leb current.reset_at now
    then open_window config user_id now windows
    else count_request config user_id now windows current

-- `canActivate`, with false where it throws; a request without a user has `none`.
unfoldable pub can_activate : RateLimit → Option ℕ → ℕ → Dict WindowState → Bool × Dict WindowState
can_activate config none now windows = (true, windows)
can_activate config (some user_id) now windows =
    judge_request config user_id now windows (lookup user_id windows)

-- How many of some requests, each of a user at a time, are a user's and let through.
abbrev pub admitted : RateLimit → ℕ → List (ℕ × ℕ) → Dict WindowState → ℕ
admitted config user_id [] windows = 0
admitted config user_id ((u, now) ∷ requests) windows =
    let answer = can_activate config (some u) now windows in
    let rest = admitted config user_id requests answer.1 in
    if (u == user_id) && answer.0 then suc rest else rest

lookup-drop_expired :
    (now user_id : ℕ) (state : WindowState) (windows : Dict WindowState)
    → now < state.reset_at
    → lookup user_id windows ≡ some state
    → lookup user_id (drop_expired now windows) ≡ some state
lookup-drop_expired now user_id state [] later found = cc
lookup-drop_expired now user_id state ((u, s) ∷ windows) later found =
    grind (arith, lookup-drop_expired now user_id state windows later)

lookup-prune :
    (now user_id : ℕ) (state : WindowState) (windows : Dict WindowState)
    → now < state.reset_at
    → lookup user_id windows ≡ some state
    → lookup user_id (prune now windows) ≡ some state
unfolding prune
lookup-prune now user_id state windows later found =
    ground (arith, lookup-drop_expired now user_id state windows later found, found)

lookup-insert_other :
    (u user_id : ℕ) (state added : WindowState) (windows : Dict WindowState)
    → (u == user_id) ≡ false
    → lookup user_id windows ≡ some state
    → lookup user_id (insert u added windows) ≡ some state
lookup-insert_other u user_id state added windows other found =
    ground (arith, lookup-insert u user_id added windows, other, found)

open_window-other :
    (config : RateLimit) (u now user_id : ℕ) (state : WindowState) (windows : Dict WindowState)
    → now < state.reset_at
    → (u == user_id) ≡ false
    → lookup user_id windows ≡ some state
    → lookup user_id (open_window config u now windows).1 ≡ some state
open_window-other config u now user_id state windows before other found =
    lookup-prune now user_id state (insert u (opened config now) windows) before
      (lookup-insert_other u user_id state (opened config now) windows other found)

judge_request-other :
    (config : RateLimit) (u now user_id : ℕ) (state : WindowState) (windows : Dict WindowState)
    (own : Option WindowState)
    → now < state.reset_at
    → (u == user_id) ≡ false
    → lookup user_id windows ≡ some state
    → lookup user_id (judge_request config u now windows own).1 ≡ some state
judge_request-other config u now user_id state windows none before other found =
    open_window-other config u now user_id state windows before other found
judge_request-other config u now user_id state windows (some own) before other found =
    let kept = open_window-other config u now user_id state windows before other found in
    let counted =
      lookup-insert_other u user_id state (record own { count = suc own.count }) windows other
        found in
    ground (arith, kept, counted)

judge_request-own :
    (config : RateLimit) (user_id now : ℕ) (state : WindowState) (windows : Dict WindowState)
    → now < state.reset_at
    → judge_request config user_id now windows (some state)
      ≡ count_request config user_id now windows state
judge_request-own config user_id now state windows before = ground arith

lookup-count_request :
    (config : RateLimit) (user_id now : ℕ) (state : WindowState) (windows : Dict WindowState)
    → lookup user_id (count_request config user_id now windows state).1
      ≡ some (record state { count = suc state.count })
lookup-count_request config user_id now state windows =
    ground (arith, lookup-insert user_id user_id (record state { count = suc state.count }) windows)

-- What is left of a window that is open.
admitted-left :
    (config : RateLimit) (user_id : ℕ) (requests : List (ℕ × ℕ)) (windows : Dict WindowState)
    (state : WindowState)
    → lookup user_id windows ≡ some state
    → All (λ r. r.1 < state.reset_at) requests
    → admitted config user_id requests windows ≤ config.limit - state.count
unfolding can_activate
admitted-left config user_id [] windows state found before = omega arith
admitted-left config user_id ((u, now) ∷ requests) windows state found (soon, before) =
    elim (Bool-cases (u == user_id)) [
      | inl own ↦
          let same = ap (λ k. lookup k windows) ((==_iff u user_id).0 own) ∙ found in
          let judged =
            ap (judge_request config u now windows) same
            ∙ judge_request-own config u now state windows soon in
          let next =
            admitted-left config user_id requests (count_request config u now windows state).1
              (record state { count = suc state.count })
              (subst
                (λ k.
                  lookup k (count_request config u now windows state).1
                  ≡ some (record state { count = suc state.count }))
                ((==_iff u user_id).0 own) (lookup-count_request config u now state windows))
              before in
          rw (judged) (ground (arith, next, own))
      | inr other ↦
          let next =
            admitted-left config user_id requests
              (judge_request config u now windows (lookup u windows)).1 state
              (judge_request-other config u now user_id state windows (lookup u windows) soon other
                found)
              before in
          rw (other) next
    ]

-- Whether a request at a time opens a window: there is none, or the one that is there has ended.
abbrev pub opens : ℕ → Option WindowState → Bool
opens now none = true
opens now (some state) = leb state.reset_at now

judge_request-opens :
    (config : RateLimit) (user_id now : ℕ) (windows : Dict WindowState) (own : Option WindowState)
    → opens now own ≡ true
    → judge_request config user_id now windows own ≡ open_window config user_id now windows
judge_request-opens config user_id now windows none ends = refl
judge_request-opens config user_id now windows (some state) ends = rw (ends) refl

-- When a request of a user opens a window, of it and of any requests that follow before the window ends,
-- whoever makes them, at most the limit are the user's and let through, if the limit is positive and a
-- window lasts at all.
pub can_activate-limited :
    (config : RateLimit) (user_id now : ℕ) (requests : List (ℕ × ℕ)) (windows : Dict WindowState)
    → 1 ≤ config.limit
    → 1 ≤ config.window_ms
    → opens now (lookup user_id windows) ≡ true
    → All (λ r. r.1 < now + config.window_ms) requests
    → admitted config user_id ((user_id, now) ∷ requests) windows ≤ config.limit
unfolding can_activate
can_activate-limited config user_id now requests windows some_limit some_time ends before =
    let judged = judge_request-opens config user_id now windows (lookup user_id windows) ends in
    let fresh =
      lookup-insert user_id user_id (opened config now) windows
      ∙ ap (λ b. if b then some (opened config now) else lookup user_id windows)
          (==_refl user_id) in
    let kept =
      lookup-prune now user_id (opened config now) (insert user_id (opened config now) windows)
        (omega (arith, some_time)) fresh in
    let next =
      admitted-left config user_id requests (open_window config user_id now windows).1
        (opened config now) kept before in
    rw (judged) (ground (arith, next, some_limit, ==_refl user_id))
