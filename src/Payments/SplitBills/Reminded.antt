-- ===== src/Payments/SplitBills/Reminded.antt =====
-- A share is reminded of once, and each reminder has its message.
use p2p_ledger_starter.Common.Dict.{lookup}
use p2p_ledger_starter.Payments.Tables.{Unexpected, SplitBillShare, SplitBill, SplitBillReminder}
use p2p_ledger_starter.Payments.SplitBills.Reminders.{
  overdue_ids, remind_share, remind_each, detect_and_enqueue, RemindersConfig, reminds, draw_two,
  remind,
}
use p2p_ledger_starter.Payments.OutboxEvents.{insert_event}
use p2p_ledger_starter.Payments.World.{◌>>=◌, continue, roll_back, pure, Action, World}
use p2p_ledger_starter.Common.{
  Result, err, Option-cases, Option, none, some, ==_iff, ℕ, suc, ◌+◌, ◌≤◌, ◌≡◌, refl, sym, ◌∙◌, ap,
  subst, Bool, false, List, [], ◌∷◌, ◌++◌, any, keep, keep-append, length, length-append, ok,
  ok-injective, ◌==◌, arith, Bool-cases, inl, inr,
}

-- How many reminders a share has.
abbrev pub count_reminders : ℕ → World → ℕ
count_reminders share_id w = length (keep (reminds share_id) w.db.reminders)

-- So many reminders and messages were added, and no share has come to have more than one.
pub record Reminded (n : ℕ) (w next : World) : Type 0 where
  pub rows : length next.db.reminders ≡ n + length w.db.reminders
  pub tells : length next.db.outbox ≡ n + length w.db.outbox
  pub once : (share_id : ℕ) → count_reminders share_id w ≤ 1 → count_reminders share_id next ≤ 1

Reminded-nothing : (w next : World) → next.db ≡ w.db → Reminded 0 w next
Reminded-nothing w next same = record {
  rows = ap (λ db. length db.reminders) same ∙ (omega arith);
  tells = ap (λ db. length db.outbox) same ∙ (omega arith);
  once = λ share_id h. subst (λ db. length (keep (reminds share_id) db.reminders) ≤ 1) (sym same) h;
}

Reminded-then : {m n : ℕ} {u v w : World} → Reminded m u v → Reminded n v w → Reminded (m + n) u w
Reminded-then f g = record {
  rows = omega (arith, f.rows, g.rows);
  tells = omega (arith, f.tells, g.tells);
  once = λ share_id h. g.once share_id (f.once share_id h);
}

length-snoc {ℓ} : {A : Type ℓ} (xs : List A) (x : A) → length (xs ++ (x ∷ [])) ≡ 1 + length xs
length-snoc xs x = omega (arith, length-append xs (x ∷ []))

none-keep {ℓ} :
    {A : Type ℓ} (p : A → Bool) (xs : List A) → any p xs ≡ false → length (keep p xs) ≡ 0
none-keep p [] h = refl
none-keep p (x ∷ xs) h = ground (arith, none-keep p xs)

-- A row that is added for a share without one.
once-snoc :
    (reminders : List SplitBillReminder) (row : SplitBillReminder) (share_id : ℕ)
    → any (reminds row.share_id) reminders ≡ false
    → length (keep (reminds share_id) reminders) ≤ 1
    → length (keep (reminds share_id) (reminders ++ (row ∷ []))) ≤ 1
once-snoc reminders row share_id fresh h =
    let is = keep-append (reminds share_id) reminders (row ∷ []) in
    elim (Bool-cases (row.share_id == share_id)) [
      | inr other ↦
          rw (is, other) (omega (arith, length-append (keep (reminds share_id) reminders) [], h))
      | inl same ↦
          let here : row.share_id ≡ share_id = (==_iff row.share_id share_id).0 same in
          let empty =
            none-keep (reminds share_id) reminders
              (ap (λ s. any (reminds s) reminders) (sym here) ∙ fresh) in
          rw (is, same)
            (omega (arith, length-append (keep (reminds share_id) reminders) (row ∷ []), empty))
    ]

remind-Reminded :
    (bill : SplitBill) (share : SplitBillShare) (w : World) {n : ℕ}
    → (remind bill share w).0 ≡ ok n
    → Reminded n w (remind bill share w).1
unfolding remind
remind-Reminded bill share w {n} done = elim (Bool-cases (any (reminds share.id) w.db.reminders)) [
  | inl known ↦
      let zero_ : 0 ≡ n = ok-injective (rw (remind, known) at done) in
      rw (remind, known)
        (subst (λ k. Reminded k w (draw_two w)) zero_ (Reminded-nothing w (draw_two w) refl))
  | inr unknown ↦ elim (Bool-cases (any (λ m. m.event_id == suc w.next_id) w.db.outbox)) [
    | inl taken ↦ let bad = rw (remind, unknown, insert_event, taken) at done in cc
    | inr fresh ↦
        let one : 1 ≡ n = ok-injective (rw (remind, unknown, insert_event, fresh) at done) in
        rw (remind, unknown, insert_event, fresh, ← one)
          (record {
            rows = length-snoc w.db.reminders _;
            tells = length-snoc w.db.outbox _;
            once = λ share_id h. once-snoc w.db.reminders _ share_id unknown h;
          })
  ]
]

remind_share-Reminded :
    (share : Option SplitBillShare) (w : World) {n : ℕ}
    → (remind_share share w).0 ≡ ok n
    → Reminded n w (remind_share share w).1
remind_share-Reminded none w {n} done =
    subst (λ k. Reminded k w w) (ok-injective done) (Reminded-nothing w w refl)
remind_share-Reminded (some share) w {n} done =
    elim (Option-cases (lookup share.bill_id w.db.bills)) [
      | inl missing ↦ let bad = rw (remind_share, missing) at done in cc
      | inr (bill, found) ↦
          rw (remind_share, found) (remind-Reminded bill share w (rw (remind_share, found) at done))
    ]

-- The count of a chain is the sum of the counts of its halves.
added-Reminded :
    (a : ℕ) (w next : World) (rest : Result Unexpected ℕ × World) {n : ℕ}
    → Reminded a w next
    → ((b : ℕ) → rest.0 ≡ ok b → Reminded b next rest.1)
    → (continue rest (λ b. pure (a + b))).0 ≡ ok n
    → Reminded n w (continue rest (λ b. pure (a + b))).1
added-Reminded a w next (ok b, last) {n} one more done =
    subst (λ k. Reminded k w last) (ok-injective done) (Reminded-then one (more b refl))
added-Reminded a w next (err e, last) {n} one more done = cc

chained-Reminded :
    (w : World) (first : Result Unexpected ℕ × World) (rest : Action Unexpected ℕ) {n : ℕ}
    → ((a : ℕ) → first.0 ≡ ok a → Reminded a w first.1)
    → ((b : ℕ) → (rest first.1).0 ≡ ok b → Reminded b first.1 (rest first.1).1)
    → (continue first (λ a. rest >>= λ b. pure (a + b))).0 ≡ ok n
    → Reminded n w (continue first (λ a. rest >>= λ b. pure (a + b))).1
chained-Reminded w (ok a, next) rest one more done =
    added-Reminded a w next (rest next) (one a refl) more done
chained-Reminded w (err e, next) rest one more done = cc

remind_each-Reminded :
    (ids : List ℕ) (w : World) {n : ℕ}
    → (remind_each ids w).0 ≡ ok n
    → Reminded n w (remind_each ids w).1
unfolding remind_each
remind_each-Reminded [] w done =
    subst (λ k. Reminded k w w) (ok-injective done) (Reminded-nothing w w refl)
remind_each-Reminded (id ∷ ids) w done =
    let first = remind_share (lookup id w.db.shares) w in
    chained-Reminded w first (remind_each ids)
      (λ a h. remind_share-Reminded (lookup id w.db.shares) w h)
      (λ b h. remind_each-Reminded ids first.1 h) done

committed-Reminded :
    (w : World) (outcome : Result Unexpected ℕ × World) {n : ℕ}
    → ((k : ℕ) → outcome.0 ≡ ok k → Reminded k w outcome.1)
    → (roll_back w.db outcome).0 ≡ ok n
    → Reminded n w (roll_back w.db outcome).1
committed-Reminded w (ok k, last) holds done =
    subst (λ m. Reminded m w last) (ok-injective done) (holds k refl)
committed-Reminded w (err e, last) holds done = cc

-- A pass over the overdue shares that answers a number has added so many reminders and so many messages
-- to what it found, and a share that had one reminder at most has one at most behind it.
pub detect_and_enqueue-once :
    (config : RemindersConfig) (now limit n share_id : ℕ) (w : World)
    → (detect_and_enqueue config now limit w).0 ≡ ok n
    → count_reminders share_id (config.arrive w) ≤ 1
    → (count_reminders share_id (detect_and_enqueue config now limit w).1 ≤ 1)
      × (length (detect_and_enqueue config now limit w).1.db.reminders
          ≡ n + length (config.arrive w).db.reminders)
      × (length (detect_and_enqueue config now limit w).1.db.outbox
          ≡ n + length (config.arrive w).db.outbox)
unfolding detect_and_enqueue
detect_and_enqueue-once config now limit n share_id w done before =
    let start : World = config.arrive w in
    let ids = overdue_ids config now limit start in
    let reminded =
      committed-Reminded start (remind_each ids start) (λ k h. remind_each-Reminded ids start h)
        done in
    (reminded.once share_id before, reminded.rows, reminded.tells)
