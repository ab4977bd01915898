-- ===== src/Payments/World.antt =====
-- What the code of apps/payments-service reads and writes, and the actions over it: code that may throw
-- keeps what it wrote before, a transaction that throws takes it back.
use p2p_ledger_starter.Common.{ℕ, suc, Result, ok, err, List}
use p2p_ledger_starter.Payments.Tables.{PaymentsDb}
use p2p_ledger_starter.Payments.LedgerGateway.{Exchange}

-- The database, the calls that were made to the ledger, newest first, the clock, and the next id that
-- `randomUUID` gives.
pub record World : Type 0 where
  pub db : PaymentsDb
  pub log : List Exchange
  pub clock : ℕ
  pub next_id : ℕ

abbrev pub Action : Type 0 → Type 0 → Type 0
Action E A = World → Result E A × World

abbrev pub pure : {E A : Type 0} → A → Action E A
pure a w = (ok a, w)

abbrev pub throw : {E A : Type 0} → E → Action E A
throw e w = (err e, w)

abbrev pub lift : {E A : Type 0} → Result E A → Action E A
lift r w = (r, w)

-- What the code between two awaits reads.
abbrev pub gets : {E A : Type 0} → (World → A) → Action E A
gets f w = (ok (f w), w)

abbrev pub modify : {E : Type 0} → (World → World) → Action E (Unit {0})
modify f w = (ok tt, f w)

abbrev pub continue : {E A B : Type 0} → Result E A × World → (A → Action E B) → Result E B × World
continue (ok a, w) f = f a w
continue (err e, w) f = (err e, w)

infixl 5 ◌>>=◌ ◌>>◌
abbrev pub ◌>>=◌ : {E A B : Type 0} → Action E A → (A → Action E B) → Action E B
◌>>=◌ m f w = continue (m w) f

abbrev pub ◌>>◌ : {E B : Type 0} → Action E (Unit {0}) → Action E B → Action E B
m >> k = m >>= λ _. k

-- `try { m } catch (e) { h(e) }`
abbrev pub recover : {E F A : Type 0} → Result E A × World → (E → Action F A) → Result F A × World
recover (ok a, w) h = (ok a, w)
recover (err e, w) h = h e w

abbrev pub handle : {E F A : Type 0} → Action E A → (E → Action F A) → Action F A
handle m h w = recover (m w) h

-- Each error of an action beside a value.
abbrev pub throwing_with : {E F A : Type 0} → F → Action E A → Action (E × F) A
throwing_with f m = handle m (λ e. throw (e, f))

-- `dataSource.transaction(m)`
abbrev pub roll_back : {E A : Type 0} → PaymentsDb → Result E A × World → Result E A × World
roll_back db (ok a, w) = (ok a, w)
roll_back db (err e, w) = (err e, record w { db = db })

abbrev pub transaction : {E A : Type 0} → Action E A → Action E A
transaction m w = roll_back w.db (m w)

-- `randomUUID()`
abbrev pub random_uuid : {E : Type 0} → Action E ℕ
random_uuid w = (ok w.next_id, record w { next_id = suc w.next_id })
