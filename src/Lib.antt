-- ===== src/Lib.antt =====
-- The p2p ledger: wallets as event streams, and transfers of money between them.
--
-- The program is a group of services. apps/ledger-service keeps the wallets: every change of a wallet
-- is an event in the append-only table `ledger_events`, a wallet is the fold of its events, and each
-- command appends one event with the version that it expects, writes an outbox message and the balance
-- projection in the same transaction, and tries again when another command was first.
-- apps/payments-service runs transfers: it quotes them, holds the sender's funds, settles them in the
-- ledger, and compensates. apps/notifications-service consumes the events; apps/gateway-service and
-- apps/frontend forward requests.
--
-- Files:
-- - Common and its children: tests, lists, results of code that may throw, integers with their order,
--   maps in insertion order, decimal texts.
-- - Ledger.Fault: one constructor for each error that apps/ledger-service/src throws.
-- - Ledger.Event: apps/ledger-service/src/event-store/event-store.types.ts and stored-event.entity.ts.
-- - Ledger.Transaction: apps/ledger-service/src/ledger/domain/ledger-transaction.ts; its children
--   Amounts and Postings prove the round trip of amounts and the balance of postings.
-- - Ledger.Aggregate: apps/ledger-service/src/wallets/domain/wallet.aggregate.ts; `deposit`,
--   `withdraw`, `place_hold`, `release_hold`, `consume_hold` are the commands, Replay is `apply` and
--   `rehydrate`. Step is the abstract relation that `apply` refines; Invariant, Soundness, Lifecycle,
--   Accounting, Decisions and Holds build on it.
-- - Ledger.EventStore: apps/ledger-service/src/event-store/event-store.service.ts; Streams, Appending
--   and Concurrency are about streams without gaps and appends that race.
-- - Ledger.Tables: the entities of apps/ledger-service/src/wallets/entities and of the outbox.
-- - Ledger.Wallets: apps/ledger-service/src/wallets/wallets.service.ts; Commands is
--   `executeMoneyCommand` and `executeHoldCommand`, Settlement is `settleTransfer`, Accounts is
--   `getOrCreateForUser`, `validateTransfer` (in Transfers, the lookup of users a parameter; Shown and
--   Receivers are about whose wallets these are),
--   `releaseTransferHold` and `placeTransferHold`. Commit, Effect, Money, Retries, HoldEffect,
--   Projection, Decided and the children of Settlement and Accounts prove what they do.
-- - Ledger.Outbox: apps/ledger-service/src/messaging/outbox.service.ts; Claims is about what a claim
--   takes, Locks about the locks of a batch.
-- - Payments.TransferStatus and Payments.FxQuote:
--   apps/payments-service/src/transfers/domain/transfer-status.ts and fx-quote.ts.
-- - Payments.Tables: the entities of apps/payments-service/src, keyed by their primary keys.
-- - Payments.World: what the code of apps/payments-service reads and writes, as a state monad with
--   errors; a transaction that throws takes back what it wrote.
-- - Payments.LedgerGateway: the interface of apps/payments-service/src/transfers/ledger.gateway.ts; its
--   answers are functions of all that was asked before.
-- - Payments.OutboxEvents: the events of apps/payments-service/src/messaging/outbox.service.ts.
-- - Payments.TransferPolicy: apps/payments-service/src/transfers/transfer-policy.service.ts.
-- - Payments.Transfers: `createCanonical` of apps/payments-service/src/transfers/transfers.service.ts;
--   Requests reads requests, Idempotence is about requests that are made again, Conflicts about
--   keys that are used again.
-- - Payments.RateLimit: apps/payments-service/src/transfers/transfer-rate-limit.guard.ts.
-- - Payments.Saga: apps/payments-service/src/transfers/transfer-saga.service.ts, its updates under a
--   lease; Steps is `run` with `handleFailure` and `claim`, Recovery is `recoverDue`. Evolution says how
--   the world may change; Ensures has a rule for each way to build an action; Updates, Claimed,
--   Transitions, Announcing, Endings, Asking, Failures, Progressing and Guarantee go through the code;
--   Safety, Leases and Liveness (with Success, Completion and Paying) state what follows.
-- - Payments.SplitBillStatus and Payments.SplitBills: apps/payments-service/src/split-bills; Money is
--   domain/money.ts, Shares is `shareAmounts`, Bills is `create`, `get` and the views, Payment is
--   `payShare`, Reminders is split-bill-reminder.service.ts; Written, Views and Reminded are about what
--   they write and show.
-- - Examples: runs on concrete wallets, and inputs at which the hypotheses of the theorems hold.
--
-- Conventions. Ids, currencies and texts that the code only compares are numbers, 0 is the empty text;
-- amounts of money are integers, and decimal texts where the code prints and parses them. A number of
-- a request is what `Math.round(amount * 100)` gives. Code that throws returns a result. A transaction
-- that throws leaves the database as it was, so only the result of one that succeeds has a database.
-- Transactions run at the database's default isolation: an attempt takes the moments of its reads and
-- of its writes as separate arguments, and what other transactions commit in between is in the later
-- ones alone. The random ids of an attempt are arguments. The retry loops run on fuel, the number of
-- attempts that the code allows (25), and are shown to end with the answer of an attempt.
--
-- In the payments service the other workers are a function on the world, which takes place before every
-- statement outside a transaction, before every transaction and before every call of the ledger. The
-- saga's theorems ask of it what a run itself gives: it keeps every row sound and only moves the world
-- forward (Evolution). A transaction is one moment; within it other transactions commit nothing. The
-- loop of the saga runs on the eight steps that the code allows, and is shown not to use them up.
--
-- The array that the driver returns for the update of a claim is TypeORM's: its length is a parameter of
-- the saga. The columns of the balance projection have the ranges of the database's types; other columns
-- hold any number.
--
-- Not modelled: HTTP controllers, authentication, the other rate limits, metrics, the message broker (the
-- publisher is a parameter), SQL migrations, foreign keys, the gateway, the frontend and the
-- notifications; of the payments service the HTTP client of the ledger with its circuit breaker,
-- `transition` of a transfer by hand, the list of a user's bills, and the publishing of its outbox.
pub mod Common
pub mod Ledger
pub mod Payments
pub mod Examples
