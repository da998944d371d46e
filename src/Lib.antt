-- ===== src/Lib.antt =====
-- PlotMerit (apex-appraise): a model of the parts of the API that keep an account safe, deliver its
-- events and keep the versions of an appraisal, the terms that a client signs and the payments of a
-- buyer, of the appraisal engine that every screen and report computes with, and, of the web
-- application, of the pagination of a funding pack and the offline queue of photographs.
--
-- The program and its parts. `apps/api` is a tRPC server over a Postgres database (Prisma);
-- `packages/appraisal-engine` is the pure calculation core that the server, the web application in
-- `apps/web` and the MCP server share; `packages/types` holds the catalogues that both ends read. A
-- mutation passes the guards of its procedure, the role test and the trial clock among them, then the
-- plan checks, then its handler, and a query the guards alone; handlers compute with the
-- engine and emit webhook events, which a worker delivers; reports render in a few slots. Sign-in and
-- password resets pass the throttle.
--
-- Files and sources.
--   Common: lists, tests, results, sorting and text that the other modules share.
--   Table: a database table as a list of rows, with Prisma's updateMany, deleteMany, upsert and count.
--     Table/Keyed has the laws for a column as key, Table/Unique for a key that no two rows share,
--     Table/Counting for counts and lookups under one.
--   Auth/Throttle: apps/api/src/auth/password.ts. The rows of AuthThrottle and checkLockout,
--     recordFailure, recordSuccess, tooManyResetRequests, pruneAuthThrottles (Row), and what they make
--     together: lockouts (Lockout), the reset window (Resets), pruning (Pruning).
--   Plans: packages/types/src/plan.ts (Catalogue), apps/api/src/entitlements.ts (Entitlements) and
--     apps/api/src/trial.ts (Trial), and the guards of apps/api/src/trpc.ts and http-guards.ts in front of a
--     handler, with the role test of auth/roles.ts (Guards).
--   Webhooks: apps/api/src/webhook-delivery.ts. The rows and queries (Delivery), the worker's pass and
--     emitWebhook (Drain, with its properties in Draining), the parking of endpoints (Parking), and
--     the claims of workers that run at the same time (Claims): a step is one query of one worker, a
--     run is any sequence of steps, so that what holds of every run holds of every interleaving.
--   Engine: packages/appraisal-engine/src/engine.ts and types.ts. Types has the inputs and results.
--     computeAppraisal is divided as its source is: Income (capitaliseIncome), Phases (absorption and
--     phaseCalc), Series (the spread of costs and revenue over months, with their lengths in
--     Lengths), Scheme (totals, programme and the two series), Facility (the monthly loan), Appraisal (finance, land or profit, cashflow), with
--     Spend (buildSpendProfile), Irr (irr, annualise) and Duty (SDLT). Sensitivity has the grid and the
--     declaration of what a site mode pins, Waterfall the JV split, Indicative autoAppraise, Dcf
--     discountedCashflow, and Histogram the bins of a Monte Carlo sample. The smaller files of the
--     package are Covenants, Deposits, Benchmarks, Exposure, Rollups, Cash (cash.ts, lp.ts, stack.ts),
--     Monitoring (drawdown.ts, cost-report.ts), Scenario and Comparison (compare.ts).
--   Engagement: apps/api/src/routers/engagement.ts, the terms of a deal that a client signs by a link.
--     Shared has the row, the trail and its entries that are yet to be written, Drafting what the firm does, Signing what the client does, Schedule the
--     requests in a row and at the same time, the row and the trail being written in two steps; Sound and Interleavings what every request keeps, Kept
--     what a signature keeps, Links which link signs, Races what the handlers let through.
--   Versions: of apps/api/src, routers/appraisal.ts (save, submitForReview, review, restore,
--     draftNarrative, applyToAppraisal), approval-pin.ts, current-appraisal.ts and optimistic.ts; and
--     packages/appraisal-engine/src/valuation.ts. Pin has the pin of an approval and its verification
--     with the engine, Row the rows of Appraisal and their queries, Requests the handlers, History the
--     schedules: a request names how many writes ago each of its reads was, so that every interleaving
--     of reads and writes is a schedule. Later says what later tables keep of earlier ones, Sound what
--     a table always is, Reads, Writes, Steps and Runs that every request keeps it, Guarantees and
--     Approval what follows, and Overwrites has the two writes that go by id alone, Retry the
--     retries of a transaction (retryOnSerialisationFailure) and Portfolio the view over all deals.
--   Payments: the deposits of a buyer. Rows has settlePayment (apps/api/src/payments.ts), ensurePayments
--     (apps/api/src/routers/portal.ts) and the payments of deleteUnit (apps/api/src/routers/sales.ts);
--     Receipts any interleaving of their writes, Kept what a settled payment keeps, Visits the first
--     visit and the writes that cross one another.
--   Photos: the offline queue of site photographs, apps/web/src/lib/photo-queue.ts (Queue) and
--     photo-drain.ts (Drain) over the store of photo-store.ts; Due says when a record is sent, Kept
--     what becomes of it.
--   Recovery: apps/api/src/auth/sso-recovery.ts. Codes has the functions of the file, Printing the
--     reading of what is printed, Issue the codes that are issued together and the rows that they find.
--   Packs: apps/web/src/lib/pack-pagination.ts. Sheets has paginatePack, whose loop is on fuel, Placement
--     that the fuel is enough and that nothing is lost or repeated, Fitting and Heights that the sheets
--     fit.
--   Reports: apps/api/src/report-capacity.ts. The counters and the flags of each job, with a function
--     for what happens to a job (Slots), and what the counters say over any run (Capacity).
--
-- State and numbers. A table is passed in and returned. Times are milliseconds as natural numbers; a
-- cutoff that the source writes `now - age` is compared with the age on the other side, where natural
-- numbers do not stop at zero. The engine's numbers are a type `R` with the operations of
-- Engine/Number: a JavaScript double is a parameter. Its laws there are those of rounding that keeps
-- order, on finite values that do not overflow; no law of exact arithmetic is assumed. A month or a
-- count that the source rounds and clamps is a natural number through `whole`.
--
-- Loops and bounds. Every loop is structural: over rows, over a list of inputs, or over a count of
-- months. Only paginatePack is on fuel, two more than there are positions and exceptions: each turn of
-- its loop but the first places one of them. The retries of a transaction count the attempts that are
-- left, and the drawing of recovery codes goes over the bytes that are drawn. The bisections run the
-- fixed number of times that the source writes (80, 90 and, for `irr`, at most 100 with an early exit).
--
-- Outside. Network, cryptography, random numbers, the text of messages and the database's own failures:
-- what a receiver answers is an argument. A save that carries a reviewed field cost, whose branch
-- also asks for the stamp that was opened, is outside too. Of the engine, the DCF matrix, the Monte Carlo run and weighted
-- comparables are not here yet, nor are the other routers and the screens.
pub mod Common
pub mod Table
pub mod Auth
pub mod Plans
pub mod Webhooks
pub mod Engine
pub mod Packs
pub mod Recovery
pub mod Versions
pub mod Reports
pub mod Engagement
pub mod Payments
pub mod Photos
