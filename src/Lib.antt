-- ===== src/Lib.antt =====
-- The daily refresh of X-BRAY, a dashboard of Brazilian macroeconomic indicators: how a run of
-- tasks is created, claimed item by item by stateless workers, answered, and finalized under one
-- lease, how the access to each data provider is limited by a circuit and by a budget, and how
-- human administrators log in and lose their access.
--
-- The parts and how they interact. A workflow's client starts a run, advances its items one by
-- one, waits and finalizes it; on the server this calls advance_refresh_run
-- (backend/refresh_run_execution.py) once for each item of a run. A call resumes the run
-- (create_or_resume_run), claims an item (claim_next_work_item), executes its task, and gives the
-- claim back with a completion or a deferral; when all items are resolved it finalizes the run and
-- releases the lease. Each of these is one transaction on the tables refresh_runs,
-- refresh_work_items, refresh_leases and refresh_task_status. A v6 claim asks the scheduler
-- whether the item's provider may be asked now; the task itself must be admitted by the provider's
-- circuit and spends a budget of requests. An attempt at an item is recorded from its claim to its
-- end, and a transaction that writes observations first asks whether the attempt still has its
-- claim. Administrators are apart from this: a login begins a flow, its callback consumes the flow
-- and establishes a session, and each later request of the browser is checked against the session
-- and the membership.
--
-- Files and code:
--   Base, Base/Tests, Base/Rows, Base/Ordering, Base/Absence, Base/Texts: Boolean tests, the SQL
--     statements on lists of rows, texts by characters.
--   Admin/Tables: the tables of backend/db/migration_steps/v022_admin_auth.py (the record AuthDb).
--   Admin/Flows, Admin/Sessions, Admin/Members, Admin/Cleanup: backend/db/admin_auth.py.
--   Admin/Cookies, Admin/Routes: the guards and answers of backend/admin_auth.py; Routes/Session has
--     the handlers session, logout and activity, Routes/Callback and Routes/Login the other two.
--   Admin/Commands: calls of backend/db/admin_auth.py at their instants, in one sequence.
--   Admin/Events, Admin/Cleanup/Retention, the children of Admin/Commands and the other children of
--     Admin/Routes: proofs.
--   Refresh/Models: backend/db/refresh_run_models.py, records and tables (the record Db).
--   Refresh/Transaction: backend/db/refresh_run_sql.py, utc_iso, transaction, read_snapshot.
--   Refresh/RetryPolicy: backend/refresh_retry_policy.py.
--   Refresh/Scheduler: backend/refresh_run_scheduler.py.
--   Refresh/Items: backend/db/refresh_run_items.py; Claims holds the shared conditions, V6 is
--     _claim_v6_item, Claim is claim_next_work_item, Settle the deferral and the completion.
--   Refresh/Lifecycle: backend/db/refresh_run_lifecycle.py; Manifest is _same_manifest, Insert
--     _insert_run, Abandon _abandon_expired_run, Create create_or_resume_run and _acquire_lease.
--   Refresh/Finalize: backend/db/refresh_run_finalize.py.
--   Refresh/Execution/Resume: backend/refresh_run_state.py; Outcome and Driver:
--     backend/refresh_run_execution.py.
--   Refresh/Client: backend/refresh_run_client.py; Requests holds its requests, Choice its choice of an
--     item, Rounds the loop, and the other children proofs.
--   Refresh/Attempts: backend/db/refresh_attempt.py and the functions on attempts of
--     backend/db/store.py; Acquisition and Reconciliation are parts of it, Histories sequences of calls, with proofs.
--   Refresh/Commits: execute_transaction of backend/db/store.py with the checks that it makes;
--     Completed, Currency and Once are proofs.
--   Refresh/Leases: the named leases and task rows of backend/db/store.py.
--   Refresh/Commands: the six transactions as commands of any number of workers, in one sequence.
--   Refresh/Safety, and the children of Commands, Execution and Leases: proofs.
--   Source/Circuit: claim_source_access_probe, record_source_access_failure,
--     record_source_access_success and release_source_access_probe of backend/db/store.py.
--   Source/Budget, Source/Budget/Plans, Source/Table: RetryBudget of backend/ingestion_policy.py and
--     its dictionaries.
--   Source/Categories: classify_exception of backend/ingestion_policy.py.
--   Source/Rollout: backend/source_candidates.py and backend/candidate_eligibility.py; Readiness is
--     backend/source_rollout.py, Gates proofs.
--   Calendar, Calendar/Windows: the date arithmetic of backend/db/sgs_refresh_plan.py (_month_shift,
--     _days_in_month, _archive_windows) on Python's dates; Calendar/Years: their order.
--   Calendar/Freshness: backend/reference_freshness.py.
--   Admin/Scenarios, Refresh/Attempts/Scenarios, Refresh/Commits/Scenarios,
--     Refresh/Client/Scenarios, Refresh/Scenarios, Refresh/Leases/Scenarios, Source/Scenarios,
--     Source/Rollout/Scenarios, Calendar/Scenarios: the theorems at concrete inputs. Refresh/Scenarios/Overtaking is a
--     claim in which derived work passes an item that is put off.
--
-- How state and errors correspond. A function of the code that opens a transaction is here a
-- function from Db to a result and a Db; an exception is a value of Error, and `transaction` gives
-- back the database as it was before. A SELECT, UPDATE or INSERT is find_where, select_where,
-- update_where or an append on a list of rows; rowcount is count_where. Transactions run one after
-- another here, as BEGIN IMMEDIATE makes them in SQLite, so that interleavings of workers are
-- sequences of commands; in PostgreSQL only rows selected FOR UPDATE are locked, and what happens
-- between statements there is not modelled. The query for an attempt's durable receipt is a
-- function of the attempt. The client of a run acts on a state of which nothing is known, through
-- requests, clocks and sleeps (the record World). The handlers of administrators take the random
-- values, the cryptography, the identity provider's client and, for each statement, its instant
-- and whether the database is down; update_activity takes the clock that its statement compares
-- with, exact or that of SQLite in milliseconds, where an instant at the border may fall on either
-- side. The `uuid4` of a claim, the clock readings and the outcome of a request gate are
-- arguments.
--
-- Bounds. One loop runs on fuel, that of _archive_windows: one round for each year between its
-- bounds, as many as it needs. The client's loops have the counts of rounds that the code gives
-- them. All others run over lists of rows. Timestamps are stored as texts of one format whose
-- order is that of time; they stand as natural numbers of microseconds, as do the clock readings
-- of a budget. Counters are natural numbers, since Python integers do not wrap and the code never
-- lets them be negative.
--
-- Not modelled: the execution of tasks, the network and the parsing of responses (they only act
-- through the modelled circuit, budget and answers), the SGS plan beyond its digest and its dates,
-- the statements that store observations, the macro score, derived indicators, the configuration
-- and the monitoring views of administrators, other routes, migrations and the frontend.
pub mod Admin
pub mod Base
pub mod Refresh
pub mod Source
pub mod Calendar
