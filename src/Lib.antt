-- ===== src/Lib.antt =====
-- A verification library for the backend of floww: the parts of the service that decide what an
-- organization has paid for, who may reach which resource, and what a workflow reads and writes in
-- the key-value store. Paths are from the root of the repository.
--
-- The parts. The Stripe webhook (app/routes/billing.py) hands verified events to the handlers of
-- app/services/billing_service.py, which change rows of `subscriptions` and record each event in
-- `billing_events`. The same service derives from a subscription what is paid for and which limits
-- hold; app/deps/billing.py raises on those limits before a workflow is created or run.
-- `sync_subscription_from_stripe` makes the row agree with Stripe on request. Apart from that,
-- app/services/access_service.py answers which role a principal has on a resource, by direct grants
-- and by grants on the folders above it; and app/routes/kv_store.py is a store of keys and values
-- whose tables carry permissions of workflows. app/services/device_code_service.py keeps the codes by
-- which a command-line tool is authorized, app/services/refresh_token_service.py its tokens, and
-- app/routes/device_auth.py exchanges the one for the other. app/routes/folders.py keeps the folders
-- that the access service walks; app/routes/organizations.py keeps the members by which namespaces
-- are reached. app/routes/webhooks.py records an execution for each trigger of a request, by
-- app/services/execution_history_service.py, and has it run by
-- app/services/trigger_execution_service.py; the runtime reports its end to app/routes/executions.py.
--
-- Which file models which part:
--   * Prelude: Boolean tests, lists over native numbers, texts as Python tests them.
--   * Session: one transaction, a function from the tables to an error or a result with the new
--     tables (`get_committed_db` of app/deps/db.py rolls back on an exception); the exceptions; the
--     `scalar_one` family of SQLAlchemy.
--   * Table: a table as a list of rows with a test of which two rows its unique columns refuse;
--     updates, deletes, and the lemmas on queries by a unique column and on what all rows have.
--   * Billing.Data, Plan, Lifecycle, Webhook, Route, Limits, Sync: app/services/billing_service.py,
--     app/deps/billing.py, app/routes/billing.py and their rows of app/models.py, under the names of
--     the source without leading underscores. `created_status`, `updated_status`, `sync_status` and
--     `sync_rest` are parts of one function body each. Billing.Constraints, Settling, Runs, Turns,
--     TierSync and OrganizationRow carry lemmas; Billing.Counts says what the limits count; the other modules hold the theorems.
--   * Access.Data, Hierarchy, Queries: app/services/access_service.py. A recursive query runs in
--     rounds, one of which joins the rows of the round before with the table.
--   * Kv.Data, Names, Store, Routes: app/routes/kv_store.py.
--   * Device.Codes: app/services/device_code_service.py, whose commits are steps of the state; and
--     Device.Requests: sequences of calls of it. Token.Tokens: app/services/refresh_token_service.py.
--   * Login.Endpoints: app/routes/device_auth.py over both services; Login.Exchange and Grants: the
--     flow, from the approval and back from the tokens; Lookups carries lemmas.
--   * Crud.Helper: `CrudHelper` of app/services/crud_helpers.py.
--   * Organization.Data, Routes: app/routes/organizations.py and `_namespace_filter` of
--     app/utils/query_helpers.py; Organization.Requests: sequences of calls. Owners, Steps, Growth
--     and Changes carry lemmas.
--   * Folder.Routes: app/routes/folders.py; Folder.Requests: sequences of calls. Walks, Forest,
--     Removal, Seen, Moves, Steps and Chains carry lemmas. `get_folder` and
--     `delete_folder` stand for the calls of `CrudHelper`.
--   * Execution.History, World, Trigger, Completion: the services of executions, the handlers of
--     app/routes/webhooks.py (`handle_trigger` is what both handlers do for one trigger,
--     `handle_triggers` the loop of `_handle_provider_webhook`) and `complete_execution` of
--     app/routes/executions.py; Execution.Events: sequences of them. The handlers of webhooks commit
--     in between, so they run on a state with the committed rows and the calls of the runtime.
--     Execution.Sound and Reports carry lemmas.
--   * Triggers.Sync: the plan of `sync_triggers` of app/services/trigger_service.py and its loops;
--     Requests: the whole of it in one transaction; Needed: what stays. Protection carries lemmas. What a handler destroys outside the tables is left out.
--   * Tests in each part: runs on small tables.
--
-- Conventions. Identifiers are numbers, since the code only compares them. A datetime is its
-- microseconds since the epoch, except in the monthly count, which takes it by its calendar fields.
-- The time, new identifiers and the rows that other transactions commit in between are arguments. A
-- dictionary of results is a list in order of insertion. A JSON value is its text. The texts of
-- errors are those of the source without the values written into them, and log lines are left out.
--
-- Bounds. The recursive queries run on fuel of one round more than there are folders, since a forest
-- is no deeper than that, and fail with an operational error beyond. The loop that draws a unique user
-- code has the ten attempts of the source. The two loops of app/routes/folders.py along the parents have
-- one step more than there are folders, which is enough on every table that the endpoints can reach
-- from a forest. Nothing else runs on fuel.
--
-- Parameters, for code that is not in the repository: the verification of a webhook's signature by
-- Stripe's library at the time of the delivery, Python's parsing of a UUID, Stripe's answer to the search for a subscription, the
-- collation that orders a listing, Python's `str.upper`, SHA-256, and the random codes and tokens.
-- In the endpoints of devices the signing of a token, the user of the session cookie and `str.strip`;
-- in organizations what WorkOS gave; in executions the registry, the runtime, the decryption of a
-- configuration, the tokens, the parser of a timestamp and `str.lower`, and the answer of the usage
-- limit at a time on the executions so far, which Billing.Limits models over its own tables. What the
-- flush of a delete does to the references to the deleted folder is a parameter too (SQLAlchemy sets
-- them to NULL for a relationship without delete cascade); the theorems that need it assume
-- `Folder.Removal.Detaches`, that no reference to the deleted row is left and none is new.
-- Calls that set a default payment method at Stripe are kept as a list of what was called.
--
-- In the sync of triggers the handlers of the providers, which are clients of external services.
--
-- Not modelled: the webhooks of triggers, the lookup of a webhook by its path, the
-- selection of triggers by a provider, the scheduler, users, secrets, the proxy of the registry and
-- the runtimes; clients of external services; pages; start-up, administration and migrations. In the
-- store no other transaction is taken to commit between the statements of one.
mod Prelude
pub mod Session
pub mod Table
pub mod Billing
pub mod Access
pub mod Device
pub mod Token
pub mod Login
pub mod Crud
pub mod Organization
pub mod Folder
pub mod Execution
pub mod Triggers
pub mod Kv
