-- ===== src/Lib.antt =====
-- Verification of the agent runtime (crates core, api and worker).
--
-- The API (api/src/lib.rs) accepts a request for a run, decides which capabilities it is granted
-- from the role of the caller, the recipe and the request, and stores the run with its grants. A
-- worker (worker/src/lib.rs) leases a stored run through the statements of core/src/db.rs, lets a
-- skill propose actions, and puts each action to the policy (core/src/policy.rs) with the stored
-- grants before it executes it.
--
-- Base: Boolean tests, lists as Rust iterators use them, ORDER BY as a stable sort, and `str` as a
-- list of code points (Base/Tests, Lists, Sort, Strings), and rows under an
-- UPDATE (Base/Rows).
-- Json: `serde_json::Value` with the accessors that are called. Numbers are the three kinds of
-- serde_json; a float is only its bits.
-- Policy: core/src/policy.rs; a `match` on text is a table that is read from the top. Its children
-- are about the scope test, the decisions and the refusals.
-- Api, Grants: RolePreset and resolve_granted_capabilities of api/src/lib.rs with all that it
-- calls; Grants/Bundles is the table of recipes; the other children lead to Grants/EndToEnd.
-- Worker: worker/src/lib.rs; Worker/GrantSets reads stored grants back, Worker/Aliases and
-- Worker/Actions normalise and validate an action (normalize_skill_action,
-- validate_action_contract, to_policy_request).
-- Runs: the table of runs of core/src/db.rs. A table is a list of rows, a statement a function of
-- the table and of the time of the database in microseconds. Runs/Creation inserts a
-- run and Runs/Queue claims the next one; Runs/Inserts and Runs/ActiveKeys are about the rows that
-- come in and the unique index on their keys; Runs/Lifecycle has each statement
-- as an atomic step of any worker at any time, create_run_with_semantic_dedupe_key, by which the API
-- creates runs, and create_run, whose row is that of the triggers, among them.
-- Siem: the outbox of compliance records for a SIEM (core/src/db.rs) and the worker's round over it
-- (worker/src/lib.rs, process_compliance_siem_delivery_outbox), in Siem/Delivery. Siem/Lifecycle has
-- the table together with what the workers hold, and its steps; a crash is one of them.
-- Payments: the action payment.send of worker/src/lib.rs and the table of payment requests of
-- core/src/db.rs. Payments/Routes resolves the URIs of a payment, Payments/Health is the health of
-- the routes and the loop over them, which Payments/HealthFacts and Payments/Fallback are about,
-- Payments/Sending puts the action together for both rails (execute_payment_send_action,
-- execute_cashu_payment_scaffold).
-- Triggers: the triggers, events of webhooks and trigger_runs of core/src/db.rs, with the table of
-- runs that they share with Runs. Triggers/Config creates and changes triggers, Triggers/Events
-- takes and replays events, Triggers/Manual and Triggers/Dispatch fire; Triggers/Lifecycle has each
-- statement or transaction, and each statement of Runs, as an atomic step.
-- Redaction: core/src/redaction.rs; Redaction/Keys and Redaction/Cleaning are about keys in a text,
-- Redaction/Bearer about both passes, Redaction/Documents about documents.
-- Secrets: core/src/secrets.rs. Secrets/Cache is the caching resolver, whose calls Secrets/Size has as
-- steps, Secrets/Params and Secrets/Backends the command lines of the backends.
-- Gateway: worker/src/llm.rs, from the plan of a prompt to the endpoint and the rules of egress
-- (select_route_with_reason, select_endpoint_for_route, enforce_remote_egress_policy); in
-- Gateway/Admission the accesses of requests to the counter of a lane are steps.
--
-- Bounds. An id is the number of a UUID. A limit of a lease is clamped as in the source; the sum
-- with the time is not, and neither is the number of attempts, which the source holds in an i32.
-- Each loop is over a list, but for two: the printing of a number takes as fuel forty digits, which
-- a time or a status fits, and the loops of the redaction take the length of the text and one more.
--
-- Concurrency. A claim (claim_next_queued_run_with_limits) is stated as one that no statement of
-- another connection comes between, and FOR UPDATE SKIP LOCKED is left out of it; its UPDATE alone is
-- a step among others. A transaction that dispatches a trigger is one step: at READ COMMITTED its
-- count of the runs of a tenant is not locked, so that two dispatches at once, which may both pass the
-- limit, are outside the model.
--
-- Not modelled: the rest of worker/src/llm.rs, the SQLite twins of the statements, sockets,
-- processes, files, cryptography and the SQL reports. The text that the database gives for a JSON
-- value that is no string, the size of a JSON value in bytes and the scope that the LLM gateway
-- assigns to an action are parameters, and so is the HTTP client of the deliveries, what a wallet
-- or a mint answers to a request, the standard hash of routes and of the jitter, the cron and
-- time zone libraries and the digest of an event. A sum of amounts is not cut to the 64 bits of
-- the database.
mod Base
pub mod Json
pub mod Policy
pub mod Api
pub mod Grants
pub mod Worker
pub mod Runs
pub mod Siem
pub mod Payments
pub mod Triggers
pub mod Redaction
pub mod Secrets
pub mod Gateway
mod Tests
