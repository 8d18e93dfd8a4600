-- ===== src/Lib.antt =====
-- A model of the server-side packages of app-common: the transactional outbox, the accounts, API
-- keys and sign-ins of the authentication package, the base layer that both stand on, and the search
-- index over a vector store, with the theorems that make them correct.
--
-- The base layer (packages/base/app-layer-base/src/app_layer_base) gives every package its
-- transactions, its generic repository, and services that run hooks around each operation.
--   Layer/Transaction   core/database/transaction.py: `AsyncTransaction.__aexit__` is `aexit`, and
--                       `run_after_commit` dispatches what `register_after_commit` queued.
--   Layer/Services      base/services/base.py: contexts and hooks; Operations has `create`,
--                       `create_multi`, `_update_internal` (`update_internal`), `delete`,
--                       `delete_multi`, `get` and `get_multi`; Unwinding and Order say in which
--                       order hooks run.
--   Layer/Hooks         base/services/*_hook.py: the checks of `ExistsCheckHook`,
--                       `UniqueConstraintHook` and `NestedResourceHook`; Unique and Nested.
--   Layer/Ordering      base/deps/ordering: the `dependency` that reads an order; Parsing.
--   Layer/Repository    base/repos/base.py: reads, `get_multi` (`get_page`, `listed`), and deletion;
--                       Writing has updates, restoring and purging. Counting, Deleting and
--                       Restoring have the theorems.
-- The outbox (packages/prebuilt/app-prebuilt-outbox/src/app_prebuilt_outbox) stores domain events
-- in a table in the transaction that changes the data, and a relay publishes them later, at least
-- once. A worker claims a row under a lease with a fresh token, renews the lease while it
-- publishes, and finishes the row by the token; expired claims are put back with a backoff.
--   Outbox/Model     models.py, schemas.py: the row and its status.
--   Outbox/Policy    policy.py: `RelayOptions`, its validation and the retry schedule; Schedule
--                    has the arithmetic.
--   Outbox/Repo      repos.py: `claim_one`, `renew_claim`, `finish_claim`, `recover_one` and
--                    `requeue_failed`. Rows and Recovers say what a statement does to the rows,
--                    Lifecycle what any sequence of them does (Leases, Safety).
--   Outbox/Relay     relay.py: `_now` is `now_of`, `_claim` `claim_at`, `_renew` `renew_at`,
--                    `_finish` `finish_at`, `_heartbeat` `heartbeat`, `_publish` `publish`.
--   Outbox/Relay/Loops   relay.py: `run_once` and `recover`, with their counts.
--   Outbox/Admin     services.py, and the other queries of repos.py.
--   Outbox/Hooks     hooks.py: the events that a service's hook records; Deletions.
-- The accounts (packages/prebuilt/app-prebuilt-auth/src/app_prebuilt_auth):
--   Auth/Users       user/models.py, user/exceptions.py: an account, errors and results.
--   Auth/Access      user/access_service.py, user/access_repo.py, user/usecases/admin.py: `change`
--                    and `delete`; Checks, Records, Bootstrap and Safety have the theorems.
--   Auth/Keys        api_key/services.py, api_key/repos.py: `create`, `update`, `issue`, `revoke`
--                    and `authenticate`; Issue and Revocation have the theorems.
--   Auth/Browser     browser/services.py, browser/repos.py: `begin` and `refresh`; Ending has the
--                    theorem. `revoke` is `end_session`.
--   Auth/Passwords   user/passwords.py: `verify` and `needs_rehash`, over Argon2 and bcrypt.
--   Auth/Tokens      user/services.py, user/deps.py: `_create_token` is `create_token`, `refresh_user`,
--                    `get_token_data` and `get_current_user` (together `signed_in`); Accepted says
--                    which token stands for which account, Ending when it stops.
--   Auth/Login       user/services.py: `authenticate` and `ensure_first_user`; Again.
--   Auth/Profile     user/services.py, user/usecases/crud.py: `update_user` and the use case's
--                    `execute` (`update_execute`); Bounded.
--   Auth/Google      google/: flows and identities, `begin`, and the checks of `exchange`; Callback
--                    has `register` and `callback`, Finish has `finish`; Flows, Once, Registers,
--                    Accounts and Finishing have the theorems.
--   Auth/Throttle    user/throttle.py: `FailedLoginThrottle`; Callers and Tracked follow the table,
--                    Window one caller's failures, Lockout has the theorems.
-- The vector store (packages/adapters/app-vector-store/src/app_vector_store/store.py) checks and
-- batches what it sends to a Qdrant collection.
--   Vector           `QdrantVectorStore`, over a client that is a record of functions. Laws, with
--                    Effects, Store, Payloads and Indexes, says what each call does to the payload
--                    under an id, for a client that keeps its documented contract (`IsClient`,
--                    `IsScroll`, `IsQdrant`).
-- The search (packages/prebuilt/app-prebuilt-search/src/app_prebuilt_search) brings a collection in
-- step with a snapshot of a source, and shows only what the source still holds and lets the caller
-- see: the index gives candidates, the source gives the items.
--   Search/Schemas      schemas.py, and `ProjectionItem` of projection.py.
--   Search/Filters      filters.py: `validate_payload`, `validate_query`, `query` and `matches`;
--                       Readings says how Qdrant reads a condition, Agreement compares the query of
--                       the index with the final match.
--   Search/Projection   projection.py: `sync_snapshot`; Stages and Settled view it id by id, Effects
--                       and Refreshing its writes, Projects has the theorem.
--   Search/Snapshots    usecases.py: `SearchEngine`, reading the source (`read_items`), the payloads,
--                       the marker point and the inventory.
--   Search/Retrieval    usecases.py: the loop of `SearchEngine.search` (`retrieve`); Hits and
--                       Groups read a page, Terminates and Authorized have the theorems.
--   Search/Engine       usecases.py: `_reconcile`, `sync`, `status` (`index_ready`), `search`;
--                       Inventory, InStep and Ready.
--   Search/Shelf        a client that keeps its points in a list, for the examples.
-- Common (with Batches and Members) and Table hold what the models share: tests, lists, batches,
-- membership, and a database table as its rows. The files called Examples have tests and the
-- theorems at concrete inputs.
--
-- Conventions. Instants and durations are whole microseconds, a UUID is a number, JSON is its text.
-- A statement is one atomic step on the list of rows: rows that other transactions have locked are
-- a predicate (SKIP LOCKED), a comparison with NULL is false, and RETURNING gives at most one row
-- because keys are unique. Other workers, the clock, the publisher and cancellation are arguments:
-- functions from table to table, readings (`none` is a naive datetime) and records of what
-- happens. Numbers of filters and vectors are any type with Python's comparisons and `float`,
-- which may round. Equality of payloads is any test, since Python takes 1, 1.0 and True for
-- equal. A row that is mutated is the row of the table; a claim holds a detached copy. SHA-256,
-- the text of a UUID, the fingerprint of a password, the encoding of a token, the two libraries
-- for passwords, the validation of an address, the methods of a session, and what callbacks and
-- hooks do are parameters.
--
-- Bounds. `run_once` and `recover` go `batch_size` rounds, which is their recursion. The retry
-- schedule's loop has `max_attempts` for fuel, which is its own bound on the length of the list. A
-- deletion in batches has as much fuel as there are keys, and every batch takes one at least.
-- The loop of a search has one round more than its budget of candidates: a page that goes on is full,
-- and pages are of one candidate at least.
-- Not modelled: the validation of the event's envelope, which is a flag of a publication; of the
-- search, the progress callback, the scope of a publication, a deletion by filter, the names of
-- filters and policies, the list of payload indexes and the SQLAlchemy facade; of a change of a
-- profile, the fields that `UserUpdateAdmin` adds; of the sign-in with Google, the HTTP request,
-- the check of the token's signature and the cache of keys; and the parts that the manifest lists
-- as such, among them the frameworks' glue, the adapters but that of the vector store, and the
-- developers' tools.
pub mod Common
pub mod Table
pub mod Outbox
pub mod Layer
pub mod Auth
pub mod Vector
pub mod Search
