-- ===== src/Lib.antt =====
-- pg-web serves web applications out of PostgreSQL. A CLI (crates/pg_web_cli) pushes a directory of
-- pages into tables, and an extension (crates/pg_web_ext) runs a background worker that answers HTTP
-- requests from these tables. This library models the worker's way from a request to a response, the
-- CLI's way from a directory to these tables, and how the two meet.
--
-- The parts, with the files of crates/pg_web_ext/src unless another crate is named:
--   Pattern: router.rs, route patterns (`ParsedPattern`), `request_segments`, `quote_literal`,
--     `is_safe_ident`; what they accept and mean is in Pattern/.
--   Json: the values of serde_json with their accessors.
--   Errors: errors.rs, the catalog `ServeError`. Settings: settings.rs. Templating: templating.rs.
--   Backend: the record of everything that the worker asks PostgreSQL (by SPI), Tera and serde_json.
--     It has one field for each query, over an abstract database and an abstract set of templates.
--   Cache: cache.rs, the state `Worker` of the background worker (the transaction's database, the
--     snapshot behind the lock, the statement timer), how a snapshot is built, dropped and used.
--   Routes: router.rs, the lookups (`lookup_route`, `lookup_asset`, `list_allowed_methods`, …).
--   Handler: router.rs, `call_handler` and `classify_handler_error`.
--   Envelope: router.rs, `parse_response_envelope` and the request's JSON.
--   Router: router.rs, `render_route` and `serve_in_tx`; request_timeout.rs.
--   Http: http.rs, `handle` with what it calls; the header map, the form decoder and the status type
--     are the records `HeaderMap` and `HttpLibrary`. Livereload: livereload.rs, the script.
--   Paths: crates/pg_web_cli/src/paths.rs, from the files under pages/ to routes and handler names.
--   Fingerprint: crates/pg_web_cli/src/push.rs, the URLs of fingerprinted assets.
--   Retry: crates/pg_web_cli/src/retry.rs, the loop of `with_retry_inner`.
--   CliSettings: crates/pg_web_cli/src/env.rs, and the settings that push.rs writes.
--   Migrate: crates/pg_web_cli/src/migrate.rs, the migrations and their ledger.
--   Push: crates/pg_web_cli/src/push.rs. Push.Database has the tables (of schema.rs) and the record
--     `Postgres` of what the server answers; Entries, Reconcile and Assets the steps of the
--     transaction; Transaction puts them together; Gate is the migration gate; Run is
--     `push_with_options`. Push.View says what a push is to make of the tables, Effects, Cleaning and
--     Refines that the steps do it, Atomic, Safe, Outcomes and Lookups what this means for a whole
--     push, Served and Live that the router finds what was pushed.
--   Listen: listen_router.rs, the channels and the notifications that drop the cache; Push.Live joins
--     it with the push.
--   Check: crates/pg_web_cli/src/check.rs, the splitter of SQL and the passes.
--   Dev: crates/pg_web_cli/src/dev.rs, the batches of file events.
--   Db: crates/pg_web_cli/src/db.rs, the names of connections.
--   Common: strings as lists of code points, results, ordered maps and a stable sort.
--   Tests: concrete data and runs.
--
-- A push reads pages/ (Paths) and public/, asks the ledger of the migrations, and writes everything in
-- one transaction that Retry may repeat. A statement of it is a function on the tables that fails
-- when the parameter `fault` says so, and an attempt returns the tables as they were or as they are
-- committed, where a COMMIT that ends with an error may have taken effect (the parameter `landed`);
-- what others do to them meanwhile is the waiting between attempts. What other SQL does is open: a
-- theorem on the tables behind a push has the condition `KeepsView` on the SQL of its pages. The order
-- in which the map of renamed assets is walked is a parameter.
--
-- A request goes from `Http.handle` to `Router.serve_in_tx`, which warms the cache, looks up a route
-- of the snapshot, calls its handler once and renders the answer. Every function that reads or
-- changes the worker takes it and returns it; an error is a value of `ServeError`.
--
-- Texts are lists of code points; lengths in bytes are those of their UTF-8 form. Error messages of
-- the CLI are constructors without their prose. The retry loop has fuel for one call more than the
-- largest number of attempts, which is enough since each round is an attempt. The loops of
-- `str::replace`, of the SQL splitter and of its leading comments have the length of their text as
-- fuel, which is enough since each round takes a character; printing a number has itself as fuel. All
-- other recursion is structural.
--
-- Not modelled: panics, SQL of a page that ends the push's transaction, the transaction around a
-- request and its isolation, logging, the page of `render_dev_page`, the event streams, the listening
-- connection and its reconnecting, the health endpoints, process start-up, the SQL of schema.rs but
-- for the columns of the tables, and of the CLI the stack and init commands, the command line, the
-- file watcher, and the diagnosis of concurrent pushers.
pub mod Common
pub mod Pattern
pub mod Paths
pub mod Json
pub mod Errors
pub mod Settings
pub mod Backend
pub mod Templating
pub mod Cache
pub mod Envelope
pub mod Handler
pub mod Routes
pub mod Router
pub mod Livereload
pub mod Http
pub mod Retry
pub mod Fingerprint
pub mod CliSettings
pub mod Migrate
pub mod Push
pub mod Check
pub mod Dev
pub mod Listen
pub mod Db
pub mod Tests
