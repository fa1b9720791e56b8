-- ===== src/Push/Run.antt =====
-- crates/pg_web_cli/src/push.rs: `push_with_options`, from the directory to the summary, with the
-- retries of retry.rs around its transaction.
use pg_web.Common.{
  ℕ, ◌+◌, length, not, Bool, List, [], Option, none, some, if◌then◌else◌, Text, codes,
}
use pg_web.Common.Result.{Result, ok, err, ◌>>=◌}
use pg_web.Migrate.{Ledger}
use pg_web.CliSettings.{ServerSection}
use pg_web.Paths.Scan.{RouteEntry, ScanError, scan}
use pg_web.Retry.{with_retry_inner}
use pg_web.Push.Database.{
  Tables, PushSummary, PushError, failed, no_pages_directory, gave_up, Postgres,
}
use pg_web.Push.Entries.{Files, validate_templates}
use pg_web.Push.Assets.{Asset, AssetLibrary, scan_public, is_production, rewrites_of, renamed}
use pg_web.Push.Transaction.{PushOptions, App, Plan, attempt, to_i32, host_of}
use pg_web.Push.Gate.{find_pending, gate}

-- What is read of the directory before the connection is opened.
pub record Source : Type 0 where
  pub entries : List RouteEntry
  pub assets : List Asset
  pub server : ServerSection

abbrev pub or_unscanned : Result ScanError (List RouteEntry) → Result PushError (List RouteEntry)
or_unscanned (err e) = err (failed (codes "scanning pages/") [])
or_unscanned (ok entries) = ok entries

abbrev pub or_no_toml : Result Text ServerSection → Result PushError ServerSection
or_no_toml (err e) = err (failed (codes "pgweb.toml") e)
or_no_toml (ok server) = ok server

unfoldable pub read_source : Files → AssetLibrary → App → Result PushError Source
read_source files lib app =
    if not app.has_pages
    then err no_pages_directory
    else (or_unscanned (scan app.has_pages app.page_files) >>= λ entries.
        validate_templates files entries >>= λ _.
        (if app.has_public then scan_public lib app.public_files else ok []) >>= λ assets.
        or_no_toml app.toml >>= λ server.
        ok (record { entries = entries; assets = assets; server = server }))

-- The inputs of the transaction; in production the assets are renamed.
unfoldable pub plan_of : AssetLibrary → Text → Source → List Text → Plan
plan_of lib host src names =
    let is_prod = is_production src.server.env in
    record {
      entries = src.entries;
      assets = renamed is_prod src.assets;
      rewrites = rewrites_of lib is_prod src.assets;
      server = src.server;
      deployment = record {
        from_host = host_of host;
        file_count = to_i32 (length src.entries + length src.assets);
        migrations_applied = to_i32 (length names);
      };
    }

-- The last statements: what the summary gets behind the transaction.
unfoldable pub summary_of : PushOptions → List Text → PushSummary → PushSummary
summary_of opts names s = record s {
  dry_run = opts.dry_run;
  migrations_applied = length names;
  migrations_applied_names = names;
}

abbrev pub completed :
    PushOptions → List Text → Result PushError PushSummary → Result PushError PushSummary
completed opts names (err e) = err e
completed opts names (ok s) = ok (summary_of opts names s)

abbrev pub max_attempts : ℕ
max_attempts = 3

-- `is_retryable`, and what others do to the database during a sleep
pub record Retries (Server : Type 0) : Type 0 where
  pub is_retryable : PushError → Bool
  pub default_sleep : ℕ → Tables Server → Tables Server

module _ {Server : Type 0} (pg : Postgres Server) (l : Ledger (Tables Server))
    (retries : Retries Server) (files : Files) (lib : AssetLibrary) where
  -- `retry::with_retry` on the transaction
  unfoldable pub with_retry :
      Bool → Plan → Tables Server → Option (Result PushError PushSummary × Tables Server)
  unfolding with_retry_inner
  with_retry dry_run p db =
      with_retry_inner (attempt pg files dry_run p) retries.is_retryable retries.default_sleep
        (λ n e. gave_up e) max_attempts db

  abbrev pub finished :
      PushOptions
      → List Text
      → Option (Result PushError PushSummary × Tables Server)
      → Option (Result PushError PushSummary × Tables Server)
  finished opts names none = none
  finished opts names (some (r, db)) = some (completed opts names r, db)

  abbrev pub push_gated :
      PushOptions
      → Text
      → Source
      → Result PushError (List Text) × Tables Server
      → Option (Result PushError PushSummary × Tables Server)
  push_gated opts host src (err e, db) = some (err e, db)
  push_gated opts host src (ok names, db) =
      finished opts names (with_retry opts.dry_run (plan_of lib host src names) db)

  -- Behind the connection: the gate and the transaction.
  abbrev pub connected :
      PushOptions
      → App
      → Source
      → Tables Server
      → Option Text
      → Option (Result PushError PushSummary × Tables Server)
  connected opts app src db (some e) = some (err (failed (codes "connect") e), db)
  connected opts app src db none =
      push_gated opts app.host src (gate l opts app (find_pending l app db) db)

  abbrev pub push_source :
      PushOptions
      → App
      → Result PushError Source
      → Tables Server
      → Option (Result PushError PushSummary × Tables Server)
  push_source opts app (err e) db = some (err e, db)
  push_source opts app (ok src) db = connected opts app src db (pg.fault (codes "connect") db)

  -- `push_with_options`; no result only if the retries had run out of fuel
  unfoldable pub push_with_options :
      App → PushOptions → Tables Server → Option (Result PushError PushSummary × Tables Server)
  unfolding with_retry read_source
  push_with_options app opts db = push_source opts app (read_source files lib app) db
