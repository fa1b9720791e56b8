-- ===== src/Push/Transaction.antt =====
-- crates/pg_web_cli/src/push.rs: `push_with_options`. An attempt is one transaction: it ends with a
-- commit, which may take effect also when its error is reported, or with a rollback. SQL of a page
-- that itself ends the transaction is outside the model. The diagnosis of concurrent pushers, which only adds text to
-- an error, is left out.
use pg_web.Common.{
  ℕ, leb, Bool, true, false, List, [], ◌∷◌, Option, none, some, if◌then◌else◌, Text, codes, same,
  map, is_empty,
}
use pg_web.Common.Result.{Result, ok, err, ◌>>=◌}
use pg_web.Common.Table.{upsert}
use pg_web.Migrate.{MigrationFile}
use pg_web.CliSettings.{ServerSection, bool_text}
use pg_web.Paths.Scan.{PageFile, RouteEntry}
use pg_web.Push.Database.{
  RouteKey, Deployment, Tables, PushSummary, empty_summary, PushError, failed, Postgres, Tx,
  execute, count,
}
use pg_web.Push.Entries.{Files, apply_entries, validate_handlers}
use pg_web.Push.Reconcile.{
  reconcile_routes, reconcile_templates, reconcile_handlers, reconcile_assets,
}
use pg_web.Push.Assets.{Asset, PublicFile, upsert_assets}

-- `PushOptions`
pub record PushOptions : Type 0 where
  pub dry_run : Bool
  pub with_migrate : Bool

-- The application's directory, as the push reads it; `toml` is the section of pgweb.toml.
pub record App : Type 0 where
  pub has_pages : Bool
  pub page_files : List PageFile
  pub has_public : Bool
  pub public_files : List PublicFile
  pub has_migrations : Bool
  pub migration_files : List MigrationFile
  pub toml : Result Text ServerSection
  pub host : Text

-- What one transaction writes: the inputs of its closure.
pub record Plan : Type 0 where
  pub entries : List RouteEntry
  pub assets : List Asset
  pub rewrites : List (Text × Text)
  pub server : ServerSection
  pub deployment : Deployment

abbrev pub keys_of : List RouteEntry → List RouteKey
keys_of entries = map (λ e. (e.method, e.route)) entries

-- `filter_map(|e| e.template_path.clone())`
abbrev pub add_path : Option Text → List Text → List Text
add_path none paths = paths
add_path (some p) paths = p ∷ paths

abbrev pub templates_of : List RouteEntry → List Text
templates_of [] = []
templates_of (e ∷ entries) = add_path e.template_path (templates_of entries)

-- `try_into().unwrap_or(i32::MAX)`
abbrev pub to_i32 : ℕ → ℕ
to_i32 n = if leb n 2147483647 then n else 2147483647

abbrev pub host_of : Text → Option Text
host_of host = if is_empty host then none else some host

abbrev pub put_setting : {Server : Type 0} → Text → Text → Tables Server → Tables Server
put_setting key value db = record db { settings = upsert same key value db.settings }

abbrev pub put_deployment : {Server : Type 0} → Deployment → Tables Server → Tables Server
put_deployment d db = record db { deployments = d ∷ db.deployments }

-- `NOTIFY pgweb_reload`, whose error is ignored
abbrev pub notify : {Server : Type 0} → Tx Server → Tx Server
notify (db, s) = (record db { notices = codes "pgweb_reload" ∷ db.notices }, s)

abbrev pub notified : {Server : Type 0} → Tx Server → Result PushError (Tx Server)
notified tx = ok (notify tx)

-- `(if b { "true" } else { "false" })`
abbrev pub flag : Option Bool → Option Text
flag none = none
flag (some b) = some (bool_text b)

-- How a closing statement ends; `left` is the database behind it when it fails.
abbrev pub closed :
    {Server : Type 0}
    → Text
    → (Text → Tables Server)
    → Tables Server
    → PushSummary
    → Option Text
    → Result PushError PushSummary × Tables Server
closed step left after s (some e) = (err (failed step e), left e)
closed step left after s none = (ok s, after)

module _ {Server : Type 0} (pg : Postgres Server) where
  -- One of the `sync_*` calls: the setting, and its field of the summary.
  abbrev pub sync :
      Text → Option Text → (PushSummary → PushSummary) → Tx Server → Result PushError (Tx Server)
  sync key none synced tx = ok tx
  sync key (some value) synced tx = execute pg key (put_setting key value) tx >>= count synced

  -- Phase 4
  unfoldable pub sync_all : ServerSection → Tx Server → Result PushError (Tx Server)
  sync_all c tx =
      sync (codes "env") c.env (λ s. record s { env_synced = c.env }) tx
      >>= sync (codes "request_timeout") c.request_timeout
          (λ s. record s { request_timeout_synced = c.request_timeout })
      >>= sync (codes "health_enabled") (flag c.health_enabled)
          (λ s. record s { health_enabled_synced = c.health_enabled })
      >>= sync (codes "readiness_enabled") (flag c.readiness_enabled)
          (λ s. record s { readiness_enabled_synced = c.readiness_enabled })

  -- The closure of `with_retry` between the start and the end of its transaction.
  unfoldable pub push_tx : Files → Plan → Tx Server → Result PushError (Tx Server)
  unfolding sync_all
  push_tx files p tx =
      apply_entries files pg p.rewrites p.entries tx
      >>= validate_handlers files pg p.entries
      >>= reconcile_routes pg (keys_of p.entries)
      >>= reconcile_templates pg (templates_of p.entries)
      >>= reconcile_handlers pg (map (λ e. e.handler_name) p.entries)
      >>= upsert_assets pg p.assets
      >>= reconcile_assets pg (map (λ a. a.url_path) p.assets)
      >>= sync_all p.server
      >>= execute pg (codes "inserting pgweb.deployments ledger row") (put_deployment p.deployment)
      >>= notified

  -- The end of the transaction: the database behind it is the first one if it is rolled back, and
  -- either if its COMMIT ends with an error.
  abbrev pub end_tx :
      Bool
      → Tables Server
      → Result PushError (Tx Server)
      → Result PushError PushSummary × Tables Server
  end_tx dry_run before (err e) = (err e, before)
  end_tx true before (ok (db, s)) =
      closed (codes "rolling back") (λ e. before) before s (pg.fault (codes "rolling back") db)
  end_tx false before (ok (db, s)) =
      closed (codes "committing") (λ e. if pg.landed e db then db else before) db s
        (pg.fault (codes "committing") db)

  abbrev pub begin_tx :
      Option Text → Tables Server → Result PushError (Tx Server) → Result PushError (Tx Server)
  begin_tx none db run = run
  begin_tx (some e) db run = err (failed (codes "transaction") e)

  -- One call of the closure
  unfoldable pub attempt :
      Files → Bool → Plan → Tables Server → Result PushError PushSummary × Tables Server
  unfolding push_tx
  attempt files dry_run p db =
      end_tx dry_run db
        (begin_tx (pg.fault (codes "transaction") db) db (push_tx files p (db, empty_summary)))
