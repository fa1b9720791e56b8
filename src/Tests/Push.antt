-- ===== src/Tests/Push.antt =====
-- A push of one page and one asset to a small server, with a commit that works and one that is lost.
use pg_web.Common.{
  if◌then◌else◌, ◌⊎◌, sym, suc, inr, IsIn, ℕ, ◌≡◌, ◌≢◌, inl, refl, ap, Bool, true, false, List, [],
  ◌∷◌, Option, none, some, Text, codes, same, map,
}
use pg_web.Common.Result.{Result, ok, err}
use pg_web.Common.Table.{find, IsKeyed}
use pg_web.Common.Rows.{last_value}
use pg_web.Migrate.{Ledger}
use pg_web.Push.Database.{
  Tables, PushSummary, PushError, Postgres, failed, same_route, empty_summary,
}
use pg_web.Push.Entries.{Files}
use pg_web.Push.Assets.{Asset, AssetLibrary}
use pg_web.Push.Transaction.{PushOptions, App, Plan, attempt}
use pg_web.Push.Gate.{find_pending, gate}
use pg_web.Push.Run.{Source, read_source, plan_of, Retries, push_with_options}
use pg_web.Push.View.{of_page, of_synthesis, of_drop, view, KeepsView, route_row, asset_row}
use pg_web.Push.Safe.{Elapsed, Trail}
use pg_web.Push.Outcomes.{push-dry_run, push-failed}
use pg_web.Push.Lookups.{route_after, attempt-routes, attempt-assets}
use pg_web.Tests.Cli.{show_file, show_entry, show_scanned}

-- A page's SQL that is "DELETE" empties the routes; any other SQL only counts what the server ran.
-- Every function is there, and no statement of the push fails.
abbrev ran_sql : Bool → Tables ℕ → Tables ℕ
ran_sql true db = record db { routes = [] }
ran_sql false db = record db { server = suc db.server }

abbrev pub accepting : Postgres ℕ
accepting = record {
  batch_execute = λ sql db. ok (ran_sql (same sql (codes "DELETE")) db);
  function_of = λ proname db. some (codes "req json", codes "json");
  pages_functions = λ db. [];
  landed = λ message db. false;
  fault = λ step db. none;
}

-- The same with a connection that is lost when COMMIT has taken effect.
abbrev lost_commit : Postgres ℕ
lost_commit = record accepting {
  fault =
      λ step db. if same step (codes "committing") then some (codes "connection lost") else none;
  landed = λ message db. true;
}

ok_inj : {E A : Type 0} {a b : A} → ◌≡◌ {A = Result E A} (ok a) (ok b) → a ≡ b
ok_inj e = cc

abbrev pub old_tables : Tables ℕ
old_tables = record {
  routes =
      (
        (codes "GET", codes "/old"),
        record { handler_name = codes "pgweb.pages__old"; template_path = none },
      )
      ∷ [];
  templates = [];
  assets = [];
  settings = [];
  deployments = [];
  notices = [];
  server = 0;
}

abbrev no_ledger : Ledger (Tables ℕ)
no_ledger = record {
  names = λ db. ok [];
  execute = λ sql db. ok db;
  record_name = λ name db. ok db;
  commit = λ name db. ok db;
}

abbrev no_waits : Retries ℕ
no_waits = record { is_retryable = λ e. false; default_sleep = λ n db. db }

abbrev pub hello_files : Files
hello_files = record {
  read = λ f. ok (codes "hello");
  display = λ f. [];
  tera_error = λ source. none;
}

abbrev zero_hashes : AssetLibrary
zero_hashes = record {
  mime_type = λ f. codes "text/css";
  blake3_hex = λ content. codes "00000000";
  walk = λ pairs. pairs;
}

abbrev show_app : App
show_app = record {
  has_pages = true;
  page_files = show_file ∷ [];
  has_public = true;
  public_files =
      record {
        rel = some (codes "site.css");
        name = some (codes "site.css");
        size = ok 2;
        content = ok (1 ∷ 2 ∷ []);
      }
      ∷ [];
  has_migrations = false;
  migration_files = [];
  toml = ok (record {
    env = none;
    request_timeout = none;
    health_enabled = none;
    readiness_enabled = none;
  });
  host = codes "host";
}

abbrev push_opts : PushOptions
push_opts = record { dry_run = false; with_migrate = false }

abbrev dry_opts : PushOptions
dry_opts = record { dry_run = true; with_migrate = false }

push-dry_run_example :
    (r : Result PushError PushSummary) × (db' : Tables ℕ) × (push_with_options accepting no_ledger
        no_waits hello_files zero_hashes show_app dry_opts old_tables
      ≡ some (r, db'))
    × Elapsed accepting no_ledger no_waits hello_files zero_hashes old_tables db'
push-dry_run_example =
    push-dry_run accepting no_ledger no_waits hello_files zero_hashes show_app dry_opts old_tables
      refl

abbrev show_source : Source
show_source = record {
  entries = show_entry ∷ [];
  assets =
      record {
        url_path = codes "/site.css";
        value = record {
          content = 1 ∷ 2 ∷ [];
          content_type = codes "text/css";
          etag = codes "\"00000000\"";
        };
        fingerprint_hex = codes "00000000";
      }
      ∷ [];
  server = record {
    env = none;
    request_timeout = none;
    health_enabled = none;
    readiness_enabled = none;
  };
}

show_read : read_source hello_files zero_hashes show_app ≡ ok show_source
unfolding read_source pg_web.Push.Entries.validate_templates pg_web.Push.Assets.scan_public same
show_read = rw show_scanned refl

-- The page's handler is the one that the push synthesizes, whose SQL is not "DELETE".
pub accepting-KeepsView : KeepsView accepting hello_files (show_entry ∷ [])
unfolding same
accepting-KeepsView sql (of_page e f i at read) db db' ran = elim i [
  | inl here ↦ cc
  | inr there ↦ absurd there
]
accepting-KeepsView sql (of_synthesis e i is) db db' ran = ap view (sym (ok_inj (rw is at ran)))
accepting-KeepsView sql (of_drop name db0 i is) db db' ran = absurd i

abbrev pub show_plan : Plan
show_plan = plan_of zero_hashes (codes "host") show_source []

abbrev pub show_summary : PushSummary
show_summary = record empty_summary {
  templates_upserted = 1;
  routes_upserted = 1;
  synthesized_handlers = 1;
  routes_deleted = 1;
  assets_upserted = 1;
}

abbrev new_tables : Tables ℕ
new_tables = record {
  routes =
      (
        (codes "GET", codes "/"),
        record {
          handler_name = codes "pgweb.pages__index";
          template_path = some (codes "pages/index.html");
        },
      )
      ∷ [];
  templates = (codes "pages/index.html", codes "hello") ∷ [];
  assets =
      (
        codes "/site.css",
        record {
          content = 1 ∷ 2 ∷ [];
          content_type = codes "text/css";
          etag = codes "\"00000000\"";
        },
      )
      ∷ [];
  settings = [];
  deployments =
      record { from_host = some (codes "host"); file_count = 2; migrations_applied = 0 } ∷ [];
  notices = codes "pgweb_reload" ∷ [];
  server = 1;
}

show_fails :
    push_with_options lost_commit no_ledger no_waits hello_files zero_hashes show_app push_opts
      old_tables
    ≡ some (err (failed (codes "committing") (codes "connection lost")), new_tables)
unfolding push_with_options find_pending gate pg_web.Push.Run.with_retry pg_web.Retry.retry_loop
    attempt pg_web.Push.Entries.apply_entries plan_of pg_web.Push.Database.batch
    pg_web.Push.Database.execute pg_web.Push.Entries.validate_handlers pg_web.Common.strip_prefix
    same pg_web.Push.Reconcile.reconcile_routes pg_web.Common.Table.upsert same_route
    pg_web.Common.starts_with pg_web.Push.Reconcile.reconcile_templates
    pg_web.Push.Reconcile.reconcile_handlers pg_web.Push.Assets.upsert_assets
    pg_web.Push.Assets.renamed pg_web.Push.Reconcile.reconcile_assets pg_web.Push.Run.summary_of
    pg_web.Common.Table.delete pg_web.Push.Assets.rewrites_of
show_fails = rw show_read refl

push-failed_example :
    (new_tables ≡ old_tables)
    ⊎ ((src : Source) × (names : List Text) × (read_source hello_files zero_hashes show_app
          ≡ ok src)
        × (gate no_ledger push_opts show_app (find_pending no_ledger show_app old_tables) old_tables
            ≡ (ok names, old_tables))
        × Trail lost_commit no_ledger no_waits hello_files zero_hashes
            (plan_of zero_hashes (codes "host") src names)
            old_tables
            new_tables)
push-failed_example =
    push-failed lost_commit no_ledger no_waits hello_files zero_hashes show_app push_opts old_tables
      new_tables (failed (codes "committing") (codes "connection lost")) refl refl show_fails

pub show_attempt : (attempt accepting hello_files false show_plan old_tables).0 ≡ ok show_summary
unfolding push_with_options find_pending gate pg_web.Push.Run.with_retry pg_web.Retry.retry_loop
    attempt pg_web.Push.Entries.apply_entries plan_of pg_web.Push.Database.batch
    pg_web.Push.Database.execute pg_web.Push.Entries.validate_handlers pg_web.Common.strip_prefix
    same pg_web.Push.Reconcile.reconcile_routes pg_web.Common.Table.upsert same_route
    pg_web.Common.starts_with pg_web.Push.Reconcile.reconcile_templates
    pg_web.Push.Reconcile.reconcile_handlers pg_web.Push.Assets.upsert_assets
    pg_web.Push.Assets.renamed pg_web.Push.Reconcile.reconcile_assets
show_attempt = refl

attempt-routes_example :
    find same_route
      (codes "GET", codes "/old")
      (attempt accepting hello_files false show_plan old_tables).1.routes
    ≡ route_after
        (last_value same_route (codes "GET", codes "/old") (map route_row show_plan.entries))
        (find same_route (codes "GET", codes "/old") old_tables.routes)
unfolding plan_of
attempt-routes_example =
    attempt-routes accepting hello_files show_plan old_tables show_summary
      (codes "GET", codes "/old") accepting-KeepsView (refl, tt) show_attempt

attempt-assets_example :
    find same
      (codes "/site.css")
      (attempt accepting hello_files false show_plan old_tables).1.assets
    ≡ last_value same (codes "/site.css") (map asset_row show_plan.assets)
unfolding plan_of
attempt-assets_example =
    attempt-assets accepting hello_files show_plan old_tables show_summary (codes "/site.css")
      accepting-KeepsView tt show_attempt
