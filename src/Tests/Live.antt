-- ===== src/Tests/Live.antt =====
-- A worker that runs while the page is pushed.
use mathlib.Core.Path.{subst}
use pg_web.Common.{
  suc, inr, IsIn, ℕ, ◌≡◌, ◌≢◌, inl, refl, ap, Bool, true, false, List, [], ◌∷◌, Option, none, some,
  Text, codes, same, map,
}
use pg_web.Common.Result.{ok}
use pg_web.Common.Table.{find, IsKeyed}
use pg_web.Push.Database.{
  RouteValue, Tables, PushSummary, PushError, Postgres, handler_not_found, same_route,
  empty_summary,
}
use pg_web.Push.Entries.{Files}
use pg_web.Push.Assets.{Asset, AssetLibrary}
use pg_web.Push.Transaction.{attempt}
use pg_web.Push.Gate.{find_pending, gate}
use pg_web.Push.Run.{Source, read_source, plan_of, Retries, push_with_options}
use pg_web.Push.Served.{row_of, Finds}
use pg_web.Push.View.{route_row}
use pg_web.Common.Rows.{last_value}
use pg_web.Push.Live.{Delivers, pushed-live}
use pg_web.Listen.{Broadcast, drain}
use pg_web.Settings.{development}
use pg_web.Backend.{Backend}
use pg_web.Cache.{Worker, meta_of}
use pg_web.Routes.{MatchedRoute, lookup_route}
use pg_web.Pattern.{parse, request_segments}
use pg_web.Pattern.Matching.{Fits}
use pg_web.Pattern.Parsing.{of_segments}
use pg_web.Tests.World.{backend}
use pg_web.Tests.Cli.{show_entry}
use pg_web.Tests.Push.{
  accepting, accepting-KeepsView, hello_files, show_plan, old_tables, show_summary, show_attempt,
}

-- A worker over these tables: only its query for the routes matters here.
abbrev tables_backend : Backend (Tables ℕ) (List Text)
tables_backend = record {
  route_rows = λ db. ok (map row_of db.routes);
  template_rows = λ db. ok [];
  method_rows = λ db. ok [];
  asset_rows = λ path db. ok [];
  template_src = λ path db. ok none;
  env_value = λ db. ok none;
  timeout_value = λ db. ok none;
  health_enabled = λ db. ok none;
  readiness_enabled = λ db. ok none;
  set_statement_timeout = λ t db. db;
  statement_timeout = λ db. 15000;
  transaction_timeout = λ db. 0;
  framework_call = λ name json db. (ok [], db);
  tera_default = [];
  add_raw_template = λ path src t. some (path ∷ t);
  tera_render = backend.tera_render;
  one_off = backend.one_off;
  context_error = backend.context_error;
  parse_json = backend.parse_json;
  print_json = backend.print_json;
}

-- It has an empty snapshot from before the push.
abbrev stale_worker : Worker (Tables ℕ) (List Text)
stale_worker = record {
  db = (attempt accepting hello_files false show_plan old_tables).1;
  snapshot = some (record { routes = []; templates = []; env = development });
  timer_active = false;
}

-- Channels that count what is sent.
abbrev counting : Broadcast
counting = record {
  Sender = ℕ;
  Receiver = Unit {0};
  channel = 0;
  subscribe = λ tx. (tt, tx);
  send = λ payload tx. (none, suc tx);
}

abbrev arrived : List (Text × Text)
arrived = (codes "pgweb_reload", []) ∷ []

show_sent :
    (attempt accepting hello_files false show_plan old_tables).1.notices ≡ codes "pgweb_reload" ∷ []
unfolding push_with_options find_pending gate pg_web.Push.Run.with_retry pg_web.Retry.retry_loop
    attempt pg_web.Push.Entries.apply_entries plan_of pg_web.Push.Database.batch
    pg_web.Push.Database.execute pg_web.Push.Entries.validate_handlers pg_web.Common.strip_prefix
    same pg_web.Push.Reconcile.reconcile_routes pg_web.Common.Table.upsert same_route
    pg_web.Common.starts_with pg_web.Push.Reconcile.reconcile_templates
    pg_web.Push.Reconcile.reconcile_handlers pg_web.Push.Assets.upsert_assets
    pg_web.Push.Assets.renamed pg_web.Push.Reconcile.reconcile_assets
show_sent = refl

show-Delivers : Delivers (attempt accepting hello_files false show_plan old_tables).1 arrived
show-Delivers n i = elim (subst (λ ns. IsIn n ns) show_sent i) [
  | inl here ↦ inl (ap (λ x. (x, [])) here)
  | inr there ↦ absurd there
]

show_parses : parse show_entry.route ≡ ok (of_segments [])
unfolding parse pg_web.Common.split
show_parses = refl

show-Fits : Fits (of_segments []).segments (request_segments (codes "/"))
unfolding request_segments pg_web.Common.split
show-Fits = tt

pushed-live_example :
    (v : RouteValue) × (found : MatchedRoute) × (last_value same_route
        (codes "GET", codes "/")
        (map route_row show_plan.entries)
      ≡ some v)
    × ((lookup_route tables_backend
          (codes "GET")
          (codes "/")
          (drain counting tables_backend arrived ([], stale_worker)).1).0
        ≡ some found)
    × Finds
        (codes "GET")
        (codes "/")
        (map row_of (attempt accepting hello_files false show_plan old_tables).1.routes)
        (of_segments [], meta_of (row_of ((codes "GET", codes "/"), v)))
        found
unfolding plan_of
pushed-live_example =
    pushed-live accepting tables_backend counting hello_files show_plan old_tables show_summary
      show_entry (of_segments []) (codes "/") arrived [] stale_worker accepting-KeepsView
      (λ db. refl) (refl, tt) show_attempt (inl refl) show_parses show-Fits refl show-Delivers
