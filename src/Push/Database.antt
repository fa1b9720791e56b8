-- ===== src/Push/Database.antt =====
-- The tables that a push writes, as lists of rows, and the statements of its transaction. What the
-- server makes of other SQL and of pg_proc, and which statement fails, are parameters.
use pg_web.Common.{
  ℕ, ◌≡◌, ◌↔◌, ◌&&◌, Bool, true, false, List, [], Option, none, some, Text, same, same_iff, arith,
}
use pg_web.Common.Result.{Result, ok, err}

-- The key of pgweb.routes: the method and the pattern.
abbrev pub RouteKey : Type 0
RouteKey = Text × Text

unfoldable pub same_route : RouteKey → RouteKey → Bool
same_route (m, p) (n, q) = same m n && same p q

pub same_route_iff : (a b : RouteKey) → (same_route a b ≡ true) ↔ (a ≡ b)
unfolding same_route
same_route_iff (m, p) (n, q) = ground (arith, same_iff m n, same_iff p q)

pub record RouteValue : Type 0 where
  pub handler_name : Text
  pub template_path : Option Text

pub record AssetValue : Type 0 where
  pub content : List ℕ
  pub content_type : Text
  pub etag : Text

pub record Deployment : Type 0 where
  pub from_host : Option Text
  pub file_count : ℕ
  pub migrations_applied : ℕ

-- The schema pgweb, with the rest of the server. `notices` are the notifications sent.
pub record Tables (Server : Type 0) : Type 0 where
  pub routes : List (RouteKey × RouteValue)
  pub templates : List (Text × Text)
  pub assets : List (Text × AssetValue)
  pub settings : List (Text × Text)
  pub deployments : List Deployment
  pub notices : List Text
  pub server : Server

-- `PushSummary`
pub record PushSummary : Type 0 where
  pub sql_files_executed : ℕ
  pub templates_upserted : ℕ
  pub routes_upserted : ℕ
  pub synthesized_handlers : ℕ
  pub routes_deleted : ℕ
  pub templates_deleted : ℕ
  pub handlers_dropped : ℕ
  pub env_synced : Option Text
  pub request_timeout_synced : Option Text
  pub health_enabled_synced : Option Bool
  pub readiness_enabled_synced : Option Bool
  pub assets_upserted : ℕ
  pub assets_deleted : ℕ
  pub migrations_applied : ℕ
  pub migrations_applied_names : List Text
  pub dry_run : Bool

abbrev pub empty_summary : PushSummary
empty_summary = record {
  sql_files_executed = 0;
  templates_upserted = 0;
  routes_upserted = 0;
  synthesized_handlers = 0;
  routes_deleted = 0;
  templates_deleted = 0;
  handlers_dropped = 0;
  env_synced = none;
  request_timeout_synced = none;
  health_enabled_synced = none;
  readiness_enabled_synced = none;
  assets_upserted = 0;
  assets_deleted = 0;
  migrations_applied = 0;
  migrations_applied_names = [];
  dry_run = false;
}

-- The errors of a push, without their prose. `failed` is a step and what went wrong.
pub data PushError : Type 0 where
  failed : (step message : Text) → PushError
  no_pages_directory : PushError
  pending_migrations : List Text → PushError
  bad_template : (html_path message : Text) → PushError
  asset_too_large : Text → PushError
  not_in_schema : Text → PushError
  handler_not_found : Text → PushError
  bad_arguments : (handler_name args : Text) → PushError
  bad_result : (handler_name rettype : Text) → PushError
  gave_up : PushError → PushError

pub record Postgres (Server : Type 0) : Type 0 where
  -- `batch_execute`: SQL of the user's, or one that the push puts together
  pub batch_execute : Text → Tables Server → Result Text (Tables Server)
  -- the arguments and the result of the function in schema pgweb with this name
  pub function_of : Text → Tables Server → Option (Text × Text)
  -- the functions `pages__*` with one argument `req json` and the result `json` or `text`
  pub pages_functions : Tables Server → List Text
  -- a COMMIT that ends with this error, as a connection that is lost during it, had taken effect
  pub landed : Text → Tables Server → Bool
  -- why this statement of the push fails, if it does
  pub fault : Text → Tables Server → Option Text

-- The transaction and the summary of an attempt.
abbrev pub Tx : Type 0 → Type 0
Tx Server = Tables Server × PushSummary

abbrev pub count :
    {Server : Type 0} → (PushSummary → PushSummary) → Tx Server → Result PushError (Tx Server)
count change (db, s) = ok (db, change s)

-- What a statement of the push gives, by its fault; the error tells its step.
abbrev pub executed :
    {Server : Type 0}
    → Text
    → (Tables Server → Tables Server)
    → Tx Server
    → Option Text
    → Result PushError (Tx Server)
executed step change tx (some e) = err (failed step e)
executed step change (db, s) none = ok (change db, s)

abbrev pub batched :
    {Server : Type 0}
    → Text
    → PushSummary
    → Result Text (Tables Server)
    → Result PushError (Tx Server)
batched step s (err e) = err (failed step e)
batched step s (ok db) = ok (db, s)

module _ {Server : Type 0} (pg : Postgres Server) where
  unfoldable pub execute :
      Text → (Tables Server → Tables Server) → Tx Server → Result PushError (Tx Server)
  execute step change (db, s) = executed step change (db, s) (pg.fault step db)

  unfoldable pub batch : Text → Text → Tx Server → Result PushError (Tx Server)
  batch step sql (db, s) = batched step s (pg.batch_execute sql db)
