-- ===== src/Push/Served.antt =====
-- The CLI and the worker together: what crates/pg_web_cli/src/push.rs commits is what the router of
-- crates/pg_web_ext/src/router.rs finds.
use mathlib.Core.Path.{subst}
use pg_web.Common.{
  ◌⊎◌, true, Option-cases, ◌≡◌, refl, sym, ap, ◌∙◌, inl, inr, List, [], ◌∷◌, some, Text, map, IsIn,
  false,
}
use pg_web.Common.Result.{ok}
use pg_web.Common.Table.{find, IsKeyed, find-IsIn}
use pg_web.Common.Rows.{last_value, last_value-IsIn}
use pg_web.Pattern.{ParsedPattern, parse, matches, request_segments}
use pg_web.Pattern.Matching.{Fits}
use pg_web.Backend.{Backend, RouteRow}
use pg_web.Cache.{Worker, RouteMeta, le_specific, meta_of, rows_or_empty}
use pg_web.Routes.{MatchedRoute, lookup_route}
use pg_web.Routes.Best.{IsFresh, rows_of, lookup_route_best, lookup_route-none}
use pg_web.Routes.Rows.{Serves}
use pg_web.Paths.Scan.{RouteEntry}
use pg_web.Push.Database.{
  RouteKey, RouteValue, Tables, PushSummary, Postgres, same_route, same_route_iff,
}
use pg_web.Push.Entries.{Files}
use pg_web.Push.Transaction.{Plan, attempt}
use pg_web.Push.View.{KeepsView, route_row}
use pg_web.Push.Lookups.{route_after, attempt-routes}

-- A row of pgweb.routes as the worker's query reads it.
abbrev pub row_of : RouteKey × RouteValue → RouteRow
row_of ((method, pattern), v) = record {
  method = some method;
  path_pattern = some pattern;
  handler_name = some v.handler_name;
  template_path = v.template_path;
}

-- The worker reads the table that the CLI writes.
abbrev pub ReadsRoutes : {Server Tera : Type 0} → Backend (Tables Server) Tera → Type 0
ReadsRoutes {Server} b = (db : Tables Server) → b.route_rows db ≡ ok (map row_of db.routes)

-- What a lookup finds: a row of the table that serves the path, with its handler, its template and the
-- captures of the match, which is the row of the page or one that is at least as specific.
pub record Finds (method path : Text) (rows : List RouteRow) (page : ParsedPattern × RouteMeta)
    (found : MatchedRoute) : Type 0 where
  pub row : ParsedPattern × RouteMeta
  pub serves : Serves method (request_segments path) rows row
  pub captures : matches row.0 (request_segments path) ≡ some found.path_params
  pub handler : found.handler_name ≡ row.1.handler_name
  pub template : found.template_path ≡ row.1.template_path
  pub best : (page ≡ row) ⊎ (le_specific row page ≡ true)

listed_row :
    (k : RouteKey) (v : RouteValue) (t : List (RouteKey × RouteValue))
    → IsIn (k, v) t
    → IsIn (row_of (k, v)) (map row_of t)
listed_row k v [] i = absurd i
listed_row k v (x ∷ t) (inl here) = inl (ap row_of here)
listed_row k v (x ∷ t) (inr there) = inr (listed_row k v t there)

module _ {Server Tera : Type 0} (pg : Postgres Server) (b : Backend (Tables Server) Tera) where
  -- Behind an attempt that commits, if the SQL of its pages writes none of the tables of the view and
  -- the old table has one row for each key: a worker that reads the tables and has a fresh snapshot
  -- answers every path that fits the pattern of a page from a row of the pushed table, which is that
  -- of the page's last entry or one at least as specific, with its handler and captures.
  pub pushed-served :
      (files : Files) (p : Plan) (db : Tables Server) (s : PushSummary) (e : RouteEntry)
      (pat : ParsedPattern) (path : Text) (w : Worker (Tables Server) Tera)
      → KeepsView pg files p.entries
      → ReadsRoutes b
      → IsKeyed same_route db.routes
      → (attempt pg files false p db).0 ≡ ok s
      → IsIn e p.entries
      → parse e.route ≡ ok pat
      → Fits pat.segments (request_segments path)
      → w.db ≡ (attempt pg files false p db).1
      → IsFresh b w
      → (v : RouteValue) × (found : MatchedRoute) × (last_value same_route
            (e.method, e.route)
            (map route_row p.entries)
          ≡ some v)
        × ((lookup_route b e.method path w).0 ≡ some found)
        × Finds e.method path
            (map row_of (attempt pg files false p db).1.routes)
            (pat, meta_of (row_of ((e.method, e.route), v)))
            found
  pushed-served files p db s e pat path w keeps reads keyed run listed parses fits same_db fresh =
      let k : RouteKey = (e.method, e.route) in
      elim (Option-cases (last_value same_route k (map route_row p.entries))) [
        | inl missing ↦
            absurd (last_value-IsIn same_route same_route_iff route_row e p.entries listed missing)
        | inr (v, is_v) ↦
            let (found, row_is, hit, finds) = found_for k v is_v in (v, found, row_is, hit, finds)
      ]
    where
      after : Tables Server
      after = (attempt pg files false p db).1

      is_read : rows_of b w ≡ map row_of after.routes
      is_read =
          ap rows_or_empty
            (reads w.db ∙ ap (λ (d : Tables Server). ok (map row_of d.routes)) same_db)

      page : RouteValue → ParsedPattern × RouteMeta
      page v = (pat, meta_of (row_of ((e.method, e.route), v)))

      from_worker :
          (r : ParsedPattern × RouteMeta)
          → Serves e.method (request_segments path) (map row_of after.routes) r
          → Serves e.method (request_segments path) (rows_of b w) r
      from_worker r = subst (λ rows. Serves e.method (request_segments path) rows r) (sym is_read)

      page_serves :
          (v : RouteValue)
          → last_value same_route (e.method, e.route) (map route_row p.entries) ≡ some v
          → Serves e.method
              (request_segments path)
              (map row_of after.routes)
              (pat, meta_of (row_of ((e.method, e.route), v)))
      page_serves v is_v =
          let k : RouteKey = (e.method, e.route) in
          let found =
            attempt-routes pg files p db s k keeps keyed run
            ∙ ap (λ o. route_after o (find same_route k db.routes)) is_v in
          record {
            row = row_of (k, v);
            listed =
                listed_row k v after.routes
                  (find-IsIn same_route same_route_iff k v after.routes found);
            same_method = refl;
            parses = parses;
            meta = refl;
            fits = fits;
          }

      found_for :
          (k : RouteKey) (v : RouteValue)
          → last_value same_route (e.method, e.route) (map route_row p.entries) ≡ some v
          → (found : MatchedRoute) × (last_value same_route
                (e.method, e.route)
                (map route_row p.entries)
              ≡ some v)
            × ((lookup_route b e.method path w).0 ≡ some found)
            × Finds e.method path
                (map row_of after.routes)
                (pat, meta_of (row_of ((e.method, e.route), v)))
                found
      found_for k v is_v = elim (Option-cases (lookup_route b e.method path w).0) [
        | inl missed ↦ absurd (
            lookup_route-none b e.method path w (page v) fresh missed
              (from_worker (page v) (page_serves v is_v)))
        | inr (found, hit) ↦
            let (row, serves, captures, handler, template, least) =
              lookup_route_best b e.method path w fresh hit in
            (
              found,
              is_v,
              hit,
              record {
                row = row;
                serves =
                    subst (λ rows. Serves e.method (request_segments path) rows row) is_read serves;
                captures = captures;
                handler = handler;
                template = template;
                best = least (page v) (from_worker (page v) (page_serves v is_v));
              },
            )
      ]
