-- ===== src/Cache.antt =====
-- crates/pg_web_ext/src/cache.rs: the snapshot of routes, templates and environment, when it is
-- built and dropped, and `render_template`. The worker's state is the database of its transaction,
-- the snapshot behind the lock, and whether the statement timer is armed.
pub mod Lookup
pub mod Snapshots
use pg_web.Common.{
  ℕ, ◌≡◌, ◌&&◌, ◌||◌, Bool, true, false, List, [], ◌∷◌, ◌++◌, Option, none, some, if◌then◌else◌,
  Text, codes, same, map, leb, compare, Ordering,
}
use pg_web.Common.Result.{Result, ok, err}
use pg_web.Common.Sort.{sort_by, then_compare}
use pg_web.Json.{Value}
use pg_web.Errors.{ServeError, template_render_error}
use pg_web.Settings.{Env, current_env}
use pg_web.Pattern.{ParsedPattern, parse, quote_literal}
use pg_web.Backend.{Backend, RouteRow, TemplateRow}
use pg_web.Templating.{render, no_context}

-- `RouteMeta` of router.rs
pub record RouteMeta : Type 0 where
  pub handler_name : Text
  pub template_path : Option Text

abbrev pub Bucket : Type 0
Bucket = List (ParsedPattern × RouteMeta)

-- `RouteSnapshot`; the map of routes is a list of its buckets by method
pub record RouteSnapshot (Tera : Type 0) : Type 0 where
  pub routes : List (Text × Bucket)
  pub templates : Tera
  pub env : Env

pub record Worker (Db Tera : Type 0) : Type 0 where
  pub db : Db
  pub snapshot : Option (RouteSnapshot Tera)
  pub timer_active : Bool

-- `routes.get(method)`, with no routes for a missing method
unfoldable pub bucket : Text → List (Text × Bucket) → Bucket
bucket method [] = []
bucket method ((m, v) ∷ routes) = if same m method then v else bucket method routes

-- `routes.entry(method).or_default().push(…)`
unfoldable pub push_route :
    Text → ParsedPattern × RouteMeta → List (Text × Bucket) → List (Text × Bucket)
push_route method r [] = (method, r ∷ []) ∷ []
push_route method r ((m, v) ∷ routes) =
    if same m method then (m, v ++ r ∷ []) ∷ routes else (m, v) ∷ push_route method r routes

-- `unwrap_or_default()`
abbrev pub or_default : Option Text → Text
or_default none = []
or_default (some t) = t

-- The loop over the rows: a row whose pattern does not parse is skipped.
abbrev pub meta_of : RouteRow → RouteMeta
meta_of r = record { handler_name = or_default r.handler_name; template_path = r.template_path }

unfoldable pub group_routes : List RouteRow → List (Text × Bucket) → List (Text × Bucket)
group_routes [] routes = routes
group_routes (r ∷ rows) routes = group_routes rows (elim (parse (or_default r.path_pattern)) [
  | ok pat ↦ push_route (or_default r.method) (pat, meta_of r) routes
  | err e ↦ routes
])

-- The closure of `sort_by`: more static segments, then fewer captures, then longer.
unfoldable pub compare_specificity : ParsedPattern → ParsedPattern → Ordering
compare_specificity a b =
    then_compare
      (then_compare (compare b.static_count a.static_count)
        (compare a.capture_count b.capture_count))
      (compare b.length a.length)

abbrev pub not_greater : Ordering → Bool
not_greater Ordering.gt = false
not_greater _ = true

unfoldable pub le_specific : ParsedPattern × RouteMeta → ParsedPattern × RouteMeta → Bool
unfolding compare_specificity
le_specific a b = not_greater (compare_specificity a.0 b.0)

unfoldable pub sort_buckets : List (Text × Bucket) → List (Text × Bucket)
sort_buckets routes = map (λ (m, v). (m, sort_by le_specific v)) routes

-- A failed query counts as no rows.
abbrev pub rows_or_empty : {A : Type 0} → Result Text (List A) → List A
rows_or_empty (ok rows) = rows
rows_or_empty (err e) = []

unfoldable pub build_routes : Result Text (List RouteRow) → List (Text × Bucket)
unfolding group_routes sort_buckets
build_routes rows = sort_buckets (group_routes (rows_or_empty rows) [])

module _ {Db Tera : Type 0} (b : Backend Db Tera) where
  unfoldable pub add_templates : List TemplateRow → Tera → Tera
  add_templates [] tera = tera
  add_templates (r ∷ rows) tera =
      add_templates rows
        (elim (b.add_raw_template (or_default r.template_path) (or_default r.content) tera) [
          | some tera' ↦ tera'
          | none ↦ tera
        ])

  -- `build_snapshot`
  unfoldable pub build_snapshot : Db → RouteSnapshot Tera
  unfolding build_routes add_templates
  build_snapshot db = record {
    routes = build_routes (b.route_rows db);
    templates = add_templates (rows_or_empty (b.template_rows db)) b.tera_default;
    env = current_env (b.env_value db);
  }

  -- `get_snapshot`
  unfoldable pub get_snapshot : Worker Db Tera → RouteSnapshot Tera × Worker Db Tera
  get_snapshot w = elim w.snapshot [
    | some s ↦ (s, w)
    | none ↦ let built = build_snapshot w.db in (built, record w { snapshot = some built })
  ]

  -- `invalidate`
  unfoldable pub invalidate : Worker Db Tera → Worker Db Tera
  invalidate w = record w { snapshot = none }

  -- `cache::current_env`
  pub cached_env : Worker Db Tera → Env × Worker Db Tera
  unfolding get_snapshot
  cached_env w = let (s, w') = get_snapshot w in (s.env, w')

  -- `fetch_template_src`
  unfoldable pub fetch_template_src : Text → Db → Result ServeError Text
  fetch_template_src template_path db = elim (b.template_src (quote_literal template_path) db) [
    | err e ↦
        err (template_render_error template_path (codes "failed to fetch template: " ++ e) none)
    | ok none ↦ err (template_render_error template_path (codes "template not found") none)
    | ok (some src) ↦ ok src
  ]

  -- `render_template`: the compiled template first, then the source in the database.
  abbrev pub render_fallback : Text → Value → Result ServeError Text → Result ServeError Text
  render_fallback template_path value (err e) = err e
  render_fallback template_path value (ok src) = render b template_path src value

  unfoldable pub render_with : RouteSnapshot Tera → Text → Value → Db → Result ServeError Text
  render_with snap template_path value db = elim (b.context_error value) [
    | some e ↦ err (no_context template_path e)
    | none ↦ elim (b.tera_render snap.templates template_path value) [
      | some body ↦ ok body
      | none ↦ render_fallback template_path value (fetch_template_src template_path db)
    ]
  ]

  unfoldable pub render_template :
      Text → Value → Worker Db Tera → Result ServeError Text × Worker Db Tera
  unfolding get_snapshot render_with
  render_template template_path value w =
      let (snap, w') = get_snapshot w in (render_with snap template_path value w'.db, w')
