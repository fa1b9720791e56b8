-- ===== src/Routes.antt =====
-- crates/pg_web_ext/src/router.rs: `lookup_route`, `lookup_fallback`, `list_allowed_methods`,
-- `lookup_asset` and `is_suppressed_default_health_or_readiness`.
pub mod Rows
pub mod Best
pub mod Statics
pub mod Allowed
use pg_web.Common.{
  ℕ, ◌||◌, not, Bool, true, false, List, [], ◌∷◌, ◌++◌, Option, none, some, if◌then◌else◌, Text,
  codes, same, is_empty, any, join, compare_text, Ordering, map,
}
use pg_web.Common.Result.{Result, ok, err, ◌>>=◌, map_err, collect}
use pg_web.Common.BTreeMap.{insert}
use pg_web.Errors.{ServeError, other}
use pg_web.Pattern.{ParsedPattern, parse, matches, request_segments, quote_literal}
use pg_web.Backend.{Backend, Column, AssetRow}
use pg_web.Cache.{RouteMeta, Bucket, bucket, RouteSnapshot, Worker, get_snapshot}

-- `MatchedRoute`, with its `Route` flattened
pub record MatchedRoute : Type 0 where
  pub handler_name : Text
  pub template_path : Option Text
  pub path_params : List (Text × Text)

-- The loop of `lookup_route`.
abbrev pub matched : RouteMeta → List (Text × Text) → MatchedRoute
matched meta caps = record {
  handler_name = meta.handler_name;
  template_path = meta.template_path;
  path_params = caps;
}

unfoldable pub first_match : List Text → Bucket → Option MatchedRoute
first_match segs [] = none
first_match segs ((pat, meta) ∷ routes) = elim (matches pat segs) [
  | some caps ↦ some (matched meta caps)
  | none ↦ first_match segs routes
]

-- The methods of the rows whose patterns parse and match, as the keys of a `BTreeSet`.
abbrev pub matches_path : List Text → Text → Bool
matches_path segs pattern_text = elim (parse pattern_text) [
  | err e ↦ false
  | ok pat ↦ elim (matches pat segs) [ none ↦ false | some caps ↦ true ]
]

unfoldable pub matching_methods :
    List Text → List (Text × Text) → List (Text × Unit {0}) → List (Text × Unit {0})
matching_methods segs [] methods = methods
matching_methods segs ((m, pp) ∷ rows) methods =
    matching_methods segs rows (if matches_path segs pp then insert m tt methods else methods)

abbrev pub has_key : Text → List (Text × Unit {0}) → Bool
has_key k methods = any (λ (m, u). same m k) methods

abbrev pub keys : List (Text × Unit {0}) → List Text
keys methods = map (λ (m, u). m) methods

abbrev pub with_head : List (Text × Unit {0}) → List (Text × Unit {0})
with_head methods =
    if has_key (codes "GET") methods then insert (codes "HEAD") tt methods else methods

-- The Allow header, from the methods found.
unfoldable pub allow_of : List (Text × Unit {0}) → Text
allow_of methods =
    if is_empty methods
    then []
    else join (codes ", ") (keys (insert (codes "OPTIONS") tt (with_head methods)))

-- `ok_or_else` on a column
abbrev pub require : {A : Type 0} → Text → Column A → Result ServeError A
require message (err e) = err (other e)
require message (ok none) = err (other message)
require message (ok (some a)) = ok a

-- A row of `list_allowed_methods`: the columns with the ordinals 0 and 1.
abbrev pub read_method_row : (ℕ → Column Text) → Result ServeError (Text × Text)
read_method_row row = require (codes "null method in pgweb.routes") (row 0) >>= λ m.
    require (codes "null path_pattern in pgweb.routes") (row 1) >>= λ pp. ok (m, pp)

unfoldable pub read_method_rows :
    Result Text (List (ℕ → Column Text)) → Result ServeError (List (Text × Text))
read_method_rows (err e) = err (other e)
read_method_rows (ok rows) = collect read_method_row rows

-- `Asset`
pub record Asset : Type 0 where
  pub content : List ℕ
  pub content_type : Text
  pub etag : Text

unfoldable pub read_asset : Result Text (List AssetRow) → Result ServeError (Option Asset)
read_asset (err e) = err (other e)
read_asset (ok []) = ok none
read_asset (ok (row ∷ rows)) =
    require (codes "null content in pgweb.assets") row.content >>= λ content.
    require (codes "null content_type in pgweb.assets") row.content_type >>= λ content_type.
    require (codes "null etag in pgweb.assets") row.etag >>= λ etag.
    ok (some (record { content = content; content_type = content_type; etag = etag }))

-- `matches!(v.as_deref(), Some("false"))`, where an error counts as no value
abbrev pub is_false_text : Result Text (Option Text) → Bool
is_false_text (ok (some v)) = same v (codes "false")
is_false_text _ = false

module _ {Db Tera : Type 0} (b : Backend Db Tera) where
  -- `lookup_route`; it always returns `Ok`
  unfoldable pub lookup_route : Text → Text → Worker Db Tera → Option MatchedRoute × Worker Db Tera
  unfolding get_snapshot first_match bucket
  lookup_route method path w =
      let (snap, w') = get_snapshot b w in
      (first_match (request_segments path) (bucket method snap.routes), w')

  -- `lookup_fallback`
  unfoldable pub lookup_fallback : Worker Db Tera → Option MatchedRoute × Worker Db Tera
  unfolding lookup_route
  lookup_fallback w = lookup_route (codes "404") (codes "/") w

  -- `list_allowed_methods`
  unfoldable pub list_allowed_methods : Text → Db → Result ServeError Text
  unfolding read_method_rows allow_of matching_methods
  list_allowed_methods path db = read_method_rows (b.method_rows db) >>= λ rows.
      ok (allow_of (matching_methods (request_segments path) rows []))

  -- `lookup_asset`
  unfoldable pub lookup_asset : Text → Db → Result ServeError (Option Asset)
  unfolding read_asset
  lookup_asset path db = read_asset (b.asset_rows (quote_literal path) db)

  -- `is_suppressed_default_health_or_readiness`
  unfoldable pub is_suppressed_default : Text → Db → Bool
  is_suppressed_default handler_name db =
      if same handler_name (codes "pgweb._default_health_handler")
      then is_false_text (b.health_enabled db)
      else if same handler_name (codes "pgweb._default_readiness_handler")
      then is_false_text (b.readiness_enabled db)
      else false
