-- ===== src/Tests/Routing.antt =====
-- Runs of the router's lookup and of the route patterns.
use pg_web.Common.{
  ℕ, ◌≡◌, ◌≢◌, ◌⊎◌, ◌↔◌, inl, inr, refl, true, false, List, [], ◌∷◌, ◌++◌, Option, none, some, Text,
  codes, map, All, length, bytes,
}
use pg_web.Common.Result.{ok}
use pg_web.Pattern.{
  ParsedPattern, PatSeg, static, capture, parse, matches, request_segments, is_safe_ident,
  quote_literal, quote,
}
use pg_web.Pattern.Matching.{Fits, matches_iff}
use pg_web.Pattern.Parsing.{parse_iff, of_segments, print_segment, IsWellFormed}
use pg_web.Pattern.Ident.{is_safe_ident_iff, IsIdent}
use pg_web.Pattern.Quoting.{read-quote_literal, read_literal}
use pg_web.Cache.{RouteMeta, le_specific, Worker, get_snapshot, build_snapshot, invalidate}
use pg_web.Routes.{MatchedRoute, lookup_route}
use pg_web.Routes.Rows.{Serves}
use pg_web.Routes.Best.{lookup_route_best, lookup_route-none, rows_of}
use pg_web.Common.{◌≤◌}
use pg_web.Pattern.Parsing.{count_static}
use pg_web.Routes.Statics.{lookup_route-most_static}
use pg_web.Backend.{Backend, Column}
use pg_web.Common.Result.{Result, err}
use pg_web.Common.{zero, suc, ◌⊎◌, same, false}
use pg_web.Tests.World.{backend, worker}

abbrev new_path : Text
new_path = codes "/posts/new"

abbrev new_route : MatchedRoute
new_route = record {
  handler_name = codes "pgweb.pages__posts__new";
  template_path = some (codes "posts/new.html");
  path_params = [];
}

abbrev posts_id : List PatSeg
posts_id = static (codes "posts") ∷ capture (codes "id") ∷ []

new_found : (lookup_route backend (codes "GET") new_path worker).0 ≡ some new_route
unfolding lookup_route build_snapshot parse pg_web.Common.split pg_web.Cache.push_route
    pg_web.Common.same pg_web.Common.Sort.sort_by le_specific matches
new_found = refl

worker_fresh : (get_snapshot backend worker).0 ≡ build_snapshot backend 0
unfolding get_snapshot
worker_fresh = refl

nowhere_none : (lookup_route backend (codes "GET") (codes "/nowhere") worker).0 ≡ none
unfolding lookup_route build_snapshot parse pg_web.Common.split pg_web.Cache.push_route
    pg_web.Common.same pg_web.Common.Sort.sort_by le_specific matches
nowhere_none = refl

lookup_route_best_example :
    (r : ParsedPattern × RouteMeta) × Serves
      (codes "GET")
      (request_segments new_path)
      (rows_of backend worker)
      r
    × (matches r.0 (request_segments new_path) ≡ some [])
    × (new_route.handler_name ≡ r.1.handler_name)
    × (new_route.template_path ≡ r.1.template_path)
    × ((other : ParsedPattern × RouteMeta)
        → Serves (codes "GET") (request_segments new_path) (rows_of backend worker) other
        → (other ≡ r) ⊎ (le_specific r other ≡ true))
lookup_route_best_example =
    lookup_route_best backend (codes "GET") new_path worker worker_fresh new_found

lookup_route-most_static_example :
    (r : ParsedPattern × RouteMeta) × Serves
      (codes "GET")
      (request_segments new_path)
      (rows_of backend worker)
      r
    × (new_route.handler_name ≡ r.1.handler_name)
    × (new_route.template_path ≡ r.1.template_path)
    × ((other : ParsedPattern × RouteMeta)
        → Serves (codes "GET") (request_segments new_path) (rows_of backend worker) other
        → count_static other.0.segments ≤ count_static r.0.segments)
lookup_route-most_static_example =
    lookup_route-most_static backend (codes "GET") new_path worker worker_fresh new_found

lookup_route-none_example :
    ¬ Serves
      (codes "GET")
      (request_segments (codes "/nowhere"))
      (rows_of backend worker)
      (of_segments posts_id, record { handler_name = []; template_path = none })
lookup_route-none_example =
    lookup_route-none backend (codes "GET") (codes "/nowhere") worker
      (of_segments posts_id, record { handler_name = []; template_path = none }) worker_fresh
      nowhere_none

matches_iff_example :
    ((caps : List (Text × Text)) × (matches (of_segments posts_id) (codes "posts" ∷ codes "42" ∷ [])
        ≡ some caps))
    ↔ Fits posts_id (codes "posts" ∷ codes "42" ∷ [])
matches_iff_example = matches_iff (of_segments posts_id) (codes "posts" ∷ codes "42" ∷ [])

parse_iff_example : (parse (codes "/posts/:id") ≡ ok (of_segments posts_id)) ↔ (
    (ps : List PatSeg) × (request_segments (codes "/posts/:id") ≡ map print_segment ps)
    × All IsWellFormed ps
    × (of_segments posts_id ≡ of_segments ps))
parse_iff_example = parse_iff (codes "/posts/:id") (of_segments posts_id)

is_safe_ident_iff_example :
    (is_safe_ident (codes "pgweb.pages__posts__id") ≡ true)
    ↔ IsIdent (bytes (codes "pgweb.pages__posts__id"))
is_safe_ident_iff_example = is_safe_ident_iff (codes "pgweb.pages__posts__id")

read-quote_literal_example :
    (t : Text) × (quote_literal (codes "it's") ++ codes " LIMIT 1" ≡ quote ∷ t)
    × (read_literal t ≡ some (codes "it's", codes " LIMIT 1"))
read-quote_literal_example = read-quote_literal (codes "it's") (codes " LIMIT 1") refl

abbrev posts_columns : ℕ → Column Text
posts_columns zero = ok (some (codes "GET"))
posts_columns (suc n) = ok (some (codes "/posts"))

-- A database whose query counts its columns as the code reads them.
abbrev readable : Backend ℕ (List Text)
readable = record backend { method_rows = λ db. ok (posts_columns ∷ []) }
