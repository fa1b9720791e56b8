-- ===== src/Routes/Statics.antt =====
-- The order in which crates/pg_web_ext/src/cache.rs sorts the routes, by what it means for a lookup.
use pg_web.Common.{◌≡◌, refl, ◌≤◌, inl, inr, true, some, Text, arith}
use pg_web.Common.Result.{ok}
use pg_web.Pattern.{ParsedPattern, parse, request_segments}
use pg_web.Pattern.Parsing.{count_static, parse_iff}
use pg_web.Backend.{Backend}
use pg_web.Cache.{RouteMeta, le_specific, compare_specificity, Worker}
use pg_web.Routes.{MatchedRoute, lookup_route}
use pg_web.Routes.Rows.{Serves}
use pg_web.Routes.Best.{IsFresh, rows_of, lookup_route_best}

le_specific-static_count :
    (a b : ParsedPattern × RouteMeta) → le_specific a b ≡ true → b.0.static_count ≤ a.0.static_count
unfolding le_specific compare_specificity
le_specific-static_count a b e = ground arith

parse-count_static :
    (t : Text) (pat : ParsedPattern)
    → parse t ≡ ok pat
    → pat.static_count ≡ count_static pat.segments
parse-count_static t pat e = let (ps, pieces, well_formed, is) = (parse_iff t pat).0 e in rw is refl

module _ {Db Tera : Type 0} (b : Backend Db Tera) where
  -- With a fresh snapshot, no row of the table for that method that serves the path has more static
  -- segments in its pattern than the row whose handler and template `lookup_route` returns.
  pub lookup_route-most_static :
      (method path : Text) (w : Worker Db Tera) {found : MatchedRoute}
      → IsFresh b w
      → (lookup_route b method path w).0 ≡ some found
      → (r : ParsedPattern × RouteMeta) × Serves method (request_segments path) (rows_of b w) r
        × (found.handler_name ≡ r.1.handler_name)
        × (found.template_path ≡ r.1.template_path)
        × ((other : ParsedPattern × RouteMeta)
            → Serves method (request_segments path) (rows_of b w) other
            → count_static other.0.segments ≤ count_static r.0.segments)
  lookup_route-most_static method path w fresh e =
      let (r, serves, m, handler, template, best) = lookup_route_best b method path w fresh e in
      (
        r,
        serves,
        handler,
        template,
        λ other s.
            let mine = parse-count_static _ r.0 serves.parses in
            let its = parse-count_static _ other.0 s.parses in
            elim (best other s) [
              | inl same_row ↦ rw same_row (omega arith)
              | inr ahead ↦ rw (← mine, ← its) (le_specific-static_count r other ahead)
            ],
      )
