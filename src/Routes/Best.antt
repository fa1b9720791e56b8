-- ===== src/Routes/Best.antt =====
-- Which route `lookup_route` picks.
use mathlib.Core.Path.{subst}
use pg_web.Common.{
  ◌≡◌, refl, sym, ◌∙◌, ◌⊎◌, inl, inr, true, List, [], ◌∷◌, none, some, Text, All, IsIn,
  Option-cases, arith,
}
use pg_web.Common.Sort.{IsSorted}
use pg_web.Pattern.{ParsedPattern, matches, request_segments}
use pg_web.Pattern.Matching.{Fits, matches_sound, matches_complete}
use pg_web.Backend.{Backend, RouteRow}
use pg_web.Cache.{
  RouteMeta, Bucket, bucket, le_specific, rows_or_empty, build_routes, build_snapshot, get_snapshot,
  Worker,
}
use pg_web.Cache.Lookup.{bucket-IsSorted}
use pg_web.Routes.{MatchedRoute, matched, first_match, lookup_route}
use pg_web.Routes.Rows.{Serves, bucket-IsRow, Serves-bucket}

-- `first_match` returns the first route of a bucket that matches; all that fit come behind it.
pub record IsFirst (segs : List Text) (routes : Bucket) (found : MatchedRoute) : Type 0 where
  pub route : ParsedPattern × RouteMeta
  pub caps : List (Text × Text)
  pub listed : IsIn route routes
  pub matches_it : matches route.0 segs ≡ some caps
  pub is_found : found ≡ matched route.1 caps
  pub least :
      IsSorted le_specific routes
      → (r : ParsedPattern × RouteMeta) → IsIn r routes
      → Fits r.0.segments segs
      → (r ≡ route) ⊎ (le_specific route r ≡ true)

All-IsIn : {A : Type 0} (P : A → Type 0) (x : A) (xs : List A) → All P xs → IsIn x xs → P x
All-IsIn P x [] h i = absurd i
All-IsIn P x (y ∷ xs) h (inl here) = rw here h.0
All-IsIn P x (y ∷ xs) h (inr there) = All-IsIn P x xs h.1 there

none_no_fit :
    (pat : ParsedPattern) (segs : List Text) → matches pat segs ≡ none → ¬ Fits pat.segments segs
none_no_fit pat segs e f = let (caps, m) = matches_complete pat segs f in cc

pub first_match-IsFirst :
    (segs : List Text) (routes : Bucket) (found : MatchedRoute)
    → first_match segs routes ≡ some found
    → IsFirst segs routes found
unfolding first_match
first_match-IsFirst segs [] found e = cc
first_match-IsFirst segs ((pat, meta) ∷ routes) found e = elim (Option-cases (matches pat segs)) [
  | inl missed ↦
      later missed (first_match-IsFirst segs routes found (rw (missed, first_match) at e))
  | inr (caps, hit) ↦ record {
    route = (pat, meta);
    caps = caps;
    listed = inl refl;
    matches_it = hit;
    is_found = ground arith;
    least = λ sorted r i f. elim i [
      | inl here ↦ inl here
      | inr there ↦ inr (All-IsIn (λ y. le_specific (pat, meta) y ≡ true) r routes sorted.0 there)
    ];
  }
]
  where
    later :
        matches pat segs ≡ none
        → IsFirst segs routes found
        → IsFirst segs ((pat, meta) ∷ routes) found
    later missed c = record {
      route = c.route;
      caps = c.caps;
      listed = inr c.listed;
      matches_it = c.matches_it;
      is_found = c.is_found;
      least = λ sorted r i f. elim i [
        | inl here ↦ absurd (
            none_no_fit pat segs missed
              (subst (λ (x : ParsedPattern × RouteMeta). Fits x.0.segments segs) here f))
        | inr there ↦ c.least sorted.1 r there f
      ];
    }

pub first_match-eq-none :
    (segs : List Text) (routes : Bucket) (r : ParsedPattern × RouteMeta)
    → first_match segs routes ≡ none
    → IsIn r routes
    → ¬ Fits r.0.segments segs
unfolding first_match
first_match-eq-none segs [] r e i f = absurd i
first_match-eq-none segs ((pat, meta) ∷ routes) r e i f = elim (Option-cases (matches pat segs)) [
  | inl missed ↦ elim i [
    | inl here ↦
        none_no_fit pat segs missed
          (subst (λ (x : ParsedPattern × RouteMeta). Fits x.0.segments segs) here f)
    | inr there ↦ first_match-eq-none segs routes r (rw (missed, first_match) at e) there f
  ]
  | inr (caps, hit) ↦ absurd (some_ne_none (rw (hit, first_match) at e))
]
  where
    some_ne_none : {a : MatchedRoute} → some a ≡ none → ⊥
    some_ne_none p = cc

module _ {Db Tera : Type 0} (b : Backend Db Tera) where
  -- The cached snapshot, if there is one, is that of the present database.
  abbrev pub IsFresh : Worker Db Tera → Type 0
  IsFresh w = (get_snapshot b w).0 ≡ build_snapshot b w.db

  abbrev pub rows_of : Worker Db Tera → List RouteRow
  rows_of w = rows_or_empty (b.route_rows w.db)

  lookup_route-first_match :
      (method path : Text) (w : Worker Db Tera)
      → IsFresh w
      → (lookup_route b method path w).0
        ≡ first_match (request_segments path) (bucket method (build_routes (b.route_rows w.db)))
  unfolding lookup_route build_snapshot
  lookup_route-first_match method path w fresh = rw fresh

  -- With a fresh snapshot, the route that `lookup_route` returns is a row of the table for that
  -- method whose pattern parses and fits the path, with that row's handler and template and the
  -- captures of the match; and it is at least as specific as any other row that would serve the
  -- path: more static segments, then fewer captures, then longer.
  pub lookup_route_best :
      (method path : Text) (w : Worker Db Tera) {found : MatchedRoute}
      → IsFresh w
      → (lookup_route b method path w).0 ≡ some found
      → (r : ParsedPattern × RouteMeta) × Serves method (request_segments path) (rows_of w) r
        × (matches r.0 (request_segments path) ≡ some found.path_params)
        × (found.handler_name ≡ r.1.handler_name)
        × (found.template_path ≡ r.1.template_path)
        × ((other : ParsedPattern × RouteMeta)
            → Serves method (request_segments path) (rows_of w) other
            → (other ≡ r) ⊎ (le_specific r other ≡ true))
  lookup_route_best method path w {found} fresh e =
      let segs = request_segments path in
      let rows = b.route_rows w.db in
      let first =
        first_match-IsFirst segs (bucket method (build_routes rows)) found
          (sym (lookup_route-first_match method path w fresh) ∙ e) in
      let (row, listed, m, parses, meta) = bucket-IsRow method rows first.route first.listed in
      (
        first.route,
        record {
          row = row;
          listed = listed;
          same_method = m;
          parses = parses;
          meta = meta;
          fits = matches_sound first.route.0 segs first.caps first.matches_it;
        },
        rw first.is_found first.matches_it,
        rw first.is_found,
        rw first.is_found,
        λ other s.
            first.least (bucket-IsSorted method rows) other (Serves-bucket method segs rows other s)
              s.fits,
      )

  -- With a fresh snapshot, `lookup_route` returns no route only if no row of the table for that
  -- method has a pattern that parses and fits the path.
  pub lookup_route-none :
      (method path : Text) (w : Worker Db Tera) (r : ParsedPattern × RouteMeta)
      → IsFresh w
      → (lookup_route b method path w).0 ≡ none
      → ¬ Serves method (request_segments path) (rows_of w) r
  lookup_route-none method path w r fresh e s =
      first_match-eq-none (request_segments path) (bucket method (build_routes (b.route_rows w.db)))
        r (sym (lookup_route-first_match method path w fresh) ∙ e)
        (Serves-bucket method (request_segments path) (b.route_rows w.db) r s) s.fits
