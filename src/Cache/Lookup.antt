-- ===== src/Cache/Lookup.antt =====
-- The routes of a snapshot, against the rows of the table.
use mathlib.Core.List.{append-nil, append_assoc}
use pg_web.Common.{
  ◌≡◌, refl, sym, ap, ◌∙◌, Bool-cases, inl, inr, Bool, true, false, List, [], ◌∷◌, ◌++◌,
  if◌then◌else◌, Text, same, same_iff, arith,
}
use pg_web.Common.Result.{Result, ok, err}
use pg_web.Common.Sort.{sort_by, IsSorted, sort_by-IsSorted}
use pg_web.Pattern.{ParsedPattern, PatternError, parse}
use pg_web.Backend.{RouteRow}
use pg_web.Cache.{
  RouteMeta, Bucket, bucket, push_route, or_default, meta_of, group_routes, le_specific,
  sort_buckets, rows_or_empty, build_routes,
}

-- The routes of the rows with the given method whose patterns parse, in the rows' order.
abbrev pub keep_row : Bool → Result PatternError ParsedPattern → RouteMeta → Bucket → Bucket
keep_row true (ok pat) meta rest = (pat, meta) ∷ rest
keep_row true (err e) meta rest = rest
keep_row false p meta rest = rest

abbrev pub parsed_of : Text → List RouteRow → Bucket
parsed_of method [] = []
parsed_of method (r ∷ rows) =
    keep_row (same (or_default r.method) method) (parse (or_default r.path_pattern)) (meta_of r)
      (parsed_of method rows)

push_route-bucket :
    (method m : Text) (r : ParsedPattern × RouteMeta) (routes : List (Text × Bucket))
    → bucket m (push_route method r routes)
      ≡ (if same method m then bucket m routes ++ r ∷ [] else bucket m routes)
unfolding bucket push_route
push_route-bucket method m r [] = refl
push_route-bucket method m r ((k, v) ∷ routes) =
    ground (
      arith,
      same_iff k method,
      same_iff k m,
      same_iff method m,
      push_route-bucket method m r routes,
    )

push_keep :
    (k m : Text) (pat : ParsedPattern) (meta : RouteMeta) (routes : List (Text × Bucket))
    (rest : Bucket)
    → bucket m (push_route k (pat, meta) routes) ++ rest
      ≡ bucket m routes ++ keep_row (same k m) (ok pat) meta rest
push_keep k m pat meta routes rest = elim (Bool-cases (same k m)) [
  | inl here ↦
      rw (push_route-bucket k m (pat, meta) routes, here)
        (append_assoc (bucket m routes) ((pat, meta) ∷ []) rest)
  | inr other ↦ rw (push_route-bucket k m (pat, meta) routes, other)
]

drop_keep :
    (b : Bool) (e : PatternError) (meta : RouteMeta) (rest : Bucket)
    → keep_row b (err e) meta rest ≡ rest
drop_keep true e meta rest = refl
drop_keep false e meta rest = refl

group_routes-bucket :
    (m : Text) (rows : List RouteRow) (routes : List (Text × Bucket))
    → bucket m (group_routes rows routes) ≡ bucket m routes ++ parsed_of m rows
unfolding group_routes
group_routes-bucket m [] routes = sym (append-nil (bucket m routes))
group_routes-bucket m (r ∷ rows) routes =
    go (parse (or_default r.path_pattern)) (group_routes-bucket m rows)
  where
    go :
        (p : Result PatternError ParsedPattern)
        → ((rs : List (Text × Bucket))
            → bucket m (group_routes rows rs) ≡ bucket m rs ++ parsed_of m rows)
        → bucket m (
            group_routes rows (elim p [
              | ok pat ↦ push_route (or_default r.method) (pat, meta_of r) routes
              | err e ↦ routes
            ]))
          ≡ bucket m routes
            ++ keep_row (same (or_default r.method) m) p (meta_of r) (parsed_of m rows)
    go (ok pat) ih =
        ih _ ∙ push_keep (or_default r.method) m pat (meta_of r) routes (parsed_of m rows)
    go (err e) ih =
        ih routes
        ∙ ap (◌++◌ (bucket m routes))
            (sym (drop_keep (same (or_default r.method) m) e (meta_of r) (parsed_of m rows)))

sort_buckets-bucket :
    (m : Text) (routes : List (Text × Bucket))
    → bucket m (sort_buckets routes) ≡ sort_by le_specific (bucket m routes)
unfolding bucket sort_buckets sort_by
sort_buckets-bucket m [] = refl
sort_buckets-bucket m ((k, v) ∷ routes) = ground (arith, sort_buckets-bucket m routes)

-- The snapshot's bucket of a method holds the routes of the rows with that method whose patterns
-- parse, sorted by specificity; a failed query leaves it empty.
pub build_routes-bucket :
    (m : Text) (rows : Result Text (List RouteRow))
    → bucket m (build_routes rows) ≡ sort_by le_specific (parsed_of m (rows_or_empty rows))
unfolding build_routes
build_routes-bucket m rows =
    sort_buckets-bucket m (group_routes (rows_or_empty rows) [])
    ∙ ap (sort_by le_specific)
        (group_routes-bucket m (rows_or_empty rows) [] ∙ unfold bucket in refl)

le_specific_total :
    (x y : ParsedPattern × RouteMeta) → le_specific x y ≡ false → le_specific y x ≡ true
unfolding le_specific
le_specific_total x y h = ground arith

le_specific_trans :
    (x y z : ParsedPattern × RouteMeta)
    → le_specific x y ≡ true
    → le_specific y z ≡ true
    → le_specific x z ≡ true
unfolding le_specific
le_specific_trans x y z h k = ground arith

pub bucket-IsSorted :
    (m : Text) (rows : Result Text (List RouteRow))
    → IsSorted le_specific (bucket m (build_routes rows))
bucket-IsSorted m rows = rw (build_routes-bucket m rows) (
    sort_by-IsSorted le_specific le_specific_total le_specific_trans
      (parsed_of m (rows_or_empty rows)))
