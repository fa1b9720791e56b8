-- ===== src/Routes/Rows.antt =====
-- The rows of the routes table that serve a request, against the bucket of a snapshot.
use pg_web.Common.{
  ◌≡◌, refl, ◌⊎◌, inl, inr, Bool, true, false, List, [], ◌∷◌, Text, same, same_iff, IsIn, arith,
}
use pg_web.Common.Result.{Result, ok, err}
use pg_web.Common.Sort.{sort_by-IsIn, IsIn-sort_by}
use pg_web.Pattern.{PatternError, ParsedPattern, parse}
use pg_web.Pattern.Matching.{Fits}
use pg_web.Backend.{RouteRow}
use pg_web.Cache.{
  RouteMeta, Bucket, bucket, le_specific, or_default, meta_of, rows_or_empty, build_routes,
}
use pg_web.Cache.Lookup.{keep_row, parsed_of, build_routes-bucket}

-- A row of the table that serves a request: its method, and a pattern that parses and fits.
pub record Serves (method : Text) (segs : List Text) (rows : List RouteRow)
    (r : ParsedPattern × RouteMeta) : Type 0 where
  pub row : RouteRow
  pub listed : IsIn row rows
  pub same_method : or_default row.method ≡ method
  pub parses : parse (or_default row.path_pattern) ≡ ok r.0
  pub meta : r.1 ≡ meta_of row
  pub fits : Fits r.0.segments segs

-- The rows with the method whose patterns parse are exactly what `parsed_of` lists.
abbrev pub IsRow : Text → List RouteRow → ParsedPattern × RouteMeta → Type 0
IsRow method rows r =
    (row : RouteRow) × IsIn row rows
    × (or_default row.method ≡ method)
    × (parse (or_default row.path_pattern) ≡ ok r.0)
    × (r.1 ≡ meta_of row)

keep_row-IsIn :
    (r : ParsedPattern × RouteMeta) (b : Bool) (p : Result PatternError ParsedPattern)
    (meta : RouteMeta) (rest : Bucket)
    → IsIn r (keep_row b p meta rest)
    → ((b ≡ true) × (p ≡ ok r.0) × (r.1 ≡ meta)) ⊎ IsIn r rest
keep_row-IsIn r true (ok pat) meta rest (inl here) = inl (refl, ground arith, ground arith)
keep_row-IsIn r true (ok pat) meta rest (inr there) = inr there
keep_row-IsIn r true (err e) meta rest i = inr i
keep_row-IsIn r false p meta rest i = inr i

parsed_of-IsRow :
    (method : Text) (rows : List RouteRow) (r : ParsedPattern × RouteMeta)
    → IsIn r (parsed_of method rows)
    → IsRow method rows r
parsed_of-IsRow method [] r i = absurd i
parsed_of-IsRow method (row ∷ rows) r i =
    elim (keep_row-IsIn r (same (or_default row.method) method)
      (parse (or_default row.path_pattern)) (meta_of row) (parsed_of method rows) i) [
        | inl (m, p, e) ↦ (row, inl refl, (same_iff _ _).0 m, p, e)
        | inr later ↦
            let (row', listed, m, p, e) = parsed_of-IsRow method rows r later in
            (row', inr listed, m, p, e)
      ]

IsRow-keep_row :
    (row : RouteRow) (method : Text) (r : ParsedPattern × RouteMeta) (rest : Bucket)
    → or_default row.method ≡ method
    → parse (or_default row.path_pattern) ≡ ok r.0
    → r.1 ≡ meta_of row
    → IsIn r (
        keep_row
          (same (or_default row.method) method)
          (parse (or_default row.path_pattern))
          (meta_of row)
          rest)
IsRow-keep_row row method r rest m p e = rw ((same_iff _ _).1 m, p) (inl (ground arith))

IsIn-keep_row :
    (r : ParsedPattern × RouteMeta) (b : Bool) (p : Result PatternError ParsedPattern)
    (meta : RouteMeta) (rest : Bucket)
    → IsIn r rest
    → IsIn r (keep_row b p meta rest)
IsIn-keep_row r true (ok pat) meta rest i = inr i
IsIn-keep_row r true (err e) meta rest i = i
IsIn-keep_row r false p meta rest i = i

IsIn-parsed_of :
    (method : Text) (rows : List RouteRow) (r : ParsedPattern × RouteMeta) (row : RouteRow)
    → IsIn row rows
    → or_default row.method ≡ method
    → parse (or_default row.path_pattern) ≡ ok r.0
    → r.1 ≡ meta_of row
    → IsIn r (parsed_of method rows)
IsIn-parsed_of method [] r row i m p e = absurd i
IsIn-parsed_of method (row' ∷ rows) r row (inl here) m p e =
    IsRow-keep_row row' method r _ (rw here at m) (rw here at p) (rw here at e)
IsIn-parsed_of method (row' ∷ rows) r row (inr there) m p e =
    IsIn-keep_row r _ _ _ _ (IsIn-parsed_of method rows r row there m p e)

-- The bucket of a method holds exactly the routes of such rows.
pub bucket-IsRow :
    (method : Text) (rows : Result Text (List RouteRow)) (r : ParsedPattern × RouteMeta)
    → IsIn r (bucket method (build_routes rows))
    → IsRow method (rows_or_empty rows) r
bucket-IsRow method rows r i = parsed_of-IsRow method (rows_or_empty rows) r (
    sort_by-IsIn le_specific r (parsed_of method (rows_or_empty rows))
      (rw (build_routes-bucket method rows) at i))

pub Serves-bucket :
    (method : Text) (segs : List Text) (rows : Result Text (List RouteRow))
    (r : ParsedPattern × RouteMeta)
    → Serves method segs (rows_or_empty rows) r
    → IsIn r (bucket method (build_routes rows))
Serves-bucket method segs rows r s = rw (build_routes-bucket method rows) (
    IsIn-sort_by le_specific r (parsed_of method (rows_or_empty rows))
      (IsIn-parsed_of method (rows_or_empty rows) r s.row s.listed s.same_method s.parses s.meta))
