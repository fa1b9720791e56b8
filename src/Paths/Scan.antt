-- ===== src/Paths/Scan.antt =====
-- crates/pg_web_cli/src/paths.rs: `scan`. The walk over `pages/` is the list of the files that it
-- yields, each with the components of its directory under `pages/` and its file name.
pub mod Slots
pub mod Files
pub mod Entries
use pg_web.Common.{
  ℕ, ◌==◌, ◌||◌, ◌&&◌, not, Bool, true, false, List, [], ◌∷◌, ◌++◌, Option, none, some, map,
  if◌then◌else◌, Text, codes, same, is_empty, rsplit_once, compare_text, Ordering,
}
use pg_web.Common.Result.{Result, ok, err, ◌>>=◌, collect}
use pg_web.Common.Sort.{sort_by, then_compare}
use pg_web.Paths.{
  Segment, PathError, no_pages_dir, parse_segments, build_route, build_handler_name,
  build_template_path, validate_stem, method_for_stem,
}

pub record PageFile : Type 0 where
  pub parent_rel : List Text
  pub file_name : Text

-- `RouteEntry`; its file system paths are the files.
pub record RouteEntry : Type 0 where
  pub method : Text
  pub route : Text
  pub handler_name : Text
  pub template_path : Option Text
  pub html_path : Option PageFile
  pub sql_path : Option PageFile

abbrev is_some : Option PageFile → Bool
is_some none = false
is_some (some f) = true

-- `is_full`, `is_static` and `is_raw_text`
pub is_full : RouteEntry → Bool
is_full e = is_some e.html_path && is_some e.sql_path

pub is_static : RouteEntry → Bool
is_static e = is_some e.html_path && not (is_some e.sql_path)

pub is_raw_text : RouteEntry → Bool
is_raw_text e = not (is_some e.html_path) && is_some e.sql_path

-- An error of the scan, or one of its two panics: the `unreachable!` of `method_for_stem` and the
-- `expect` on a slot with neither file.
pub data ScanError : Type 0 where
  failed : PathError → ScanError
  panicked : ScanError

abbrev pub Key : Type 0
Key = List Text × Text

pub record Slot : Type 0 where
  pub html : Option PageFile
  pub sql : Option PageFile

-- `Path::extension` and `Path::file_stem`: the name is split at its last dot, unless that is its
-- first character.
abbrev pub stem_and_ext : Text → Option (Text × Text) → Text × Option Text
stem_and_ext name none = (name, none)
stem_and_ext name (some (stem, ext)) = if is_empty stem then (name, none) else (stem, some ext)

unfoldable pub split_name : Text → Text × Option Text
split_name name = stem_and_ext name (rsplit_once b'.' name)

-- The order of `(PathBuf, String)`.
unfoldable pub compare_dirs : List Text → List Text → Ordering
compare_dirs [] [] = Ordering.eq
compare_dirs [] (y ∷ ys) = Ordering.lt
compare_dirs (x ∷ xs) [] = Ordering.gt
compare_dirs (x ∷ xs) (y ∷ ys) =
    let rest = compare_dirs xs ys in
    elim (compare_text x y) [
      | Ordering.lt ↦ Ordering.lt
      | Ordering.eq ↦ rest
      | Ordering.gt ↦ Ordering.gt
    ]

abbrev pub compare_keys : Key → Key → Ordering
compare_keys (d, s) (e, t) = then_compare (compare_dirs d e) (compare_text s t)

-- `by_key.entry(key).or_default()`, then the assignment to a field of the slot.
unfoldable pub update_slot : Key → (Slot → Slot) → List (Key × Slot) → List (Key × Slot)
update_slot k f [] = (k, f (record { html = none; sql = none })) ∷ []
update_slot k f ((j, s) ∷ m) =
    let later = update_slot k f m in
    elim (compare_keys k j) [
      | Ordering.lt ↦ (k, f (record { html = none; sql = none })) ∷ (j, s) ∷ m
      | Ordering.eq ↦ (j, f s) ∷ m
      | Ordering.gt ↦ (j, s) ∷ later
    ]

abbrev pub set_html : PageFile → Slot → Slot
set_html f s = record s { html = some f }

abbrev pub set_sql : PageFile → Slot → Slot
set_sql f s = record s { sql = some f }

-- The first loop of `scan`: files with another extension are skipped.
abbrev pub set_for_ext : Option Text → Option (PageFile → Slot → Slot)
set_for_ext none = none
set_for_ext (some ext) =
    if same ext (codes "html")
    then some set_html
    else if same ext (codes "sql")
    then some set_sql
    else none

unfoldable pub add_file : PageFile → List (Key × Slot) → Result PathError (List (Key × Slot))
add_file f m =
    let (stem, ext) = split_name f.file_name in
    elim (set_for_ext ext) [
      | none ↦ ok m
      | some set ↦
          validate_stem stem f.parent_rel >>= λ _. ok (update_slot (f.parent_rel, stem) (set f) m)
    ]

unfoldable pub group_files :
    List PageFile → List (Key × Slot) → Result PathError (List (Key × Slot))
group_files [] m = ok m
group_files (f ∷ fs) m = elim (add_file f m) [ ok m' ↦ group_files fs m' | err e ↦ err e ]

-- The second loop of `scan`, on one slot.
abbrev pub entry_of :
    Key → Slot → Result PathError (List Segment) → Option Text → Result ScanError RouteEntry
entry_of k s (err e) method = err (failed e)
entry_of k s (ok segments) none = err panicked
entry_of k s (ok segments) (some method) = ok (record {
  method = method;
  route = build_route segments;
  handler_name = build_handler_name segments k.1;
  template_path = elim s.html [ none ↦ none | some f ↦ some (build_template_path k.0 k.1) ];
  html_path = s.html;
  sql_path = s.sql;
})

abbrev pub is_filled : Slot → Bool
is_filled s = is_some s.html || is_some s.sql

unfoldable pub make_entry : Key × Slot → Result ScanError RouteEntry
make_entry (k, s) =
    if is_filled s then entry_of k s (parse_segments k.0) (method_for_stem k.1) else err panicked

-- The order of the result, by method and route.
abbrev pub leb_entry : RouteEntry → RouteEntry → Bool
leb_entry a b =
    elim (then_compare (compare_text a.method b.method) (compare_text a.route b.route)) [
      | Ordering.gt ↦ false
      | _ ↦ true
    ]

abbrev pub finish_scan : Result PathError (List (Key × Slot)) → Result ScanError (List RouteEntry)
finish_scan (err e) = err (failed e)
finish_scan (ok m) = collect make_entry m >>= λ out. ok (sort_by leb_entry out)

-- `scan`; the flag is `pages_dir.is_dir()`
unfoldable pub scan : Bool → List PageFile → Result ScanError (List RouteEntry)
unfolding group_files add_file make_entry
scan is_dir files =
    if not is_dir then err (failed no_pages_dir) else finish_scan (group_files files [])
