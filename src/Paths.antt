-- ===== src/Paths.antt =====
-- crates/pg_web_cli/src/paths.rs: from the files under `pages/` to the entries that `push` writes.
-- A directory is the list of its components, and names are UTF-8 texts; the walk over the file
-- system is a list of files. An error is the constructor that stands for its message.
pub mod Segments
pub mod Handlers
pub mod Scan
use pg_web.Common.{
  ℕ, ◌==◌, ◌||◌, ◌&&◌, not, ltb, Bool, true, false, List, [], ◌∷◌, ◌++◌, Option, none, some, map,
  if◌then◌else◌, Text, codes, same, has, join, length, is_empty, bytes, is_ascii_alphabetic,
  is_ascii_alphanumeric, last?,
}
use pg_web.Common.Result.{Result, ok, err, ◌>>=◌, collect}

pub data Segment : Type 0 where
  static capture : Text → Segment

pub data PathError : Type 0 where
  unbalanced_brackets nested_brackets empty_name name_too_long : PathError
  bad_first_char bad_char : ℕ → PathError
  subtree_not_found reserved_get auto_derived unknown_stem : PathError
  no_pages_dir : PathError

-- The loop of `validate_capture_name` over the characters behind the first.
unfoldable pub validate_rest : Text → Result PathError (Unit {0})
validate_rest [] = ok tt
validate_rest (c ∷ cs) =
    if not (is_ascii_alphanumeric c || c == b'_') then err (bad_char c) else validate_rest cs

abbrev pub validate_chars : Text → Result PathError (Unit {0})
validate_chars [] = err empty_name
validate_chars (first ∷ rest) =
    if not (is_ascii_alphabetic first || first == b'_')
    then err (bad_first_char first)
    else validate_rest rest

unfoldable pub validate_capture_name : Text → Result PathError (Unit {0})
unfolding validate_rest
validate_capture_name name =
    if is_empty name
    then err empty_name
    else if ltb 63 (length (bytes name))
    then err name_too_long
    else validate_chars name

-- `starts_with('[')`, `ends_with(']')` and `raw[1..raw.len() - 1]`
abbrev pub head_is : ℕ → Text → Bool
head_is c [] = false
head_is c (x ∷ xs) = x == c

abbrev pub last_is : ℕ → Text → Bool
last_is c [] = false
last_is c (x ∷ []) = x == c
last_is c (x ∷ y ∷ xs) = last_is c (y ∷ xs)

abbrev pub drop_last : Text → Text
drop_last [] = []
drop_last (x ∷ []) = []
drop_last (x ∷ y ∷ xs) = x ∷ drop_last (y ∷ xs)

abbrev pub inner : Text → Text
inner [] = []
inner (x ∷ xs) = drop_last xs

-- `parse_segment`
unfoldable pub parse_segment : Text → Result PathError Segment
parse_segment raw =
    if not (has b'[' raw) && not (has b']' raw)
    then ok (static raw)
    else if not (head_is b'[' raw && last_is b']' raw)
    then err unbalanced_brackets
    else if has b'[' (inner raw) || has b']' (inner raw)
    then err nested_brackets
    else validate_capture_name (inner raw) >>= λ _. ok (capture (inner raw))

-- `parse_segments`, on the components of the directory
unfoldable pub parse_segments : List Text → Result PathError (List Segment)
parse_segments raws = collect parse_segment raws

-- `build_route`
abbrev pub route_part : Segment → Text
route_part (static n) = n
route_part (capture n) = b':' ∷ n

unfoldable pub build_route : List Segment → Text
build_route [] = b'/' ∷ []
build_route (s ∷ segments) = b'/' ∷ join (b'/' ∷ []) (map route_part (s ∷ segments))

-- `build_handler_name`
abbrev pub handler_part : Segment → Text
handler_part (static n) = n
handler_part (capture n) = b'$' ∷ n

abbrev pub underscores : Text
underscores = codes "__"

unfoldable pub build_handler_name : List Segment → Text → Text
build_handler_name [] stem = codes "pgweb.pages__" ++ stem
build_handler_name (s ∷ segments) stem =
    codes "pgweb.pages__"
    ++ (join underscores (map handler_part (s ∷ segments)) ++ (underscores ++ stem))

-- `build_template_path`, on the raw components
unfoldable pub build_template_path : List Text → Text → Text
build_template_path [] stem = codes "pages/" ++ (stem ++ codes ".html")
build_template_path (s ∷ segments) stem =
    codes "pages/" ++ (join (b'/' ∷ []) (s ∷ segments) ++ (b'/' ∷ (stem ++ codes ".html")))

-- `validate_stem`
unfoldable pub validate_stem : Text → List Text → Result PathError (Unit {0})
validate_stem stem parent_rel =
    if same stem (codes "index")
      || same stem (codes "post")
      || same stem (codes "put")
      || same stem (codes "patch")
      || same stem (codes "delete")
    then ok tt
    else if same stem (codes "_404")
    then (if is_empty parent_rel then ok tt else err subtree_not_found)
    else if same stem (codes "get")
    then err reserved_get
    else if same stem (codes "head") || same stem (codes "options")
    then err auto_derived
    else err unknown_stem

-- `method_for_stem`; `none` is its `unreachable!`
unfoldable pub method_for_stem : Text → Option Text
method_for_stem stem =
    if same stem (codes "index")
    then some (codes "GET")
    else if same stem (codes "post")
    then some (codes "POST")
    else if same stem (codes "put")
    then some (codes "PUT")
    else if same stem (codes "patch")
    then some (codes "PATCH")
    else if same stem (codes "delete")
    then some (codes "DELETE")
    else if same stem (codes "_404")
    then some (codes "404")
    else none
