-- ===== src/Pattern.antt =====
-- crates/pg_web_ext/src/router.rs: `PatSeg`, `ParsedPattern` with `parse` and `matches`,
-- `request_segments`, `quote_literal` and `is_safe_ident`. The message of a parse error is the
-- constructor that stands for it.
pub mod Matching
pub mod Parsing
pub mod Quoting
pub mod Ident
use pg_web.Common.{
  ℕ, ◌+◌, ◌==◌, ◌||◌, ◌&&◌, not, ltb, within, Bool, true, false, List, [], ◌∷◌, ◌++◌, Option, none,
  some, if◌then◌else◌, Text, same, has, split, length, is_empty, filter, bytes, is_ascii_digit,
}
use pg_web.Common.Result.{Result, ok, err}
use pg_web.Common.BTreeMap.{insert}

pub data PatSeg : Type 0 where
  static capture : Text → PatSeg

pub record ParsedPattern : Type 0 where
  pub segments : List PatSeg
  pub static_count : ℕ
  pub capture_count : ℕ
  pub length : ℕ

pub data PatternError : Type 0 where
  empty_capture : PatternError
  misplaced_colon : Text → PatternError

abbrev pub slash : ℕ
slash = b'/'

abbrev pub colon : ℕ
colon = b':'

-- `split('/').filter(|s| !s.is_empty())`, in `parse` and in `request_segments`.
unfoldable pub request_segments : Text → List Text
request_segments path = filter (λ s. not (is_empty s)) (split slash path)

-- The three branches of the loop body of `parse`, on one raw segment.
abbrev pub add_capture : Text → ParsedPattern → Result PatternError ParsedPattern
add_capture [] acc = err empty_capture
add_capture name acc = ok (record acc {
  segments = acc.segments ++ capture name ∷ [];
  capture_count = acc.capture_count + 1;
})

abbrev pub add_static : Text → ParsedPattern → Result PatternError ParsedPattern
add_static raw acc =
    if has colon raw
    then err (misplaced_colon raw)
    else ok (record acc {
      segments = acc.segments ++ static raw ∷ [];
      static_count = acc.static_count + 1;
    })

unfoldable pub parse_segment : Text → ParsedPattern → Result PatternError ParsedPattern
parse_segment [] acc = add_static [] acc
parse_segment (c ∷ name) acc =
    if c == colon then add_capture name acc else add_static (c ∷ name) acc

unfoldable pub parse_loop : List Text → ParsedPattern → Result PatternError ParsedPattern
parse_loop [] acc = ok acc
parse_loop (raw ∷ raws) acc = elim (parse_segment raw acc) [
  | ok next ↦ parse_loop raws next
  | err e ↦ err e
]

abbrev pub no_segments : ParsedPattern
no_segments = record { segments = []; static_count = 0; capture_count = 0; length = 0 }

abbrev pub set_length : Result PatternError ParsedPattern → Result PatternError ParsedPattern
set_length (ok p) = ok (record p { length = length p.segments })
set_length (err e) = err e

-- `ParsedPattern::parse`
unfoldable pub parse : Text → Result PatternError ParsedPattern
unfolding parse_loop parse_segment request_segments
parse pattern = set_length (parse_loop (request_segments pattern) no_segments)

-- The `zip` loop of `matches`.
unfoldable pub match_zip :
    List PatSeg → List Text → List (Text × Text) → Option (List (Text × Text))
match_zip [] reqs caps = some caps
match_zip (p ∷ ps) [] caps = some caps
match_zip (static s ∷ ps) (r ∷ reqs) caps = if same s r then match_zip ps reqs caps else none
match_zip (capture name ∷ ps) (r ∷ reqs) caps = match_zip ps reqs (insert name r caps)

-- `ParsedPattern::matches`
unfoldable pub matches : ParsedPattern → List Text → Option (List (Text × Text))
unfolding match_zip
matches p reqs = if length p.segments == length reqs then match_zip p.segments reqs [] else none

-- `quote_literal`
abbrev pub quote : ℕ
quote = b'\''

unfoldable pub escape_quotes : Text → Text
escape_quotes [] = []
escape_quotes (c ∷ cs) =
    if c == quote then quote ∷ quote ∷ escape_quotes cs else c ∷ escape_quotes cs

unfoldable pub quote_literal : Text → Text
unfolding escape_quotes
quote_literal s = quote ∷ (escape_quotes s ++ quote ∷ [])

-- The byte loop of `is_safe_ident`; the flag is `i > 0`, and `dots` counts the dots so far.
unfoldable pub ident_byte_ok : Bool → ℕ → ℕ → Bool
unfolding is_ascii_digit
ident_byte_ok later dots c =
    within b'a' b'z' c
    || within b'A' b'Z' c
    || c == b'_'
    || (later && (is_ascii_digit c || c == b'$'))
    || (c == b'.' && dots == 0 && later)

unfoldable pub ident_loop : Bool → ℕ → List ℕ → Bool
ident_loop later dots [] = true
ident_loop later dots (c ∷ cs) =
    ident_byte_ok later dots c && ident_loop true (if c == b'.' then dots + 1 else dots) cs

unfoldable pub is_safe_ident : Text → Bool
unfolding ident_loop ident_byte_ok
is_safe_ident ident =
    if is_empty ident || ltb 128 (length (bytes ident))
    then false
    else ident_loop false 0 (bytes ident)
