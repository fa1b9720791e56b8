-- ===== src/Paths/Segments.antt =====
-- Directory names against segments, and the paths of segments that the router parses back.
use native.Mathlib.Omega.{arith}
use pg_web.Common.{
  ℕ, ◌≡◌, ◌≤◌, refl, sym, ap, ◌∙◌, ◌↔◌, inl, inr, ◌==◌, ==_iff, Bool-cases, Bool, true, false, not,
  ◌||◌, ◌&&◌, List, [], ◌∷◌, ◌++◌, map, Text, has, IsSegment, join, length, All, and_parts, bytes,
  is_ascii_alphabetic, is_ascii_alphanumeric,
}
use pg_web.Common.Result.{Result, ok, err, ◌>>=◌}
use pg_web.Pattern
use pg_web.Pattern.{PatSeg, ParsedPattern, request_segments}
use pg_web.Pattern.Parsing.{of_segments, print_segment, parse-print_path, IsWellFormed, print_path}
use pg_web.Paths.{
  Segment, static, capture, PathError, validate_rest, validate_capture_name, head_is, last_is,
  drop_last, inner, parse_segment, build_route, route_part,
}

abbrev pub is_name_char : ℕ → Bool
is_name_char c = is_ascii_alphanumeric c || c == b'_'

-- The syntax of a capture name.
abbrev pub HasNameChars : Text → Type 0
HasNameChars [] = ⊥
HasNameChars (c ∷ cs) =
    ((is_ascii_alphabetic c || c == b'_') ≡ true) × All (λ d. is_name_char d ≡ true) cs

abbrev pub IsCaptureName : Text → Type 0
IsCaptureName n = HasNameChars n × (length (bytes n) ≤ 63)

abbrev pub IsValid : Segment → Type 0
IsValid (static n) = (has b'[' n ≡ false) × (has b']' n ≡ false)
IsValid (capture n) = IsCaptureName n

-- The directory name of a segment.
abbrev pub print_raw : Segment → Text
print_raw (static n) = n
print_raw (capture n) = b'[' ∷ (n ++ b']' ∷ [])

validate_rest_iff : (cs : Text) → (validate_rest cs ≡ ok tt) ↔ All (λ d. is_name_char d ≡ true) cs
unfolding validate_rest
validate_rest_iff [] = (λ _. tt, λ _. refl)
validate_rest_iff (c ∷ cs) = ground (arith, validate_rest_iff cs)

validate_capture_name_iff : (n : Text) → (validate_capture_name n ≡ ok tt) ↔ IsCaptureName n
unfolding validate_capture_name
validate_capture_name_iff [] = ground arith
validate_capture_name_iff (c ∷ cs) = ground (arith, validate_rest_iff cs)

last_is-drop_last : (s : Text) → last_is b']' s ≡ true → s ≡ drop_last s ++ b']' ∷ []
last_is-drop_last [] h = cc
last_is-drop_last (x ∷ []) h = ground arith
last_is-drop_last (x ∷ y ∷ s) h = ap (◌∷◌ x) (last_is-drop_last (y ∷ s) h)

brackets-inner :
    (raw : Text)
    → (head_is b'[' raw && last_is b']' raw) ≡ true
    → raw ≡ b'[' ∷ (inner raw ++ b']' ∷ [])
brackets-inner [] h = cc
brackets-inner (x ∷ []) h = ground arith
brackets-inner (x ∷ y ∷ s) h =
    let (first, later) = and_parts (x == b'[') (last_is b']' (y ∷ s)) h in
    rw ((==_iff x b'[').0 first) (ap (◌∷◌ b'[') (last_is-drop_last (y ∷ s) later))

drop_last-append : (s : Text) → drop_last (s ++ b']' ∷ []) ≡ s
drop_last-append [] = refl
drop_last-append (x ∷ []) = refl
drop_last-append (x ∷ y ∷ s) = ap (◌∷◌ x) (drop_last-append (y ∷ s))

last_is-append : (s : Text) → last_is b']' (s ++ b']' ∷ []) ≡ true
last_is-append [] = refl
last_is-append (x ∷ []) = refl
last_is-append (x ∷ y ∷ s) = last_is-append (y ∷ s)

last_is-cons : (c : ℕ) (s : Text) → last_is b']' (c ∷ (s ++ b']' ∷ [])) ≡ true
last_is-cons c [] = refl
last_is-cons c (x ∷ s) = last_is-append (x ∷ s)

has-name_chars :
    (b : ℕ) (cs : Text)
    → (is_name_char b ≡ false)
    → All (λ d. is_name_char d ≡ true) cs
    → has b cs ≡ false
has-name_chars b [] k h = refl
has-name_chars b (c ∷ cs) k h = elim (Bool-cases (c == b)) [
  | inl same ↦ let e = (==_iff c b).0 same in absurd (absurd_of (ap is_name_char (sym e)) k h.0)
  | inr other ↦ rw other (has-name_chars b cs k h.1)
]
  where
    absurd_of : is_name_char b ≡ is_name_char c → is_name_char b ≡ false → is_name_char c ≡ true → ⊥
    absurd_of p q r = cc

name_chars : (n : Text) → HasNameChars n → All (λ d. is_name_char d ≡ true) n
unfolding is_ascii_alphanumeric
name_chars [] h = absurd h
name_chars (c ∷ cs) h = (ground arith, h.1)

-- A capture name has no bracket, colon or slash.
pub has-IsCaptureName :
    (b : ℕ) (n : Text) → is_name_char b ≡ false → HasNameChars n → has b n ≡ false
has-IsCaptureName b n k h = has-name_chars b n k (name_chars n h)

capture_ok :
    (m : Result PathError (Unit {0})) {c s : Segment}
    → (m >>= λ _. ok c) ≡ ok s
    → (m ≡ ok tt) × (c ≡ s)
capture_ok (ok tt) h = (refl, cc)
capture_ok (err x) h = cc

capture_sound :
    (raw : Text) {s : Segment}
    → (head_is b'[' raw && last_is b']' raw) ≡ true
    → (validate_capture_name (inner raw) >>= λ _. ok (capture (inner raw))) ≡ ok s
    → (raw ≡ print_raw s) × IsValid s
capture_sound raw h e =
    let (valid, c) = capture_ok (validate_capture_name (inner raw)) e in
    rw (← c) (brackets-inner raw h, (validate_capture_name_iff (inner raw)).0 valid)

parse_segment_sound :
    (raw : Text) (s : Segment) → parse_segment raw ≡ ok s → (raw ≡ print_raw s) × IsValid s
unfolding parse_segment
parse_segment_sound raw s e = elim (Bool-cases (not (has b'[' raw) && not (has b']' raw))) [
  | inl plain ↦ ground arith
  | inr bracket ↦ elim (Bool-cases (head_is b'[' raw && last_is b']' raw)) [
    | inl whole ↦ elim (Bool-cases (has b'[' (inner raw) || has b']' (inner raw))) [
      | inl nests ↦ absurd (err_ne_ok (rw (bracket, whole, nests) at e))
      | inr simple ↦ capture_sound raw whole (rw (bracket, whole, simple) at e)
    ]
    | inr broken ↦ absurd (err_ne_ok (rw (bracket, broken) at e))
  ]
]
  where
    err_ne_ok : {x : PathError} → ◌≡◌ {A = Result PathError Segment} (err x) (ok s) → ⊥
    err_ne_ok p = cc

parse_segment_complete : (s : Segment) → IsValid s → parse_segment (print_raw s) ≡ ok s
unfolding parse_segment is_ascii_alphanumeric
parse_segment_complete (static n) h = ground arith
parse_segment_complete (capture n) h = rw (
  last_is-cons b'[' n,
  drop_last-append n,
  has-IsCaptureName b'[' n refl h.0,
  has-IsCaptureName b']' n refl h.0,
  (validate_capture_name_iff n).1 h,
)

-- A directory name parses to a segment exactly when it is the segment's printed form and the
-- segment is valid: a static one has no bracket, and a capture is an identifier of at most 63
-- bytes, printed in brackets. Every other name is an error.
pub parse_segment_iff :
    (raw : Text) (s : Segment) → (parse_segment raw ≡ ok s) ↔ ((raw ≡ print_raw s) × IsValid s)
parse_segment_iff raw s =
    (parse_segment_sound raw s, λ (printed, valid). rw printed (parse_segment_complete s valid))

-- What the router reads for a segment.
abbrev pub to_pat : Segment → PatSeg
to_pat (static n) = PatSeg.static n
to_pat (capture n) = PatSeg.capture n

-- A static directory name that the router can read: a path component with no colon.
abbrev pub IsRoutable : Segment → Type 0
IsRoutable (static n) = IsSegment b'/' n × (has b':' n ≡ false)
IsRoutable (capture n) = Unit

to_pat-IsWellFormed :
    (ss : List Segment) → All IsValid ss → All IsRoutable ss → All IsWellFormed (map to_pat ss)
unfolding is_ascii_alphanumeric
to_pat-IsWellFormed [] h k = tt
to_pat-IsWellFormed (static n ∷ ss) h k = (k.0, to_pat-IsWellFormed ss h.1 k.1)
to_pat-IsWellFormed (capture [] ∷ ss) h k = absurd h.0.0
to_pat-IsWellFormed (capture (c ∷ n) ∷ ss) h k =
    ((refl, has-IsCaptureName b'/' (c ∷ n) refl h.0.0), to_pat-IsWellFormed ss h.1 k.1)

route_part-print : (ss : List Segment) → map route_part ss ≡ map print_segment (map to_pat ss)
route_part-print [] = refl
route_part-print (static n ∷ ss) = ap (◌∷◌ n) (route_part-print ss)
route_part-print (capture n ∷ ss) = ap (◌∷◌ (b':' ∷ n)) (route_part-print ss)

build_route-print_path :
    (ss : List Segment) → build_route ss ≡ print_path (map print_segment (map to_pat ss))
unfolding build_route join
build_route-print_path [] = refl
build_route-print_path (s ∷ ss) = ap (λ ws. b'/' ∷ join (b'/' ∷ []) ws) (route_part-print (s ∷ ss))

-- The CLI and the worker agree: the route that `build_route` writes for valid segments, whose
-- static names have no slash and no colon and are not empty, parses in the router to the same
-- segments, static as static and capture as capture, with their counts.
pub parse-build_route :
    (ss : List Segment)
    → All IsValid ss
    → All IsRoutable ss
    → Pattern.parse (build_route ss) ≡ ok (of_segments (map to_pat ss))
parse-build_route ss h k =
    rw (build_route-print_path ss) (parse-print_path (map to_pat ss) (to_pat-IsWellFormed ss h k))

to_pat_injective : (s t : List Segment) → map to_pat s ≡ map to_pat t → s ≡ t
to_pat_injective [] [] e = refl
to_pat_injective [] (b ∷ t) e = cc
to_pat_injective (a ∷ s) [] e = cc
to_pat_injective (static a ∷ s) (static b ∷ t) e = ground (arith, to_pat_injective s t)
to_pat_injective (static a ∷ s) (capture b ∷ t) e = ground arith
to_pat_injective (capture a ∷ s) (static b ∷ t) e = ground arith
to_pat_injective (capture a ∷ s) (capture b ∷ t) e = ground (arith, to_pat_injective s t)

-- Two lists of valid segments, whose static names have no slash and no colon and are not empty, are
-- the same if their routes are, so that different directories get different routes.
pub build_route_injective :
    (s t : List Segment)
    → All IsValid s
    → All IsRoutable s
    → All IsValid t
    → All IsRoutable t
    → build_route s ≡ build_route t
    → s ≡ t
build_route_injective s t hs ks ht kt e =
    to_pat_injective s t (
      segments_eq
        (sym (parse-build_route s hs ks) ∙ ap Pattern.parse e ∙ parse-build_route t ht kt))
  where
    segments_eq :
        ◌≡◌ {A = Result Pattern.PatternError ParsedPattern}
          (ok (of_segments (map to_pat s)))
          (ok (of_segments (map to_pat t)))
        → map to_pat s ≡ map to_pat t
    segments_eq p = cc
