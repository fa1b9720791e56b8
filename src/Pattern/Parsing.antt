-- ===== src/Pattern/Parsing.antt =====
-- `ParsedPattern::parse` against the printed form of a list of segments.
use mathlib.Core.List.{append-nil, append_assoc}
use pg_web.Common.{
  ℕ, ◌+◌, ◌≡◌, refl, sym, ap, ◌∙◌, ◌↔◌, inl, inr, ◌==◌, Bool-cases, false, List, [], ◌∷◌, ◌++◌, map,
  Text, has, split, split-IsPiece, filter-IsSegment, filter-split-join, IsSegment, join, length,
  arith, All, or_false,
}
use pg_web.Common.Result.{Result, ok, err}
use pg_web.Pattern.{
  PatSeg, static, capture, ParsedPattern, PatternError, slash, colon, request_segments,
  parse_segment, parse_loop, no_segments, set_length, parse,
}

abbrev pub print_segment : PatSeg → Text
print_segment (static s) = s
print_segment (capture n) = colon ∷ n

-- A path of the given segments.
abbrev pub print_path : List Text → Text
print_path ws = slash ∷ join (slash ∷ []) ws

abbrev pub IsWellFormed : PatSeg → Type 0
IsWellFormed (static s) = IsSegment slash s × (has colon s ≡ false)
IsWellFormed (capture n) = IsSegment slash n

abbrev pub count_static : List PatSeg → ℕ
count_static [] = 0
count_static (static s ∷ ps) = 1 + count_static ps
count_static (capture n ∷ ps) = count_static ps

abbrev pub count_capture : List PatSeg → ℕ
count_capture [] = 0
count_capture (static s ∷ ps) = count_capture ps
count_capture (capture n ∷ ps) = 1 + count_capture ps

-- The pattern of a list of segments.
abbrev pub of_segments : List PatSeg → ParsedPattern
of_segments ps = record {
  segments = ps;
  static_count = count_static ps;
  capture_count = count_capture ps;
  length = length ps;
}

abbrev extend : ParsedPattern → List PatSeg → ParsedPattern
extend acc ps = record acc {
  segments = acc.segments ++ ps;
  static_count = acc.static_count + count_static ps;
  capture_count = acc.capture_count + count_capture ps;
}

pub request_segments-IsSegment : (s : Text) → All (IsSegment slash) (request_segments s)
unfolding request_segments
request_segments-IsSegment s = filter-IsSegment slash (split slash s) (split-IsPiece slash s)

-- Splitting the path of non-empty segments without slashes gives the segments.
pub request_segments-print_path :
    (ws : List Text) → All (IsSegment slash) ws → request_segments (print_path ws) ≡ ws
unfolding request_segments split
request_segments-print_path ws h = filter-split-join slash ws h

extend-extend :
    (acc : ParsedPattern) (p : PatSeg) (ps : List PatSeg)
    → extend (extend acc (p ∷ [])) ps ≡ extend acc (p ∷ ps)
extend-extend acc (static s) ps = rw (append_assoc acc.segments (static s ∷ []) ps) (ground arith)
extend-extend acc (capture s) ps = rw (append_assoc acc.segments (capture s ∷ []) ps) (ground arith)

parse_segment-print :
    (p : PatSeg) (acc : ParsedPattern)
    → IsWellFormed p
    → parse_segment (print_segment p) acc ≡ ok (extend acc (p ∷ []))
unfolding parse_segment
parse_segment-print (static []) acc h = cc
parse_segment-print (static (c ∷ s)) acc h = ground arith
parse_segment-print (capture []) acc h = cc
parse_segment-print (capture (c ∷ n)) acc h = ground arith

parse_segment_sound :
    (raw : Text) (acc q : ParsedPattern)
    → IsSegment slash raw
    → parse_segment raw acc ≡ ok q
    → (p : PatSeg) × (raw ≡ print_segment p) × IsWellFormed p × (q ≡ extend acc (p ∷ []))
unfolding parse_segment
parse_segment_sound [] acc q h e = cc
parse_segment_sound (c ∷ []) acc q h e = elim (Bool-cases (c == colon)) [
  | inl at_colon ↦ ground arith
  | inr other ↦ (static (c ∷ []), refl, (h, ground arith), ground arith)
]
parse_segment_sound (c ∷ d ∷ s) acc q h e = elim (Bool-cases (c == colon)) [
  | inl at_colon ↦ (capture (d ∷ s), ground arith, (refl, (or_false _ _ h.1).1), ground arith)
  | inr other ↦ (static (c ∷ d ∷ s), refl, (h, ground arith), ground arith)
]

parse_loop-print :
    (ps : List PatSeg) (acc : ParsedPattern)
    → All IsWellFormed ps
    → parse_loop (map print_segment ps) acc ≡ ok (extend acc ps)
unfolding parse_loop
parse_loop-print [] acc h = rw (append-nil acc.segments) (ground arith)
parse_loop-print (p ∷ ps) acc h =
    rw (parse_segment-print p acc h.0, parse_loop)
      (parse_loop-print ps (extend acc (p ∷ [])) h.1 ∙ ap ok (extend-extend acc p ps))

-- What `parse` has read: the segments, and that the request segments are their printed form.
abbrev Reads : List Text → ParsedPattern → ParsedPattern → Type 0
Reads raws acc q =
    (ps : List PatSeg) × (raws ≡ map print_segment ps) × All IsWellFormed ps × (q ≡ extend acc ps)

parse_segment-cases :
    (raw : Text) (acc : ParsedPattern) (k : ParsedPattern → Result PatternError ParsedPattern)
    {q : ParsedPattern}
    → (elim (parse_segment raw acc) [ ok next ↦ k next | err e ↦ err e ]) ≡ ok q
    → (next : ParsedPattern) × (parse_segment raw acc ≡ ok next) × (k next ≡ ok q)
parse_segment-cases raw acc k {q} = go (parse_segment raw acc) refl
  where
    go :
        (r : Result PatternError ParsedPattern)
        → parse_segment raw acc ≡ r
        → (elim r [ ok next ↦ k next | err e ↦ err e ]) ≡ ok q
        → (next : ParsedPattern) × (parse_segment raw acc ≡ ok next) × (k next ≡ ok q)
    go (ok next) s e = (next, s, e)
    go (err x) s e = cc

parse_loop_sound :
    (raws : List Text) (acc q : ParsedPattern)
    → All (IsSegment slash) raws
    → parse_loop raws acc ≡ ok q
    → Reads raws acc q
unfolding parse_loop
parse_loop_sound [] acc q h e = ([], refl, tt, rw (append-nil acc.segments) (ground arith))
parse_loop_sound (raw ∷ raws) acc q h e =
    let (next, s, e') = parse_segment-cases raw acc (parse_loop raws) e in
    let (p, printed, ok_p, next_is) = parse_segment_sound raw acc next h.0 s in
    let (ps, rest, ok_ps, q_is) = parse_loop_sound raws next q h.1 e' in
    (p ∷ ps, cc, (ok_p, ok_ps), q_is ∙ rw next_is (extend-extend acc p ps))

extend_start :
    (ps : List PatSeg) → record (extend no_segments ps) { length = length ps } ≡ of_segments ps
extend_start ps = ground arith

with_length : (ps : List PatSeg) → set_length (ok (extend no_segments ps)) ≡ ok (of_segments ps)
with_length ps = ground arith

-- Printing well-formed segments as a path and parsing it gives the segments back, with their
-- numbers of static and of capture segments and their length.
pub parse-print_path :
    (ps : List PatSeg)
    → All IsWellFormed ps
    → parse (print_path (map print_segment ps)) ≡ ok (of_segments ps)
unfolding parse
parse-print_path ps h =
    rw (request_segments-print_path (map print_segment ps) (print-IsSegment ps h))
      (rw (parse_loop-print ps no_segments h) (with_length ps))
  where
    print-IsSegment :
        (qs : List PatSeg) → All IsWellFormed qs → All (IsSegment slash) (map print_segment qs)
    print-IsSegment [] k = tt
    print-IsSegment (static s ∷ qs) k = (k.0.0, print-IsSegment qs k.1)
    print-IsSegment (capture n ∷ qs) k = ((refl, k.0.1), print-IsSegment qs k.1)

set_length-eq-ok :
    (r : Result PatternError ParsedPattern) {p : ParsedPattern}
    → set_length r ≡ ok p
    → (q : ParsedPattern) × (r ≡ ok q) × (p ≡ record q { length = length q.segments })
set_length-eq-ok (ok q) e = (q, refl, ground arith)
set_length-eq-ok (err x) e = cc

-- A pattern parses to `p` exactly when its non-empty pieces are the printed form of well-formed
-- segments (a non-empty name behind a colon, or a text with no colon) and `p` holds those segments,
-- their counts and their length. So every other pattern is an error.
pub parse_iff :
    (s : Text) (p : ParsedPattern)
    → (parse s ≡ ok p) ↔ (
        (ps : List PatSeg) × (request_segments s ≡ map print_segment ps)
        × All IsWellFormed ps
        × (p ≡ of_segments ps))
unfolding parse
parse_iff s p = (sound, complete)
  where
    sound :
        set_length (parse_loop (request_segments s) no_segments) ≡ ok p
        → (ps : List PatSeg) × (request_segments s ≡ map print_segment ps)
          × All IsWellFormed ps
          × (p ≡ of_segments ps)
    sound e =
        let (q, l, p_is) = set_length-eq-ok (parse_loop (request_segments s) no_segments) e in
        let (ps, printed, well, q_is) =
          parse_loop_sound (request_segments s) no_segments q (request_segments-IsSegment s) l in
        let counted = ap (λ (r : ParsedPattern). record r { length = length r.segments }) q_is in
        (ps, printed, well, p_is ∙ counted ∙ extend_start ps)

    complete :
        (ps : List PatSeg) × (request_segments s ≡ map print_segment ps)
          × All IsWellFormed ps
          × (p ≡ of_segments ps)
        → set_length (parse_loop (request_segments s) no_segments) ≡ ok p
    complete (ps, printed, well, p_is) =
        rw (printed, parse_loop-print ps no_segments well) (with_length ps ∙ ap ok (sym p_is))
