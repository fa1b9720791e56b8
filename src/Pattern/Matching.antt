-- ===== src/Pattern/Matching.antt =====
-- What `ParsedPattern::matches` accepts, and which captures it returns.
use pg_web.Common.{
  ◌≡◌, refl, ap, ◌∙◌, ◌≢◌, ◌↔◌, inl, inr, Bool-cases, List, [], ◌∷◌, Option, none, some,
  if◌then◌else◌, Text, same, same_iff, same_refl, same_ne, length, arith, ==_iff, All,
}
use pg_web.Common.BTreeMap.{insert, lookup, lookup-insert}
use pg_web.Pattern.{PatSeg, static, capture, ParsedPattern, match_zip, matches}

-- A request has one segment for each of the pattern's, equal to it where that is static.
abbrev pub Fits : List PatSeg → List Text → Type 0
Fits [] [] = Unit
Fits (static s ∷ ps) (r ∷ rs) = (s ≡ r) × Fits ps rs
Fits (capture name ∷ ps) (r ∷ rs) = Fits ps rs
Fits _ _ = ⊥

-- The request segment under the last capture of a name.
abbrev pub or_else : Option Text → Option Text → Option Text
or_else none o = o
or_else (some a) o = some a

abbrev pub last_value : Text → List PatSeg → List Text → Option Text
last_value n (capture m ∷ ps) (r ∷ rs) =
    or_else (last_value n ps rs) (if same m n then some r else none)
last_value n (static s ∷ ps) (r ∷ rs) = last_value n ps rs
last_value n _ _ = none

match_zip_sound :
    (ps : List PatSeg) (rs : List Text) (m caps : List (Text × Text))
    → length ps ≡ length rs
    → match_zip ps rs m ≡ some caps
    → Fits ps rs
unfolding match_zip
match_zip_sound [] [] m caps l e = tt
match_zip_sound [] (r ∷ rs) m caps l e = absurd (omega arith)
match_zip_sound (p ∷ ps) [] m caps l e = absurd (omega arith)
match_zip_sound (static s ∷ ps) (r ∷ rs) m caps l e = elim (Bool-cases (same s r)) [
  | inl here ↦ ((same_iff s r).0 here, match_zip_sound ps rs m caps (omega arith) (ground arith))
  | inr other ↦ ground arith
]
match_zip_sound (capture name ∷ ps) (r ∷ rs) m caps l e =
    match_zip_sound ps rs (insert name r m) caps (omega arith) e

match_zip_complete :
    (ps : List PatSeg) (rs : List Text) (m : List (Text × Text))
    → Fits ps rs
    → (caps : List (Text × Text)) × (match_zip ps rs m ≡ some caps)
unfolding match_zip
match_zip_complete [] [] m h = (m, refl)
match_zip_complete (static s ∷ ps) (r ∷ rs) m h =
    rw ((same_iff s r).1 h.0) (match_zip_complete ps rs m h.1)
match_zip_complete (capture name ∷ ps) (r ∷ rs) m h = match_zip_complete ps rs (insert name r m) h
match_zip_complete [] (r ∷ rs) m h = absurd h
match_zip_complete (static s ∷ ps) [] m h = absurd h
match_zip_complete (capture s ∷ ps) [] m h = absurd h

pub length-Fits : (ps : List PatSeg) (rs : List Text) → Fits ps rs → length ps ≡ length rs
length-Fits [] [] h = refl
length-Fits (static s ∷ ps) (r ∷ rs) h = omega (arith, length-Fits ps rs h.1)
length-Fits (capture s ∷ ps) (r ∷ rs) h = omega (arith, length-Fits ps rs h)
length-Fits [] (r ∷ rs) h = absurd h
length-Fits (static s ∷ ps) [] h = absurd h
length-Fits (capture s ∷ ps) [] h = absurd h

pub matches-eq-some :
    (p : ParsedPattern) (reqs : List Text) (caps : List (Text × Text))
    → matches p reqs ≡ some caps
    → (length p.segments ≡ length reqs) × (match_zip p.segments reqs [] ≡ some caps)
unfolding matches
matches-eq-some p reqs caps e = ground arith

pub matches_sound :
    (p : ParsedPattern) (reqs : List Text) (caps : List (Text × Text))
    → matches p reqs ≡ some caps
    → Fits p.segments reqs
matches_sound p reqs caps e =
    let (l, z) = matches-eq-some p reqs caps e in match_zip_sound p.segments reqs [] caps l z

pub matches_complete :
    (p : ParsedPattern) (reqs : List Text)
    → Fits p.segments reqs
    → (caps : List (Text × Text)) × (matches p reqs ≡ some caps)
unfolding matches
matches_complete p reqs h =
    rw ((==_iff _ _).1 (length-Fits p.segments reqs h)) (match_zip_complete p.segments reqs [] h)

-- A parsed pattern matches a request exactly when the request has as many segments as the pattern
-- and agrees with it at every static segment; a capture takes any segment.
pub matches_iff :
    (p : ParsedPattern) (reqs : List Text)
    → ((caps : List (Text × Text)) × (matches p reqs ≡ some caps)) ↔ Fits p.segments reqs
matches_iff p reqs = (λ m. matches_sound p reqs m.0 m.1, matches_complete p reqs)

match_zip-lookup :
    (n : Text) (ps : List PatSeg) (rs : List Text) (m caps : List (Text × Text))
    → match_zip ps rs m ≡ some caps
    → lookup n caps ≡ or_else (last_value n ps rs) (lookup n m)
unfolding match_zip
match_zip-lookup n [] rs m caps e = ground arith
match_zip-lookup n (static s ∷ ps) [] m caps e = ground arith
match_zip-lookup n (capture s ∷ ps) [] m caps e = ground arith
match_zip-lookup n (static s ∷ ps) (r ∷ rs) m caps e =
    match_zip-lookup n ps rs m caps (ground arith)
match_zip-lookup n (capture name ∷ ps) (r ∷ rs) m caps e =
    ground (arith, match_zip-lookup n ps rs (insert name r m) caps e, lookup-insert name n r m)

-- The captures that a match returns hold, under each name, the request segment at the last capture
-- of that name in the pattern, and hold nothing under any other name.
pub lookup-matches :
    (p : ParsedPattern) (reqs : List Text) (n : Text) {caps : List (Text × Text)}
    → matches p reqs ≡ some caps
    → lookup n caps ≡ last_value n p.segments reqs
unfolding lookup
lookup-matches p reqs n {caps} e =
    ground (arith, match_zip-lookup n p.segments reqs [] caps (matches-eq-some p reqs caps e).1)

-- The segments of a URL for a pattern, from the values of its captures.
abbrev pub put : Option Text → Option (List Text) → Option (List Text)
put (some r) (some rs) = some (r ∷ rs)
put _ _ = none

abbrev pub fill : List PatSeg → (Text → Option Text) → Option (List Text)
fill [] f = some []
fill (static s ∷ ps) f = put (some s) (fill ps f)
fill (capture n ∷ ps) f = put (f n) (fill ps f)

abbrev pub IsUnused : Text → List PatSeg → Type 0
IsUnused n ps = All (λ p. p ≢ capture n) ps

abbrev pub HasDistinctNames : List PatSeg → Type 0
HasDistinctNames [] = Unit
HasDistinctNames (static s ∷ ps) = HasDistinctNames ps
HasDistinctNames (capture n ∷ ps) = IsUnused n ps × HasDistinctNames ps

last_value_unused :
    (n : Text) (ps : List PatSeg) (rs : List Text) → IsUnused n ps → last_value n ps rs ≡ none
last_value_unused n [] rs h = refl
last_value_unused n (static s ∷ ps) [] h = refl
last_value_unused n (capture m ∷ ps) [] h = refl
last_value_unused n (static s ∷ ps) (r ∷ rs) h = last_value_unused n ps rs h.1
last_value_unused n (capture m ∷ ps) (r ∷ rs) h =
    rw (last_value_unused n ps rs h.1, same_ne m n (λ e. h.0 (ap capture e)))

fill-last_value :
    (ps : List PatSeg) (rs : List Text) (f : Text → Option Text)
    → HasDistinctNames ps
    → Fits ps rs
    → ((n : Text) → ¬ IsUnused n ps → f n ≡ last_value n ps rs)
    → fill ps f ≡ some rs
fill-last_value [] [] f d h k = refl
fill-last_value (static s ∷ ps) (r ∷ rs) f d h k =
    rw (fill-last_value ps rs f d h.1 (λ n used. k n (λ unused. used unused.1)), h.0)
fill-last_value (capture m ∷ ps) (r ∷ rs) f d h k =
    let first : f m ≡ some r =
      k m (λ unused. unused.0 refl) ∙ rw (last_value_unused m ps rs d.0, same_refl m) in
    let later : fill ps f ≡ some rs =
      fill-last_value ps rs f d.1 h (λ n used. k n (λ unused. used unused.1) ∙ other n used) in
    rw (first, later)
  where
    drop_none : (o : Option Text) → or_else o none ≡ o
    drop_none none = refl
    drop_none (some a) = refl

    other :
        (n : Text)
        → ¬ IsUnused n ps
        → or_else (last_value n ps rs) (if same m n then some r else none) ≡ last_value n ps rs
    other n used = rw (same_ne m n (λ e. used (rw e at d.0))) (drop_none (last_value n ps rs))
fill-last_value [] (r ∷ rs) f d h k = absurd h
fill-last_value (static s ∷ ps) [] f d h k = absurd h
fill-last_value (capture s ∷ ps) [] f d h k = absurd h

-- Reverse routing: if the capture names of a pattern are distinct, putting the captured values of
-- a match back into the pattern gives the request segments that were matched.
pub fill-matches :
    (p : ParsedPattern) (reqs : List Text) {caps : List (Text × Text)}
    → HasDistinctNames p.segments
    → matches p reqs ≡ some caps
    → fill p.segments (λ n. lookup n caps) ≡ some reqs
fill-matches p reqs {caps} d e =
    fill-last_value p.segments reqs (λ n. lookup n caps) d (matches_sound p reqs caps e)
      (λ n used. lookup-matches p reqs n e)
