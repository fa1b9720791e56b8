-- ===== src/Paths/Handlers.antt =====
-- The handler names that `build_handler_name` writes.
use pg_web.Common.{
  ℕ, ◌≡◌, ◌≤◌, ◌≢◌, refl, ◌==◌, true, false, List, [], ◌∷◌, ◌++◌, map, Text, codes, length, All,
  has, bytes, join, is_ascii_alphabetic, is_ascii_digit, arith, utf8, is_empty, has-append,
}
use pg_web.Pattern.{is_safe_ident}
use pg_web.Pattern.Ident.{is_word_byte, IsIdent, IsPlain, count_dots, is_safe_ident_iff}
use pg_web.Paths.{Segment, static, build_handler_name, build_route, handler_part, underscores}
use pg_web.Paths.Segments.{IsValid, IsRoutable, build_route_injective}

-- Word bytes only: letters, digits, `_` and `$`.
abbrev pub IsWord : Text → Type 0
IsWord s = All (λ c. is_word_byte c ≡ true) s

bytes-IsWord : (s : Text) → IsWord s → bytes s ≡ s
unfolding bytes utf8 is_word_byte is_ascii_digit
bytes-IsWord [] h = refl
bytes-IsWord (c ∷ s) h = ground (arith, bytes-IsWord s h.1)

IsWord-append : (s t : Text) → IsWord s → IsWord t → IsWord (s ++ t)
IsWord-append [] t h k = k
IsWord-append (c ∷ s) t h k = (h.0, IsWord-append s t h.1 k)

IsWord-join : (ws : List Text) → All IsWord ws → IsWord (join underscores ws)
unfolding join is_word_byte is_ascii_digit
IsWord-join [] h = tt
IsWord-join (w ∷ []) h = h.0
IsWord-join (w ∷ v ∷ ws) h = IsWord-append w _ h.0 (refl, (refl, IsWord-join (v ∷ ws) h.1))

-- A static directory name is made of word bytes; so is every capture name.
abbrev pub IsNameable : Segment → Type 0
IsNameable s = IsWord (handler_part s)

-- What stands behind the prefix of a handler name.
abbrev handler_rest : List Segment → Text → Text
handler_rest [] stem = stem
handler_rest (s ∷ ss) stem = join underscores (map handler_part (s ∷ ss)) ++ (underscores ++ stem)

build_handler_name-rest :
    (ss : List Segment) (stem : Text)
    → build_handler_name ss stem ≡ codes "pgweb.pages__" ++ handler_rest ss stem
unfolding build_handler_name
build_handler_name-rest [] stem = refl
build_handler_name-rest (s ∷ ss) stem = refl

handler_parts-IsWord : (ss : List Segment) → All IsNameable ss → All IsWord (map handler_part ss)
handler_parts-IsWord [] h = tt
handler_parts-IsWord (s ∷ ss) h = (h.0, handler_parts-IsWord ss h.1)

handler_rest-IsWord :
    (ss : List Segment) (stem : Text)
    → All IsNameable ss
    → IsWord stem
    → IsWord (handler_rest ss stem)
unfolding is_word_byte is_ascii_digit
handler_rest-IsWord [] stem h k = k
handler_rest-IsWord (s ∷ ss) stem h k =
    IsWord-append _ _ (IsWord-join (map handler_part (s ∷ ss)) (handler_parts-IsWord (s ∷ ss) h))
      (refl, (refl, k))

plain-IsWord : (s : Text) → IsWord s → IsPlain s
plain-IsWord [] h = tt
plain-IsWord (c ∷ s) h = (ground arith, plain-IsWord s h.1)

word_not_dot : (c : ℕ) → is_word_byte c ≡ true → (c == b'.') ≡ false
unfolding is_word_byte is_ascii_digit
word_not_dot c h = ground arith

count_dots-IsWord : (s : Text) → IsWord s → count_dots s ≡ 0
count_dots-IsWord [] h = refl
count_dots-IsWord (c ∷ s) h = rw (word_not_dot c h.0, count_dots-IsWord s h.1)

prefixed-IsIdent :
    (s : Text) → IsWord s → length s ≤ 115 → IsIdent (bytes (codes "pgweb.pages__" ++ s))
unfolding bytes utf8 is_word_byte is_ascii_digit is_ascii_alphabetic
prefixed-IsIdent s w l = rw (bytes-IsWord s w) (record {
  short = omega arith;
  starts = refl;
  plain = (
    refl,
    (
      refl,
      (
        refl,
        (
          refl,
          (refl, (refl, (refl, (refl, (refl, (refl, (refl, (refl, (refl, plain-IsWord s w))))))))),
        ),
      ),
    ),
  );
  one_dot = rw (count_dots-IsWord s w) (omega arith);
})

-- The router accepts what the CLI writes: for directories whose static names are made of letters,
-- digits, `_` and `$`, and a stem of such bytes, the handler name is a safe identifier if it has at
-- most 128 bytes.
pub build_handler_name-is_safe_ident :
    (ss : List Segment) (stem : Text)
    → All IsNameable ss
    → IsWord stem
    → length (build_handler_name ss stem) ≤ 128
    → is_safe_ident (build_handler_name ss stem) ≡ true
build_handler_name-is_safe_ident ss stem h k l =
    let e = build_handler_name-rest ss stem in
    let short : length (codes "pgweb.pages__" ++ handler_rest ss stem) ≤ 128 = rw e at l in
    rw e (
      (is_safe_ident_iff _).1
        (prefixed-IsIdent (handler_rest ss stem) (handler_rest-IsWord ss stem h k) (omega arith)))

has-joined :
    (c : ℕ) (a b : Text)
    → has c a ≡ false
    → has c b ≡ false
    → has c underscores ≡ false
    → has c (a ++ (underscores ++ b)) ≡ false
has-joined c a b ha hb hu =
    rw (has-append c a (underscores ++ b), ha, has-append c underscores b, hb, hu)

joined-ne_nil : (a b : Text) → is_empty a ≡ false → is_empty (a ++ b) ≡ false
joined-ne_nil [] b h = cc
joined-ne_nil (c ∷ a) b h = refl

-- For valid and routable directory names `a` and `b`, the directory `a__b` and the directory `b`
-- inside `a` have different routes and, for every stem, the same handler name.
pub build_handler_name_collides :
    (a b stem : Text)
    → All IsValid (static a ∷ static b ∷ [])
    → All IsRoutable (static a ∷ static b ∷ [])
    → (build_handler_name (static (a ++ (underscores ++ b)) ∷ []) stem
        ≡ build_handler_name (static a ∷ static b ∷ []) stem)
      × (build_route (static (a ++ (underscores ++ b)) ∷ [])
          ≢ build_route (static a ∷ static b ∷ []))
unfolding build_handler_name join
build_handler_name_collides a b stem v r =
    (refl, λ e. two_ne_one (build_route_injective _ _ joined_valid joined_routable v r e))
  where
    two_ne_one :
        ◌≡◌ {A = List Segment} (static (a ++ (underscores ++ b)) ∷ []) (static a ∷ static b ∷ [])
        → ⊥
    two_ne_one e = cc

    joined_valid : All IsValid (static (a ++ (underscores ++ b)) ∷ [])
    joined_valid =
        ((has-joined b'[' a b v.0.0 v.1.0.0 refl, has-joined b']' a b v.0.1 v.1.0.1 refl), tt)

    joined_routable : All IsRoutable (static (a ++ (underscores ++ b)) ∷ [])
    joined_routable = (
      (
        (joined-ne_nil a (underscores ++ b) r.0.0.0, has-joined b'/' a b r.0.0.1 r.1.0.0.1 refl),
        has-joined b':' a b r.0.1 r.1.0.1 refl,
      ),
      tt,
    )
