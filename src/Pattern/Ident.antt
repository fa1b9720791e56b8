-- ===== src/Pattern/Ident.antt =====
-- Which names `is_safe_ident` accepts.
use pg_web.Common.{
  ℕ, ◌+◌, ◌≡◌, ◌≤◌, refl, ◌↔◌, inl, inr, ◌==◌, ==_iff, Bool-cases, Bool, true, false, ◌||◌, ◌&&◌,
  List, [], ◌∷◌, ap, Text, length, is_empty, All, if◌then◌else◌, and_parts, bytes, ltb,
  is_ascii_alphabetic, is_ascii_digit, arith, within, utf8,
}
use pg_web.Pattern.{ident_byte_ok, ident_loop, is_safe_ident}

-- A letter, a digit, `_` or `$`.
unfoldable pub is_word_byte : ℕ → Bool
is_word_byte c =
    within b'a' b'z' c || within b'A' b'Z' c || c == b'_' || (is_ascii_digit c || c == b'$')

abbrev pub count_dots : List ℕ → ℕ
count_dots [] = 0
count_dots (c ∷ cs) = (if c == b'.' then 1 else 0) + count_dots cs

abbrev pub StartsWell : List ℕ → Type 0
StartsWell [] = ⊥
StartsWell (c ∷ cs) = (is_ascii_alphabetic c || c == b'_') ≡ true

-- Each byte is a word byte or a dot.
abbrev pub IsPlain : List ℕ → Type 0
IsPlain cs = All (λ c. (is_word_byte c || c == b'.') ≡ true) cs

-- At most 128 bytes, all of letters, digits, `_`, `$` and at most one dot, a letter or `_` first.
pub record IsIdent (bs : List ℕ) : Type 0 where
  pub short : length bs ≤ 128
  pub starts : StartsWell bs
  pub plain : IsPlain bs
  pub one_dot : count_dots bs ≤ 1

later_shape :
    (a b c d e f : Bool)
    → (a || b || c || (true && d) || (e && f && true)) ≡ ((a || b || c || d) || (e && f))
later_shape a b c d e f = ground arith

first_shape :
    (a b c d e f : Bool) → (a || b || c || (false && d) || (e && f && false)) ≡ ((a || b) || c)
first_shape a b c d e f = ground arith

later_byte : (dots c : ℕ) → ident_byte_ok true dots c ≡ (is_word_byte c || (c == b'.' && dots == 0))
unfolding ident_byte_ok is_word_byte
later_byte dots c =
    later_shape (within b'a' b'z' c) (within b'A' b'Z' c) (c == b'_')
      (is_ascii_digit c || c == b'$') (c == b'.') (dots == 0)

first_byte : (dots c : ℕ) → ident_byte_ok false dots c ≡ (is_ascii_alphabetic c || c == b'_')
unfolding ident_byte_ok is_ascii_alphabetic
first_byte dots c =
    first_shape (within b'a' b'z' c) (within b'A' b'Z' c) (c == b'_')
      (is_ascii_digit c || c == b'$') (c == b'.') (dots == 0)

is_word_byte-dot : is_word_byte b'.' ≡ false
unfolding is_word_byte is_ascii_digit
is_word_byte-dot = refl

abbrev Counted : ℕ → List ℕ → Type 0
Counted dots cs = IsPlain cs × (dots + count_dots cs ≤ 1)

ident_loop_sound :
    (dots : ℕ) (cs : List ℕ) → dots ≤ 1 → ident_loop true dots cs ≡ true → Counted dots cs
unfolding ident_loop
ident_loop_sound dots [] h e = (tt, omega arith)
ident_loop_sound dots (c ∷ cs) h e = elim (Bool-cases (c == b'.')) [
  | inl dot ↦ ground (
    arith,
    later_byte dots c,
    is_word_byte-dot,
    ap is_word_byte ((==_iff c b'.').0 dot),
    ident_loop_sound (dots + 1) cs,
  )
  | inr other ↦ ground (arith, later_byte dots c, ident_loop_sound dots cs h)
]

ident_loop_complete : (dots : ℕ) (cs : List ℕ) → Counted dots cs → ident_loop true dots cs ≡ true
unfolding ident_loop
ident_loop_complete dots [] h = refl
ident_loop_complete dots (c ∷ cs) h = elim (Bool-cases (c == b'.')) [
  | inl dot ↦ ground (arith, later_byte dots c, ident_loop_complete (dots + 1) cs)
  | inr other ↦ ground (arith, later_byte dots c, ident_loop_complete dots cs)
]

first_not_dot : (c : ℕ) → (is_ascii_alphabetic c || c == b'_') ≡ true → (c == b'.') ≡ false
unfolding is_ascii_alphabetic
first_not_dot c h = ground arith

first_is_word :
    (c : ℕ) → (is_ascii_alphabetic c || c == b'_') ≡ true → (is_word_byte c || c == b'.') ≡ true
unfolding is_ascii_alphabetic is_word_byte
first_is_word c h = ground arith

loop_sound :
    (bs : List ℕ)
    → is_empty bs ≡ false
    → length bs ≤ 128
    → ident_loop false 0 bs ≡ true
    → IsIdent bs
unfolding ident_loop
loop_sound [] n l e = cc
loop_sound (c ∷ cs) n l e =
    let (first, later) = and_parts (ident_byte_ok false 0 c) _ e in
    let starts : (is_ascii_alphabetic c || c == b'_') ≡ true = rw (first_byte 0 c) at first in
    let dot = first_not_dot c starts in
    let rest = ident_loop_sound 0 cs (omega arith) (rw dot at later) in
    record {
      short = l;
      starts = starts;
      plain = (first_is_word c starts, rest.0);
      one_dot = rw dot rest.1;
    }

loop_complete : (bs : List ℕ) → IsIdent bs → ident_loop false 0 bs ≡ true
unfolding ident_loop
loop_complete [] h = absurd h.starts
loop_complete (c ∷ cs) h =
    rw (first_byte 0 c, h.starts, first_not_dot c h.starts)
      (ident_loop_complete 0 cs (h.plain.1, rw (first_not_dot c h.starts) at h.one_dot))

bytes-ne_nil : (s : Text) → is_empty s ≡ is_empty (bytes s)
unfolding bytes utf8
bytes-ne_nil [] = refl
bytes-ne_nil (c ∷ s) = ground arith

guarded_sound :
    (a b l : Bool) → (if a || b then false else l) ≡ true → (a ≡ false) × (b ≡ false) × (l ≡ true)
guarded_sound a b l e = ground arith

guarded_complete :
    (a b l : Bool) → a ≡ false → b ≡ false → l ≡ true → (if a || b then false else l) ≡ true
guarded_complete a b l p q r = ground arith

-- `is_safe_ident` accepts exactly the identifiers of at most 128 bytes: a letter or underscore,
-- then letters, digits, underscores, dollars and at most one dot.
pub is_safe_ident_iff : (s : Text) → (is_safe_ident s ≡ true) ↔ IsIdent (bytes s)
unfolding is_safe_ident
is_safe_ident_iff s = (
  λ e.
      let (n, l, ok_loop) = guarded_sound (is_empty s) (ltb 128 (length (bytes s))) _ e in
      loop_sound (bytes s) (rw (bytes-ne_nil s) at n) (le_of_ltb (length (bytes s)) l) ok_loop,
  λ h.
      guarded_complete (is_empty s) (ltb 128 (length (bytes s))) _
        (rw (bytes-ne_nil s) (starts-ne_nil (bytes s) h.starts))
        (ltb_of_le (length (bytes s)) h.short) (loop_complete (bytes s) h),
)
  where
    le_of_ltb : (n : ℕ) → ltb 128 n ≡ false → n ≤ 128
    le_of_ltb n h = ground arith

    ltb_of_le : (n : ℕ) → n ≤ 128 → ltb 128 n ≡ false
    ltb_of_le n h = ground arith

    starts-ne_nil : (bs : List ℕ) → StartsWell bs → is_empty bs ≡ false
    starts-ne_nil [] h = absurd h
    starts-ne_nil (c ∷ cs) h = refl
