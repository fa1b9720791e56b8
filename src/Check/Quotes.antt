-- ===== src/Check/Quotes.antt =====
-- Which semicolons end a statement for `split_sql_statements` of crates/pg_web_cli/src/check.rs, in a
-- text with quotes and without comments or dollars.
use mathlib.Core.List.{append_assoc}
use pg_web.Common.{
  ℕ, zero, suc, ◌≤◌, length, ◌≡◌, refl, ap, sym, ◌∙◌, ◌&&◌, Bool, true, false, List, [], ◌∷◌, ◌++◌,
  not, ◌||◌, if◌then◌else◌, Text, ◌==◌, All, Bool-cases, inl, inr, arith,
}
use pg_web.Check.Splitter.{
  Scan, Move, scan_start, peeks, step, step_plain, split_from, split_buffers,
}

-- Where a reader of SQL stands: outside quotes, in a text, or in a quoted name.
pub data Place : Type 0 where
  outside in_text in_name : Place

abbrev pub next_place : Place → ℕ → Place
next_place outside c = if c == b'\'' then in_text else if c == b'"' then in_name else outside
next_place in_text c = if c == b'\'' then outside else in_text
next_place in_name c = if c == b'"' then outside else in_name

abbrev pub cuts : Place → ℕ → Bool
cuts outside c = c == b';'
cuts in_text c = false
cuts in_name c = false

-- The text cut behind each semicolon outside quotes. A doubled quote leaves a text and enters it again.
unfoldable pub cut_from : Place → Text → Text → List Text
cut_from q current [] = current ∷ []
cut_from q current (c ∷ cs) =
    let buffer = current ++ c ∷ [] in
    let later = cut_from (next_place q c) (if cuts q c then [] else buffer) cs in
    if cuts q c then buffer ∷ later else later

abbrev pub is_plain : ℕ → Bool
is_plain c = not (c == b'-' || c == b'/' || c == b'$')

-- No character that starts a comment or a dollar tag.
abbrev pub IsPlain : Text → Type 0
IsPlain = All (λ c. is_plain c ≡ true)

abbrev scan_of : Place → Scan
scan_of outside = scan_start
scan_of in_text = record scan_start { in_single = true }
scan_of in_name = record scan_start { in_double = true }

step-plain :
    (q : Place) (c : ℕ) (cs : Text)
    → is_plain c ≡ true
    → step (scan_of q) c cs ≡ step_plain (scan_of q) c cs
unfolding step
step-plain q c cs plain =
    let no_dash : (c == b'-') ≡ false = ground arith in
    let no_slash : (c == b'/') ≡ false = ground arith in
    let no_dollar : (c == b'$') ≡ false = ground arith in go q no_dash no_slash no_dollar
  where
    go :
        (p : Place)
        → (c == b'-') ≡ false
        → (c == b'/') ≡ false
        → (c == b'$') ≡ false
        → step (scan_of p) c cs ≡ step_plain (scan_of p) c cs
    go outside a b d = rw (a, b, d) refl
    go in_text a b d = refl
    go in_name a b d = refl

-- A round that reads one character.
abbrev one_char : Place → ℕ → Text → Move
one_char q c cs = record {
  after = scan_of (next_place q c);
  pushed = c ∷ [];
  rest = cs;
  ends = cuts q c;
}

outside-one_char : (c : ℕ) (cs : Text) → step_plain (scan_of outside) c cs ≡ one_char outside c cs
outside-one_char c cs = elim (Bool-cases (c == b'\'')) [
  | inl hit ↦ let is : c ≡ b'\'' = ground arith in rw is refl
  | inr no_text ↦ elim (Bool-cases (c == b'"')) [
    | inl hit ↦ let is : c ≡ b'"' = ground arith in rw is refl
    | inr no_name ↦ elim (Bool-cases (c == b';')) [
      | inl hit ↦ let is : c ≡ b';' = ground arith in rw is refl
      | inr no_end ↦ rw (no_text, no_name, no_end) refl
    ]
  ]
]

in_name-one_char : (c : ℕ) (cs : Text) → step_plain (scan_of in_name) c cs ≡ one_char in_name c cs
in_name-one_char c cs = elim (Bool-cases (c == b'"')) [
  | inl hit ↦ let is : c ≡ b'"' = ground arith in rw is refl
  | inr no_name ↦ elim (Bool-cases (c == b'\'')) [
    | inl hit ↦ let is : c ≡ b'\'' = ground arith in rw is refl
    | inr no_text ↦ rw (no_text, no_name) refl
  ]
]

-- In a text, all but a doubled quote is read as one character.
in_text-one_char :
    (c : ℕ) (cs : Text)
    → ((c == b'\'') && peeks b'\'' cs) ≡ false
    → step_plain (scan_of in_text) c cs ≡ one_char in_text c cs
in_text-one_char c cs single = elim (Bool-cases (c == b'\'')) [
  | inl hit ↦
      let is : c ≡ b'\'' = ground arith in
      let no_more : peeks b'\'' cs ≡ false = ground arith in rw is (rw no_more refl)
  | inr no_text ↦ elim (Bool-cases (c == b'"')) [
    | inl hit ↦ let is : c ≡ b'"' = ground arith in rw is refl
    | inr no_name ↦ rw (no_text, no_name) refl
  ]
]

-- What the loop does behind a round.
abbrev continued : ℕ → Text → Move → List Text
continued fuel current m =
    let buffer = current ++ m.pushed in
    let later = split_from fuel m.after (if m.ends then [] else buffer) m.rest in
    if m.ends then buffer ∷ later else later

continued-one_char :
    (fuel : ℕ) (q : Place) (current : Text) (c : ℕ) (cs : Text)
    → is_plain c ≡ true
    → step_plain (scan_of q) c cs ≡ one_char q c cs
    → ((next : Text)
        → split_from fuel (scan_of (next_place q c)) next cs ≡ cut_from (next_place q c) next cs)
    → split_from (suc fuel) (scan_of q) current (c ∷ cs) ≡ cut_from q current (c ∷ cs)
unfolding split_from cut_from
continued-one_char fuel q current c cs plain is later =
    ap (continued fuel current) (step-plain q c cs plain ∙ is)
    ∙ rw (later (if cuts q c then [] else current ++ c ∷ [])) refl

split_from-cut :
    (fuel : ℕ) (q : Place) (current cs : Text)
    → length cs ≤ fuel
    → IsPlain cs
    → split_from fuel (scan_of q) current cs ≡ cut_from q current cs
unfolding split_from cut_from
split_from-cut fuel q current [] enough plain = refl
split_from-cut zero q current (c ∷ cs) enough plain = absurd (omega arith)
split_from-cut (suc fuel) outside current (c ∷ cs) enough plain =
    continued-one_char fuel outside current c cs plain.0 (outside-one_char c cs)
      (λ next. split_from-cut fuel _ next cs (omega arith) plain.1)
split_from-cut (suc fuel) in_name current (c ∷ cs) enough plain =
    continued-one_char fuel in_name current c cs plain.0 (in_name-one_char c cs)
      (λ next. split_from-cut fuel _ next cs (omega arith) plain.1)
split_from-cut (suc fuel) in_text current (c ∷ []) enough plain =
    continued-one_char fuel in_text current c [] plain.0 (in_text-one_char c [] (ground arith))
      (λ next. split_from-cut fuel (next_place in_text c) next [] (omega arith) plain.1)
split_from-cut (suc zero) in_text current (c ∷ d ∷ cs) enough plain = absurd (omega arith)
split_from-cut (suc (suc fuel)) in_text current (c ∷ d ∷ cs) enough plain =
    elim (Bool-cases ((c == b'\'') && (d == b'\''))) [
      | inl doubled ↦
          let c_is : c ≡ b'\'' = ground arith in
          let d_is : d ≡ b'\'' = ground arith in
          rw (c_is, d_is)
            (split_from-cut (suc fuel) in_text (current ++ b'\'' ∷ b'\'' ∷ []) cs (omega arith)
                plain.1.1
              ∙ ap (λ t. cut_from in_text t cs)
                  (sym (append_assoc current (b'\'' ∷ []) (b'\'' ∷ []))))
      | inr single ↦
          continued-one_char (suc fuel) in_text current c (d ∷ cs) plain.0
            (in_text-one_char c (d ∷ cs) single)
            (λ next.
              split_from-cut (suc fuel) (next_place in_text c) next (d ∷ cs) (omega arith) plain.1)
    ]

-- A text without dashes, slashes and dollars, so that no comment or dollar tag can start in it, is cut
-- exactly behind each semicolon that is outside single and double quotes, where a doubled single quote
-- in a text does not end it.
pub split_buffers-cut :
    (content : Text) → IsPlain content → split_buffers content ≡ cut_from outside [] content
unfolding split_buffers
split_buffers-cut content plain =
    split_from-cut (length content) outside [] content (omega arith) plain
