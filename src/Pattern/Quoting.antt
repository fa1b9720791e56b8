-- ===== src/Pattern/Quoting.antt =====
-- `quote_literal` against a reader of SQL string literals.
use pg_web.Common.{
  ℕ, ◌≡◌, refl, ap, ◌==◌, ==_iff, Bool-cases, inl, inr, false, [], ◌∷◌, ◌++◌, Option, none, some,
  Text, if◌then◌else◌, push_fst,
}
use mathlib.Core.List.{append_assoc}
use pg_web.Pattern.{quote, escape_quotes, quote_literal}

-- A standard SQL string literal, behind its opening quote: a doubled quote is one quote of the
-- value, and a single one ends it. The result is the value and the text behind the literal.
pub read_literal : Text → Option (Text × Text)
read_literal [] = none
read_literal (c ∷ []) = if c == quote then some ([], []) else none
read_literal (c ∷ d ∷ s) =
    let inside = push_fst quote (read_literal s) in
    let on = push_fst c (read_literal (d ∷ s)) in
    if c == quote then (if d == quote then inside else some ([], d ∷ s)) else on

-- No quote follows, so that the literal ends where it was closed.
abbrev pub NoQuote : Text → Type 0
NoQuote [] = Unit
NoQuote (c ∷ s) = (c == quote) ≡ false

read_close : (rest : Text) → NoQuote rest → read_literal (quote ∷ rest) ≡ some ([], rest)
unfolding read_literal
read_close [] h = refl
read_close (c ∷ rest) h = rw h

read_plain :
    (c : ℕ) (t : Text) {v rest : Text}
    → (c == quote) ≡ false
    → read_literal t ≡ some (v, rest)
    → read_literal (c ∷ t) ≡ some (c ∷ v, rest)
unfolding read_literal
read_plain c [] h e = cc
read_plain c (d ∷ t) h e = rw (h, e)

read_doubled :
    (t : Text) {v rest : Text}
    → read_literal t ≡ some (v, rest)
    → read_literal (quote ∷ quote ∷ t) ≡ some (quote ∷ v, rest)
unfolding read_literal
read_doubled t e = rw e

read_escaped :
    (s rest : Text)
    → NoQuote rest
    → read_literal (escape_quotes s ++ (quote ∷ rest)) ≡ some (s, rest)
unfolding escape_quotes
read_escaped [] rest h = read_close rest h
read_escaped (c ∷ s) rest h = elim (Bool-cases (c == quote)) [
  | inl quoted ↦ rw ((==_iff c quote).0 quoted) (read_doubled _ (read_escaped s rest h))
  | inr other ↦
      rw other (read_plain c (escape_quotes s ++ (quote ∷ rest)) other (read_escaped s rest h))
]

-- Where the text that `quote_literal` returns is followed by a text that does not start with a
-- quote, a reader of SQL literals finds the very value there and ends exactly behind it.
pub read-quote_literal :
    (s rest : Text)
    → NoQuote rest
    → (t : Text) × (quote_literal s ++ rest ≡ quote ∷ t) × (read_literal t ≡ some (s, rest))
unfolding quote_literal
read-quote_literal s rest h = (
  escape_quotes s ++ (quote ∷ rest),
  ap (◌∷◌ quote) (append_assoc (escape_quotes s) (quote ∷ []) rest),
  read_escaped s rest h,
)
