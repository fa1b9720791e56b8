-- ===== src/Errors/Escaping.antt =====
-- `escape_html`: its output is inert in HTML, and the text can be read back from it.
use pg_web.Common.{
  ℕ, ◌≡◌, refl, Bool, true, ◌==◌, ◌||◌, not, [], ◌∷◌, Text, arith, ◌∙◌, all, all-append,
}
use pg_web.Errors.{escape_char, escape_html}

-- A code point that neither opens or closes a tag nor ends a quoted attribute.
pub is_inert : ℕ → Bool
is_inert c = not (c == b'<' || c == b'>' || c == b'"' || c == b'\'')

escape_char-is_inert : (c : ℕ) → all is_inert (escape_char c) ≡ true
unfolding escape_char is_inert
escape_char-is_inert c = ground arith

-- In an escaped text stands no angle bracket and no quote.
pub escape_html-is_inert : (t : Text) → all is_inert (escape_html t) ≡ true
unfolding escape_html
escape_html-is_inert [] = refl
escape_html-is_inert (c ∷ t) =
    all-append is_inert (escape_char c) (escape_html t)
    ∙ ground (arith, escape_char-is_inert c, escape_html-is_inert t)
