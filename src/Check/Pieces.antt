-- ===== src/Check/Pieces.antt =====
-- What `split_sql_statements` of crates/pg_web_cli/src/check.rs hands on, as a whole.
use mathlib.Core.Path.{subst}
use mathlib.Core.List.{append_assoc}
use pg_web.Common.{
  ℕ, zero, suc, ◌≤◌, ◌≡◌, refl, sym, ap, ◌∙◌, inl, inr, length, List, [], ◌∷◌, ◌++◌, Text,
  Bool-cases, arith,
}
use pg_web.Check.Splitter.{Scan, step, scan_start, split_from, split_buffers}
use pg_web.Check.Buffers.{IsAscii, IsAscii-append, step-Keeps}

-- The buffers one behind the other.
unfoldable pub joined : List Text → Text
joined [] = []
joined (x ∷ xs) = x ++ joined xs

-- Every buffer but the last ends in a semicolon.
abbrev pub IsTerminated : List Text → Type 0
IsTerminated [] = Unit
IsTerminated (x ∷ []) = Unit
IsTerminated (x ∷ y ∷ ys) = ((t : Text) × (x ≡ t ++ b';' ∷ [])) × IsTerminated (y ∷ ys)

IsTerminated-cons :
    (t : Text) (xs : List Text) → IsTerminated xs → IsTerminated ((t ++ b';' ∷ []) ∷ xs)
IsTerminated-cons t [] h = tt
IsTerminated-cons t (y ∷ ys) h = ((t, refl), h)

split_from-pieces :
    (fuel : ℕ) (s : Scan) (current cs : Text)
    → length cs ≤ fuel
    → IsAscii cs
    → (joined (split_from fuel s current cs) ≡ current ++ cs)
      × IsTerminated (split_from fuel s current cs)
unfolding split_from joined
split_from-pieces fuel s current [] enough ascii = (refl, tt)
split_from-pieces zero s current (c ∷ cs) enough ascii = absurd (omega arith)
split_from-pieces (suc fuel) s current (c ∷ cs) enough ascii =
    let m = step s c cs in
    let k = step-Keeps s c cs ascii.1 in
    let rest_ascii : IsAscii m.rest =
      (IsAscii-append m.pushed m.rest (subst (λ t. IsAscii t) (sym k.same_text) ascii)).1 in
    let fits : length m.rest ≤ fuel = omega (arith, k.shorter) in
    let whole : (current ++ m.pushed) ++ m.rest ≡ current ++ c ∷ cs =
      append_assoc current m.pushed m.rest ∙ ap (λ t. current ++ t) k.same_text in
    elim (Bool-cases m.ends) [
      | inl ends ↦
          let (same_text, terminated) = split_from-pieces fuel m.after [] m.rest fits rest_ascii in
          rw ends (
            ap (λ t. (current ++ m.pushed) ++ t) same_text ∙ whole,
            rw (k.terminator ends) (IsTerminated-cons current _ terminated),
          )
      | inr goes_on ↦
          let (same_text, terminated) =
            split_from-pieces fuel m.after (current ++ m.pushed) m.rest fits rest_ascii in
          rw goes_on (same_text ∙ whole, terminated)
    ]

-- The buffers of an ASCII text, in their order, are the whole text: nothing is lost, doubled or
-- moved; and each but the last ends with a semicolon.
pub split_buffers-pieces :
    (content : Text)
    → IsAscii content
    → (joined (split_buffers content) ≡ content) × IsTerminated (split_buffers content)
unfolding split_buffers
split_buffers-pieces content ascii =
    split_from-pieces (length content) scan_start [] content (omega arith) ascii
