-- ===== src/Common/Split.antt =====
-- Laws of `split` and `join`: joining texts without separators and splitting gives them back.
use mathlib.Core.Path.{◌≡◌, refl, ap}
use mathlib.Core.Logic.{inl, inr}
use mathlib.Core.Bool.{false, ◌||◌, not}
use mathlib.Core.List.{List, [], ◌∷◌, ◌++◌}
use Prim.Native.Nat.{ℕ}
use native.Mathlib.Omega.{arith}
use pg_web.Common.Tests.{◌==◌, Bool-cases, or_false, ==_refl}
use pg_web.Common.Lists.{All, is_empty, filter}
use pg_web.Common.Strings.{Text, has, split, push_head, join}

pub has-append : (c : ℕ) (s t : Text) → has c (s ++ t) ≡ (has c s || has c t)
has-append c [] t = refl
has-append c (x ∷ s) t = ground (arith, has-append c s t)

pub split-append :
    (sep : ℕ) (w r : Text) → has sep w ≡ false → split sep (w ++ sep ∷ r) ≡ w ∷ split sep r
unfolding split
split-append sep [] r h = rw (==_refl sep)
split-append sep (c ∷ w) r h =
    let (other, later) = or_false (c == sep) (has sep w) h in rw (other, split-append sep w r later)

pub split-nil_sep : (sep : ℕ) (w : Text) → has sep w ≡ false → split sep w ≡ w ∷ []
unfolding split
split-nil_sep sep [] h = refl
split-nil_sep sep (c ∷ w) h =
    let (other, later) = or_false (c == sep) (has sep w) h in rw (other, split-nil_sep sep w later)

-- A text with no separator in it.
abbrev pub IsPiece : ℕ → Text → Type 0
IsPiece sep w = has sep w ≡ false

push_head-IsPiece :
    (sep c : ℕ) (ws : List Text)
    → (c == sep) ≡ false
    → All (IsPiece sep) ws
    → All (IsPiece sep) (push_head c ws)
push_head-IsPiece sep c [] h k = (rw h, tt)
push_head-IsPiece sep c (w ∷ ws) h k = (rw h k.0, k.1)

pub split-IsPiece : (sep : ℕ) (s : Text) → All (IsPiece sep) (split sep s)
unfolding split
split-IsPiece sep [] = (refl, tt)
split-IsPiece sep (c ∷ s) = elim (Bool-cases (c == sep)) [
  | inl here ↦ rw here (refl, split-IsPiece sep s)
  | inr other ↦ rw other (push_head-IsPiece sep c (split sep s) other (split-IsPiece sep s))
]

-- Non-empty, and with no separator in it.
abbrev pub IsSegment : ℕ → Text → Type 0
IsSegment sep w = (is_empty w ≡ false) × IsPiece sep w

pub filter-IsSegment :
    (sep : ℕ) (ws : List Text)
    → All (IsPiece sep) ws
    → All (IsSegment sep) (filter (λ w. not (is_empty w)) ws)
filter-IsSegment sep [] h = tt
filter-IsSegment sep ([] ∷ ws) h = filter-IsSegment sep ws h.1
filter-IsSegment sep ((c ∷ w) ∷ ws) h = ((refl, h.0), filter-IsSegment sep ws h.1)

pub filter-split-join :
    (sep : ℕ) (ws : List Text)
    → All (IsSegment sep) ws
    → filter (λ w. not (is_empty w)) (split sep (join (sep ∷ []) ws)) ≡ ws
unfolding join split
filter-split-join sep [] h = refl
filter-split-join sep ([] ∷ []) h = cc
filter-split-join sep ((c ∷ w) ∷ []) h = rw (split-nil_sep sep (c ∷ w) h.0.1)
filter-split-join sep ([] ∷ v ∷ ws) h = cc
filter-split-join sep ((c ∷ w) ∷ v ∷ ws) h =
    rw (split-append sep (c ∷ w) (join (sep ∷ []) (v ∷ ws)) h.0.1)
      (ap (◌∷◌ (c ∷ w)) (filter-split-join sep (v ∷ ws) h.1))
