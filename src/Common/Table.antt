-- ===== src/Common/Table.antt =====
-- A table with a primary key as the list of its rows: `SELECT`, `INSERT … ON CONFLICT (key) DO
-- UPDATE`, and `DELETE … WHERE key = …`.
use mathlib.Core.Path.{◌≡◌, refl}
use mathlib.Core.Logic.{◌↔◌, inl, inr}
use mathlib.Core.Bool.{Bool, true, false, ◌||◌}
use mathlib.Core.List.{List, [], ◌∷◌}
use mathlib.Core.Option.{Option, none, some}
use native.Mathlib.Omega.{arith}
use pg_web.Common.Tests.{if◌then◌else◌}
use pg_web.Common.Lists.{any, IsIn}

module _ {K V : Type 0} (eq : K → K → Bool) where
  unfoldable pub find : K → List (K × V) → Option V
  find k [] = none
  find k ((j, v) ∷ t) = if eq j k then some v else find k t

  unfoldable pub upsert : K → V → List (K × V) → List (K × V)
  upsert k v [] = (k, v) ∷ []
  upsert k v ((j, w) ∷ t) = let rest = upsert k v t in if eq j k then (k, v) ∷ t else (j, w) ∷ rest

  unfoldable pub delete : K → List (K × V) → List (K × V)
  delete k [] = []
  delete k ((j, w) ∷ t) = let rest = delete k t in if eq j k then rest else (j, w) ∷ rest

  abbrev pub has_row : K → List (K × V) → Bool
  has_row k t = any (λ (j, v). eq j k) t

  -- No two rows have the same key.
  abbrev pub IsKeyed : List (K × V) → Type 0
  IsKeyed [] = Unit
  IsKeyed ((j, v) ∷ t) = (has_row j t ≡ false) × IsKeyed t

  module _ (eq_iff : (j k : K) → (eq j k ≡ true) ↔ (j ≡ k)) where
    pub find-upsert :
        (k j : K) (v : V) (t : List (K × V))
        → find j (upsert k v t) ≡ (if eq k j then some v else find j t)
    unfolding find upsert
    find-upsert k j v [] = refl
    find-upsert k j v ((i, w) ∷ t) =
        ground (arith, eq_iff k j, eq_iff i k, eq_iff i j, find-upsert k j v t)

    pub find-delete :
        (k j : K) (t : List (K × V)) → find j (delete k t) ≡ (if eq k j then none else find j t)
    unfolding find delete
    find-delete k j [] = ground arith
    find-delete k j ((i, w) ∷ t) =
        ground (arith, eq_iff k j, eq_iff i k, eq_iff i j, find-delete k j t)

    has_row-upsert :
        (k j : K) (v : V) (t : List (K × V)) → has_row j (upsert k v t) ≡ (eq k j || has_row j t)
    unfolding upsert
    has_row-upsert k j v [] = refl
    has_row-upsert k j v ((i, w) ∷ t) =
        ground (arith, eq_iff i k, eq_iff i j, eq_iff k j, has_row-upsert k j v t)

    pub upsert-IsKeyed : (k : K) (v : V) (t : List (K × V)) → IsKeyed t → IsKeyed (upsert k v t)
    unfolding upsert
    upsert-IsKeyed k v [] h = (refl, tt)
    upsert-IsKeyed k v ((i, w) ∷ t) (fresh, h) =
        ground (arith, eq_iff i k, has_row-upsert k i v t, eq_iff k i, upsert-IsKeyed k v t h)

    pub find-IsIn : (k : K) (v : V) (t : List (K × V)) → find k t ≡ some v → IsIn (k, v) t
    unfolding find
    find-IsIn k v [] e = cc
    find-IsIn k v ((i, w) ∷ t) e = ground (arith, eq_iff i k, find-IsIn k v t)

    has_row-find : (k : K) (t : List (K × V)) → has_row k t ≡ false → find k t ≡ none
    unfolding find
    has_row-find k [] h = refl
    has_row-find k ((i, w) ∷ t) h = ground (arith, has_row-find k t)

    IsIn-has_row : (k : K) (v : V) (t : List (K × V)) → IsIn (k, v) t → has_row k t ≡ true
    IsIn-has_row k v [] i = absurd i
    IsIn-has_row k v ((j, w) ∷ t) (inl here) = ground (arith, eq_iff j k)
    IsIn-has_row k v ((j, w) ∷ t) (inr there) = ground (arith, IsIn-has_row k v t there)

    has_row-delete :
        (k j : K) (t : List (K × V)) → has_row j t ≡ false → has_row j (delete k t) ≡ false
    unfolding delete
    has_row-delete k j [] h = refl
    has_row-delete k j ((i, w) ∷ t) h = ground (arith, has_row-delete k j t)

    pub delete-IsKeyed : (k : K) (t : List (K × V)) → IsKeyed t → IsKeyed (delete k t)
    unfolding delete
    delete-IsKeyed k [] h = tt
    delete-IsKeyed k ((i, w) ∷ t) (fresh, h) =
        ground (arith, has_row-delete k i t fresh, delete-IsKeyed k t h)

    pub IsIn-find :
        (k : K) (v : V) (t : List (K × V)) → IsKeyed t → IsIn (k, v) t → find k t ≡ some v
    unfolding find
    IsIn-find k v [] h i = absurd i
    IsIn-find k v ((j, w) ∷ t) h (inl here) = ground (arith, eq_iff j k)
    IsIn-find k v ((j, w) ∷ t) h (inr there) =
        ground (arith, eq_iff j k, IsIn-find k v t h.1 there, IsIn-has_row k v t there)
