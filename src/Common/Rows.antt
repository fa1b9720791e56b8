-- ===== src/Common/Rows.antt =====
-- Many rows put into a table with a key, and the rows deleted that are not kept.
use mathlib.Core.Path.{◌≡◌, refl, ◌∙◌}
use mathlib.Core.Logic.{◌↔◌, ◌≢◌, inl, inr}
use mathlib.Core.Bool.{Bool, true, false, not, ◌&&◌}
use mathlib.Core.List.{List, [], ◌∷◌, ◌++◌, map}
use mathlib.Core.Option.{Option, none, some}
use native.Mathlib.Omega.{arith}
use pg_web.Common.Tests.{if◌then◌else◌}
use pg_web.Common.Lists.{any, IsIn}
use pg_web.Common.Table.{
  find, upsert, delete, IsKeyed, find-upsert, find-delete, upsert-IsKeyed, has_row,
}

abbrev pub or_else : {A : Type 0} → Option A → Option A → Option A
or_else (some a) b = some a
or_else none b = b

abbrev pub is_value : {A : Type 0} → Option A → Bool
is_value none = false
is_value (some a) = true

module _ {K V : Type 0} (eq : K → K → Bool) where
  unfoldable pub upsert_all : List (K × V) → List (K × V) → List (K × V)
  upsert_all [] t = t
  upsert_all ((k, v) ∷ rows) t = upsert_all rows (upsert eq k v t)

  -- The value of the last row with this key.
  unfoldable pub last_value : K → List (K × V) → Option V
  last_value k [] = none
  last_value k ((j, v) ∷ rows) = or_else (last_value k rows) (if eq j k then some v else none)

  -- Deletes the keys of the rows that are not kept.
  unfoldable pub delete_all : (K × V → Bool) → List (K × V) → List (K × V) → List (K × V)
  delete_all keep [] t = t
  delete_all keep (row ∷ rows) t =
      if keep row then delete_all keep rows t else delete_all keep rows (delete eq row.0 t)

  abbrev pub stale : (K × V → Bool) → K → List (K × V) → Bool
  stale keep k rows = any (λ row. eq row.0 k && not (keep row)) rows

  -- What is left of a value under a key.
  abbrev pub kept : (K × V → Bool) → K → Option V → Option V
  kept keep k none = none
  kept keep k (some v) = if keep (k, v) then some v else none

  pub upsert_all-append :
      (a b t : List (K × V)) → upsert_all (a ++ b) t ≡ upsert_all b (upsert_all a t)
  unfolding upsert_all
  upsert_all-append [] b t = refl
  upsert_all-append ((k, v) ∷ a) b t = upsert_all-append a b (upsert eq k v t)

  module _ (eq_iff : (j k : K) → (eq j k ≡ true) ↔ (j ≡ k)) where
    pub find-upsert_all :
        (k : K) (rows t : List (K × V))
        → find eq k (upsert_all rows t) ≡ or_else (last_value k rows) (find eq k t)
    unfolding upsert_all last_value
    find-upsert_all k [] t = refl
    find-upsert_all k ((j, v) ∷ rows) t =
        ground (arith, find-upsert_all k rows (upsert eq j v t), find-upsert eq eq_iff j k v t)

    pub upsert_all-IsKeyed : (rows t : List (K × V)) → IsKeyed eq t → IsKeyed eq (upsert_all rows t)
    unfolding upsert_all
    upsert_all-IsKeyed [] t h = h
    upsert_all-IsKeyed ((j, v) ∷ rows) t h =
        upsert_all-IsKeyed rows (upsert eq j v t) (upsert-IsKeyed eq eq_iff j v t h)

    find-delete_all :
        (keep : K × V → Bool) (k : K) (rows t : List (K × V))
        → find eq k (delete_all keep rows t) ≡ (if stale keep k rows then none else find eq k t)
    unfolding delete_all
    find-delete_all keep k [] t = refl
    find-delete_all keep k ((j, v) ∷ rows) t = ground (
      arith,
      find-delete_all keep k rows t,
      find-delete_all keep k rows (delete eq j t),
      find-delete eq eq_iff j k t,
    )

    stale-fresh :
        (keep : K × V → Bool) (k : K) (t : List (K × V))
        → has_row eq k t ≡ false
        → stale keep k t ≡ false
    stale-fresh keep k [] h = refl
    stale-fresh keep k ((j, v) ∷ t) h = ground (arith, stale-fresh keep k t)

    -- With unique keys, the stale keys of a table are those of its rows that are not kept.
    stale-find :
        (keep : K × V → Bool) (k : K) (t : List (K × V))
        → IsKeyed eq t
        → (if stale keep k t then none else find eq k t) ≡ kept keep k (find eq k t)
    unfolding find
    stale-find keep k [] h = refl
    stale-find keep k ((j, v) ∷ t) h =
        ground (arith, eq_iff j k, stale-find keep k t h.1, stale-fresh keep k t)

    pub find-delete_all_stale :
        (keep : K × V → Bool) (k : K) (t : List (K × V))
        → IsKeyed eq t
        → find eq k (delete_all keep t t) ≡ kept keep k (find eq k t)
    find-delete_all_stale keep k t h = find-delete_all keep k t t ∙ stale-find keep k t h

    -- The keys of the rows that are put in are those with a last value.
    pub any-last_value :
        {X : Type 0} (row : X → K × V) (k : K) (xs : List X)
        → any (λ j. eq k j) (map (λ x. (row x).0) xs) ≡ is_value (last_value k (map row xs))
    unfolding last_value
    any-last_value row k [] = refl
    any-last_value row k (x ∷ xs) =
        ground (arith, eq_iff k (row x).0, eq_iff (row x).0 k, any-last_value row k xs)

    -- A row that is put in gives its key a last value.
    pub last_value-IsIn :
        {X : Type 0} (row : X → K × V) (x : X) (xs : List X)
        → IsIn x xs
        → last_value (row x).0 (map row xs) ≢ none
    unfolding last_value
    last_value-IsIn row x [] i = absurd i
    last_value-IsIn row x (y ∷ xs) (inl here) = rw here (ground (arith, eq_iff (row y).0 (row y).0))
    last_value-IsIn row x (y ∷ xs) (inr there) = ground (arith, last_value-IsIn row x xs there)
