-- ===== src/Common/Sort.antt =====
-- `slice::sort_by`, a stable sort: insertion from the right keeps equal elements in order.
use mathlib.Core.Path.{◌≡◌}
use mathlib.Core.Bool.{Bool, true, false}
use mathlib.Core.Logic.{◌⊎◌, inl, inr}
use mathlib.Core.List.{List, [], ◌∷◌}
use Prim.Native.Nat.{Ordering}
use native.Mathlib.Omega.{arith}
use pg_web.Common.Tests.{if◌then◌else◌, Bool-cases}
use pg_web.Common.Lists.{All, IsIn}

-- `Ordering::then`
abbrev pub then_compare : Ordering → Ordering → Ordering
then_compare Ordering.lt o = Ordering.lt
then_compare Ordering.eq o = o
then_compare Ordering.gt o = Ordering.gt

module _ {A : Type 0} (le : A → A → Bool) where
  unfoldable pub insert_sorted : A → List A → List A
  insert_sorted x [] = x ∷ []
  insert_sorted x (y ∷ ys) = if le x y then x ∷ y ∷ ys else y ∷ insert_sorted x ys

  unfoldable pub sort_by : List A → List A
  unfolding insert_sorted
  sort_by [] = []
  sort_by (x ∷ xs) = insert_sorted x (sort_by xs)

  abbrev pub IsSorted : List A → Type 0
  IsSorted [] = Unit
  IsSorted (x ∷ xs) = All (λ y. le x y ≡ true) xs × IsSorted xs

module _ {A : Type 0} (le : A → A → Bool) where
  pub insert_sorted-IsIn :
      (a x : A) (ys : List A) → IsIn a (insert_sorted le x ys) → (a ≡ x) ⊎ IsIn a ys
  unfolding insert_sorted
  insert_sorted-IsIn a x [] h = h
  insert_sorted-IsIn a x (y ∷ ys) h = ground (arith, insert_sorted-IsIn a x ys)

  pub IsIn-insert_sorted :
      (a x : A) (ys : List A) → (a ≡ x) ⊎ IsIn a ys → IsIn a (insert_sorted le x ys)
  unfolding insert_sorted
  IsIn-insert_sorted a x [] h = h
  IsIn-insert_sorted a x (y ∷ ys) h = ground (arith, IsIn-insert_sorted a x ys)

  pub sort_by-IsIn : (a : A) (xs : List A) → IsIn a (sort_by le xs) → IsIn a xs
  unfolding sort_by
  sort_by-IsIn a [] h = h
  sort_by-IsIn a (x ∷ xs) h =
      ground (arith, insert_sorted-IsIn a x (sort_by le xs) h, sort_by-IsIn a xs)

  pub IsIn-sort_by : (a : A) (xs : List A) → IsIn a xs → IsIn a (sort_by le xs)
  unfolding sort_by
  IsIn-sort_by a [] h = h
  IsIn-sort_by a (x ∷ xs) h =
      IsIn-insert_sorted a x (sort_by le xs) (ground (arith, IsIn-sort_by a xs))

  -- For an order that is total and transitive, the result is sorted.
  module _ (total : (x y : A) → le x y ≡ false → le y x ≡ true)
      (trans : (x y z : A) → le x y ≡ true → le y z ≡ true → le x z ≡ true) where
    All-trans :
        (x y : A) (ys : List A)
        → le x y ≡ true
        → All (λ z. le y z ≡ true) ys
        → All (λ z. le x z ≡ true) ys
    All-trans x y [] h k = tt
    All-trans x y (z ∷ zs) h k = (trans x y z h k.0, All-trans x y zs h k.1)

    All-insert_sorted :
        (w x : A) (ys : List A)
        → le w x ≡ true
        → All (λ z. le w z ≡ true) ys
        → All (λ z. le w z ≡ true) (insert_sorted le x ys)
    unfolding insert_sorted
    All-insert_sorted w x [] h k = (h, tt)
    All-insert_sorted w x (y ∷ ys) h k = ground (arith, All-insert_sorted w x ys h k.1)

    insert_sorted-IsSorted :
        (x : A) (ys : List A) → IsSorted le ys → IsSorted le (insert_sorted le x ys)
    unfolding insert_sorted
    insert_sorted-IsSorted x [] h = (tt, tt)
    insert_sorted-IsSorted x (y ∷ ys) h = elim (Bool-cases (le x y)) [
      | inl first ↦ rw first ((first, All-trans x y ys first h.0), h)
      | inr later ↦
          rw later (All-insert_sorted y x ys (total x y later) h.0, insert_sorted-IsSorted x ys h.1)
    ]

    pub sort_by-IsSorted : (xs : List A) → IsSorted le (sort_by le xs)
    unfolding sort_by
    sort_by-IsSorted [] = tt
    sort_by-IsSorted (x ∷ xs) = insert_sorted-IsSorted x (sort_by le xs) (sort_by-IsSorted xs)
