-- ===== src/Common/Result.antt =====
-- Rust's `Result<A, E>` with `?` as bind.
use mathlib.Core.Path.{◌≡◌, refl}
use mathlib.Core.Logic.{inl, inr, ◌⊎◌}
use pg_web.Common.Lists.{IsIn}
use mathlib.Core.List.{List, [], ◌∷◌}

pub data Result (E : Type 0) (A : Type 0) : Type 0 where
  ok : A → Result E A
  err : E → Result E A

module _ {E A B : Type 0} where
  infixl 5 ◌>>=◌
  abbrev pub ◌>>=◌ : Result E A → (A → Result E B) → Result E B
  ok a >>= f = f a
  err e >>= f = err e

  pub bind-eq-ok :
      (m : Result E A) (f : A → Result E B) {b : B}
      → (m >>= f) ≡ ok b
      → (a : A) × (m ≡ ok a) × (f a ≡ ok b)
  bind-eq-ok (ok a) f h = (a, refl, h)
  bind-eq-ok (err e) f h = cc

module _ {E E' A : Type 0} where
  -- `Result::map_err`
  abbrev pub map_err : (E → E') → Result E A → Result E' A
  map_err f (ok a) = ok a
  map_err f (err e) = err (f e)

module _ {E A B : Type 0} where
  -- `iter().map(f).collect::<Result<Vec<_>, _>>()`
  unfoldable pub collect : (A → Result E B) → List A → Result E (List B)
  collect f [] = ok []
  collect f (x ∷ xs) = do y ← f x; ys ← collect f xs; ok (y ∷ ys)

module _ {E A B : Type 0} (f : A → Result E B) where
  pub collect-cons :
      (x : A) (xs : List A) {ys : List B}
      → collect f (x ∷ xs) ≡ ok ys
      → (y : B) × (rest : List B) × (f x ≡ ok y) × (collect f xs ≡ ok rest) × (ys ≡ y ∷ rest)
  unfolding collect
  collect-cons x xs e =
      let (y, fx, e') = bind-eq-ok (f x) _ e in
      let (rest, later, e'') = bind-eq-ok (collect f xs) _ e' in (y, rest, fx, later, cc)

  cons_err :
      (r : Result E B) (s : Result E (List B)) {e : E}
      → (r >>= λ y. s >>= λ ys. ok (y ∷ ys)) ≡ err e
      → (r ≡ err e) ⊎ (s ≡ err e)
  cons_err (err c) s h = inl cc
  cons_err (ok y) (ok ys) h = cc
  cons_err (ok y) (err c) h = inr cc

  -- The error of a collection is that of one of its elements.
  pub collect-eq-err :
      (xs : List A) {e : E} → collect f xs ≡ err e → (x : A) × IsIn x xs × (f x ≡ err e)
  unfolding collect
  collect-eq-err [] h = cc
  collect-eq-err (x ∷ xs) h = elim (cons_err (f x) (collect f xs) h) [
    | inl here ↦ (x, inl refl, here)
    | inr later ↦ let (z, i, fz) = collect-eq-err xs later in (z, inr i, fz)
  ]
