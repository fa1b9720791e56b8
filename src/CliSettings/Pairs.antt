-- ===== src/CliSettings/Pairs.antt =====
-- How an argument `KEY=VALUE` is taken apart.
use pg_web.Common.{
  ℕ, ◌≡◌, ◌↔◌, refl, ◌==◌, true, false, [], ◌∷◌, ◌++◌, Option, none, some, Text, split_once,
  push_fst, has, arith, ap, Bool-cases, inl, inr, or_false, ==_refl, ==_iff,
}
use pg_web.Common.Result.{ok}
use pg_web.CliSettings.{ok_or, parse_pair}

push_fst-eq-some :
    (c : ℕ) (o : Option (Text × Text)) {k v : Text}
    → push_fst c o ≡ some (k, v)
    → (k' : Text) × (o ≡ some (k', v)) × (k ≡ c ∷ k')
push_fst-eq-some c none e = cc
push_fst-eq-some c (some (a, b)) e = (a, ground arith, ground arith)

pub split_once_sound :
    (sep : ℕ) (s k v : Text)
    → split_once sep s ≡ some (k, v)
    → (s ≡ k ++ sep ∷ v) × (has sep k ≡ false)
unfolding split_once
split_once_sound sep [] k v e = cc
split_once_sound sep (c ∷ s) k v e = elim (Bool-cases (c == sep)) [
  | inl here ↦ found here (rw here at e)
  | inr other ↦
      let (k', rest, k_is) = push_fst-eq-some c (split_once sep s) (rw other at e) in
      let (s_is, free) = split_once_sound sep s k' v rest in
      (rw k_is (ap (◌∷◌ c) s_is), rw k_is (rw other free))
]
  where
    found :
        (c == sep) ≡ true
        → ◌≡◌ {A = Option (Text × Text)} (some ([], s)) (some (k, v))
        → (c ∷ s ≡ k ++ sep ∷ v) × (has sep k ≡ false)
    found here e' = ground (arith, ==_iff c sep)

split_once-append :
    (sep : ℕ) (k v : Text) → has sep k ≡ false → split_once sep (k ++ sep ∷ v) ≡ some (k, v)
unfolding split_once
split_once-append sep [] v h = rw (==_refl sep) refl
split_once-append sep (c ∷ k) v h =
    let (other, later) = or_false (c == sep) (has sep k) h in
    rw other (rw (split_once-append sep k v later) refl)

-- An argument parses to a key and a value exactly when it is the key, an equals sign and the value,
-- and the key has no equals sign: the first one separates.
pub parse_pair_iff :
    (input k v : Text)
    → (parse_pair input ≡ ok (k, v)) ↔ ((input ≡ k ++ b'=' ∷ v) × (has b'=' k ≡ false))
unfolding parse_pair
parse_pair_iff input k v = (
  λ e. split_once_sound b'=' input k v (unwrap (split_once b'=' input) e),
  λ (is, free). rw is (rw (split_once-append b'=' k v free) refl),
)
  where
    unwrap : (o : Option (Text × Text)) → ok_or o ≡ ok (k, v) → o ≡ some (k, v)
    unwrap o e = ground arith
