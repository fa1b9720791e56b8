-- ===== src/Common/BTreeMap.antt =====
-- `BTreeMap<String, V>` as an association list in the order of its keys.
use mathlib.Core.Path.{◌≡◌, refl}
use mathlib.Core.List.{List, [], ◌∷◌}
use mathlib.Core.Option.{Option, none, some}
use Prim.Native.Nat.{Ordering}
use native.Mathlib.Omega.{arith}
use pg_web.Common.Tests.{if◌then◌else◌}
use pg_web.Common.Strings.{Text, same, same_iff, compare_text}

pub compare_text-eq : (s t : Text) → compare_text s t ≡ Ordering.eq → s ≡ t
unfolding compare_text
compare_text-eq [] [] h = refl
compare_text-eq [] (y ∷ t) h = cc
compare_text-eq (x ∷ s) [] h = cc
compare_text-eq (x ∷ s) (y ∷ t) h = ground (arith, compare_text-eq s t)

pub compare_text_refl : (s : Text) → compare_text s s ≡ Ordering.eq
unfolding compare_text
compare_text_refl [] = refl
compare_text_refl (x ∷ s) = ground (arith, compare_text_refl s)

module _ {V : Type 0} where
  unfoldable pub lookup : Text → List (Text × V) → Option V
  lookup k [] = none
  lookup k ((j, v) ∷ m) = if same j k then some v else lookup k m

  -- `BTreeMap::insert`: the value of a key that is there already is replaced.
  unfoldable pub insert : Text → V → List (Text × V) → List (Text × V)
  insert k v [] = (k, v) ∷ []
  insert k v ((j, w) ∷ m) =
      let later = insert k v m in
      elim (compare_text k j) [
        | Ordering.lt ↦ (k, v) ∷ (j, w) ∷ m
        | Ordering.eq ↦ (k, v) ∷ m
        | Ordering.gt ↦ (j, w) ∷ later
      ]

  pub lookup-insert :
      (k j : Text) (v : V) (m : List (Text × V))
      → lookup j (insert k v m) ≡ (if same k j then some v else lookup j m)
  unfolding lookup insert
  lookup-insert k j v [] = refl
  lookup-insert k j v ((i, w) ∷ m) = ground (
    arith,
    compare_text-eq k i,
    same_iff k j,
    same_iff i j,
    compare_text_refl k,
    lookup-insert k j v m,
  )
