-- ===== src/Json.antt =====
-- serde_json's `Value` and `Map` (a `BTreeMap`), with the accessors that the worker calls. A number
-- is one that `as_u64` reads, or the text of any other. Parsing and printing are parameters.
use pg_web.Common.{
  ℕ, Bool, true, false, List, [], ◌∷◌, Option, none, some, if◌then◌else◌, Text, same, compare_text,
  Ordering,
}

mutual
  pub data Value : Type 0 where
    null : Value
    bool : Bool → Value
    num_u64 : ℕ → Value
    num_other : Text → Value
    str : Text → Value
    arr : Items → Value
    obj : Fields → Value

  pub data Items : Type 0 where
    nil : Items
    cons : Value → Items → Items

  pub data Fields : Type 0 where
    end : Fields
    field : Text → Value → Fields → Fields

-- `Map::get`
unfoldable pub get : Text → Fields → Option Value
get k end = none
get k (field j v fs) = if same j k then some v else get k fs

-- `Map::insert`
unfoldable pub set : Text → Value → Fields → Fields
set k v end = field k v end
set k v (field j w fs) =
    let later = set k v fs in
    elim (compare_text k j) [
      | Ordering.lt ↦ field k v (field j w fs)
      | Ordering.eq ↦ field k v fs
      | Ordering.gt ↦ field j w later
    ]

abbrev pub as_str : Value → Option Text
as_str (str s) = some s
as_str _ = none

abbrev pub as_u64 : Value → Option ℕ
as_u64 (num_u64 n) = some n
as_u64 _ = none

abbrev pub as_object : Value → Option Fields
as_object (obj fs) = some fs
as_object _ = none

abbrev pub as_array : Value → Option Items
as_array (arr xs) = some xs
as_array _ = none

abbrev pub is_object : Value → Bool
is_object (obj fs) = true
is_object _ = false

abbrev pub is_null : Value → Bool
is_null null = true
is_null _ = false

abbrev pub members : Fields → List (Text × Value)
members end = []
members (field k v fs) = (k, v) ∷ members fs

abbrev pub elements : Items → List Value
elements nil = []
elements (cons v vs) = v ∷ elements vs

-- An object of texts, as the captures and the form fields are.
unfoldable pub of_texts : List (Text × Text) → Fields
unfolding set
of_texts [] = end
of_texts ((k, v) ∷ m) = set k (str v) (of_texts m)
