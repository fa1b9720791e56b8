-- ===== src/Http/Forms.antt =====
-- `parse_urlencoded`: what a handler reads from the form.
use pg_web.Common.{
  ℕ, ◌≡◌, refl, List, [], ◌∷◌, Option, none, some, if◌then◌else◌, Text, same, same_iff, arith, ap,
  ◌∙◌,
}
use pg_web.Common.BTreeMap.{compare_text-eq, compare_text_refl}
use pg_web.Json.{Value, Fields, end, field, str, get, set}
use pg_web.Http.{collect_pairs, HttpLibrary, parse_urlencoded}

get-set :
    (k j : Text) (v : Value) (fs : Fields)
    → get j (set k v fs) ≡ (if same k j then some v else get j fs)
unfolding get set
get-set k j v end = refl
get-set k j v (field i w fs) =
    ground (
      arith,
      compare_text-eq k i,
      same_iff k j,
      same_iff i j,
      compare_text_refl k,
      get-set k j v fs,
    )

-- The last value of a key among the pairs.
pub last_value : Text → Option Value → List (Text × Text) → Option Value
last_value k o [] = o
last_value k o ((j, v) ∷ ps) = last_value k (if same j k then some (str v) else o) ps

collect_pairs-get :
    (k : Text) (ps : List (Text × Text)) (fs : Fields)
    → get k (collect_pairs fs ps) ≡ last_value k (get k fs) ps
unfolding collect_pairs last_value
collect_pairs-get k [] fs = refl
collect_pairs-get k ((j, v) ∷ ps) fs =
    collect_pairs-get k ps (set j (str v) fs) ∙ ap (λ o. last_value k o ps) (get-set j k (str v) fs)

-- Of a form that is not empty and decodes, a handler reads for each key the last value that the
-- form gives it.
pub parse_urlencoded-get :
    (lib : HttpLibrary) (c : ℕ) (s k : Text) (ps : List (Text × Text))
    → lib.urlencoded (c ∷ s) ≡ some ps
    → get k (parse_urlencoded lib (c ∷ s)) ≡ last_value k none ps
unfolding parse_urlencoded get
parse_urlencoded-get lib c s k ps decoded = rw decoded (collect_pairs-get k ps end)
