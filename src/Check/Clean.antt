-- ===== src/Check/Clean.antt =====
-- When the passes of crates/pg_web_cli/src/check.rs find nothing.
use pg_web.Common.{
  ◌≡◌, ◌↔◌, ◌⊎◌, inl, inr, refl, sym, ◌∙◌, ◌&&◌, not, Bool, true, false, List, [], ◌∷◌, ◌++◌,
  Option, none, some, Text, same, same_iff, all, is_empty, filter, map, split_once, All,
  Option-cases, Bool-cases, or_cases, and_parts, same_refl, arith,
}
use pg_web.Common.Table.{find, upsert, find-upsert}
use pg_web.Migrate.{contains_name}
use pg_web.Check.Splitter.{SqlStatement}
use pg_web.Check.Passes.{
  Finding, missing_locally, not_applied, order_loop, repeated, drift, first_error,
}

-- The parts of the names in front of the first underscore.
abbrev pub add_prefix : Option (Text × Text) → List Text → List Text
add_prefix none ps = ps
add_prefix (some (p, rest)) ps = p ∷ ps

unfoldable pub prefixes : List Text → List Text
prefixes [] = []
prefixes (name ∷ names) = add_prefix (split_once b'_' name) (prefixes names)

abbrev pub no_repeat : List Text → Bool
no_repeat [] = true
no_repeat (p ∷ ps) = not (contains_name p ps) && no_repeat ps

abbrev is_none : Option Text → Bool
is_none none = true
is_none (some t) = false

abbrev unseen : List (Text × Text) → List Text → Bool
unseen seen ps = all (λ p. is_none (find same p seen)) ps

unseen-upsert :
    (p name : Text) (seen : List (Text × Text)) (ps : List Text)
    → unseen (upsert same p name seen) ps ≡ (not (contains_name p ps) && unseen seen ps)
unseen-upsert p name seen [] = refl
unseen-upsert p name seen (q ∷ ps) =
    ground (arith, find-upsert same same_iff p q name seen, unseen-upsert p name seen ps)

repeated-is_empty :
    (name p : Text) (o : Option Text) (later : List Finding)
    → is_empty (repeated name p o later) ≡ (is_none o && is_empty later)
repeated-is_empty name p none later = refl
repeated-is_empty name p (some first) later = refl

order_loop-is_empty :
    (seen : List (Text × Text)) (names : List Text)
    → is_empty (order_loop seen names)
      ≡ (no_repeat (prefixes names) && unseen seen (prefixes names))
unfolding order_loop prefixes
order_loop-is_empty seen [] = refl
order_loop-is_empty seen (name ∷ names) = elim (Option-cases (split_once b'_' name)) [
  | inl e ↦ rw (e, order_loop, prefixes) (order_loop-is_empty seen names)
  | inr ((p, rest), e) ↦
      rw (e, order_loop, prefixes)
        (ground (
          arith,
          repeated-is_empty name p (find same p seen) (order_loop (upsert same p name seen) names),
          order_loop-is_empty (upsert same p name seen) names,
          unseen-upsert p name seen (prefixes names),
        ))
]

unseen-nil : (ps : List Text) → unseen [] ps ≡ true
unfolding find
unseen-nil [] = refl
unseen-nil (p ∷ ps) = unseen-nil ps

is_empty-eq : {A : Type 0} (xs : List A) → (is_empty xs ≡ true) ↔ (xs ≡ [])
is_empty-eq [] = ((λ e. refl), λ e. refl)
is_empty-eq (x ∷ xs) = ((λ e. cc), λ e. cc)

-- The order of the migrations is found clean exactly when no two names have the same part in front of
-- their first underscore.
pub order_loop-clean :
    (names : List Text) → (order_loop [] names ≡ []) ↔ (no_repeat (prefixes names) ≡ true)
order_loop-clean names =
    let whole = order_loop-is_empty [] names in
    let fresh = unseen-nil (prefixes names) in
    (
      (λ e. let empty = (is_empty-eq (order_loop [] names)).1 e in ground arith),
      λ h. (is_empty-eq (order_loop [] names)).0 (ground arith),
    )

abbrev Within : List Text → List Text → Type 0
Within local applied = (n : Text) → contains_name n applied ≡ true → contains_name n local ≡ true

strays-none :
    {B : Type 0} (f : Text → B) (local applied : List Text)
    → (is_empty (map f (filter (λ n. not (contains_name n local)) applied)) ≡ true)
      ↔ Within local applied
strays-none f local [] = ((λ e n h. cc), λ h. refl)
strays-none f local (a ∷ applied) = elim (Bool-cases (contains_name a local)) [
  | inl there ↦ rw there (
    (λ e n h. elim (or_cases (same n a) (contains_name n applied) h) [
      | inl is ↦ rw ((same_iff n a).0 is) there
      | inr later ↦ (strays-none f local applied).0 e n later
    ]),
    (λ w. (strays-none f local applied).1 (λ n h. w n (ground arith))),
  )
  | inr missing ↦ rw missing ((λ e. cc), (λ w. let there = w a (ground (arith, same_refl a)) in cc))
]

same_truth : (a b : Bool) → (a ≡ true → b ≡ true) → (b ≡ true → a ≡ true) → a ≡ b
same_truth true b f g = sym (f refl)
same_truth false true f g = g refl
same_truth false false f g = refl

append-is_empty : {B : Type 0} (xs ys : List B) → is_empty (xs ++ ys) ≡ (is_empty xs && is_empty ys)
append-is_empty [] ys = refl
append-is_empty (x ∷ xs) ys = refl

both_empty :
    {B : Type 0} (xs ys : List B)
    → is_empty xs ≡ true
    → is_empty ys ≡ true
    → is_empty (xs ++ ys) ≡ true
both_empty xs ys e f = ground (arith, append-is_empty xs ys)

-- The ledger is found clean exactly when the files and the ledger have the same names.
pub drift-clean :
    (local applied : List Text)
    → (drift local applied ≡ []) ↔ ((n : Text) → contains_name n local ≡ contains_name n applied)
unfolding drift
drift-clean local applied =
    let missing =
      strays-none {B = Finding} (λ n. record { path = n; message = missing_locally }) local
        applied in
    let unapplied =
      strays-none {B = Finding} (λ n. record { path = n; message = not_applied }) applied local in
    (
      (λ e n.
          let parts =
            and_parts _ _ (sym (append-is_empty _ _) ∙ (is_empty-eq (drift local applied)).1 e) in
          same_truth _ _ (unapplied.0 parts.1 n) (missing.0 parts.0 n)),
      λ h. (is_empty-eq (drift local applied)).0 (
          both_empty _ _ (missing.1 (λ n there. h n ∙ there))
            (unapplied.1 (λ n there. sym (h n) ∙ there))),
    )

-- The text passes exactly when every statement of it is trusted or parses.
pub first_error-none :
    (sql_error : Text → Option Text) (stmts : List SqlStatement)
    → (first_error sql_error stmts ≡ none)
      ↔ All (λ s. (s.is_trusted ≡ true) ⊎ (sql_error s.text ≡ none)) stmts
unfolding first_error
first_error-none sql_error [] = ((λ e. tt), λ e. refl)
first_error-none sql_error (s ∷ stmts) = ground (arith, first_error-none sql_error stmts)
