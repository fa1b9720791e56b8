-- ===== src/Livereload.antt =====
-- crates/pg_web_ext/src/livereload.rs: `inject_script_if_eligible`.
use pg_web.Common.{
  ℕ, ◌≡◌, refl, true, [], ◌∷◌, ◌++◌, Option, none, some, if◌then◌else◌, Text, codes, contains,
  starts_with, arith, ap, ◌⊎◌, Bool-cases, inl, inr,
}
use pg_web.Settings.{Env, development, production}

abbrev pub script_tag : Text
script_tag = codes "<script src=\"/_pgweb/livereload.js\" async data-pgweb-livereload></script>"

-- `str::rfind(str)`, as what stands before the last occurrence and what starts with it.
abbrev extend : ℕ → Text → Text → Option (Text × Text) → Option (Text × Text)
extend c p cs (some (a, b)) = some (c ∷ a, b)
extend c p cs none = if starts_with p (c ∷ cs) then some ([], c ∷ cs) else none

unfoldable pub rfind_split : Text → Text → Option (Text × Text)
rfind_split p [] = if starts_with p [] then some ([], []) else none
rfind_split p (c ∷ cs) = extend c p cs (rfind_split p cs)

abbrev spliced : Text → Option (Text × Text) → Text
spliced body none = body
spliced body (some (before, from)) = before ++ (script_tag ++ from)

abbrev marker : Text
marker = codes "data-pgweb-livereload"

abbrev inject_into : Text → Text
inject_into body =
    if contains marker body then body else spliced body (rfind_split (codes "</body>") body)

-- `inject_script_if_eligible`
unfoldable pub inject_script_if_eligible : Text → Env → Text
unfolding rfind_split
inject_script_if_eligible body production = body
inject_script_if_eligible body development = inject_into body

starts_with-append : (p t u : Text) → starts_with p t ≡ true → starts_with p (t ++ u) ≡ true
unfolding starts_with
starts_with-append [] t u h = refl
starts_with-append (x ∷ p) [] u h = cc
starts_with-append (x ∷ p) (y ∷ t) u h = ground (arith, starts_with-append p t u)

contains-append_left : (p t u : Text) → contains p t ≡ true → contains p (t ++ u) ≡ true
unfolding contains starts_with
contains-append_left [] [] [] h = refl
contains-append_left [] [] (x ∷ u) h = refl
contains-append_left (y ∷ p) [] u h = cc
contains-append_left p (x ∷ t) u h =
    ground (arith, starts_with-append p (x ∷ t) u, contains-append_left p t u)

contains-append_right : (p t u : Text) → contains p u ≡ true → contains p (t ++ u) ≡ true
unfolding contains
contains-append_right p [] u h = h
contains-append_right p (x ∷ t) u h = ground (arith, contains-append_right p t u h)

tag_marked : contains marker script_tag ≡ true
unfolding contains starts_with
tag_marked = refl

inject_marked :
    (body : Text) → (inject_into body ≡ body) ⊎ (contains marker (inject_into body) ≡ true)
inject_marked body = elim (Bool-cases (contains marker body)) [
  | inl there ↦ inl (rw there refl)
  | inr missing ↦ rw missing (go (rfind_split (codes "</body>") body))
]
  where
    go :
        (o : Option (Text × Text))
        → (spliced body o ≡ body) ⊎ (contains marker (spliced body o) ≡ true)
    go none = inl refl
    go (some (a, b)) = inr (
        contains-append_right marker a (script_tag ++ b)
          (contains-append_left marker script_tag b tag_marked))

-- Injecting the live-reload script a second time changes nothing.
pub inject_script-twice :
    (body : Text) (env : Env)
    → inject_script_if_eligible (inject_script_if_eligible body env) env
      ≡ inject_script_if_eligible body env
unfolding inject_script_if_eligible
inject_script-twice body production = refl
inject_script-twice body development = elim (inject_marked body) [
  | inl same_body ↦ ap inject_into same_body
  | inr marked ↦ rw marked refl
]

-- Where the last occurrence stands.
abbrev IsSplit : Text → Text → Option (Text × Text) → Type 0
IsSplit p t none = Unit
IsSplit p t (some (a, b)) = (a ++ b ≡ t) × (starts_with p b ≡ true)

extend-IsSplit :
    (c : ℕ) (p t : Text) (o : Option (Text × Text))
    → IsSplit p t o
    → IsSplit p (c ∷ t) (extend c p t o)
extend-IsSplit c p t (some (a, b)) (is, starts) = (ap (◌∷◌ c) is, starts)
extend-IsSplit c p t none h = elim (Bool-cases (starts_with p (c ∷ t))) [
  | inl here ↦ rw here (refl, here)
  | inr miss ↦ rw miss tt
]

rfind_split-IsSplit : (p t : Text) → IsSplit p t (rfind_split p t)
unfolding rfind_split
rfind_split-IsSplit p [] = elim (Bool-cases (starts_with p [])) [
  | inl here ↦ rw here (refl, here)
  | inr miss ↦ rw miss tt
]
rfind_split-IsSplit p (c ∷ t) = extend-IsSplit c p t (rfind_split p t) (rfind_split-IsSplit p t)

-- A body is sent as it is, or with the script in front of a closing body tag and nothing else
-- changed; in production it is sent as it is.
pub inject_script-parts :
    (body : Text) (env : Env)
    → (inject_script_if_eligible body env ≡ body)
      ⊎ ((env ≡ development)
          × (a : Text) × (b : Text) × (a ++ b ≡ body)
          × (starts_with (codes "</body>") b ≡ true)
          × (inject_script_if_eligible body env ≡ a ++ (script_tag ++ b)))
unfolding inject_script_if_eligible
inject_script-parts body production = inl refl
inject_script-parts body development = elim (Bool-cases (contains marker body)) [
  | inl marked ↦ inl (rw marked refl)
  | inr unmarked ↦
      rw unmarked
        (go (rfind_split (codes "</body>") body) (rfind_split-IsSplit (codes "</body>") body))
]
  where
    go :
        (o : Option (Text × Text))
        → IsSplit (codes "</body>") body o
        → (spliced body o ≡ body)
          ⊎ ((development ≡ development)
              × (a : Text) × (b : Text) × (a ++ b ≡ body)
              × (starts_with (codes "</body>") b ≡ true)
              × (spliced body o ≡ a ++ (script_tag ++ b)))
    go none h = inl refl
    go (some (a, b)) (is, starts) = inr (refl, a, b, is, starts, refl)
