-- ===== src/Db.antt =====
-- crates/pg_web_cli/src/db.rs: `application_name` and `parse_application_name`. The host's name and
-- the number of the process are parameters.
pub mod Names
use pg_web.Common.{
  ℕ, zero, suc, ◌+◌, ◌-◌, ◌*◌, ◌/◌, ◌%◌, ltb, within, Bool, List, [], ◌∷◌, ◌++◌, Option, none, some,
  if◌then◌else◌, Text, codes, is_empty, strip_prefix, push_fst, ◌==◌,
}

-- The decimal digits of a number; each round divides by ten.
unfoldable pub digits_from : ℕ → ℕ → Text
digits_from zero n = []
digits_from (suc fuel) n =
    let rest = digits_from fuel (n / 10) in
    if ltb n 10 then (b'0' + n) ∷ [] else rest ++ (b'0' + n % 10) ∷ []

unfoldable pub print_u32 : ℕ → Text
unfolding digits_from
print_u32 n = digits_from (suc n) n

-- `str::parse::<u32>`: digits behind an optional plus, below 2 ^ 32.
abbrev pub u32_limit : ℕ
u32_limit = 4294967296

abbrev pub add_digit : ℕ → ℕ → Option ℕ
add_digit acc c =
    if within b'0' b'9' c
    then (if ltb (acc * 10 + (c - b'0')) u32_limit then some (acc * 10 + (c - b'0')) else none)
    else none

abbrev pub then_digit : Option ℕ → ℕ → Option ℕ
then_digit none c = none
then_digit (some acc) c = add_digit acc c

unfoldable pub parse_digits : Option ℕ → Text → Option ℕ
parse_digits acc [] = acc
parse_digits acc (c ∷ cs) = parse_digits (then_digit acc c) cs

abbrev pub without_plus : Text → Text
without_plus [] = []
without_plus (c ∷ cs) = if c == b'+' then cs else c ∷ cs

unfoldable pub parse_u32 : Text → Option ℕ
unfolding parse_digits
parse_u32 s = if is_empty (without_plus s) then none else parse_digits (some 0) (without_plus s)

-- `str::split_once(&str)`
unfoldable pub split_text : Text → Text → Option (Text × Text)
split_text pattern [] = none
split_text pattern (c ∷ cs) = elim (strip_prefix pattern (c ∷ cs)) [
  | some rest ↦ some ([], rest)
  | none ↦ push_fst c (split_text pattern cs)
]

-- `strip_suffix(')').unwrap_or(…)`
unfoldable pub strip_paren : Text → Text
strip_paren [] = []
strip_paren (c ∷ []) = if c == b')' then [] else c ∷ []
strip_paren (c ∷ d ∷ cs) = c ∷ strip_paren (d ∷ cs)

-- `application_name`
unfoldable pub application_name : Text → ℕ → Text → Text
unfolding print_u32
application_name host pid verb =
    codes "pg-web "
    ++ (verb
        ++ (codes " ("
            ++ (codes "pid=" ++ (print_u32 pid ++ (codes ", host=" ++ (host ++ codes ")"))))))

pub record ClientTag : Type 0 where
  pub verb : Text
  pub pid : ℕ
  pub host : Text

abbrev pub pid_and_host : Text → Option (Text × Text) → Text × Text
pid_and_host after_pid none = (after_pid, [])
pid_and_host after_pid (some (p, h)) = (p, h)

abbrev pub tag_of : Text → Text → Option ℕ → Option ClientTag
tag_of verb host none = none
tag_of verb host (some pid) = some (record { verb = verb; pid = pid; host = host })

abbrev pub parse_pid : Text → Option Text → Option ClientTag
parse_pid verb none = none
parse_pid verb (some after_pid) =
    let (pid_str, host) = pid_and_host after_pid (split_text (codes ", host=") after_pid) in
    tag_of verb host (parse_u32 pid_str)

abbrev pub parse_rest : Option (Text × Text) → Option ClientTag
parse_rest none = none
parse_rest (some (verb, rest)) = parse_pid verb (strip_prefix (codes "pid=") (strip_paren rest))

abbrev pub parse_named : Option Text → Option ClientTag
parse_named none = none
parse_named (some rest) = parse_rest (split_text (codes " (") rest)

-- `parse_application_name`
unfoldable pub parse_application_name : Text → Option ClientTag
unfolding split_text strip_paren parse_u32
parse_application_name s = parse_named (strip_prefix (codes "pg-web ") s)
