-- ===== src/Db/Names.antt =====
-- The names of connections are read back.
use pg_web.Common.{
  ℕ, zero, suc, ◌+◌, ◌/◌, ◌%◌, ◌<◌, ◌≤◌, ◌≡◌, refl, sym, ap, ◌∙◌, inl, inr, false, [], ◌∷◌, ◌++◌,
  Option, none, some, Text, codes, has, is_empty, strip_prefix, push_fst, ltb, within, ◌==◌,
  ==_refl, Bool-cases, arith,
}
use mathlib.Core.List.{append_assoc}
use pg_web.Common.Split.{has-append}
use pg_web.Db.{
  digits_from, print_u32, u32_limit, then_digit, parse_digits, without_plus, parse_u32, split_text,
  strip_paren, application_name, parse_named, parse_rest, parse_pid, pid_and_host, tag_of,
  parse_application_name,
}

parse_digits-append :
    (acc : Option ℕ) (a b : Text) → parse_digits acc (a ++ b) ≡ parse_digits (parse_digits acc a) b
unfolding parse_digits
parse_digits-append acc [] b = refl
parse_digits-append acc (c ∷ a) b = parse_digits-append (then_digit acc c) a b

add_last : (n : ℕ) → n < u32_limit → then_digit (some (n / 10)) (b'0' + n % 10) ≡ some n
add_last n small = ground arith

ten_le : (n : ℕ) → ltb n 10 ≡ false → 10 ≤ n
ten_le n h = ground arith

digits-parse :
    (fuel n : ℕ) → n < fuel → n < u32_limit → parse_digits (some 0) (digits_from fuel n) ≡ some n
unfolding digits_from parse_digits
digits-parse zero n enough small = absurd (omega arith)
digits-parse (suc fuel) n enough small = elim (Bool-cases (ltb n 10)) [
  | inl one ↦ rw one (ground arith)
  | inr more ↦ rw more (
      parse_digits-append (some 0) (digits_from fuel (n / 10)) ((b'0' + n % 10) ∷ [])
      ∙ ap (λ o. then_digit o (b'0' + n % 10))
          (digits-parse fuel (n / 10) (omega (arith, ten_le n more)) (omega arith))
      ∙ add_last n small)
]

strip_prefix-append : (a b : Text) → strip_prefix a (a ++ b) ≡ some b
unfolding strip_prefix
strip_prefix-append [] b = refl
strip_prefix-append (c ∷ a) b = rw (==_refl c) (strip_prefix-append a b)

strip_prefix-other :
    (p c : ℕ) (ps t : Text) → (p == c) ≡ false → strip_prefix (p ∷ ps) (c ∷ t) ≡ none
unfolding strip_prefix
strip_prefix-other p c ps t h = rw h refl

split_text-append :
    (p : ℕ) (ps t rest : Text)
    → has p t ≡ false
    → split_text (p ∷ ps) (t ++ ((p ∷ ps) ++ rest)) ≡ some (t, rest)
unfolding split_text strip_prefix
split_text-append p ps [] rest h = rw (strip_prefix-append (p ∷ ps) rest, split_text) refl
split_text-append p ps (c ∷ t) rest h =
    let other : (p == c) ≡ false = ground arith in
    let later : has p t ≡ false = ground arith in
    rw (strip_prefix-other p c ps (t ++ ((p ∷ ps) ++ rest)) other, split_text)
      (ap (push_fst c) (split_text-append p ps t rest later))

strip_paren-append : (t : Text) → strip_paren (t ++ codes ")") ≡ t
unfolding strip_paren
strip_paren-append [] = refl
strip_paren-append (c ∷ []) = refl
strip_paren-append (c ∷ d ∷ t) = ap (λ x. c ∷ x) (strip_paren-append (d ∷ t))

strip_paren-tail :
    (a : Text) (c : ℕ) (t : Text) → has b')' (c ∷ t) ≡ false → strip_paren (a ++ c ∷ t) ≡ a ++ c ∷ t
unfolding strip_paren
strip_paren-tail [] c [] h = ground arith
strip_paren-tail [] c (d ∷ t) h = ap (λ x. c ∷ x) (strip_paren-tail [] d t (ground arith))
strip_paren-tail (x ∷ []) c t h = ap (λ y. x ∷ y) (strip_paren-tail [] c t h)
strip_paren-tail (x ∷ y ∷ a) c t h = ap (λ z. x ∷ z) (strip_paren-tail (y ∷ a) c t h)

last_not_empty : (t : Text) (c : ℕ) → is_empty (t ++ c ∷ []) ≡ false
last_not_empty [] c = refl
last_not_empty (d ∷ t) c = refl

digits_from-not_empty : (fuel n : ℕ) → is_empty (digits_from (suc fuel) n) ≡ false
unfolding digits_from
digits_from-not_empty fuel n = elim (Bool-cases (ltb n 10)) [
  | inl one ↦ rw one refl
  | inr more ↦ rw more (last_not_empty (digits_from fuel (n / 10)) (b'0' + n % 10))
]

digits_from-free : (c fuel n : ℕ) → within b'0' b'9' c ≡ false → has c (digits_from fuel n) ≡ false
unfolding digits_from
digits_from-free c zero n h = refl
digits_from-free c (suc fuel) n h = elim (Bool-cases (ltb n 10)) [
  | inl one ↦ rw one (ground arith)
  | inr more ↦ rw more (
      has-append c (digits_from fuel (n / 10)) ((b'0' + n % 10) ∷ [])
      ∙ ground (arith, digits_from-free c fuel (n / 10) h))
]

without_plus-free : (t : Text) → has b'+' t ≡ false → without_plus t ≡ t
without_plus-free [] h = refl
without_plus-free (c ∷ t) h = ground arith

parse-print_u32 : (n : ℕ) → n < u32_limit → parse_u32 (print_u32 n) ≡ some n
unfolding parse_u32 print_u32
parse-print_u32 n small =
    rw (without_plus-free (digits_from (suc n) n) (digits_from-free b'+' (suc n) n refl))
      (rw (digits_from-not_empty n n) (digits-parse (suc n) n (omega arith) small))

print_u32-free : (c n : ℕ) → within b'0' b'9' c ≡ false → has c (print_u32 n) ≡ false
unfolding print_u32
print_u32-free c n h = digits_from-free c (suc n) n h

abbrev inner : ℕ → Text → Text
inner pid host = codes "pid=" ++ (print_u32 pid ++ (codes ", host=" ++ host))

-- The name as far as `host=`, with what the server kept of the rest.
abbrev pub cut_name : Text → ℕ → Text → Text
cut_name verb pid tail = codes "pg-web " ++ (verb ++ (codes " (" ++ inner pid tail))

-- The rest of the parser, on a rest that is the inner part when its paren is taken off.
parse_tail :
    (verb host : Text) (pid : ℕ) (rest : Text)
    → pid < u32_limit
    → strip_paren rest ≡ inner pid host
    → parse_rest (some (verb, rest)) ≡ some (record { verb = verb; pid = pid; host = host })
parse_tail verb host pid rest small is =
    ap (λ x. parse_pid verb (strip_prefix (codes "pid=") x)) is
    ∙ (ap (parse_pid verb)
          (strip_prefix-append (codes "pid=") (print_u32 pid ++ (codes ", host=" ++ host)))
        ∙ (ap
              (λ (x : Option (Text × Text)).
                let (p, h) = pid_and_host (print_u32 pid ++ (codes ", host=" ++ host)) x in
                tag_of verb h (parse_u32 p))
              (split_text-append b',' (codes " host=") (print_u32 pid) host
                (print_u32-free b',' pid refl))
            ∙ ap (tag_of verb host) (parse-print_u32 pid small)))

parse_cut :
    (verb tail host : Text) (pid : ℕ)
    → has b' ' verb ≡ false
    → pid < u32_limit
    → strip_paren (inner pid tail) ≡ inner pid host
    → parse_application_name (cut_name verb pid tail)
      ≡ some (record { verb = verb; pid = pid; host = host })
unfolding parse_application_name
parse_cut verb tail host pid no_space small is =
    ap parse_named (strip_prefix-append (codes "pg-web ") (verb ++ (codes " (" ++ inner pid tail)))
    ∙ (ap parse_rest (split_text-append b' ' (codes "(") verb (inner pid tail) no_space)
        ∙ parse_tail verb host pid (inner pid tail) small is)

-- The name that a connection of the CLI gives itself is read back as its verb (without a space), its
-- process and its host; and when the server cut it inside a host without a paren, as the verb, the
-- process and what is left of the host.
pub parse-application_name :
    (verb host part : Text) (pid : ℕ)
    → has b' ' verb ≡ false
    → has b')' part ≡ false
    → pid < u32_limit
    → (parse_application_name (application_name host pid verb)
        ≡ some (record { verb = verb; pid = pid; host = host }))
      × (parse_application_name (cut_name verb pid part)
          ≡ some (record { verb = verb; pid = pid; host = part }))
unfolding application_name
parse-application_name verb host part pid no_space no_paren small = (
  parse_cut verb (host ++ codes ")") host pid no_space small (
      ap (λ x. strip_paren (codes "pid=" ++ x))
        (sym (append_assoc (print_u32 pid) (codes ", host=" ++ host) (codes ")")))
      ∙ strip_paren-append (inner pid host)),
  parse_cut verb part part pid no_space small (
      ap (λ x. strip_paren (codes "pid=" ++ x))
        (sym (append_assoc (print_u32 pid) (codes ", host") (b'=' ∷ part)))
      ∙ (strip_paren-tail (codes "pid=" ++ (print_u32 pid ++ codes ", host")) b'=' part no_paren
          ∙ ap (λ x. codes "pid=" ++ x)
              (append_assoc (print_u32 pid) (codes ", host") (b'=' ∷ part)))),
)
