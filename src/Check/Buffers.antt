-- ===== src/Check/Buffers.antt =====
-- The statements that `split_sql_statements` of crates/pg_web_cli/src/check.rs cuts a text into.
use pg_web.Common.{
  ℕ, suc, ◌+◌, ◌≤◌, ◌<◌, ◌≡◌, refl, sym, ap, length, length-append, ◌||◌, ◌&&◌, not, Bool, true,
  false, [], ◌∷◌, ◌++◌, Option, none, some, if◌then◌else◌, Text, bytes, utf8, split_once, All,
  ==_iff, and_parts, ◌==◌, arith, same,
}
use mathlib.Core.List.{append_assoc}
use pg_web.CliSettings.Pairs.{split_once_sound}
use pg_web.Check.Splitter.{
  Scan, Move, peeks, skip_one, skip, tag_of, detect_dollar_tag_at, delimiter, step_plain,
  step_dollar, step_region, step_block, step,
}

abbrev pub IsAscii : Text → Type 0
IsAscii cs = All (λ c. c < 128) cs

-- A round keeps the text: what it adds and what is left are the characters that it found.
pub record Keeps (m : Move) (c : ℕ) (cs : Text) : Type 0 where
  pub same_text : m.pushed ++ m.rest ≡ c ∷ cs
  pub shorter : length m.rest ≤ length cs
  pub terminator : m.ends ≡ true → m.pushed ≡ b';' ∷ []

bytes-length : (t : Text) → IsAscii t → length (bytes t) ≡ length t
unfolding bytes utf8
bytes-length [] h = refl
bytes-length (c ∷ t) (small, h) = ground (arith, bytes-length t h)

skip-append : (a : Text) (x : ℕ) (b : Text) → skip (suc (length a)) (a ++ x ∷ b) ≡ b
unfolding skip
skip-append [] x b = refl
skip-append (y ∷ a) x b = skip-append a x b

one-Keeps :
    (s : Scan) (c : ℕ) (cs : Text)
    → Keeps (record { after = s; pushed = c ∷ []; rest = cs; ends = false }) c cs
one-Keeps s c cs = record { same_text = refl; shorter = omega arith; terminator = λ e. cc }

two-Keeps :
    (s : Scan) (c x y : ℕ) (cs : Text)
    → c ≡ x
    → peeks y cs ≡ true
    → Keeps (record { after = s; pushed = x ∷ y ∷ []; rest = skip_one cs; ends = false }) c cs
two-Keeps s c x y [] is h = cc
two-Keeps s c x y (z ∷ cs) is h = record {
  same_text = ground (arith, ==_iff z y);
  shorter = omega arith;
  terminator = λ e. cc;
}

as_is :
    (s : Scan) (c x : ℕ) (cs : Text)
    → (c == x) ≡ true
    → Keeps (record { after = s; pushed = x ∷ []; rest = cs; ends = false }) c cs
as_is s c x cs is = rw (sym ((==_iff c x).0 is)) (one-Keeps s c cs)

if-Keeps :
    (b : Bool) (m n : Move) (c : ℕ) (cs : Text)
    → (b ≡ true → Keeps m c cs)
    → (b ≡ false → Keeps n c cs)
    → Keeps (if b then m else n) c cs
if-Keeps true m n c cs h k = h refl
if-Keeps false m n c cs h k = k refl

step_plain-Keeps : (s : Scan) (c : ℕ) (cs : Text) → Keeps (step_plain s c cs) c cs
step_plain-Keeps s c cs =
    if-Keeps (c == b'\'' && not s.in_double) _ _ c cs
      (λ q.
        let quote = (and_parts (c == b'\'') (not s.in_double) q).0 in
        if-Keeps s.in_single _ _ c cs
          (λ _.
            if-Keeps (peeks b'\'' cs) _ _ c cs
              (λ twice. two-Keeps s c b'\'' b'\'' cs ((==_iff c b'\'').0 quote) twice)
              (λ _. as_is (record s { in_single = false }) c b'\'' cs quote))
          (λ _. as_is (record s { in_single = true }) c b'\'' cs quote))
      (λ _.
        if-Keeps (c == b'"' && not s.in_single) _ _ c cs
          (λ q.
            as_is (record s { in_double = not s.in_double }) c b'"' cs
              (and_parts (c == b'"') (not s.in_single) q).0)
          (λ _.
            if-Keeps (s.in_single || s.in_double) _ _ c cs (λ _. one-Keeps s c cs)
              (λ _.
                if-Keeps (c == b';') _ _ c cs
                  (λ is. record {
                    same_text = ap (λ x. x ∷ cs) (sym ((==_iff c b';').0 is));
                    shorter = omega arith;
                    terminator = λ e. refl;
                  })
                  (λ _. one-Keeps s c cs))))

pub IsAscii-append : (a b : Text) → IsAscii (a ++ b) → IsAscii a × IsAscii b
IsAscii-append [] b h = (tt, h)
IsAscii-append (c ∷ a) b (small, h) = let (x, y) = IsAscii-append a b h in ((small, x), y)

skip-delimited : (a b : Text) → IsAscii a → skip (length (bytes a) + 1) (a ++ b'$' ∷ b) ≡ b
skip-delimited a b h =
    let len : length (bytes a) + 1 ≡ suc (length a) = omega (arith, bytes-length a h) in
    rw len (skip-append a b'$' b)

delimiter-Keeps :
    (s : Scan) (c : ℕ) (cs : Text) (tag : Text) (len : ℕ)
    → IsAscii cs
    → c ≡ b'$'
    → detect_dollar_tag_at cs ≡ some (tag, len)
    → Keeps (record { after = s; pushed = delimiter tag; rest = skip len cs; ends = false }) c cs
unfolding detect_dollar_tag_at
delimiter-Keeps s c cs tag len ascii is found = go (split_once b'$' cs) refl found
  where
    keeps_it :
        (a b : Text)
        → IsAscii a
        → Keeps
            (record {
              after = s;
              pushed = delimiter a;
              rest = skip (length (bytes a) + 1) (a ++ b'$' ∷ b);
              ends = false;
            })
            b'$'
            (a ++ b'$' ∷ b)
    keeps_it a b h = rw (skip-delimited a b h) (record {
      same_text = ap (λ x. b'$' ∷ x) (append_assoc a (b'$' ∷ []) b);
      shorter = omega (arith, length-append a (b'$' ∷ b));
      terminator = λ e. cc;
    })

    go :
        (o : Option (Text × Text))
        → split_once b'$' cs ≡ o
        → tag_of o ≡ some (tag, len)
        → Keeps
            (record { after = s; pushed = delimiter tag; rest = skip len cs; ends = false })
            c
            cs
    go none e h = cc
    go (some (a, b)) e h =
        let parts = (split_once_sound b'$' cs a b e).0 in
        let tag_is : a ≡ tag = cc in
        let len_is : length (bytes a) + 1 ≡ len = cc in
        rw (is, parts, sym tag_is, sym len_is)
          (keeps_it a b (IsAscii-append a (b'$' ∷ b) (rw parts at ascii)).0)

step_dollar-Keeps :
    (s : Scan) (c : ℕ) (cs : Text) (region : Option Text) (tag : Option (Text × ℕ))
    → IsAscii cs
    → c ≡ b'$'
    → detect_dollar_tag_at cs ≡ tag
    → Keeps (step_dollar s c cs region tag) c cs
step_dollar-Keeps s c cs (some current) (some (tag, len)) ascii is found =
    if-Keeps (same tag current) _ _ c cs
      (λ _. delimiter-Keeps (record s { dollar_tag = none }) c cs tag len ascii is found)
      (λ _. one-Keeps s c cs)
step_dollar-Keeps s c cs (some current) none ascii is found = one-Keeps s c cs
step_dollar-Keeps s c cs none (some (tag, len)) ascii is found =
    delimiter-Keeps (record s { dollar_tag = some tag }) c cs tag len ascii is found
step_dollar-Keeps s c cs none none ascii is found = step_plain-Keeps s c cs

step_region-Keeps :
    (s : Scan) (c : ℕ) (cs : Text) (region : Option Text) → Keeps (step_region s c cs region) c cs
step_region-Keeps s c cs (some tag) = one-Keeps s c cs
step_region-Keeps s c cs none = step_plain-Keeps s c cs

step_block-Keeps : (s : Scan) (c : ℕ) (cs : Text) → Keeps (step_block s c cs) c cs
step_block-Keeps s c cs =
    if-Keeps (c == b'*' && peeks b'/' cs) _ _ c cs
      (λ q.
        two-Keeps (record s { in_block_comment = false }) c c b'/' cs refl
          (and_parts (c == b'*') (peeks b'/' cs) q).1)
      (λ _. one-Keeps s c cs)

pub step-Keeps : (s : Scan) (c : ℕ) (cs : Text) → IsAscii cs → Keeps (step s c cs) c cs
unfolding step
step-Keeps s c cs ascii =
    if-Keeps
      (not quoted && not s.in_block_comment && not s.in_line_comment && c == b'-' && peeks b'-' cs)
      _ _ c cs
      (λ q.
        two-Keeps (record s { in_line_comment = true }) c b'-' b'-' cs
          ((==_iff c b'-').0 (ground arith)) (ground arith))
      (λ _.
        if-Keeps s.in_line_comment _ _ c cs
          (λ _. one-Keeps (record s { in_line_comment = not (c == 10) }) c cs)
          (λ _.
            if-Keeps (not quoted && not s.in_block_comment && c == b'/' && peeks b'*' cs) _ _ c cs
              (λ q.
                two-Keeps (record s { in_block_comment = true }) c b'/' b'*' cs
                  ((==_iff c b'/').0 (ground arith)) (ground arith))
              (λ _.
                if-Keeps s.in_block_comment _ _ c cs (λ _. step_block-Keeps s c cs)
                  (λ _.
                    if-Keeps (not quoted && c == b'$') _ _ c cs
                      (λ q.
                        step_dollar-Keeps s c cs s.dollar_tag (detect_dollar_tag_at cs) ascii
                          ((==_iff c b'$').0 (ground arith)) refl)
                      (λ _. step_region-Keeps s c cs s.dollar_tag)))))
  where
    quoted : Bool
    quoted = s.in_single || s.in_double
