-- ===== src/Check/Splitter.antt =====
-- crates/pg_web_cli/src/check.rs: `split_sql_statements`, `detect_dollar_tag_at` and
-- `finalize_statement`, on code points. The fuel of a loop is the length of its text.
use pg_web.Common.{
  ℕ, zero, suc, ◌+◌, length, ◌||◌, ◌&&◌, not, Bool, true, false, List, [], ◌∷◌, ◌++◌, Option, none,
  some, if◌then◌else◌, Text, codes, same, bytes, is_empty, map, strip_prefix, starts_with,
  split_once, to_ascii_lowercase, within, ◌==◌,
}

-- The flags of the scanner
pub record Scan : Type 0 where
  pub in_single : Bool
  pub in_double : Bool
  pub in_block_comment : Bool
  pub in_line_comment : Bool
  pub dollar_tag : Option Text

abbrev pub scan_start : Scan
scan_start = record {
  in_single = false;
  in_double = false;
  in_block_comment = false;
  in_line_comment = false;
  dollar_tag = none;
}

-- One round of the loop: the flags behind it, what it adds to `current`, the characters that are
-- left, and whether it ends the statement.
pub record Move : Type 0 where
  pub after : Scan
  pub pushed : Text
  pub rest : Text
  pub ends : Bool

abbrev move : Scan → Text → Text → Move
move after pushed rest = record { after = after; pushed = pushed; rest = rest; ends = false }

-- `chars.peek().is_some_and(…)`
abbrev pub peeks : ℕ → Text → Bool
peeks d [] = false
peeks d (c ∷ cs) = c == d

-- `chars.next()`, once and `n` times
abbrev pub skip_one : Text → Text
skip_one [] = []
skip_one (c ∷ cs) = cs

unfoldable pub skip : ℕ → Text → Text
skip zero cs = cs
skip (suc n) cs = skip n (skip_one cs)

-- `detect_dollar_tag_at` behind its first dollar: the tag, and the bytes from there on.
abbrev pub tag_of : Option (Text × Text) → Option (Text × ℕ)
tag_of none = none
tag_of (some (tag, rest)) = some (tag, length (bytes tag) + 1)

unfoldable pub detect_dollar_tag_at : Text → Option (Text × ℕ)
detect_dollar_tag_at cs = tag_of (split_once b'$' cs)

abbrev pub delimiter : Text → Text
delimiter tag = b'$' ∷ (tag ++ b'$' ∷ [])

-- Quotes, terminators and plain characters.
abbrev pub step_plain : Scan → ℕ → Text → Move
step_plain s c cs =
    if c == b'\'' && not s.in_double
    then (if s.in_single
        then (if peeks b'\'' cs
            then move s (b'\'' ∷ b'\'' ∷ []) (skip_one cs)
            else move (record s { in_single = false }) (b'\'' ∷ []) cs)
        else move (record s { in_single = true }) (b'\'' ∷ []) cs)
    else if c == b'"' && not s.in_single
    then move (record s { in_double = not s.in_double }) (b'"' ∷ []) cs
    else if s.in_single || s.in_double
    then move s (c ∷ []) cs
    else if c == b';'
    then record { after = s; pushed = b';' ∷ []; rest = cs; ends = true }
    else move s (c ∷ []) cs

-- A dollar outside quotes: inside a region it may close it, else it may open one.
abbrev pub step_dollar : Scan → ℕ → Text → Option Text → Option (Text × ℕ) → Move
step_dollar s c cs (some current_tag) (some (tag, len)) =
    if same tag current_tag
    then move (record s { dollar_tag = none }) (delimiter tag) (skip len cs)
    else move s (c ∷ []) cs
step_dollar s c cs (some current_tag) none = move s (c ∷ []) cs
step_dollar s c cs none (some (tag, len)) =
    move (record s { dollar_tag = some tag }) (delimiter tag) (skip len cs)
step_dollar s c cs none none = step_plain s c cs

abbrev pub step_region : Scan → ℕ → Text → Option Text → Move
step_region s c cs (some tag) = move s (c ∷ []) cs
step_region s c cs none = step_plain s c cs

abbrev pub step_block : Scan → ℕ → Text → Move
step_block s c cs =
    if c == b'*' && peeks b'/' cs
    then move (record s { in_block_comment = false }) (c ∷ b'/' ∷ []) (skip_one cs)
    else move s (c ∷ []) cs

-- One round, with its guards in the order of the source.
unfoldable pub step : Scan → ℕ → Text → Move
unfolding detect_dollar_tag_at
step s c cs =
    let quoted = s.in_single || s.in_double in
    let commented = s.in_block_comment in
    if not quoted && not commented && not s.in_line_comment && c == b'-' && peeks b'-' cs
    then move (record s { in_line_comment = true }) (b'-' ∷ b'-' ∷ []) (skip_one cs)
    else if s.in_line_comment
    then move (record s { in_line_comment = not (c == 10) }) (c ∷ []) cs
    else if not quoted && not commented && c == b'/' && peeks b'*' cs
    then move (record s { in_block_comment = true }) (b'/' ∷ b'*' ∷ []) (skip_one cs)
    else if commented
    then step_block s c cs
    else if not quoted && c == b'$'
    then step_dollar s c cs s.dollar_tag (detect_dollar_tag_at cs)
    else step_region s c cs s.dollar_tag

-- The buffers that the loop hands to `finalize_statement`, the trailing one last.
unfoldable pub split_from : ℕ → Scan → Text → Text → List Text
unfolding step
split_from fuel s current [] = current ∷ []
split_from zero s current (c ∷ cs) = current ∷ []
split_from (suc fuel) s current (c ∷ cs) =
    let m = step s c cs in
    let buffer = current ++ m.pushed in
    let later = split_from fuel m.after (if m.ends then [] else buffer) m.rest in
    if m.ends then buffer ∷ later else later

unfoldable pub split_buffers : Text → List Text
split_buffers content = split_from (length content) scan_start [] content

-- `char::is_whitespace`
abbrev pub is_whitespace : ℕ → Bool
is_whitespace c =
    within 9 13 c
    || c == 32
    || c == 133
    || c == 160
    || c == 5760
    || within 8192 8202 c
    || within 8232 8233 c
    || c == 8239
    || c == 8287
    || c == 12288

unfoldable pub trim_start : Text → Text
trim_start [] = []
trim_start (c ∷ cs) = let rest = trim_start cs in if is_whitespace c then rest else c ∷ cs

-- What stands behind the first occurrence of the pattern.
unfoldable pub behind : Text → Text → Option Text
behind pattern [] = none
behind pattern (c ∷ cs) = elim (strip_prefix pattern (c ∷ cs)) [
  | some rest ↦ some rest
  | none ↦ behind pattern cs
]

abbrev pub or_nothing : Option Text → Text
or_nothing none = []
or_nothing (some t) = t

-- The loop over leading comments; a round takes at least two characters.
unfoldable pub strip_comments : ℕ → Text → Text
unfolding trim_start behind
strip_comments zero probe = probe
strip_comments (suc fuel) probe =
    let p = trim_start probe in
    let line = strip_comments fuel (or_nothing (behind (10 ∷ []) p)) in
    let block = strip_comments fuel (or_nothing (behind (codes "*/") p)) in
    if starts_with (codes "--") p then line else if starts_with (codes "/*") p then block else p

-- `split_whitespace`
unfoldable pub words_from : Text → Text → List Text
words_from word [] = if is_empty word then [] else word ∷ []
words_from word (c ∷ cs) =
    let next_word = words_from [] cs in
    let longer = words_from (word ++ c ∷ []) cs in
    if not (is_whitespace c) then longer else if is_empty word then next_word else word ∷ next_word

abbrev pub second_is : Text → List Text → Bool
second_is word (a ∷ b ∷ rest) = same b word
second_is word _ = false

abbrev pub trusted_words : List Text → Bool
trusted_words [] = false
trusted_words (a ∷ []) = false
trusted_words (a ∷ b ∷ rest) =
    same a (codes "comment") && same b (codes "on")
    || same a (codes "create") && same b (codes "extension")
    || same a (codes "create") && same b (codes "index")
    || same a (codes "create") && same b (codes "unique") && second_is (codes "index") (b ∷ rest)

pub record SqlStatement : Type 0 where
  pub text : Text
  pub is_trusted : Bool

-- `finalize_statement`
unfoldable pub finalize_statement : Text → Option SqlStatement
unfolding strip_comments words_from
finalize_statement text =
    let probe = strip_comments (suc (length text)) text in
    if is_empty (trim_start probe)
    then none
    else some (record {
      text = text;
      is_trusted = trusted_words (words_from [] (map to_ascii_lowercase probe));
    })

abbrev pub add_statement : Option SqlStatement → List SqlStatement → List SqlStatement
add_statement none stmts = stmts
add_statement (some stmt) stmts = stmt ∷ stmts

unfoldable pub finalize_all : List Text → List SqlStatement
unfolding finalize_statement
finalize_all [] = []
finalize_all (text ∷ texts) = add_statement (finalize_statement text) (finalize_all texts)

-- `split_sql_statements`
unfoldable pub split_sql_statements : Text → List SqlStatement
unfolding split_buffers finalize_all
split_sql_statements content = finalize_all (split_buffers content)
