-- ===== src/Fingerprint.antt =====
-- crates/pg_web_cli/src/push.rs: `fingerprint_url` and `is_safe_proname`; and how the extension's
-- `is_fingerprinted_url` (crates/pg_web_ext/src/http.rs) reads the URLs.
use pg_web.Common.{
  ℕ, suc, ◌+◌, ◌≡◌, ◌≤◌, refl, ◌||◌, ◌&&◌, not, Bool, true, false, List, [], ◌∷◌, ◌++◌, Option,
  none, some, if◌then◌else◌, Text, codes, has, has-append, split, split-append, split-nil_sep,
  push_head, rsplit_once, or_here, arith, ap, sym, ◌∙◌, Bool-cases, inl, inr, length, length-append,
  all, is_empty, bytes, is_ascii_hexdigit, is_ascii_alphanumeric, ◌==◌, ==_refl, leb, ltb, or_false,
  and_parts,
}
use pg_web.Http.{is_fingerprinted_url, last_but_one, is_hash}

-- `match canonical.rsplit_once('/')`
abbrev pub dir_and_file : Text → Option (Text × Text) → Text × Text
dir_and_file canonical none = ([], canonical)
dir_and_file canonical (some (d, f)) = (d, f)

abbrev with_hash : Text → Text → Option (Text × Text) → Text
with_hash file hex none = file ++ (codes "." ++ hex)
with_hash file hex (some (stem, ext)) =
    if not (is_empty stem)
    then stem ++ (codes "." ++ (hex ++ (codes "." ++ ext)))
    else file ++ (codes "." ++ hex)

-- `fingerprint_url`
unfoldable pub fingerprint_url : Text → Text → Text
fingerprint_url canonical hex =
    let (dir, file) = dir_and_file canonical (rsplit_once b'/' canonical) in
    dir ++ (codes "/" ++ with_hash file hex (rsplit_once b'.' file))

rsplit_once-miss : (sep : ℕ) (t : Text) → has sep t ≡ false → rsplit_once sep t ≡ none
unfolding rsplit_once
rsplit_once-miss sep [] h = refl
rsplit_once-miss sep (c ∷ t) h =
    let (here, later) = or_false (c == sep) (has sep t) h in
    rw (rsplit_once-miss sep t later) (rw here refl)

rsplit_once-append :
    (sep : ℕ) (a b : Text) → has sep b ≡ false → rsplit_once sep (a ++ sep ∷ b) ≡ some (a, b)
unfolding rsplit_once
rsplit_once-append sep [] b h = rw (rsplit_once-miss sep b h) (rw (==_refl sep) refl)
rsplit_once-append sep (c ∷ a) b h = rw (rsplit_once-append sep a b h) refl

split-cons : (sep : ℕ) (t : Text) → (w : Text) × (ws : List Text) × (split sep t ≡ w ∷ ws)
unfolding split
split-cons sep [] = ([], [], refl)
split-cons sep (c ∷ t) = elim (Bool-cases (c == sep)) [
  | inl here ↦ ([], split sep t, rw here refl)
  | inr other ↦ let (w, ws, is) = split-cons sep t in (c ∷ w, ws, rw other (rw is refl))
]

push_head-append :
    (c sep : ℕ) (a b : Text)
    → push_head c (split sep a ++ b ∷ []) ≡ push_head c (split sep a) ++ b ∷ []
push_head-append c sep a b = let (w, ws, is) = split-cons sep a in rw is refl

split-append_last :
    (sep : ℕ) (a b : Text) → has sep b ≡ false → split sep (a ++ sep ∷ b) ≡ split sep a ++ b ∷ []
unfolding split
split-append_last sep [] b h = rw (==_refl sep) (ap (◌∷◌ []) (split-nil_sep sep b h))
split-append_last sep (c ∷ a) b h = elim (Bool-cases (c == sep)) [
  | inl here ↦ rw here (ap (◌∷◌ []) (split-append_last sep a b h))
  | inr other ↦
      rw other (ap (push_head c) (split-append_last sep a b h) ∙ push_head-append c sep a b)
]

last_but_one-append :
    (ws : List Text) (h e : Text) → last_but_one ((ws ++ h ∷ []) ++ e ∷ []) ≡ some h
last_but_one-append [] h e = refl
last_but_one-append (x ∷ []) h e = refl
last_but_one-append (x ∷ y ∷ []) h e = refl
last_but_one-append (x ∷ y ∷ z ∷ ws) h e = last_but_one-append (y ∷ z ∷ ws) h e

hexdigit_ne : (c : ℕ) → is_ascii_hexdigit c ≡ true → ((c == b'.') ≡ false) × ((c == b'/') ≡ false)
unfolding is_ascii_hexdigit pg_web.Common.Strings.is_ascii_digit
hexdigit_ne c h = (ground arith, ground arith)

hexdigits_free :
    (t : Text) → all is_ascii_hexdigit t ≡ true → (has b'.' t ≡ false) × (has b'/' t ≡ false)
hexdigits_free [] h = (refl, refl)
hexdigits_free (c ∷ t) h =
    let (here, later) = and_parts (is_ascii_hexdigit c) (all is_ascii_hexdigit t) h in
    let (d, s) = hexdigit_ne c here in let (ds, ss) = hexdigits_free t later in (rw d ds, rw s ss)

append_assoc : (a b c : Text) → (a ++ b) ++ c ≡ a ++ (b ++ c)
append_assoc [] b c = refl
append_assoc (x ∷ a) b c = ap (◌∷◌ x) (append_assoc a b c)

-- The parts of the file's name with a hash in it.
hashed_parts :
    (stem hex ext : Text)
    → has b'.' hex ≡ false
    → has b'.' ext ≡ false
    → split b'.' (stem ++ b'.' ∷ (hex ++ b'.' ∷ ext)) ≡ (split b'.' stem ++ hex ∷ []) ++ ext ∷ []
hashed_parts stem hex ext no_hex no_ext =
    ap (split b'.') (sym (append_assoc stem (b'.' ∷ hex) (b'.' ∷ ext)))
    ∙ split-append_last b'.' (stem ++ b'.' ∷ hex) ext no_ext
    ∙ ap (λ p. p ++ ext ∷ []) (split-append_last b'.' stem hex no_hex)

-- A separator, a text in front of it and one behind it, free of another character.
joined_free :
    (c sep : ℕ) (a b : Text)
    → has c a ≡ false
    → (sep == c) ≡ false
    → has c b ≡ false
    → has c (a ++ sep ∷ b) ≡ false
joined_free c sep a b no_a other no_b = has-append c a (sep ∷ b) ∙ rw no_a (rw other no_b)

enough : (ws : List Text) (h e w : Text) → ltb (length (((w ∷ ws) ++ h ∷ []) ++ e ∷ [])) 3 ≡ false
enough ws h e w = ground (arith, length-append (ws ++ h ∷ []) (e ∷ []), length-append ws (h ∷ []))

enough_parts :
    (stem hex ext : Text) → ltb (length ((split b'.' stem ++ hex ∷ []) ++ ext ∷ [])) 3 ≡ false
enough_parts stem hex ext = let (w, ws, is) = split-cons b'.' stem in rw is (enough ws hex ext w)

hashed_file :
    (dir stem hex ext : Text)
    → is_hash (some hex) ≡ true
    → has b'/' stem ≡ false
    → has b'/' ext ≡ false
    → has b'.' ext ≡ false
    → is_fingerprinted_url (dir ++ b'/' ∷ (stem ++ b'.' ∷ (hex ++ b'.' ∷ ext))) ≡ true
unfolding is_fingerprinted_url
hashed_file dir stem hex ext hash no_stem no_ext_slash no_ext_dot =
    let (long, digits) = and_parts (leb 8 (length (bytes hex))) (all is_ascii_hexdigit hex) hash in
    let (no_dot, no_slash) = hexdigits_free hex digits in
    rw
      (rsplit_once-append b'/' dir (stem ++ b'.' ∷ (hex ++ b'.' ∷ ext)) (
        joined_free b'/' b'.' stem (hex ++ b'.' ∷ ext) no_stem refl
          (joined_free b'/' b'.' hex ext no_slash refl no_ext_slash)))
      (rw (hashed_parts stem hex ext no_dot no_ext_dot)
        (rw (enough_parts stem hex ext) (rw (last_but_one-append (split b'.' stem) hex ext) hash)))

-- For a file whose name has a non-empty stem and an extension, with no slash, and a hash of at
-- least 8 hexadecimal digits, the worker's test recognises the URL that `fingerprint_url` makes.
pub fingerprint_url-is_fingerprinted :
    (dir : Text) (c : ℕ) (stem ext hex : Text)
    → has b'/' (c ∷ stem) ≡ false
    → has b'/' ext ≡ false
    → has b'.' ext ≡ false
    → is_hash (some hex) ≡ true
    → is_fingerprinted_url (fingerprint_url (dir ++ b'/' ∷ ((c ∷ stem) ++ b'.' ∷ ext)) hex) ≡ true
unfolding fingerprint_url
fingerprint_url-is_fingerprinted dir c stem ext hex no_stem no_ext no_dot hash =
    rw
      (rsplit_once-append b'/' dir ((c ∷ stem) ++ b'.' ∷ ext)
        (joined_free b'/' b'.' (c ∷ stem) ext no_stem refl no_ext))
      (rw (rsplit_once-append b'.' (c ∷ stem) ext no_dot)
        (hashed_file dir (c ∷ stem) hex ext hash no_stem no_ext no_dot))

-- For a file with no dot in its name and a hash of at least 8 hexadecimal digits, the worker's test
-- does not recognise the URL that `fingerprint_url` makes.
pub fingerprint_url-no_extension :
    (dir file hex : Text)
    → has b'/' file ≡ false
    → has b'.' file ≡ false
    → is_hash (some hex) ≡ true
    → is_fingerprinted_url (fingerprint_url (dir ++ b'/' ∷ file) hex) ≡ false
unfolding fingerprint_url is_fingerprinted_url
fingerprint_url-no_extension dir file hex no_slash no_dot hash =
    let (long, digits) = and_parts (leb 8 (length (bytes hex))) (all is_ascii_hexdigit hex) hash in
    let (hex_dot, hex_slash) = hexdigits_free hex digits in
    rw (rsplit_once-append b'/' dir file no_slash) (
      rw (rsplit_once-miss b'.' file no_dot) (
        rw
          (rsplit_once-append b'/' dir (file ++ b'.' ∷ hex)
            (joined_free b'/' b'.' file hex no_slash refl hex_slash))
          (rw (split-append_last b'.' file hex hex_dot)
            (rw (split-nil_sep b'.' file no_dot) refl))))
