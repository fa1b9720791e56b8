-- ===== src/Templating.antt =====
-- crates/pg_web_ext/src/templating.rs: `render`, `classify_tera_error` and `extract_missing_var`.
use pg_web.Common.{
  ℕ, ◌==◌, ◌||◌, ◌&&◌, Bool, List, [], ◌∷◌, ◌++◌, Option, none, some, if◌then◌else◌, Text, codes,
  join, contains, strip_prefix,
}
use pg_web.Common.Result.{Result, ok, err}
use pg_web.Json.{Value}
use pg_web.Errors.{ServeError, template_parse_error, template_render_error}
use pg_web.Backend.{Backend}

-- The text behind the first occurrence of the marker: `msg.find(marker)` and the slice behind it.
abbrev or_later : Option Text → Option Text → Option Text
or_later none later = later
or_later (some t) later = some t

unfoldable pub find_after : Text → Text → Option Text
find_after marker [] = strip_prefix marker []
find_after marker (c ∷ cs) = or_later (strip_prefix marker (c ∷ cs)) (find_after marker cs)

-- The text before the first backquote or quote.
abbrev push_onto : ℕ → Option Text → Option Text
push_onto c none = none
push_onto c (some t) = some (c ∷ t)

unfoldable pub until_quote : Text → Option Text
until_quote [] = none
until_quote (c ∷ cs) =
    let rest = push_onto c (until_quote cs) in if c == b'`' || c == b'\'' then some [] else rest

abbrev name_after : Option Text → Option Text
name_after none = none
name_after (some after) = until_quote after

unfoldable pub first_name : List Text → Text → Option Text
unfolding find_after until_quote
first_name [] msg = none
first_name (marker ∷ markers) msg =
    or_later (name_after (find_after marker msg)) (first_name markers msg)

abbrev markers : List Text
markers = codes "Variable `" ∷ codes "Variable '" ∷ codes "variable `" ∷ codes "variable '" ∷ []

unfoldable pub extract_missing_var : Text → Option Text
unfolding first_name
extract_missing_var msg = first_name markers msg

unfoldable pub looks_like_parse : Text → Bool
looks_like_parse joined =
    contains (codes "Failed to parse") joined
    || contains (codes "Syntax error") joined
    || (contains (codes "expected") joined && contains (codes "unexpected") joined)
    || contains (codes "Unexpected end of template") joined

unfoldable pub classify_tera_error : Text → List Text → ServeError
classify_tera_error template_path messages =
    let joined = join (codes " → ") messages in
    if looks_like_parse joined
    then template_parse_error template_path joined none
    else template_render_error template_path joined (extract_missing_var joined)

abbrev pub no_context : Text → Text → ServeError
no_context template_path e =
    template_render_error template_path
      (codes "could not build Tera context from handler JSON: " ++ e) none

module _ {Db Tera : Type 0} (b : Backend Db Tera) where
  abbrev one_off_result : Text → Result (List Text) Text → Result ServeError Text
  one_off_result template_path (ok body) = ok body
  one_off_result template_path (err messages) = err (classify_tera_error template_path messages)

  -- `templating::render`
  unfoldable pub render : Text → Text → Value → Result ServeError Text
  render template_path src value = elim (b.context_error value) [
    | some e ↦ err (no_context template_path e)
    | none ↦ one_off_result template_path (b.one_off src value)
  ]
