-- ===== src/Errors.antt =====
-- crates/pg_web_ext/src/errors.rs: the catalog `ServeError` with `code`, `title`, `log_line`,
-- `context_rows`, `detail_block`, and `escape_html`. Not modelled: the prose of `remedy` and the
-- page around these parts in `render_dev_page`.
pub mod Escaping
pub mod Codes
use pg_web.Common.{
  ℕ, ◌==◌, Bool, List, [], ◌∷◌, ◌++◌, Option, none, some, if◌then◌else◌, Text, codes,
}

pub data ServeError : Type 0 where
  handler_missing : (handler_name route : Text) → ServeError
  handler_signature_mismatch : (handler_name expected actual : Text) → ServeError
  handler_sql_exception :
      (handler_name sqlstate message : Text) → (detail hint context : Option Text) → ServeError
  handler_return_not_json : (handler_name raw parse_error : Text) → ServeError
  template_missing : (template_path : Text) → ServeError
  template_parse_error : (template_path message : Text) → (line : Option ℕ) → ServeError
  template_render_error : (template_path message : Text) → (missing_var : Option Text) → ServeError
  route_pattern_malformed : (pattern_text reason : Text) → ServeError
  request_timeout : (handler_name timeout route : Text) → ServeError
  other : (message : Text) → ServeError

unfoldable pub code : ServeError → Text
code (handler_missing _ _) = codes "PGWEB_E001_HANDLER_MISSING"
code (handler_signature_mismatch _ _ _) = codes "PGWEB_E002_HANDLER_SIGNATURE"
code (handler_sql_exception _ _ _ _ _ _) = codes "PGWEB_E003_HANDLER_SQL_EXCEPTION"
code (handler_return_not_json _ _ _) = codes "PGWEB_E004_HANDLER_RETURN_NOT_JSON"
code (template_missing _) = codes "PGWEB_E005_TEMPLATE_MISSING"
code (template_parse_error _ _ _) = codes "PGWEB_E006_TEMPLATE_PARSE"
code (template_render_error _ _ _) = codes "PGWEB_E007_TEMPLATE_RENDER"
code (route_pattern_malformed _ _) = codes "PGWEB_E008_ROUTE_PATTERN_MALFORMED"
code (request_timeout _ _ _) = codes "PGWEB_E009_REQUEST_TIMEOUT"
code (other _) = codes "PGWEB_E999_OTHER"

pub title : ServeError → Text
title (handler_missing _ _) = codes "Handler function not found"
title (handler_signature_mismatch _ _ _) = codes "Handler signature doesn't match"
title (handler_sql_exception _ _ _ _ _ _) = codes "SQL exception inside handler"
title (handler_return_not_json _ _ _) = codes "Handler return isn't valid JSON"
title (template_missing _) = codes "Template not in pgweb.templates"
title (template_parse_error _ _ _) = codes "Template failed to parse"
title (template_render_error _ _ _) = codes "Template failed to render"
title (route_pattern_malformed _ _) = codes "Route pattern malformed"
title (request_timeout _ _ _) = codes "Handler exceeded request_timeout"
title (other _) = codes "Unclassified error"

-- `format!("{}: …", self.code())`
abbrev pub after_code : ServeError → Text → Text
after_code e rest = code e ++ (codes ": " ++ rest)

pub log_line : ServeError → Text
log_line (handler_missing h r) =
    after_code (handler_missing h r) (h ++ (codes " (route " ++ (r ++ codes ")")))
log_line (handler_signature_mismatch h e a) =
    after_code (handler_signature_mismatch h e a)
      (h ++ (codes " has (" ++ (a ++ (codes "); expected (" ++ (e ++ codes ")")))))
log_line (handler_sql_exception h s m d i c) =
    after_code (handler_sql_exception h s m d i c)
      (codes "in " ++ (h ++ (codes " — SQLSTATE " ++ (s ++ (codes ": " ++ m)))))
log_line (handler_return_not_json h r p) =
    after_code (handler_return_not_json h r p) (h ++ (codes " — " ++ p))
log_line (template_missing t) = after_code (template_missing t) t
log_line (template_parse_error t m l) =
    after_code (template_parse_error t m l) (t ++ (codes " — " ++ m))
log_line (template_render_error t m v) =
    after_code (template_render_error t m v) (t ++ (codes " — " ++ m))
log_line (route_pattern_malformed p r) =
    after_code (route_pattern_malformed p r) (codes "'" ++ (p ++ (codes "' — " ++ r)))
log_line (request_timeout h t r) =
    after_code (request_timeout h t r) (h ++ (codes " (timeout " ++ (t ++ (codes ") on " ++ r))))
log_line (other m) = after_code (other m) m

-- `l.to_string()` of a line number is a parameter.
module _ (to_text : ℕ → Text) where
  abbrev pub line_row : Option ℕ → List (Text × Text)
  line_row none = []
  line_row (some l) = (codes "line", to_text l) ∷ []

  abbrev pub var_row : Option Text → List (Text × Text)
  var_row none = []
  var_row (some v) = (codes "missing variable", v) ∷ []

  pub context_rows : ServeError → List (Text × Text)
  context_rows (handler_missing h r) = (codes "route", r) ∷ (codes "expected handler", h) ∷ []
  context_rows (handler_signature_mismatch h e a) =
      (codes "handler", h) ∷ (codes "expected signature", e) ∷ (codes "actual signature", a) ∷ []
  context_rows (handler_sql_exception h s m d i c) =
      (codes "handler", h) ∷ (codes "SQLSTATE", s) ∷ []
  context_rows (handler_return_not_json h r p) = (codes "handler", h) ∷ []
  context_rows (template_missing t) = (codes "template_path", t) ∷ []
  context_rows (template_parse_error t m l) = (codes "template_path", t) ∷ line_row l
  context_rows (template_render_error t m v) = (codes "template_path", t) ∷ var_row v
  context_rows (route_pattern_malformed p r) = (codes "pattern", p) ∷ []
  context_rows (request_timeout h t r) =
      (codes "handler", h) ∷ (codes "timeout", t) ∷ (codes "route", r) ∷ []
  context_rows (other m) = []

-- One optional line of the SQL exception's block.
abbrev pub detail_line : Text → Option Text → Text
detail_line label none = []
detail_line label (some t) = label ++ (t ++ codes "\n")

pub detail_block : ServeError → Text
detail_block (handler_sql_exception h s m d i c) =
    codes "MESSAGE: "
    ++ (m
        ++ (codes "\n"
            ++ (detail_line (codes "DETAIL:  ") d
                ++ (detail_line (codes "HINT:    ") i ++ detail_line (codes "CONTEXT: ") c))))
detail_block (handler_return_not_json h r p) =
    codes "parse error: " ++ (p ++ (codes "\n\nreturned bytes:\n" ++ r))
detail_block (template_parse_error t m l) = m
detail_block (template_render_error t m v) = m
detail_block (route_pattern_malformed p r) = r
detail_block (request_timeout h t r) =
    codes "handler " ++ (h ++ (codes " exceeded request_timeout=" ++ t))
detail_block (other m) = m
detail_block _ = []

pub escape_char : ℕ → Text
escape_char c =
    if c == b'&'
    then codes "&amp;"
    else if c == b'<'
    then codes "&lt;"
    else if c == b'>'
    then codes "&gt;"
    else if c == b'"'
    then codes "&quot;"
    else if c == b'\''
    then codes "&#39;"
    else c ∷ []

pub escape_html : Text → Text
unfolding escape_char
escape_html [] = []
escape_html (c ∷ cs) = escape_char c ++ escape_html cs
