-- ===== src/Errors/Codes.antt =====
-- The catalog's codes: what the log line and the title have to do with them.
use pg_web.Common.{◌≡◌, refl, Text, codes, ap, sym, ◌∙◌, some, split_once, same, if◌then◌else◌}
use pg_web.Errors.{
  ServeError, handler_missing, handler_signature_mismatch, handler_sql_exception,
  handler_return_not_json, template_missing, template_parse_error, template_render_error,
  route_pattern_malformed, request_timeout, other, code, title, log_line,
}

-- The title that belongs to a code.
abbrev catalog : Text → Text
catalog c =
    if same c (codes "PGWEB_E001_HANDLER_MISSING")
    then codes "Handler function not found"
    else if same c (codes "PGWEB_E002_HANDLER_SIGNATURE")
    then codes "Handler signature doesn't match"
    else if same c (codes "PGWEB_E003_HANDLER_SQL_EXCEPTION")
    then codes "SQL exception inside handler"
    else if same c (codes "PGWEB_E004_HANDLER_RETURN_NOT_JSON")
    then codes "Handler return isn't valid JSON"
    else if same c (codes "PGWEB_E005_TEMPLATE_MISSING")
    then codes "Template not in pgweb.templates"
    else if same c (codes "PGWEB_E006_TEMPLATE_PARSE")
    then codes "Template failed to parse"
    else if same c (codes "PGWEB_E007_TEMPLATE_RENDER")
    then codes "Template failed to render"
    else if same c (codes "PGWEB_E008_ROUTE_PATTERN_MALFORMED")
    then codes "Route pattern malformed"
    else if same c (codes "PGWEB_E009_REQUEST_TIMEOUT")
    then codes "Handler exceeded request_timeout"
    else codes "Unclassified error"

code-catalog : (e : ServeError) → catalog (code e) ≡ title e
unfolding code title same
code-catalog (handler_missing _ _) = refl
code-catalog (handler_signature_mismatch _ _ _) = refl
code-catalog (handler_sql_exception _ _ _ _ _ _) = refl
code-catalog (handler_return_not_json _ _ _) = refl
code-catalog (template_missing _) = refl
code-catalog (template_parse_error _ _ _) = refl
code-catalog (template_render_error _ _ _) = refl
code-catalog (route_pattern_malformed _ _) = refl
code-catalog (request_timeout _ _ _) = refl
code-catalog (other _) = refl

-- Errors with the same code have the same title: a code stands for one entry of the catalog.
pub title-code : (e f : ServeError) → code e ≡ code f → title e ≡ title f
title-code e f same_code = sym (code-catalog e) ∙ ap catalog same_code ∙ code-catalog f

-- The code is what stands before the first colon of the log line, whatever the error's texts are.
pub log_line-code :
    (e : ServeError) → (rest : Text) × (split_once b':' (log_line e) ≡ some (code e, rest))
unfolding log_line code split_once
log_line-code (handler_missing _ _) = (_, refl)
log_line-code (handler_signature_mismatch _ _ _) = (_, refl)
log_line-code (handler_sql_exception _ _ _ _ _ _) = (_, refl)
log_line-code (handler_return_not_json _ _ _) = (_, refl)
log_line-code (template_missing _) = (_, refl)
log_line-code (template_parse_error _ _ _) = (_, refl)
log_line-code (template_render_error _ _ _) = (_, refl)
log_line-code (route_pattern_malformed _ _) = (_, refl)
log_line-code (request_timeout _ _ _) = (_, refl)
log_line-code (other _) = (_, refl)
