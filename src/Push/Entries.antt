-- ===== src/Push/Entries.antt =====
-- crates/pg_web_cli/src/push.rs: `apply_entry`, `rewrite_asset_refs`, `validate_handler` and
-- `validate_templates`.
use pg_web.Common.{
  ℕ, length, zero, suc, ◌||◌, ◌&&◌, not, Bool, true, false, List, [], ◌∷◌, ◌++◌, Option, none, some,
  if◌then◌else◌, Text, codes, same, is_empty, strip_prefix,
}
use pg_web.Common.Result.{Result, ok, err, ◌>>=◌}
use pg_web.Common.Table.{upsert}
use pg_web.Paths.Scan.{PageFile, RouteEntry}
use pg_web.Push.Database.{
  RouteValue, Tables, PushSummary, PushError, failed, bad_template, not_in_schema,
  handler_not_found, bad_arguments, bad_result, Postgres, Tx, execute, batch, count, same_route,
}

-- `fs::read_to_string`, `path.display()`, and Tera's parser with the message of its error.
pub record Files : Type 0 where
  pub read : PageFile → Result Text Text
  pub display : PageFile → Text
  pub tera_error : Text → Option Text

-- `str::replace`
abbrev or_next : Option Text → Text → Text
or_next none next = next
or_next (some t) next = t

unfoldable pub replace_from : ℕ → Text → Text → Text → Text
replace_from fuel from to [] = []
replace_from zero from to (c ∷ cs) = c ∷ cs
replace_from (suc fuel) from to (c ∷ cs) = elim (strip_prefix from (c ∷ cs)) [
  | some rest ↦ to ++ replace_from fuel from to rest
  | none ↦ c ∷ replace_from fuel from to cs
]

abbrev pub quoted : Text → Text
quoted url = b'"' ∷ (url ++ b'"' ∷ [])

unfoldable pub replace : Text → Text → Text → Text
unfolding replace_from
replace from to text = replace_from (length text) from to text

-- `rewrite_asset_refs`, in the order of the map's iteration
unfoldable pub rewrite_asset_refs : Text → List (Text × Text) → Text
unfolding replace
rewrite_asset_refs html [] = html
rewrite_asset_refs html ((canonical, hashed) ∷ rewrites) =
    rewrite_asset_refs (replace (quoted canonical) (quoted hashed) html) rewrites

-- The statement of a static route's handler.
abbrev pub synthesized : Text → Text
synthesized handler_name =
    codes "CREATE OR REPLACE FUNCTION "
    ++ (handler_name
        ++ codes "(req json) RETURNS json LANGUAGE sql IMMUTABLE AS $$ SELECT '{}'::json $$")

abbrev pub or_unread : Result Text Text → Result PushError Text
or_unread (err e) = err (failed (codes "reading") e)
or_unread (ok text) = ok text

abbrev pub sql_executed : PushSummary → PushSummary
sql_executed s = record s { sql_files_executed = suc s.sql_files_executed }

abbrev pub handler_synthesized : PushSummary → PushSummary
handler_synthesized s = record s { synthesized_handlers = suc s.synthesized_handlers }

abbrev pub template_upserted : PushSummary → PushSummary
template_upserted s = record s { templates_upserted = suc s.templates_upserted }

abbrev pub route_upserted : PushSummary → PushSummary
route_upserted s = record s { routes_upserted = suc s.routes_upserted }

abbrev pub put_template : {Server : Type 0} → Text → Text → Tables Server → Tables Server
put_template path content db = record db { templates = upsert same path content db.templates }

abbrev pub rewritten : List (Text × Text) → Text → Text
rewritten rewrites raw = if is_empty rewrites then raw else rewrite_asset_refs raw rewrites

abbrev pub value_of : RouteEntry → RouteValue
value_of e = record { handler_name = e.handler_name; template_path = e.template_path }

abbrev pub put_route : {Server : Type 0} → RouteEntry → Tables Server → Tables Server
put_route e db = record db { routes = upsert same_route (e.method, e.route) (value_of e) db.routes }

abbrev is_some : Option Text → Bool
is_some none = false
is_some (some t) = true

-- The declared result against the mode of the route.
abbrev plausible : Option Text → Text → Bool
plausible template_path rettype =
    same rettype (codes "json") || (not (is_some template_path) && same rettype (codes "text"))

abbrev check_function : RouteEntry → Option (Text × Text) → Result PushError (Unit {0})
check_function e none = err (handler_not_found e.handler_name)
check_function e (some (args, rettype)) =
    if not (same args (codes "req json"))
    then err (bad_arguments e.handler_name args)
    else if not (plausible e.template_path rettype)
    then err (bad_result e.handler_name rettype)
    else ok tt

module _ (files : Files) where
  abbrev pub read : PageFile → Result PushError Text
  read f = or_unread (files.read f)

  abbrev parsed : PageFile → Option Text → Result PushError (Unit {0})
  parsed f none = ok tt
  parsed f (some message) = err (bad_template (files.display f) message)

  abbrev validate_template : Option PageFile → Result PushError (Unit {0})
  validate_template none = ok tt
  validate_template (some html_path) =
      read html_path >>= λ source. parsed html_path (files.tera_error source)

  -- `validate_templates`
  unfoldable pub validate_templates : List RouteEntry → Result PushError (Unit {0})
  validate_templates [] = ok tt
  validate_templates (e ∷ entries) =
      validate_template e.html_path >>= λ _. validate_templates entries

  module _ {Server : Type 0} (pg : Postgres Server) where
    -- The first part of `apply_entry`: the handler's SQL file, or the synthesized handler.
    unfoldable pub apply_handler :
        Text → Option PageFile → Option PageFile → Tx Server → Result PushError (Tx Server)
    apply_handler handler_name (some sql_path) html_path tx =
        read sql_path >>= λ sql. batch pg (files.display sql_path) sql tx >>= count sql_executed
    apply_handler handler_name none (some html_path) tx =
        batch pg handler_name (synthesized handler_name) tx >>= count handler_synthesized
    apply_handler handler_name none none tx = ok tx

    -- The second part: the template.
    unfoldable pub apply_template :
        List (Text × Text)
        → Option PageFile
        → Option Text
        → Tx Server
        → Result PushError (Tx Server)
    unfolding rewrite_asset_refs
    apply_template rewrites (some html_path) (some template_path) tx = read html_path >>= λ raw.
        execute pg (codes "upsert template") (put_template template_path (rewritten rewrites raw))
          tx
        >>= count template_upserted
    apply_template rewrites none template_path tx = ok tx
    apply_template rewrites (some html_path) none tx = ok tx

    -- `apply_entry`
    unfoldable pub apply_entry :
        List (Text × Text) → RouteEntry → Tx Server → Result PushError (Tx Server)
    unfolding apply_handler apply_template
    apply_entry rewrites e tx = apply_handler e.handler_name e.sql_path e.html_path tx >>= λ tx1.
        apply_template rewrites e.html_path e.template_path tx1 >>= λ tx2.
        execute pg (codes "upsert route") (put_route e) tx2 >>= count route_upserted

    unfoldable pub apply_entries :
        List (Text × Text) → List RouteEntry → Tx Server → Result PushError (Tx Server)
    unfolding apply_entry
    apply_entries rewrites [] tx = ok tx
    apply_entries rewrites (e ∷ entries) tx =
        apply_entry rewrites e tx >>= apply_entries rewrites entries

    -- `validate_handler`; looking it up is a statement that can fail
    abbrev look_up :
        RouteEntry → Option Text → Option Text → Tables Server → Result PushError (Unit {0})
    look_up e none fault db = err (not_in_schema e.handler_name)
    look_up e (some proname) (some message) db = err (failed e.handler_name message)
    look_up e (some proname) none db = check_function e (pg.function_of proname db)

    unfoldable pub validate_handler : RouteEntry → Tables Server → Result PushError (Unit {0})
    validate_handler e db =
        look_up e (strip_prefix (codes "pgweb.") e.handler_name)
          (pg.fault (codes "looking up a handler in pg_proc") db) db

    unfoldable pub validate_handlers : List RouteEntry → Tx Server → Result PushError (Tx Server)
    unfolding validate_handler
    validate_handlers [] tx = ok tx
    validate_handlers (e ∷ entries) (db, s) =
        validate_handler e db >>= λ _. validate_handlers entries (db, s)
