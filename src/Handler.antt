-- ===== src/Handler.antt =====
-- crates/pg_web_ext/src/router.rs: `call_handler` and `classify_handler_error`.
pub mod Calls
use pg_web.Common.{
  ℕ, ◌||◌, not, Bool, true, false, List, [], ◌∷◌, ◌++◌, Option, none, some, if◌then◌else◌, Text,
  codes, same,
}
use pg_web.Common.Result.{Result, ok, err, ◌>>=◌, map_err}
use pg_web.Json.{Value}
use pg_web.Errors.{
  ServeError, handler_missing, handler_signature_mismatch, handler_sql_exception, request_timeout,
  other,
}
use pg_web.Settings.{current_request_timeout}
use pg_web.Pattern.{quote_literal, is_safe_ident}
use pg_web.Backend.{Backend, Column, CallRow}
use pg_web.Cache.{Worker, or_default}
use pg_web.Envelope.{req_path}

-- `unwrap_or_else(|| "15s".to_string())`
abbrev pub timeout_or_default : Option Text → Text
timeout_or_default none = codes "15s"
timeout_or_default (some t) = t

-- `classify_handler_error`; the timeout is `settings::current_request_timeout()`
unfoldable pub classify_handler_error :
    Text → Text → Text → Option Text → Option Text → Option Text → Value → Option Text → ServeError
classify_handler_error handler_name sqlstate message detail hint context req timeout =
    if same sqlstate (codes "42883")
    then handler_missing handler_name (req_path req)
    else if same sqlstate (codes "42P13") || same sqlstate (codes "42725")
    then handler_signature_mismatch handler_name (codes "(req json) RETURNS json | text") message
    else if same sqlstate (codes "57014")
    then request_timeout handler_name (timeout_or_default timeout) (req_path req)
    else handler_sql_exception handler_name sqlstate message detail hint context

abbrev pub is_true : Option Bool → Bool
is_true (some true) = true
is_true _ = false

-- The columns of the wrapper's row: its result, or the classified error.
unfoldable pub read_call_row : Text → Value → Option Text → CallRow → Result ServeError Text
read_call_row handler_name req timeout row = map_err other row.ok_flag >>= λ flag.
    if is_true flag
    then (map_err other row.result_text >>= λ t. ok (or_default t))
    else (map_err other row.sqlstate >>= λ sqlstate. map_err other row.message >>= λ message.
        map_err other row.detail >>= λ detail. map_err other row.hint >>= λ hint.
        map_err other row.context >>= λ context. err (
          classify_handler_error handler_name (or_default sqlstate) (or_default message) detail hint
            context req timeout))

unfoldable pub read_call :
    Text → Value → Option Text → Result Text (List CallRow) → Result ServeError Text
unfolding read_call_row
read_call handler_name req timeout (err e) = err (other e)
read_call handler_name req timeout (ok []) =
    err (other (codes "_framework_call_handler returned no row"))
read_call handler_name req timeout (ok (row ∷ rows)) = read_call_row handler_name req timeout row

-- `format!("{handler_name:?}")` quotes the name; the quoting is a parameter.
module _ {Db Tera : Type 0} (b : Backend Db Tera) (debug : Text → Text) where
  unfoldable pub call_with_json :
      Text → Value → Text → Worker Db Tera → Result ServeError Text × Worker Db Tera
  call_with_json handler_name req req_json w =
      let (rows, db') =
        b.framework_call (quote_literal handler_name) (quote_literal req_json) w.db in
      (
        read_call handler_name req (current_request_timeout (b.timeout_value db')) rows,
        record w { db = db' },
      )

  -- `call_handler`
  unfoldable pub call_handler :
      Text → Value → Worker Db Tera → Result ServeError Text × Worker Db Tera
  unfolding call_with_json
  call_handler handler_name req w =
      if not (is_safe_ident handler_name)
      then (err (other (codes "rejected handler name: " ++ debug handler_name)), w)
      else elim (b.print_json req) [
        | err e ↦ (err (other e), w)
        | ok req_json ↦ call_with_json handler_name req req_json w
      ]
