-- ===== src/Backend.antt =====
-- What the worker (crates/pg_web_ext/src) takes from Postgres by SPI, from Tera and from
-- serde_json, as the fields of a record: one field for each query of the source, with the texts
-- that the code puts into the query as arguments, already quoted by it. `Db` is the database in the
-- request's transaction, `Tera` a set of compiled templates.
use pg_web.Common.{ℕ, Bool, List, Option, Text}
use pg_web.Common.Result.{Result}
use pg_web.Json.{Value}

-- `row.get(n)`: an error, NULL, or a value.
abbrev pub Column : Type 0 → Type 0
Column A = Result Text (Option A)

-- A row of `SELECT method, path_pattern, handler_name, template_path FROM pgweb.routes`, read by
-- `get_by_name(…).unwrap_or_default()`: no value for an error and for NULL.
pub record RouteRow : Type 0 where
  pub method : Option Text
  pub path_pattern : Option Text
  pub handler_name : Option Text
  pub template_path : Option Text

pub record TemplateRow : Type 0 where
  pub template_path : Option Text
  pub content : Option Text

pub record AssetRow : Type 0 where
  pub content : Column (List ℕ)
  pub content_type : Column Text
  pub etag : Column Text

-- A row of `pgweb._framework_call_handler`, columns 1 to 7.
pub record CallRow : Type 0 where
  pub ok_flag : Column Bool
  pub result_text : Column Text
  pub sqlstate : Column Text
  pub message : Column Text
  pub detail : Column Text
  pub hint : Column Text
  pub context : Column Text

pub record Backend (Db Tera : Type 0) : Type 0 where
  pub route_rows : Db → Result Text (List RouteRow)
  pub template_rows : Db → Result Text (List TemplateRow)
  -- `SELECT method, path_pattern FROM pgweb.routes`, each row as its columns by ordinal
  pub method_rows : Db → Result Text (List (ℕ → Column Text))
  pub asset_rows : Text → Db → Result Text (List AssetRow)
  pub template_src : Text → Db → Result Text (Option Text)
  pub env_value : Db → Result Text (Option Text)
  pub timeout_value : Db → Result Text (Option Text)
  -- `SELECT pgweb.setting(…)`
  pub health_enabled : Db → Result Text (Option Text)
  pub readiness_enabled : Db → Result Text (Option Text)
  -- `SET LOCAL statement_timeout = …`
  pub set_statement_timeout : Text → Db → Db
  pub statement_timeout : Db → ℕ
  pub transaction_timeout : Db → ℕ
  -- `SELECT … FROM pgweb._framework_call_handler(name, req::json)`
  pub framework_call : Text → Text → Db → Result Text (List CallRow) × Db
  pub tera_default : Tera
  pub add_raw_template : Text → Text → Tera → Option Tera
  pub tera_render : Tera → Text → Value → Option Text
  -- `Tera::one_off`; the error is its chain of messages
  pub one_off : Text → Value → Result (List Text) Text
  -- `Context::from_value`: the message of its error
  pub context_error : Value → Option Text
  pub parse_json : Text → Result Text Value
  pub print_json : Value → Result Text Text
