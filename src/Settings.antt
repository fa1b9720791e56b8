-- ===== src/Settings.antt =====
-- crates/pg_web_ext/src/settings.rs: `Env`, `current_env`, `current_request_timeout`. A lookup by
-- SPI is its result: an error, no row, or the value.
use pg_web.Common.{
  ℕ, ◌||◌, not, Bool, Option, none, some, if◌then◌else◌, Text, codes, same, all, ◌==◌, within,
}
use pg_web.Common.Result.{Result, ok, err}

pub data Env : Type 0 where
  development production : Env

-- `Env::from_value`
pub from_value : Text → Env
from_value v =
    if same v (codes "production") || same v (codes "prod") then production else development

-- `current_env`, from the result of its query
unfoldable pub current_env : Result Text (Option Text) → Env
unfolding from_value
current_env (ok (some v)) = from_value v
current_env (ok none) = production
current_env (err e) = production

-- `char::is_whitespace` on the code points of ASCII and Latin-1, and the other Unicode spaces.
unfoldable pub is_whitespace : ℕ → Bool
is_whitespace c =
    within 9 13 c
    || c == 32
    || c == 133
    || c == 160
    || c == 5760
    || within 8192 8202 c
    || c == 8232
    || c == 8233
    || c == 8239
    || c == 8287
    || c == 12288

-- `current_request_timeout`: `v.trim().is_empty()` is that every character is white space.
unfoldable pub current_request_timeout : Result Text (Option Text) → Option Text
current_request_timeout (ok (some v)) = if not (all is_whitespace v) then some v else none
current_request_timeout _ = none
