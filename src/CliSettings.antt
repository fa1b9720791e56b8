-- ===== src/CliSettings.antt =====
-- crates/pg_web_cli/src/env.rs: `pg-web env set`, `unset` and `list` on the table pgweb.settings; and
-- the settings that crates/pg_web_cli/src/push.rs writes there from pgweb.toml.
pub mod Pairs
pub mod Sync
use pg_web.Common.{
  ℕ, ◌≡◌, ◌≢◌, ◌↔◌, refl, ◌==◌, ltb, Bool, true, false, List, [], ◌∷◌, ◌++◌, Option, none, some,
  if◌then◌else◌, Text, codes, same, same_iff, same_refl, split_once, push_fst, has, any, ◌||◌,
  is_empty, arith, ap, ◌∙◌, Bool-cases, inl, inr, or_false, ==_refl, ==_iff,
}
use pg_web.Common.Result.{Result, ok, err, ◌>>=◌}

pub data EnvError : Type 0 where
  no_equals empty_key reserved_key : EnvError

-- The table: `INSERT … ON CONFLICT (key) DO UPDATE`, `DELETE … WHERE key = …` with the number of
-- rows, and the value of a key.
pub record SettingsTable (Db : Type 0) : Type 0 where
  pub upsert : Text → Text → Db → Db
  pub delete : Text → Db → ℕ × Db
  pub value : Text → Db → Option Text
  pub value-upsert :
      (k j v : Text) (db : Db) → value j (upsert k v db) ≡ (if same k j then some v else value j db)
  pub value-delete :
      (k j : Text) (db : Db) → value j (delete k db).1 ≡ (if same k j then none else value j db)

abbrev pub ok_or : Option (Text × Text) → Result EnvError (Text × Text)
ok_or none = err no_equals
ok_or (some p) = ok p

-- `parse_pair`
unfoldable pub parse_pair : Text → Result EnvError (Text × Text)
parse_pair input = ok_or (split_once b'=' input)

-- `validate_key`
unfoldable pub validate_key : Text → Result EnvError (Unit {0})
validate_key key = if is_empty key then err empty_key else ok tt

abbrev pub push_managed_keys : List Text
push_managed_keys = codes "env" ∷ []

-- `reject_reserved`
unfoldable pub reject_reserved : Text → Result EnvError (Unit {0})
reject_reserved key = if any (same key) push_managed_keys then err reserved_key else ok tt

-- The values of `[server]` in pgweb.toml.
pub record ServerSection : Type 0 where
  pub env : Option Text
  pub request_timeout : Option Text
  pub health_enabled : Option Bool
  pub readiness_enabled : Option Bool

abbrev pub bool_text : Bool → Text
bool_text true = codes "true"
bool_text false = codes "false"

module _ {Db : Type 0} (t : SettingsTable Db) where
  -- `set`, from the database of its connection
  unfoldable pub set : Text → Text → Db → Result EnvError Db
  unfolding validate_key reject_reserved
  set key value db =
      validate_key key >>= λ _. reject_reserved key >>= λ _. ok (t.upsert key value db)

  -- `unset`, with whether a row was deleted
  unfoldable pub unset : Text → Db → Result EnvError (Bool × Db)
  unfolding validate_key reject_reserved
  unset key db = validate_key key >>= λ _.
      reject_reserved key >>= λ _. let (n, db') = t.delete key db in ok (ltb 0 n, db')

  abbrev pub sync : Text → Option Text → Db → Db
  sync key none db = db
  sync key (some v) db = t.upsert key v db

  abbrev pub flag : Option Bool → Option Text
  flag none = none
  flag (some b) = some (bool_text b)

  -- `sync_env`, `sync_request_timeout`, `sync_health_enabled` and `sync_readiness_enabled`, as
  -- `push_with_options` calls them.
  unfoldable pub sync_settings : ServerSection → Db → Db
  sync_settings s db = sync (codes "readiness_enabled") (flag s.readiness_enabled) (
      sync (codes "health_enabled") (flag s.health_enabled)
        (sync (codes "request_timeout") s.request_timeout (sync (codes "env") s.env db)))
