-- ===== src/Tests/Settings.antt =====
-- Runs of the settings commands of the CLI.
use pg_web.Common.{◌≡◌, ◌↔◌, refl, true, false, [], ◌∷◌, ◌++◌, some, none, codes, has, same}
use pg_web.Common.Result.{ok}
use pg_web.CliSettings.{ServerSection, parse_pair, set, sync_settings}
use pg_web.CliSettings.Pairs.{parse_pair_iff}
use pg_web.CliSettings.Sync.{sync_settings-request_timeout}
use pg_web.Tests.World.{Headers, settings_table}

abbrev server : ServerSection
server = record {
  env = some (codes "production");
  request_timeout = some (codes "5s");
  health_enabled = none;
  readiness_enabled = none;
}

parse_pair_iff_example :
    (parse_pair (codes "URL=a=b") ≡ ok (codes "URL", codes "a=b"))
    ↔ ((codes "URL=a=b" ≡ codes "URL" ++ b'=' ∷ codes "a=b") × (has b'=' (codes "URL") ≡ false))
parse_pair_iff_example = parse_pair_iff (codes "URL=a=b") (codes "URL") (codes "a=b")

key_written :
    set settings_table (codes "KEY") (codes "1") []
    ≡ ok (settings_table.upsert (codes "KEY") (codes "1") [])
unfolding set pg_web.Common.same
key_written = refl

not_timeout : same (codes "request_timeout") (codes "KEY") ≡ false
unfolding same
not_timeout = refl

not_health : same (codes "health_enabled") (codes "KEY") ≡ false
unfolding same
not_health = refl

not_readiness : same (codes "readiness_enabled") (codes "KEY") ≡ false
unfolding same
not_readiness = refl

sync_settings-request_timeout_example :
    (db : Headers) × (set settings_table (codes "request_timeout") (codes "60s") [] ≡ ok db)
    × (settings_table.value (codes "request_timeout") db ≡ some (codes "60s"))
    × (settings_table.value (codes "request_timeout") (sync_settings settings_table server db)
        ≡ some (codes "5s"))
sync_settings-request_timeout_example =
    sync_settings-request_timeout settings_table server (codes "60s") (codes "5s") [] refl
