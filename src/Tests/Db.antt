-- ===== src/Tests/Db.antt =====
-- The name of a connection, whole and cut by the server.
use pg_web.Common.{◌≡◌, refl, some, codes, arith}
use pg_web.Db.{application_name, parse_application_name}
use pg_web.Db.Names.{cut_name, parse-application_name}

parse-application_name_example :
    (parse_application_name (application_name (codes "laptop") 4711 (codes "push"))
      ≡ some (record { verb = codes "push"; pid = 4711; host = codes "laptop" }))
    × (parse_application_name (cut_name (codes "push") 4711 (codes "lap"))
        ≡ some (record { verb = codes "push"; pid = 4711; host = codes "lap" }))
parse-application_name_example =
    parse-application_name (codes "push") (codes "laptop") (codes "lap") 4711 refl refl
      (omega arith)
