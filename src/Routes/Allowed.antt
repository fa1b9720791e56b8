-- ===== src/Routes/Allowed.antt =====
-- The Allow header that `list_allowed_methods` of crates/pg_web_ext/src/router.rs builds.
use pg_web.Common.{◌||◌, ◌&&◌, Bool, true, false, List, Option, none, some, Text, codes, same, any}
use pg_web.Common.Result.{Result}
use pg_web.Backend.{Backend}
use pg_web.Routes.{matches_path}

abbrev pub is_set : Option (Unit {0}) → Bool
is_set none = false
is_set (some u) = true

-- A row with this method, whose pattern parses and matches.
abbrev pub offers : List Text → Text → List (Text × Text) → Bool
offers segs method rows = any (λ (m, pp). same m method && matches_path segs pp) rows

-- The methods of the Allow header: those of the rows that match, HEAD with GET, and OPTIONS.
abbrev pub allowed : List Text → Text → List (Text × Text) → Bool
allowed segs k rows =
    offers segs k rows
    || same (codes "OPTIONS") k
    || (same (codes "HEAD") k && offers segs (codes "GET") rows)
