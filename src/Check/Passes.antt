-- ===== src/Check/Passes.antt =====
-- crates/pg_web_cli/src/check.rs: `check` with its passes. The directories are lists of files; Tera's
-- parser, the SQL parser and the query of the ledger are parameters. The prose of the messages is
-- left out.
use pg_web.Common.{
  ℕ, ◌+◌, length, not, Bool, List, [], ◌∷◌, ◌++◌, Option, none, some, if◌then◌else◌, Text, codes,
  same, filter, map, split_once, ◌==◌,
}
use pg_web.Common.Result.{Result, ok, err, ◌>>=◌}
use pg_web.Common.Table.{find, upsert}
use pg_web.Migrate.{MigrationFile, MigrateError, extension, is_ext, discover, contains_name}
use pg_web.Paths.Scan.{RouteEntry, ScanError}
use pg_web.Check.Splitter.{SqlStatement, split_sql_statements}

pub data Message : Type 0 where
  bad_layout : ScanError → Message
  bad_template : Text → Message
  bad_sql : Text → Message
  duplicate_prefix : (prefix first : Text) → Message
  missing_locally : Message
  not_applied : Message

-- `Finding`
pub record Finding : Type 0 where
  pub path : Text
  pub message : Message

-- `CheckReport`
pub record CheckReport : Type 0 where
  pub layout : List Finding
  pub templates : List Finding
  pub sql : List Finding
  pub migrations : List Finding
  pub ledger : List Finding

unfoldable pub total : CheckReport → ℕ
total r =
    length r.layout + length r.templates + length r.sql + length r.migrations + length r.ledger

unfoldable pub is_clean : CheckReport → Bool
unfolding total
is_clean r = total r == 0

pub data CheckError : Type 0 where
  unreadable : Text → Text → CheckError
  bad_migrations : MigrateError → CheckError
  bad_ledger : Text → CheckError

-- `Tera::add_raw_template` on a fresh set and `Parser::parse_sql`: the message of the error.
pub record Parsers : Type 0 where
  pub tera_error : Text → Option Text
  pub sql_error : Text → Option Text

-- The first error of the statements that are not trusted.
unfoldable pub first_error : (Text → Option Text) → List SqlStatement → Option Text
first_error sql_error [] = none
first_error sql_error (stmt ∷ stmts) =
    let later = first_error sql_error stmts in
    if stmt.is_trusted then later else elim (sql_error stmt.text) [ some e ↦ some e | none ↦ later ]

-- `validate_sql_with_tolerant_comments`
unfoldable pub validate_sql_with_tolerant_comments : (Text → Option Text) → Text → Option Text
unfolding first_error split_sql_statements
validate_sql_with_tolerant_comments sql_error content =
    first_error sql_error (split_sql_statements content)

abbrev pub finding_of : Text → (Text → Message) → Option Text → List Finding
finding_of path message none = []
finding_of path message (some e) = record { path = path; message = message e } ∷ []

abbrev pub or_unread : Text → Result Text Text → Result CheckError Text
or_unread name (err e) = err (unreadable name e)
or_unread name (ok content) = ok content

abbrev pub read_content : MigrationFile → Result CheckError Text
read_content f = or_unread f.name f.content

-- The loop that three passes share: the files with an extension are read and tested.
unfoldable pub check_files :
    Text
    → (Text → Message)
    → (Text → Option Text)
    → List MigrationFile
    → Result CheckError (List Finding)
unfolding extension
check_files ext message test [] = ok []
check_files ext message test (f ∷ files) =
    if not (is_ext ext (extension f.name))
    then check_files ext message test files
    else (read_content f >>= λ content. check_files ext message test files >>= λ later.
        ok (finding_of f.name message (test content) ++ later))

-- The files of a directory that exists, with names from there; nothing for one that does not.
abbrev pub Directory : Type 0
Directory = Option (List MigrationFile)

unfoldable pub check_layout : Option (Result ScanError (List RouteEntry)) → List Finding
check_layout none = []
check_layout (some (ok entries)) = []
check_layout (some (err e)) = record { path = codes "pages"; message = bad_layout e } ∷ []

abbrev pub check_directory :
    Text → (Text → Message) → (Text → Option Text) → Directory → Result CheckError (List Finding)
check_directory ext message test none = ok []
check_directory ext message test (some files) = check_files ext message test files

unfoldable pub check_templates : Parsers → Directory → Result CheckError (List Finding)
unfolding check_files
check_templates p pages = check_directory (codes "html") bad_template p.tera_error pages

unfoldable pub check_handler_sql : Parsers → Directory → Result CheckError (List Finding)
unfolding check_files validate_sql_with_tolerant_comments
check_handler_sql p pages =
    check_directory (codes "sql") bad_sql (validate_sql_with_tolerant_comments p.sql_error) pages

unfoldable pub check_migration_sql : Parsers → Directory → Result CheckError (List Finding)
unfolding check_files validate_sql_with_tolerant_comments
check_migration_sql p migrations =
    check_directory (codes "sql") bad_sql (validate_sql_with_tolerant_comments p.sql_error)
      migrations

-- `seen_prefixes.insert(…)`: what was there before.
abbrev pub repeated : Text → Text → Option Text → List Finding → List Finding
repeated name prefix none later = later
repeated name prefix (some first) later =
    record { path = name; message = duplicate_prefix prefix first } ∷ later

-- The loop of `check_migration_order` over the names.
unfoldable pub order_loop : List (Text × Text) → List Text → List Finding
order_loop seen [] = []
order_loop seen (name ∷ names) = elim (split_once b'_' name) [
  | none ↦ order_loop seen names
  | some (prefix, rest) ↦
      repeated name prefix (find same prefix seen) (order_loop (upsert same prefix name seen) names)
]

abbrev pub or_migrations : Result MigrateError (List (Text × Text)) → Result CheckError (List Text)
or_migrations (err e) = err (bad_migrations e)
or_migrations (ok files) = ok (map (λ f. f.0) files)

abbrev pub local_names : Directory → Result CheckError (List Text)
local_names none = ok []
local_names (some files) = or_migrations (discover files)

unfoldable pub check_migration_order : Directory → Result CheckError (List Finding)
unfolding order_loop discover
check_migration_order dir = local_names dir >>= λ names. ok (order_loop [] names)

abbrev pub or_ledger : Result Text (List Text) → Result CheckError (List Text)
or_ledger (err e) = err (bad_ledger e)
or_ledger (ok names) = ok names

-- The two loops of `check_ledger_drift`
unfoldable pub drift : List Text → List Text → List Finding
drift local applied =
    map (λ n. record { path = n; message = missing_locally })
      (filter (λ n. not (contains_name n local)) applied)
    ++ map (λ n. record { path = n; message = not_applied })
        (filter (λ n. not (contains_name n applied)) local)

unfoldable pub check_ledger_drift :
    Directory → Result Text (List Text) → Result CheckError (List Finding)
unfolding drift discover
check_ledger_drift dir query =
    local_names dir >>= λ local. or_ledger query >>= λ applied. ok (drift local applied)

-- The project as `check` finds it: `layout` is the result of `paths::scan` if pages/ exists.
pub record Project : Type 0 where
  pub layout : Option (Result ScanError (List RouteEntry))
  pub pages : Directory
  pub migrations_dir : Directory

-- The last pass, if there is a URL: the query is that of the ledger.
abbrev pub opt_drift :
    Directory → Option (Result Text (List Text)) → Result CheckError (List Finding)
opt_drift dir none = ok []
opt_drift dir (some query) = check_ledger_drift dir query

-- `check`
unfoldable pub check :
    Parsers → Project → Option (Result Text (List Text)) → Result CheckError CheckReport
unfolding check_layout check_templates check_handler_sql check_migration_sql check_migration_order
    check_ledger_drift
check p project url = check_templates p project.pages >>= λ templates.
    check_handler_sql p project.pages >>= λ sql.
    check_migration_sql p project.migrations_dir >>= λ in_migrations.
    check_migration_order project.migrations_dir >>= λ in_order.
    opt_drift project.migrations_dir url >>= λ ledger. ok (record {
      layout = check_layout project.layout;
      templates = templates;
      sql = sql;
      migrations = in_migrations ++ in_order;
      ledger = ledger;
    })
