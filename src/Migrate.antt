-- ===== src/Migrate.antt =====
-- crates/pg_web_cli/src/migrate.rs: `discover`, `pending` and `apply`. The files of the directory,
-- their contents and the execution of their SQL are parameters; the ledger pgweb.migrations is the
-- list of its names.
pub mod Applying
use pg_web.Common.{
  ℕ, ◌≡◌, refl, ◌||◌, not, Bool, true, false, List, [], ◌∷◌, ◌++◌, Option, none, some,
  if◌then◌else◌, Text, codes, same, any, filter, map, rsplit_once, is_empty, compare_text, Ordering,
}
use pg_web.Common.Result.{Result, ok, err, ◌>>=◌, collect}
use pg_web.Common.Sort.{sort_by}

-- A regular file of migrations/: its name, and its text if it can be read.
pub record MigrationFile : Type 0 where
  pub name : Text
  pub content : Result Text Text

pub data MigrateError : Type 0 where
  no_directory : MigrateError
  unreadable : Text → Text → MigrateError
  failed : Text → Text → MigrateError

-- `path.extension()`: what stands behind the last dot of a name that does not start there.
abbrev pub ext_of : Option (Text × Text) → Option Text
ext_of none = none
ext_of (some (stem, ext)) = if is_empty stem then none else some ext

unfoldable pub extension : Text → Option Text
extension name = ext_of (rsplit_once b'.' name)

abbrev pub is_ext : Text → Option Text → Bool
is_ext e none = false
is_ext e (some x) = same x e

abbrev read_file : MigrationFile → Result MigrateError (Text × Text)
read_file f = elim f.content [ err e ↦ err (unreadable f.name e) | ok sql ↦ ok (f.name, sql) ]

abbrev pub leb_name : Text × Text → Text × Text → Bool
leb_name a b = elim (compare_text a.0 b.0) [ Ordering.gt ↦ false | _ ↦ true ]

abbrev sorted : Result MigrateError (List (Text × Text)) → Result MigrateError (List (Text × Text))
sorted (err e) = err e
sorted (ok out) = ok (sort_by leb_name out)

-- `discover`
unfoldable pub discover : List MigrationFile → Result MigrateError (List (Text × Text))
unfolding extension
discover files =
    sorted (collect read_file (filter (λ f. is_ext (codes "sql") (extension f.name)) files))

-- `HashSet::contains`
abbrev pub contains_name : Text → List Text → Bool
contains_name n names = any (same n) names

-- `pending`
unfoldable pub pending : List Text → List Text → List Text
pending all applied = filter (λ n. not (contains_name n applied)) all

pub record MigrateSummary : Type 0 where
  pub applied : List Text
  pub skipped : List Text

-- The database and its ledger. A transaction that fails leaves no trace.
pub record Ledger (Db : Type 0) : Type 0 where
  pub names : Db → Result Text (List Text)
  -- the file's SQL, the row of the ledger and the commit, in one transaction
  pub execute : Text → Db → Result Text Db
  pub record_name : Text → Db → Result Text Db
  pub commit : Text → Db → Result Text Db

module _ {Db : Type 0} (l : Ledger Db) where
  -- One file's transaction: its end, or the error with the database as it was.
  unfoldable pub apply_file : Text → Text → Db → Result Text Db
  apply_file name sql db =
      l.execute sql db >>= λ db1. l.record_name name db1 >>= λ db2. l.commit name db2

  abbrev skip : Text → MigrateSummary → MigrateSummary
  skip n s = record s { skipped = s.skipped ++ n ∷ [] }

  abbrev count : Text → MigrateSummary → MigrateSummary
  count n s = record s { applied = s.applied ++ n ∷ [] }

  -- What the loop does with the end of one file's transaction.
  abbrev after_file :
      Text
      → (Db → Result MigrateError MigrateSummary × Db)
      → Db
      → Result Text Db
      → Result MigrateError MigrateSummary × Db
  after_file name next db (err e) = (err (failed name e), db)
  after_file name next db (ok db') = next db'

  -- The loop of `apply`, over the names that were in the ledger before it.
  unfoldable pub apply_all :
      List Text → List (Text × Text) → MigrateSummary → Db → Result MigrateError MigrateSummary × Db
  unfolding apply_file
  apply_all done [] s db = (ok s, db)
  apply_all done ((name, sql) ∷ files) s db =
      if contains_name name done
      then apply_all done files (skip name s) db
      else after_file name (apply_all done files (count name s)) db (apply_file name sql db)

  abbrev apply_from :
      List (Text × Text) → Result Text (List Text) → Db → Result MigrateError MigrateSummary × Db
  apply_from files (err e) db = (err (failed (codes "pgweb.migrations") e), db)
  apply_from files (ok done) db = apply_all done files (record { applied = []; skipped = [] }) db

  abbrev apply_discovered :
      Result MigrateError (List (Text × Text)) → Db → Result MigrateError MigrateSummary × Db
  apply_discovered (err e) db = (err e, db)
  apply_discovered (ok files) db = apply_from files (l.names db) db

  -- `apply`
  unfoldable pub apply : Bool → List MigrationFile → Db → Result MigrateError MigrateSummary × Db
  unfolding discover apply_all
  apply is_dir files db =
      if is_dir then apply_discovered (discover files) db else (err no_directory, db)
