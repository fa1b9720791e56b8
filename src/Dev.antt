-- ===== src/Dev.antt =====
-- crates/pg_web_cli/src/dev.rs: `classify`, `is_pages_sql`, `livereload_kind` and `handle_batch`. A
-- path is its text, its name and its components under the application; the file system, the hash,
-- the preflight, the push and the notification are parameters.
pub mod Batches
use pg_web.Common.{
  not, ◌||◌, ◌&&◌, Bool, true, false, List, [], ◌∷◌, ◌++◌, Option, none, some, if◌then◌else◌, Text,
  codes, same, starts_with, all, is_empty, ℕ,
}
use pg_web.Common.Result.{Result, ok, err, ◌>>=◌}
use pg_web.Common.Table.{find, upsert, delete}
use pg_web.Migrate.{extension, is_ext}

pub record WatchPath : Type 0 where
  pub path : Text
  pub file_name : Option Text
  -- `strip_prefix(app_dir)`, as its components
  pub rel : Option (List Text)

pub data Action : Type 0 where
  push : Action
  ignore : Action

unfoldable pub ends_with : Text → Text → Bool
ends_with suffix [] = is_empty suffix
ends_with suffix (c ∷ cs) = same suffix (c ∷ cs) || ends_with suffix cs

abbrev pub ext_of_name : Option Text → Option Text
ext_of_name none = none
ext_of_name (some name) = extension name

abbrev pub first_of : Option (List Text) → Option Text
first_of none = none
first_of (some []) = none
first_of (some (c ∷ cs)) = some c

abbrev pub is_editor_file : Text → Bool
is_editor_file name =
    starts_with (codes ".") name
    || ends_with (codes "~") name
    || ends_with (codes ".tmp") name
    || ends_with (codes ".new") name
    || ends_with (codes ".bak") name

abbrev pub is_under : Text → Option Text → Bool
is_under dir none = false
is_under dir (some first) = same first dir

abbrev pub push_if : Bool → Action
push_if b = if b then push else ignore

-- `classify`
unfoldable pub classify : WatchPath → Action
unfolding ends_with extension
classify p = elim p.file_name [
  | none ↦ ignore
  | some name ↦
      if is_editor_file name
      then ignore
      else if is_under (codes "pages") (first_of p.rel)
      then push_if (is_ext (codes "sql") (extension name) || is_ext (codes "html") (extension name))
      else push_if (is_under (codes "public") (first_of p.rel))
]

unfoldable pub is_pages_sql : WatchPath → Bool
unfolding extension
is_pages_sql p =
    is_under (codes "pages") (first_of p.rel) && is_ext (codes "sql") (ext_of_name p.file_name)

pub data LivereloadKind : Type 0 where
  no_reload : LivereloadKind
  css : LivereloadKind
  full : LivereloadKind

abbrev pub is_public_css : WatchPath → Bool
is_public_css p =
    is_under (codes "public") (first_of p.rel) && is_ext (codes "css") (ext_of_name p.file_name)

unfoldable pub livereload_kind : List WatchPath → LivereloadKind
unfolding extension
livereload_kind changed =
    if is_empty changed then no_reload else if all is_public_css changed then css else full

pub record Event : Type 0 where
  pub is_removal : Bool
  pub paths : List WatchPath

-- What the loop over the events keeps.
pub record Changes : Type 0 where
  pub hashes : List (Text × Text)
  pub changed_any : Bool
  pub changed_sql : List WatchPath
  pub changed_all : List WatchPath

pub record DevWorld (Db : Type 0) : Type 0 where
  pub read : Text → Result Text (List ℕ)
  pub read_to_string : Text → Result Text Text
  pub blake3 : List ℕ → Text
  pub connect : Db → Option Text
  -- the transaction of `preflight_sql` is rolled back
  pub preflight : Text → Db → Option Text
  pub push_app : Db → Option Text × Db
  pub notify_livereload : LivereloadKind → Db → Db

module _ {Db : Type 0} (w : DevWorld Db) where
  abbrev pub changed : WatchPath → Changes → Changes
  changed p c = record c { changed_any = true; changed_all = c.changed_all ++ p ∷ [] }

  abbrev pub with_sql : WatchPath → Changes → Changes
  with_sql p c = if is_pages_sql p then record c { changed_sql = c.changed_sql ++ p ∷ [] } else c

  abbrev pub same_hash : Text → Option Text → Bool
  same_hash hash none = false
  same_hash hash (some old) = same old hash

  -- A path that was read.
  abbrev pub hashed : WatchPath → Text → Changes → Changes
  hashed p hash c =
      if same_hash hash (find same p.path c.hashes)
      then c
      else with_sql p (changed p (record c { hashes = upsert same p.path hash c.hashes }))

  abbrev pub on_read : WatchPath → Result Text (List ℕ) → Changes → Changes
  on_read p (err e) c = changed p c
  on_read p (ok content) c = hashed p (w.blake3 content) c

  -- The body of the loops, for one path of an event.
  unfoldable pub on_path : Bool → WatchPath → Changes → Changes
  unfolding classify
  on_path is_removal p c = elim (classify p) [
    | ignore ↦ c
    | push ↦
        if is_removal
        then changed p (record c { hashes = delete same p.path c.hashes })
        else on_read p (w.read p.path) c
  ]

  unfoldable pub on_paths : Bool → List WatchPath → Changes → Changes
  unfolding on_path
  on_paths is_removal [] c = c
  on_paths is_removal (p ∷ paths) c = on_paths is_removal paths (on_path is_removal p c)

  unfoldable pub on_events : List Event → Changes → Changes
  unfolding on_paths
  on_events [] c = c
  on_events (e ∷ events) c = on_events events (on_paths e.is_removal e.paths c)

  -- The preflights: an error to return, or whether all of them passed.
  unfoldable pub preflights : List WatchPath → Db → Result Text Bool
  preflights [] db = ok true
  preflights (p ∷ paths) db = elim (w.read_to_string p.path) [
    | err e ↦ err e
    | ok sql ↦ elim (w.preflight sql db) [ some e ↦ ok false | none ↦ preflights paths db ]
  ]

  unfoldable pub check_sql : List WatchPath → Db → Result Text Bool
  unfolding preflights
  check_sql [] db = ok true
  check_sql (p ∷ paths) db = elim (w.connect db) [
    | some e ↦ err e
    | none ↦ preflights (p ∷ paths) db
  ]

  abbrev pub notify_kind : LivereloadKind → Db → Db
  notify_kind no_reload db = db
  notify_kind css db = w.notify_livereload css db
  notify_kind full db = w.notify_livereload full db

  abbrev pub after_push : Bool → List WatchPath → Option Text × Db → Result Text (Unit {0}) × Db
  after_push livereload paths (some e, db) = (err e, db)
  after_push livereload paths (none, db) =
      (ok tt, if livereload then notify_kind (livereload_kind paths) db else db)

  abbrev pub after_check :
      Bool → List WatchPath → Result Text Bool → Db → Result Text (Unit {0}) × Db
  after_check livereload paths (err e) db = (err e, db)
  after_check livereload paths (ok false) db = (ok tt, db)
  after_check livereload paths (ok true) db = after_push livereload paths (w.push_app db)

  abbrev pub start : List (Text × Text) → Changes
  start hashes = record { hashes = hashes; changed_any = false; changed_sql = []; changed_all = [] }

  -- `handle_batch`: its result, the database and the hashes.
  unfoldable pub handle_batch :
      List Event
      → Bool
      → List (Text × Text)
      → Db
      → (Result Text (Unit {0}) × Db) × List (Text × Text)
  unfolding on_events check_sql
  handle_batch events livereload hashes db =
      let c = on_events events (start hashes) in
      (
        if c.changed_any
            then after_check livereload c.changed_all (check_sql c.changed_sql db) db
            else (ok tt, db),
        c.hashes,
      )
