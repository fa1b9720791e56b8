-- ===== src/Check/Whole.antt =====
-- What a clean report of `check` of crates/pg_web_cli/src/check.rs says of the project.
use pg_web.Common.{
  ◌≡◌, inl, inr, refl, sym, ap, ◌∙◌, ==_iff, true, List, [], ◌∷◌, ◌++◌, Option, none, some, Text,
  codes, length, IsIn, Bool-cases, arith,
}
use pg_web.Common.Result.{Result, ok, err, bind-eq-ok}
use pg_web.Migrate.{MigrationFile, extension, is_ext, contains_name}
use pg_web.Check.Clean.{prefixes, no_repeat, order_loop-clean, drift-clean}
use pg_web.Check.Passes.{
  Finding, Message, bad_template, bad_sql, CheckReport, Parsers, Directory, Project, total,
  is_clean, check_files, check_directory, read_content, or_unread, finding_of,
  validate_sql_with_tolerant_comments, check_layout, check_templates, check_handler_sql,
  check_migration_sql, local_names, check_migration_order, check_ledger_drift, opt_drift,
  order_loop, drift, check,
}

-- Every file with the extension can be read and passes the test.
abbrev pub IsPassed : Text → (Text → Option Text) → List MigrationFile → Type 0
IsPassed ext test files =
    (f : MigrationFile)
    → IsIn f files
    → is_ext ext (extension f.name) ≡ true
    → (content : Text) × (f.content ≡ ok content) × (test content ≡ none)

abbrev pub InDirectory : (List MigrationFile → Type 0) → Directory → Type 0
InDirectory P none = Unit
InDirectory P (some files) = P files

no_finding :
    (path : Text) (message : Text → Message) (o : Option Text) (later : List Finding)
    → finding_of path message o ++ later ≡ []
    → (o ≡ none) × (later ≡ [])
no_finding path message none later e = (refl, e)
no_finding path message (some m) later e = cc

or_unread-ok :
    (name : Text) (r : Result Text Text) (content : Text)
    → or_unread name r ≡ ok content
    → r ≡ ok content
or_unread-ok name (err e) content h = cc
or_unread-ok name (ok t) content h = cc

check_files-IsPassed :
    (ext : Text) (message : Text → Message) (test : Text → Option Text) (files : List MigrationFile)
    → check_files ext message test files ≡ ok []
    → IsPassed ext test files
unfolding check_files
check_files-IsPassed ext message test [] h f i is = absurd i
check_files-IsPassed ext message test (x ∷ files) h f i is =
    elim (Bool-cases (is_ext ext (extension x.name))) [
      | inl it ↦
          let (content, reads, h1) = bind-eq-ok (read_content x) _ (rw it at h) in
          let (later, checked, h2) = bind-eq-ok (check_files ext message test files) _ h1 in
          let (passes, no_later) = no_finding x.name message (test content) later cc in
          elim i [
            | inl here ↦ rw here (content, or_unread-ok x.name x.content content reads, passes)
            | inr there ↦
                check_files-IsPassed ext message test files (checked ∙ ap (λ l. ok l) no_later) f
                  there is
          ]
      | inr other ↦ elim i [
        | inl here ↦ let it = rw here at is in cc
        | inr there ↦ check_files-IsPassed ext message test files (rw other at h) f there is
      ]
    ]

check_directory-IsPassed :
    (ext : Text) (message : Text → Message) (test : Text → Option Text) (dir : Directory)
    → check_directory ext message test dir ≡ ok []
    → InDirectory (IsPassed ext test) dir
check_directory-IsPassed ext message test none h = tt
check_directory-IsPassed ext message test (some files) h =
    check_files-IsPassed ext message test files h

-- A clean report: the layout was scanned without an error, every template and every SQL file passed
-- its parser, the prefixes of the migrations differ, and the ledger, if asked, has the same names.
pub record IsClean (p : Parsers) (project : Project) (url : Option (Result Text (List Text)))
    : Type 0 where
  pub layout : check_layout project.layout ≡ []
  pub templates : InDirectory (IsPassed (codes "html") p.tera_error) project.pages
  pub handlers :
      InDirectory
        (IsPassed (codes "sql") (validate_sql_with_tolerant_comments p.sql_error))
        project.pages
  pub in_migrations :
      InDirectory
        (IsPassed (codes "sql") (validate_sql_with_tolerant_comments p.sql_error))
        project.migrations_dir
  pub order :
      (names : List Text) × (local_names project.migrations_dir ≡ ok names)
      × (no_repeat (prefixes names) ≡ true)
  pub in_ledger :
      (applied : List Text)
      → url ≡ some (ok applied)
      → (names : List Text) × (local_names project.migrations_dir ≡ ok names)
        × ((n : Text) → contains_name n names ≡ contains_name n applied)

length-zero : {A : Type 0} (xs : List A) → length xs ≡ 0 → xs ≡ []
length-zero [] e = refl
length-zero (x ∷ xs) e = absurd (omega arith)

append-nils : {A : Type 0} (xs ys : List A) → xs ++ ys ≡ [] → (xs ≡ []) × (ys ≡ [])
append-nils [] ys e = (refl, e)
append-nils (x ∷ xs) ys e = cc

drift_part :
    (dir : Directory) (url : Option (Result Text (List Text))) (applied : List Text)
    → opt_drift dir url ≡ ok []
    → url ≡ some (ok applied)
    → (names : List Text) × (local_names dir ≡ ok names)
      × ((n : Text) → contains_name n names ≡ contains_name n applied)
unfolding check_ledger_drift
drift_part dir none applied h is = cc
drift_part dir (some (err e)) applied h is = cc
drift_part dir (some (ok ledger)) applied h is =
    let (names, found, h1) = bind-eq-ok (local_names dir) _ h in
    let nothing : drift names ledger ≡ [] = cc in
    let same_ledger : ledger ≡ applied = cc in
    (names, found, rw (sym same_ledger) ((drift-clean names ledger).0 nothing))

-- The parts of a report without findings.
record Nothing (r : CheckReport) : Type 0 where
  layout : r.layout ≡ []
  templates : r.templates ≡ []
  sql : r.sql ≡ []
  migrations : r.migrations ≡ []
  ledger : r.ledger ≡ []

is_clean-Nothing : (r : CheckReport) → is_clean r ≡ true → Nothing r
unfolding is_clean
is_clean-Nothing r h =
    let none_at_all : total r ≡ 0 = (==_iff (total r) 0).0 h in
    record {
      layout = length-zero r.layout (omega (arith, none_at_all));
      templates = length-zero r.templates (omega (arith, none_at_all));
      sql = length-zero r.sql (omega (arith, none_at_all));
      migrations = length-zero r.migrations (omega (arith, none_at_all));
      ledger = length-zero r.ledger (omega (arith, none_at_all));
    }

order_part :
    (dir : Directory)
    → check_migration_order dir ≡ ok []
    → (names : List Text) × (local_names dir ≡ ok names) × (no_repeat (prefixes names) ≡ true)
unfolding check_migration_order
order_part dir h =
    let (names, found, h1) = bind-eq-ok (local_names dir) _ h in
    let nothing : order_loop [] names ≡ [] = cc in
    (names, found, (order_loop-clean names).0 nothing)

all_parts :
    (p : Parsers) (project : Project) (url : Option (Result Text (List Text)))
    (templates sql in_migrations in_order drifted : List Finding) (report : CheckReport)
    → check_templates p project.pages ≡ ok templates
    → check_handler_sql p project.pages ≡ ok sql
    → check_migration_sql p project.migrations_dir ≡ ok in_migrations
    → check_migration_order project.migrations_dir ≡ ok in_order
    → opt_drift project.migrations_dir url ≡ ok drifted
    → report ≡ record {
      layout = check_layout project.layout;
      templates = templates;
      sql = sql;
      migrations = in_migrations ++ in_order;
      ledger = drifted;
    }
    → Nothing report
    → IsClean p project url
unfolding check_templates check_handler_sql check_migration_sql
all_parts p project url templates sql in_migrations in_order drifted report h1 h2 h3 h4 h5 is n =
    let both =
      append-nils in_migrations in_order (sym (ap (λ r. r.migrations) is) ∙ n.migrations) in
    let no_templates = sym (ap (λ r. r.templates) is) ∙ n.templates in
    let no_sql = sym (ap (λ r. r.sql) is) ∙ n.sql in
    let no_drift = sym (ap (λ r. r.ledger) is) ∙ n.ledger in
    record {
      layout = sym (ap (λ r. r.layout) is) ∙ n.layout;
      templates =
          check_directory-IsPassed (codes "html") bad_template p.tera_error project.pages
            (h1 ∙ ap (λ l. ok l) no_templates);
      handlers =
          check_directory-IsPassed (codes "sql") bad_sql
            (validate_sql_with_tolerant_comments p.sql_error) project.pages
            (h2 ∙ ap (λ l. ok l) no_sql);
      in_migrations =
          check_directory-IsPassed (codes "sql") bad_sql
            (validate_sql_with_tolerant_comments p.sql_error) project.migrations_dir
            (h3 ∙ ap (λ l. ok l) both.0);
      order = order_part project.migrations_dir (h4 ∙ ap (λ l. ok l) both.1);
      in_ledger = λ applied is_url.
          drift_part project.migrations_dir url applied (h5 ∙ ap (λ l. ok l) no_drift) is_url;
    }

-- If `check` returns a clean report, the project is what the record `IsClean` says.
pub check-IsClean :
    (p : Parsers) (project : Project) (url : Option (Result Text (List Text)))
    (report : CheckReport)
    → check p project url ≡ ok report
    → is_clean report ≡ true
    → IsClean p project url
unfolding check
check-IsClean p project url report h clean =
    let (templates, h_templates, h1) = bind-eq-ok (check_templates p project.pages) _ h in
    let (sql, h_sql, h2) = bind-eq-ok (check_handler_sql p project.pages) _ h1 in
    let (in_migrations, h_migrations, h3) =
      bind-eq-ok (check_migration_sql p project.migrations_dir) _ h2 in
    let (in_order, h_order, h4) = bind-eq-ok (check_migration_order project.migrations_dir) _ h3 in
    let (drifted, h_drift, h5) = bind-eq-ok (opt_drift project.migrations_dir url) _ h4 in
    all_parts p project url templates sql in_migrations in_order drifted report h_templates h_sql
      h_migrations h_order h_drift (sym (ok_parts h5)) (is_clean-Nothing report clean)
  where
    ok_parts : {E A : Type 0} {a b : A} → ◌≡◌ {A = Result E A} (ok a) (ok b) → a ≡ b
    ok_parts e = cc
