-- ===== src/Tests/Migrate.antt =====
-- A run of two migrations, one of them applied before, over a ledger that is a list of names.
use pg_web.Common.{same, if◌then◌else◌, inl, inr, ◌≡◌, refl, true, List, [], ◌∷◌, Text, codes, ap}
use pg_web.Common.Result.{Result, ok}
use pg_web.Migrate.{MigrationFile, Ledger, apply, discover}
use pg_web.Migrate.Applying.{IsLedger, apply_twice}

-- SQL that is "DROP" empties the ledger.
abbrev names_ledger : Ledger (List Text)
names_ledger = record {
  names = λ db. ok db;
  execute = λ sql db. ok (if same sql (codes "DROP") then [] else db);
  record_name = λ name db. ok (name ∷ db);
  commit = λ name db. ok db;
}

abbrev two_files : List MigrationFile
two_files =
    record { name = codes "2.sql"; content = ok (codes "B") }
    ∷ record { name = codes "1.sql"; content = ok (codes "A") }
    ∷ []

abbrev found_files : List (Text × Text)
found_files = (codes "1.sql", codes "A") ∷ (codes "2.sql", codes "B") ∷ []

found_two : discover two_files ≡ ok found_files
unfolding discover pg_web.Common.Result.collect pg_web.Common.rsplit_once pg_web.Common.same
    pg_web.Common.Sort.sort_by pg_web.Common.compare_text
found_two = refl

applied_two : apply names_ledger true two_files (codes "1.sql" ∷ []) ≡ (
  ok (record { applied = codes "2.sql" ∷ []; skipped = codes "1.sql" ∷ [] }),
  codes "2.sql" ∷ codes "1.sql" ∷ [],
)
unfolding apply pg_web.Common.Result.collect pg_web.Common.rsplit_once pg_web.Common.same
    pg_web.Common.Sort.sort_by pg_web.Common.compare_text
applied_two = refl

kept_names :
    (ns db db' : List Text)
    → ◌≡◌ {A = Result Text (List Text)} (ok db) (ok ns)
    → ◌≡◌ {A = Result Text (List Text)} (ok db) (ok db')
    → ◌≡◌ {A = Result Text (List Text)} (ok db') (ok ns)
kept_names ns db db' is ran = cc

names_ledger-IsLedger : IsLedger names_ledger found_files
unfolding same
names_ledger-IsLedger = record {
  names-execute = λ name sql ns db db' i is ran. elim i [
    | inl first ↦ (ns, kept_names ns db db' is (rw (ap (λ p. p.1) first) at ran), λ n. refl)
    | inr (inl second) ↦ (ns, kept_names ns db db' is (rw (ap (λ p. p.1) second) at ran), λ n. refl)
    | inr (inr nowhere) ↦ absurd nowhere
  ];
  names-record_name = λ n ns db db' is e.
      let before : db ≡ ns = cc in
      (n ∷ ns, kept_names (n ∷ ns) (n ∷ db) db' (ap (λ x. ok (n ∷ x)) before) e, λ m. refl);
  names-commit = λ n ns db db' is e. (ns, kept_names ns db db' is e, λ m. refl);
}

apply_twice_example : apply names_ledger true two_files (codes "2.sql" ∷ codes "1.sql" ∷ []) ≡ (
  ok (record { applied = []; skipped = codes "1.sql" ∷ codes "2.sql" ∷ [] }),
  codes "2.sql" ∷ codes "1.sql" ∷ [],
)
apply_twice_example =
    apply_twice names_ledger true two_files _ _ (codes "1.sql" ∷ [])
      (codes "2.sql" ∷ codes "1.sql" ∷ []) names_ledger-IsLedger found_two applied_two
