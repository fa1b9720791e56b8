-- ===== src/Migrate/Applying.antt =====
-- What `apply` of crates/pg_web_cli/src/migrate.rs leaves in the ledger.
use pg_web.Common.{
  same, ◌||◌, IsIn, ◌≡◌, refl, ap, sym, ◌∙◌, Bool, true, false, List, [], ◌∷◌, ◌++◌, Text,
  same_refl, map, All, arith, Bool-cases, inl, inr,
}
use mathlib.Core.List.{append_assoc, append-nil}
use pg_web.Common.Result.{Result, ok, err, bind-eq-ok}
use pg_web.Migrate.{
  MigrationFile, MigrateSummary, Ledger, contains_name, discover, apply_file, skip, count,
  after_file, apply_all, apply_from, apply,
}

-- What the proof takes of the ledger, as a set of names: the SQL of these files, a condition on the
-- application, and the commit leave it alone, and the insertion adds its name. The order in which
-- its names are read is open.
abbrev SameNames : List Text → List Text → Type 0
SameNames ns ms = (n : Text) → contains_name n ns ≡ contains_name n ms

pub record IsLedger {Db : Type 0} (l : Ledger Db) (files : List (Text × Text)) : Type 0 where
  pub names-execute :
      (name sql : Text) (ns : List Text) (db db' : Db)
      → IsIn (name, sql) files
      → l.names db ≡ ok ns
      → l.execute sql db ≡ ok db'
      → (ms : List Text) × (l.names db' ≡ ok ms) × SameNames ms ns
  pub names-record_name :
      (n : Text) (ns : List Text) (db db' : Db)
      → l.names db ≡ ok ns
      → l.record_name n db ≡ ok db'
      → (ms : List Text) × (l.names db' ≡ ok ms) × SameNames ms (n ∷ ns)
  pub names-commit :
      (n : Text) (ns : List Text) (db db' : Db)
      → l.names db ≡ ok ns
      → l.commit n db ≡ ok db'
      → (ms : List Text) × (l.names db' ≡ ok ms) × SameNames ms ns

-- Every name of the first list is in the second.
abbrev Within : List Text → List Text → Type 0
Within ns ms = (n : Text) → contains_name n ns ≡ true → contains_name n ms ≡ true

Within-cons : (m : Text) (ns : List Text) → Within ns (m ∷ ns)
Within-cons m ns n h = ground arith

abbrev Listed : List Text → List (Text × Text) → Type 0
Listed ns files = All (λ f. contains_name f.0 ns ≡ true) files

module _ {Db : Type 0} (l : Ledger Db) where
  skip_all :
      (ns : List Text) (files : List (Text × Text)) (s : MigrateSummary) (db : Db)
      → Listed ns files
      → apply_all l ns files s db
        ≡ (ok (record s { skipped = s.skipped ++ map (λ f. f.0) files }), db)
  unfolding apply_all
  skip_all ns [] s db h = ap (λ x. (ok (record s { skipped = x }), db)) (sym (append-nil s.skipped))
  skip_all ns ((name, sql) ∷ files) s db (here, later) = rw here (
      skip_all ns files (skip l name s) db later
      ∙ ap (λ x. (ok (record s { skipped = x }), db))
          (append_assoc s.skipped (name ∷ []) (map (λ f. f.0) files)))

  module _ (all : List (Text × Text)) (laws : IsLedger l all) where
    apply_file-names :
        (name sql : Text) (ns : List Text) (db db' : Db)
        → IsIn (name, sql) all
        → l.names db ≡ ok ns
        → apply_file l name sql db ≡ ok db'
        → (ms : List Text) × (l.names db' ≡ ok ms) × SameNames ms (name ∷ ns)
    unfolding apply_file
    apply_file-names name sql ns db db' i e run =
        let (db1, ran, rest) = bind-eq-ok (l.execute sql db) _ run in
        let (db2, recorded, ended) = bind-eq-ok (l.record_name name db1) _ rest in
        let (ns1, is1, same1) = laws.names-execute name sql ns db db1 i e ran in
        let (ns2, is2, same2) = laws.names-record_name name ns1 db1 db2 is1 recorded in
        let (ns3, is3, same3) = laws.names-commit name ns2 db2 db' is2 ended in
        (ns3, is3, λ n. same3 n ∙ (same2 n ∙ ap (λ x. same n name || x) (same1 n)))

    -- The ledger behind a run that succeeds holds what it held and the names of all the files.
    apply_all-names :
        (done ns : List Text) (files : List (Text × Text)) (s s' : MigrateSummary) (db db' : Db)
        → ((f : Text × Text) → IsIn f files → IsIn f all)
        → l.names db ≡ ok ns
        → Within done ns
        → apply_all l done files s db ≡ (ok s', db')
        → (ms : List Text) × (l.names db' ≡ ok ms) × Within ns ms × Listed ms files
    unfolding apply_all
    apply_all-names done ns [] s s' db db' sub e w run =
        (ns, ap l.names (sym (ap (λ p. p.1) run)) ∙ e, (λ n h. h), tt)
    apply_all-names done ns ((name, sql) ∷ files) s s' db db' sub e w run =
        elim (Bool-cases (contains_name name done)) [
          | inl there ↦
              let (ms, is, up, listed) =
                apply_all-names done ns files (skip l name s) s' db db' (λ f i. sub f (inr i)) e w
                  (rw there at run) in
              (ms, is, up, (up name (w name there), listed))
          | inr new ↦ go (apply_file l name sql db) refl (rw new at run) (λ ns1 db1 e1 more run1.
              apply_all-names done ns1 files (count l name s) s' db1 db' (λ f i. sub f (inr i)) e1
                (λ n h. more n (Within-cons name ns n (w n h))) run1)
        ]
      where
        go :
            (r : Result Text Db)
            → apply_file l name sql db ≡ r
            → after_file l name (apply_all l done files (count l name s)) db r ≡ (ok s', db')
            → ((ns1 : List Text) (db1 : Db)
                → l.names db1 ≡ ok ns1
                → Within (name ∷ ns) ns1
                → apply_all l done files (count l name s) db1 ≡ (ok s', db')
                → (ms : List Text) × (l.names db' ≡ ok ms) × Within ns1 ms × Listed ms files)
            → (ms : List Text) × (l.names db' ≡ ok ms)
              × Within ns ms
              × Listed ms ((name, sql) ∷ files)
        go (err x) is run next = cc
        go (ok db1) is run next =
            let (ns1, e1, same_names) =
              apply_file-names name sql ns db db1 (sub (name, sql) (inl refl)) e is in
            let more : Within (name ∷ ns) ns1 = λ n h. same_names n ∙ h in
            let (ms, ledger, up, listed) = next ns1 db1 e1 more run in
            (
              ms,
              ledger,
              (λ n h. up n (more n (Within-cons name ns n h))),
              (up name (more name (ground (arith, same_refl name))), listed),
            )

  -- Applying is idempotent, if no file's own SQL changes which names the ledger holds and recording a
  -- name adds it: a second run behind one that succeeded executes nothing, leaves the database as it
  -- is and skips every file.
  pub apply_twice :
      (is_dir : Bool) (files : List MigrationFile) (found : List (Text × Text)) (s : MigrateSummary)
      (db db' : Db)
      → IsLedger l found
      → discover files ≡ ok found
      → apply l is_dir files db ≡ (ok s, db')
      → apply l is_dir files db'
        ≡ (ok (record { applied = []; skipped = map (λ f. f.0) found }), db')
  unfolding apply
  apply_twice false files found s db db' laws discovered run = cc
  apply_twice true files found s db db' laws discovered run =
      rw discovered (go (l.names db) refl (rw discovered at run))
    where
      go :
          (r : Result Text (List Text))
          → l.names db ≡ r
          → apply_from l found r db ≡ (ok s, db')
          → apply_from l found (l.names db') db'
            ≡ (ok (record { applied = []; skipped = map (λ f. f.0) found }), db')
      go (err e) is run = cc
      go (ok done) is run =
          let (ms, ledger, _, listed) =
            apply_all-names found laws done done found (record { applied = []; skipped = [] }) s db
              db' (λ f i. i) is (λ n h. h) run in
          rw ledger (skip_all ms found (record { applied = []; skipped = [] }) db' listed)
