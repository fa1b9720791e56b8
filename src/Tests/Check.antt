-- ===== src/Tests/Check.antt =====
-- A check of a small project.
use pg_web.Common.{◌≡◌, ◌↔◌, refl, List, [], ◌∷◌, none, some, Text, codes, arith, false}
use pg_web.Common.Result.{ok}
use pg_web.Migrate.{contains_name}
use pg_web.Check.Splitter.{split_buffers}
use pg_web.Check.Passes.{Parsers, Project, CheckReport, check, drift, is_clean}
use pg_web.Check.Pieces.{joined, IsTerminated, split_buffers-pieces}
use pg_web.Check.Quotes.{outside, cut_from, split_buffers-cut}
use pg_web.Check.Clean.{drift-clean}
use pg_web.Check.Whole.{IsClean, check-IsClean}

split_buffers-pieces_example :
    (joined (split_buffers (codes "$$;$$;")) ≡ codes "$$;$$;")
    × IsTerminated (split_buffers (codes "$$;$$;"))
split_buffers-pieces_example =
    split_buffers-pieces (codes "$$;$$;")
      (omega arith, (omega arith, (omega arith, (omega arith, (omega arith, (omega arith, tt))))))

split_buffers-cut_example :
    split_buffers (codes "';''';a;") ≡ cut_from outside [] (codes "';''';a;")
split_buffers-cut_example =
    split_buffers-cut (codes "';''';a;")
      (refl, (refl, (refl, (refl, (refl, (refl, (refl, (refl, tt))))))))

cut_two : cut_from outside [] (codes "';''';a;") ≡ codes "';''';" ∷ codes "a;" ∷ [] ∷ []
unfolding cut_from
cut_two = refl

drift-clean_example :
    (drift (codes "1_a.sql" ∷ []) [] ≡ [])
    ↔ ((n : Text) → contains_name n (codes "1_a.sql" ∷ []) ≡ contains_name n [])
drift-clean_example = drift-clean (codes "1_a.sql" ∷ []) []

abbrev lenient : Parsers
lenient = record { tera_error = λ source. none; sql_error = λ sql. none }

abbrev small_project : Project
small_project = record {
  layout = some (ok []);
  pages = some (record { name = codes "index.html"; content = ok (codes "hi") } ∷ []);
  migrations_dir = some (record { name = codes "1_a.sql"; content = ok (codes "select 1;") } ∷ []);
}

abbrev no_findings : CheckReport
no_findings = record { layout = []; templates = []; sql = []; migrations = []; ledger = [] }

checked : check lenient small_project (some (ok (codes "1_a.sql" ∷ []))) ≡ ok no_findings
unfolding check pg_web.Common.rsplit_once pg_web.Common.same pg_web.Common.Result.collect
    pg_web.Check.Splitter.split_from pg_web.Common.Sort.sort_by pg_web.Common.starts_with
    pg_web.Common.to_ascii_lowercase pg_web.Common.split_once pg_web.Common.Table.find
checked = refl

check-IsClean_example : IsClean lenient small_project (some (ok (codes "1_a.sql" ∷ [])))
unfolding is_clean
check-IsClean_example =
    check-IsClean lenient small_project (some (ok (codes "1_a.sql" ∷ []))) no_findings checked refl
