-- ===== src/Push/Gate.antt =====
-- crates/pg_web_cli/src/push.rs: `pending_migrations` and the gate that `push_with_options` puts in
-- front of its transaction.
use pg_web.Common.{not, List, [], ◌∷◌, if◌then◌else◌, Text, codes, map}
use pg_web.Common.Result.{Result, ok, err, ◌>>=◌}
use pg_web.Migrate.{MigrateError, MigrateSummary, Ledger, discover, pending, apply}
use pg_web.Push.Database.{Tables, PushError, failed, pending_migrations}
use pg_web.Push.Transaction.{PushOptions, App}

-- `pending_migrations`
abbrev pending_of : List (Text × Text) → Result Text (List Text) → Result PushError (List Text)
pending_of [] names = ok []
pending_of (f ∷ files) (err e) = err (failed (codes "reading pgweb.migrations") e)
pending_of (f ∷ files) (ok applied) = ok (pending (map (λ f. f.0) (f ∷ files)) applied)

abbrev or_undiscovered : {A : Type 0} → Result MigrateError A → Result PushError A
or_undiscovered (err e) = err (failed (codes "migrations/") [])
or_undiscovered (ok a) = ok a

unfoldable pub find_pending :
    {Server : Type 0} → Ledger (Tables Server) → App → Tables Server → Result PushError (List Text)
find_pending l app db =
    if not app.has_migrations
    then ok []
    else (or_undiscovered (discover app.migration_files) >>= λ files. pending_of files (l.names db))

abbrev applied_of :
    {Server : Type 0}
    → Result MigrateError MigrateSummary × Tables Server
    → Result PushError (List Text) × Tables Server
applied_of (err e, db) = (err (failed (codes "applying pending migrations") []), db)
applied_of (ok s, db) = (ok s.applied, db)

-- The gate: the names of the migrations that were, or would be, applied.
unfoldable pub gate :
    {Server : Type 0}
    → Ledger (Tables Server)
    → PushOptions
    → App
    → Result PushError (List Text)
    → Tables Server
    → Result PushError (List Text) × Tables Server
gate l opts app (err e) db = (err e, db)
gate l opts app (ok []) db = (ok [], db)
gate l opts app (ok (n ∷ names)) db =
    if not opts.with_migrate
    then (err (pending_migrations (n ∷ names)), db)
    else if opts.dry_run
    then (ok (n ∷ names), db)
    else applied_of (apply l app.has_migrations app.migration_files db)
