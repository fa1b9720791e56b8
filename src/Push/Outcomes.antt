-- ===== src/Push/Outcomes.antt =====
-- `push_with_options` of crates/pg_web_cli/src/push.rs as a whole: its end, a failure, and what a
-- success leaves.
use mathlib.Core.Path.{subst}
use pg_web.Common.{
  inl, inr, ◌⊎◌, ◌≡◌, refl, sym, ap, ◌∙◌, true, false, List, Option, none, some, Text, arith,
}
use pg_web.Common.Result.{Result, ok, err}
use pg_web.Migrate.{Ledger}
use pg_web.Retry.{with_retry_inner_total}
use pg_web.Retry.Last.{at_once, EndsWith}
use pg_web.Push.Database.{Tables, PushSummary, PushError, Postgres, empty_summary, gave_up}
use pg_web.Push.Entries.{Files}
use pg_web.Push.Assets.{AssetLibrary}
use pg_web.Push.Transaction.{PushOptions, App, Plan, attempt}
use pg_web.Push.Gate.{find_pending, gate}
use pg_web.Push.Run.{
  Source, read_source, plan_of, completed, finished, push_gated, connected, push_source, Retries,
  max_attempts, with_retry, push_with_options,
}
use pg_web.Push.Atomic.{attempt-dry_run, attempt-committed}
use pg_web.Push.View.{view, KeepsView, deployed}
use pg_web.Push.Effects.{Shows}
use pg_web.Push.Refines.{push_tx-deployed}
use pg_web.Push.Safe.{
  Elapsed, Trail, here, gate-same, Attempts-dry, Attempts-Trail, Trail-failed, Trail-then, Outcome,
  early, at_gate, ran, push-Outcome,
}

module _ {Server : Type 0} (pg : Postgres Server) where
  -- An attempt that commits leaves the tables that `deployed` describes, if the SQL of its pages
  -- writes none of them.
  pub attempt-deployed :
      (files : Files) (p : Plan) (db : Tables Server) (s : PushSummary)
      → KeepsView pg files p.entries
      → (attempt pg files false p db).0 ≡ ok s
      → view (attempt pg files false p db).1 ≡ deployed files p (view db)
  attempt-deployed files p db s keeps h =
      let (tx, pushed, is) = attempt-committed pg files p db s h in
      ap view is
      ∙ subst (Shows (deployed files p (view db))) pushed
          (push_tx-deployed pg files p keeps (db, empty_summary))

  module _ (l : Ledger (Tables Server)) (retries : Retries Server) (files : Files)
      (lib : AssetLibrary) where
    push_total :
        (app : App) (opts : PushOptions) (db : Tables Server)
        → (r : Result PushError PushSummary) × (db' : Tables Server) × (push_with_options pg l
              retries files lib app opts db
            ≡ some (r, db'))
    unfolding push_with_options with_retry
    push_total app opts db = at_source (read_source files lib app)
      where
        at_gated :
            (src : Source) (g : Result PushError (List Text) × Tables Server)
            → (r : Result PushError PushSummary) × (db' : Tables Server) × (push_gated pg l retries
                  files lib opts app.host src g
                ≡ some (r, db'))
        at_gated src (err e, mid) = (err e, mid, refl)
        at_gated src (ok names, mid) =
            let p = plan_of lib app.host src names in
            let (r, db', is) =
              with_retry_inner_total (attempt pg files opts.dry_run p) retries.is_retryable
                retries.default_sleep (λ n e. gave_up e) max_attempts mid in
            (completed opts names r, db', ap (finished pg l retries files lib opts names) is)

        at_connect :
            (src : Source) (fault : Option Text)
            → (r : Result PushError PushSummary) × (db' : Tables Server) × (connected pg l retries
                  files lib opts app src db fault
                ≡ some (r, db'))
        at_connect src (some e) = (_, db, refl)
        at_connect src none = at_gated src _

        at_source :
            (s : Result PushError Source)
            → (r : Result PushError PushSummary) × (db' : Tables Server) × (push_source pg l retries
                  files lib opts app s db
                ≡ some (r, db'))
        at_source (err e) = (err e, db, refl)
        at_source (ok src) = at_connect src (pg.fault _ db)

    ends_dry :
        (p : Plan) (last db' : Tables Server) (r : Result PushError PushSummary)
        → EndsWith (attempt pg files true p last) r db'
        → db' ≡ last
    ends_dry p last db' (ok s) ends = sym (ap (λ c. c.1) ends) ∙ attempt-dry_run pg files p last
    ends_dry p last db' (err e) (e', ends) =
        sym (ap (λ c. c.1) ends) ∙ attempt-dry_run pg files p last

    -- A push of a dry run only waits.
    waited_dry :
        (app : App) (opts : PushOptions) (db db' : Tables Server) (r : Result PushError PushSummary)
        → opts.dry_run ≡ true
        → Outcome pg l retries files lib opts app db r db'
        → Elapsed pg l retries files lib db db'
    waited_dry app opts db db' r dry (early e is_r is_db) = rw is_db at_once
    waited_dry app opts db db' r dry (at_gate e is_r g) =
        rw (sym (ap (λ c. c.1) g) ∙ gate-same l opts app (find_pending l app db) db (rw dry refl))
          at_once
    waited_dry app opts db db' r dry (ran x) =
        let p = plan_of lib app.host x.src x.names in
        let at_mid =
          sym (ap (λ c. c.1) x.passes)
          ∙ gate-same l opts app (find_pending l app db) db (rw dry refl) in
        let same_db = ends_dry p x.last db' x.result (rw dry at x.ends) in
        rw same_db (
          subst (λ d. Elapsed pg l retries files lib d x.last) at_mid
            (Attempts-dry pg l retries files lib p (rw dry at x.elapsed)))

    -- A dry run ends, and writes nothing: the database behind it is the one before it, but for what
    -- others did while it waited between its attempts.
    pub push-dry_run :
        (app : App) (opts : PushOptions) (db : Tables Server)
        → opts.dry_run ≡ true
        → (r : Result PushError PushSummary) × (db' : Tables Server) × (push_with_options pg l
              retries files lib app opts db
            ≡ some (r, db'))
          × Elapsed pg l retries files lib db db'
    push-dry_run app opts db dry =
        let (r, db', is) = push_total app opts db in
        (
          r,
          db',
          is,
          waited_dry app opts db db' r dry
              (push-Outcome pg l retries files lib opts app db r db' is),
        )

    ends_failed :
        (opts : PushOptions) (names : List Text) (p : Plan) (last db' : Tables Server)
        (r : Result PushError PushSummary) (e : PushError)
        → err e ≡ completed opts names r
        → EndsWith (attempt pg files false p last) r db'
        → Trail pg l retries files lib p last db'
    ends_failed opts names p last db' (ok s) e is ends = cc
    ends_failed opts names p last db' (err e2) e is (e', ends) =
        Trail-failed pg l retries files lib p last db' e' (ap (λ c. c.0) ends)
          (subst (λ d. Trail pg l retries files lib p d db') (sym (ap (λ c. c.1) ends)) here)

    -- A push that fails, is no dry run and was not to apply migrations leaves no part of itself: the
    -- database is the one before it, or its sources were read, its gate passed, and the database is
    -- the one before it but for what others did while it waited and for whole transactions of its
    -- plan whose COMMIT took effect although an error was reported of it.
    pub push-failed :
        (app : App) (opts : PushOptions) (db db' : Tables Server) (e : PushError)
        → opts.dry_run ≡ false
        → opts.with_migrate ≡ false
        → push_with_options pg l retries files lib app opts db ≡ some (err e, db')
        → (db' ≡ db)
          ⊎ ((src : Source) × (names : List Text) × (read_source files lib app ≡ ok src)
              × (gate l opts app (find_pending l app db) db ≡ (ok names, db))
              × Trail pg l retries files lib (plan_of lib app.host src names) db db')
    push-failed app opts db db' e wet no_migrate is =
        go (push-Outcome pg l retries files lib opts app db (err e) db' is)
      where
        same_gate : (gate l opts app (find_pending l app db) db).1 ≡ db
        same_gate = gate-same l opts app (find_pending l app db) db (ground arith)

        go :
            Outcome pg l retries files lib opts app db (err e) db'
            → (db' ≡ db)
              ⊎ ((src : Source) × (names : List Text) × (read_source files lib app ≡ ok src)
                  × (gate l opts app (find_pending l app db) db ≡ (ok names, db))
                  × Trail pg l retries files lib (plan_of lib app.host src names) db db')
        go (early e' is_r is_db) = inl is_db
        go (at_gate e' is_r g) = inl (sym (ap (λ c. c.1) g) ∙ same_gate)
        go (ran x) =
            let p = plan_of lib app.host x.src x.names in
            let at_mid : x.mid ≡ db = sym (ap (λ c. c.1) x.passes) ∙ same_gate in
            let way : Trail pg l retries files lib p x.mid x.last =
              Attempts-Trail pg l retries files lib p (rw wet at x.elapsed) in
            let trail =
              Trail-then pg l retries files lib p way
                (ends_failed opts x.names p x.last db' x.result e x.is_result (rw wet at x.ends)) in
            inr (
              x.src,
              x.names,
              x.reads,
              x.passes ∙ ap (λ d. (ok x.names, d)) at_mid,
              subst (λ d. Trail pg l retries files lib p d db') at_mid trail,
            )
