-- ===== src/Push/Atomic.antt =====
-- An attempt of crates/pg_web_cli/src/push.rs leaves all of its transaction or none of it.
use pg_web.Common.{
  ◌≡◌, refl, ◌∙◌, ◌⊎◌, inl, inr, Bool-cases, true, false, Option, none, some, Text, codes,
}
use pg_web.Common.Result.{Result, ok, err}
use pg_web.Push.Database.{Tables, PushSummary, PushError, Postgres, Tx, empty_summary}
use pg_web.Push.Entries.{Files}
use pg_web.Push.Transaction.{Plan, closed, end_tx, begin_tx, push_tx, attempt}

-- A transaction whose COMMIT took effect although its error was reported.
pub record Landed {Server : Type 0} (pg : Postgres Server) (files : Files) (p : Plan)
    (db after : Tables Server) : Type 0 where
  pub tx : Tx Server
  pub message : Text
  pub pushed : push_tx pg files p (db, empty_summary) ≡ ok tx
  pub fails : pg.fault (codes "committing") tx.0 ≡ some message
  pub took : pg.landed message tx.0 ≡ true
  pub is : after ≡ tx.0

module _ {Server : Type 0} where
  closed_same :
      (step : Text) (db : Tables Server) (s : PushSummary) (fault : Option Text)
      → (closed step (λ e. db) db s fault).1 ≡ db
  closed_same step db s (some e) = refl
  closed_same step db s none = refl

  closed_failed :
      (step : Text) (left : Text → Tables Server) (after : Tables Server) (s : PushSummary)
      (fault : Option Text) (e : PushError)
      → (closed step left after s fault).0 ≡ err e
      → (m : Text) × (fault ≡ some m) × ((closed step left after s fault).1 ≡ left m)
  closed_failed step left after s (some m) e h = (m, refl, refl)
  closed_failed step left after s none e h = cc

  closed_ok :
      (step : Text) (left : Text → Tables Server) (after : Tables Server) (s s' : PushSummary)
      (fault : Option Text)
      → (closed step left after s fault).0 ≡ ok s'
      → (closed step left after s fault).1 ≡ after
  closed_ok step left after s s' (some m) h = cc
  closed_ok step left after s s' none h = refl

  module _ (pg : Postgres Server) where
    end_tx_dry :
        (db : Tables Server) (r : Result PushError (Tx Server)) → (end_tx pg true db r).1 ≡ db
    end_tx_dry db (err e) = refl
    end_tx_dry db (ok (after, s)) = closed_same (codes "rolling back") db s (pg.fault _ after)

    -- An attempt of a dry run leaves the database exactly as it was.
    pub attempt-dry_run :
        (files : Files) (p : Plan) (db : Tables Server) → (attempt pg files true p db).1 ≡ db
    unfolding attempt
    attempt-dry_run files p db = end_tx_dry db (begin_tx pg (pg.fault _ db) db _)

    -- An attempt that fails leaves the database as it was, or all that its transaction wrote.
    pub attempt-failed :
        (files : Files) (p : Plan) (db : Tables Server) (e : PushError)
        → (attempt pg files false p db).0 ≡ err e
        → ((attempt pg files false p db).1 ≡ db)
          ⊎ Landed pg files p db (attempt pg files false p db).1
    unfolding attempt
    attempt-failed files p db e h =
        go (pg.fault (codes "transaction") db) (push_tx pg files p (db, empty_summary)) refl h
      where
        go :
            (fault : Option Text) (r : Result PushError (Tx Server))
            → push_tx pg files p (db, empty_summary) ≡ r
            → (end_tx pg false db (begin_tx pg fault db r)).0 ≡ err e
            → ((end_tx pg false db (begin_tx pg fault db r)).1 ≡ db)
              ⊎ Landed pg files p db (end_tx pg false db (begin_tx pg fault db r)).1
        go (some m) r pushed failing = inl refl
        go none (err e') pushed failing = inl refl
        go none (ok (after, s)) pushed failing =
            let (m, fails, left) = closed_failed (codes "committing") _ after s _ e failing in
            elim (Bool-cases (pg.landed m after)) [
              | inl took ↦ inr (record {
                tx = (after, s);
                message = m;
                pushed = pushed;
                fails = fails;
                took = took;
                is = left ∙ rw took refl;
              })
              | inr undone ↦ inl (left ∙ rw undone refl)
            ]

    -- An attempt that succeeds, and is no dry run, leaves what its transaction wrote.
    pub attempt-committed :
        (files : Files) (p : Plan) (db : Tables Server) (s : PushSummary)
        → (attempt pg files false p db).0 ≡ ok s
        → (tx : Tx Server) × (push_tx pg files p (db, empty_summary) ≡ ok tx)
          × ((attempt pg files false p db).1 ≡ tx.0)
    unfolding attempt
    attempt-committed files p db s h =
        go (pg.fault (codes "transaction") db) (push_tx pg files p (db, empty_summary)) refl h
      where
        go :
            (fault : Option Text) (r : Result PushError (Tx Server))
            → push_tx pg files p (db, empty_summary) ≡ r
            → (end_tx pg false db (begin_tx pg fault db r)).0 ≡ ok s
            → (tx : Tx Server) × (push_tx pg files p (db, empty_summary) ≡ ok tx)
              × ((end_tx pg false db (begin_tx pg fault db r)).1 ≡ tx.0)
        go (some m) r is h = cc
        go none (err e) is h = cc
        go none (ok (after, s')) is h =
            ((after, s'), is, closed_ok (codes "committing") _ after s' s (pg.fault _ after) h)
