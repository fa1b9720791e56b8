-- ===== src/Push/Live.antt =====
-- A push reaches a worker that is running: crates/pg_web_cli/src/push.rs sends a notification in its
-- transaction, and crates/pg_web_ext/src/listen_router.rs drops the cache when it arrives.
use mathlib.Core.Path.{subst}
use pg_web.Common.{some, map, ◌≡◌, refl, sym, ◌∙◌, inl, false, List, [], Text, IsIn}
use pg_web.Common.Result.{ok, bind-eq-ok}
use pg_web.Common.Table.{IsKeyed}
use pg_web.Pattern.{ParsedPattern, parse, request_segments}
use pg_web.Pattern.Matching.{Fits}
use pg_web.Backend.{Backend}
use pg_web.Cache.{Worker, meta_of}
use pg_web.Routes.{MatchedRoute, lookup_route}
use pg_web.Common.Rows.{last_value}
use pg_web.Paths.Scan.{RouteEntry}
use pg_web.Listen.{Broadcast, ListenRouter, drain}
use pg_web.Listen.Reload.{reload, drain-db, drain-reload, none-IsFresh}
use pg_web.Push.Database.{RouteValue, Tables, PushSummary, Postgres, Tx, same_route, empty_summary}
use pg_web.Push.Entries.{Files}
use pg_web.Push.Transaction.{Plan, push_tx, notify, notified, attempt}
use pg_web.Push.View.{KeepsView, route_row}
use pg_web.Push.Atomic.{attempt-committed}
use pg_web.Push.Served.{row_of, ReadsRoutes, Finds, pushed-served}

-- PostgreSQL delivers what a committed transaction sent to the connection that listens: every notice
-- of the database is among the notifications, with its empty payload.
abbrev pub Delivers : {Server : Type 0} → Tables Server → List (Text × Text) → Type 0
Delivers db ns = (n : Text) → IsIn n db.notices → IsIn (n, []) ns

module _ {Server : Type 0} (pg : Postgres Server) where
  push_tx-notices :
      (files : Files) (p : Plan) (tx tx' : Tx Server)
      → push_tx pg files p tx ≡ ok tx'
      → IsIn reload tx'.0.notices
  unfolding push_tx
  push_tx-notices files p tx tx' h =
      let (before, ran, last) = bind-eq-ok _ notified h in go before last
    where
      go : (before : Tx Server) → notified before ≡ ok tx' → IsIn reload tx'.0.notices
      go (db, s) last =
          let is : notify (db, s) ≡ tx' = cc in
          subst (λ (t : Tx Server). IsIn reload t.0.notices) is (inl refl)

  attempt-notices :
      (files : Files) (p : Plan) (db : Tables Server) (s : PushSummary)
      → (attempt pg files false p db).0 ≡ ok s
      → IsIn reload (attempt pg files false p db).1.notices
  attempt-notices files p db s h =
      let (tx, pushed, is) = attempt-committed pg files p db s h in
      subst (λ (d : Tables Server). IsIn reload d.notices) (sym is)
        (push_tx-notices files p (db, empty_summary) tx pushed)

  module _ {Tera : Type 0} (b : Backend (Tables Server) Tera) (lib : Broadcast) where
    -- Behind an attempt that commits and the notifications that a running worker gets of it, if the
    -- SQL of the pages writes none of the tables of the view and the old table has one row for each
    -- key: whatever snapshot the worker had cached, it answers every path that fits the pattern of a
    -- page from a row of the pushed table, which is that of the page's last entry or one at least as
    -- specific, with its handler and captures.
    pub pushed-live :
        (files : Files) (p : Plan) (db : Tables Server) (s : PushSummary) (e : RouteEntry)
        (pat : ParsedPattern) (path : Text) (ns : List (Text × Text)) (r : ListenRouter lib)
        (w : Worker (Tables Server) Tera)
        → KeepsView pg files p.entries
        → ReadsRoutes b
        → IsKeyed same_route db.routes
        → (attempt pg files false p db).0 ≡ ok s
        → IsIn e p.entries
        → parse e.route ≡ ok pat
        → Fits pat.segments (request_segments path)
        → w.db ≡ (attempt pg files false p db).1
        → Delivers (attempt pg files false p db).1 ns
        → (v : RouteValue) × (found : MatchedRoute) × (last_value same_route
              (e.method, e.route)
              (map route_row p.entries)
            ≡ some v)
          × ((lookup_route b e.method path (drain lib b ns (r, w)).1).0 ≡ some found)
          × Finds e.method path
              (map row_of (attempt pg files false p db).1.routes)
              (pat, meta_of (row_of ((e.method, e.route), v)))
              found
    pushed-live files p db s e pat path ns r w keeps reads keyed run listed parses fits same_db
          delivers =
        let dropped =
          drain-reload lib b ns [] (r, w) (delivers reload (attempt-notices files p db s run)) in
        pushed-served pg b files p db s e pat path (drain lib b ns (r, w)).1 keeps reads keyed run
          listed parses fits (drain-db lib b ns (r, w) ∙ same_db)
          (none-IsFresh lib b (drain lib b ns (r, w)).1 dropped)
