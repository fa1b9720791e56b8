-- ===== src/Push/Effects.antt =====
-- What each step of the transaction of crates/pg_web_cli/src/push.rs does to the tables of the view.
use pg_web.Common.{
  inl, inr, IsIn, ◌≡◌, refl, sym, List, [], ◌∷◌, Option, none, some, Text, same, map, codes,
}
use pg_web.Common.Rows.{upsert_all, upsert_all-append}
use pg_web.Common.Result.{Result, ok, err, ◌>>=◌}
use pg_web.Paths.Scan.{PageFile, RouteEntry}
use pg_web.Push.Database.{
  RouteKey, RouteValue, AssetValue, Tables, PushSummary, PushError, Postgres, Tx, same_route,
  execute, executed, batch, batched, count,
}
use pg_web.Push.Entries.{
  Files, or_unread, synthesized, put_template, put_route, handler_synthesized, sql_executed,
  template_upserted, route_upserted, rewritten, apply_handler, apply_template, apply_entry,
  apply_entries,
}
use pg_web.Push.View.{View, view, setting_after, row_of, template_row, template_rows, route_row}

abbrev pub put_templates : List (Text × Text) → View → View
put_templates rows v = record v { templates = upsert_all same rows v.templates }

abbrev pub put_routes : List (RouteKey × RouteValue) → View → View
put_routes rows v = record v { routes = upsert_all same_route rows v.routes }

-- The setting of a key, if there is one to set.
abbrev pub put_setting_row : Text → Option Text → View → View
put_setting_row key value v = record v { settings = setting_after key value v.settings }

abbrev pub put_assets : List (Text × AssetValue) → View → View
put_assets rows v = record v { assets = upsert_all same rows v.assets }

module _ {Server : Type 0} where
  -- If the step succeeds, the tables of the view are these.
  abbrev pub Shows : View → Result PushError (Tx Server) → Type 0
  Shows w (err e) = Unit
  Shows w (ok tx) = view tx.0 ≡ w

  abbrev pub Does : (View → View) → (Tx Server → Result PushError (Tx Server)) → Type 0
  Does g step = (tx : Tx Server) → Shows (g (view tx.0)) (step tx)

  pub Shows-bind :
      (w : View) (g : View → View) (r : Result PushError (Tx Server))
      (next : Tx Server → Result PushError (Tx Server))
      → Shows w r
      → Does g next
      → Shows (g w) (r >>= next)
  Shows-bind w g (err e) next s d = tt
  Shows-bind w g (ok tx) next s d = rw (sym s) (d tx)

  pub count-Does :
      (change : PushSummary → PushSummary) → Does (λ v. v) (count {Server = Server} change)
  count-Does change (db, s) = refl

  pub Shows-any :
      {A : Type 0} (w : View) (r : Result PushError A) (next : A → Result PushError (Tx Server))
      → ((a : A) → Shows w (next a))
      → Shows w (r >>= next)
  Shows-any w (err e) next h = tt
  Shows-any w (ok a) next h = h a

  pub counted :
      (w : View) (change : PushSummary → PushSummary) (r : Result PushError (Tx Server))
      → Shows w r
      → Shows w (r >>= count change)
  counted w change r s = Shows-bind w (λ v. v) r (count change) s (count-Does change)

  module _ (pg : Postgres Server) where
    pub execute-Does :
        (step : Text) (g : View → View) (change : Tables Server → Tables Server)
        → ((db : Tables Server) → view (change db) ≡ g (view db))
        → Does g (execute pg step change)
    unfolding execute
    execute-Does step g change h (db, s) =
        elim (pg.fault step db)
          as (λ fault. Shows (g (view db)) (executed step change (db, s) fault)) [
            | some e ↦ tt
            | none ↦ h db
          ]

    -- SQL that keeps the view.
    abbrev pub Keeps : Text → Type 0
    Keeps sql = (db db' : Tables Server) → pg.batch_execute sql db ≡ ok db' → view db' ≡ view db

    pub batch-Does : (step sql : Text) → Keeps sql → Does (λ v. v) (batch pg step sql)
    unfolding batch
    batch-Does step sql keeps (db, s) = go (pg.batch_execute sql db) refl
      where
        go :
            (r : Result Text (Tables Server))
            → pg.batch_execute sql db ≡ r
            → Shows (view db) (batched step s r)
        go (err e) is = tt
        go (ok db') is = keeps db db' is

    apply_handler-Does :
        (files : Files) (name : Text) (sql html : Option PageFile)
        → ((f : PageFile) (text : Text) → sql ≡ some f → files.read f ≡ ok text → Keeps text)
        → Keeps (synthesized name)
        → Does (λ v. v) (apply_handler files pg name sql html)
    unfolding apply_handler
    apply_handler-Does files name (some sql_path) html own synth tx = go (files.read sql_path) refl
      where
        go :
            (r : Result Text Text)
            → files.read sql_path ≡ r
            → Shows (view tx.0) (
                or_unread r >>= λ sql.
                batch pg (files.display sql_path) sql tx >>= count sql_executed)
        go (err e) is = tt
        go (ok sql) is =
            counted (view tx.0) sql_executed (batch pg (files.display sql_path) sql tx)
              (batch-Does (files.display sql_path) sql (own sql_path sql refl is) tx)
    apply_handler-Does files name none (some html) own synth tx =
        counted (view tx.0) handler_synthesized (batch pg name (synthesized name) tx)
          (batch-Does name (synthesized name) synth tx)
    apply_handler-Does files name none none own synth tx = refl

    apply_template-Does :
        (files : Files) (rewrites : List (Text × Text)) (html : Option PageFile)
        (path : Option Text)
        → Does
            (put_templates (template_row files rewrites html path))
            (apply_template files pg rewrites html path)
    unfolding apply_template upsert_all
    apply_template-Does files rewrites none path tx = refl
    apply_template-Does files rewrites (some html) none tx = refl
    apply_template-Does files rewrites (some html) (some path) tx = go (files.read html)
      where
        go :
            (r : Result Text Text)
            → Shows (put_templates (row_of rewrites path r) (view tx.0)) (
                or_unread r >>= λ raw.
                execute pg (codes "upsert template") (put_template path (rewritten rewrites raw)) tx
                >>= count template_upserted)
        go (err e) = tt
        go (ok raw) =
            counted (put_templates ((path, rewritten rewrites raw) ∷ []) (view tx.0))
              template_upserted _
              (execute-Does (codes "upsert template")
                (put_templates ((path, rewritten rewrites raw) ∷ []))
                (put_template path (rewritten rewrites raw)) (λ db. refl) tx)

    abbrev entry_effect : Files → List (Text × Text) → RouteEntry → View → View
    entry_effect files rewrites e v =
        put_routes (route_row e ∷ [])
          (put_templates (template_row files rewrites e.html_path e.template_path) v)

    -- The SQL of an entry keeps the view.
    abbrev pub KeepsEntry : Files → RouteEntry → Type 0
    KeepsEntry files e =
        ((f : PageFile) (text : Text) → e.sql_path ≡ some f → files.read f ≡ ok text → Keeps text)
        × Keeps (synthesized e.handler_name)

    apply_entry-Does :
        (files : Files) (rewrites : List (Text × Text)) (e : RouteEntry)
        → KeepsEntry files e
        → Does (entry_effect files rewrites e) (apply_entry files pg rewrites e)
    unfolding apply_entry upsert_all
    apply_entry-Does files rewrites e keeps tx =
        Shows-bind (view tx.0) (entry_effect files rewrites e) _ _
          (apply_handler-Does files e.handler_name e.sql_path e.html_path keeps.0 keeps.1 tx)
          (λ tx1.
            Shows-bind
              (put_templates (template_row files rewrites e.html_path e.template_path) (view tx1.0))
              (put_routes (route_row e ∷ [])) _ _
              (apply_template-Does files rewrites e.html_path e.template_path tx1)
              (λ tx2. counted (put_routes (route_row e ∷ []) (view tx2.0)) route_upserted _ (
                execute-Does (codes "upsert route") (put_routes (route_row e ∷ [])) (put_route e)
                  (λ db. refl) tx2)))

    pub apply_entries-Does :
        (files : Files) (rewrites : List (Text × Text)) (entries : List RouteEntry)
        → ((e : RouteEntry) → IsIn e entries → KeepsEntry files e)
        → Does
            (λ v.
              put_routes
                (map route_row entries)
                (put_templates (template_rows files rewrites entries) v))
            (apply_entries files pg rewrites entries)
    unfolding apply_entries template_rows upsert_all
    apply_entries-Does files rewrites [] keeps tx = refl
    apply_entries-Does files rewrites (e ∷ entries) keeps tx =
        rw
          (upsert_all-append same (template_row files rewrites e.html_path e.template_path)
            (template_rows files rewrites entries) tx.0.templates)
          (Shows-bind (entry_effect files rewrites e (view tx.0))
            (λ v.
              put_routes (map route_row entries)
                (put_templates (template_rows files rewrites entries) v))
            _ _ (apply_entry-Does files rewrites e (keeps e (inl refl)) tx)
            (apply_entries-Does files rewrites entries (λ x i. keeps x (inr i))))
