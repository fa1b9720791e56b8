-- ===== src/Push/Refines.antt =====
-- The transaction of crates/pg_web_cli/src/push.rs does what `deployed` says.
use pg_web.Common.{
  IsIn, refl, List, [], ◌∷◌, Option, none, some, Text, map, codes, Bool-cases, inl, inr,
}
use pg_web.Common.Rows.{upsert_all}
use pg_web.CliSettings.{ServerSection}
use pg_web.Paths.Scan.{RouteEntry}
use pg_web.Push.Database.{Tables, PushSummary, Postgres}
use pg_web.Push.Entries.{Files, synthesized, validate_handler, validate_handlers}
use pg_web.Push.Reconcile.{
  keeps_route, keeps_key, keeps_function, drop_statement, handler_dropped, drop_stale,
  reconcile_handlers,
}
use pg_web.Push.Assets.{Asset, upsert_assets, put_asset, asset_upserted}
use pg_web.Push.Transaction.{
  Plan, keys_of, templates_of, sync, sync_all, flag, put_setting, put_deployment, notified, push_tx,
}
use pg_web.Push.View.{
  view, KeepsView, of_page, of_synthesis, of_drop, settings_after, asset_row, deployed,
}
use pg_web.Push.Effects.{
  Keeps, put_setting_row, Does, Shows-bind, Shows-any, counted, execute-Does, batch-Does,
  apply_entries-Does, put_assets,
}
use pg_web.Push.Cleaning.{
  clean, routes_slot, templates_slot, assets_slot, reconcile_routes-Does, reconcile_templates-Does,
  reconcile_assets-Does,
}

module _ {Server : Type 0} (pg : Postgres Server) where
  upsert_assets-Does :
      (assets : List Asset) → Does (put_assets (map asset_row assets)) (upsert_assets pg assets)
  unfolding upsert_assets upsert_all
  upsert_assets-Does [] tx = refl
  upsert_assets-Does (a ∷ assets) tx =
      Shows-bind (put_assets (asset_row a ∷ []) (view tx.0)) (put_assets (map asset_row assets)) _ _
        (counted (put_assets (asset_row a ∷ []) (view tx.0)) asset_upserted _ (
          execute-Does pg (codes "upsert asset") (put_assets (asset_row a ∷ [])) (put_asset a)
            (λ db. refl) tx))
        (upsert_assets-Does assets)

  validate_handlers-Does :
      (files : Files) (entries : List RouteEntry)
      → Does (λ v. v) (validate_handlers files pg entries)
  unfolding validate_handlers
  validate_handlers-Does files [] tx = refl
  validate_handlers-Does files (e ∷ entries) tx =
      Shows-any (view tx.0) (validate_handler files pg e tx.0) _
        (λ _. validate_handlers-Does files entries tx)

  sync-Does :
      (key : Text) (value : Option Text) (synced : PushSummary → PushSummary)
      → Does (put_setting_row key value) (sync pg key value synced)
  sync-Does key none synced tx = refl
  sync-Does key (some value) synced tx = counted _ synced _ (
      execute-Does pg key (put_setting_row key (some value)) (put_setting key value) (λ db. refl)
        tx)

  sync_all-Does :
      (c : ServerSection)
      → Does (λ v. record v { settings = settings_after c v.settings }) (sync_all pg c)
  unfolding sync_all
  sync_all-Does c tx =
      Shows-bind _ (put_setting_row (codes "readiness_enabled") (flag c.readiness_enabled)) _ _
        (Shows-bind _ (put_setting_row (codes "health_enabled") (flag c.health_enabled)) _ _
          (Shows-bind _ (put_setting_row (codes "request_timeout") c.request_timeout) _ _
            (sync-Does (codes "env") c.env _ tx) (sync-Does (codes "request_timeout") _ _))
          (sync-Does (codes "health_enabled") _ _))
        (sync-Does (codes "readiness_enabled") _ _)

  drop_stale-Does :
      (expected names : List Text)
      → ((n : Text) → IsIn n names → Keeps pg (drop_statement n))
      → Does (λ v. v) (drop_stale pg expected names)
  unfolding drop_stale
  drop_stale-Does expected [] keeps tx = refl
  drop_stale-Does expected (n ∷ names) keeps tx = elim (Bool-cases (keeps_function expected n)) [
    | inl k ↦ rw (k, drop_stale) (drop_stale-Does expected names (λ m i. keeps m (inr i)) tx)
    | inr d ↦
        rw (d, drop_stale)
          (Shows-bind (view tx.0) (λ v. v) _ _
            (counted (view tx.0) handler_dropped _ (
              batch-Does pg (codes "dropping stale handler") (drop_statement n) (keeps n (inl refl))
                tx))
            (drop_stale-Does expected names (λ m i. keeps m (inr i))))
  ]

  reconcile_handlers-Does :
      (expected : List Text)
      → ((n : Text) (db : Tables Server)
          → IsIn n (pg.pages_functions db)
          → Keeps pg (drop_statement n))
      → Does (λ v. v) (reconcile_handlers pg expected)
  unfolding reconcile_handlers
  reconcile_handlers-Does expected keeps tx =
      Shows-bind (view tx.0) (λ v. v) _ _
        (execute-Does pg (codes "listing pgweb.pages__* handlers") (λ v. v) (λ db. db) (λ db. refl)
          tx)
        (drop_stale-Does expected (pg.pages_functions tx.0) (λ n i. keeps n tx.0 i))

  -- A transaction that succeeds leaves exactly the tables that `deployed` describes.
  pub push_tx-deployed :
      (files : Files) (p : Plan)
      → KeepsView pg files p.entries
      → Does (deployed files p) (push_tx pg files p)
  unfolding push_tx deployed
  push_tx-deployed files p keeps tx =
      Shows-bind _ (λ v. v) _ notified
        (Shows-bind _ (λ v. record v { deployments = p.deployment ∷ v.deployments }) _ _
          (Shows-bind _ (λ v. record v { settings = settings_after p.server v.settings }) _
            (sync_all pg p.server)
            (Shows-bind _ (clean assets_slot (keeps_key (map (λ a. a.url_path) p.assets))) _ _
              (Shows-bind _ (put_assets (map asset_row p.assets)) _ _
                (Shows-bind _ (λ v. v) _ _
                  (Shows-bind _ (clean templates_slot (keeps_key (templates_of p.entries))) _ _
                    (Shows-bind _ (clean routes_slot (keeps_route (keys_of p.entries))) _ _
                      (Shows-bind _ (λ v. v) _ _
                        (apply_entries-Does pg files p.rewrites p.entries
                          (λ e i. (
                            (λ f text at read. keeps text (of_page e f i at read)),
                            keeps (synthesized e.handler_name) (of_synthesis e i refl),
                          ))
                          tx)
                        (validate_handlers-Does files p.entries))
                      (reconcile_routes-Does pg (keys_of p.entries)))
                    (reconcile_templates-Does pg (templates_of p.entries)))
                  (reconcile_handlers-Does (map (λ e. e.handler_name) p.entries)
                    (λ n db i. keeps (drop_statement n) (of_drop n db i refl))))
                (upsert_assets-Does p.assets))
              (reconcile_assets-Does pg (map (λ a. a.url_path) p.assets)))
            (sync_all-Does p.server))
          (execute-Does pg (codes "inserting pgweb.deployments ledger row")
            (λ v. record v { deployments = p.deployment ∷ v.deployments })
            (put_deployment p.deployment) (λ db. refl)))
        (λ tx. refl)
