-- ===== src/Push/Cleaning.antt =====
-- The deletions of the transaction of crates/pg_web_cli/src/push.rs, as changes of the view.
use pg_web.Common.{
  ◌≡◌, refl, sym, ◌∙◌, Bool, List, [], ◌∷◌, Text, same, if◌then◌else◌, codes, Bool-cases, inl, inr,
}
use pg_web.Common.Rows.{delete_all}
use pg_web.Common.Table.{delete}
use pg_web.Push.Database.{
  RouteKey, RouteValue, AssetValue, Tables, PushSummary, Postgres, Tx, same_route,
}
use pg_web.Push.Reconcile.{
  keeps_route, keeps_key, delete_stale, listing, delete_route, route_deleted, template_deleted,
  asset_deleted, delete_template, delete_asset, reconcile_routes, reconcile_templates,
  reconcile_assets,
}
use pg_web.Push.View.{View, view}
use pg_web.Push.Effects.{Shows, Does, Shows-bind, counted, execute-Does}

-- The deletions of `delete_stale`, on the view.
unfoldable deletions : {Row : Type 0} → (Row → Bool) → (Row → View → View) → List Row → View → View
deletions keep del [] v = v
deletions keep del (row ∷ rows) v =
    if keep row then deletions keep del rows v else deletions keep del rows (del row v)

-- A table of the view, how it is replaced, and its keys.
pub record Slot (K V : Type 0) : Type 0 where
  pub eq : K → K → Bool
  pub table : View → List (K × V)
  pub put : List (K × V) → View → View
  pub put-table : (v : View) → put (table v) v ≡ v
  pub table-put : (t : List (K × V)) (v : View) → table (put t v) ≡ t
  pub put-put : (t u : List (K × V)) (v : View) → put t (put u v) ≡ put t v

abbrev pub clear : {K V : Type 0} → Slot K V → K × V → View → View
clear slot (key, value) v = slot.put (delete slot.eq key (slot.table v)) v

deletions-delete_all :
    {K V : Type 0} (slot : Slot K V) (keep : K × V → Bool) (rows : List (K × V)) (v : View)
    → deletions keep (clear slot) rows v ≡ slot.put (delete_all slot.eq keep rows (slot.table v)) v
unfolding deletions delete_all
deletions-delete_all slot keep [] v = sym (slot.put-table v)
deletions-delete_all slot keep ((k, w) ∷ rows) v = elim (Bool-cases (keep (k, w))) [
  | inl yes_kept ↦ rw yes_kept (deletions-delete_all slot keep rows v)
  | inr dropped ↦ rw dropped (
      deletions-delete_all slot keep rows (clear slot (k, w) v)
      ∙ rw (slot.table-put (delete slot.eq k (slot.table v)) v) (
          slot.put-put (delete_all slot.eq keep rows (delete slot.eq k (slot.table v)))
            (delete slot.eq k (slot.table v)) v))
]

abbrev pub routes_slot : Slot RouteKey RouteValue
routes_slot = record {
  eq = same_route;
  table = λ v. v.routes;
  put = λ t v. record v { routes = t };
  put-table = λ v. refl;
  table-put = λ t v. refl;
  put-put = λ t u v. refl;
}

abbrev pub templates_slot : Slot Text Text
templates_slot = record {
  eq = same;
  table = λ v. v.templates;
  put = λ t v. record v { templates = t };
  put-table = λ v. refl;
  table-put = λ t v. refl;
  put-put = λ t u v. refl;
}

abbrev pub assets_slot : Slot Text AssetValue
assets_slot = record {
  eq = same;
  table = λ v. v.assets;
  put = λ t v. record v { assets = t };
  put-table = λ v. refl;
  table-put = λ t v. refl;
  put-put = λ t u v. refl;
}

-- The rows of the table that are not kept go.
abbrev pub clean : {K V : Type 0} → Slot K V → (K × V → Bool) → View → View
clean slot keep v = slot.put (delete_all slot.eq keep (slot.table v) (slot.table v)) v

module _ {Server : Type 0} (pg : Postgres Server) where
  delete_stale-Does :
      {Row : Type 0} (keep : Row → Bool) (del : Row → Tables Server → Tables Server)
      (clear : Row → View → View) (change : PushSummary → PushSummary) (step : Text)
      (rows : List Row)
      → ((row : Row) (db : Tables Server) → view (del row db) ≡ clear row (view db))
      → Does (deletions keep clear rows) (delete_stale pg keep del change step rows)
  unfolding delete_stale deletions
  delete_stale-Does keep del clear change step [] h tx = refl
  delete_stale-Does keep del clear change step (row ∷ rows) h tx = elim (Bool-cases (keep row)) [
    | inl k ↦ rw (k, delete_stale) (delete_stale-Does keep del clear change step rows h tx)
    | inr d ↦
        rw (d, delete_stale)
          (Shows-bind (clear row (view tx.0)) (deletions keep clear rows) _ _
            (counted (clear row (view tx.0)) change _
              (execute-Does pg step (clear row) (del row) (h row) tx))
            (delete_stale-Does keep del clear change step rows h))
  ]

  -- A listing of a table, and the deletion of its rows that are not kept.
  listed-Does :
      {K V : Type 0} (slot : Slot K V) (keep : K × V → Bool)
      (del : K × V → Tables Server → Tables Server) (change : PushSummary → PushSummary)
      (list_step step : Text)
      → ((row : K × V) (db : Tables Server) → view (del row db) ≡ clear slot row (view db))
      → (tx : Tx Server)
      → Shows
          (clean slot keep (view tx.0))
          (listing pg list_step (delete_stale pg keep del change step (slot.table (view tx.0))) tx)
  listed-Does slot keep del change list_step step h tx =
      let rows = slot.table (view tx.0) in
      rw (← (deletions-delete_all slot keep rows (view tx.0))) (
        Shows-bind (view tx.0) (deletions keep (clear slot) rows) _ _
          (execute-Does pg list_step (λ v. v) (λ db. db) (λ db. refl) tx)
          (delete_stale-Does keep del (clear slot) change step rows h))

  pub reconcile_routes-Does :
      (expected : List RouteKey)
      → Does (clean routes_slot (keeps_route expected)) (reconcile_routes pg expected)
  unfolding reconcile_routes
  reconcile_routes-Does expected (db, s) =
      listed-Does routes_slot (keeps_route expected) delete_route route_deleted
        (codes "listing pgweb.routes") (codes "deleting stale route") (λ row db. refl) (db, s)

  pub reconcile_templates-Does :
      (expected : List Text)
      → Does (clean templates_slot (keeps_key expected)) (reconcile_templates pg expected)
  unfolding reconcile_templates
  reconcile_templates-Does expected (db, s) =
      listed-Does templates_slot (keeps_key expected) delete_template template_deleted
        (codes "listing pgweb.templates") (codes "deleting stale template") (λ row db. refl) (db, s)

  pub reconcile_assets-Does :
      (expected : List Text)
      → Does (clean assets_slot (keeps_key expected)) (reconcile_assets pg expected)
  unfolding reconcile_assets
  reconcile_assets-Does expected (db, s) =
      listed-Does assets_slot (keeps_key expected) delete_asset asset_deleted
        (codes "listing pgweb.assets") (codes "deleting stale asset") (λ row db. refl) (db, s)
