-- ===== src/Push/Lookups.antt =====
-- The rows behind a push of crates/pg_web_cli/src/push.rs, by their keys.
use pg_web.Common.{
  ◌≡◌, refl, ap, ◌∙◌, false, List, Option, none, some, Text, same, same_iff, map, any, starts_with,
  if◌then◌else◌,
}
use pg_web.Common.Result.{ok}
use pg_web.Common.Table.{find, IsKeyed}
use pg_web.Common.Rows.{
  or_else, is_value, last_value, kept, find-upsert_all, upsert_all-IsKeyed, find-delete_all_stale,
  any-last_value,
}
use pg_web.Paths.Scan.{RouteEntry}
use pg_web.Push.Database.{
  RouteKey, RouteValue, AssetValue, Tables, PushSummary, Postgres, same_route, same_route_iff,
}
use pg_web.Push.Entries.{Files}
use pg_web.Push.Reconcile.{default_prefix, keeps_route, keeps_key}
use pg_web.Push.Assets.{Asset}
use pg_web.Push.Transaction.{Plan, keys_of, attempt}
use pg_web.Push.View.{View, KeepsView, reconciled, route_row, asset_row, deployed}
use pg_web.Push.Outcomes.{attempt-deployed}

-- The row of a key behind a push: that of its last entry, or an old one of a built-in handler.
abbrev pub route_after : Option RouteValue → Option RouteValue → Option RouteValue
route_after (some value) old = some value
route_after none none = none
route_after none (some old) = if starts_with default_prefix old.handler_name then some old else none

find-reconciled_routes :
    (entries : List RouteEntry) (k : RouteKey) (t : List (RouteKey × RouteValue))
    → IsKeyed same_route t
    → find same_route k
        (reconciled same_route (keeps_route (keys_of entries)) (map route_row entries) t)
      ≡ route_after (last_value same_route k (map route_row entries)) (find same_route k t)
find-reconciled_routes entries k t keyed =
    find-delete_all_stale same_route same_route_iff (keeps_route (keys_of entries)) k _
      (upsert_all-IsKeyed same_route same_route_iff (map route_row entries) t keyed)
    ∙ (ap (kept same_route (keeps_route (keys_of entries)) k)
          (find-upsert_all same_route same_route_iff k (map route_row entries) t)
        ∙ by_value (last_value same_route k (map route_row entries)) (find same_route k t)
            (any-last_value same_route same_route_iff route_row k entries))
  where
    by_value :
        (pushed old : Option RouteValue)
        → any (same_route k) (keys_of entries) ≡ is_value pushed
        → kept same_route (keeps_route (keys_of entries)) k (or_else pushed old)
          ≡ route_after pushed old
    by_value (some value) old h = rw h refl
    by_value none none h = refl
    by_value none (some old) h = rw h refl

find-reconciled_assets :
    (assets : List Asset) (k : Text) (t : List (Text × AssetValue))
    → IsKeyed same t
    → find same k
        (reconciled same (keeps_key (map (λ a. a.url_path) assets)) (map asset_row assets) t)
      ≡ last_value same k (map asset_row assets)
find-reconciled_assets assets k t keyed =
    find-delete_all_stale same same_iff (keeps_key (map (λ a. a.url_path) assets)) k _
      (upsert_all-IsKeyed same same_iff (map asset_row assets) t keyed)
    ∙ (ap (kept same (keeps_key (map (λ a. a.url_path) assets)) k)
          (find-upsert_all same same_iff k (map asset_row assets) t)
        ∙ by_value (last_value same k (map asset_row assets)) (find same k t)
            (any-last_value same same_iff asset_row k assets))
  where
    by_value :
        (pushed old : Option AssetValue)
        → any (same k) (map (λ a. a.url_path) assets) ≡ is_value pushed
        → kept same (keeps_key (map (λ a. a.url_path) assets)) k (or_else pushed old) ≡ pushed
    by_value (some value) old h = rw h refl
    by_value none none h = refl
    by_value none (some old) h = rw h refl

module _ {Server : Type 0} (pg : Postgres Server) where
  -- Behind an attempt that commits, if the SQL of its pages writes none of the tables of the view and
  -- the old table has one row for each key: the row of a route is that of its last entry in the pages; without
  -- an entry it is the old row if its handler is a built-in one, and else it is gone.
  pub attempt-routes :
      (files : Files) (p : Plan) (db : Tables Server) (s : PushSummary) (k : RouteKey)
      → KeepsView pg files p.entries
      → IsKeyed same_route db.routes
      → (attempt pg files false p db).0 ≡ ok s
      → find same_route k (attempt pg files false p db).1.routes
        ≡ route_after
            (last_value same_route k (map route_row p.entries))
            (find same_route k db.routes)
  unfolding deployed
  attempt-routes files p db s k keeps keyed h =
      ap (λ (v : View). find same_route k v.routes) (attempt-deployed pg files p db s keeps h)
      ∙ find-reconciled_routes p.entries k db.routes keyed

  -- Behind an attempt that commits, if the SQL of its pages writes none of the tables of the view and
  -- the old table has one row for each path: the table of assets holds under each path what the last pushed
  -- asset of this path has, and nothing else.
  pub attempt-assets :
      (files : Files) (p : Plan) (db : Tables Server) (s : PushSummary) (k : Text)
      → KeepsView pg files p.entries
      → IsKeyed same db.assets
      → (attempt pg files false p db).0 ≡ ok s
      → find same k (attempt pg files false p db).1.assets
        ≡ last_value same k (map asset_row p.assets)
  unfolding deployed
  attempt-assets files p db s k keeps keyed h =
      ap (λ (v : View). find same k v.assets) (attempt-deployed pg files p db s keeps h)
      ∙ find-reconciled_assets p.assets k db.assets keyed
