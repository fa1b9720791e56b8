-- ===== src/Push/Reconcile.antt =====
-- crates/pg_web_cli/src/push.rs: `reconcile_routes`, `reconcile_templates`, `reconcile_handlers` and
-- `reconcile_assets`.
use pg_web.Common.{
  ℕ, suc, ◌||◌, ◌&&◌, not, Bool, true, false, List, [], ◌∷◌, ◌++◌, Text, codes, same, any, all,
  is_empty, starts_with, is_ascii_alphanumeric, ◌==◌,
}
use pg_web.Common.Result.{Result, ok, ◌>>=◌}
use pg_web.Common.Table.{delete}
use pg_web.Push.Database.{
  RouteKey, RouteValue, AssetValue, Tables, PushSummary, PushError, Postgres, Tx, execute, batch,
  count, same_route,
}

-- `is_safe_proname`
abbrev pub proname_char : ℕ → Bool
proname_char c = is_ascii_alphanumeric c || c == b'_' || c == b'$'

unfoldable pub is_safe_proname : Text → Bool
is_safe_proname s = not (is_empty s) && all proname_char s

abbrev pub default_prefix : Text
default_prefix = codes "pgweb._default_"

abbrev pub keeps_route : List RouteKey → RouteKey × RouteValue → Bool
keeps_route expected (key, v) =
    any (same_route key) expected || starts_with default_prefix v.handler_name

abbrev pub delete_route : {Server : Type 0} → RouteKey × RouteValue → Tables Server → Tables Server
delete_route (key, v) db = record db { routes = delete same_route key db.routes }

abbrev pub route_deleted : PushSummary → PushSummary
route_deleted s = record s { routes_deleted = suc s.routes_deleted }

abbrev pub keeps_key : {V : Type 0} → List Text → Text × V → Bool
keeps_key expected (key, v) = any (same key) expected

abbrev pub delete_template : {Server : Type 0} → Text × Text → Tables Server → Tables Server
delete_template (key, v) db = record db { templates = delete same key db.templates }

abbrev pub template_deleted : PushSummary → PushSummary
template_deleted s = record s { templates_deleted = suc s.templates_deleted }

abbrev pub delete_asset : {Server : Type 0} → Text × AssetValue → Tables Server → Tables Server
delete_asset (key, v) db = record db { assets = delete same key db.assets }

abbrev pub asset_deleted : PushSummary → PushSummary
asset_deleted s = record s { assets_deleted = suc s.assets_deleted }

abbrev pub handler_dropped : PushSummary → PushSummary
handler_dropped s = record s { handlers_dropped = suc s.handlers_dropped }

abbrev pub keeps_function : List Text → Text → Bool
keeps_function expected proname =
    not (is_safe_proname proname) || any (same (codes "pgweb." ++ proname)) expected

abbrev pub drop_statement : Text → Text
drop_statement proname = codes "DROP FUNCTION pgweb." ++ (proname ++ codes "(json)")

module _ {Server : Type 0} (pg : Postgres Server) where
  -- The common loop: rows that are not kept are deleted, one statement each, and counted.
  unfoldable pub delete_stale :
      {Row : Type 0}
      → (Row → Bool)
      → (Row → Tables Server → Tables Server)
      → (PushSummary → PushSummary)
      → Text
      → List Row
      → Tx Server
      → Result PushError (Tx Server)
  delete_stale keep del counted step [] tx = ok tx
  delete_stale keep del counted step (row ∷ rows) tx = elim (keep row) [
    | true ↦ delete_stale keep del counted step rows tx
    | false ↦
        execute pg step (del row) tx >>= count counted >>= delete_stale keep del counted step rows
  ]

  -- `tx.query`: a listing that can fail, and then its rows
  abbrev pub listing :
      Text → (Tx Server → Result PushError (Tx Server)) → Tx Server → Result PushError (Tx Server)
  listing step next tx = execute pg step (λ db. db) tx >>= next

  -- `reconcile_routes`
  unfoldable pub reconcile_routes : List RouteKey → Tx Server → Result PushError (Tx Server)
  unfolding delete_stale
  reconcile_routes expected (db, s) =
      listing (codes "listing pgweb.routes")
        (delete_stale (keeps_route expected) delete_route route_deleted
          (codes "deleting stale route") db.routes)
        (db, s)

  -- `reconcile_templates`
  unfoldable pub reconcile_templates : List Text → Tx Server → Result PushError (Tx Server)
  unfolding delete_stale
  reconcile_templates expected (db, s) =
      listing (codes "listing pgweb.templates")
        (delete_stale (keeps_key expected) delete_template template_deleted
          (codes "deleting stale template") db.templates)
        (db, s)

  -- `reconcile_assets`
  unfoldable pub reconcile_assets : List Text → Tx Server → Result PushError (Tx Server)
  unfolding delete_stale
  reconcile_assets expected (db, s) =
      listing (codes "listing pgweb.assets")
        (delete_stale (keeps_key expected) delete_asset asset_deleted (codes "deleting stale asset")
          db.assets)
        (db, s)

  unfoldable pub drop_stale : List Text → List Text → Tx Server → Result PushError (Tx Server)
  unfolding is_safe_proname
  drop_stale expected [] tx = ok tx
  drop_stale expected (proname ∷ pronames) tx = elim (keeps_function expected proname) [
    | true ↦ drop_stale expected pronames tx
    | false ↦
        batch pg (codes "dropping stale handler") (drop_statement proname) tx
        >>= count handler_dropped
        >>= drop_stale expected pronames
  ]

  -- `reconcile_handlers`
  unfoldable pub reconcile_handlers : List Text → Tx Server → Result PushError (Tx Server)
  unfolding drop_stale
  reconcile_handlers expected (db, s) =
      listing (codes "listing pgweb.pages__* handlers")
        (drop_stale expected (pg.pages_functions db)) (db, s)
