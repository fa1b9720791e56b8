-- ===== src/Push/View.antt =====
-- The tables that the worker reads of what crates/pg_web_cli/src/push.rs writes, and what a push
-- makes of them: the abstract specification of its transaction.
use pg_web.Common.Table.{upsert}
use pg_web.CliSettings.{ServerSection}
use pg_web.Common.{codes, IsIn, ◌≡◌, Bool, List, [], ◌∷◌, ◌++◌, Option, none, some, Text, same, map}
use pg_web.Common.Rows.{upsert_all, delete_all}
use pg_web.Common.Result.{ok, err}
use pg_web.Common.Result.{Result, ok, err}
use pg_web.Paths.Scan.{PageFile, RouteEntry}
use pg_web.Push.Database.{
  RouteKey, RouteValue, AssetValue, Deployment, Tables, Postgres, same_route,
}
use pg_web.Push.Entries.{Files, value_of, rewritten, synthesized}
use pg_web.Push.Reconcile.{keeps_route, keeps_key, drop_statement}
use pg_web.Push.Assets.{Asset}
use pg_web.Push.Transaction.{Plan, keys_of, templates_of, flag}

pub record View : Type 0 where
  pub routes : List (RouteKey × RouteValue)
  pub templates : List (Text × Text)
  pub assets : List (Text × AssetValue)
  pub settings : List (Text × Text)
  pub deployments : List Deployment

abbrev pub view : {Server : Type 0} → Tables Server → View
view db = record {
  routes = db.routes;
  templates = db.templates;
  assets = db.assets;
  settings = db.settings;
  deployments = db.deployments;
}

abbrev pub route_row : RouteEntry → RouteKey × RouteValue
route_row e = ((e.method, e.route), value_of e)

abbrev pub row_of : List (Text × Text) → Text → Result Text Text → List (Text × Text)
row_of rewrites path (err e) = []
row_of rewrites path (ok raw) = (path, rewritten rewrites raw) ∷ []

abbrev pub template_row :
    Files → List (Text × Text) → Option PageFile → Option Text → List (Text × Text)
template_row files rewrites none path = []
template_row files rewrites (some html) none = []
template_row files rewrites (some html) (some path) = row_of rewrites path (files.read html)

-- The templates of the entries, each with the text of its file.
unfoldable pub template_rows : Files → List (Text × Text) → List RouteEntry → List (Text × Text)
template_rows files rewrites [] = []
template_rows files rewrites (e ∷ entries) =
    template_row files rewrites e.html_path e.template_path ++ template_rows files rewrites entries

abbrev pub asset_row : Asset → Text × AssetValue
asset_row a = (a.url_path, a.value)

-- The rows put in, and then those deleted that are not kept.
abbrev pub reconciled :
    {K V : Type 0} → (K → K → Bool) → (K × V → Bool) → List (K × V) → List (K × V) → List (K × V)
reconciled eq keep rows t = delete_all eq keep (upsert_all eq rows t) (upsert_all eq rows t)

abbrev pub setting_after : Text → Option Text → List (Text × Text) → List (Text × Text)
setting_after key none t = t
setting_after key (some value) t = upsert same key value t

-- The settings that the section of pgweb.toml names are put in, and the others stay.
abbrev pub settings_after : ServerSection → List (Text × Text) → List (Text × Text)
settings_after c t = setting_after (codes "readiness_enabled") (flag c.readiness_enabled) (
    setting_after (codes "health_enabled") (flag c.health_enabled) (
      setting_after (codes "request_timeout") c.request_timeout
        (setting_after (codes "env") c.env t)))

-- The tables behind a push.
unfoldable pub deployed : Files → Plan → View → View
unfolding template_rows
deployed files p v = record {
  routes =
      reconciled same_route (keeps_route (keys_of p.entries)) (map route_row p.entries) v.routes;
  templates =
      reconciled same (keeps_key (templates_of p.entries))
        (template_rows files p.rewrites p.entries) v.templates;
  assets =
      reconciled same (keeps_key (map (λ a. a.url_path) p.assets)) (map asset_row p.assets)
        v.assets;
  settings = settings_after p.server v.settings;
  deployments = p.deployment ∷ v.deployments;
}

-- The SQL that a push of these entries executes beside its own statements on the tables.
pub data OwnSql {Server : Type 0} (pg : Postgres Server) (files : Files) (entries : List RouteEntry)
    (sql : Text) : Type 0 where
  of_page :
      (e : RouteEntry) (f : PageFile)
      → IsIn e entries
      → e.sql_path ≡ some f
      → files.read f ≡ ok sql
      → OwnSql pg files entries sql
  of_synthesis :
      (e : RouteEntry)
      → IsIn e entries
      → sql ≡ synthesized e.handler_name
      → OwnSql pg files entries sql
  of_drop :
      (name : Text) (db : Tables Server)
      → IsIn name (pg.pages_functions db)
      → sql ≡ drop_statement name
      → OwnSql pg files entries sql

-- A condition on the application: the SQL files of these pages write none of the tables of the view,
-- and neither do CREATE FUNCTION and DROP FUNCTION for their handlers. Other SQL is not restricted.
abbrev pub KeepsView : {Server : Type 0} → Postgres Server → Files → List RouteEntry → Type 0
KeepsView {Server} pg files entries =
    (sql : Text)
    → OwnSql pg files entries sql
    → (db db' : Tables Server) → pg.batch_execute sql db ≡ ok db'
    → view db' ≡ view db
