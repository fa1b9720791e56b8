-- ===== src/Push/Assets.antt =====
-- crates/pg_web_cli/src/push.rs: `scan_public`, the fingerprints of `push_with_options`, and
-- `upsert_asset`.
use pg_web.Common.{
  ℕ, zero, suc, ◌||◌, ltb, Bool, false, List, [], ◌∷◌, ◌++◌, Option, none, some, if◌then◌else◌,
  Text, codes, same, map, ◌==◌, ◌*◌,
}
use pg_web.Common.Rows.{upsert_all}
use pg_web.Common.Result.{Result, ok, err, ◌>>=◌}
use pg_web.Common.Table.{upsert}
use pg_web.Fingerprint.{fingerprint_url}
use pg_web.Push.Database.{
  AssetValue, Tables, PushSummary, PushError, failed, asset_too_large, Postgres, Tx, execute, count,
}

-- A regular file under public/: its path there, its name if it is UTF-8, its size, its bytes.
pub record PublicFile : Type 0 where
  pub rel : Option Text
  pub name : Option Text
  pub size : Result Text ℕ
  pub content : Result Text (List ℕ)

-- `mime_guess` on the file and the digits of `blake3::hash`
pub record AssetLibrary : Type 0 where
  pub mime_type : PublicFile → Text
  pub blake3_hex : List ℕ → Text
  -- the order in which a `HashMap` with these pairs is walked
  pub walk : List (Text × Text) → List (Text × Text)

-- `Asset`
pub record Asset : Type 0 where
  pub url_path : Text
  pub value : AssetValue
  pub fingerprint_hex : Text

abbrev pub max_asset_bytes : ℕ
max_asset_bytes = 20 * 1024 * 1024

-- `rel.replace('\\', "/")`
abbrev slashed : Text → Text
slashed rel = map (λ c. if c == b'\\' then b'/' else c) rel

-- `&s[..8]`
abbrev pub take : ℕ → Text → Text
take zero s = []
take (suc n) [] = []
take (suc n) (c ∷ s) = c ∷ take n s

abbrev is_gitkeep : Option Text → Bool
is_gitkeep none = false
is_gitkeep (some name) = same name (codes ".gitkeep")

abbrev or_unreadable : {A : Type 0} → Result Text A → Result PushError A
or_unreadable (err e) = err (failed (codes "reading public/") e)
or_unreadable (ok a) = ok a

abbrev or_non_utf8 : Option Text → Result PushError Text
or_non_utf8 none = err (failed (codes "reading public/") (codes "non-UTF-8 path"))
or_non_utf8 (some rel) = ok rel

abbrev display : PublicFile → Text
display f = elim f.rel [ none ↦ [] | some rel ↦ rel ]

abbrev pub put_asset : {Server : Type 0} → Asset → Tables Server → Tables Server
put_asset a db = record db { assets = upsert same a.url_path a.value db.assets }

abbrev pub asset_upserted : PushSummary → PushSummary
asset_upserted s = record s { assets_upserted = suc s.assets_upserted }

module _ (lib : AssetLibrary) where
  abbrev asset_of : PublicFile → Text → List ℕ → Asset
  asset_of f rel content = record {
    url_path = b'/' ∷ slashed rel;
    value = record {
      content = content;
      content_type = lib.mime_type f;
      etag = b'"' ∷ (lib.blake3_hex content ++ b'"' ∷ []);
    };
    fingerprint_hex = take 8 (lib.blake3_hex content);
  }

  abbrev read_asset : PublicFile → Result PushError Asset
  read_asset f = or_unreadable f.size >>= λ size.
      if ltb max_asset_bytes size
      then err (asset_too_large (display f))
      else (or_non_utf8 f.rel >>= λ rel.
          or_unreadable f.content >>= λ content. ok (asset_of f rel content))

  -- `scan_public`, on the files in the order of the walk
  unfoldable pub scan_public : List PublicFile → Result PushError (List Asset)
  scan_public [] = ok []
  scan_public (f ∷ files) =
      if is_gitkeep f.name
      then scan_public files
      else (read_asset f >>= λ a. scan_public files >>= λ rest. ok (a ∷ rest))

-- `asset_rewrites` and the renamed assets, when the environment is production
abbrev pub hashed : Asset → Text
hashed a = fingerprint_url a.url_path a.fingerprint_hex

abbrev pub is_production : Option Text → Bool
is_production none = false
is_production (some env) = same env (codes "production") || same env (codes "prod")

unfoldable pub rewrites_of : AssetLibrary → Bool → List Asset → List (Text × Text)
unfolding upsert_all
rewrites_of lib is_prod assets =
    if is_prod then lib.walk (upsert_all same (map (λ a. (a.url_path, hashed a)) assets) []) else []

abbrev pub rename : Asset → Asset
rename a = record a { url_path = hashed a }

unfoldable pub renamed : Bool → List Asset → List Asset
renamed is_prod assets = if is_prod then map rename assets else assets

module _ {Server : Type 0} (pg : Postgres Server) where
  -- `upsert_asset`, for each asset
  unfoldable pub upsert_assets : List Asset → Tx Server → Result PushError (Tx Server)
  upsert_assets [] tx = ok tx
  upsert_assets (a ∷ assets) tx =
      execute pg (codes "upsert asset") (put_asset a) tx
      >>= count asset_upserted
      >>= upsert_assets assets
