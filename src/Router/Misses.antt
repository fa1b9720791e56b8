-- ===== src/Router/Misses.antt =====
-- OPTIONS of crates/pg_web_ext/src/router.rs, when the rows of its query cannot be read.
use pg_web.Common.{
  ℕ, ◌≡◌, ◌<◌, inl, inr, refl, Bool, true, false, Option, none, some, Text, codes, same, Bool-cases,
  ltb, arith, List, [], ◌∷◌, sym, ap, ◌∙◌, same_refl,
}
use pg_web.Common.Result.{Result, ok, err}
use pg_web.Json.{Value}
use pg_web.Errors.{other}
use pg_web.Backend.{Backend, Column}
use pg_web.Cache.{Worker}
use pg_web.Routes.{list_allowed_methods, read_method_rows}
use pg_web.Router.{serve_lookup, serve_request}

module _ {Db Tera : Type 0} (b : Backend Db Tera) (debug : Text → Text) where
  unreadable_rows :
      (path : Text) (db : Db) (row : ℕ → Column Text) (rows : List (ℕ → Column Text)) (e : Text)
      → b.method_rows db ≡ ok (row ∷ rows)
      → row 0 ≡ err e
      → list_allowed_methods b path db ≡ err (other e)
  unfolding list_allowed_methods read_method_rows pg_web.Common.Result.collect
  unreadable_rows path db row rows e read unreadable = rw read (rw unreadable refl)

  -- When the column with the ordinal 0 of the first row of the routes table is an error, OPTIONS is
  -- not answered with the allowed methods, whatever routes match the path: the request is looked up
  -- as any other.
  pub serve_request-options :
      (path : Text) (req : Value) (w : Worker Db Tera) (row : ℕ → Column Text)
      (rows : List (ℕ → Column Text)) (e : Text)
      → b.method_rows w.db ≡ ok (row ∷ rows)
      → row 0 ≡ err e
      → serve_request b debug (codes "OPTIONS") path req w
        ≡ serve_lookup b debug (codes "OPTIONS") path req w
  unfolding serve_request same
  serve_request-options path req w row rows e read unreadable =
      rw (unreadable_rows path w.db row rows e read unreadable) refl
