-- ===== src/Http.antt =====
-- crates/pg_web_ext/src/http.rs: `handle`, from the request to the response, with `render_asset`,
-- `render_error`, `is_fingerprinted_url`, `is_disallowed_header` and `parse_urlencoded`. The header
-- map, the status codes, the form decoder and the page of `render_dev_page` are parameters.
pub mod Assets
pub mod Headers
pub mod Forms
use pg_web.Common.{
  ℕ, ◌≡◌, ◌≢◌, ◌==◌, ◌||◌, ◌&&◌, not, ltb, leb, all, length, Bool, true, false, List, [], ◌∷◌, ◌++◌,
  Option, none, some, if◌then◌else◌, Text, codes, same, map, split, rsplit_once, starts_with, bytes,
  is_empty, is_ascii_hexdigit, to_ascii_lowercase, any,
}
use pg_web.Json.{Value, Fields, obj, end, str, field, set, of_texts}
use pg_web.Errors.{ServeError}
use pg_web.Settings.{Env, development, production, current_env}
use pg_web.Livereload.{inject_script_if_eligible}
use pg_web.Backend.{Backend}
use pg_web.Cache.{Worker, cached_env}
use pg_web.Routes.{Asset}
use pg_web.Router.{Response, ServeOutcome, response, asset, error, serve_in_tx}

-- `file.split('.')` from its end: at least three parts, and the last but one.
abbrev pub file_of : Text → Option (Text × Text) → Text
file_of url none = url
file_of url (some (dir, f)) = f

abbrev pub last_but_one : List Text → Option Text
last_but_one [] = none
last_but_one (a ∷ []) = none
last_but_one (a ∷ b ∷ []) = some a
last_but_one (a ∷ b ∷ c ∷ rest) = last_but_one (b ∷ c ∷ rest)

abbrev pub is_hash : Option Text → Bool
is_hash none = false
is_hash (some h) = leb 8 (length (bytes h)) && all is_ascii_hexdigit h

-- `is_fingerprinted_url`
unfoldable pub is_fingerprinted_url : Text → Bool
is_fingerprinted_url url =
    let parts = split b'.' (file_of url (rsplit_once b'/' url)) in
    if ltb (length parts) 3 then false else is_hash (last_but_one parts)

abbrev pub denylist : List Text
denylist =
    codes "connection"
    ∷ codes "content-length"
    ∷ codes "content-type"
    ∷ codes "transfer-encoding"
    ∷ codes "keep-alive"
    ∷ codes "upgrade"
    ∷ codes "te"
    ∷ codes "trailer"
    ∷ codes "proxy-authenticate"
    ∷ codes "proxy-authorization"
    ∷ []

-- `is_disallowed_header`
unfoldable pub is_disallowed_header : Text → Bool
is_disallowed_header name = any (same (map to_ascii_lowercase name)) denylist

-- The crate `http`: `insert` replaces every value of a name, `append` adds one behind them, and a
-- name is kept in lower case.
pub record HeaderMap (H : Type 0) : Type 0 where
  pub insert : Text → Text → H → H
  pub append : Text → Text → H → H
  pub get_all : Text → H → List Text
  -- `HeaderName::from_bytes` and `HeaderValue::from_str`, as the name and whether a value is one
  pub header_name : Text → Option Text
  pub is_header_value : Text → Bool
  -- the headers of `(StatusCode, String).into_response()`, and of a response built with none
  pub string_headers : H
  pub no_headers : H
  pub get_all-insert : (n v : Text) (h : H) → get_all n (insert n v h) ≡ v ∷ []
  pub get_all-insert_other : (m n v : Text) (h : H) → n ≢ m → get_all m (insert n v h) ≡ get_all m h
  pub get_all-append_other : (m n v : Text) (h : H) → n ≢ m → get_all m (append n v h) ≡ get_all m h
  pub get_all-append : (n v : Text) (h : H) → get_all n (append n v h) ≡ get_all n h ++ v ∷ []
  pub header_name-lower : (k n : Text) → header_name k ≡ some n → n ≡ map to_ascii_lowercase k

pub record Request : Type 0 where
  pub method : Text
  pub path : Text
  pub query : Option Text
  pub content_type : Option Text
  pub if_none_match : Option Text
  -- `to_bytes` with the limit of 2 MiB: none when it fails
  pub body : Option (List ℕ)

pub record HttpResponse (H : Type 0) : Type 0 where
  pub status : ℕ
  pub headers : H
  pub body : List ℕ

-- The other calls of `handle` into crates and into the part of errors.rs that is not modelled.
pub record HttpLibrary : Type 0 where
  pub from_utf8 : List ℕ → Option Text
  pub urlencoded : Text → Option (List (Text × Text))
  pub from_u16 : ℕ → Option ℕ
  pub to_text : ℕ → Text
  -- the text of the error for a value that is no header value
  pub header_error : Text
  pub render_dev_page : ServeError → Value → ℕ → Text

abbrev pub or_text : Text → Option Text → Text
or_text d none = d
or_text d (some t) = t

abbrev pub default_content_type : Text
default_content_type = codes "text/html; charset=utf-8"

-- `unwrap_or(StatusCode::OK)`
abbrev or_ok : Option ℕ → ℕ
or_ok none = 200
or_ok (some s) = s

-- `pairs.into_iter().map(…).collect()`: a later pair replaces an earlier one.
unfoldable pub collect_pairs : Fields → List (Text × Text) → Fields
collect_pairs fs [] = fs
collect_pairs fs ((k, v) ∷ ps) = collect_pairs (set k (str v) fs) ps

abbrev pub pairs_or_none : Option (List (Text × Text)) → List (Text × Text)
pairs_or_none none = []
pairs_or_none (some ps) = ps

module _ (lib : HttpLibrary) where
  -- `parse_urlencoded`
  unfoldable pub parse_urlencoded : Text → Fields
  unfolding collect_pairs
  parse_urlencoded s =
      if is_empty s then end else collect_pairs end (pairs_or_none (lib.urlencoded s))

  abbrev is_form : Option Text → Bool
  is_form none = false
  is_form (some v) = starts_with (codes "application/x-www-form-urlencoded") v

  -- `json!({…})`, with the keys in their order
  unfoldable pub req_value : Request → List ℕ → Value
  unfolding parse_urlencoded
  req_value req body =
      let form =
        if is_form req.content_type
        then parse_urlencoded (or_text [] (lib.from_utf8 body))
        else end in
      let query = parse_urlencoded (or_text [] req.query) in
      obj (
        field (codes "body") (obj form) (
          field (codes "method") (str req.method) (
            field (codes "path") (str req.path)
              (field (codes "path_params") (obj end) (field (codes "query") (obj query) end)))))

  module _ {H : Type 0} (hs : HeaderMap H) where
    abbrev status_plain : ℕ → Text → HttpResponse H
    status_plain status body = record {
      status = status;
      headers = hs.insert (codes "content-type") (codes "text/plain; charset=utf-8") hs.no_headers;
      body = bytes body;
    }

    -- The loop over the envelope's headers.
    abbrev pub insert_named : Option Text → Text → H → H
    insert_named none v h = h
    insert_named (some n) v h = if hs.is_header_value v then hs.insert n v h else h

    unfoldable pub insert_headers : List (Text × Text) → H → H
    insert_headers [] h = h
    insert_headers ((k, v) ∷ rest) h =
        insert_headers rest
          (if not (is_disallowed_header k) then insert_named (hs.header_name k) v h else h)

    -- The loop over the cookies.
    unfoldable pub append_cookies : List Text → H → H
    append_cookies [] h = h
    append_cookies (c ∷ cs) h =
        append_cookies cs (if hs.is_header_value c then hs.append (codes "set-cookie") c h else h)

    abbrev pub insert_content_type : Text → H → H
    insert_content_type ct h =
        hs.insert (codes "content-type")
          (if hs.is_header_value ct then ct else default_content_type) h

    abbrev pub insert_length : Bool → Text → H → H
    insert_length is_head body h =
        let n = lib.to_text (length (bytes body)) in
        if is_head && hs.is_header_value n then hs.insert (codes "content-length") n h else h

    -- The arm of `ServeOutcome::Response`
    unfoldable pub render_response : Bool → Env → Response → HttpResponse H
    unfolding insert_headers append_cookies
    render_response is_head env r =
        let ct = or_text default_content_type r.content_type in
        let body =
          if starts_with (codes "text/html") ct
          then inject_script_if_eligible r.body env
          else r.body in
        record {
          status = or_ok (lib.from_u16 r.status);
          headers = append_cookies r.cookies (
              insert_headers r.headers
                (insert_length is_head body (insert_content_type ct hs.string_headers)));
          body = if is_head then [] else bytes body;
        }

    abbrev pub cache_control : Env → Bool → Text
    cache_control development fingerprinted = codes "no-cache"
    cache_control production true = codes "public, max-age=31536000, immutable"
    cache_control production false = codes "public, max-age=0, must-revalidate"

    abbrev pub matches_etag : Option Text → Text → Bool
    matches_etag none etag = false
    matches_etag (some v) etag = same v etag

    -- `into_response` of a header array: 500 if one of its values is no header value
    abbrev pub with_headers : Bool → HttpResponse H → HttpResponse H
    with_headers valid r =
        if valid
        then r
        else record { status = 500; headers = hs.string_headers; body = bytes lib.header_error }

    -- `render_asset`
    unfoldable pub render_asset : Env → Text → Asset → Option Text → Bool → HttpResponse H
    unfolding is_fingerprinted_url
    render_asset env path a if_none_match emit_body =
        let control = cache_control env (is_fingerprinted_url path) in
        let size = lib.to_text (length a.content) in
        if matches_etag if_none_match a.etag
        then with_headers (hs.is_header_value a.etag && hs.is_header_value control) (record {
          status = 304;
          headers =
              hs.insert (codes "cache-control") control
                (hs.insert (codes "etag") a.etag hs.no_headers);
          body = [];
        })
        else with_headers
            (hs.is_header_value a.etag
              && hs.is_header_value control
              && hs.is_header_value a.content_type
              && hs.is_header_value size)
            (record {
              status = 200;
              headers = hs.insert (codes "content-length") size (
                  hs.insert (codes "cache-control") control (
                    hs.insert (codes "etag") a.etag
                      (hs.insert (codes "content-type") a.content_type hs.no_headers)));
              body = if emit_body then a.content else [];
            })

    -- `render_error`, with the environment read from the database
    unfoldable pub render_error : Env → ServeError → Value → HttpResponse H
    render_error development e req = record {
      status = 500;
      headers = hs.insert (codes "content-type") default_content_type hs.no_headers;
      body = bytes (lib.render_dev_page e req 500);
    }
    render_error production e req = status_plain 500 (codes "internal server error\n")

    module _ {Db Tera : Type 0} (b : Backend Db Tera) (debug : Text → Text) where
      -- The answer to what `router::serve` returns.
      abbrev answer :
          Request → Value → ServeOutcome × Worker Db Tera → HttpResponse H × Worker Db Tera
      answer req value (response r, w) =
          let (env, w') = cached_env b w in
          (render_response (same req.method (codes "HEAD")) env r, w')
      answer req value (asset a, w) =
          let (env, w') = cached_env b w in
          (render_asset env req.path a req.if_none_match (not (same req.method (codes "HEAD"))), w')
      answer req value (error e, w) = (render_error (current_env (b.env_value w.db)) e value, w)

      abbrev handle_body :
          Request → Option (List ℕ) → Worker Db Tera → HttpResponse H × Worker Db Tera
      handle_body req none w =
          (status_plain 400 (codes "request body too large or unreadable\n"), w)
      handle_body req (some body) w =
          let value = req_value req body in
          answer req value (serve_in_tx b debug req.method req.path value w)

      -- `handle`
      unfoldable pub handle : Request → Worker Db Tera → HttpResponse H × Worker Db Tera
      unfolding req_value render_response render_asset render_error
      handle req w = handle_body req req.body w
