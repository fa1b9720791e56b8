-- ===== src/Router.antt =====
-- crates/pg_web_ext/src/router.rs: `ServeOutcome`, `render_route` and `serve_in_tx`, with the
-- statement timer of request_timeout.rs. The worker's state is threaded through every call.
pub mod Rendering
pub mod Serving
pub mod Misses
use pg_web.Common.{
  ℕ, ◌==◌, ◌||◌, ◌&&◌, ltb, not, Bool, true, false, List, [], ◌∷◌, ◌++◌, Option, none, some,
  if◌then◌else◌, Text, codes, same, is_empty,
}
use pg_web.Common.Result.{Result, ok, err}
use pg_web.Json.{Value}
use pg_web.Errors.{ServeError, handler_return_not_json}
use pg_web.Settings.{current_request_timeout}
use pg_web.Pattern.{quote_literal}
use pg_web.Backend.{Backend}
use pg_web.Cache.{Worker, get_snapshot, render_template}
use pg_web.Envelope.{ResponseEnvelope, parse_response_envelope, inject_path_params}
use pg_web.Handler.{call_handler, timeout_or_default}
use pg_web.Routes.{
  MatchedRoute, Asset, lookup_route, lookup_fallback, list_allowed_methods, lookup_asset,
  is_suppressed_default,
}

pub record Response : Type 0 where
  pub status : ℕ
  pub body : Text
  pub content_type : Option Text
  pub headers : List (Text × Text)
  pub cookies : List Text

-- `ServeOutcome`
pub data ServeOutcome : Type 0 where
  response : Response → ServeOutcome
  asset : Asset → ServeOutcome
  error : ServeError → ServeOutcome

abbrev pub default_not_found_body : Text
default_not_found_body =
    codes
      "<!doctype html><html><head><meta charset=\"utf-8\"><title>Not found</title></head><body><h1>404 — Not found</h1><p>No route matches this path.</p></body></html>"

-- A response with no envelope.
abbrev pub plain : ℕ → Text → ServeOutcome
plain status body =
    response
      (record { status = status; body = body; content_type = none; headers = []; cookies = [] })

abbrev pub plain_or_error : ℕ → Result ServeError Text → ServeOutcome
plain_or_error status (ok body) = plain status body
plain_or_error status (err e) = error e

abbrev pub status_or : ℕ → Option ℕ → ℕ
status_or status none = status
status_or status (some s) = s

abbrev pub enveloped : ℕ → ResponseEnvelope → Result ServeError Text → ServeOutcome
enveloped status env (err e) = error e
enveloped status env (ok body) = response (record {
  status = status_or status env.status;
  body = body;
  content_type = env.content_type;
  headers = env.headers;
  cookies = env.cookies;
})

-- `serde_json::from_str(…).ok()`
abbrev pub parsed : {E A : Type 0} → Result E A → Option A
parsed (ok v) = some v
parsed (err e) = none

module _ {Db Tera : Type 0} (b : Backend Db Tera) (debug : Text → Text) where
  -- The body under an envelope: its own, or the template with its context, or nothing.
  unfoldable pub envelope_body :
      Option Text
      → Option Text
      → Option Value
      → Worker Db Tera
      → Result ServeError Text × Worker Db Tera
  envelope_body (some body) template context w = (ok body, w)
  envelope_body none (some tp) (some ctx) w = render_template b tp ctx w
  envelope_body none (some tp) none w = (ok [], w)
  envelope_body none none context w = (ok [], w)

  -- The part of `render_route` with no envelope: the text as it is, or the template with the JSON
  -- value that the text parses to.
  unfoldable pub render_parsed :
      Text → Text → Text → ℕ → Result Text Value → Worker Db Tera → ServeOutcome × Worker Db Tera
  render_parsed handler_name tp text status (err e) w =
      (error (handler_return_not_json handler_name text e), w)
  render_parsed handler_name tp text status (ok value) w =
      let (body, w') = render_template b tp value w in (plain_or_error status body, w')

  unfoldable pub render_legacy :
      Text → Option Text → Text → ℕ → Worker Db Tera → ServeOutcome × Worker Db Tera
  unfolding render_parsed
  render_legacy handler_name none text status w = (plain status text, w)
  render_legacy handler_name (some tp) text status w =
      render_parsed handler_name tp text status (b.parse_json text) w

  -- With the envelope, if the text holds one.
  unfoldable pub render_with :
      MatchedRoute
      → Text
      → ℕ
      → Option ResponseEnvelope
      → Worker Db Tera
      → ServeOutcome × Worker Db Tera
  unfolding envelope_body render_legacy
  render_with route text status none w =
      render_legacy route.handler_name route.template_path text status w
  render_with route text status (some env) w =
      let (body, w') = envelope_body env.body route.template_path env.context w in
      (enveloped status env body, w')

  -- What `render_route` does with the handler's text.
  unfoldable pub render_text :
      MatchedRoute → Text → ℕ → Worker Db Tera → ServeOutcome × Worker Db Tera
  unfolding envelope_body render_legacy
  render_text route text status w =
      render_with route text status (parse_response_envelope (parsed (b.parse_json text))) w

  abbrev pub render_called :
      MatchedRoute → ℕ → Result ServeError Text → Worker Db Tera → ServeOutcome × Worker Db Tera
  render_called route status (err e) w = (error e, w)
  render_called route status (ok text) w = render_text route text status w

  -- `render_route`
  unfoldable pub render_route :
      MatchedRoute → Value → ℕ → Worker Db Tera → ServeOutcome × Worker Db Tera
  unfolding render_text
  render_route route req status w =
      let (called, w') = call_handler b debug route.handler_name req w in
      render_called route status called w'

  -- The last part of `serve_in_tx`: the fallback route, or the built-in page.
  abbrev pub render_fallback :
      Value → Option MatchedRoute × Worker Db Tera → ServeOutcome × Worker Db Tera
  render_fallback req (none, w) = (plain 404 default_not_found_body, w)
  render_fallback req (some route, w) = render_route route req 404 w

  unfoldable pub serve_not_found : Value → Worker Db Tera → ServeOutcome × Worker Db Tera
  serve_not_found req w = render_fallback req (lookup_fallback b w)

  unfoldable pub serve_asset :
      Value → Result ServeError (Option Asset) → Worker Db Tera → ServeOutcome × Worker Db Tera
  serve_asset req (err e) w = (error e, w)
  serve_asset req (ok (some a)) w = (asset a, w)
  serve_asset req (ok none) w = serve_not_found req w

  -- Behind a route miss: assets for GET, then the fallback.
  unfoldable pub serve_miss : Text → Text → Value → Worker Db Tera → ServeOutcome × Worker Db Tera
  unfolding serve_asset serve_not_found
  serve_miss lookup_method path req w =
      if same lookup_method (codes "GET")
      then serve_asset req (lookup_asset b path w.db) w
      else serve_not_found req w

  -- The route that matched, unless it is a suppressed default.
  abbrev pub serve_matched :
      Text → Text → Value → Option MatchedRoute × Worker Db Tera → ServeOutcome × Worker Db Tera
  serve_matched lookup_method path req (none, w) = serve_miss lookup_method path req w
  serve_matched lookup_method path req (some route, w) =
      if is_suppressed_default b route.handler_name w.db
      then serve_miss lookup_method path req w
      else render_route route (inject_path_params req route.path_params) 200 w

  abbrev pub lookup_method_of : Text → Text
  lookup_method_of method = if same method (codes "HEAD") then codes "GET" else method

  unfoldable pub serve_lookup : Text → Text → Value → Worker Db Tera → ServeOutcome × Worker Db Tera
  unfolding serve_miss
  serve_lookup method path req w =
      serve_matched (lookup_method_of method) path req
        (lookup_route b (lookup_method_of method) path w)

  -- The answer to OPTIONS; none when it falls through.
  abbrev pub options_answer : Result ServeError Text → Option Text
  options_answer (err e) = none
  options_answer (ok allow) = if not (is_empty allow) then some allow else none

  abbrev pub no_content : Text → ServeOutcome
  no_content allow = response (record {
    status = 204;
    body = [];
    content_type = none;
    headers = (codes "Allow", allow) ∷ [];
    cookies = [];
  })

  abbrev pub serve_options :
      Text → Text → Value → Option Text → Worker Db Tera → ServeOutcome × Worker Db Tera
  serve_options method path req none w = serve_lookup method path req w
  serve_options method path req (some allow) w = (no_content allow, w)

  unfoldable pub serve_request :
      Text → Text → Value → Worker Db Tera → ServeOutcome × Worker Db Tera
  unfolding serve_lookup
  serve_request method path req w =
      if same method (codes "OPTIONS")
      then serve_options method path req (options_answer (list_allowed_methods b path w.db)) w
      else serve_lookup method path req w

  -- `request_timeout::arm` and `disarm`
  pub arm : Worker Db Tera → Worker Db Tera
  arm w =
      let ms = b.statement_timeout w.db in
      let tx = b.transaction_timeout w.db in
      if ltb 0 ms && (ltb ms tx || tx == 0)
      then (if not w.timer_active then record w { timer_active = true } else w)
      else if w.timer_active
      then record w { timer_active = false }
      else w

  pub disarm : Worker Db Tera → Worker Db Tera
  disarm w = if w.timer_active then record w { timer_active = false } else w

  -- The first statements of `serve_in_tx`: SET LOCAL, the guard, and the warm-up of the cache.
  unfoldable pub begin_request : Worker Db Tera → Worker Db Tera
  unfolding arm
  begin_request w =
      let timeout = timeout_or_default (current_request_timeout (b.timeout_value w.db)) in
      (get_snapshot b
        (arm (record w { db = b.set_statement_timeout (quote_literal timeout) w.db }))).1

  -- `serve_in_tx`; the guard is dropped when it returns, here as its last call. A panic, on which the
  -- guard is dropped too, is outside the model.
  unfoldable pub serve_in_tx : Text → Text → Value → Worker Db Tera → ServeOutcome × Worker Db Tera
  unfolding serve_request begin_request
  serve_in_tx method path req w =
      let (outcome, w') = serve_request method path req (begin_request w) in (outcome, disarm w')
