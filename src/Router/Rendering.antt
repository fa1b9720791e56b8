-- ===== src/Router/Rendering.antt =====
-- What a route's rendering makes of the handler's answer: the database behind it, and the statuses.
use pg_web.Common.{ℕ, ◌≡◌, refl, Option, none, some, Text, arith}
use pg_web.Common.Result.{Result, ok, err}
use pg_web.Json.{Value}
use pg_web.Errors.{ServeError}
use pg_web.Envelope.{ResponseEnvelope, parse_response_envelope}
use pg_web.Backend.{Backend}
use pg_web.Cache.{Worker, get_snapshot, render_template}
use pg_web.Handler.{call_handler}
use pg_web.Routes.{MatchedRoute}
use pg_web.Router.{
  envelope_body, render_legacy, render_parsed, render_with, render_text, render_called,
  render_route, parsed,
}

module _ {Db Tera : Type 0} (b : Backend Db Tera) (debug : Text → Text) where
  get_snapshot-db : (w : Worker Db Tera) → (get_snapshot b w).1.db ≡ w.db
  unfolding get_snapshot
  get_snapshot-db w = ground arith

  render_template-db :
      (tp : Text) (v : Value) (w : Worker Db Tera) → (render_template b tp v w).1.db ≡ w.db
  unfolding render_template
  render_template-db tp v w = get_snapshot-db w

  envelope_body-db :
      (body tp : Option Text) (ctx : Option Value) (w : Worker Db Tera)
      → (envelope_body b debug body tp ctx w).1.db ≡ w.db
  unfolding envelope_body
  envelope_body-db (some body) tp ctx w = refl
  envelope_body-db none (some tp) (some ctx) w = render_template-db tp ctx w
  envelope_body-db none (some tp) none w = refl
  envelope_body-db none none ctx w = refl

  render_parsed-db :
      (name tp text : Text) (status : ℕ) (p : Result Text Value) (w : Worker Db Tera)
      → (render_parsed b debug name tp text status p w).1.db ≡ w.db
  unfolding render_parsed
  render_parsed-db name tp text status (ok value) w = render_template-db tp value w
  render_parsed-db name tp text status (err e) w = refl

  render_with-db :
      (route : MatchedRoute) (text : Text) (status : ℕ) (e : Option ResponseEnvelope)
      (w : Worker Db Tera)
      → (render_with b debug route text status e w).1.db ≡ w.db
  unfolding render_with render_legacy
  render_with-db route text status (some env) w =
      envelope_body-db env.body route.template_path env.context w
  render_with-db route text status none w = go route.template_path
    where
      go :
          (tp : Option Text)
          → (render_legacy b debug route.handler_name tp text status w).1.db ≡ w.db
      go none = refl
      go (some tp) = render_parsed-db route.handler_name tp text status (b.parse_json text) w

  -- The database behind `render_route` is the one that the call of the handler left, whatever the
  -- outcome, an error of the template included.
  pub render_route-db :
      (route : MatchedRoute) (req : Value) (status : ℕ) (w : Worker Db Tera)
      → (render_route b debug route req status w).1.db
        ≡ (call_handler b debug route.handler_name req w).1.db
  unfolding render_route render_text
  render_route-db route req status w =
      go (call_handler b debug route.handler_name req w).0
        (call_handler b debug route.handler_name req w).1
    where
      go :
          (r : Result ServeError Text) (w' : Worker Db Tera)
          → (render_called b debug route status r w').1.db ≡ w'.db
      go (ok text) w' =
          render_with-db route text status (parse_response_envelope (parsed (b.parse_json text))) w'
      go (err e) w' = refl
