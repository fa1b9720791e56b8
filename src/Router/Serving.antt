-- ===== src/Router/Serving.antt =====
-- What a request of crates/pg_web_ext/src/router.rs leaves behind in the worker: the snapshot of its
-- warm-up.
use pg_web.Common.{
  ℕ, refl, ◌∙◌, ◌≡◌, inl, inr, Bool, false, Option, none, some, Text, codes, same, Bool-cases,
  arith,
}
use pg_web.Common.Result.{Result, ok, err}
use pg_web.Json.{Value}
use pg_web.Errors.{ServeError}
use pg_web.Envelope.{ResponseEnvelope, parse_response_envelope, inject_path_params}
use pg_web.Backend.{Backend}
use pg_web.Cache.{RouteSnapshot, Worker, get_snapshot, build_snapshot, render_template}
use pg_web.Handler.{call_handler, timeout_or_default}
use pg_web.Pattern.{quote_literal}
use pg_web.Settings.{current_request_timeout}
use pg_web.Routes.{
  MatchedRoute, Asset, lookup_route, lookup_fallback, lookup_asset, list_allowed_methods,
  is_suppressed_default,
}
use pg_web.Router.{
  envelope_body, render_legacy, render_parsed, render_with, serve_asset, serve_options, render_text,
  render_called, render_route, serve_not_found, serve_miss, serve_matched, serve_lookup,
  serve_request, lookup_method_of, render_fallback, options_answer, parsed, arm, disarm,
  begin_request, serve_in_tx,
}

module _ {Db Tera : Type 0} (b : Backend Db Tera) (debug : Text → Text) where
  -- The worker holds this snapshot, and its timer is in this state.
  abbrev Keeps : RouteSnapshot Tera → Bool → Worker Db Tera → Type 0
  Keeps s t w = (w.snapshot ≡ some s) × (w.timer_active ≡ t)

  module _ {s : RouteSnapshot Tera} {t : Bool} where
    get_snapshot-Keeps : (w : Worker Db Tera) → Keeps s t w → Keeps s t (get_snapshot b w).1
    unfolding get_snapshot
    get_snapshot-Keeps w k = ground arith

    render_template-Keeps :
        (tp : Text) (v : Value) (w : Worker Db Tera)
        → Keeps s t w
        → Keeps s t (render_template b tp v w).1
    unfolding render_template
    render_template-Keeps tp v w k = get_snapshot-Keeps w k

    call_handler-Keeps :
        (name : Text) (req : Value) (w : Worker Db Tera)
        → Keeps s t w
        → Keeps s t (call_handler b debug name req w).1
    unfolding call_handler
    call_handler-Keeps name req w k = ground arith

    lookup_route-Keeps :
        (method path : Text) (w : Worker Db Tera)
        → Keeps s t w
        → Keeps s t (lookup_route b method path w).1
    unfolding lookup_route
    lookup_route-Keeps method path w k = get_snapshot-Keeps w k

    envelope_body-Keeps :
        (body tp : Option Text) (ctx : Option Value) (w : Worker Db Tera)
        → Keeps s t w
        → Keeps s t (envelope_body b debug body tp ctx w).1
    unfolding envelope_body
    envelope_body-Keeps (some body) tp ctx w k = k
    envelope_body-Keeps none (some tp) (some ctx) w k = render_template-Keeps tp ctx w k
    envelope_body-Keeps none (some tp) none w k = k
    envelope_body-Keeps none none ctx w k = k

    render_legacy-Keeps :
        (name : Text) (tp : Option Text) (text : Text) (status : ℕ) (w : Worker Db Tera)
        → Keeps s t w
        → Keeps s t (render_legacy b debug name tp text status w).1
    unfolding render_legacy
    render_legacy-Keeps name none text status w k = k
    render_legacy-Keeps name (some tp) text status w k = go (b.parse_json text)
      where
        go : (p : Result Text Value) → Keeps s t (render_parsed b debug name tp text status p w).1
        go (ok value) = render_template-Keeps tp value w k
        go (err e) = k

    render_text-Keeps :
        (route : MatchedRoute) (text : Text) (status : ℕ) (w : Worker Db Tera)
        → Keeps s t w
        → Keeps s t (render_text b debug route text status w).1
    unfolding render_with
    render_text-Keeps route text status w k =
        unfold render_text in go (parse_response_envelope (parsed (b.parse_json text)))
      where
        go : (e : Option ResponseEnvelope) → Keeps s t (render_with b debug route text status e w).1
        go none = render_legacy-Keeps route.handler_name route.template_path text status w k
        go (some env) = envelope_body-Keeps env.body route.template_path env.context w k

    render_route-Keeps :
        (route : MatchedRoute) (req : Value) (status : ℕ) (w : Worker Db Tera)
        → Keeps s t w
        → Keeps s t (render_route b debug route req status w).1
    unfolding render_route
    render_route-Keeps route req status w k =
        go (call_handler b debug route.handler_name req w).0
          (call_handler b debug route.handler_name req w).1
          (call_handler-Keeps route.handler_name req w k)
      where
        go :
            (r : Result ServeError Text) (w' : Worker Db Tera)
            → Keeps s t w'
            → Keeps s t (render_called b debug route status r w').1
        go (ok text) w' k' = render_text-Keeps route text status w' k'
        go (err e) w' k' = k'

    serve_not_found-Keeps :
        (req : Value) (w : Worker Db Tera)
        → Keeps s t w
        → Keeps s t (serve_not_found b debug req w).1
    unfolding serve_not_found lookup_fallback
    serve_not_found-Keeps req w k =
        go (lookup_route b (codes "404") (codes "/") w).0
          (lookup_route b (codes "404") (codes "/") w).1
          (lookup_route-Keeps (codes "404") (codes "/") w k)
      where
        go :
            (o : Option MatchedRoute) (w' : Worker Db Tera)
            → Keeps s t w'
            → Keeps s t (render_fallback b debug req (o, w')).1
        go none w' k' = k'
        go (some route) w' k' = render_route-Keeps route req 404 w' k'

    serve_miss-Keeps :
        (method path : Text) (req : Value) (w : Worker Db Tera)
        → Keeps s t w
        → Keeps s t (serve_miss b debug method path req w).1
    unfolding serve_asset
    serve_miss-Keeps method path req w k =
        unfold serve_miss in
        elim (Bool-cases (same method (codes "GET"))) [
          | inl get ↦ rw get (go (lookup_asset b path w.db))
          | inr other ↦ rw other (serve_not_found-Keeps req w k)
        ]
      where
        go : (r : Result ServeError (Option Asset)) → Keeps s t (serve_asset b debug req r w).1
        go (err e) = k
        go (ok none) = serve_not_found-Keeps req w k
        go (ok (some a)) = k

    serve_lookup-Keeps :
        (method path : Text) (req : Value) (w : Worker Db Tera)
        → Keeps s t w
        → Keeps s t (serve_lookup b debug method path req w).1
    unfolding serve_lookup
    serve_lookup-Keeps method path req w k =
        go (lookup_route b m path w).0 (lookup_route b m path w).1 (lookup_route-Keeps m path w k)
      where
        m : Text
        m = lookup_method_of b debug method

        go :
            (o : Option MatchedRoute) (w' : Worker Db Tera)
            → Keeps s t w'
            → Keeps s t (serve_matched b debug m path req (o, w')).1
        go none w' k' = serve_miss-Keeps m path req w' k'
        go (some route) w' k' =
            elim (Bool-cases (is_suppressed_default b route.handler_name w'.db)) [
              | inl off ↦ rw off (serve_miss-Keeps m path req w' k')
              | inr on ↦
                  rw on
                    (render_route-Keeps route (inject_path_params req route.path_params) 200 w' k')
            ]

    serve_request-Keeps :
        (method path : Text) (req : Value) (w : Worker Db Tera)
        → Keeps s t w
        → Keeps s t (serve_request b debug method path req w).1
    unfolding serve_request
    serve_request-Keeps method path req w k = elim (Bool-cases (same method (codes "OPTIONS"))) [
      | inl options ↦ rw options (go (options_answer b debug (list_allowed_methods b path w.db)))
      | inr other ↦ rw other (serve_lookup-Keeps method path req w k)
    ]
      where
        go : (o : Option Text) → Keeps s t (serve_options b debug method path req o w).1
        go none = serve_lookup-Keeps method path req w k
        go (some allow) = k

  -- The snapshot a request works with: the one in the worker, or one built from its transaction.
  abbrev pub snapshot_for : Option (RouteSnapshot Tera) → Db → RouteSnapshot Tera
  snapshot_for (some s) db = s
  snapshot_for none db = build_snapshot b db

  -- The database of the transaction, with its statement timeout set.
  abbrev pub limited : Db → Db
  limited db =
      b.set_statement_timeout
        (quote_literal (timeout_or_default (current_request_timeout (b.timeout_value db)))) db

  arm-db : (w : Worker Db Tera) → (arm b debug w).db ≡ w.db
  unfolding arm
  arm-db w = ground arith

  arm-snapshot : (w : Worker Db Tera) → (arm b debug w).snapshot ≡ w.snapshot
  unfolding arm
  arm-snapshot w = ground arith

  get_snapshot-snapshot :
      (w : Worker Db Tera) → (get_snapshot b w).1.snapshot ≡ some (snapshot_for w.snapshot w.db)
  unfolding get_snapshot
  get_snapshot-snapshot w = go w.snapshot w.db w.timer_active
    where
      go :
          (o : Option (RouteSnapshot Tera)) (db : Db) (t : Bool)
          → (get_snapshot b (record { db = db; snapshot = o; timer_active = t })).1.snapshot
            ≡ some (snapshot_for o db)
      go none db t = refl
      go (some s) db t = refl

  disarm-timer : (w : Worker Db Tera) → (disarm b debug w).timer_active ≡ false
  unfolding disarm
  disarm-timer w = ground arith

  disarm-snapshot : (w : Worker Db Tera) → (disarm b debug w).snapshot ≡ w.snapshot
  unfolding disarm
  disarm-snapshot w = ground arith

  begin_request-snapshot :
      (w : Worker Db Tera)
      → (begin_request b debug w).snapshot ≡ some (snapshot_for w.snapshot (limited w.db))
  unfolding begin_request
  begin_request-snapshot w =
      let w0 : Worker Db Tera = record w { db = limited w.db } in
      get_snapshot-snapshot (arm b debug w0) ∙ rw (arm-db w0) (rw (arm-snapshot w0) refl)

  -- Behind a request the worker holds the snapshot that it held before; and if it held none, the
  -- one built from the database of the request's transaction before the handler ran.
  pub serve_in_tx-snapshot :
      (method path : Text) (req : Value) (w : Worker Db Tera)
      → (serve_in_tx b debug method path req w).1.snapshot
        ≡ some (snapshot_for w.snapshot (limited w.db))
  unfolding serve_in_tx
  serve_in_tx-snapshot method path req w =
      let w1 = begin_request b debug w in
      disarm-snapshot (serve_request b debug method path req w1).1
      ∙ (serve_request-Keeps method path req w1 (begin_request-snapshot w, refl)).0

  -- On the same request value, `serve_in_tx` gives for HEAD the outcome and the worker that it
  -- gives for GET.
  pub serve_in_tx-head :
      (path : Text) (req : Value) (w : Worker Db Tera)
      → serve_in_tx b debug (codes "HEAD") path req w ≡ serve_in_tx b debug (codes "GET") path req w
  unfolding serve_in_tx same
  serve_in_tx-head path req w = refl
