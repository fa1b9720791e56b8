-- ===== src/Tests/Serving.antt =====
-- Runs of a whole request in the worker.
use pg_web.Common.{◌≡◌, ◌≢◌, ◌⊎◌, ◌↔◌, refl, true, [], none, some, Text, codes}
use pg_web.Common.Result.{ok}
use pg_web.Json.{Value, Fields, obj, field, end, get}
use pg_web.Pattern.{quote_literal, is_safe_ident}
use pg_web.Envelope.{parse_response_envelope}
use pg_web.Envelope.{ResponseEnvelope}
use pg_web.Envelope.Reading.{IsRead, parse_response_envelope-IsRead}
use pg_web.Handler.{call_handler}
use pg_web.Handler.Calls.{call_handler-once}
use pg_web.Routes.{MatchedRoute}
use pg_web.Router.{render_route, serve_in_tx, serve_request, serve_lookup}
use pg_web.Router.Serving.{snapshot_for, serve_in_tx-snapshot}
use pg_web.Router.Rendering.{render_route-db}
use pg_web.Router.Misses.{serve_request-options}
use pg_web.Tests.World.{backend, quoted, worker, unreadable}

abbrev request : Value
request = obj end

abbrev show : MatchedRoute
show = record {
  handler_name = codes "pgweb.pages__posts__id";
  template_path = some (codes "posts/[id].html");
  path_params = [];
}

abbrev empty_envelope : Fields
empty_envelope = field (codes "$pgweb") (obj end) end

serve_in_tx-snapshot_example :
    (serve_in_tx backend quoted (codes "GET") (codes "/posts/7") request worker).1.snapshot
    ≡ some (snapshot_for backend quoted none 0)
serve_in_tx-snapshot_example =
    serve_in_tx-snapshot backend quoted (codes "GET") (codes "/posts/7") request worker

render_route-db_example :
    (render_route backend quoted show request 200 worker).1.db
    ≡ (call_handler backend quoted show.handler_name request worker).1.db
render_route-db_example = render_route-db backend quoted show request 200 worker

call_handler-once_example :
    ((call_handler backend quoted show.handler_name request worker).1 ≡ worker)
    ⊎ ((json : Text) × (is_safe_ident show.handler_name ≡ true)
        × (backend.print_json request ≡ ok json)
        × ((call_handler backend quoted show.handler_name request worker).1.db
            ≡ (backend.framework_call (quote_literal show.handler_name) (quote_literal json) 0).1))
call_handler-once_example = call_handler-once backend quoted show.handler_name request worker

parse_response_envelope-IsRead_example :
    ((parse_response_envelope (some (obj empty_envelope)) ≢ none) ↔ (
      (top : Fields) × (pgweb : Fields) × (some (obj empty_envelope) ≡ some (obj top))
      × (get (codes "$pgweb") top ≡ some (obj pgweb))))
    × ((env : ResponseEnvelope) (top pgweb : Fields)
        → parse_response_envelope (some (obj empty_envelope)) ≡ some env
        → some (obj empty_envelope) ≡ some (obj top)
        → get (codes "$pgweb") top ≡ some (obj pgweb)
        → IsRead top pgweb env)
parse_response_envelope-IsRead_example = parse_response_envelope-IsRead (some (obj empty_envelope))

serve_request-options_example :
    serve_request backend quoted (codes "OPTIONS") (codes "/posts/7") request worker
    ≡ serve_lookup backend quoted (codes "OPTIONS") (codes "/posts/7") request worker
serve_request-options_example =
    serve_request-options backend quoted (codes "/posts/7") request worker unreadable []
      (codes "attribute number out of bounds") refl refl
