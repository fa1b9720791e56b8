-- ===== src/Tests/Responses.antt =====
-- Runs of the HTTP layer, of the script's injection and of the error catalog.
use pg_web.Common.{none, ◌≡◌, ◌≢◌, refl, true, false, [], ◌∷◌, some, Text, codes, length}
use pg_web.Settings.{development}
use pg_web.Errors.{other, code, title}
use pg_web.Errors.Codes.{title-code}
use pg_web.Routes.{Asset}
use pg_web.Router.{Response}
use pg_web.Http.{render_response, render_asset}
use pg_web.Http.Headers.{render_response-content_type, render_response-head}
use pg_web.Http.Assets.{render_asset-revalidates}
use pg_web.Tests.World.{header_map, library}

abbrev page : Text
page = codes "<body>hi</body>"

abbrev answer : Response
answer = record {
  status = 200;
  body = page;
  content_type = some (codes "application/json");
  headers = (codes "Content-Type", codes "text/plain") ∷ (codes "Content-Length", codes "0") ∷ [];
  cookies = codes "a=1" ∷ [];
}

abbrev style : Asset
style = record { content = codes "a{}"; content_type = codes "text/css"; etag = codes "\"1\"" }

render_response-content_type_example :
    header_map.get_all
      (codes "content-type")
      (render_response library header_map false development answer).headers
    ≡ codes "application/json" ∷ []
render_response-content_type_example =
    render_response-content_type library header_map false development answer

render_response-head_example :
    ((render_response library header_map true development answer).body ≡ [])
    × ((render_response library header_map true development answer).status
        ≡ (render_response library header_map false development answer).status)
    × (header_map.get_all
          (codes "content-length")
          (render_response library header_map true development answer).headers
        ≡ library.to_text
            (length (render_response library header_map false development answer).body)
          ∷ [])
render_response-head_example = render_response-head library header_map development answer refl

style_ok :
    (render_asset library header_map development (codes "/a.css") style none true).status ≡ 200
unfolding render_asset
style_ok = refl

render_asset-revalidates_example :
    (tag : Text) × (header_map.get_all
        (codes "etag")
        (render_asset library header_map development (codes "/a.css") style none true).headers
      ≡ tag ∷ [])
    × ((render_asset library header_map development (codes "/a.css") style (some tag) true).status
        ≡ 304)
    × ((render_asset library header_map development (codes "/a.css") style (some tag) true).body
        ≡ [])
    × (header_map.get_all
          (codes "etag")
          (render_asset library header_map development
            (codes "/a.css")
            style
            (some tag)
            true).headers
        ≡ tag ∷ [])
    × ((other : Text)
        → other ≢ tag
        → ((render_asset library header_map development
              (codes "/a.css")
              style
              (some other)
              true).status
            ≡ 200)
          × ((render_asset library header_map development
                (codes "/a.css")
                style
                (some other)
                true).body
              ≡ style.content))
render_asset-revalidates_example =
    render_asset-revalidates library header_map development (codes "/a.css") style none true true
      style_ok

same_code : code (other (codes "a")) ≡ code (other (codes "b"))
unfolding code
same_code = refl

title-code_example : title (other (codes "a")) ≡ title (other (codes "b"))
title-code_example = title-code (other (codes "a")) (other (codes "b")) same_code
