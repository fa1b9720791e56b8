-- ===== src/Http/Assets.antt =====
-- `render_asset` of crates/pg_web_ext/src/http.rs: an asset is revalidated by its tag.
use pg_web.Common.{
  ℕ, ◌≡◌, ◌≢◌, refl, ◌&&◌, length, Bool, true, false, [], ◌∷◌, Option, some, if◌then◌else◌, Text,
  codes, same, same_iff, arith, ◌∙◌, Bool-cases, inl, inr,
}
use pg_web.Settings.{Env}
use pg_web.Routes.{Asset}
use pg_web.Http.{
  HttpLibrary, HeaderMap, cache_control, matches_etag, is_fingerprinted_url, render_asset,
}

module _ (lib : HttpLibrary) {H : Type 0} (hs : HeaderMap H) where
  -- The values that a 304 and a 200 carry are header values.
  abbrev is_tagged : Env → Text → Asset → Bool
  is_tagged env path a =
      hs.is_header_value a.etag
      && hs.is_header_value (cache_control lib hs env (is_fingerprinted_url path))

  abbrev is_sendable : Env → Text → Asset → Bool
  is_sendable env path a =
      is_tagged env path a
      && hs.is_header_value a.content_type
      && hs.is_header_value (lib.to_text (length a.content))

  -- An answer of 200 carries the asset's tag, and its values are header values.
  render_asset-ok :
      (env : Env) (path : Text) (a : Asset) (if_none_match : Option Text) (emit_body : Bool)
      → (render_asset lib hs env path a if_none_match emit_body).status ≡ 200
      → (is_sendable env path a ≡ true)
        × (hs.get_all
              (codes "etag")
              (render_asset lib hs env path a if_none_match emit_body).headers
            ≡ a.etag ∷ [])
  unfolding render_asset
  render_asset-ok env path a o emit_body is_ok = elim (Bool-cases (matches_etag lib hs o a.etag)) [
    | inl hit ↦ elim (Bool-cases (is_tagged env path a)) [
      | inl fine ↦ absurd (tagged_ne_ok (rw (hit, fine) at is_ok))
      | inr bad ↦ absurd (failed_ne_ok (rw (hit, bad) at is_ok))
    ]
    | inr miss ↦ elim (Bool-cases (is_sendable env path a)) [
      | inl fine ↦ (
        fine,
        rw miss (
            rw fine (
              hs.get_all-insert_other _ _ _ _ (λ e. cc)
              ∙ hs.get_all-insert_other _ _ _ _ (λ e. cc)
              ∙ hs.get_all-insert _ _ _)),
      )
      | inr bad ↦ absurd (failed_ne_ok (rw (miss, bad) at is_ok))
    ]
  ]
    where
      tagged_ne_ok : ◌≢◌ {A = ℕ} 304 200
      tagged_ne_ok e = omega arith

      failed_ne_ok : ◌≢◌ {A = ℕ} 500 200
      failed_ne_ok e = omega arith

  -- Revalidation: an asset that is answered with 200 has one entity tag in the answer; a request that
  -- sends this tag back is answered with 304, no body and the same tag, and one that sends another
  -- tag is answered with 200 and, where the body is to be sent, the content.
  pub render_asset-revalidates :
      (env : Env) (path : Text) (a : Asset) (if_none_match : Option Text) (emit_body again : Bool)
      → (render_asset lib hs env path a if_none_match emit_body).status ≡ 200
      → (tag : Text) × (hs.get_all
            (codes "etag")
            (render_asset lib hs env path a if_none_match emit_body).headers
          ≡ tag ∷ [])
        × ((render_asset lib hs env path a (some tag) again).status ≡ 304)
        × ((render_asset lib hs env path a (some tag) again).body ≡ [])
        × (hs.get_all (codes "etag") (render_asset lib hs env path a (some tag) again).headers
            ≡ tag ∷ [])
        × ((other : Text)
            → other ≢ tag
            → ((render_asset lib hs env path a (some other) again).status ≡ 200)
              × ((render_asset lib hs env path a (some other) again).body
                  ≡ (if again then a.content else [])))
  unfolding render_asset
  render_asset-revalidates env path a o emit_body again is_ok =
      let (fine, tagged) = render_asset-ok env path a o emit_body is_ok in
      let hit : same a.etag a.etag ≡ true = (same_iff a.etag a.etag).1 refl in
      let tagged_fine : is_tagged env path a ≡ true = ground arith in
      (
        a.etag,
        tagged,
        rw (hit, tagged_fine) refl,
        rw (hit, tagged_fine) refl,
        rw (hit, tagged_fine) (hs.get_all-insert_other _ _ _ _ (λ e. cc) ∙ hs.get_all-insert _ _ _),
        λ other differs.
            let miss : same other a.etag ≡ false = ground (arith, same_iff other a.etag) in
            (rw (miss, fine) refl, rw (miss, fine) refl),
      )
