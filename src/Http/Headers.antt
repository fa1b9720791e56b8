-- ===== src/Http/Headers.antt =====
-- The headers of a response: those that the framework computes stay its own, HEAD answers what GET
-- does, and an asset is revalidated by its tag.
use pg_web.Common.{
  ◌≡◌, ◌≢◌, refl, length, Bool, true, false, List, [], ◌∷◌, ◌++◌, Option, none, some, if◌then◌else◌,
  Text, codes, same, map, bytes, ap, sym, ◌∙◌, Bool-cases, inl, inr, filter, to_ascii_lowercase,
  any,
}
use pg_web.Settings.{Env}
use pg_web.Router.{Response}
use pg_web.Http.{
  HttpLibrary, HeaderMap, insert_named, insert_headers, append_cookies, render_response, denylist,
  is_disallowed_header, or_text, default_content_type, insert_length,
}

content_type-denied : any (same (codes "content-type")) denylist ≡ true
unfolding same
content_type-denied = refl

content_length-denied : any (same (codes "content-length")) denylist ≡ true
unfolding same
content_length-denied = refl

++_nil : (a : List Text) → a ≡ a ++ []
++_nil [] = refl
++_nil (x ∷ a) = ap (◌∷◌ x) (++_nil a)

++_assoc : (a b c : List Text) → (a ++ b) ++ c ≡ a ++ (b ++ c)
++_assoc [] b c = refl
++_assoc (x ∷ a) b c = ap (◌∷◌ x) (++_assoc a b c)

module _ (lib : HttpLibrary) {H : Type 0} (hs : HeaderMap H) where
  module _ (m : Text) (denied : any (same m) denylist ≡ true) where
    names_differ :
        (k n : Text) → is_disallowed_header k ≡ false → n ≡ map to_ascii_lowercase k → n ≢ m
    unfolding is_disallowed_header
    names_differ k n allowed lower n_is =
        let clash : false ≡ true =
          sym allowed ∙ ap (λ x. any (same x) denylist) (sym lower ∙ n_is) ∙ denied in
        cc

    insert_named-denied :
        (k v : Text) (h : H)
        → is_disallowed_header k ≡ false
        → (o : Option Text) → hs.header_name k ≡ o
        → hs.get_all m (insert_named lib hs o v h) ≡ hs.get_all m h
    unfolding is_disallowed_header
    insert_named-denied k v h allowed none e = refl
    insert_named-denied k v h allowed (some n) e = elim (Bool-cases (hs.is_header_value v)) [
      | inl fine ↦
          rw fine (
            hs.get_all-insert_other m n v h (names_differ k n allowed (hs.header_name-lower k n e)))
      | inr bad ↦ rw bad refl
    ]

    insert_headers-denied :
        (rest : List (Text × Text)) (h : H)
        → hs.get_all m (insert_headers lib hs rest h) ≡ hs.get_all m h
    unfolding insert_headers
    insert_headers-denied [] h = refl
    insert_headers-denied ((k, v) ∷ rest) h = elim (Bool-cases (is_disallowed_header k)) [
      | inl dropped ↦ rw dropped (insert_headers-denied rest h)
      | inr kept ↦ rw kept (
          insert_headers-denied rest (insert_named lib hs (hs.header_name k) v h)
          ∙ insert_named-denied k v h kept (hs.header_name k) refl)
    ]

  insert_length-other :
      (is_head : Bool) (body : Text) (h : H)
      → hs.get_all (codes "content-type") (insert_length lib hs is_head body h)
        ≡ hs.get_all (codes "content-type") h
  insert_length-other false body h = refl
  insert_length-other true body h =
      elim (Bool-cases (hs.is_header_value (lib.to_text (length (bytes body))))) [
        | inl fine ↦ rw fine (
            hs.get_all-insert_other (codes "content-type") (codes "content-length")
              (lib.to_text (length (bytes body))) h (λ e. cc))
        | inr bad ↦ rw bad refl
      ]

  append_cookies-other :
      (m : Text)
      → codes "set-cookie" ≢ m
      → (cs : List Text) (h : H) → hs.get_all m (append_cookies lib hs cs h) ≡ hs.get_all m h
  unfolding append_cookies
  append_cookies-other m ne [] h = refl
  append_cookies-other m ne (c ∷ cs) h = elim (Bool-cases (hs.is_header_value c)) [
    | inl fine ↦ rw fine (
        append_cookies-other m ne cs (hs.append (codes "set-cookie") c h)
        ∙ hs.get_all-append_other m (codes "set-cookie") c h ne)
    | inr bad ↦ rw bad (append_cookies-other m ne cs h)
  ]

  append_cookies-get_all :
      (cs : List Text) (h : H)
      → hs.get_all (codes "set-cookie") (append_cookies lib hs cs h)
        ≡ hs.get_all (codes "set-cookie") h ++ filter hs.is_header_value cs
  unfolding append_cookies
  append_cookies-get_all [] h = ++_nil (hs.get_all (codes "set-cookie") h)
  append_cookies-get_all (c ∷ cs) h = elim (Bool-cases (hs.is_header_value c)) [
    | inl fine ↦ rw fine (
        append_cookies-get_all cs (hs.append (codes "set-cookie") c h)
        ∙ rw (hs.get_all-append (codes "set-cookie") c h)
            (++_assoc (hs.get_all (codes "set-cookie") h) (c ∷ []) (filter hs.is_header_value cs)))
    | inr bad ↦ rw bad (append_cookies-get_all cs h)
  ]

  -- A response has one content type: the envelope's (or HTML), and HTML when that is no header
  -- value; no header of the envelope adds to it or replaces it.
  pub render_response-content_type :
      (is_head : Bool) (env : Env) (r : Response)
      → hs.get_all (codes "content-type") (render_response lib hs is_head env r).headers
        ≡ (if hs.is_header_value (or_text default_content_type r.content_type)
            then or_text default_content_type r.content_type
            else default_content_type)
          ∷ []
  unfolding render_response
  render_response-content_type is_head env r =
      append_cookies-other (codes "content-type") (λ e. cc) r.cookies _
      ∙ insert_headers-denied (codes "content-type") content_type-denied r.headers _
      ∙ insert_length-other is_head _ _
      ∙ hs.get_all-insert _ _ _

  -- If the number of bytes that GET is sent prints as a header value, HEAD is answered with no
  -- body, the status of GET, and this number as the one value of Content-Length, whatever headers
  -- the envelope has.
  pub render_response-head :
      (env : Env) (r : Response)
      → hs.is_header_value (lib.to_text (length (render_response lib hs false env r).body)) ≡ true
      → ((render_response lib hs true env r).body ≡ [])
        × ((render_response lib hs true env r).status ≡ (render_response lib hs false env r).status)
        × (hs.get_all (codes "content-length") (render_response lib hs true env r).headers
            ≡ lib.to_text (length (render_response lib hs false env r).body) ∷ [])
  unfolding render_response
  render_response-head env r digits = (
    refl,
    refl,
    append_cookies-other (codes "content-length") (λ e. cc) r.cookies _
        ∙ insert_headers-denied (codes "content-length") content_length-denied r.headers _
        ∙ rw digits (hs.get_all-insert _ _ _),
  )
