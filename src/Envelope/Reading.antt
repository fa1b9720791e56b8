-- ===== src/Envelope/Reading.antt =====
-- What `parse_response_envelope` of crates/pg_web_ext/src/router.rs reads, member by member.
use mathlib.Core.Path.{subst}
use pg_web.Common.{
  ℕ, ◌≡◌, ◌≢◌, ◌<◌, ◌↔◌, ◌⊎◌, refl, ap, sym, ◌∙◌, inl, inr, List, [], ◌∷◌, Option, none, some, Text,
  codes, IsIn, Option-cases, arith,
}
use pg_web.Json.{
  Value, Fields, Items, obj, arr, str, null, num_u64, get, as_str, as_u64, as_object, as_array,
  members, elements,
}
use pg_web.Envelope.{
  ResponseEnvelope, parse_response_envelope, envelope_of, text_members, text_elements, headers_of,
  cookies_of, str_or_empty, keep_context, to_u16, ◌>>=◌,
}
use pg_web.Envelope.Marker.{as_object-eq-some, parse_response_envelope_iff}

some_inj : {A : Type 0} {a b : A} → some a ≡ some b → a ≡ b
some_inj e = cc

-- What an envelope holds of the object `pgweb` under "$pgweb" and of the object `top` around it.
pub record IsRead (top pgweb : Fields) (env : ResponseEnvelope) : Type 0 where
  pub status :
      (n : ℕ)
      → (env.status ≡ some n) ↔ ((get (codes "status") pgweb ≡ some (num_u64 n)) × (n < 65536))
  pub content_type :
      (t : Text) → (env.content_type ≡ some t) ↔ (get (codes "content_type") pgweb ≡ some (str t))
  pub header :
      (k v : Text)
      → IsIn (k, v) env.headers ↔ (
          (fs : Fields) × (get (codes "headers") pgweb ≡ some (obj fs))
          × IsIn (k, str v) (members fs))
  pub cookie :
      (c : Text)
      → IsIn c env.cookies ↔ (
          (xs : Items) × (get (codes "cookies") pgweb ≡ some (arr xs)) × IsIn (str c) (elements xs))
  pub body :
      (t : Text)
      → (env.body ≡ some t) ↔ (
          (v : Value) × (get (codes "body") top ≡ some v)
          × ((v ≡ str t) ⊎ ((as_str v ≡ none) × (t ≡ []))))
  pub context :
      (v : Value)
      → (env.context ≡ some v)
        ↔ ((get (codes "context") top ≡ some v) × (((fs : Fields) × (v ≡ obj fs)) ⊎ (v ≡ null)))

as_array_iff : (v : Value) (xs : Items) → (as_array v ≡ some xs) ↔ (v ≡ arr xs)
as_array_iff v xs = ground arith

keep_context_iff :
    (c v : Value)
    → (keep_context c ≡ some v) ↔ ((c ≡ v) × (((fs : Fields) × (v ≡ obj fs)) ⊎ (v ≡ null)))
keep_context_iff c v = ground arith

text_members_iff :
    (k v : Text) (m : List (Text × Value)) → IsIn (k, v) (text_members m) ↔ IsIn (k, str v) m
unfolding text_members
text_members_iff k v [] = ((λ i. i), λ i. i)
text_members_iff k v ((j, w) ∷ m) = ground (arith, text_members_iff k v m)

text_elements_iff : (c : Text) (vs : List Value) → IsIn c (text_elements vs) ↔ IsIn (str c) vs
unfolding text_elements
text_elements_iff c [] = ((λ i. i), λ i. i)
text_elements_iff c (v ∷ vs) = ground (arith, text_elements_iff c vs)

headers_of_iff :
    (k v : Text) (h : Option Value)
    → IsIn (k, v) (headers_of (h >>= as_object))
      ↔ ((fs : Fields) × (h ≡ some (obj fs)) × IsIn (k, str v) (members fs))
headers_of_iff k v none = (absurd, λ (fs, e, i). cc)
headers_of_iff k v (some h) = go (as_object h) refl
  where
    go :
        (o : Option Fields)
        → as_object h ≡ o
        → IsIn (k, v) (headers_of o)
          ↔ ((fs : Fields) × (some h ≡ some (obj fs)) × IsIn (k, str v) (members fs))
    go none is = (absurd, λ (fs, e, i). ground arith)
    go (some fs) is = (
      λ i. (fs, ap some (as_object-eq-some h is), (text_members_iff k v (members fs)).0 i),
      λ (gs, e, i).
          let same_fields : gs ≡ fs = ground arith in
          (text_members_iff k v (members fs)).1
            (subst (λ x. IsIn (k, str v) (members x)) same_fields i),
    )

cookies_of_iff :
    (c : Text) (h : Option Value)
    → IsIn c (cookies_of (h >>= as_array >>= λ xs. some (elements xs)))
      ↔ ((xs : Items) × (h ≡ some (arr xs)) × IsIn (str c) (elements xs))
cookies_of_iff c none = (absurd, λ (xs, e, i). cc)
cookies_of_iff c (some h) = go (as_array h) refl
  where
    go :
        (o : Option Items)
        → as_array h ≡ o
        → IsIn c (cookies_of (o >>= λ xs. some (elements xs)))
          ↔ ((xs : Items) × (some h ≡ some (arr xs)) × IsIn (str c) (elements xs))
    go none is = (absurd, λ (xs, e, i). ground arith)
    go (some xs) is = (
      λ i. (xs, ap some ((as_array_iff h xs).0 is), (text_elements_iff c (elements xs)).0 i),
      λ (ys, e, i).
          let same_items : ys ≡ xs = ground arith in
          (text_elements_iff c (elements xs)).1
            (subst (λ x. IsIn (str c) (elements x)) same_items i),
    )

body_iff :
    (v : Value) (t : Text)
    → (str_or_empty (as_str v) ≡ t) ↔ ((v ≡ str t) ⊎ ((as_str v ≡ none) × (t ≡ [])))
body_iff v t = ground arith

status_iff :
    (h : Option Value) (n : ℕ)
    → ((h >>= as_u64 >>= to_u16) ≡ some n) ↔ ((h ≡ some (num_u64 n)) × (n < 65536))
status_iff none n = ground arith
status_iff (some v) n = ground arith

text_iff : (h : Option Value) (t : Text) → ((h >>= as_str) ≡ some t) ↔ (h ≡ some (str t))
text_iff none t = ground arith
text_iff (some v) t = ground arith

body_of_iff :
    (h : Option Value) (t : Text)
    → ((h >>= λ v. some (str_or_empty (as_str v))) ≡ some t)
      ↔ ((v : Value) × (h ≡ some v) × ((v ≡ str t) ⊎ ((as_str v ≡ none) × (t ≡ []))))
body_of_iff none t = ((λ e. cc), λ (v, e, i). cc)
body_of_iff (some v) t = (
  λ e. (v, refl, (body_iff v t).0 (cc)),
  λ (w, e, i). let same_value : w ≡ v = cc in ap some ((body_iff v t).1 (rw same_value at i)),
)

context_iff :
    (h : Option Value) (v : Value)
    → ((h >>= keep_context) ≡ some v)
      ↔ ((h ≡ some v) × (((fs : Fields) × (v ≡ obj fs)) ⊎ (v ≡ null)))
context_iff none v = ((λ e. cc), λ (e, i). cc)
context_iff (some c) v = (
  λ e. let (is, kind) = (keep_context_iff c v).0 e in (ap some is, kind),
  λ (e, kind). (keep_context_iff c v).1 (cc, kind),
)

envelope_of-IsRead : (top pgweb : Fields) → IsRead top pgweb (envelope_of top pgweb)
envelope_of-IsRead top pgweb = record {
  status = λ n. status_iff (get (codes "status") pgweb) n;
  content_type = λ t. text_iff (get (codes "content_type") pgweb) t;
  header = λ k v. headers_of_iff k v (get (codes "headers") pgweb);
  cookie = λ c. cookies_of_iff c (get (codes "cookies") pgweb);
  body = λ t. body_of_iff (get (codes "body") top) t;
  context = λ v. context_iff (get (codes "context") top) v;
}

-- An answer is an envelope exactly when it parses to an object that has, under "$pgweb", an object;
-- and the envelope then holds what these two objects do: a status below 2 ^ 16, the texts among the
-- content type, the headers and the cookies of the inner one, and of the outer one a body, empty if it
-- is no text, and a context that is an object or null.
pub parse_response_envelope-IsRead :
    (parsed : Option Value)
    → ((parse_response_envelope parsed ≢ none) ↔ (
        (top : Fields) × (pgweb : Fields) × (parsed ≡ some (obj top))
        × (get (codes "$pgweb") top ≡ some (obj pgweb))))
      × ((env : ResponseEnvelope) (top pgweb : Fields)
          → parse_response_envelope parsed ≡ some env
          → parsed ≡ some (obj top)
          → get (codes "$pgweb") top ≡ some (obj pgweb)
          → IsRead top pgweb env)
parse_response_envelope-IsRead parsed = ((there, back), reads)
  where
    there :
        parse_response_envelope parsed ≢ none
        → (top : Fields) × (pgweb : Fields) × (parsed ≡ some (obj top))
          × (get (codes "$pgweb") top ≡ some (obj pgweb))
    there found = elim (Option-cases (parse_response_envelope parsed)) [
      | inl missing ↦ absurd (found missing)
      | inr (env, is) ↦
          let (top, pgweb, p, m, _) = (parse_response_envelope_iff parsed env).0 is in
          (top, pgweb, p, m)
    ]

    back :
        ((top : Fields) × (pgweb : Fields) × (parsed ≡ some (obj top))
          × (get (codes "$pgweb") top ≡ some (obj pgweb)))
        → parse_response_envelope parsed ≢ none
    back (top, pgweb, p, m) missing =
        let found =
          (parse_response_envelope_iff parsed (envelope_of top pgweb)).1 (top, pgweb, p, m, refl) in
        cc

    reads :
        (env : ResponseEnvelope) (top pgweb : Fields)
        → parse_response_envelope parsed ≡ some env
        → parsed ≡ some (obj top)
        → get (codes "$pgweb") top ≡ some (obj pgweb)
        → IsRead top pgweb env
    reads env top pgweb found p m =
        let again =
          (parse_response_envelope_iff parsed (envelope_of top pgweb)).1 (top, pgweb, p, m, refl) in
        let is : envelope_of top pgweb ≡ env = some_inj (sym again ∙ found) in
        subst (IsRead top pgweb) is (envelope_of-IsRead top pgweb)
