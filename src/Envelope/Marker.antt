-- ===== src/Envelope/Marker.antt =====
-- When a handler's answer is an envelope: the marker "$pgweb".
use pg_web.Common.{◌≡◌, ◌↔◌, refl, Option, none, some, codes, ap, ◌∙◌, arith}
use pg_web.Json.{Value, Fields, obj, get, as_object}
use pg_web.Envelope.{ResponseEnvelope, parse_response_envelope, envelope_of, ◌>>=◌}

pub bind-eq-some {ℓ κ} :
    {A : Type ℓ} {B : Type κ} (m : Option A) (f : A → Option B) {b : B}
    → (m >>= f) ≡ some b
    → (a : A) × (m ≡ some a) × (f a ≡ some b)
bind-eq-some none f e = cc
bind-eq-some (some a) f e = (a, refl, e)

pub as_object-eq-some : (v : Value) {fs : Fields} → as_object v ≡ some fs → v ≡ obj fs
as_object-eq-some v e = ground arith

-- The envelope under a top-level object.
abbrev marked : Fields → Option ResponseEnvelope
marked top = get (codes "$pgweb") top >>= as_object >>= λ pgweb. some (envelope_of top pgweb)

-- An answer is an envelope exactly when it parses to an object that has, under "$pgweb", an object;
-- the envelope is then read from these two objects.
pub parse_response_envelope_iff :
    (v : Option Value) (env : ResponseEnvelope)
    → (parse_response_envelope v ≡ some env) ↔ (
        (top : Fields) × (pgweb : Fields) × (v ≡ some (obj top))
        × (get (codes "$pgweb") top ≡ some (obj pgweb))
        × (envelope_of top pgweb ≡ env))
unfolding parse_response_envelope
parse_response_envelope_iff v env = (there, back)
  where
    there :
        parse_response_envelope v ≡ some env
        → (top : Fields) × (pgweb : Fields) × (v ≡ some (obj top))
          × (get (codes "$pgweb") top ≡ some (obj pgweb))
          × (envelope_of top pgweb ≡ env)
    there e =
        let (top, e1, e2) = bind-eq-some (v >>= as_object) (marked) e in
        let (u, v_is, u_is) = bind-eq-some v as_object e1 in
        let (pgweb, e3, e4) =
          bind-eq-some (get (codes "$pgweb") top >>= as_object) (λ p. some (envelope_of top p))
            e2 in
        let (x, x_is, x_obj) = bind-eq-some (get (codes "$pgweb") top) as_object e3 in
        (
          top,
          pgweb,
          v_is ∙ ap some (as_object-eq-some u u_is),
          x_is ∙ ap some (as_object-eq-some x x_obj),
          ground arith,
        )

    back :
        ((top : Fields) × (pgweb : Fields) × (v ≡ some (obj top))
          × (get (codes "$pgweb") top ≡ some (obj pgweb))
          × (envelope_of top pgweb ≡ env))
        → parse_response_envelope v ≡ some env
    back (top, pgweb, e1, e2, e3) = rw e1 (rw e2 (ap some e3))
