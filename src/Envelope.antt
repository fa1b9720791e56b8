-- ===== src/Envelope.antt =====
-- crates/pg_web_ext/src/router.rs: `ResponseEnvelope` and `parse_response_envelope`, on the JSON
-- value that the handler's text parses to; and `inject_path_params`, `req_path`.
pub mod Marker
pub mod Reading
use pg_web.Common.{
  ℕ, ◌||◌, ltb, Bool, true, false, List, [], ◌∷◌, ◌++◌, Option, none, some, if◌then◌else◌, Text,
  codes,
}
use pg_web.Common.Result.{Result, ok, err}
use pg_web.Json.{
  Value, obj, Fields, get, set, as_str, as_u64, as_object, as_array, is_object, is_null, members,
  elements, of_texts,
}

pub record ResponseEnvelope : Type 0 where
  pub status : Option ℕ
  pub content_type : Option Text
  pub headers : List (Text × Text)
  pub cookies : List Text
  pub body : Option Text
  pub context : Option Value

infixl 5 ◌>>=◌
abbrev pub ◌>>=◌ {ℓ κ} : {A : Type ℓ} {B : Type κ} → Option A → (A → Option B) → Option B
none >>= f = none
some a >>= f = f a

-- `u16::try_from(u).ok()`
abbrev pub to_u16 : ℕ → Option ℕ
to_u16 n = if ltb n 65536 then some n else none

-- The loop over the members of "headers", and over the elements of "cookies": texts are kept.
abbrev pub push_pair : Text → Option Text → List (Text × Text) → List (Text × Text)
push_pair k none rest = rest
push_pair k (some v) rest = (k, v) ∷ rest

unfoldable pub text_members : List (Text × Value) → List (Text × Text)
text_members [] = []
text_members ((k, v) ∷ m) = push_pair k (as_str v) (text_members m)

abbrev pub push_text : Option Text → List Text → List Text
push_text none rest = rest
push_text (some s) rest = s ∷ rest

unfoldable pub text_elements : List Value → List Text
text_elements [] = []
text_elements (v ∷ vs) = push_text (as_str v) (text_elements vs)

abbrev pub headers_of : Option Fields → List (Text × Text)
headers_of none = []
headers_of (some fs) = text_members (members fs)

abbrev pub cookies_of : Option (List Value) → List Text
cookies_of none = []
cookies_of (some vs) = text_elements vs

-- `b.as_str().unwrap_or("")`
abbrev pub str_or_empty : Option Text → Text
str_or_empty none = []
str_or_empty (some s) = s

abbrev pub keep_context : Value → Option Value
keep_context c = if is_object c || is_null c then some c else none

abbrev pub envelope_of : Fields → Fields → ResponseEnvelope
envelope_of top pgweb = record {
  status = get (codes "status") pgweb >>= as_u64 >>= to_u16;
  content_type = get (codes "content_type") pgweb >>= as_str;
  headers = headers_of (get (codes "headers") pgweb >>= as_object);
  cookies = cookies_of (get (codes "cookies") pgweb >>= as_array >>= λ xs. some (elements xs));
  body = get (codes "body") top >>= λ v. some (str_or_empty (as_str v));
  context = get (codes "context") top >>= keep_context;
}

-- `parse_response_envelope`; the argument is `serde_json::from_str(handler_text).ok()`
unfoldable pub parse_response_envelope : Option Value → Option ResponseEnvelope
parse_response_envelope parsed = parsed >>= as_object >>= λ top.
    get (codes "$pgweb") top >>= as_object >>= λ pgweb. some (envelope_of top pgweb)

-- `inject_path_params`: a request that is no object stays as it is.
unfoldable pub inject_path_params : Value → List (Text × Text) → Value
inject_path_params (obj m) params = obj (set (codes "path_params") (obj (of_texts params)) m)
inject_path_params v params = v

-- `req_path`
unfoldable pub req_path : Value → Text
req_path req = elim (as_object req >>= get (codes "path") >>= as_str) [
  | none ↦ codes "<unknown>"
  | some p ↦ p
]
