-- ===== src/Tests/World.antt =====
-- A small application: its backend, whose database counts the handler's calls, its routes, and the
-- parts of the HTTP crate.
use pg_web.Common.{
  ℕ, suc, ◌≡◌, ◌≢◌, refl, true, false, List, [], ◌∷◌, ◌++◌, none, some, Text, codes, same, same_iff,
  same_refl, same_ne, if◌then◌else◌, map, to_ascii_lowercase, Bool-cases, inl, inr, arith, ap,
}
use pg_web.Common.Result.{ok, err}
use pg_web.Backend.{Backend, RouteRow, CallRow, Column}
use pg_web.Cache.{Worker}
use pg_web.CliSettings.{SettingsTable}
use pg_web.Common.BTreeMap.{lookup}
use pg_web.Http.{HeaderMap, HttpLibrary}

abbrev pub show_row : RouteRow
show_row = record {
  method = some (codes "GET");
  path_pattern = some (codes "/posts/:id");
  handler_name = some (codes "pgweb.pages__posts__id");
  template_path = none;
}

abbrev pub new_row : RouteRow
new_row = record {
  method = some (codes "GET");
  path_pattern = some (codes "/posts/new");
  handler_name = some (codes "pgweb.pages__posts__new");
  template_path = some (codes "posts/new.html");
}

abbrev pub called_row : CallRow
called_row = record {
  ok_flag = ok (some true);
  result_text = ok (some (codes "hi"));
  sqlstate = ok none;
  message = ok none;
  detail = ok none;
  hint = ok none;
  context = ok none;
}

abbrev pub unreadable : ℕ → Column Text
unreadable n = err (codes "attribute number out of bounds")

abbrev pub backend : Backend ℕ (List Text)
backend = record {
  route_rows = λ db. ok (show_row ∷ new_row ∷ []);
  template_rows = λ db. ok [];
  method_rows = λ db. ok (unreadable ∷ []);
  asset_rows = λ path db. ok [];
  template_src = λ path db. ok none;
  env_value = λ db. ok (some (codes "development"));
  timeout_value = λ db. ok none;
  health_enabled = λ db. ok none;
  readiness_enabled = λ db. ok none;
  set_statement_timeout = λ t db. db;
  statement_timeout = λ db. 15000;
  transaction_timeout = λ db. 0;
  framework_call = λ name json db. (ok (called_row ∷ []), suc db);
  tera_default = [];
  add_raw_template = λ path src t. some (path ∷ t);
  tera_render = λ t path v. none;
  one_off = λ src v. ok src;
  context_error = λ v. none;
  parse_json = λ t. err (codes "expected value");
  print_json = λ v. ok (codes "{}");
}

abbrev pub quoted : Text → Text
quoted t = t

abbrev pub worker : Worker ℕ (List Text)
worker = record { db = 0; snapshot = none; timer_active = false }

-- Header maps as lists of names and values.
abbrev pub Headers : Type 0
Headers = List (Text × Text)

pub values : Text → Headers → List Text
values n [] = []
values n ((m, v) ∷ h) = if same m n then v ∷ values n h else values n h

pub drop : Text → Headers → Headers
drop n [] = []
drop n ((m, v) ∷ h) = if same m n then drop n h else (m, v) ∷ drop n h

pub add : Text → Text → Headers → Headers
add n v [] = (n, v) ∷ []
add n v ((m, w) ∷ h) = (m, w) ∷ add n v h

values-drop : (n : Text) (h : Headers) → values n (drop n h) ≡ []
unfolding values drop
values-drop n [] = refl
values-drop n ((m, v) ∷ h) = elim (Bool-cases (same m n)) [
  | inl hit ↦ rw hit (values-drop n h)
  | inr miss ↦ rw miss (rw miss (values-drop n h))
]

values-drop_other : (m n : Text) (h : Headers) → n ≢ m → values m (drop n h) ≡ values m h
unfolding values drop
values-drop_other m n [] ne = refl
values-drop_other m n ((k, v) ∷ h) ne =
    ground (arith, values-drop_other m n h ne, same_iff k n, same_iff k m)

pub values-add : (n v : Text) (h : Headers) → values n (add n v h) ≡ values n h ++ v ∷ []
unfolding values add
values-add n v [] = rw (same_refl n) refl
values-add n v ((m, w) ∷ h) = elim (Bool-cases (same m n)) [
  | inl hit ↦ rw hit (ap (◌∷◌ w) (values-add n v h))
  | inr miss ↦ rw miss (values-add n v h)
]

pub values-add_other : (m n v : Text) (h : Headers) → n ≢ m → values m (add n v h) ≡ values m h
unfolding values add
values-add_other m n v [] ne = rw (same_ne n m ne) refl
values-add_other m n v ((k, w) ∷ h) ne = ground (arith, values-add_other m n v h ne)

pub insert_other : (m n v : Text) (h : Headers) → n ≢ m → values m ((n, v) ∷ drop n h) ≡ values m h
unfolding values
insert_other m n v h ne = rw (same_ne n m ne) (values-drop_other m n h ne)

pub insert_same : (n v : Text) (h : Headers) → values n ((n, v) ∷ drop n h) ≡ v ∷ []
unfolding values
insert_same n v h = rw (same_refl n) (ap (◌∷◌ v) (values-drop n h))

pub lower_name :
    (k n : Text) → some (map to_ascii_lowercase k) ≡ some n → n ≡ map to_ascii_lowercase k
lower_name k n e = ground arith

abbrev pub header_map : HeaderMap Headers
header_map = record {
  insert = λ n v h. (n, v) ∷ drop n h;
  append = add;
  get_all = values;
  header_name = λ k. some (map to_ascii_lowercase k);
  is_header_value = λ v. true;
  string_headers = [];
  no_headers = [];
  get_all-insert = insert_same;
  get_all-insert_other = insert_other;
  get_all-append_other = values-add_other;
  get_all-append = values-add;
  header_name-lower = lower_name;
}

abbrev pub library : HttpLibrary
library = record {
  from_utf8 = λ bs. some bs;
  urlencoded = λ s. some ((codes "a", codes "1") ∷ (codes "a", codes "2") ∷ []);
  from_u16 = λ n. some n;
  to_text = λ n. codes "7";
  header_error = codes "failed to parse header value";
  render_dev_page = λ e v n. codes "page";
}

lookup_upsert :
    (k j v : Text) (h : Headers) → lookup j ((k, v) ∷ h) ≡ (if same k j then some v else lookup j h)
unfolding lookup
lookup_upsert k j v h = refl

lookup-drop :
    (k j : Text) (h : Headers) → lookup j (drop k h) ≡ (if same k j then none else lookup j h)
unfolding lookup drop
lookup-drop k j [] = ground arith
lookup-drop k j ((i, v) ∷ h) =
    ground (arith, lookup-drop k j h, same_iff i k, same_iff k j, same_iff i j)

-- A settings table as a list of keys and values.
pub settings_table : SettingsTable Headers
settings_table = record {
  upsert = λ k v h. (k, v) ∷ h;
  delete = λ k h. (1, drop k h);
  value = lookup;
  value-upsert = lookup_upsert;
  value-delete = lookup-drop;
}
