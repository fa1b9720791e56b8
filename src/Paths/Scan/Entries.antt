-- ===== src/Paths/Scan/Entries.antt =====
-- What `scan` returns: an entry for each pair of a directory and a stem, and no panic.
use mathlib.Core.Path.{subst}
use pg_web.Common.{
  sym, codes, ◌∙◌, ◌≡◌, refl, ◌≢◌, ◌⊎◌, inl, inr, Bool, true, false, List, [], ◌∷◌, Option, none,
  some, Text, Bool-cases, All, IsIn, arith,
}
use pg_web.Common.Result.{Result, ok, err, ◌>>=◌, collect, bind-eq-ok, collect-cons, collect-eq-err}
use pg_web.Common.Sort.{sort_by, IsIn-sort_by, sort_by-IsIn}
use pg_web.Paths.{
  Segment, PathError, parse_segments, build_route, build_handler_name, build_template_path,
  method_for_stem,
}
use pg_web.Paths.Scan.{
  PageFile, RouteEntry, ScanError, panicked, Key, Slot, split_name, group_files, entry_of,
  is_filled, make_entry, leb_entry, finish_scan, scan,
}
use pg_web.Paths.Scan.Slots.{IsSound, key_of, setter, group_files-IsSound}
use pg_web.Paths.Scan.Files.{ext_of, Holds, HasFile, group_files-HasFile}

-- The row that `scan` makes of the files with one directory and stem.
pub record IsEntry (dir : List Text) (stem : Text) (e : RouteEntry) : Type 0 where
  pub segments : List Segment
  pub parsed : parse_segments dir ≡ ok segments
  pub method : method_for_stem stem ≡ some e.method
  pub route : e.route ≡ build_route segments
  pub handler : e.handler_name ≡ build_handler_name segments stem
  pub has_file : (e.html_path ≢ none) ⊎ (e.sql_path ≢ none)
  pub template :
      ((e.html_path ≡ none) × (e.template_path ≡ none))
      ⊎ ((e.html_path ≢ none) × (e.template_path ≡ some (build_template_path dir stem)))

entry_of-IsEntry :
    (k : Key) (s : Slot) (p : Result PathError (List Segment)) (method : Option Text)
    (e : RouteEntry)
    → parse_segments k.0 ≡ p
    → method_for_stem k.1 ≡ method
    → is_filled s ≡ true
    → entry_of k s p method ≡ ok e
    → IsEntry k.0 k.1 e
entry_of-IsEntry k s (err x) method e a b f h = cc
entry_of-IsEntry k s (ok segments) none e a b f h = cc
entry_of-IsEntry k s (ok segments) (some method) e a b f h = record {
  segments = segments;
  parsed = a;
  method = ground arith;
  route = ground arith;
  handler = ground arith;
  has_file = ground arith;
  template = ground arith;
}

make_entry-IsEntry :
    (k : Key) (s : Slot) (e : RouteEntry) → make_entry (k, s) ≡ ok e → IsEntry k.0 k.1 e
unfolding make_entry
make_entry-IsEntry k s e h = elim (Bool-cases (is_filled s)) [
  | inl filled ↦ entry_of-IsEntry k s _ _ e refl refl filled (rw filled at h)
  | inr empty ↦ absurd (err_ne_ok (rw empty at h))
]
  where
    err_ne_ok : ◌≡◌ {A = Result ScanError RouteEntry} (err panicked) (ok e) → ⊥
    err_ne_ok p = cc

make_entry_no_panic : (k : Key) (s : Slot) → IsSound (k, s) → make_entry (k, s) ≢ err panicked
unfolding make_entry
make_entry_no_panic k s (filled, (method, found)) = rw (filled, found) (go (parse_segments k.0))
  where
    go : (p : Result PathError (List Segment)) → entry_of k s p (some method) ≢ err panicked
    go (ok segments) = cc
    go (err x) = cc

-- The entry carries the file, as its page or as its SQL.
abbrev pub Carries : PageFile → RouteEntry → Type 0
Carries f e =
    (ext_of f ≡ some (codes "html") → e.html_path ≡ some f)
    × (ext_of f ≡ some (codes "sql") → e.sql_path ≡ some f)

entry_of-paths :
    (k : Key) (s : Slot) (p : Result PathError (List Segment)) (method : Option Text)
    (e : RouteEntry)
    → entry_of k s p method ≡ ok e
    → (e.html_path ≡ s.html) × (e.sql_path ≡ s.sql)
entry_of-paths k s (err x) method e h = cc
entry_of-paths k s (ok segments) none e h = cc
entry_of-paths k s (ok segments) (some method) e h = (ground arith, ground arith)

make_entry-paths :
    (k : Key) (s : Slot) (e : RouteEntry)
    → make_entry (k, s) ≡ ok e
    → (e.html_path ≡ s.html) × (e.sql_path ≡ s.sql)
unfolding make_entry
make_entry-paths k s e h = elim (Bool-cases (is_filled s)) [
  | inl filled ↦ entry_of-paths k s _ _ e (rw filled at h)
  | inr empty ↦ absurd (err_ne_ok (rw empty at h))
]
  where
    err_ne_ok : ◌≡◌ {A = Result ScanError RouteEntry} (err panicked) (ok e) → ⊥
    err_ne_ok p = cc

make_entry-Carries :
    (f : PageFile) (k : Key) (s : Slot) (e : RouteEntry)
    → make_entry (k, s) ≡ ok e
    → Holds f s
    → Carries f e
make_entry-Carries f k s e h (html, sql) =
    let (html_is, sql_is) = make_entry-paths k s e h in
    ((λ x. html_is ∙ html x), (λ x. sql_is ∙ sql x))

collect_all :
    (m : List (Key × Slot)) (es : List RouteEntry) (f : PageFile)
    → collect make_entry m ≡ ok es
    → HasFile f m
    → (e : RouteEntry) × IsIn e es × IsEntry (key_of f).0 (key_of f).1 e × Carries f e
collect_all [] es f c h = absurd h
collect_all ((j, s) ∷ m) es f c (inl (here, holds)) =
    let (e, later, made, rest, es_is) = collect-cons make_entry (j, s) m c in
    (
      e,
      rw es_is (inl refl),
      subst (λ (k : Key). IsEntry k.0 k.1 e) (sym here) (make_entry-IsEntry j s e made),
      make_entry-Carries f j s e made holds,
    )
collect_all ((j, s) ∷ m) es f c (inr there) =
    let (e, later, made, rest, es_is) = collect-cons make_entry (j, s) m c in
    let (x, i, entry, carries) = collect_all m later f rest there in
    (x, rw es_is (inr i), entry, carries)

-- Each entry of the collection comes from a key.
collect_each :
    (m : List (Key × Slot)) (es : List RouteEntry) (e : RouteEntry)
    → collect make_entry m ≡ ok es
    → IsIn e es
    → (k : Key) × IsEntry k.0 k.1 e
collect_each [] es e c h = absurd (nothing h (ok_nil c))
  where
    ok_nil : collect make_entry [] ≡ ok es → [] ≡ es
    ok_nil p = unfold collect in cc

    nothing : IsIn e es → [] ≡ es → ⊥
    nothing i p = rw (← p) at i
collect_each ((j, s) ∷ m) es e c h =
    let (x, later, made, rest, es_is) = collect-cons make_entry (j, s) m c in
    elim (rw es_is at h) [
      | inl here ↦ (j, rw here (make_entry-IsEntry j s x made))
      | inr there ↦ collect_each m later e rest there
    ]

finish_scan-cases :
    (g : Result PathError (List (Key × Slot))) (es : List RouteEntry)
    → finish_scan g ≡ ok es
    → (m : List (Key × Slot)) × (out : List RouteEntry) × (g ≡ ok m)
      × (collect make_entry m ≡ ok out)
      × (sort_by leb_entry out ≡ es)
finish_scan-cases (err x) es e = cc
finish_scan-cases (ok m) es e =
    let (out, collected, done) = bind-eq-ok (collect make_entry m) _ e in
    (m, out, refl, collected, cc)

scan-cases :
    (files : List PageFile) (is_dir : Bool) (es : List RouteEntry)
    → scan is_dir files ≡ ok es
    → finish_scan (group_files files []) ≡ ok es
unfolding scan
scan-cases files true es e = e
scan-cases files false es e = cc

-- Every `.html` or `.sql` file of a successful scan has its entry: one that carries this file as its
-- page or as its SQL, whose method is that of the file's stem, and whose route, handler and template
-- names are built from the file's directory.
pub scan_all :
    (is_dir : Bool) (files : List PageFile) {es : List RouteEntry} (f : PageFile)
    → scan is_dir files ≡ ok es
    → IsIn f files
    → setter f ≢ none
    → (e : RouteEntry) × IsIn e es × IsEntry f.parent_rel (split_name f.file_name).0 e × Carries f e
scan_all is_dir files {es} f e i k =
    let (m, out, grouped, collected, sorted) =
      finish_scan-cases _ es (scan-cases files is_dir es e) in
    let (x, ix, entry, carries) =
      collect_all m out f collected (group_files-HasFile files [] m f grouped i k) in
    (x, rw (← sorted) (IsIn-sort_by leb_entry x out ix), entry, carries)

-- Every entry of a successful scan is built from some directory and stem: its method is the stem's,
-- and its route, handler and template names come from the directory.
pub scan_each :
    (is_dir : Bool) (files : List PageFile) {es : List RouteEntry} (e : RouteEntry)
    → scan is_dir files ≡ ok es
    → IsIn e es
    → (k : Key) × IsEntry k.0 k.1 e
scan_each is_dir files {es} e s i =
    let (m, out, grouped, collected, sorted) =
      finish_scan-cases _ es (scan-cases files is_dir es s) in
    collect_each m out e collected (sort_by-IsIn leb_entry e out (rw (← sorted) at i))

All-IsIn : (m : List (Key × Slot)) (x : Key × Slot) → All IsSound m → IsIn x m → IsSound x
All-IsIn [] x h i = absurd i
All-IsIn (y ∷ m) x h (inl here) = rw here h.0
All-IsIn (y ∷ m) x h (inr there) = All-IsIn m x h.1 there

finish_scan-panic :
    (g : Result PathError (List (Key × Slot)))
    → finish_scan g ≡ err panicked
    → (m : List (Key × Slot)) × (g ≡ ok m) × (collect make_entry m ≡ err panicked)
finish_scan-panic (err x) e = cc
finish_scan-panic (ok m) e = (m, refl, go (collect make_entry m) e)
  where
    go :
        (r : Result ScanError (List RouteEntry))
        → (r >>= λ out. ok (sort_by leb_entry out)) ≡ err panicked
        → r ≡ err panicked
    go (ok out) p = cc
    go (err x) p = cc

-- `scan` never reaches the `unreachable!` of `method_for_stem`, nor fails its `expect` on a slot:
-- whatever the files are, it returns entries or an error.
pub scan_no_panic : (is_dir : Bool) (files : List PageFile) → scan is_dir files ≢ err panicked
unfolding scan
scan_no_panic false files e = cc
scan_no_panic true files e =
    let (m, grouped, failing) = finish_scan-panic (group_files files []) e in
    let ((k, s), i, panics) = collect-eq-err make_entry m failing in
    make_entry_no_panic k s (All-IsIn m (k, s) (group_files-IsSound files [] m grouped tt) i) panics
