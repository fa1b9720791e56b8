-- ===== src/Paths/Scan/Files.antt =====
-- The first loop of `scan` of crates/pg_web_cli/src/paths.rs keeps every file in its slot.
use pg_web.Common.{
  ◌≢◌, ◌≡◌, ◌⊎◌, inl, inr, refl, ap, sym, ◌∙◌, List, [], ◌∷◌, ◌++◌, Option, none, some, Text, codes,
  same, same_iff, IsIn, Bool-cases, Ordering, ℕ, rsplit_once, arith, is_empty, or_here,
}
use pg_web.Common.Result.{ok}
use pg_web.Paths.Scan.{
  stem_and_ext, PageFile, Key, Slot, split_name, compare_keys, update_slot, set_html, set_sql,
  set_for_ext, group_files,
}
use pg_web.Paths.Scan.Slots.{compare_keys-eq, key_of, setter, add_file-cases, group_files-cases}

rsplit_once-join : (sep : ℕ) (t a b : Text) → rsplit_once sep t ≡ some (a, b) → t ≡ a ++ sep ∷ b
unfolding rsplit_once
rsplit_once-join sep [] a b e = cc
rsplit_once-join sep (c ∷ cs) a b e =
    go (rsplit_once sep cs) e (λ x y is. rsplit_once-join sep cs x y is) refl
  where
    go :
        (o : Option (Text × Text))
        → or_here sep c cs o ≡ some (a, b)
        → ((x y : Text) → rsplit_once sep cs ≡ some (x, y) → cs ≡ x ++ sep ∷ y)
        → rsplit_once sep cs ≡ o
        → c ∷ cs ≡ a ++ sep ∷ b
    go none h rest is = ground arith
    go (some (x, y)) h rest is =
        let cs_is = rest x y is in
        let a_is : c ∷ x ≡ a = ground arith in
        let b_is : y ≡ b = ground arith in ap (◌∷◌ c) cs_is ∙ rw (← a_is, ← b_is) refl

some_inj : {a b : Text} → some a ≡ some b → a ≡ b
some_inj e = cc

none_ne_some : {a : Text} → none ≡ some a → ⊥
none_ne_some e = cc

-- The extension of a file's name.
abbrev pub ext_of : PageFile → Option Text
ext_of f = (split_name f.file_name).1

split_name-join :
    (name ext : Text) → (split_name name).1 ≡ some ext → name ≡ (split_name name).0 ++ b'.' ∷ ext
unfolding split_name
split_name-join name ext e =
    go (rsplit_once b'.' name) e (λ a b is. rsplit_once-join b'.' name a b is) refl
  where
    go :
        (o : Option (Text × Text))
        → (stem_and_ext name o).1 ≡ some ext
        → ((a b : Text) → rsplit_once b'.' name ≡ some (a, b) → name ≡ a ++ b'.' ∷ b)
        → rsplit_once b'.' name ≡ o
        → name ≡ (stem_and_ext name o).0 ++ b'.' ∷ ext
    go none h whole is = cc
    go (some (a, b)) h whole is = elim (Bool-cases (is_empty a)) [
      | inl no_stem ↦ absurd (none_ne_some (rw no_stem at h))
      | inr stem ↦ rw stem (whole a b is ∙ ap (λ x. a ++ b'.' ∷ x) (some_inj (rw stem at h)))
    ]

PageFile-ext : (f g : PageFile) → f.parent_rel ≡ g.parent_rel → f.file_name ≡ g.file_name → f ≡ g
PageFile-ext f g d n = cc

-- Two files with one directory, stem and extension are one.
same_file :
    (f g : PageFile) (ext : Text)
    → key_of f ≡ key_of g
    → ext_of f ≡ some ext
    → ext_of g ≡ some ext
    → f ≡ g
same_file f g ext k ef eg = PageFile-ext f g (ap (λ x. x.0) k) (
    split_name-join f.file_name ext ef
    ∙ ap (λ (x : Key). x.1 ++ b'.' ∷ ext) k
    ∙ sym (split_name-join g.file_name ext eg))

-- The slot holds the file, under its extension.
abbrev pub Holds : PageFile → Slot → Type 0
Holds f s =
    (ext_of f ≡ some (codes "html") → s.html ≡ some f)
    × (ext_of f ≡ some (codes "sql") → s.sql ≡ some f)

abbrev pub HasFile : PageFile → List (Key × Slot) → Type 0
HasFile f [] = ⊥
HasFile f ((j, s) ∷ m) = ((key_of f ≡ j) × Holds f s) ⊎ HasFile f m

set_inj : {a b : PageFile → Slot → Slot} → some a ≡ some b → b ≡ a
set_inj p = cc

no_set : {a : PageFile → Slot → Slot} → none ≡ some a → ⊥
no_set p = cc

setter-cases :
    (g : PageFile) (set : PageFile → Slot → Slot)
    → setter g ≡ some set
    → ((ext_of g ≡ some (codes "html")) × (set ≡ set_html))
      ⊎ ((ext_of g ≡ some (codes "sql")) × (set ≡ set_sql))
setter-cases g set e = go (ext_of g) e
  where
    go :
        (o : Option Text)
        → set_for_ext o ≡ some set
        → ((o ≡ some (codes "html")) × (set ≡ set_html))
          ⊎ ((o ≡ some (codes "sql")) × (set ≡ set_sql))
    go none h = cc
    go (some ext) h = elim (Bool-cases (same ext (codes "html"))) [
      | inl html ↦ inl (ap some ((same_iff ext (codes "html")).0 html), set_inj (rw html at h))
      | inr other ↦ elim (Bool-cases (same ext (codes "sql"))) [
        | inl sql ↦
            inr (ap some ((same_iff ext (codes "sql")).0 sql), set_inj (rw (other, sql) at h))
        | inr neither ↦ absurd (no_set (rw (other, neither) at h))
      ]
    ]

html_ne_sql : (f : PageFile) → ext_of f ≡ some (codes "html") → ext_of f ≡ some (codes "sql") → ⊥
html_ne_sql f a b = cc

-- A file in its own slot, and in a slot that another file of the same key is put in.
Holds-set :
    (f : PageFile) (set : PageFile → Slot → Slot) (s : Slot)
    → setter f ≡ some set
    → Holds f (set f s)
Holds-set f set s e = elim (setter-cases f set e) [
  | inl (html, is) ↦ rw is ((λ h. refl), (λ sql. absurd (html_ne_sql f html sql)))
  | inr (sql, is) ↦ rw is ((λ html. absurd (html_ne_sql f html sql)), (λ h. refl))
]

Holds-set_other :
    (f g : PageFile) (set : PageFile → Slot → Slot) (s : Slot)
    → setter g ≡ some set
    → key_of f ≡ key_of g
    → Holds f s
    → Holds f (set g s)
Holds-set_other f g set s e k (in_html, in_sql) = elim (setter-cases g set e) [
  | inl (html, is) ↦ rw is ((λ h. ap some (sym (same_file f g (codes "html") k h html))), in_sql)
  | inr (sql, is) ↦ rw is (in_html, (λ h. ap some (sym (same_file f g (codes "sql") k h sql))))
]

update_slot-HasFile :
    (f : PageFile) (set : PageFile → Slot → Slot) (m : List (Key × Slot))
    → setter f ≡ some set
    → HasFile f (update_slot (key_of f) (set f) m)
unfolding update_slot
update_slot-HasFile f set [] e = inl (refl, Holds-set f set _ e)
update_slot-HasFile f set ((j, s) ∷ m) e =
    go (compare_keys (key_of f) j) refl (update_slot-HasFile f set m e)
  where
    go :
        (o : Ordering)
        → compare_keys (key_of f) j ≡ o
        → HasFile f (update_slot (key_of f) (set f) m)
        → HasFile f (elim o [
          | Ordering.lt ↦ (key_of f, set f (record { html = none; sql = none })) ∷ (j, s) ∷ m
          | Ordering.eq ↦ (j, set f s) ∷ m
          | Ordering.gt ↦ (j, s) ∷ update_slot (key_of f) (set f) m
        ])
    go Ordering.lt is later = inl (refl, Holds-set f set _ e)
    go Ordering.eq is later = inl (compare_keys-eq (key_of f) j is, Holds-set f set s e)
    go Ordering.gt is later = inr later

update_slot-keeps :
    (f g : PageFile) (set : PageFile → Slot → Slot) (m : List (Key × Slot))
    → setter g ≡ some set
    → HasFile f m
    → HasFile f (update_slot (key_of g) (set g) m)
unfolding update_slot
update_slot-keeps f g set [] e h = absurd h
update_slot-keeps f g set ((j, s) ∷ m) e h =
    go (compare_keys (key_of g) j) refl (λ there. update_slot-keeps f g set m e there) h
  where
    go :
        (o : Ordering)
        → compare_keys (key_of g) j ≡ o
        → (HasFile f m → HasFile f (update_slot (key_of g) (set g) m))
        → ((key_of f ≡ j) × Holds f s) ⊎ HasFile f m
        → HasFile f (elim o [
          | Ordering.lt ↦ (key_of g, set g (record { html = none; sql = none })) ∷ (j, s) ∷ m
          | Ordering.eq ↦ (j, set g s) ∷ m
          | Ordering.gt ↦ (j, s) ∷ update_slot (key_of g) (set g) m
        ])
    go Ordering.lt is later h = inr h
    go Ordering.eq is later (inl (k, holds)) =
        inl (k, Holds-set_other f g set s e (k ∙ sym (compare_keys-eq (key_of g) j is)) holds)
    go Ordering.eq is later (inr there) = inr there
    go Ordering.gt is later (inl here) = inl here
    go Ordering.gt is later (inr there) = inr (later there)

group_files-keeps :
    (fs : List PageFile) (m m' : List (Key × Slot)) (f : PageFile)
    → group_files fs m ≡ ok m'
    → HasFile f m
    → HasFile f m'
group_files-keeps [] m m' f e h = unfold group_files in ground arith
group_files-keeps (g ∷ fs) m m' f e h =
    let (next, added, later) = group_files-cases g fs m e in
    group_files-keeps fs next m' f later (elim (add_file-cases g m added) [
      | inl (skipped, same_m) ↦ rw (← same_m) h
      | inr (set, kept, valid, next_is) ↦ rw (← next_is) (update_slot-keeps f g set m kept h)
    ])

-- Every page file is in the slot of its key, whatever files come before and behind it.
pub group_files-HasFile :
    (fs : List PageFile) (m m' : List (Key × Slot)) (f : PageFile)
    → group_files fs m ≡ ok m'
    → IsIn f fs
    → setter f ≢ none
    → HasFile f m'
group_files-HasFile [] m m' f e i k = absurd i
group_files-HasFile (g ∷ fs) m m' f e (inr i) k =
    let (next, added, later) = group_files-cases g fs m e in
    group_files-HasFile fs next m' f later i k
group_files-HasFile (g ∷ fs) m m' f e (inl here) k =
    let (next, added, later) = group_files-cases g fs m e in
    group_files-keeps fs next m' f later (elim (add_file-cases g m added) [
      | inl (skipped, same_m) ↦ absurd (k (rw here skipped))
      | inr (set, kept, valid, next_is) ↦ rw (← next_is, here) (update_slot-HasFile g set m kept)
    ])
