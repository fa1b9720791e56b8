-- ===== src/Paths/Scan/Slots.antt =====
-- The first loop of `scan`: the slots that it makes of the files.
use pg_web.Common.{
  ◌≡◌, refl, ◌⊎◌, inl, inr, true, List, [], ◌∷◌, Option, none, some, Text, codes, same, Bool-cases,
  Option-cases, Ordering, All, arith,
}
use pg_web.Common.Result.{Result, ok, err, bind-eq-ok}
use pg_web.Common.BTreeMap.{compare_text-eq}
use pg_web.Paths.{PathError, validate_stem, method_for_stem}
use pg_web.Paths.Scan.{
  PageFile, Key, Slot, split_name, compare_dirs, compare_keys, update_slot, set_html, set_sql,
  set_for_ext, add_file, group_files, is_filled,
}

-- Every stem that `validate_stem` accepts has a method.
pub method_for_stem-validate_stem :
    (stem : Text) (parent_rel : List Text)
    → validate_stem stem parent_rel ≡ ok tt
    → (method : Text) × (method_for_stem stem ≡ some method)
unfolding validate_stem method_for_stem
method_for_stem-validate_stem stem parent_rel e = elim (Option-cases (method_for_stem stem)) [
  | inl missing ↦ absurd (ground arith)
  | inr found ↦ found
]

compare_dirs-eq : (d e : List Text) → compare_dirs d e ≡ Ordering.eq → d ≡ e
unfolding compare_dirs
compare_dirs-eq [] [] h = refl
compare_dirs-eq [] (y ∷ e) h = cc
compare_dirs-eq (x ∷ d) [] h = cc
compare_dirs-eq (x ∷ d) (y ∷ e) h = ground (arith, compare_text-eq x y, compare_dirs-eq d e)

pub compare_keys-eq : (j k : Key) → compare_keys j k ≡ Ordering.eq → j ≡ k
compare_keys-eq (d, s) (e, t) h = ground (arith, compare_dirs-eq d e, compare_text-eq s t)

-- What holds of each slot: it has a file, and its stem has a method.
abbrev pub IsSound : Key × Slot → Type 0
IsSound (k, s) = (is_filled s ≡ true) × ((method : Text) × (method_for_stem k.1 ≡ some method))

abbrev Fills : (Slot → Slot) → Type 0
Fills f = (s : Slot) → is_filled (f s) ≡ true

update_slot-IsSound :
    (k : Key) (f : Slot → Slot) (m : List (Key × Slot))
    → Fills f
    → (method : Text) × (method_for_stem k.1 ≡ some method)
    → All IsSound m
    → All IsSound (update_slot k f m)
unfolding update_slot
update_slot-IsSound k f [] g e h = ((g (record { html = none; sql = none }), e), tt)
update_slot-IsSound k f ((j, s) ∷ m) g e h =
    elim (compare_keys k j)
      as (λ o. All IsSound (elim o [
        | Ordering.lt ↦ (k, f (record { html = none; sql = none })) ∷ (j, s) ∷ m
        | Ordering.eq ↦ (j, f s) ∷ m
        | Ordering.gt ↦ (j, s) ∷ update_slot k f m
      ])) [
        | Ordering.lt ↦ ((g (record { html = none; sql = none }), e), h)
        | Ordering.eq ↦ ((g s, h.0.1), h.1)
        | Ordering.gt ↦ (h.0, update_slot-IsSound k f m g e h.1)
      ]

set_html-Fills : (f : PageFile) → Fills (set_html f)
set_html-Fills f s = refl

set_sql-Fills : (f : PageFile) → Fills (set_sql f)
set_sql-Fills f s = ground arith

set_for_ext-Fills :
    (ext : Option Text) {set : PageFile → Slot → Slot} (f : PageFile)
    → set_for_ext ext ≡ some set
    → Fills (set f)
set_for_ext-Fills none f e = cc
set_for_ext-Fills (some ext) f e = elim (Bool-cases (same ext (codes "html"))) [
  | inl html ↦ rw (← of_some (rw html at e)) (set_html-Fills f)
  | inr other ↦ elim (Bool-cases (same ext (codes "sql"))) [
    | inl sql ↦ rw (← of_some (rw (other, sql) at e)) (set_sql-Fills f)
    | inr neither ↦ absurd (of_none (rw (other, neither) at e))
  ]
]
  where
    of_some : {a b : PageFile → Slot → Slot} → some a ≡ some b → a ≡ b
    of_some p = cc

    of_none : {a : PageFile → Slot → Slot} → none ≡ some a → ⊥
    of_none p = cc

-- The two outcomes of one round of the first loop.
abbrev pub key_of : PageFile → Key
key_of f = (f.parent_rel, (split_name f.file_name).0)

abbrev pub setter : PageFile → Option (PageFile → Slot → Slot)
setter f = set_for_ext (split_name f.file_name).1

pub add_file-cases :
    (f : PageFile) (m : List (Key × Slot)) {m' : List (Key × Slot)}
    → add_file f m ≡ ok m'
    → ((setter f ≡ none) × (m ≡ m'))
      ⊎ ((set : PageFile → Slot → Slot) × (setter f ≡ some set)
          × (validate_stem (key_of f).1 f.parent_rel ≡ ok tt)
          × (update_slot (key_of f) (set f) m ≡ m'))
unfolding add_file
add_file-cases f m {m'} e = elim (Option-cases (setter f)) [
  | inl skipped ↦ inl (skipped, of_ok (rw (skipped, add_file) at e))
  | inr (set, kept) ↦
      let (u, valid, done) =
        bind-eq-ok (validate_stem (key_of f).1 f.parent_rel) _ (rw (kept, add_file) at e) in
      inr (set, kept, valid, of_ok done)
]
  where
    of_ok :
        {a b : List (Key × Slot)}
        → ◌≡◌ {A = Result PathError (List (Key × Slot))} (ok a) (ok b)
        → a ≡ b
    of_ok p = cc

pub group_files-cases :
    (f : PageFile) (fs : List PageFile) (m : List (Key × Slot)) {m' : List (Key × Slot)}
    → group_files (f ∷ fs) m ≡ ok m'
    → (next : List (Key × Slot)) × (add_file f m ≡ ok next) × (group_files fs next ≡ ok m')
unfolding group_files
group_files-cases f fs m {m'} = go (add_file f m) refl
  where
    go :
        (r : Result PathError (List (Key × Slot)))
        → add_file f m ≡ r
        → (elim r [ ok n ↦ group_files fs n | err e ↦ err e ]) ≡ ok m'
        → (next : List (Key × Slot)) × (add_file f m ≡ ok next) × (group_files fs next ≡ ok m')
    go (ok next) s e = (next, s, e)
    go (err x) s e = cc

pub group_files-IsSound :
    (fs : List PageFile) (m m' : List (Key × Slot))
    → group_files fs m ≡ ok m'
    → All IsSound m
    → All IsSound m'
group_files-IsSound [] m m' e h = unfold group_files in ground arith
group_files-IsSound (f ∷ fs) m m' e h =
    let (next, added, later) = group_files-cases f fs m e in
    group_files-IsSound fs next m' later (elim (add_file-cases f m added) [
      | inl (skipped, same_m) ↦ rw (← same_m) h
      | inr (set, kept, valid, next_is) ↦ rw (← next_is) (
          update_slot-IsSound (key_of f) (set f) m (set_for_ext-Fills _ f kept)
            (method_for_stem-validate_stem _ f.parent_rel valid) h)
    ])
