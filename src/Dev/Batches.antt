-- ===== src/Dev/Batches.antt =====
-- What `handle_batch` of crates/pg_web_cli/src/dev.rs remembers of a batch.
use mathlib.Core.Path.{subst}
use pg_web.Common.{
  ◌≡◌, ◌⊎◌, inl, inr, refl, sym, ap, ◌∙◌, Bool, true, false, List, [], ◌∷◌, Option, none, some,
  if◌then◌else◌, Text, same, same_iff, same_refl, All, Bool-cases, ℕ,
}
use pg_web.Common.Result.{ok}
use pg_web.Common.Table.{find, upsert, find-upsert}
use pg_web.Dev.{
  WatchPath, Action, push, ignore, classify, is_pages_sql, Event, Changes, DevWorld, changed,
  with_sql, same_hash, hashed, on_path, on_paths, on_events, start, handle_batch,
}

module _ {Db : Type 0} (w : DevWorld Db) where
  abbrev pub IsReadable : WatchPath → Type 0
  IsReadable p = (content : List ℕ) × (w.read p.path ≡ ok content)

  -- The hash of the file is the one that is remembered, or the path is ignored.
  abbrev IsKnown : List (Text × Text) → WatchPath → Type 0
  IsKnown hashes p =
      (classify p ≡ ignore)
      ⊎ ((content : List ℕ) × (w.read p.path ≡ ok content)
          × (find same p.path hashes ≡ some (w.blake3 content)))

  -- Events of files that are there and can be read.
  abbrev pub IsSaved : Event → Type 0
  IsSaved e = (e.is_removal ≡ false) × All IsReadable e.paths

  Action-cases : (a : Action) → (a ≡ push) ⊎ (a ≡ ignore)
  Action-cases push = inl refl
  Action-cases ignore = inr refl

  known_idle : (p : WatchPath) (c : Changes) → IsKnown c.hashes p → on_path w false p c ≡ c
  unfolding on_path
  known_idle p c (inl is_ignored) = rw (is_ignored, on_path) refl
  known_idle p c (inr (content, reads, found)) = elim (Action-cases (classify p)) [
    | inl it ↦ rw (it, on_path) (rw (reads, found) (rw (same_refl (w.blake3 content)) refl))
    | inr other ↦ rw (other, on_path) refl
  ]

  with_sql-hashes : (p : WatchPath) (c : Changes) → (with_sql w p c).hashes ≡ c.hashes
  with_sql-hashes p c = elim (Bool-cases (is_pages_sql p)) [
    | inl it ↦ rw it refl
    | inr other ↦ rw other refl
  ]

  same_hash-eq : (hash : Text) (o : Option Text) → same_hash w hash o ≡ true → o ≡ some hash
  same_hash-eq hash none h = cc
  same_hash-eq hash (some old) h = ap (λ x. some x) ((same_iff old hash).0 h)

  -- Behind a path that was read, its hash is found, and every other key is as before.
  hashed-find :
      (p : WatchPath) (hash : Text) (c : Changes) (k : Text)
      → find same k (hashed w p hash c).hashes
        ≡ (if same p.path k then some hash else find same k c.hashes)
  hashed-find p hash c k = elim (Bool-cases (same_hash w hash (find same p.path c.hashes))) [
    | inl unchanged ↦ rw unchanged (elim (Bool-cases (same p.path k)) [
      | inl it ↦ rw it (
          rw (sym ((same_iff p.path k).0 it))
            (same_hash-eq hash (find same p.path c.hashes) unchanged))
      | inr other ↦ rw other refl
    ])
    | inr new ↦ rw new (
        ap (λ h. find same k h)
          (with_sql-hashes p (changed w p (record c { hashes = upsert same p.path hash c.hashes })))
        ∙ find-upsert same same_iff p.path k hash c.hashes)
  ]

  on_path-find :
      (p : WatchPath) (c : Changes) (content : List ℕ) (k : Text)
      → w.read p.path ≡ ok content
      → (find same k (on_path w false p c).hashes ≡ find same k c.hashes)
        ⊎ ((p.path ≡ k) × (find same k (on_path w false p c).hashes ≡ some (w.blake3 content)))
  unfolding on_path
  on_path-find p c content k reads = elim (Action-cases (classify p)) [
    | inl it ↦
        rw (it, on_path)
          (rw reads (elim (Bool-cases (same p.path k)) [
            | inl here ↦
                inr
                  ((same_iff p.path k).0 here, hashed-find p (w.blake3 content) c k ∙ rw here refl)
            | inr other ↦ inl (hashed-find p (w.blake3 content) c k ∙ rw other refl)
          ]))
    | inr is_ignored ↦ inl (rw (is_ignored, on_path) refl)
  ]

  after-IsKnown :
      (p : WatchPath) (c : Changes) → IsReadable p → IsKnown (on_path w false p c).hashes p
  unfolding on_path
  after-IsKnown p c (content, reads) = elim (Action-cases (classify p)) [
    | inl it ↦ inr (
      content,
      reads,
      rw (it, on_path)
          (rw reads (hashed-find p (w.blake3 content) c p.path ∙ rw (same_refl p.path) refl)),
    )
    | inr is_ignored ↦ inl is_ignored
  ]

  keeps-IsKnown :
      (p q : WatchPath) (c : Changes)
      → IsReadable p
      → IsKnown c.hashes q
      → IsKnown (on_path w false p c).hashes q
  keeps-IsKnown p q c (content, reads) (inl is_ignored) = inl is_ignored
  keeps-IsKnown p q c (content, reads) (inr (text, q_reads, found)) =
      elim (on_path-find p c content q.path reads) [
        | inl as_before ↦ inr (text, q_reads, as_before ∙ found)
        | inr (same_path, now) ↦ inr (content, rw (sym same_path) reads, now)
      ]

  on_paths-keeps :
      (paths : List WatchPath) (q : WatchPath) (c : Changes)
      → All IsReadable paths
      → IsKnown c.hashes q
      → IsKnown (on_paths w false paths c).hashes q
  unfolding on_paths
  on_paths-keeps [] q c readable known = known
  on_paths-keeps (p ∷ paths) q c (r, readable) known =
      on_paths-keeps paths q (on_path w false p c) readable (keeps-IsKnown p q c r known)

  on_paths-IsKnown :
      (paths : List WatchPath) (c : Changes)
      → All IsReadable paths
      → All (IsKnown (on_paths w false paths c).hashes) paths
  unfolding on_paths
  on_paths-IsKnown [] c readable = tt
  on_paths-IsKnown (p ∷ paths) c (r, readable) = (
    on_paths-keeps paths p (on_path w false p c) readable (after-IsKnown p c r),
    on_paths-IsKnown paths (on_path w false p c) readable,
  )

  on_events-keeps :
      (events : List Event) (q : WatchPath) (c : Changes)
      → All IsSaved events
      → IsKnown c.hashes q
      → IsKnown (on_events w events c).hashes q
  unfolding on_events
  on_events-keeps [] q c saved known = known
  on_events-keeps (e ∷ events) q c ((stays, readable), saved) known = rw stays (
      on_events-keeps events q (on_paths w false e.paths c) saved
        (on_paths-keeps e.paths q c readable known))

  All-keeps :
      (events : List Event) (paths : List WatchPath) (c : Changes)
      → All IsSaved events
      → All (IsKnown c.hashes) paths
      → All (IsKnown (on_events w events c).hashes) paths
  All-keeps events [] c saved known = tt
  All-keeps events (p ∷ paths) c saved (k, known) =
      (on_events-keeps events p c saved k, All-keeps events paths c saved known)

  abbrev AllKnown : List (Text × Text) → List Event → Type 0
  AllKnown hashes events = All (λ e. (e.is_removal ≡ false) × All (IsKnown hashes) e.paths) events

  on_events-AllKnown :
      (events : List Event) (c : Changes)
      → All IsSaved events
      → AllKnown (on_events w events c).hashes events
  unfolding on_events
  on_events-AllKnown [] c saved = tt
  on_events-AllKnown (e ∷ events) c ((stays, readable), saved) =
      let c1 = on_paths w false e.paths c in
      let after : on_events w (e ∷ events) c ≡ on_events w events c1 =
        ap (λ b. on_events w events (on_paths w b e.paths c)) stays in
      subst (λ (x : Changes). AllKnown x.hashes (e ∷ events)) (sym after)
        (
          (stays, All-keeps events e.paths c1 saved (on_paths-IsKnown e.paths c readable)),
          on_events-AllKnown events c1 saved,
        )

  paths_idle :
      (paths : List WatchPath) (c : Changes)
      → All (IsKnown c.hashes) paths
      → on_paths w false paths c ≡ c
  unfolding on_paths
  paths_idle [] c known = refl
  paths_idle (p ∷ paths) c (k, known) = rw (known_idle p c k) (paths_idle paths c known)

  events_idle :
      (events : List Event) (c : Changes) → AllKnown c.hashes events → on_events w events c ≡ c
  unfolding on_events
  events_idle [] c known = refl
  events_idle (e ∷ events) c ((stays, k), known) =
      rw stays (rw (paths_idle e.paths c k) (events_idle events c known))

  -- A batch of saves of readable files is handled once: the same batch again, with the files as they
  -- were, does nothing, and so does not push, whether the first one pushed, failed its preflight or
  -- failed to push.
  pub handle_batch-again :
      (events : List Event) (livereload : Bool) (hashes : List (Text × Text)) (db later : Db)
      → All IsSaved events
      → handle_batch w events livereload (handle_batch w events livereload hashes db).1 later
        ≡ ((ok tt, later), (handle_batch w events livereload hashes db).1)
  unfolding handle_batch
  handle_batch-again events livereload hashes db later saved =
      rw
        (events_idle events (start w (on_events w events (start w hashes)).hashes)
          (on_events-AllKnown events (start w hashes) saved))
        refl
