-- ===== src/Push/Safe.antt =====
-- What `push_with_options` of crates/pg_web_cli/src/push.rs leaves behind.
use mathlib.Core.Path.{subst}
use pg_web.Common.{
  ℕ, false, ◌≡◌, refl, Bool, true, not, ◌||◌, List, [], ◌∷◌, Option, none, some, Text, codes,
  Bool-cases, inl, inr,
}
use pg_web.Common.Result.{Result, ok, err}
use pg_web.Migrate.{Ledger}
use pg_web.Retry.Last.{
  Waited, at_once, waited, Tried, first, again, EndsWith, with_retry_inner-last,
}
use pg_web.Push.Database.{Tables, PushSummary, PushError, failed, gave_up, Postgres}
use pg_web.Push.Entries.{Files}
use pg_web.Push.Assets.{AssetLibrary}
use pg_web.Push.Transaction.{PushOptions, App, Plan, attempt}
use pg_web.Push.Gate.{find_pending, gate}
use pg_web.Push.Run.{
  Source, read_source, plan_of, completed, finished, push_gated, push_source, Retries, connected,
  max_attempts, with_retry, push_with_options,
}
use pg_web.Push.Atomic.{Landed, attempt-dry_run, attempt-failed}

-- The gate applies migrations only if it may, and not in a dry run.
pub gate-same :
    {Server : Type 0} (l : Ledger (Tables Server)) (opts : PushOptions) (app : App)
    (r : Result PushError (List Text)) (db : Tables Server)
    → (opts.dry_run || not opts.with_migrate) ≡ true
    → (gate l opts app r db).1 ≡ db
unfolding gate
gate-same l opts app (err e) db h = refl
gate-same l opts app (ok []) db h = refl
gate-same l opts app (ok (n ∷ names)) db h = elim (Bool-cases opts.with_migrate) [
  | inl may ↦ elim (Bool-cases opts.dry_run) [ inl dry ↦ rw may (rw dry refl) | inr wet ↦ cc ]
  | inr not_may ↦ rw not_may refl
]

-- The parts of a result and its database.
some_parts :
    {A B : Type 0} (a a' : A) (b b' : B)
    → ◌≡◌ {A = Option (A × B)} (some (a, b)) (some (a', b'))
    → (a' ≡ a) × (b' ≡ b)
some_parts a a' b b' h = (cc, cc)

module _ {Server : Type 0} (pg : Postgres Server) (l : Ledger (Tables Server))
    (retries : Retries Server) (files : Files) (lib : AssetLibrary) where
  abbrev pub Elapsed : Tables Server → Tables Server → Type 0
  Elapsed = Waited retries.default_sleep

  -- What the attempts of a push can leave: the database as others left it while the push waited, and
  -- the whole of each transaction whose COMMIT took effect although its error was reported.
  pub data Trail (p : Plan) : Tables Server → Tables Server → Type 0 where
    here : {s : Tables Server} → Trail p s s
    later :
        {s t : Tables Server} (attempt : ℕ)
        → Trail p (retries.default_sleep attempt s) t
        → Trail p s t
    whole : {s mid t : Tables Server} → Landed pg files p s mid → Trail p mid t → Trail p s t

  abbrev Attempts : Bool → Plan → Tables Server → Tables Server → Type 0
  Attempts dry_run p = Tried (attempt pg files dry_run p) retries.default_sleep

  with_retry-last :
      (dry_run : Bool) (p : Plan) (db db' : Tables Server) (r : Result PushError PushSummary)
      → with_retry pg l retries files lib dry_run p db ≡ some (r, db')
      → (last : Tables Server) × Attempts dry_run p db last
        × EndsWith (attempt pg files dry_run p last) r db'
  unfolding with_retry
  with_retry-last dry_run p db db' r h =
      with_retry_inner-last (attempt pg files dry_run p) retries.is_retryable retries.default_sleep
        (λ n e. gave_up e) max_attempts db db' r h

  -- Attempts of a dry run leave nothing.
  pub Attempts-dry : (p : Plan) {db db' : Tables Server} → Attempts true p db db' → Elapsed db db'
  Attempts-dry p first = at_once
  Attempts-dry p {db} {db'} (again n e fails more) = waited n (
      subst (λ d. Elapsed (retries.default_sleep n d) db') (attempt-dry_run pg files p db)
        (Attempts-dry p more))

  -- The state behind an attempt that failed, and what follows it.
  pub Trail-failed :
      (p : Plan) (db db' : Tables Server) (e : PushError)
      → (attempt pg files false p db).0 ≡ err e
      → Trail p (attempt pg files false p db).1 db'
      → Trail p db db'
  Trail-failed p db db' e fails t = elim (attempt-failed pg files p db e fails) [
    | inl same_db ↦ subst (λ d. Trail p d db') same_db t
    | inr took ↦ whole took t
  ]

  pub Attempts-Trail :
      (p : Plan) {db db' : Tables Server} → Attempts false p db db' → Trail p db db'
  Attempts-Trail p first = here
  Attempts-Trail p {db} {db'} (again n e fails more) =
      Trail-failed p db db' e fails (later n (Attempts-Trail p more))

  pub Trail-then : (p : Plan) {a b c : Tables Server} → Trail p a b → Trail p b c → Trail p a c
  Trail-then p here u = u
  Trail-then p (later n t) u = later n (Trail-then p t u)
  Trail-then p (whole took t) u = whole took (Trail-then p t u)

  -- A push that got to its transaction: the state `mid` that the gate left, and the last attempt.
  pub record Ran (opts : PushOptions) (app : App) (db : Tables Server)
      (r : Result PushError PushSummary) (db' : Tables Server) : Type 0 where
    pub src : Source
    pub names : List Text
    pub mid : Tables Server
    pub last : Tables Server
    pub result : Result PushError PushSummary
    pub reads : read_source files lib app ≡ ok src
    pub passes : gate l opts app (find_pending l app db) db ≡ (ok names, mid)
    pub elapsed : Attempts opts.dry_run (plan_of lib app.host src names) mid last
    pub ends :
        EndsWith (attempt pg files opts.dry_run (plan_of lib app.host src names) last) result db'
    pub is_result : r ≡ completed opts names result

  -- How a push ends: before it wrote anything, at the gate, or in its transaction.
  pub data Outcome (opts : PushOptions) (app : App) (db : Tables Server)
      (r : Result PushError PushSummary) (db' : Tables Server) : Type 0 where
    early : (e : PushError) → r ≡ err e → db' ≡ db → Outcome opts app db r db'
    at_gate :
        (e : PushError)
        → r ≡ err e
        → gate l opts app (find_pending l app db) db ≡ (err e, db')
        → Outcome opts app db r db'
    ran : Ran opts app db r db' → Outcome opts app db r db'

  finished-Ran :
      (opts : PushOptions) (app : App) (db : Tables Server) (r : Result PushError PushSummary)
      (db' : Tables Server) (src : Source) (names : List Text) (mid : Tables Server)
      (c : Option (Result PushError PushSummary × Tables Server))
      → read_source files lib app ≡ ok src
      → gate l opts app (find_pending l app db) db ≡ (ok names, mid)
      → with_retry pg l retries files lib opts.dry_run (plan_of lib app.host src names) mid ≡ c
      → finished pg l retries files lib opts names c ≡ some (r, db')
      → Ran opts app db r db'
  finished-Ran opts app db r db' src names mid none reads passes is h = cc
  finished-Ran opts app db r db' src names mid (some (r0, db0)) reads passes is h =
      let (is_r, is_db) = some_parts (completed opts names r0) r db0 db' h in
      let (last, elapsed, ends) =
        with_retry-last opts.dry_run (plan_of lib app.host src names) mid db0 r0 is in
      record {
        src = src;
        names = names;
        mid = mid;
        last = last;
        result = r0;
        reads = reads;
        passes = passes;
        elapsed = elapsed;
        ends = rw is_db ends;
        is_result = is_r;
      }

  pub push-Outcome :
      (opts : PushOptions) (app : App) (db : Tables Server) (r : Result PushError PushSummary)
      (db' : Tables Server)
      → push_with_options pg l retries files lib app opts db ≡ some (r, db')
      → Outcome opts app db r db'
  unfolding push_with_options
  push-Outcome opts app db r db' h = at_source (read_source files lib app) refl h
    where
      at_gated :
          (src : Source) (g : Result PushError (List Text) × Tables Server)
          → read_source files lib app ≡ ok src
          → gate l opts app (find_pending l app db) db ≡ g
          → push_gated pg l retries files lib opts app.host src g ≡ some (r, db')
          → Outcome opts app db r db'
      at_gated src (err e, mid) reads is h =
          let (is_r, is_db) = some_parts (err e) r mid db' h in at_gate e is_r (rw is_db is)
      at_gated src (ok names, mid) reads is h =
          ran (finished-Ran opts app db r db' src names mid _ reads is refl h)

      at_connect :
          (src : Source) (fault : Option Text)
          → read_source files lib app ≡ ok src
          → connected pg l retries files lib opts app src db fault ≡ some (r, db')
          → Outcome opts app db r db'
      at_connect src (some e) reads h =
          let (is_r, is_db) = some_parts _ r db db' h in
          early (failed (codes "connect") e) is_r is_db
      at_connect src none reads h = at_gated src _ reads refl h

      at_source :
          (s : Result PushError Source)
          → read_source files lib app ≡ s
          → push_source pg l retries files lib opts app s db ≡ some (r, db')
          → Outcome opts app db r db'
      at_source (err e) reads h =
          let (is_r, is_db) = some_parts (err e) r db db' h in early e is_r is_db
      at_source (ok src) reads h = at_connect src (pg.fault (codes "connect") db) reads h
