-- ===== src/CliSettings/Sync.antt =====
-- What the CLI writes to the settings table and what a push leaves of it.
use pg_web.Common.{
  ◌≡◌, ◌≢◌, refl, Bool, true, false, [], Option, none, some, if◌then◌else◌, Text, codes, same,
  same_iff, same_refl, ◌||◌, is_empty, arith, ap, ◌∙◌,
}
use pg_web.Common.Result.{Result, ok, err, ◌>>=◌}
use pg_web.CliSettings.{
  EnvError, empty_key, reserved_key, SettingsTable, validate_key, reject_reserved, ServerSection,
  set, sync, flag, sync_settings,
}

module _ {Db : Type 0} (t : SettingsTable Db) where
  sync-value :
      (key : Text) (o : Option Text) (db : Db) (j : Text)
      → same key j ≡ false
      → t.value j (sync t key o db) ≡ t.value j db
  sync-value key none db j h = refl
  sync-value key (some v) db j h = t.value-upsert key j v db ∙ rw h refl

  not_nil : (key : Text) → is_empty key ≡ false → key ≢ []
  not_nil key filled e = ground arith

  set-eq-ok :
      (key v : Text) (db db' : Db)
      → set t key v db ≡ ok db'
      → (is_empty key ≡ false) × (same key (codes "env") ≡ false) × (db' ≡ t.upsert key v db)
  unfolding set reject_reserved validate_key
  set-eq-ok key v db db' e = go (is_empty key) (same key (codes "env")) refl refl e
    where
      guarded : Bool → Bool → Result EnvError Db
      guarded a r =
          (◌>>=◌ {E = EnvError} {A = Unit {0}} (if a then err empty_key else ok tt) (λ _.
            ◌>>=◌ {E = EnvError} {A = Unit {0}} (if r || false then err reserved_key else ok tt)
              (λ _. ok (t.upsert key v db))))

      go :
          (a r : Bool)
          → is_empty key ≡ a
          → same key (codes "env") ≡ r
          → guarded a r ≡ ok db'
          → (is_empty key ≡ false) × (same key (codes "env") ≡ false) × (db' ≡ t.upsert key v db)
      go true r a_is r_is h = cc
      go false true a_is r_is h = cc
      go false false a_is r_is h = (a_is, r_is, ground arith)

  env_other : (key : Text) → same key (codes "env") ≡ false → same (codes "env") key ≡ false
  env_other key h = ground (arith, same_iff key (codes "env"), same_iff (codes "env") key)

  -- What `set` wrote under a key other than the request timeout's and the two of the health checks
  -- stays over a push, whatever pgweb.toml holds.
  pub sync_settings-set :
      (s : ServerSection) (key v : Text) (db db' : Db)
      → set t key v db ≡ ok db'
      → same (codes "request_timeout") key ≡ false
      → same (codes "health_enabled") key ≡ false
      → same (codes "readiness_enabled") key ≡ false
      → t.value key (sync_settings t s db') ≡ some v
  unfolding sync_settings set reject_reserved validate_key
  sync_settings-set s key v db db' e rt health ready =
      let (_, not_env, is) = set-eq-ok key v db db' e in
      sync-value (codes "readiness_enabled") (flag t s.readiness_enabled) _ key ready
      ∙ sync-value (codes "health_enabled") (flag t s.health_enabled) _ key health
      ∙ sync-value (codes "request_timeout") s.request_timeout _ key rt
      ∙ sync-value (codes "env") s.env db' key (env_other key not_env)
      ∙ ap (t.value key) is
      ∙ t.value-upsert key key v db
      ∙ rw (same_refl key) refl

  -- `set` accepts the key of the request timeout, and the next push with a timeout in pgweb.toml
  -- replaces the value that it wrote.
  pub sync_settings-request_timeout :
      (s : ServerSection) (v w : Text) (db : Db)
      → s.request_timeout ≡ some w
      → (db' : Db) × (set t (codes "request_timeout") v db ≡ ok db')
        × (t.value (codes "request_timeout") db' ≡ some v)
        × (t.value (codes "request_timeout") (sync_settings t s db') ≡ some w)
  unfolding sync_settings set reject_reserved validate_key same
  sync_settings-request_timeout s v w db e = (
    t.upsert (codes "request_timeout") v db,
    refl,
    t.value-upsert _ _ _ _,
    sync-value (codes "readiness_enabled") (flag t s.readiness_enabled) _ (codes "request_timeout")
          refl
        ∙ sync-value (codes "health_enabled") (flag t s.health_enabled) _ (codes "request_timeout")
            refl
        ∙ rw e (t.value-upsert _ _ _ _),
  )

  -- The keys that `set` rejects, the empty one and `env`, are never written.
  pub set_guarded :
      (key v : Text) (db db' : Db)
      → set t key v db ≡ ok db'
      → (key ≢ []) × (key ≢ codes "env") × (t.value key db' ≡ some v)
  unfolding set reject_reserved validate_key
  set_guarded key v db db' e =
      let (filled, not_env, is) = set-eq-ok key v db db' e in
      (
        not_nil key filled,
        λ at_env. ground (arith, same_iff key (codes "env")),
        ap (t.value key) is ∙ t.value-upsert key key v db ∙ rw (same_refl key) refl,
      )
