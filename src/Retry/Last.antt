-- ===== src/Retry/Last.antt =====
-- The last call of `with_retry_inner` of crates/pg_web_cli/src/retry.rs, and the way to it.
use pg_web.Common.{
  ℕ, suc, ◌≡◌, refl, ap, inl, inr, Bool, Option, some, if◌then◌else◌, ◌&&◌, Bool-cases, ltb, zero,
}
use pg_web.Common.Result.{Result, ok, err}
use pg_web.Retry.{retry_loop, with_retry_inner, after_call}

-- From one state to another by the waiting between the calls.
pub data Waited {S : Type 0} (sleep : ℕ → S → S) : S → S → Type 0 where
  at_once : {s : S} → Waited sleep s s
  waited : {s t : S} → (attempt : ℕ) → Waited sleep (sleep attempt s) t → Waited sleep s t

-- From one state to another by calls that fail, each with the waiting behind it.
pub data Tried {E T S : Type 0} (f : S → Result E T × S) (sleep : ℕ → S → S) : S → S → Type 0 where
  first : {s : S} → Tried f sleep s s
  again :
      {s t : S} (attempt : ℕ) (e : E)
      → (f s).0 ≡ err e
      → Tried f sleep (sleep attempt (f s).1) t
      → Tried f sleep s t

-- How the loop ends: as its last call does, but for the context of an error.
abbrev pub EndsWith : {E T S : Type 0} → Result E T × S → Result E T → S → Type 0
EndsWith {E} call (ok v) t = call ≡ (ok v, t)
EndsWith {E} call (err e) t = (e' : E) × (call ≡ (err e', t))

module _ {E T S : Type 0} (f : S → Result E T × S) (should_retry : E → Bool) (sleep : ℕ → S → S)
    (context : ℕ → E → E) where
  at_value :
      (s s' t : S) (v : T) (r : Result E T)
      → f s ≡ (ok v, s')
      → ◌≡◌ {A = Option (Result E T × S)} (some (ok v, s')) (some (r, t))
      → EndsWith (f s) r t
  at_value s s' t v (ok w) is h = cc
  at_value s s' t v (err e) is h = cc

  at_error :
      (s s' t : S) (e e' : E) (r : Result E T)
      → f s ≡ (err e, s')
      → ◌≡◌ {A = Option (Result E T × S)} (some (err e', s')) (some (r, t))
      → EndsWith (f s) r t
  at_error s s' t e e' (ok w) is h = cc
  at_error s s' t e e' (err e2) is h = (e, cc)

  loop-last :
      (m fuel attempt : ℕ) (s t : S) (r : Result E T)
      → retry_loop f should_retry sleep context m fuel attempt s ≡ some (r, t)
      → (last : S) × Tried f sleep s last × EndsWith (f last) r t
  unfolding retry_loop
  loop-last m zero a s t r h = cc
  loop-last m (suc fuel) a s t r h =
      go (f s) refl h (loop-last m fuel (suc a) (sleep a (f s).1) t r)
    where
      go :
          (c : Result E T × S)
          → f s ≡ c
          → after_call f should_retry sleep context m a
              (retry_loop f should_retry sleep context m fuel (suc a))
              c
            ≡ some (r, t)
          → (retry_loop f should_retry sleep context m fuel (suc a) (sleep a (f s).1) ≡ some (r, t)
              → (last : S) × Tried f sleep (sleep a (f s).1) last × EndsWith (f last) r t)
          → (last : S) × Tried f sleep s last × EndsWith (f last) r t
      go (ok v, s') is h next = (s, first, at_value s s' t v r is h)
      go (err e, s') is h next = elim (Bool-cases (should_retry e && ltb a m)) [
        | inl more ↦
            let (last, w, ends) =
              next (rw (ap (λ c. sleep a c.1) is) (rw (more, after_call) at h)) in
            (last, again a e (ap (λ c. c.0) is) w, ends)
        | inr stop ↦ (
          s,
          first,
          at_error s s' t e (if should_retry e then context m e else e) r is
              (rw (stop, after_call) at h),
        )
      ]

  -- The result is that of one call, to which calls that failed led: its value or its error, and the
  -- state that it left.
  pub with_retry_inner-last :
      (m : ℕ) (s t : S) (r : Result E T)
      → with_retry_inner f should_retry sleep context m s ≡ some (r, t)
      → (last : S) × Tried f sleep s last × EndsWith (f last) r t
  unfolding with_retry_inner
  with_retry_inner-last m s t r h = loop-last m (suc m) 1 s t r h
