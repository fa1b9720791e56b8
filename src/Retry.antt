-- ===== src/Retry.antt =====
-- crates/pg_web_cli/src/retry.rs: `with_retry_inner`. The closures `f`, `should_retry` and `sleep`
-- and the wrapping of the last error are parameters over a state that the first and the last of
-- them change. The loop has fuel for one call more than `max_attempts`.
pub mod Last
use pg_web.Common.{
  ℕ, zero, suc, ◌+◌, ◌≡◌, ◌<◌, ◌≤◌, refl, Bool, true, false, Option, none, some, ltb, if◌then◌else◌,
  ◌&&◌, arith, ap, ◌∙◌, Bool-cases, inl, inr,
}
use pg_web.Common.Result.{Result, ok, err}

module _ {E T S : Type 0} (f : S → Result E T × S) (should_retry : E → Bool) (sleep : ℕ → S → S)
    (context : ℕ → E → E) where
  abbrev given_up : ℕ → E → S → Option (Result E T × S)
  given_up max_attempts e s = some (err (if should_retry e then context max_attempts e else e), s)

  -- What the loop does with the result of a call; `again` is its next round.
  abbrev after_call :
      ℕ → ℕ → (S → Option (Result E T × S)) → Result E T × S → Option (Result E T × S)
  after_call max_attempts attempt again (ok v, s) = some (ok v, s)
  after_call max_attempts attempt again (err e, s) =
      elim (should_retry e && ltb attempt max_attempts) [
        | true ↦ again (sleep attempt s)
        | false ↦ given_up max_attempts e s
      ]

  unfoldable pub retry_loop : ℕ → ℕ → ℕ → S → Option (Result E T × S)
  retry_loop max_attempts zero attempt s = none
  retry_loop max_attempts (suc fuel) attempt s =
      after_call max_attempts attempt (retry_loop max_attempts fuel (suc attempt)) (f s)

  -- `with_retry_inner`
  unfoldable pub with_retry_inner : ℕ → S → Option (Result E T × S)
  unfolding retry_loop
  with_retry_inner max_attempts s = retry_loop max_attempts (suc max_attempts) 1 s

  -- The state before the call with the number `attempt + k`, when the calls before it failed.
  unfoldable pub state_at : ℕ → ℕ → S → S
  state_at attempt zero s = s
  state_at attempt (suc k) s = state_at (suc attempt) k (sleep attempt (f s).1)

  -- The calls from `attempt` on, `k` of them, fail and are worth a retry.
  unfoldable pub Fails : ℕ → ℕ → S → Type 0
  Fails attempt zero s = Unit
  Fails attempt (suc k) s =
      ((e : E) × ((f s).0 ≡ err e) × (should_retry e ≡ true))
      × Fails (suc attempt) k (sleep attempt (f s).1)

  call_parts : (s : S) (r : Result E T) → (f s).0 ≡ r → f s ≡ (r, (f s).1)
  call_parts s r h = ap (λ x. (x, (f s).1)) h

  inside_lt : (m a k : ℕ) → a + suc k ≤ m → ltb a m ≡ true
  inside_lt m a k h = ground arith

  at_end_lt : (m a : ℕ) → a + 0 ≡ m → ltb a m ≡ false
  at_end_lt m a h = ground arith

  after_call_again :
      (m a : ℕ) (again : S → Option (Result E T × S)) (e : E) (s : S)
      → should_retry e ≡ true
      → ltb a m ≡ true
      → after_call m a again (err e, s) ≡ again (sleep a s)
  after_call_again m a again e s worth inside = rw (worth, after_call) (rw inside refl)

  after_call_last :
      (m a : ℕ) (again : S → Option (Result E T × S)) (e : E) (s : S)
      → should_retry e ≡ true
      → ltb a m ≡ false
      → after_call m a again (err e, s) ≡ some (err (context m e), s)
  after_call_last m a again e s worth at_end =
      rw (worth, after_call)
        (rw at_end (ap (λ c. some (err (if c then context m e else e), s)) worth))

  loop_success :
      (max_attempts fuel attempt k : ℕ) (s : S) (v : T)
      → k < fuel
      → attempt + k ≤ max_attempts
      → Fails attempt k s
      → (f (state_at attempt k s)).0 ≡ ok v
      → retry_loop max_attempts fuel attempt s ≡ some (ok v, (f (state_at attempt k s)).1)
  unfolding retry_loop state_at Fails
  loop_success m zero a k s v fueled inside fails succeeds = absurd (omega arith)
  loop_success m (suc fuel) a zero s v fueled inside fails succeeds =
      rw (call_parts s (ok v) succeeds) refl
  loop_success m (suc fuel) a (suc k) s v fueled inside ((e, failed, worth), later) succeeds =
      rw (call_parts s (err e) failed) (
        after_call_again m a (retry_loop m fuel (suc a)) e (f s).1 worth (inside_lt m a k inside)
        ∙ loop_success m fuel (suc a) k (sleep a (f s).1) v (omega arith) (omega arith) later
            succeeds)

  loop_exhausted :
      (max_attempts fuel attempt k : ℕ) (s : S) (e : E)
      → k < fuel
      → attempt + k ≡ max_attempts
      → Fails attempt k s
      → (f (state_at attempt k s)).0 ≡ err e
      → should_retry e ≡ true
      → retry_loop max_attempts fuel attempt s
        ≡ some (err (context max_attempts e), (f (state_at attempt k s)).1)
  unfolding retry_loop state_at Fails
  loop_exhausted m zero a k s e fueled at_end fails failed worth = absurd (omega arith)
  loop_exhausted m (suc fuel) a zero s e fueled at_end fails failed worth =
      rw (call_parts s (err e) failed)
        (after_call_last m a (retry_loop m fuel (suc a)) e (f s).1 worth (at_end_lt m a at_end))
  loop_exhausted m (suc fuel) a (suc k) s e fueled at_end ((e', failed', worth'), later) failed
        worth =
      rw (call_parts s (err e') failed') (
        after_call_again m a (retry_loop m fuel (suc a)) e' (f s).1 worth'
          (inside_lt m a k (omega arith))
        ∙ loop_exhausted m fuel (suc a) k (sleep a (f s).1) e (omega arith) (omega arith) later
            failed worth)

  after_call_total :
      (m attempt : ℕ) (again : S → Option (Result E T × S)) (c : Result E T × S)
      → (attempt < m → (s : S) → (r : Result E T) × (t : S) × (again s ≡ some (r, t)))
      → (r : Result E T) × (t : S) × (after_call m attempt again c ≡ some (r, t))
  after_call_total m attempt again (ok v, s) h = (ok v, s, refl)
  after_call_total m attempt again (err e, s) h =
      elim (Bool-cases (should_retry e && ltb attempt m)) [
        | inl more ↦
            let (r, t, is) = h (ground arith) (sleep attempt s) in (r, t, rw (more, after_call) is)
        | inr stop ↦
            (err (if should_retry e then context m e else e), s, rw (stop, after_call) refl)
      ]

  loop_total :
      (max_attempts fuel attempt : ℕ) (s : S)
      → max_attempts < fuel + attempt
      → 0 < fuel
      → (r : Result E T) × (t : S) × (retry_loop max_attempts fuel attempt s ≡ some (r, t))
  unfolding retry_loop
  loop_total m zero a s enough pos = absurd (omega arith)
  loop_total m (suc fuel) a s enough pos =
      after_call_total m a (retry_loop m fuel (suc a)) (f s)
        (λ more s'. loop_total m fuel (suc a) s' (omega arith) (omega arith))

  -- The retries end: whatever the closures do, the loop returns a result.
  pub with_retry_inner_total :
      (max_attempts : ℕ) (s : S)
      → (r : Result E T) × (t : S) × (with_retry_inner max_attempts s ≡ some (r, t))
  unfolding with_retry_inner
  with_retry_inner_total m s = loop_total m (suc m) 1 s (omega arith) (omega arith)

  -- If the first `k` calls fail with errors worth a retry and the next one succeeds, within the
  -- allowed number of calls, its value is the result, and nothing is called behind it.
  pub with_retry_inner-success :
      (max_attempts k : ℕ) (s : S) (v : T)
      → 1 + k ≤ max_attempts
      → Fails 1 k s
      → (f (state_at 1 k s)).0 ≡ ok v
      → with_retry_inner max_attempts s ≡ some (ok v, (f (state_at 1 k s)).1)
  unfolding with_retry_inner
  with_retry_inner-success m k s v inside fails succeeds =
      loop_success m (suc m) 1 k s v (omega arith) inside fails succeeds

  -- If all the allowed calls fail with errors worth a retry, the result is the last error under its
  -- context, and there is no further call.
  pub with_retry_inner-exhausted :
      (max_attempts k : ℕ) (s : S) (e : E)
      → 1 + k ≡ max_attempts
      → Fails 1 k s
      → (f (state_at 1 k s)).0 ≡ err e
      → should_retry e ≡ true
      → with_retry_inner max_attempts s
        ≡ some (err (context max_attempts e), (f (state_at 1 k s)).1)
  unfolding with_retry_inner
  with_retry_inner-exhausted m k s e at_end fails failed worth =
      loop_exhausted m (suc m) 1 k s e (omega arith) at_end fails failed worth
