-- ===== src/Retry/Attempts.antt =====
-- python/src/brain_db_sdk/retry.py: the calls that the loop of `with_retry` makes, and where it stops.
use brain_sdk.Prelude.{
  ℕ, zero, suc, ◌+◌, ◌≤◌, ◌<◌, max, ◌≡◌, refl, sym, ap, ◌∙◌, subst, true, false, Bool-cases, inl,
  inr, ◌⊎◌, Option, none, some, [], All, length, arith, ltb, ltb→lt, ◌==◌,
}
use native.Mathlib.Decide.{dec_lt}
use brain_sdk.Errors.{Exception, other_error, is_retryable}
use brain_sdk.Retry.{
  RetryPolicy, Attempt, returned, raised, finished, Run, sleep_for, sleep_before_retry,
  after_attempt, retry_loop, with_retry, policy_or_default, Delay, waits, overflows, after_delay,
  server_retry_after,
}
use brain_sdk.Retry.Backoff.{
  Between, IsBeyond, waits≢overflows, sleep_before_retry_bounds, sleep_before_retry-overflows,
  sleep_before_retry-IsBeyond,
}

-- A failure that a retry may clear.
abbrev pub Transient {ℓ} : {A : Type ℓ} → Attempt A → Type 0
Transient (returned a) = ⊥
Transient (raised exc) = is_retryable exc ≡ true

-- A failure after which the delay overflows: it may clear, attempts are left, there is no
-- hint, and the power of two is beyond the floats.
abbrev pub Overflowing {ℓ} : {A : Type ℓ} → RetryPolicy → ℕ → Attempt A → Type 0
Overflowing policy attempt (returned a) = ⊥
Overflowing policy attempt (raised exc) =
    (is_retryable exc ≡ true)
    × IsBeyond policy attempt (server_retry_after exc)
    × (attempt < policy.max_attempts)

-- The run made the calls up to the n-th: each before it failed transiently with attempts left, the
-- n-th is the result, and it succeeded, or failed for good, or was the last attempt; or the delay
-- behind the n-th overflows, and that is the result.
pub record Stopped {ℓ} {A : Type ℓ} (op : ℕ → Attempt A) (policy : RetryPolicy) (first : ℕ)
    (run : Run A) : Type ℓ where
  pub result :
      ((run.outcome ≡ finished (op run.calls))
        × (Transient (op run.calls) → policy.max_attempts ≤ run.calls))
      ⊎ ((run.outcome ≡ finished (raised other_error))
          × Overflowing policy run.calls (op run.calls))
  pub from_first : first ≤ run.calls
  pub within : run.calls ≤ max first policy.max_attempts
  pub retried :
      (n : ℕ) → first ≤ n → n < run.calls → Transient (op n) × (Overflowing policy n (op n) → ⊥)
  pub sleeps_few : length run.sleeps + first ≤ run.calls
  pub sleeps_short : All (λ d. d ≤ policy.max_delay) run.sleeps

module _ {ℓ} {A : Type ℓ} (uniform : ℕ → ℕ → ℕ → ℕ) (op : ℕ → Attempt A) (policy : RetryPolicy)
    (between : Between uniform) where
  sleep_for-calls : (d : Option ℕ) (run : Run A) → (sleep_for d run).calls ≡ run.calls
  sleep_for-calls none run = refl
  sleep_for-calls (some d) run = elim (Bool-cases (d == 0)) [
    | inl z ↦ rw z refl
    | inr nz ↦ rw nz refl
  ]

  sleep_for-outcome : (d : Option ℕ) (run : Run A) → (sleep_for d run).outcome ≡ run.outcome
  sleep_for-outcome none run = refl
  sleep_for-outcome (some d) run = elim (Bool-cases (d == 0)) [
    | inl z ↦ rw z refl
    | inr nz ↦ rw nz refl
  ]

  sleep_for-length :
      (d : Option ℕ) (run : Run A) → length (sleep_for d run).sleeps ≤ suc (length run.sleeps)
  sleep_for-length none run = omega arith
  sleep_for-length (some d) run = elim (Bool-cases (d == 0)) [
    | inl z ↦ rw z (omega arith)
    | inr nz ↦ rw nz (omega arith)
  ]

  sleep_for-short :
      (d : Option ℕ) (run : Run A)
      → ((n : ℕ) → d ≡ some n → n ≤ policy.max_delay)
      → All (λ d. d ≤ policy.max_delay) run.sleeps
      → All (λ d. d ≤ policy.max_delay) (sleep_for d run).sleeps
  sleep_for-short none run h a = a
  sleep_for-short (some d) run h a = elim (Bool-cases (d == 0)) [
    | inl z ↦ rw z a
    | inr nz ↦ rw nz (h d refl, a)
  ]

  -- A transient failure with attempts left, then a stopped run.
  slept :
      (attempt : ℕ) (d : Option ℕ) (further : Run A)
      → attempt < policy.max_attempts
      → Transient (op attempt)
      → (Overflowing policy attempt (op attempt) → ⊥)
      → ((n : ℕ) → d ≡ some n → n ≤ policy.max_delay)
      → Stopped op policy (attempt + 1) further
      → Stopped op policy attempt (sleep_for d further)
  slept attempt d further more transient calm short s = record {
    result =
        subst
          (λ n.
            (((sleep_for d further).outcome ≡ finished (op n))
              × (Transient (op n) → policy.max_attempts ≤ n))
            ⊎ (((sleep_for d further).outcome ≡ finished (raised other_error))
                × Overflowing policy n (op n)))
          (sym same)
          (subst
            (λ o.
              ((o ≡ finished (op further.calls))
                × (Transient (op further.calls) → policy.max_attempts ≤ further.calls))
              ⊎ ((o ≡ finished (raised other_error))
                  × Overflowing policy further.calls (op further.calls)))
            (sym (sleep_for-outcome d further)) s.result);
    from_first = omega (arith, same, s.from_first);
    within = omega (arith, same, s.within);
    retried = λ n low high. elim (dec_lt attempt n) [
      | yes later ↦ s.retried n (omega arith) (omega (arith, same))
      | no here ↦
          subst (λ k. Transient (op k) × (Overflowing policy k (op k) → ⊥)) (the_first n low here)
            (transient, calm)
    ];
    sleeps_few = omega (arith, same, sleep_for-length d further, s.sleeps_few);
    sleeps_short = sleep_for-short d further short s.sleeps_short;
  }
    where
      same : (sleep_for d further).calls ≡ further.calls
      same = sleep_for-calls d further

      the_first : (n : ℕ) → attempt ≤ n → ¬ (attempt < n) → attempt ≡ n
      the_first n low here = omega arith

  -- A run that ends with this attempt.
  ended :
      (attempt : ℕ) (r : Attempt A)
      → op attempt ≡ r
      → (Transient r → policy.max_attempts ≤ attempt)
      → Stopped op policy attempt (record { calls = attempt; sleeps = []; outcome = finished r })
  ended attempt r e last = record {
    result = inl (ap finished (sym e), λ t. last (subst Transient e t));
    from_first = omega arith;
    within = omega arith;
    retried = λ n low high. absurd (omega arith);
    sleeps_few = omega arith;
    sleeps_short = tt;
  }

  -- The delay behind a failure that may clear.
  delayed :
      (attempt : ℕ) (exc : Exception) (d : Delay) (further : Run A)
      → op attempt ≡ raised exc
      → sleep_before_retry uniform policy attempt exc ≡ d
      → attempt < policy.max_attempts
      → is_retryable exc ≡ true
      → Stopped op policy (attempt + 1) further
      → Stopped op policy attempt (after_delay attempt d further)
  delayed attempt exc (waits o) further e delay more transient s =
      slept attempt o further more (subst Transient (sym e) transient)
        (λ f. waits≢overflows o (
          sym delay
          ∙ sleep_before_retry-IsBeyond uniform policy attempt exc
              (subst (Overflowing policy attempt) e f).1))
        (λ n w.
          (sleep_before_retry_bounds uniform policy attempt exc n between (delay ∙ ap waits w)).2)
        s
  delayed attempt exc overflows further e delay more transient s =
      let beyond = sleep_before_retry-overflows uniform policy attempt exc delay in
      record {
        result = inr (refl, subst (Overflowing policy attempt) (sym e) (transient, beyond, more));
        from_first = omega arith;
        within = omega arith;
        retried = λ n low high. absurd (omega arith);
        sleeps_few = omega arith;
        sleeps_short = tt;
      }

  -- One call of the loop, by what the operation did.
  step :
      (attempt : ℕ) (r : Attempt A) (further : Run A)
      → op attempt ≡ r
      → (attempt < policy.max_attempts → Stopped op policy (attempt + 1) further)
      → Stopped op policy attempt (after_attempt uniform op policy attempt r further)
  unfolding after_attempt
  step attempt (returned a) further e h = ended attempt (returned a) e (λ t. absurd t)
  step attempt (raised exc) further e h = elim (Bool-cases (ltb attempt policy.max_attempts)) [
    | inr last ↦ rw last (ended attempt (raised exc) e (λ t. no_more last))
    | inl more ↦ elim (Bool-cases (is_retryable exc)) [
      | inr for_good ↦
          rw (more, for_good) (ended attempt (raised exc) e (λ t. absurd (contradicts for_good t)))
      | inl transient ↦
          rw (more, transient)
            (delayed attempt exc (sleep_before_retry uniform policy attempt exc) further e refl
              (ltb→lt _ _ more) transient (h (ltb→lt _ _ more)))
    ]
  ]
    where
      no_more : ltb attempt policy.max_attempts ≡ false → policy.max_attempts ≤ attempt
      no_more h = ground arith

      contradicts : is_retryable exc ≡ false → is_retryable exc ≡ true → ⊥
      contradicts f t = cc

  retry_loop-Stopped :
      (fuel attempt : ℕ)
      → policy.max_attempts < fuel + attempt
      → 0 < fuel
      → Stopped op policy attempt (retry_loop uniform op fuel policy attempt)
  unfolding retry_loop
  retry_loop-Stopped zero attempt h pos = absurd (omega arith)
  retry_loop-Stopped (suc fuel) attempt h pos =
      step attempt (op attempt) _ refl
        (λ more. retry_loop-Stopped fuel (attempt + 1) (omega arith) (omega arith))

-- For every operation, every policy and every random source that stays between its ends, a run of
-- `with_retry` ends within its fuel, after at least one call and at most `max_attempts` of them
-- (one if that is 0): each call before the last failed in a retryable way, with a delay that does
-- not overflow, the sleeps are fewer than the calls, none of them longer than `max_delay`, and the
-- result is that of the last call, which succeeded, failed beyond retry or was out of attempts. Or
-- the last call failed in a retryable way with attempts left and its delay overflows, and the
-- result is that `OverflowError`. A delay overflows without a hint after more than 1024 calls, if
-- `base_delay` is not 0.
pub with_retry-Stopped {ℓ} :
    {A : Type ℓ} (uniform : ℕ → ℕ → ℕ → ℕ) (op : ℕ → Attempt A) (policy : Option RetryPolicy)
    → Between uniform
    → Stopped op (policy_or_default policy) 1 (with_retry uniform op policy)
unfolding with_retry
with_retry-Stopped uniform op policy between =
    retry_loop-Stopped uniform op (policy_or_default policy) between
      ((policy_or_default policy).max_attempts + 1) 1 (omega arith) (omega arith)
