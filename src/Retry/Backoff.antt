-- ===== src/Retry/Backoff.antt =====
-- python/src/brain_db_sdk/retry.py: the range of the delay before a retry.
use brain_sdk.Prelude.{
  ℕ, ◌-◌, ◌*◌, ◌^◌, ◌≤◌, min, ◌≡◌, refl, Option, none, some, arith, ◌==◌, if◌then◌else◌, Bool-cases,
  inl, inr, sym, ap, ◌∙◌, subst, Bool, true, false, ltb, ◌<◌,
}
use brain_sdk.Errors.{Exception}
use brain_sdk.Retry.{
  RetryPolicy, Delay, waits, overflows, backoff, server_retry_after, jittered, hint_floor,
  jitter_delay, sleep_before_retry,
}

-- `random.uniform(a, b)` lies between its ends.
abbrev pub Between : (ℕ → ℕ → ℕ → ℕ) → Type 0
Between uniform =
    (attempt low high : ℕ)
    → low ≤ high
    → (low ≤ uniform attempt low high) × (uniform attempt low high ≤ high)

-- The longest delay after an attempt: the server's hint if it sent one, else the exponential delay,
-- both capped.
abbrev pub longest : RetryPolicy → ℕ → Option ℕ → ℕ
longest policy attempt (some hint) = min hint policy.max_delay
longest policy attempt none = min (policy.base_delay * 2 ^ (attempt - 1)) policy.max_delay

jittered-Between :
    (uniform : ℕ → ℕ → ℕ → ℕ) (attempt delay floor : ℕ)
    → Between uniform
    → floor ≤ delay
    → (floor ≤ jittered uniform attempt delay floor)
      × (jittered uniform attempt delay floor ≤ delay)
unfolding jittered
jittered-Between uniform attempt delay floor b h = ground (arith, b attempt (min floor delay) delay)

waits-inj : (a b : ℕ) → waits (some a) ≡ waits (some b) → a ≡ b
waits-inj a b h = cc

delayed-Between :
    (uniform : ℕ → ℕ → ℕ → ℕ) (attempt delay floor sleep : ℕ)
    → Between uniform
    → floor ≤ delay
    → (if delay == 0 then waits none else waits (some (jittered uniform attempt delay floor)))
      ≡ waits (some sleep)
    → (floor ≤ sleep) × (sleep ≤ delay)
delayed-Between uniform attempt delay floor sleep b h e = elim (Bool-cases (delay == 0)) [
  | inl z ↦ absurd (never (sym (rw z refl) ∙ e))
  | inr nz ↦
      subst (λ t. (floor ≤ t) × (t ≤ delay)) (waits-inj _ _ (sym (rw nz refl) ∙ e))
        (jittered-Between uniform attempt delay floor b h)
]
  where
    never : waits none ≡ waits (some sleep) → ⊥
    never n = cc

jitter_delay-Between :
    (uniform : ℕ → ℕ → ℕ → ℕ) (policy : RetryPolicy) (attempt : ℕ) (hint : Option ℕ) (sleep : ℕ)
    → Between uniform
    → jitter_delay uniform policy attempt hint (backoff policy attempt hint) ≡ waits (some sleep)
    → (hint_floor uniform policy hint ≤ sleep) × (sleep ≤ longest policy attempt hint)
unfolding backoff
jitter_delay-Between uniform policy attempt (some hint) sleep b h =
    delayed-Between uniform attempt (min hint policy.max_delay) (min hint policy.max_delay) sleep b
      (omega arith) h
jitter_delay-Between uniform policy attempt none sleep b h =
    elim (Bool-cases (policy.base_delay == 0)) [
      | inl z ↦ absurd (never (sym (ap (jitter_delay uniform policy attempt none) (at_once z)) ∙ h))
      | inr nz ↦ elim (Bool-cases (ltb 1023 (attempt - 1))) [
        | inl high ↦
            absurd
              (never' (sym (ap (jitter_delay uniform policy attempt none) (too_high nz high)) ∙ h))
        | inr low ↦
            delayed-Between uniform attempt
              (min (policy.base_delay * 2 ^ (attempt - 1)) policy.max_delay) 0 sleep b (omega arith)
              (sym (ap (jitter_delay uniform policy attempt none) (scheduled nz low)) ∙ h)
      ]
    ]
  where
    at_once : (policy.base_delay == 0) ≡ true → backoff policy attempt none ≡ waits none
    at_once z = rw z refl

    scheduled :
        (policy.base_delay == 0) ≡ false
        → ltb 1023 (attempt - 1) ≡ false
        → backoff policy attempt none
          ≡ waits (some (min (policy.base_delay * 2 ^ (attempt - 1)) policy.max_delay))
    scheduled nz low = rw (nz, low) refl

    too_high :
        (policy.base_delay == 0) ≡ false
        → ltb 1023 (attempt - 1) ≡ true
        → backoff policy attempt none ≡ overflows
    too_high nz high = rw (nz, high) refl

    never : waits none ≡ waits (some sleep) → ⊥
    never n = cc

    never' : overflows ≡ waits (some sleep) → ⊥
    never' n = cc

-- If the random source stays between its ends and a failed call is followed by a sleep, then the
-- sleep is at least the server's hint under the cap, and at most the capped hint, or without a
-- hint the capped exponential delay of the attempt; in particular it is never above the policy's
-- `max_delay`.
pub sleep_before_retry_bounds :
    (uniform : ℕ → ℕ → ℕ → ℕ) (policy : RetryPolicy) (attempt : ℕ) (exc : Exception) (sleep : ℕ)
    → Between uniform
    → sleep_before_retry uniform policy attempt exc ≡ waits (some sleep)
    → (hint_floor uniform policy (server_retry_after exc) ≤ sleep)
      × (sleep ≤ longest policy attempt (server_retry_after exc))
      × (sleep ≤ policy.max_delay)
unfolding sleep_before_retry
sleep_before_retry_bounds uniform policy attempt exc sleep b h =
    let (low, high) =
      jitter_delay-Between uniform policy attempt (server_retry_after exc) sleep b h in
    (low, high, capped (server_retry_after exc) high)
  where
    capped : (hint : Option ℕ) → sleep ≤ longest policy attempt hint → sleep ≤ policy.max_delay
    capped none h = omega arith
    capped (some hint) h = omega arith

pub waits≢overflows : (o : Option ℕ) → waits o ≡ overflows → ⊥
waits≢overflows o n = cc

else_overflows :
    (b : Bool) (o : Option ℕ) (d : Delay) → (if b then waits o else d) ≡ overflows → d ≡ overflows
else_overflows true o d e = absurd (waits≢overflows o e)
else_overflows false o d e = e

then_overflows :
    (b : Bool) (o : Option ℕ) → (if b then overflows else waits o) ≡ overflows → b ≡ true
then_overflows true o e = refl
then_overflows false o e = absurd (waits≢overflows o e)

jitter_delay-overflows :
    (uniform : ℕ → ℕ → ℕ → ℕ) (policy : RetryPolicy) (attempt : ℕ) (hint : Option ℕ) (d : Delay)
    → jitter_delay uniform policy attempt hint d ≡ overflows
    → d ≡ overflows
jitter_delay-overflows uniform policy attempt hint overflows e = refl
jitter_delay-overflows uniform policy attempt hint (waits none) e = e
jitter_delay-overflows uniform policy attempt hint (waits (some delay)) e =
    absurd (waits≢overflows _ (else_overflows (delay == 0) none _ e))

-- Without a hint, and with a delay, the power of two is beyond the floats.
abbrev pub IsBeyond : RetryPolicy → ℕ → Option ℕ → Type 0
IsBeyond policy attempt hint = (hint ≡ none) × ((policy.base_delay == 0) ≡ false) × (1024 < attempt)

backoff-overflows :
    (policy : RetryPolicy) (attempt : ℕ) (hint : Option ℕ)
    → backoff policy attempt hint ≡ overflows
    → IsBeyond policy attempt hint
unfolding backoff
backoff-overflows policy attempt (some hint) e = absurd (waits≢overflows _ e)
backoff-overflows policy attempt none e = elim (Bool-cases (policy.base_delay == 0)) [
  | inl z ↦ absurd (waits≢overflows none (sym (at_once z) ∙ e))
  | inr nz ↦
      let late =
        then_overflows (ltb 1023 (attempt - 1)) _
          (else_overflows (policy.base_delay == 0) none _ e) in
      (refl, nz, ground arith)
]
  where
    at_once : (policy.base_delay == 0) ≡ true → backoff policy attempt none ≡ waits none
    at_once z = rw z refl

-- When the delay overflows.
pub sleep_before_retry-overflows :
    (uniform : ℕ → ℕ → ℕ → ℕ) (policy : RetryPolicy) (attempt : ℕ) (exc : Exception)
    → sleep_before_retry uniform policy attempt exc ≡ overflows
    → IsBeyond policy attempt (server_retry_after exc)
unfolding sleep_before_retry
sleep_before_retry-overflows uniform policy attempt exc e =
    backoff-overflows policy attempt (server_retry_after exc)
      (jitter_delay-overflows uniform policy attempt (server_retry_after exc) _ e)

pub sleep_before_retry-IsBeyond :
    (uniform : ℕ → ℕ → ℕ → ℕ) (policy : RetryPolicy) (attempt : ℕ) (exc : Exception)
    → IsBeyond policy attempt (server_retry_after exc)
    → sleep_before_retry uniform policy attempt exc ≡ overflows
unfolding sleep_before_retry backoff
sleep_before_retry-IsBeyond uniform policy attempt exc (no_hint, delay, late) =
    rw (no_hint, delay, too_high) refl
  where
    too_high : ltb 1023 (attempt - 1) ≡ true
    too_high = ground arith
