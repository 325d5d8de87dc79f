-- ===== src/Http/Requests/Attempts.antt =====
-- python/src/brain_db_sdk/http/client.py: which exchanges `_request` makes, and what it ends with.
use brain_sdk.Prelude.{
  ℕ, zero, suc, ◌+◌, ◌≤◌, ◌<◌, max, ◌≡◌, refl, sym, ap, subst, ◌⊎◌, inl, inr, Bool, true, false,
  ◌&&◌, ◌-◌, ltb, Bool-cases, ◌∙◌, if◌then◌else◌, Option, none, some, ◌∷◌, length, All, ◌==◌, arith,
}
use native.Mathlib.Numerals.{add-one}
use native.Mathlib.Decide.{dec_lt}
use brain_sdk.Http.Errors.{ℤ, pos, negsuc, BrainHttpError}
use brain_sdk.Http.Backoff.{
  HttpRetryPolicy, is_retryable_status, should_retry, http_backoff, HttpDelay, waits, overflows,
}
use brain_sdk.Http.Requests.{
  HttpAnswer, json, http_failed, json_error, overflow_error, sleep_error, other_error, HttpRun,
  Exchange, HttpRequest, Libraries, HttpClient, Call, ends_at, sleep_then, after_failure,
  after_once, request_once, request_rounds, http_request,
}

-- Without a hint, and with a delay, the power of two is beyond the floats.
abbrev pub IsBeyond : HttpRetryPolicy → ℕ → Option ℤ → Type 0
IsBeyond policy attempt hint = (hint ≡ none) × ((policy.base_delay == 0) ≡ false) × (1024 < attempt)

module _ {N : Type 0} where
  -- A failure that a further exchange may clear.
  abbrev pub Clearable : HttpAnswer N → Type 0
  Clearable (http_failed err) = is_retryable_status err.status ≡ true
  Clearable _ = ⊥

  abbrev pub HintIsNegative : HttpAnswer N → Type 0
  HintIsNegative (http_failed err) = (n : ℕ) × (err.retry_after ≡ some (negsuc n))
  HintIsNegative _ = ⊥

  -- There is no hint, and the exponential delay is beyond the floats.
  abbrev pub DelayOverflows : HttpRetryPolicy → ℕ → HttpAnswer N → Type 0
  DelayOverflows policy attempt (http_failed err) = IsBeyond policy attempt err.retry_after
  DelayOverflows policy attempt _ = ⊥

-- A delay is at most the cap, or it is negative, by the hint, or it overflows.
abbrev Delays : HttpRetryPolicy → ℕ → Option ℤ → HttpDelay → Type 0
Delays policy attempt hint overflows = IsBeyond policy attempt hint
Delays policy attempt hint (waits (pos d)) = d ≤ policy.max_delay
Delays policy attempt hint (waits (negsuc m)) = (n : ℕ) × (hint ≡ some (negsuc n))

http_backoff-Delays :
    (policy : HttpRetryPolicy) (attempt : ℕ) (hint : Option ℤ)
    → Delays policy attempt hint (http_backoff policy attempt hint)
unfolding http_backoff
http_backoff-Delays policy attempt (some (pos n)) = omega arith
http_backoff-Delays policy attempt (some (negsuc n)) = (n, refl)
http_backoff-Delays policy attempt none = elim (Bool-cases (policy.base_delay == 0)) [
  | inl z ↦ rw z (omega arith)
  | inr nz ↦ elim (Bool-cases (ltb 1023 (attempt - 1))) [
    | inl high ↦ rw (nz, high) (refl, nz, ground arith)
    | inr low ↦ rw (nz, low) (omega arith)
  ]
]

http_backoff-IsBeyond :
    (policy : HttpRetryPolicy) (attempt : ℕ) (hint : Option ℤ)
    → IsBeyond policy attempt hint
    → http_backoff policy attempt hint ≡ overflows
unfolding http_backoff
http_backoff-IsBeyond policy attempt hint (no_hint, delay, late) =
    rw (no_hint, delay, too_high) refl
  where
    too_high : ltb 1023 (attempt - 1) ≡ true
    too_high = ground arith

waits≢overflows : (d : ℤ) → waits d ≡ overflows → ⊥
waits≢overflows d e = cc

module _ {N : Type 0} (once : ℕ → HttpAnswer N) (idempotent : Bool) (policy : HttpRetryPolicy) where
  -- What a request whose last exchange is the n-th ends with.
  abbrev pub Ended : ℕ → Option (HttpAnswer N) → Type 0
  Ended n answer =
      ((answer ≡ some (once n))
        × (Clearable (once n) → idempotent ≡ true → policy.max_attempts ≤ n))
      ⊎ ((answer ≡ some sleep_error) × Clearable (once n) × HintIsNegative (once n))
      ⊎ ((answer ≡ some overflow_error) × Clearable (once n) × DelayOverflows policy n (once n))

  -- The request made the exchanges from `first` to the n-th, which is the last: each before it failed
  -- in a way that a further one may clear, with a sleep of at most `max_delay` behind it. It ends as
  -- the n-th did, and not before that succeeded, failed for good, was out of attempts or must not
  -- be sent twice; or the n-th failed so with a negative hint, and the sleep raises; or it failed so
  -- with no hint when the delay is beyond the floats, and that raises.
  pub record Requested (first : ℕ) (run : HttpRun N) : Type 0 where
    pub ended : Ended run.exchanges run.answer
    pub from_first : first ≤ run.exchanges
    pub within : run.exchanges ≤ max first policy.max_attempts
    pub sent_once : idempotent ≡ false → run.exchanges ≡ first
    pub cleared :
        (n : ℕ)
        → first ≤ n
        → n < run.exchanges
        → Clearable (once n) × (DelayOverflows policy n (once n) → ⊥)
    pub sleeps_between : length run.sleeps + first ≡ run.exchanges
    pub sleeps_short : All (λ d. d ≤ policy.max_delay) run.sleeps

  -- A run that ends with the exchange of the attempt.
  raises_at :
      (attempt : ℕ) (answer : HttpAnswer N)
      → Ended attempt (some answer)
      → Requested attempt (ends_at attempt answer)
  raises_at attempt answer end = record {
    ended = end;
    from_first = omega arith;
    within = omega arith;
    sent_once = λ h. refl;
    cleared = λ n low high. absurd (omega arith);
    sleeps_between = omega arith;
    sleeps_short = tt;
  }

  ends_at-Requested :
      (attempt : ℕ)
      → (Clearable (once attempt) → idempotent ≡ true → policy.max_attempts ≤ attempt)
      → Requested attempt (ends_at attempt (once attempt))
  ends_at-Requested attempt final = raises_at attempt (once attempt) (inl (refl, final))

  stopped :
      {attempt : ℕ} (answer : HttpAnswer N)
      → once attempt ≡ answer
      → (Clearable answer → ⊥)
      → Requested attempt (ends_at attempt answer)
  stopped {attempt} answer e not_clear =
      subst (λ a. Requested attempt (ends_at attempt a)) e
        (ends_at-Requested attempt (λ c. absurd (not_clear (subst Clearable e c))))

  -- A failure that may clear, with a sleep behind it and the rest of the run.
  slept :
      (attempt delay : ℕ) (further : HttpRun N)
      → idempotent ≡ true
      → attempt < policy.max_attempts
      → Clearable (once attempt)
      → (DelayOverflows policy attempt (once attempt) → ⊥)
      → delay ≤ policy.max_delay
      → Requested (attempt + 1) further
      → Requested attempt (record further { sleeps = delay ∷ further.sleeps })
  slept attempt delay further twice more clear calm short r = record {
    ended = r.ended;
    from_first = omega (arith, r.from_first);
    within = omega (arith, r.within);
    sent_once = λ h. absurd (cc);
    cleared = λ n low high. elim (dec_lt attempt n) [
      | yes later ↦ r.cleared n (omega arith) high
      | no here ↦
          subst (λ k. Clearable (once k) × (DelayOverflows policy k (once k) → ⊥))
            (let e : attempt ≡ n = omega arith in e) (clear, calm)
    ];
    sleeps_between = omega (arith, r.sleeps_between);
    sleeps_short = (short, r.sleeps_short);
  }

  sleep_then-Requested :
      (attempt : ℕ) (err : BrainHttpError N) (delay : HttpDelay) (further : HttpRun N)
      → once attempt ≡ http_failed err
      → idempotent ≡ true
      → attempt < policy.max_attempts
      → is_retryable_status err.status ≡ true
      → Delays policy attempt err.retry_after delay
      → (IsBeyond policy attempt err.retry_after → delay ≡ overflows)
      → Requested (attempt + 1) further
      → Requested attempt (sleep_then attempt delay further)
  unfolding sleep_then
  sleep_then-Requested attempt err (waits (pos d)) further e twice more clear short late r =
      slept attempt d further twice more (subst Clearable (sym e) clear)
        (λ f. waits≢overflows (pos d) (late (subst (DelayOverflows policy attempt) e f))) short r
  sleep_then-Requested attempt err (waits (negsuc m)) further e twice more clear negative late r =
      raises_at attempt sleep_error
        (inr (inl (refl, subst Clearable (sym e) clear, subst HintIsNegative (sym e) negative)))
  sleep_then-Requested attempt err overflows further e twice more clear late over r =
      raises_at attempt overflow_error (
        inr (
          inr (
            refl,
            subst Clearable (sym e) clear,
            subst (DelayOverflows policy attempt) (sym e) late,
          )))

  -- The error of the exchange, retried or not.
  after_failure-Requested :
      (attempt : ℕ) (err : BrainHttpError N) (further : HttpRun N)
      → once attempt ≡ http_failed err
      → (attempt < policy.max_attempts → Requested (attempt + 1) further)
      → Requested attempt (after_failure idempotent policy attempt err further)
  unfolding after_failure should_retry
  after_failure-Requested attempt err further e rest =
      elim (Bool-cases (idempotent && should_retry policy attempt err)) [
        | inl again ↦ rw again (
            sleep_then-Requested attempt err (http_backoff policy attempt err.retry_after) further e
              (ground arith) (ground arith) (ground arith)
              (http_backoff-Delays policy attempt err.retry_after)
              (http_backoff-IsBeyond policy attempt err.retry_after) (rest (ground arith)))
        | inr stop ↦ rw stop (
            subst (λ a. Requested attempt (ends_at attempt a)) e
              (ends_at-Requested attempt λ c twice.
                let c' : is_retryable_status err.status ≡ true = subst Clearable e c in
                ground arith))
      ]

  after_once-Requested :
      (attempt : ℕ) (answer : HttpAnswer N) (further : HttpRun N)
      → once attempt ≡ answer
      → (attempt < policy.max_attempts → Requested (attempt + 1) further)
      → Requested attempt (after_once idempotent policy attempt answer further)
  unfolding after_once
  after_once-Requested attempt (http_failed err) further e rest =
      after_failure-Requested attempt err further e rest
  after_once-Requested attempt (json v) further e rest = stopped (json v) e (λ c. c)
  after_once-Requested attempt json_error further e rest = stopped json_error e (λ c. c)
  after_once-Requested attempt overflow_error further e rest = stopped overflow_error e (λ c. c)
  after_once-Requested attempt sleep_error further e rest = stopped sleep_error e (λ c. c)
  after_once-Requested attempt other_error further e rest = stopped other_error e (λ c. c)

  request_rounds-Requested :
      (fuel attempt : ℕ)
      → attempt ≤ max 1 policy.max_attempts
      → policy.max_attempts + 1 < attempt + fuel
      → Requested attempt (request_rounds once idempotent policy fuel attempt)
  unfolding request_rounds
  request_rounds-Requested zero attempt low enough = absurd (omega arith)
  request_rounds-Requested (suc fuel) attempt low enough =
      after_once-Requested attempt (once attempt)
        (request_rounds once idempotent policy fuel (attempt + 1)) refl
        λ more. request_rounds-Requested fuel (attempt + 1) (omega arith) (omega arith)

-- Whatever the exchanges do, `_request` ends. An exchange is followed by another one only if the
-- verb is idempotent, the policy has attempts left, and the exchange failed with a status that a
-- further one may clear; there is a sleep of at most `max_delay` between two of them; and what the
-- request returns or raises is what the last exchange did, unless that one failed so and sent a
-- negative `Retry-After`, where the request raises the error of `time.sleep`, or sent none as the
-- 1025th or a later one, where it raises the `OverflowError` of the delay, if `base_delay` is not
-- 0.
pub http_request-Requested :
    {N : Type 0} (lib : Libraries N) (send : ℕ → HttpRequest → Exchange N) (client : HttpClient)
    (call : Call N)
    → Requested
        (λ n. request_once lib (send n) client call)
        call.idempotent
        client.retry
        1
        (http_request lib send client call)
unfolding http_request
http_request-Requested lib send client call =
    request_rounds-Requested (λ n. request_once lib (send n) client call) call.idempotent
      client.retry (client.retry.max_attempts + 1) 1 (omega arith) (omega arith)

negative_hint_rounds :
    {N : Type 0} (once : ℕ → HttpAnswer N) (idempotent : Bool) (policy : HttpRetryPolicy)
    (fuel n : ℕ) (err : BrainHttpError N)
    → once 1 ≡ http_failed err
    → (idempotent && should_retry policy 1 err) ≡ true
    → err.retry_after ≡ some (negsuc n)
    → request_rounds once idempotent policy (suc fuel) 1 ≡ ends_at 1 sleep_error
unfolding request_rounds after_once http_backoff
negative_hint_rounds once idempotent policy fuel n err e again hint =
    let further = request_rounds once idempotent policy fuel (1 + 1) in
    ap (λ a. after_once idempotent policy 1 a further) e
    ∙ ap
        (λ b.
          if b
          then sleep_then 1 (http_backoff policy 1 err.retry_after) further
          else ends_at 1 (http_failed err))
        again
    ∙ ap (λ h. sleep_then 1 (http_backoff policy 1 h) further) hint

-- If the first exchange of an idempotent request fails with a status that is sent again and a
-- negative `Retry-After`, and the policy has a second attempt, then the request makes no further
-- exchange and raises the error of `time.sleep`, not a `BrainHttpError`.
pub http_request-negative_hint :
    {N : Type 0} (lib : Libraries N) (send : ℕ → HttpRequest → Exchange N) (client : HttpClient)
    (call : Call N) (err : BrainHttpError N) (n : ℕ)
    → request_once lib (send 1) client call ≡ http_failed err
    → call.idempotent ≡ true
    → 1 < client.retry.max_attempts
    → is_retryable_status err.status ≡ true
    → err.retry_after ≡ some (negsuc n)
    → http_request lib send client call ≡ ends_at 1 sleep_error
unfolding http_request should_retry
http_request-negative_hint lib send client call err n e twice more clear hint =
    let once : ℕ → HttpAnswer _ = λ k. request_once lib (send k) client call in
    ap (λ fuel. request_rounds once call.idempotent client.retry fuel 1) (add-one _)
    ∙ negative_hint_rounds once call.idempotent client.retry client.retry.max_attempts n err e
        (ground arith) hint
