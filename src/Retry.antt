-- ===== src/Retry.antt =====
-- python/src/brain_db_sdk/retry.py: the backoff, its jitter, and the loop that retries a call.
-- A delay is a whole number of milliseconds here, where the code has a float of seconds.
pub mod Backoff
pub mod Attempts
mod Runs
use brain_sdk.Prelude.{
  ℕ, zero, suc, ◌+◌, ◌-◌, ◌*◌, ◌^◌, min, Bool, true, false, ◌&&◌, Option, none, some, List, [], ◌∷◌,
  ltb, leb, ◌==◌, if◌then◌else◌,
}
use brain_sdk.Errors.{Exception, server_error, other_error, is_retryable}

pub record RetryPolicy : Type 0 where
  pub max_attempts : ℕ
  pub base_delay : ℕ
  pub max_delay : ℕ

-- The values of the dataclass, and `RetryPolicy.none()`.
abbrev pub default_policy : RetryPolicy
default_policy = record { max_attempts = 3; base_delay = 100; max_delay = 5000 }

abbrev pub no_retry : RetryPolicy
no_retry = record { max_attempts = 1; base_delay = 0; max_delay = 0 }

-- A time to wait, if any, or the `OverflowError` of a float times a power of two above `2 ** 1023`,
-- which is no float.
pub data Delay : Type 0 where
  waits : Option ℕ → Delay
  overflows : Delay

-- The exponential delay after the given attempt, from 1, or the server's hint, both capped.
unfoldable pub backoff : RetryPolicy → ℕ → Option ℕ → Delay
backoff policy attempt (some server_retry_after) =
    waits (some (min server_retry_after policy.max_delay))
backoff policy attempt none =
    if policy.base_delay == 0
    then waits none
    else if ltb 1023 (attempt - 1)
    then overflows
    else waits (some (min (policy.base_delay * 2 ^ (attempt - 1)) policy.max_delay))

unfoldable pub server_retry_after : Exception → Option ℕ
server_retry_after (server_error cls r) = r.retry_after_ms
server_retry_after _ = none

-- `random.uniform` on the low and the high end, as drawn after a given attempt.
module _ (uniform : ℕ → ℕ → ℕ → ℕ) where
  unfoldable pub jittered : ℕ → ℕ → ℕ → ℕ
  jittered attempt delay floor =
      let floor' = min floor delay in
      if leb delay floor' then floor' else uniform attempt floor' delay

  -- The server's hint under the cap, or 0.
  abbrev pub hint_floor : RetryPolicy → Option ℕ → ℕ
  hint_floor policy none = 0
  hint_floor policy (some server_floor) = min server_floor policy.max_delay

  -- `if not delay: return None`, and else the jitter.
  abbrev pub jitter_delay : RetryPolicy → ℕ → Option ℕ → Delay → Delay
  jitter_delay policy attempt server_floor overflows = overflows
  jitter_delay policy attempt server_floor (waits none) = waits none
  jitter_delay policy attempt server_floor (waits (some delay)) =
      if delay == 0
      then waits none
      else waits (some (jittered attempt delay (hint_floor policy server_floor)))

  unfoldable pub sleep_before_retry : RetryPolicy → ℕ → Exception → Delay
  sleep_before_retry policy attempt exc =
      let server_floor = server_retry_after exc in
      jitter_delay policy attempt server_floor (backoff policy attempt server_floor)

pub data Attempt {ℓ} (A : Type ℓ) : Type ℓ where
  returned : A → Attempt A
  raised : Exception → Attempt A

-- What a run of the loop did: how often it called the operation, the sleeps in order, and its
-- result. `out_of_fuel` is no result of the program: the recursion of the model was cut off.
pub data Outcome {ℓ} (A : Type ℓ) : Type ℓ where
  finished : Attempt A → Outcome A
  out_of_fuel : Outcome A

pub record Run {ℓ} (A : Type ℓ) : Type ℓ where
  pub calls : ℕ
  pub sleeps : List ℕ
  pub outcome : Outcome A

-- `if delay: time.sleep(delay)`. The clock waits for any time.
abbrev pub sleep_for {ℓ} : {A : Type ℓ} → Option ℕ → Run A → Run A
sleep_for none run = run
sleep_for (some delay) run =
    if delay == 0
    then run
    else record { calls = run.calls; sleeps = delay ∷ run.sleeps; outcome = run.outcome }

-- The delay and the further attempts; nothing catches the `OverflowError`.
abbrev pub after_delay {ℓ} : {A : Type ℓ} → ℕ → Delay → Run A → Run A
after_delay attempt (waits delay) run = sleep_for delay run
after_delay attempt overflows run = record {
  calls = attempt;
  sleeps = [];
  outcome = finished (raised other_error);
}

abbrev pub policy_or_default : Option RetryPolicy → RetryPolicy
policy_or_default none = default_policy
policy_or_default (some policy) = policy

module _ {ℓ} {A : Type ℓ} (uniform : ℕ → ℕ → ℕ → ℕ) (op : ℕ → Attempt A) where
  -- What follows the call of an attempt, with the run of the further attempts.
  unfoldable pub after_attempt : RetryPolicy → ℕ → Attempt A → Run A → Run A
  after_attempt policy attempt (returned a) further = record {
    calls = attempt;
    sleeps = [];
    outcome = finished (returned a);
  }
  after_attempt policy attempt (raised exc) further =
      if ltb attempt policy.max_attempts && is_retryable exc
      then after_delay attempt (sleep_before_retry uniform policy attempt exc) further
      else record { calls = attempt; sleeps = []; outcome = finished (raised exc) }

  -- `op n` is what the n-th call of the operation does.
  unfoldable pub retry_loop : ℕ → RetryPolicy → ℕ → Run A
  retry_loop zero policy attempt = record {
    calls = attempt - 1;
    sleeps = [];
    outcome = out_of_fuel;
  }
  retry_loop (suc fuel) policy attempt =
      let further = retry_loop fuel policy (attempt + 1) in
      after_attempt policy attempt (op attempt) further

  unfoldable pub with_retry : Option RetryPolicy → Run A
  with_retry policy =
      let policy' = policy_or_default policy in retry_loop (policy'.max_attempts + 1) policy' 1
