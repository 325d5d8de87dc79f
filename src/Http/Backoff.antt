-- ===== src/Http/Backoff.antt =====
-- python/src/brain_db_sdk/http/retry.py: which requests are sent again, and after how long. A delay of the
-- policy is a whole number of milliseconds here, where the code has a float of seconds.
use brain_sdk.Prelude.{
  ℕ, ◌+◌, ◌-◌, ◌*◌, ◌^◌, min, Bool, ◌&&◌, ◌||◌, Option, none, some, ltb, ◌==◌, if◌then◌else◌,
}
use brain_sdk.Http.Errors.{ℤ, pos, negsuc, BrainHttpError}

pub record HttpRetryPolicy : Type 0 where
  pub max_attempts : ℕ
  pub base_delay : ℕ
  pub max_delay : ℕ

abbrev pub http_default : HttpRetryPolicy
http_default = record { max_attempts = 3; base_delay = 100; max_delay = 2000 }

-- `HttpRetryPolicy.none()`
abbrev pub http_no_retry : HttpRetryPolicy
http_no_retry = record { max_attempts = 1; base_delay = 0; max_delay = 0 }

unfoldable pub is_retryable_status : ℕ → Bool
is_retryable_status status = status == 0 || (status == 429 || status == 503)

unfoldable pub should_retry : {N : Type 0} → HttpRetryPolicy → ℕ → BrainHttpError N → Bool
unfolding is_retryable_status
should_retry policy attempt err = ltb attempt policy.max_attempts && is_retryable_status err.status

-- The milliseconds to wait; the seconds of a hint may be negative. A float times a power of two above
-- `2 ** 1023`, which is no float, is an `OverflowError`.
pub data HttpDelay : Type 0 where
  waits : ℤ → HttpDelay
  overflows : HttpDelay

unfoldable pub http_backoff : HttpRetryPolicy → ℕ → Option ℤ → HttpDelay
http_backoff policy attempt (some (pos n)) = waits (pos (min (n * 1000) policy.max_delay))
http_backoff policy attempt (some (negsuc n)) = waits (negsuc (n * 1000 + 999))
http_backoff policy attempt none =
    if policy.base_delay == 0
    then waits (pos 0)
    else if ltb 1023 (attempt - 1)
    then overflows
    else waits (pos (min (policy.base_delay * 2 ^ (attempt - 1)) policy.max_delay))
