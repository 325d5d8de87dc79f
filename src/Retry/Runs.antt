-- ===== src/Retry/Runs.antt =====
-- Calls that fail, retried under concrete policies.
use brain_sdk.Prelude.{ℕ, zero, suc, ◌≡◌, ◌≤◌, refl, [], ◌∷◌, none, some, arith}
use brain_sdk.Errors.{Exception, os_error, server_error, base, is_retryable}
use brain_sdk.Retry.{
  Attempt, waits, overflows, returned, raised, finished, default_policy, with_retry, retry_loop,
  after_attempt, sleep_before_retry, server_retry_after, backoff, jittered,
}
use brain_sdk.Retry.Backoff.{Between, longest, sleep_before_retry_bounds}
use brain_sdk.Retry.Attempts.{Stopped, with_retry-Stopped}

-- The random source that always draws the low end.
abbrev low_end : ℕ → ℕ → ℕ → ℕ
low_end attempt low high = low

low_end-Between : Between low_end
low_end-Between = λ attempt low high h. (omega arith, h)

abbrev overloaded : Exception
overloaded =
    server_error base (record {
      code = 0x80;
      category = 6;
      message = [];
      details = none;
      retry_after_ms = some 9000;
    })

-- Fails twice and then returns.
abbrev third_time : ℕ → Attempt ℕ
third_time n = elim n [
  | zero ↦ raised os_error
  | suc n ↦ elim n [
    | zero ↦ raised os_error
    | suc n ↦ elim n [ zero ↦ raised overloaded | suc n ↦ returned 7 ]
  ]
]

third_call :
    with_retry low_end third_time
      (some (record { max_attempts = 9; base_delay = 100; max_delay = 5000 }))
    ≡ record { calls = 3; sleeps = 5000 ∷ []; outcome = finished (returned 7) }
unfolding with_retry retry_loop after_attempt sleep_before_retry server_retry_after backoff jittered
    is_retryable
third_call = refl

hint_capped : sleep_before_retry low_end default_policy 1 overloaded ≡ waits (some 5000)
unfolding sleep_before_retry server_retry_after backoff jittered
hint_capped = refl

-- The power of two is still a float for the 1024th attempt.
last_float : backoff default_policy 1024 none ≡ waits (some 5000)
unfolding backoff
last_float = refl

no_float : backoff default_policy 1025 none ≡ overflows
unfolding backoff
no_float = refl

sleep_before_retry_bounds_example :
    (5000 ≤ 5000) × (5000 ≤ longest default_policy 1 (some 9000)) × (5000 ≤ 5000)
unfolding server_retry_after
sleep_before_retry_bounds_example =
    sleep_before_retry_bounds low_end default_policy 1 overloaded 5000 low_end-Between hint_capped

with_retry-Stopped_example :
    Stopped third_time default_policy 1 (with_retry low_end third_time none)
with_retry-Stopped_example = with_retry-Stopped low_end third_time none low_end-Between
