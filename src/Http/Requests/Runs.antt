-- ===== src/Http/Requests/Runs.antt =====
-- Requests against a server at concrete exchanges. A number is its own text and JSON.
use brain_sdk.Prelude.{ℕ, suc, ◌≡◌, refl, true, Option, none, some, List, [], ◌∷◌, arith}
use brain_sdk.Http.Json.{number, end}
use brain_sdk.Http.Errors.{negsuc, codes, seconds, error_from, describe_errors}
use brain_sdk.Http.Backoff.{http_default, http_backoff, should_retry, is_retryable_status}
use brain_sdk.Http.Requests.{
  json, sleep_error, Exchange, success, refused, HttpRequest, Libraries, HttpClient, Call, ends_at,
  build_request, query_string, after_exchange, request_once, after_once, request_rounds,
  http_request,
}
use brain_sdk.Http.Requests.Attempts.{Requested, http_request-Requested, http_request-negative_hint}

abbrev plain_libraries : Libraries ℕ
plain_libraries = record {
  str = λ v. codes "v";
  dumps = λ v. codes "{}";
  loads = λ t. some (number 7);
  urlencode = λ pairs. codes "a=1";
  decimal = λ n. n ∷ [];
  -- Every header is -1.
  parse_int = λ t. seconds (negsuc 0);
}

abbrev local_client : HttpClient
local_client = record { base = codes "http://h"; api_key = codes "k"; retry = http_default }

abbrev whoami_call : Call ℕ
whoami_call = record {
  method = codes "GET";
  path = codes "/v1/whoami";
  body = none;
  idempotent = true;
  query = end;
}

-- Unavailable once, then an answer.
abbrev second_time : Option (List ℕ) → ℕ → HttpRequest → Exchange ℕ
second_time hint (suc (suc n)) req = success (codes "7")
second_time hint n req = refused (record { status = 503; retry_after = hint; body = none })

second_exchange :
    http_request plain_libraries (second_time none) local_client whoami_call
    ≡ record { exchanges = 2; sleeps = 100 ∷ []; answer = some (json (number 7)) }
unfolding http_request request_rounds after_once request_once after_exchange error_from should_retry
    http_backoff
second_exchange = refl

http_request-Requested_example :
    Requested
      (λ n. request_once plain_libraries (second_time none n) local_client whoami_call)
      true
      http_default
      1
      (http_request plain_libraries (second_time none) local_client whoami_call)
http_request-Requested_example =
    http_request-Requested plain_libraries (second_time none) local_client whoami_call

http_request-negative_hint_example :
    http_request plain_libraries (second_time (some (codes "-1"))) local_client whoami_call
    ≡ ends_at 1 sleep_error
unfolding request_once after_exchange error_from is_retryable_status
http_request-negative_hint_example =
    http_request-negative_hint plain_libraries (second_time (some (codes "-1"))) local_client
      whoami_call _ 0 refl refl (omega arith) refl refl

-- The fields of a problem document are named in the message.
named_fields :
    describe_errors (
      record { field = codes "email"; message = codes "must be valid"; code = none }
      ∷ record { field = codes "age"; message = codes "missing"; code = none }
      ∷ [])
    ≡ codes "email: must be valid; age: missing"
unfolding describe_errors
named_fields = refl

addressed :
    (build_request plain_libraries local_client whoami_call).url ≡ codes "http://h/v1/whoami"
unfolding build_request query_string
addressed = refl
