-- ===== src/Http/Requests.antt =====
-- python/src/brain_db_sdk/http/client.py: the request under every verb, `_request` and `_request_once`.
-- `urlopen` and the reading of its response are a parameter, which says what each exchange does.
pub mod Attempts
mod Runs
use Prim.Native.String.{String}
use brain_sdk.Prelude.{
  ℕ, zero, suc, ◌+◌, ◌-◌, Bool, true, false, ◌&&◌, Option, none, some, List, [], ◌∷◌, ◌++◌,
  if◌then◌else◌,
}
use brain_sdk.Http.Json.{Json, null, boolean, number, string, array, object, Members, end, entry}
use brain_sdk.Http.Errors.{
  ℤ, pos, negsuc, codes, BrainHttpError, HttpError, Parsed, Built, built, overflow, error_from,
}
use brain_sdk.Http.Backoff.{
  HttpRetryPolicy, should_retry, http_backoff, HttpDelay, waits, overflows,
}

-- What `urlopen` is given: `urllib.request.Request`.
pub record HttpRequest : Type 0 where
  pub method : List ℕ
  pub url : List ℕ
  pub body : Option (List ℕ)
  pub headers : List (List ℕ × List ℕ)

-- What one exchange does: the decoded text of the response, or what is raised, with its reason.
pub data Exchange (N : Type 0) : Type 0 where
  success : List ℕ → Exchange N
  refused : HttpError N → Exchange N
  url_error : List ℕ → Exchange N
  os_error : List ℕ → Exchange N
  value_error : List ℕ → Exchange N
  other_exception : Exchange N

-- What a request returns or raises: `sleep_error` is what `time.sleep` raises for a negative delay.
pub data HttpAnswer (N : Type 0) : Type 0 where
  json : Json N → HttpAnswer N
  http_failed : BrainHttpError N → HttpAnswer N
  json_error : HttpAnswer N
  overflow_error : HttpAnswer N
  sleep_error : HttpAnswer N
  other_error : HttpAnswer N

-- `BrainHttpError(0, "transport", f"request to {url} failed: {reason}")`
unfoldable pub transport_failure : {N : Type 0} → List ℕ → List ℕ → BrainHttpError N
transport_failure url reason = record {
  status = 0;
  code = string (codes "transport");
  message = string (codes "request to " ++ (url ++ (codes " failed: " ++ reason)));
  field_errors = [];
  retry_after = none;
}

-- `str` of a value, `json.dumps`, `json.loads`, `urllib.parse.urlencode`, and `str` and
-- `int` of a status and of a header.
pub record Libraries (N : Type 0) : Type 0 where
  pub str : Json N → List ℕ
  pub dumps : Json N → List ℕ
  pub loads : List ℕ → Option (Json N)
  pub urlencode : List (List ℕ × List ℕ) → List ℕ
  pub decimal : ℕ → List ℕ
  pub parse_int : List ℕ → Parsed

-- The state of a `BrainHttpClient` that a request reads.
pub record HttpClient : Type 0 where
  pub base : List ℕ
  pub api_key : List ℕ
  pub retry : HttpRetryPolicy

-- The arguments of `_request`.
pub record Call (N : Type 0) : Type 0 where
  pub method : List ℕ
  pub path : List ℕ
  pub body : Option (Json N)
  pub idempotent : Bool
  pub query : Members N

module _ {N : Type 0} (lib : Libraries N) where
  -- A value of the query.
  query_text : Json N → Option (List ℕ)
  query_text null = none
  query_text (boolean true) = some (codes "true")
  query_text (boolean false) = some (codes "false")
  query_text v = some (lib.str v)

  and_pair : String → Option (List ℕ) → List (List ℕ × List ℕ) → List (List ℕ × List ℕ)
  and_pair k none pairs = pairs
  and_pair k (some t) pairs = (codes k, t) ∷ pairs

  query_pairs : Members N → List (List ℕ × List ℕ)
  unfolding query_text and_pair
  query_pairs end = []
  query_pairs (entry k v rest) = and_pair k (query_text v) (query_pairs rest)

  query_of : List (List ℕ × List ℕ) → List ℕ
  query_of [] = []
  query_of (p ∷ ps) = codes "?" ++ lib.urlencode (p ∷ ps)

  unfoldable pub query_string : Members N → List ℕ
  unfolding query_of query_pairs
  query_string query = query_of (query_pairs query)

  headers_of : List ℕ → Option (List ℕ) → List (List ℕ × List ℕ)
  headers_of api_key none = (codes "authorization", codes "Bearer " ++ api_key) ∷ []
  headers_of api_key (some body) =
      (codes "authorization", codes "Bearer " ++ api_key)
      ∷ (codes "content-type", codes "application/json")
      ∷ []

  encode_body : Option (Json N) → Option (List ℕ)
  encode_body none = none
  encode_body (some body) = some (lib.dumps body)

  -- The first lines of `_request_once`.
  unfoldable pub build_request : HttpClient → Call N → HttpRequest
  unfolding headers_of encode_body
  build_request client call = record {
    method = call.method;
    url = client.base ++ (call.path ++ query_string call.query);
    body = encode_body call.body;
    headers = headers_of client.api_key (encode_body call.body);
  }

  loaded : Option (Json N) → HttpAnswer N
  loaded none = json_error
  loaded (some v) = json v

  -- `json.loads(text) if text else {}`
  read_text_body : List ℕ → HttpAnswer N
  unfolding loaded
  read_text_body [] = json (object end)
  read_text_body (c ∷ cs) = loaded (lib.loads (c ∷ cs))

  raise_built : Built N → HttpAnswer N
  raise_built (built e) = http_failed e
  raise_built overflow = overflow_error

  unfoldable pub after_exchange : List ℕ → Exchange N → HttpAnswer N
  unfolding read_text_body raise_built
  after_exchange url (success text) = read_text_body text
  after_exchange url (refused h) = raise_built (error_from lib.decimal lib.parse_int h)
  after_exchange url (url_error reason) = http_failed (transport_failure url reason)
  after_exchange url (os_error reason) = http_failed (transport_failure url reason)
  after_exchange url (value_error reason) = http_failed (transport_failure url reason)
  after_exchange url other_exception = other_error

  -- `send` is the exchange of a request.
  unfoldable pub request_once : (HttpRequest → Exchange N) → HttpClient → Call N → HttpAnswer N
  request_once send client call =
      let req = build_request client call in after_exchange req.url (send req)

-- What a request did: the exchanges, the sleeps in order, and what it returned or raised, which is
-- none if the recursion of the model was cut off.
pub record HttpRun (N : Type 0) : Type 0 where
  pub exchanges : ℕ
  pub sleeps : List ℕ
  pub answer : Option (HttpAnswer N)

module _ {N : Type 0} where
  abbrev pub ends_at : ℕ → HttpAnswer N → HttpRun N
  ends_at attempt answer = record { exchanges = attempt; sleeps = []; answer = some answer }

  -- `time.sleep(delay)`, which refuses a negative delay and waits for any other one; nothing catches
  -- the `OverflowError` of the delay.
  sleep_then : ℕ → HttpDelay → HttpRun N → HttpRun N
  sleep_then attempt overflows further = ends_at attempt overflow_error
  sleep_then attempt (waits (pos delay)) further = record further {
    sleeps = delay ∷ further.sleeps;
  }
  sleep_then attempt (waits (negsuc n)) further = ends_at attempt sleep_error

  after_failure : Bool → HttpRetryPolicy → ℕ → BrainHttpError N → HttpRun N → HttpRun N
  unfolding sleep_then
  after_failure idempotent policy attempt err further =
      if idempotent && should_retry policy attempt err
      then sleep_then attempt (http_backoff policy attempt err.retry_after) further
      else ends_at attempt (http_failed err)

  unfoldable pub after_once : Bool → HttpRetryPolicy → ℕ → HttpAnswer N → HttpRun N → HttpRun N
  unfolding after_failure
  after_once idempotent policy attempt (http_failed err) further =
      after_failure idempotent policy attempt err further
  after_once idempotent policy attempt (json v) further = ends_at attempt (json v)
  after_once idempotent policy attempt json_error further = ends_at attempt json_error
  after_once idempotent policy attempt overflow_error further = ends_at attempt overflow_error
  after_once idempotent policy attempt sleep_error further = ends_at attempt sleep_error
  after_once idempotent policy attempt other_error further = ends_at attempt other_error

  -- `once n` is what the n-th `_request_once` does.
  unfoldable pub request_rounds : (ℕ → HttpAnswer N) → Bool → HttpRetryPolicy → ℕ → ℕ → HttpRun N
  request_rounds once idempotent policy zero attempt = record {
    exchanges = attempt;
    sleeps = [];
    answer = none;
  }
  request_rounds once idempotent policy (suc fuel) attempt =
      let further = request_rounds once idempotent policy fuel (attempt + 1) in
      after_once idempotent policy attempt (once attempt) further

  -- `_request`.
  unfoldable pub http_request :
      Libraries N → (ℕ → HttpRequest → Exchange N) → HttpClient → Call N → HttpRun N
  http_request lib send client call =
      request_rounds (λ n. request_once lib (send n) client call) call.idempotent client.retry
        (client.retry.max_attempts + 1) 1
