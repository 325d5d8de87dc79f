-- ===== src/Http/Errors.antt =====
-- python/src/brain_db_sdk/http/errors.py and `_error_from`, `_field_errors` and `_parse_retry_after` of
-- http/client.py: the error that the HTTP client raises, from what the server answered.
use Prim.Native.Char.{code}
use Prim.Native.String.{String}
use brain_sdk.Prelude.{ℕ, Option, none, some, List, [], ◌∷◌, ◌++◌}
use brain_sdk.Http.Json.{Json, string, array, object, Elements, nil, cons, Members, lookup_member}

-- The characters of a text.
abbrev pub codes : String → List ℕ
codes String.[] = []
codes (String.◌∷◌ c s) = code c ∷ codes s

-- Whole seconds, which a header may spell with a minus; `negsuc n` is -(n + 1).
pub data ℤ : Type 0 where
  pos : ℕ → ℤ
  negsuc : ℕ → ℤ

pub record FieldError : Type 0 where
  pub field : List ℕ
  pub message : List ℕ
  pub code : Option (List ℕ)

-- `code` and `message` are whatever JSON value the server put there.
pub record BrainHttpError (N : Type 0) : Type 0 where
  pub status : ℕ
  pub code : Json N
  pub message : Json N
  pub field_errors : List FieldError
  pub retry_after : Option ℤ

-- `int(raw.strip())`, and the float of it.
pub data Parsed : Type 0 where
  no_integer : Parsed
  beyond_float : Parsed
  seconds : ℤ → Parsed

-- What `urlopen` raises for a response that is no success: the status, the header `Retry-After` and
-- the body as JSON, if it has one.
pub record HttpError (N : Type 0) : Type 0 where
  pub status : ℕ
  pub retry_after : Option (List ℕ)
  pub body : Option (Json N)

keep_error : Option (List ℕ) → Option (List ℕ) → Option (List ℕ) → List FieldError → List FieldError
keep_error (some field) (some message) tag later =
    record { field = field; message = message; code = tag } ∷ later
keep_error (some field) none tag later = later
keep_error none message tag later = later

-- `"; ".join(f"{f.field}: {f.message}" for f in field_errors)`
unfoldable pub describe_errors : List FieldError → List ℕ
describe_errors [] = []
describe_errors (f ∷ []) = f.field ++ (codes ": " ++ f.message)
describe_errors (f ∷ g ∷ fs) =
    f.field ++ (codes ": " ++ (f.message ++ (codes "; " ++ describe_errors (g ∷ fs))))

module _ {N : Type 0} where
  -- `isinstance(v, str)`.
  abbrev pub text_of : Json N → Option (List ℕ)
  text_of (string t) = some t
  text_of _ = none

  abbrev pub text_at : String → Json N → Option (List ℕ)
  text_at k (object m) = elim (lookup_member k m) [ none ↦ none | some v ↦ text_of v ]
  text_at k _ = none

  field_entries : Elements N → List FieldError
  unfolding keep_error
  field_entries nil = []
  field_entries (cons item items) =
      keep_error (text_at "field" item) (text_at "message" item) (text_at "code" item)
        (field_entries items)

  unfoldable pub field_errors_of : Option (Json N) → List FieldError
  unfolding field_entries
  field_errors_of (some (array items)) = field_entries items
  field_errors_of (some _) = []
  field_errors_of none = []

  -- `err.get(k, default)` on a dictionary.
  abbrev pub member_or : String → Json N → Members N → Json N
  member_or k default m = elim (lookup_member k m) [ none ↦ default | some v ↦ v ]

  -- `payload.get(k)`, if the payload is a dictionary.
  abbrev pub value_at : String → Json N → Option (Json N)
  value_at k (object m) = lookup_member k m
  value_at k _ = none

  blank_error : ℕ → List ℕ → Option ℤ → BrainHttpError N
  blank_error status digits retry_after = record {
    status = status;
    code = string (codes "http_error");
    message = string (codes "HTTP " ++ digits);
    field_errors = [];
    retry_after = retry_after;
  }

  -- The edge's envelope.
  from_envelope : Members N → BrainHttpError N → BrainHttpError N
  from_envelope err e = record e {
    code = member_or "code" e.code err;
    message = member_or "message" e.message err;
  }

  -- `detail`, else `title`, else the message as it is.
  problem_message : Option (List ℕ) → Option (List ℕ) → Json N → Json N
  problem_message (some detail) title message = string detail
  problem_message none (some title) message = string title
  problem_message none none message = message

  with_field_errors : List FieldError → BrainHttpError N → BrainHttpError N
  with_field_errors [] e = e
  with_field_errors (f ∷ fs) e = record e {
    message = string (describe_errors (f ∷ fs));
    field_errors = f ∷ fs;
  }

  -- The gateway's problem document, if its `code` is a text.
  from_problem : Option (List ℕ) → Json N → BrainHttpError N → BrainHttpError N
  from_problem none payload e = e
  from_problem (some code') payload e =
      with_field_errors (field_errors_of (value_at "errors" payload)) (record e {
        code = string code';
        message = problem_message (text_at "detail" payload) (text_at "title" payload) e.message;
      })

  -- The envelope is tried first; what is no dictionary there is as good as missing.
  from_payload : Option (Json N) → Json N → BrainHttpError N → BrainHttpError N
  from_payload (some (object err)) payload e = from_envelope err e
  from_payload (some _) payload e = from_problem (text_at "code" payload) payload e
  from_payload none payload e = from_problem (text_at "code" payload) payload e

  from_body : Option (Json N) → BrainHttpError N → BrainHttpError N
  from_body none e = e
  from_body (some payload) e = from_payload (value_at "error" payload) payload e

-- What `_error_from` does: it returns the error, or the float of the header overflows, which its
-- handler does not catch.
pub data Built (N : Type 0) : Type 0 where
  built : BrainHttpError N → Built N
  overflow : Built N

-- `decimal` is Python's `str` of a status, and `parse_int` its `int` behind `strip`.
module _ (decimal : ℕ → List ℕ) (parse_int : List ℕ → Parsed) where
  parse_retry_after : Option (List ℕ) → Parsed
  parse_retry_after none = no_integer
  parse_retry_after (some raw) = parse_int raw

  build : {N : Type 0} → HttpError N → Parsed → Built N
  unfolding blank_error from_body from_payload from_envelope from_problem problem_message
      with_field_errors
  build h no_integer = built (from_body h.body (blank_error h.status (decimal h.status) none))
  build h (seconds z) = built (from_body h.body (blank_error h.status (decimal h.status) (some z)))
  build h beyond_float = overflow

  unfoldable pub error_from : {N : Type 0} → HttpError N → Built N
  unfolding build parse_retry_after
  error_from h = build h (parse_retry_after h.retry_after)
