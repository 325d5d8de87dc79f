-- ===== src/Errors.antt =====
-- python/src/brain_db_sdk/errors.py: the exceptions of the client, and which of them a retry may
-- clear.
use brain_sdk.Prelude.{ℕ, Bool, true, false, ◌||◌, Option, List, ◌==◌, if◌then◌else◌}
use brain_sdk.Wire.Frame.{FrameError}

-- `ErrorDetails` of wire/types.py; a string is the list of its characters' numbers.
pub record ErrorDetails : Type 0 where
  pub field : Option (List ℕ)
  pub expected : Option (List ℕ)
  pub actual : Option (List ℕ)

-- `ErrorResponse` of wire/types.py, the payload of an ERROR frame.
pub record ErrorResponse : Type 0 where
  pub code : ℕ
  pub category : ℕ
  pub message : List ℕ
  pub details : Option ErrorDetails
  pub retry_after_ms : Option ℕ

abbrev pub category_resource_exhausted : ℕ
category_resource_exhausted = 6

abbrev pub category_unavailable : ℕ
category_unavailable = 8

-- `ServerError` itself and its subclasses.
pub data ServerErrorClass : Type 0 where
  base : ServerErrorClass
  act_as_denied : ServerErrorClass
  llm_credential_missing : ServerErrorClass
  llm_credential_unavailable : ServerErrorClass

-- What a call can raise: the classes of this file, a frame that the codec refuses, `OSError`, an
-- error of the payload's decoding, and any other exception.
pub data Exception : Type 0 where
  protocol_error : Exception
  connection_closed : Exception
  brain_timeout : Exception
  version_mismatch : ℕ → List ℕ → Exception
  server_error : ServerErrorClass → ErrorResponse → Exception
  frame_error : FrameError → Exception
  os_error : Exception
  payload_error : Exception
  other_error : Exception

-- `_CODE_TO_ERROR.get(code, ServerError)`
unfoldable pub class_of : ℕ → ServerErrorClass
class_of code =
    if code == 0x0033
    then act_as_denied
    else if code == 0x0066
    then llm_credential_missing
    else if code == 0x0095
    then llm_credential_unavailable
    else base

abbrev pub from_response : ErrorResponse → Exception
from_response r = server_error (class_of r.code) r

unfoldable pub is_retryable : Exception → Bool
is_retryable connection_closed = true
is_retryable brain_timeout = true
is_retryable os_error = true
is_retryable (server_error cls r) =
    r.category == category_resource_exhausted || r.category == category_unavailable
is_retryable _ = false
