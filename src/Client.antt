-- ===== src/Client.antt =====
-- python/src/brain_db_sdk/client.py: a verb is a request over the connection, whose answer is decoded as the
-- verb's response. `lib` is the CBOR library and `struct`.
pub mod Served
pub mod MemoryVerbs
pub mod GraphVerbs
pub mod AdminVerbs
pub mod ListVerbs
mod Recalled
mod Runs
use brain_sdk.Prelude.{ℕ, List, [], ◌∷◌, ◌++◌, ◌==◌, if◌then◌else◌}
use brain_sdk.Errors.{protocol_error, payload_error, other_error}
use brain_sdk.Mux.{
  Answer, ok, raises, MuxConnection, PayloadCodec, Event, request, request_one,
  request_on_connection,
}
use brain_sdk.Wire.Frame.{Frame}
use brain_sdk.Wire.Opcode.{Opcode, opcode_value, ping, pong}
use brain_sdk.Wire.Payload.{Payload, Packing, encode_payload, decode_payload}
use brain_sdk.Wire.Value.{Loaded, key_error, type_error, cbor_error, overflow_error}
use brain_sdk.Wire.Value
use brain_sdk.Wire.Payload.Keepalive.{PingRequest, ping_request, PongResponse, pong_response}

-- What a verb hands to `_unary` or `_streamed`: the two opcodes, and the classes of its request and
-- of a response.
pub record Verb (A B : Type 0) : Type 0 where
  pub request_opcode : Opcode
  pub response_opcode : Opcode
  pub request_type : Payload A
  pub response_type : Payload B

-- An error of a payload's decoding is raised.
abbrev pub answer_of : {B : Type 0} → Loaded B → Answer B
answer_of (Value.ok b) = ok b
answer_of (key_error k) = raises payload_error
answer_of type_error = raises payload_error
answer_of cbor_error = raises payload_error
answer_of overflow_error = raises other_error

-- The request with its payload, or the error of its encoding, where nothing is sent.
abbrev pub with_payload :
    {B : Type 0}
    → Loaded (List ℕ)
    → (List ℕ → Answer B × MuxConnection × List Event)
    → MuxConnection
    → List Event
    → Answer B × MuxConnection × List Event
with_payload (Value.ok payload) send m events = send payload
with_payload (key_error k) send m events = (answer_of (key_error k), m, events)
with_payload type_error send m events = (answer_of type_error, m, events)
with_payload cbor_error send m events = (answer_of cbor_error, m, events)
with_payload overflow_error send m events = (answer_of overflow_error, m, events)

abbrev pub and_answer : {B : Type 0} → Answer B → Answer (List B) → Answer (List B)
and_answer (ok b) (ok bs) = ok (b ∷ bs)
and_answer (ok b) (raises e) = raises e
and_answer (raises e) rest = raises e

-- `for frame in frames: out.extend(items(frame))`
abbrev pub flatten : {B C : Type 0} → (B → List C) → List B → List C
flatten items [] = []
flatten items (b ∷ bs) = items b ++ flatten items bs

abbrev pub flatten_answer : {B C : Type 0} → (B → List C) → Answer (List B) → Answer (List C)
flatten_answer items (ok bs) = ok (flatten items bs)
flatten_answer items (raises e) = raises e

module _ (codec : PayloadCodec) (lib : Packing) where
  -- One response frame, with the check of its opcode.
  unfoldable pub typed_response : {B : Type 0} → Opcode → Payload B → Frame → Answer B
  typed_response o p f =
      if f.opcode == opcode_value o
      then answer_of (decode_payload lib p f.payload)
      else raises protocol_error

  unfoldable pub typed_responses : {B : Type 0} → Opcode → Payload B → List Frame → Answer (List B)
  typed_responses o p [] = ok []
  typed_responses o p (f ∷ fs) = and_answer (typed_response o p f) (typed_responses o p fs)

  abbrev pub one_response : {B : Type 0} → Opcode → Payload B → Answer Frame → Answer B
  one_response o p (raises e) = raises e
  one_response o p (ok f) = typed_response o p f

  abbrev pub all_responses :
      {B : Type 0} → Opcode → Payload B → Answer (List Frame) → Answer (List B)
  all_responses o p (raises e) = raises e
  all_responses o p (ok fs) = typed_responses o p fs

  module _ {A B : Type 0} (v : Verb A B) where
    -- `_unary`.
    unfoldable pub unary : A → MuxConnection → List Event → Answer B × MuxConnection × List Event
    unary a m events =
        with_payload (encode_payload lib v.request_type a)
          (λ payload.
            let (answer, m', later) =
              request_one codec (opcode_value v.request_opcode) payload m events in
            (one_response v.response_opcode v.response_type answer, m', later))
          m events

    -- `_streamed`.
    unfoldable pub streamed :
        A → MuxConnection → List Event → Answer (List B) × MuxConnection × List Event
    streamed a m events =
        with_payload (encode_payload lib v.request_type a)
          (λ payload.
            let (answer, m', later) =
              request codec (opcode_value v.request_opcode) payload m events in
            (all_responses v.response_opcode v.response_type answer, m', later))
          m events

    -- A verb that puts the parts of all its frames into one list.
    unfoldable pub collected :
        {C : Type 0}
        → (B → List C)
        → A
        → MuxConnection
        → List Event
        → Answer (List C) × MuxConnection × List Event
    collected items a m events =
        let (answer, m', later) = streamed a m events in (flatten_answer items answer, m', later)

  abbrev pub decode_pong : Answer (List Frame) → Answer PongResponse
  decode_pong (raises e) = raises e
  decode_pong (ok (f ∷ [])) = typed_response pong pong_response f
  decode_pong (ok _) = raises protocol_error

  -- `client.ping`, on the stream of the connection itself.
  unfoldable pub ping_verb :
      ℕ → MuxConnection → List Event → Answer PongResponse × MuxConnection × List Event
  ping_verb timestamp m events =
      with_payload
        (encode_payload lib ping_request (record { client_timestamp_unix_nanos = timestamp }))
        (λ payload.
          let (answer, m', later) =
            request_on_connection codec (opcode_value ping) payload m events in
          (decode_pong answer, m', later))
        m events
