-- ===== src/Client/Served.antt =====
-- python/src/brain_db_sdk/client.py: what a verb returns when the server answers it.
use brain_sdk.Prelude.{
  ℕ, ◌+◌, ◌≤◌, ◌≡◌, ◌≢◌, refl, ap, ◌∙◌, none, List, [], ◌∷◌, ◌++◌, append_assoc, ==_refl, ◌==◌,
  true, false, All, length, arith,
}
use brain_sdk.Errors.{protocol_error}
use brain_sdk.Mux.{
  MuxConnection, PayloadCodec, Event, Item, frame, ok, raises, request, request_one, exactly_one,
  op_error, is_eos,
}
use brain_sdk.Mux.Invariant.{IsSound}
use brain_sdk.Mux.Waiting.{own_items, Undisturbed}
use brain_sdk.Mux.Delivery.{reply, request-reply}
use brain_sdk.Wire.Frame.{Frame, encode_frame, flag_eos}
use brain_sdk.Wire.Frame
use brain_sdk.Wire.Cbor.{max_nesting_depth}
use brain_sdk.Wire.Cbor.Items.{levels}
use brain_sdk.Wire.Opcode.{opcode_value}
use brain_sdk.Wire.Payload.{Payload, Packing, IsPacked, encode_payload, decode_payload-packed}
use brain_sdk.Wire.Value.{Loaded, object}
use brain_sdk.Wire.Value
use brain_sdk.Client.{
  Verb, answer_of, and_answer, flatten, flatten_answer, typed_response, typed_responses,
  one_response, all_responses, unary, streamed, collected,
}

-- A request can be sent: its payload was encoded and fits, the connection is sound, its reader lives,
-- and its socket works. No other thread touches the request's stream.
pub record CanSend (m : MuxConnection) (opcode : ℕ) (request : Loaded (List ℕ))
    (events : List Event) : Type 0 where
  pub payload : List ℕ
  pub packed : request ≡ Value.ok payload
  pub is_sound : IsSound m
  pub alive : m.closed_error ≡ none
  pub fits : length payload ≤ m.max_payload_size
  pub connected : m.socket_open ≡ true
  pub bytes : List ℕ
  pub encoded : encode_frame opcode m.next_stream_id flag_eos payload ≡ Frame.ok bytes
  pub undisturbed : Undisturbed m.next_stream_id events

unequal : (a b : ℕ) → a ≢ b → (a == b) ≡ false
unequal a b h = ground arith

request-CanSend :
    (codec : PayloadCodec) (opcode : ℕ) (payload : Loaded (List ℕ)) (m : MuxConnection)
    (events : List Event) (c : CanSend m opcode payload events)
    → (request codec opcode c.payload m events).0
      ≡ reply codec [] (own_items m.next_stream_id events)
request-CanSend codec opcode payload m events c =
    request-reply codec opcode c.payload c.bytes m events c.is_sound c.alive c.fits c.connected
      c.encoded c.undisturbed

-- The CBOR library packs the map of a response into one item, which is not nested too deep, and reads
-- it back.
abbrev pub ReadsBack : {B : Type 0} → Packing → Payload B → B → Type 0
ReadsBack lib p b =
    (h : IsPacked lib (object (p.plain_map b))) × (levels h.item ≤ max_nesting_depth + 1)

module _ (codec : PayloadCodec) (lib : Packing) where
  module _ {A B : Type 0} (v : Verb A B) where
    -- The server's frame for a response, with some flags.
    abbrev pub response_frame : ℕ → ℕ → B → Frame
    response_frame flags s b = record {
      opcode = opcode_value v.response_opcode;
      flags = flags;
      stream_id = s;
      payload = lib.dumps (object (v.response_type.plain_map b));
    }

    -- A stream of responses, of which the last has the EOS flag.
    abbrev pub response_items : ℕ → List B → B → List Item → List Item
    response_items s [] last later = frame (response_frame flag_eos s last) ∷ later
    response_items s (b ∷ bs) last later =
        frame (response_frame 0 s b) ∷ response_items s bs last later

    abbrev response_frames : ℕ → List B → B → List Frame
    response_frames s [] last = response_frame flag_eos s last ∷ []
    response_frames s (b ∷ bs) last = response_frame 0 s b ∷ response_frames s bs last

  module _ {A B : Type 0} (v : Verb A B)
      (is_no_error : opcode_value v.response_opcode ≢ op_error) where
    not_error : (opcode_value v.response_opcode == op_error) ≡ false
    not_error = unequal (opcode_value v.response_opcode) op_error is_no_error

    reply-response_items :
        (s : ℕ) (before : List Frame) (bs : List B) (last : B) (later : List Item)
        → reply codec before (response_items v s bs last later)
          ≡ ok (before ++ response_frames v s bs last)
    reply-response_items s before [] last later = rw not_error refl
    reply-response_items s before (b ∷ bs) last later = rw not_error (
        reply-response_items s (before ++ (response_frame v 0 s b ∷ [])) bs last later
        ∙ ap ok (append_assoc before (response_frame v 0 s b ∷ []) (response_frames v s bs last)))

    typed_response-response_frame :
        (flags s : ℕ) (b : B)
        → ReadsBack lib v.response_type b
        → typed_response codec lib v.response_opcode v.response_type (response_frame v flags s b)
          ≡ ok b
    unfolding typed_response
    typed_response-response_frame flags s b h =
        rw (==_refl (opcode_value v.response_opcode))
          (ap answer_of (decode_payload-packed lib v.response_type b h.0 h.1))

    typed_responses-response_frames :
        (s : ℕ) (bs : List B) (last : B)
        → All (ReadsBack lib v.response_type) bs
        → ReadsBack lib v.response_type last
        → typed_responses codec lib v.response_opcode v.response_type (response_frames v s bs last)
          ≡ ok (bs ++ (last ∷ []))
    unfolding typed_responses
    typed_responses-response_frames s [] last hs h =
        ap (λ r. and_answer r (ok [])) (typed_response-response_frame flag_eos s last h)
    typed_responses-response_frames s (b ∷ bs) last hs h =
        ap
          (λ r. and_answer r (
            typed_responses codec lib v.response_opcode v.response_type
              (response_frames v s bs last)))
          (typed_response-response_frame 0 s b hs.0)
        ∙ ap (and_answer (ok b)) (typed_responses-response_frames s bs last hs.1 h)

    -- On a sound connection that lives and whose socket takes the frame of the request, if the
    -- items of its stream start with one frame of the verb's response that ends the stream, then a
    -- unary verb returns this response, whatever else the reader and the other threads do but for
    -- that stream. The request is encoded without an error, the response's opcode is not that of
    -- an error, and the CBOR library packs the response's map into one item of at most 129 levels
    -- and reads it back.
    pub unary-served :
        (a : A) (b : B) (m : MuxConnection) (events : List Event) (later : List Item)
        → CanSend m (opcode_value v.request_opcode) (encode_payload lib v.request_type a) events
        → own_items m.next_stream_id events ≡ response_items v m.next_stream_id [] b later
        → ReadsBack lib v.response_type b
        → (unary codec lib v a m events).0 ≡ ok b
    unfolding unary request_one
    unary-served a b m events later c e h = rw c.packed (
        ap (λ r. one_response codec lib v.response_opcode v.response_type (exactly_one codec r))
          (request-CanSend codec _ _ m events c
            ∙ ap (reply codec []) e
            ∙ reply-response_items m.next_stream_id [] [] b later)
        ∙ typed_response-response_frame flag_eos m.next_stream_id b h)

    pub streamed-served :
        (a : A) (bs : List B) (last : B) (m : MuxConnection) (events : List Event)
        (later : List Item)
        → CanSend m (opcode_value v.request_opcode) (encode_payload lib v.request_type a) events
        → own_items m.next_stream_id events ≡ response_items v m.next_stream_id bs last later
        → All (ReadsBack lib v.response_type) bs
        → ReadsBack lib v.response_type last
        → (streamed codec lib v a m events).0 ≡ ok (bs ++ (last ∷ []))
    unfolding streamed
    streamed-served a bs last m events later c e hs h = rw c.packed (
        ap (all_responses codec lib v.response_opcode v.response_type) (
          request-CanSend codec _ _ m events c
          ∙ ap (reply codec []) e
          ∙ reply-response_items m.next_stream_id [] bs last later)
        ∙ typed_responses-response_frames m.next_stream_id bs last hs h)

    -- On a sound connection that lives and whose socket takes the frame of the request, if the
    -- items of its stream start with response frames of which only the last ends the stream, then
    -- a list verb returns the parts of all of them in one list, in the order of the frames. The
    -- request is encoded without an error, the response's opcode is not that of an error, and the
    -- CBOR library packs each response's map into one item of at most 129 levels and reads it
    -- back.
    pub collected-served :
        {C : Type 0} (items : B → List C) (a : A) (bs : List B) (last : B) (m : MuxConnection)
        (events : List Event) (later : List Item)
        → CanSend m (opcode_value v.request_opcode) (encode_payload lib v.request_type a) events
        → own_items m.next_stream_id events ≡ response_items v m.next_stream_id bs last later
        → All (ReadsBack lib v.response_type) bs
        → ReadsBack lib v.response_type last
        → (collected codec lib v items a m events).0 ≡ ok (flatten items (bs ++ (last ∷ [])))
    unfolding collected
    collected-served items a bs last m events later c e hs h =
        ap (flatten_answer items) (streamed-served a bs last m events later c e hs h)

module _ (codec : PayloadCodec) (lib : Packing) where
  -- On a sound connection that lives and whose socket takes the frame of the request, if the first
  -- item of its stream is a frame that ends the stream, and its opcode is neither that of an error
  -- nor that of the verb's response, then a unary verb raises a `ProtocolError`, whatever the
  -- payload holds. The request is encoded without an error.
  pub unary-wrong_opcode :
      {A B : Type 0} (v : Verb A B) (a : A) (f : Frame) (m : MuxConnection) (events : List Event)
      (later : List Item)
      → CanSend m (opcode_value v.request_opcode) (encode_payload lib v.request_type a) events
      → own_items m.next_stream_id events ≡ frame f ∷ later
      → is_eos f ≡ true
      → f.opcode ≢ op_error
      → f.opcode ≢ opcode_value v.response_opcode
      → (unary codec lib v a m events).0 ≡ raises protocol_error
  unfolding unary request_one typed_response
  unary-wrong_opcode v a f m events later c e eos fine other = rw c.packed (
      ap (λ r. one_response codec lib v.response_opcode v.response_type (exactly_one codec r))
        (request-CanSend codec _ _ m events c ∙ ap (reply codec []) e)
      ∙ rw
          (
            unequal f.opcode op_error fine,
            eos,
            unequal f.opcode (opcode_value v.response_opcode) other,
          )
          refl)
