-- ===== src/Client/Runs.antt =====
-- Verbs at concrete answers. The CBOR library is one that knows the response.
use brain_sdk.Prelude.{ℕ, ◌≡◌, refl, none, some, List, [], ◌∷◌, true, false, arith}
use brain_sdk.Errors.{protocol_error}
use brain_sdk.Wire.Crc32c.{
  shift_step, shift_steps, build_entries, build_table, update, crc_loop, crc32c,
}
use brain_sdk.Wire.Frame.{Frame, encode_frame, unsigned_header, compute_header_crc, flag_eos}
use brain_sdk.Wire.Frame
use brain_sdk.Wire.Opcode.{opcode_value, unlink_req, schema_list_req, recall_req}
use brain_sdk.Wire.Value.{Loaded, object}
use brain_sdk.Wire.Cbor.Items.{head_bytes, IsSized, levels, encode, map, end}
use brain_sdk.Wire.Value
use brain_sdk.Wire.Payload.{Payload, Packing, encode_payload, to_map}
use brain_sdk.Wire.Payload.Links.{UnlinkRequest}
use brain_sdk.Wire.Payload.Transactions.{UnlinkResponse, unlink_response}
use brain_sdk.Wire.Payload.Listings.{SchemaListRequest}
use brain_sdk.Wire.Payload.Schemas.{
  SchemaListItem, SchemaListResponseFrame, schema_list_response_frame,
}
use brain_sdk.Wire.Payload.Recall.{RecallRequest}
use brain_sdk.Wire.Payload.RecallTraces.{RecallResponseFrame, recall_response_frame}
use brain_sdk.Mux.{PayloadCodec, Event, receives, init, ok, raises}
use brain_sdk.Mux.Invariant.{init-IsSound}
use brain_sdk.Mux.Waiting.{Undisturbed}
use brain_sdk.Client.{unary, collected}
use brain_sdk.Client.Served.{CanSend, ReadsBack, unary-served, collected-served, unary-wrong_opcode}
use brain_sdk.Client.Recalled.{recall-served}
use brain_sdk.Client.MemoryVerbs.{unlink}
use brain_sdk.Client.ListVerbs.{list_schemas_frames, recall_frames, recall}

abbrev plain : PayloadCodec
plain = record { error_response = λ _. none; pong_payload = λ _. [] }

-- A library for which every value is the empty map on the wire, and that is read as the response.
abbrev knows : {B : Type 0} → Payload B → B → Packing
knows p b = record {
  dumps = λ v. 0xa0 ∷ [];
  loads = λ bs. some (object (p.plain_map b));
  pack_f32 = some;
}

knows-ReadsBack : {B : Type 0} (p : Payload B) (b : B) → ReadsBack (knows p b) p b
unfolding IsSized levels encode head_bytes
knows-ReadsBack p b =
    (record { item = map end; sized = omega arith; packed = refl; unpacked = refl }, omega arith)

abbrev bytes_of : Frame.Result (List ℕ) → List ℕ
bytes_of (Frame.ok bs) = bs
bytes_of _ = []

-- The frame with a response, at the end of its stream or in the middle.
abbrev answer : ℕ → ℕ → Event
answer opcode flags =
    receives (record { opcode = opcode; flags = flags; stream_id = 1; payload = 0xa0 ∷ [] })

abbrev unlink_a : UnlinkRequest
unlink_a = record {
  source = 1;
  target = 2;
  kind = 3;
  request_id = [];
  txn_id = none;
  act_as = none;
}

abbrev unlinked : UnlinkResponse
unlinked = record { source = 1; target = 2; kind = 3; removed = true }

abbrev HasBytes : ℕ → Type 0
HasBytes opcode =
    let encoded = encode_frame opcode 1 flag_eos (0xa0 ∷ []) in
    encoded ≡ Frame.ok (bytes_of encoded)

requests-HasBytes :
    HasBytes (opcode_value unlink_req)
    × HasBytes (opcode_value schema_list_req)
    × HasBytes (opcode_value recall_req)
unfolding encode_frame unsigned_header compute_header_crc crc32c crc_loop update build_table
    build_entries shift_steps shift_step
requests-HasBytes = (refl, refl, refl)

first-CanSend :
    (opcode : ℕ) (request : Loaded (List ℕ)) (events : List Event)
    → request ≡ Value.ok (0xa0 ∷ [])
    → HasBytes opcode
    → Undisturbed 1 events
    → CanSend init opcode request events
first-CanSend opcode request events p e h = record {
  payload = 0xa0 ∷ [];
  packed = p;
  is_sound = init-IsSound;
  alive = refl;
  fits = omega arith;
  connected = refl;
  bytes = bytes_of (encode_frame opcode 1 flag_eos (0xa0 ∷ []));
  encoded = e;
  undisturbed = h;
}

unary-served_example :
    (unary plain
      (knows unlink_response unlinked)
      unlink
      unlink_a
      init
      (answer (opcode_value unlink.response_opcode) flag_eos ∷ [])).0
    ≡ ok unlinked
unfolding encode_payload to_map
unary-served_example =
    unary-served plain (knows unlink_response unlinked) unlink (λ e. absurd (omega (arith, e)))
      unlink_a unlinked init (answer (opcode_value unlink.response_opcode) flag_eos ∷ []) []
      (first-CanSend _ _ _ refl requests-HasBytes.0 tt) refl
      (knows-ReadsBack unlink_response unlinked)

-- An answer to LINK.
abbrev misplaced : Frame
misplaced = record { opcode = 165; flags = flag_eos; stream_id = 1; payload = 0xa0 ∷ [] }

unary-wrong_opcode_example :
    (unary plain (knows unlink_response unlinked) unlink unlink_a init (receives misplaced ∷ [])).0
    ≡ raises protocol_error
unfolding encode_payload to_map
unary-wrong_opcode_example =
    unary-wrong_opcode plain (knows unlink_response unlinked) unlink unlink_a misplaced init
      (receives misplaced ∷ []) [] (first-CanSend _ _ _ refl requests-HasBytes.0 tt) refl refl
      (λ e. absurd (omega (arith, e))) (λ e. absurd (omega (arith, e)))

-- Two equal frames of a schema's versions.
abbrev schema_item : SchemaListItem
schema_item = record {
  schema_version = 1;
  uploaded_at_unix_nanos = 0;
  validator_version = 1;
  has_source_text = true;
}

abbrev schemas : SchemaListResponseFrame
schemas = record {
  namespace = "notes";
  items = schema_item ∷ [];
  total = 2;
  next_cursor = [];
  is_final = true;
}

abbrev schema_request : SchemaListRequest
schema_request = record { namespace = "notes"; limit = 10; cursor = []; act_as = none }

abbrev schema_events : List Event
schema_events =
    answer (opcode_value list_schemas_frames.response_opcode) 0
    ∷ answer (opcode_value list_schemas_frames.response_opcode) flag_eos
    ∷ []

collected-served_example :
    (collected plain
      (knows schema_list_response_frame schemas)
      list_schemas_frames
      (λ f. f.items)
      schema_request
      init
      schema_events).0
    ≡ ok (schema_item ∷ schema_item ∷ [])
unfolding encode_payload to_map
collected-served_example =
    collected-served plain (knows schema_list_response_frame schemas) list_schemas_frames
      (λ e. absurd (omega (arith, e))) (λ f. f.items) schema_request (schemas ∷ []) schemas init
      schema_events [] (first-CanSend _ _ _ refl requests-HasBytes.1 tt) refl
      (knows-ReadsBack schema_list_response_frame schemas, tt)
      (knows-ReadsBack schema_list_response_frame schemas)

abbrev recall_a : RecallRequest
recall_a = record {
  cue_text = "";
  subject_name = "";
  max_results = 5;
  confidence_threshold = 0;
  session_filter = none;
  age_bound_unix_nanos = none;
  as_of_record_time_unix_nanos = none;
  kind_filter = none;
  salience_floor = 0;
  include_edges = false;
  include_graph = false;
  include_text = true;
  request_id = none;
  txn_id = none;
  trace = false;
  act_as = none;
  scope = "";
}

abbrev recall_frame : RecallResponseFrame
recall_frame = record {
  answer_kind = "Many";
  memories = [];
  is_final = true;
  cumulative_count = 0;
  estimated_remaining = none;
  trace = none;
}

abbrev recall_events : List Event
recall_events =
    answer (opcode_value recall_frames.response_opcode) 0
    ∷ answer (opcode_value recall_frames.response_opcode) flag_eos
    ∷ []

recall-served_example :
    (recall plain (knows recall_response_frame recall_frame) recall_a init recall_events).0
    ≡ ok (record { answer_kind = "Many"; memories = [] })
unfolding encode_payload to_map
recall-served_example =
    recall-served plain (knows recall_response_frame recall_frame) recall_a (recall_frame ∷ [])
      recall_frame init recall_events [] (first-CanSend _ _ _ refl requests-HasBytes.2 tt) refl
      (knows-ReadsBack recall_response_frame recall_frame, tt)
      (knows-ReadsBack recall_response_frame recall_frame)
