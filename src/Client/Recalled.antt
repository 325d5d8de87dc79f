-- ===== src/Client/Recalled.antt =====
-- python/src/brain_db_sdk/client.py: what `recall` makes of the frames of an answer.
use Prim.Native.String.{String}
use brain_sdk.Prelude.{
  ◌≡◌, ◌≢◌, refl, ap, ◌∙◌, append-nil, List, [], ◌∷◌, ◌++◌, append_assoc, All, arith,
}
use brain_sdk.Mux.{MuxConnection, PayloadCodec, Event, Item, ok, op_error}
use brain_sdk.Mux.Waiting.{own_items}
use brain_sdk.Wire.Opcode.{opcode_value, recall_req}
use brain_sdk.Wire.Payload.{encode_payload, Packing}
use brain_sdk.Wire.Payload.Recall.{RecallRequest, MemoryResult, recall_request}
use brain_sdk.Wire.Payload.RecallTraces.{RecallResponseFrame, recall_response_frame}
use brain_sdk.Client.{flatten}
use brain_sdk.Client.Served.{CanSend, ReadsBack, response_items, streamed-served}
use brain_sdk.Client.ListVerbs.{recall, recalled, answered, recall_frames, answer_kind_none}

answered-last :
    (codec : PayloadCodec) (lib : Packing) (kind : String) (memories : List MemoryResult)
    (bs : List RecallResponseFrame) (last : RecallResponseFrame)
    → answered codec lib kind memories (bs ++ (last ∷ [])) ≡ record {
      answer_kind = last.answer_kind;
      memories = memories ++ flatten (λ f. f.memories) (bs ++ (last ∷ []));
    }
answered-last codec lib kind memories [] last = rw (append-nil last.memories) refl
answered-last codec lib kind memories (b ∷ bs) last =
    answered-last codec lib b.answer_kind (memories ++ b.memories) bs last
    ∙ rw (append_assoc memories b.memories (flatten (λ f. f.memories) (bs ++ (last ∷ [])))) refl

is_no_error : opcode_value recall_frames.response_opcode ≢ op_error
is_no_error e = absurd (omega (arith, e))

-- On a sound connection that lives and whose socket takes the frame of the request, if the items
-- of its stream start with recall responses of which only the last ends the stream, then `recall`
-- returns the kind of the last one with the memories of all of them, in the order of the frames.
-- The request is encoded without an error, and the CBOR library packs each response's map into one
-- item of at most 129 levels and reads it back.
pub recall-served :
    (codec : PayloadCodec) (lib : Packing) (a : RecallRequest) (bs : List RecallResponseFrame)
    (last : RecallResponseFrame) (m : MuxConnection) (events : List Event) (later : List Item)
    → CanSend m (opcode_value recall_req) (encode_payload lib recall_request a) events
    → own_items m.next_stream_id events
      ≡ response_items codec lib recall_frames m.next_stream_id bs last later
    → All (ReadsBack lib recall_response_frame) bs
    → ReadsBack lib recall_response_frame last
    → (recall codec lib a m events).0
      ≡ ok (record {
        answer_kind = last.answer_kind;
        memories = flatten (λ f. f.memories) (bs ++ (last ∷ []));
      })
unfolding recall
recall-served codec lib a bs last m events later c e hs h =
    ap (recalled codec lib)
      (streamed-served codec lib recall_frames is_no_error a bs last m events later c e hs h)
    ∙ ap ok (answered-last codec lib answer_kind_none [] bs last)
