-- ===== src/Wire/Frame/RoundTrip.antt =====
-- python/src/brain_db_sdk/wire/frame.py: decoding what was encoded.
use brain_sdk.Prelude.{ℕ, ◌≡◌, List, ◌++◌, arith, length, le→ltb}
use brain_sdk.Wire.Frame.{Frame, ok, decode_frame, header_size, encode_frame}
use brain_sdk.Wire.Frame.Layout.{
  header_of, IsValid, encode-eq-header_of, check_header-header_of, take_payload-header_of,
}

pub decode_frame-header_of :
    (f : Frame) (rest : List ℕ)
    → IsValid f
    → decode_frame (header_of f ++ (f.payload ++ rest)) ≡ ok (f, rest)
unfolding decode_frame
decode_frame-header_of f rest v =
    rw
      (
        le→ltb (length (header_of f ++ (f.payload ++ rest))) header_size (omega arith),
        check_header-header_of f v,
      )
      (take_payload-header_of f rest v)

-- A frame whose fields fit their places, with no undefined flag set, is encoded without an error,
-- and from the encoding followed by any further bytes the decoder returns that frame and exactly
-- those further bytes.
pub decode_frame-encode_frame :
    (f : Frame) (rest : List ℕ)
    → IsValid f
    → (bytes : List ℕ) × (encode_frame f.opcode f.stream_id f.flags f.payload ≡ ok bytes)
      × (decode_frame (bytes ++ rest) ≡ ok (f, rest))
decode_frame-encode_frame f rest v =
    (header_of f ++ f.payload, encode-eq-header_of f v, decode_frame-header_of f rest v)
