-- ===== src/Wire/Frame/Runs.antt =====
-- Frames encoded and decoded at concrete inputs.
use brain_sdk.Prelude.{◌≡◌, ◌≢◌, refl, ℕ, List, [], ◌∷◌, ◌++◌, ◌^◌, arith}
use brain_sdk.Prelude.Bytes.{IsBytes}
use brain_sdk.Wire.Crc32c.{
  shift_step, shift_steps, build_entries, build_table, update, crc_loop, crc32c,
}
use brain_sdk.Wire.Frame.{
  Frame, ok, err, value_error, overflow_error, truncated_frame, encode_frame, decode_frame,
  unsigned_header, compute_header_crc, check_header, take_payload,
}
use brain_sdk.Wire.Frame.Layout.{IsValid}
use brain_sdk.Wire.Frame.RoundTrip.{decode_frame-encode_frame}
use brain_sdk.Wire.Frame.Sound.{decode_frame_sound}
use brain_sdk.Wire.Frame.Truncated.{decode_frame_truncated}
use brain_sdk.Wire.Frame.Corruption.{decode_frame_rejects_corruption}

-- A request on stream 1: an empty map, in one last frame.
abbrev pub request_frame : Frame
request_frame = record { opcode = 0x20; flags = 0x80; stream_id = 1; payload = 0xa0 ∷ [] }

pub request_frame-IsValid : IsValid request_frame
request_frame-IsValid = record {
  opcode_fits = omega arith;
  flags_fit = omega arith;
  flags_defined = refl;
  stream_id_fits = omega arith;
  payload_fits = omega arith;
  payload_bytes = omega arith;
}

abbrev pub request_bytes : List ℕ
request_bytes =
    0x42 ∷ 0x52 ∷ 0x4e ∷ 0x30 ∷ 0x1 ∷ 0x0 ∷ 0x20 ∷ 0x80 ∷ 0x87 ∷ 0x38 ∷ 0xae ∷ 0x6 ∷ 0x0 ∷ 0x0 ∷ 0x0
    ∷ 0x1 ∷ 0x0 ∷ 0x0 ∷ 0x1 ∷ 0x0 ∷ 0xf0 ∷ 0x36 ∷ 0xe6 ∷ 0xf7 ∷ 0x0 ∷ 0x0 ∷ 0x0 ∷ 0x0 ∷ 0x0 ∷ 0x0
    ∷ 0x0 ∷ 0x0 ∷ 0xa0 ∷ []

pub request_encoded : encode_frame 0x20 1 0x80 (0xa0 ∷ []) ≡ ok request_bytes
unfolding encode_frame unsigned_header compute_header_crc crc32c crc_loop update build_table
    build_entries shift_steps shift_step
request_encoded = refl

request_decoded : decode_frame (request_bytes ++ (7 ∷ [])) ≡ ok (request_frame, 7 ∷ [])
unfolding decode_frame check_header take_payload compute_header_crc crc32c crc_loop update
    build_table build_entries shift_steps shift_step
request_decoded = refl

request-IsBytes : IsBytes (request_bytes ++ (7 ∷ []))
request-IsBytes = omega arith

-- The tests.
flags_too_wide : encode_frame 1 0 256 [] ≡ err value_error
unfolding encode_frame
flags_too_wide = refl

stream_id_too_wide : encode_frame 1 (2 ^ 32) 0 [] ≡ err overflow_error
unfolding encode_frame
stream_id_too_wide = refl

decode_frame-encode_frame_example :
    (bytes : List ℕ) × (encode_frame 0x20 1 0x80 (0xa0 ∷ []) ≡ ok bytes)
    × (decode_frame (bytes ++ (7 ∷ [])) ≡ ok (request_frame, 7 ∷ []))
decode_frame-encode_frame_example =
    decode_frame-encode_frame request_frame (7 ∷ []) request_frame-IsValid

decode_frame_sound_example :
    IsValid request_frame
    × ((bytes : List ℕ) × (encode_frame 0x20 1 0x80 (0xa0 ∷ []) ≡ ok bytes)
        × (request_bytes ++ (7 ∷ []) ≡ bytes ++ (7 ∷ [])))
decode_frame_sound_example =
    decode_frame_sound (request_bytes ++ (7 ∷ [])) request_frame (7 ∷ []) request-IsBytes
      request_decoded

decode_frame_truncated_example :
    decode_frame (
      0x42 ∷ 0x52 ∷ 0x4e ∷ 0x30 ∷ 0x1 ∷ 0x0 ∷ 0x20 ∷ 0x80 ∷ 0x87 ∷ 0x38 ∷ 0xae ∷ 0x6 ∷ 0x0 ∷ 0x0
      ∷ 0x0 ∷ 0x1 ∷ 0x0 ∷ 0x0 ∷ 0x1 ∷ 0x0 ∷ 0xf0 ∷ 0x36 ∷ 0xe6 ∷ 0xf7 ∷ 0x0 ∷ 0x0 ∷ 0x0 ∷ 0x0 ∷ 0x0
      ∷ 0x0 ∷ 0x0 ∷ 0x0 ∷ [])
    ≡ err (truncated_frame 32 33)
decode_frame_truncated_example =
    decode_frame_truncated request_frame request_bytes
      (0x42 ∷ 0x52 ∷ 0x4e ∷ 0x30 ∷ 0x1 ∷ 0x0 ∷ 0x20 ∷ 0x80 ∷ 0x87 ∷ 0x38 ∷ 0xae ∷ 0x6 ∷ 0x0 ∷ 0x0
        ∷ 0x0 ∷ 0x1 ∷ 0x0 ∷ 0x0 ∷ 0x1 ∷ 0x0 ∷ 0xf0 ∷ 0x36 ∷ 0xe6 ∷ 0xf7 ∷ 0x0 ∷ 0x0 ∷ 0x0 ∷ 0x0
        ∷ 0x0 ∷ 0x0 ∷ 0x0 ∷ 0x0 ∷ [])
      (0xa0 ∷ []) request_frame-IsValid request_encoded refl (omega arith)

decode_frame_rejects_corruption_example :
    decode_frame (
      0x42 ∷ 0x52 ∷ 0x4e ∷ 0x30 ∷ 0x1 ∷ 0x0 ∷ 0x20 ∷ 0x80 ∷ 0x87 ∷ 0x38 ∷ 0xae ∷ 0x6 ∷ 0x0 ∷ 0x0
        ∷ 0x0 ∷ 0x1 ∷ 0x0 ∷ 0x0 ∷ 0x1 ∷ 0x0 ∷ 0xf0 ∷ 0x36 ∷ 0xe6 ∷ 0xf7 ∷ 0x0 ∷ 0x0 ∷ 0x0 ∷ 0x0
        ∷ 0x0 ∷ 0x0 ∷ 0x0 ∷ []
      ++ (1 ∷ 0xa0 ∷ []))
    ≢ ok (request_frame, [])
decode_frame_rejects_corruption_example =
    decode_frame_rejects_corruption request_frame
      (0x42 ∷ 0x52 ∷ 0x4e ∷ 0x30 ∷ 0x1 ∷ 0x0 ∷ 0x20 ∷ 0x80 ∷ 0x87 ∷ 0x38 ∷ 0xae ∷ 0x6 ∷ 0x0 ∷ 0x0
        ∷ 0x0 ∷ 0x1 ∷ 0x0 ∷ 0x0 ∷ 0x1 ∷ 0x0 ∷ 0xf0 ∷ 0x36 ∷ 0xe6 ∷ 0xf7 ∷ 0x0 ∷ 0x0 ∷ 0x0 ∷ 0x0
        ∷ 0x0 ∷ 0x0 ∷ 0x0 ∷ [])
      (0xa0 ∷ []) 0 1 request_frame-IsValid request_encoded (omega arith) (omega arith)
      request_frame []
