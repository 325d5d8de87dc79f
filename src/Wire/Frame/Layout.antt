-- ===== src/Wire/Frame/Layout.antt =====
-- python/src/brain_db_sdk/wire/frame.py: the bytes of a header, field by field.
use brain_sdk.Prelude.{
  ℕ, ◌+◌, ◌^◌, ◌≤◌, ◌<◌, ◌≡◌, ap, ◌∙◌, List, [], ◌∷◌, ◌++◌, arith, le→ltb, lt→leb, ==_refl, length,
  take-append, drop-append, drop-add, length-append, All-append, replicate,
}
use brain_sdk.Prelude.Bytes.{
  IsByte, IsBytes, to_bytes, from_bytes-to_bytes_two, from_bytes-to_bytes_three,
  from_bytes-to_bytes_four,
}
use native.Mathlib.Nat.{add-sub_cancel_left}
use brain_sdk.Wire.Crc32c.{crc32c}
use brain_sdk.Wire.Crc32c.Reference.{crc32c-lt}
use brain_sdk.Wire.Frame.{
  Frame, Result, ok, magic, header_size, max_payload_bytes, undefined_flags, compute_header_crc,
  unsigned_header, encode_frame, check_header, take_payload,
}

-- Bytes 0 to 8, up to the header CRC.
abbrev pub front_fields : ℕ → ℕ → List ℕ
front_fields opcode flags = magic ++ (1 ∷ (to_bytes 2 opcode ++ (flags ∷ [])))

-- Bytes 12 to 32, after the header CRC.
abbrev pub back_fields : ℕ → List ℕ → List ℕ
back_fields stream_id payload =
    to_bytes 4 stream_id
    ++ (to_bytes 3 (length payload) ++ (0 ∷ (to_bytes 4 (crc32c payload) ++ replicate 8 0)))

abbrev pub header_crc : Frame → ℕ
header_crc f = crc32c (front_fields f.opcode f.flags ++ back_fields f.stream_id f.payload)

abbrev pub header_of : Frame → List ℕ
header_of f =
    front_fields f.opcode f.flags
    ++ (to_bytes 4 (header_crc f) ++ back_fields f.stream_id f.payload)

-- The fields fit their places in the header, the payload is a byte string, and no undefined flag
-- is set.
pub record IsValid (f : Frame) : Type 0 where
  pub opcode_fits : f.opcode < 2 ^ 16
  pub flags_fit : f.flags < 2 ^ 8
  pub flags_defined : undefined_flags f.flags ≡ 0
  pub stream_id_fits : f.stream_id < 2 ^ 32
  pub payload_fits : length f.payload ≤ max_payload_bytes
  pub payload_bytes : IsBytes f.payload

abbrev pub encode : Frame → Result (List ℕ)
encode f = encode_frame f.opcode f.stream_id f.flags f.payload

pub encode-eq-header_of : (f : Frame) → IsValid f → encode f ≡ ok (header_of f ++ f.payload)
unfolding encode_frame unsigned_header compute_header_crc
encode-eq-header_of f v = rw (
  le→ltb max_payload_bytes (length f.payload) v.payload_fits,
  lt→leb f.opcode (2 ^ 16) v.opcode_fits,
  lt→leb f.flags (2 ^ 8) v.flags_fit,
  lt→leb f.stream_id (2 ^ 32) v.stream_id_fits,
)

pub front_fields-IsBytes : (f : Frame) → IsValid f → IsBytes (front_fields f.opcode f.flags)
front_fields-IsBytes f v = omega arith

pub back_fields-IsBytes : (f : Frame) → IsBytes (back_fields f.stream_id f.payload)
back_fields-IsBytes f = omega arith

pub header_crc-lt : (f : Frame) → IsValid f → header_crc f < 2 ^ 32
header_crc-lt f v = crc32c-lt (front_fields f.opcode f.flags ++ back_fields f.stream_id f.payload) (
    All-append IsByte (front_fields f.opcode f.flags) (back_fields f.stream_id f.payload)
      (front_fields-IsBytes f v) (back_fields-IsBytes f))

pub check_header-header_of :
    (f : Frame) → IsValid f → check_header (header_of f) ≡ ok (length f.payload)
unfolding check_header compute_header_crc
check_header-header_of f v = rw (
  v.flags_defined,
  from_bytes-to_bytes_four (header_crc f) (header_crc-lt f v),
  ==_refl (header_crc f),
  from_bytes-to_bytes_three (length f.payload) (omega arith),
  le→ltb max_payload_bytes (length f.payload) v.payload_fits,
)

pub take_payload-header_of :
    (f : Frame) (rest : List ℕ)
    → IsValid f
    → take_payload (header_of f) (header_of f ++ (f.payload ++ rest)) (length f.payload)
      ≡ ok (f, rest)
unfolding take_payload
take_payload-header_of f rest v =
    rw
      (
        le→ltb (length whole) (header_size + length f.payload) long_enough,
        add-sub_cancel_left 32 (length f.payload),
        take-append f.payload rest,
        from_bytes-to_bytes_four (crc32c f.payload) (crc32c-lt f.payload v.payload_bytes),
        ==_refl (crc32c f.payload),
        from_bytes-to_bytes_two f.opcode v.opcode_fits,
        from_bytes-to_bytes_four f.stream_id v.stream_id_fits,
      )
      (ap (λ r. ok (f, r)) (drop-add 32 (length f.payload) whole ∙ drop-append f.payload rest))
  where
    whole : List ℕ
    whole = header_of f ++ (f.payload ++ rest)

    long_enough : header_size + length f.payload ≤ length whole
    long_enough = omega (arith, length-append f.payload rest)
