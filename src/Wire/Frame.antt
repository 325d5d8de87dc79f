-- ===== src/Wire/Frame.antt =====
-- python/src/brain_db_sdk/wire/frame.py: the 32-byte BRN0 header and the frame codec.
pub mod Layout
pub mod RoundTrip
pub mod Sound
pub mod Truncated
pub mod Corruption
pub mod Runs
use brain_sdk.Prelude.{
  ℕ, ◌+◌, ◌-◌, ◌^◌, ◌≡◌, Bool, true, false, not, ◌&&◌, ◌||◌, List, [], ◌∷◌, ◌++◌, bit_and, bit_or,
  ltb, leb, ◌==◌, if◌then◌else◌, length, get_or, take, drop, slice, splice, replicate,
}
use brain_sdk.Prelude.Bytes.{to_bytes, from_bytes, bytes_eq}
use brain_sdk.Wire.Crc32c.{crc32c}

abbrev pub magic : List ℕ
magic = 0x42 ∷ 0x52 ∷ 0x4e ∷ 0x30 ∷ []

abbrev pub wire_version : ℕ
wire_version = 1

abbrev pub header_size : ℕ
header_size = 32

abbrev pub max_payload_bytes : ℕ
max_payload_bytes = 2 ^ 24 - 1

abbrev pub flag_eos : ℕ
flag_eos = 0x80

abbrev pub flag_mpl : ℕ
flag_mpl = 0x40

abbrev pub flag_cmp : ℕ
flag_cmp = 0x20

abbrev pub flags_defined_mask : ℕ
flags_defined_mask = bit_or (bit_or flag_eos flag_mpl) flag_cmp

-- What `flags & ~FLAGS_DEFINED_MASK` leaves of a byte.
abbrev pub undefined_flags : ℕ → ℕ
undefined_flags flags = bit_and flags (0xff - flags_defined_mask)

-- The subclasses of `FrameError`, with `OverflowError` and `ValueError`, which `int.to_bytes` and
-- the store into a `bytearray` raise on a number that does not fit.
pub data FrameError : Type 0 where
  bad_magic : FrameError
  bad_version : ℕ → FrameError
  bad_header_crc : FrameError
  bad_payload_crc : FrameError
  oversize_payload : ℕ → FrameError
  reserved_non_zero : FrameError
  truncated_frame : ℕ → ℕ → FrameError
  overflow_error : FrameError
  value_error : FrameError

infixl 5 ◌>>=◌ ◌>>◌
pub data Result {ℓ} (A : Type ℓ) : Type ℓ where
  ok : A → Result A
  err : FrameError → Result A

abbrev pub ◌>>=◌ {ℓ κ} : {A : Type ℓ} {B : Type κ} → Result A → (A → Result B) → Result B
err e >>= _ = err e
ok a >>= f = f a

abbrev pub ◌>>◌ {ℓ} : {B : Type ℓ} → Result (Unit {0}) → Result B → Result B
m >> k = m >>= λ _. k

-- `if bad: raise e`
abbrev pub raise_if : Bool → FrameError → Result (Unit {0})
raise_if true e = err e
raise_if false e = ok tt

pub record Frame : Type 0 where
  pub opcode : ℕ
  pub flags : ℕ
  pub stream_id : ℕ
  pub payload : List ℕ

unfoldable pub compute_header_crc : List ℕ → ℕ
compute_header_crc header = crc32c (take 8 header ++ slice 12 32 header)

-- The header with its CRC field zero.
unfoldable pub unsigned_header : ℕ → ℕ → ℕ → List ℕ → List ℕ
unsigned_header opcode stream_id flags payload =
    let h0 = splice 0 magic (replicate 32 0) in
    let h1 = splice 4 (wire_version ∷ []) h0 in
    let h2 = splice 5 (to_bytes 2 opcode) h1 in
    let h3 = splice 7 (flags ∷ []) h2 in
    let h4 = splice 12 (to_bytes 4 stream_id) h3 in
    let h5 = splice 16 (to_bytes 3 (length payload)) h4 in
    splice 20 (to_bytes 4 (crc32c payload)) h5

unfoldable pub encode_frame : ℕ → ℕ → ℕ → List ℕ → Result (List ℕ)
encode_frame opcode stream_id flags payload = do
  raise_if (ltb max_payload_bytes (length payload)) (oversize_payload (length payload))
  raise_if (leb (2 ^ 16) opcode) overflow_error
  raise_if (leb (2 ^ 8) flags) value_error
  raise_if (leb (2 ^ 32) stream_id) overflow_error
  let header = unsigned_header opcode stream_id flags payload
  ok (splice 8 (to_bytes 4 (compute_header_crc header)) header ++ payload)

-- The checks of `decode_frame` on the header alone; the length of the payload.
unfoldable pub check_header : List ℕ → Result ℕ
check_header header = do
  raise_if (not (bytes_eq (slice 0 4 header) magic)) bad_magic
  raise_if (not (get_or header 4 0 == wire_version)) (bad_version (get_or header 4 0))
  raise_if (not (get_or header 19 0 == 0) || not (bytes_eq (slice 24 32 header) (replicate 8 0)))
      reserved_non_zero
  raise_if (not (undefined_flags (get_or header 7 0) == 0)) reserved_non_zero
  raise_if (not (from_bytes (slice 8 12 header) == compute_header_crc header)) bad_header_crc
  let payload_len = from_bytes (slice 16 19 header)
  raise_if (ltb max_payload_bytes payload_len) (oversize_payload payload_len)
  ok payload_len

-- The rest of `decode_frame`, for a header that passed.
unfoldable pub take_payload : List ℕ → List ℕ → ℕ → Result (Frame × List ℕ)
take_payload header buf payload_len = do
  let need = header_size + payload_len
  raise_if (ltb (length buf) need) (truncated_frame (length buf) need)
  let payload = slice header_size need buf
  raise_if (not (from_bytes (slice 20 24 header) == crc32c payload)) bad_payload_crc
  ok (
    record {
      opcode = from_bytes (slice 5 7 header);
      flags = get_or header 7 0;
      stream_id = from_bytes (slice 12 16 header);
      payload = payload;
    },
    drop need buf,
  )

unfoldable pub decode_frame : List ℕ → Result (Frame × List ℕ)
decode_frame buf = do
  raise_if (ltb (length buf) header_size) (truncated_frame (length buf) header_size)
  let header = take header_size buf
  payload_len ← check_header header
  take_payload header buf payload_len
