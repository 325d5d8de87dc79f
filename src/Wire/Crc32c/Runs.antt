-- ===== src/Wire/Crc32c/Runs.antt =====
-- The check vectors.
use brain_sdk.Prelude.{◌≡◌, ◌≢◌, ◌<◌, ◌^◌, refl, ap, bit_xor, get_or, arith, [], ◌∷◌}
use brain_sdk.Wire.Crc32c.Reference.{reference_loop, crc32c-eq-reference, crc32c-lt}
use brain_sdk.Wire.Crc32c.Detect.{crc32c_detects_window}
use brain_sdk.Wire.Crc32c.{
  shift_step, shift_steps, build_entries, build_table, update, crc_loop, crc32c,
}

-- CRC32C("123456789"), the vector that the module checks when it is imported.
check_vector :
    crc32c (0x31 ∷ 0x32 ∷ 0x33 ∷ 0x34 ∷ 0x35 ∷ 0x36 ∷ 0x37 ∷ 0x38 ∷ 0x39 ∷ []) ≡ 0xE3069283
unfolding crc32c crc_loop update build_table build_entries shift_steps shift_step
check_vector = refl

empty_payload : crc32c [] ≡ 0
unfolding crc32c crc_loop
empty_payload = refl

crc32c-eq-reference_example :
    crc32c (0x31 ∷ 0xff ∷ []) ≡ bit_xor (reference_loop 0xffff_ffff (0x31 ∷ 0xff ∷ [])) 0xffff_ffff
crc32c-eq-reference_example = crc32c-eq-reference (0x31 ∷ 0xff ∷ []) (omega arith)

crc32c-lt_example : crc32c (0x31 ∷ 0xff ∷ []) < 2 ^ 32
crc32c-lt_example = crc32c-lt (0x31 ∷ 0xff ∷ []) (omega arith)

crc32c_detects_window_example : crc32c (1 ∷ 2 ∷ 3 ∷ 4 ∷ []) ≢ crc32c (1 ∷ 9 ∷ 8 ∷ 4 ∷ [])
crc32c_detects_window_example =
    crc32c_detects_window (1 ∷ []) (2 ∷ 3 ∷ []) (9 ∷ 8 ∷ []) (4 ∷ []) (omega arith) (omega arith)
      (omega arith) (omega arith) refl (omega arith)
      (λ e. absurd (omega (arith, ap (λ t. get_or t 0 0) e)))
