-- ===== src/Wire/Crc32c/Reference.antt =====
-- python/src/brain_db_sdk/wire/crc32c.py: the table-driven loop beside the bit-by-bit CRC.
use brain_sdk.Prelude.{
  ℕ, zero, suc, ◌+◌, ◌*◌, ◌/◌, ◌%◌, ◌^◌, ◌<◌, bit_xor, ◌≡◌, refl, sym, ap, ◌∙◌, List, [], ◌∷◌,
  arith, get_or,
}
use brain_sdk.Prelude.Bits.{bit_xor_comm, bit_xor_half, bit_xor-zero, bit_xor-lt, bit_xor-eq-add}
use brain_sdk.Prelude.Bytes.{IsByte, IsBytes}
use brain_sdk.Prelude.{bit_and_255}
use brain_sdk.Wire.Crc32c.{shift_steps, build_entries, build_table, update, crc_loop, crc32c}
use brain_sdk.Wire.Crc32c.Linear.{shift_steps-bit_xor, shift_steps-lt}

get_or-build_entries :
    (count n i : ℕ) → i < count → get_or (build_entries count n) i 0 ≡ shift_steps 8 (n + i)
unfolding build_entries
get_or-build_entries zero n i h = absurd (omega arith)
get_or-build_entries (suc count) n zero h = ap (shift_steps 8) (omega arith)
get_or-build_entries (suc count) n (suc i) h =
    get_or-build_entries count (n + 1) i (omega arith) ∙ ap (shift_steps 8) (omega arith)

-- The low byte and the rest of a register.
split_low : (x : ℕ) → bit_xor (x % 256) (x / 256 * 2 ^ 8) ≡ x
split_low x = omega (arith, bit_xor-eq-add 8 (x % 256) (x / 256) (omega arith))

eighth : (x y : ℕ) → y < 256 → bit_xor x y / 2 / 2 / 2 / 2 / 2 / 2 / 2 / 2 ≡ x / 256
eighth x y h =
    rw
      (
        bit_xor_half x y,
        bit_xor_half (x / 2) (y / 2),
        bit_xor_half (x / 2 / 2) (y / 2 / 2),
        bit_xor_half (x / 2 / 2 / 2) (y / 2 / 2 / 2),
        bit_xor_half (x / 2 / 2 / 2 / 2) (y / 2 / 2 / 2 / 2),
        bit_xor_half (x / 2 / 2 / 2 / 2 / 2) (y / 2 / 2 / 2 / 2 / 2),
        bit_xor_half (x / 2 / 2 / 2 / 2 / 2 / 2) (y / 2 / 2 / 2 / 2 / 2 / 2),
        bit_xor_half (x / 2 / 2 / 2 / 2 / 2 / 2 / 2) (y / 2 / 2 / 2 / 2 / 2 / 2 / 2),
      )
      (ap (bit_xor _) gone ∙ bit_xor-zero _ ∙ omega arith)
  where
    gone : y / 2 / 2 / 2 / 2 / 2 / 2 / 2 / 2 ≡ 0
    gone = omega arith

high_part : (x y : ℕ) → y < 256 → bit_xor x y / 256 ≡ x / 256
high_part x y h = omega (arith, eighth x y h)

-- One table look-up is eight steps of the register.
pub update-eq-shift_steps :
    (crc byte : ℕ) → IsByte byte → update crc byte ≡ shift_steps 8 (bit_xor crc byte)
unfolding update build_table
update-eq-shift_steps crc byte h =
    ap (λ i. bit_xor (crc / 256) (get_or (build_entries 256 0) i 0)) (bit_and_255 x)
    ∙ ap (bit_xor (crc / 256)) (get_or-build_entries 256 0 (x % 256) (omega arith))
    ∙ ap (λ i. bit_xor (crc / 256) (shift_steps 8 i)) (omega arith)
    ∙ bit_xor_comm (crc / 256) (shift_steps 8 (x % 256))
    ∙ ap (bit_xor (shift_steps 8 (x % 256))) (sym (high_part crc byte h))
    ∙ sym (shift_steps-bit_xor 8 (x % 256) (x / 256))
    ∙ ap (shift_steps 8) (split_low x)
  where
    x : ℕ
    x = bit_xor crc byte

-- The textbook register, with no table.
abbrev pub reference_loop : ℕ → List ℕ → ℕ
reference_loop crc [] = crc
reference_loop crc (byte ∷ rest) = reference_loop (shift_steps 8 (bit_xor crc byte)) rest

pub crc_loop-eq-reference :
    (crc : ℕ) (bytes : List ℕ) → IsBytes bytes → crc_loop crc bytes ≡ reference_loop crc bytes
unfolding crc_loop
crc_loop-eq-reference crc [] h = refl
crc_loop-eq-reference crc (byte ∷ rest) h =
    ap (λ c. crc_loop c rest) (update-eq-shift_steps crc byte h.0)
    ∙ crc_loop-eq-reference (shift_steps 8 (bit_xor crc byte)) rest h.1

-- On every byte string the table-driven `crc32c` is the bit-by-bit reflected CRC: the register
-- starts at all ones, takes each byte by eight steps, and is complemented at the end.
pub crc32c-eq-reference :
    (bytes : List ℕ)
    → IsBytes bytes
    → crc32c bytes ≡ bit_xor (reference_loop 0xffff_ffff bytes) 0xffff_ffff
unfolding crc32c
crc32c-eq-reference bytes h =
    ap (λ c. bit_xor c 0xffff_ffff) (crc_loop-eq-reference 0xffff_ffff bytes h)

pub update-lt : (crc byte : ℕ) → crc < 2 ^ 32 → IsByte byte → update crc byte < 2 ^ 32
update-lt crc byte hc hb =
    rw (update-eq-shift_steps crc byte hb)
      (shift_steps-lt 8 _ (bit_xor-lt 32 crc byte hc (omega arith)))

pub crc_loop-lt :
    (crc : ℕ) (bytes : List ℕ) → crc < 2 ^ 32 → IsBytes bytes → crc_loop crc bytes < 2 ^ 32
unfolding crc_loop
crc_loop-lt crc [] hc h = hc
crc_loop-lt crc (byte ∷ rest) hc h =
    crc_loop-lt (update crc byte) rest (update-lt crc byte hc h.0) h.1

-- The checksum of a byte string fits the four bytes that the header has for it.
pub crc32c-lt : (bytes : List ℕ) → IsBytes bytes → crc32c bytes < 2 ^ 32
unfolding crc32c
crc32c-lt bytes h =
    bit_xor-lt 32 (crc_loop 0xffff_ffff bytes) 0xffff_ffff
      (crc_loop-lt 0xffff_ffff bytes (omega arith) h) (omega arith)
