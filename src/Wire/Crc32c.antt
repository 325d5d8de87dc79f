-- ===== src/Wire/Crc32c.antt =====
-- python/src/brain_db_sdk/wire/crc32c.py: the table-driven CRC32C. `//` by a power of two is
-- Python's `>>`, and a byte string is a list of numbers.
pub mod Linear
pub mod Reference
pub mod Detect
mod Runs
use brain_sdk.Prelude.{
  ℕ, zero, suc, ◌+◌, ◌/◌, bit_and, bit_xor, List, [], ◌∷◌, ◌++◌, ◌==◌, if◌then◌else◌,
}
use brain_sdk.Prelude.{get_or}

abbrev pub poly : ℕ
poly = 0x82F63B78

-- One round of the inner loop of `_build_table`.
unfoldable pub shift_step : ℕ → ℕ
shift_step crc = if bit_and crc 1 == 0 then crc / 2 else bit_xor (crc / 2) poly

unfoldable pub shift_steps : ℕ → ℕ → ℕ
shift_steps zero crc = crc
shift_steps (suc k) crc = shift_steps k (shift_step crc)

-- `_build_table`, for the entries from `n` on, `count` of them.
unfoldable pub build_entries : ℕ → ℕ → List ℕ
build_entries zero n = []
build_entries (suc count) n = shift_steps 8 n ∷ build_entries count (n + 1)

unfoldable pub build_table : List ℕ
build_table = build_entries 256 0

-- One round of the loop of `crc32c`. The index is below 256, so it is in the table.
unfoldable pub update : ℕ → ℕ → ℕ
update crc byte = bit_xor (crc / 256) (get_or build_table (bit_and (bit_xor crc byte) 0xff) 0)

unfoldable pub crc_loop : ℕ → List ℕ → ℕ
crc_loop crc [] = crc
crc_loop crc (byte ∷ rest) = crc_loop (update crc byte) rest

unfoldable pub crc32c : List ℕ → ℕ
crc32c bytes = bit_xor (crc_loop 0xffff_ffff bytes) 0xffff_ffff
