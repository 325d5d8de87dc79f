-- ===== src/Wire/Value/Rounding.antt =====
-- python/src/brain_db_sdk/wire/types.py, python/src/brain_db_sdk/wire/cbor.py: `round_f32` on the floats of a
-- payload's map. Every float that a `to_map` writes goes through it, but for those under three keys.
use Prim.Native.String.{String}
use package.text.Mathlib.Text.{◌==◌}
use brain_sdk.Prelude.{ℕ, Bool, ◌||◌, Option, none, some, if◌then◌else◌}
use brain_sdk.Wire.Value.{
  Value, Values, Fields, Loaded, ◌>>=◌, null, boolean, integer, float, text, bytes, array, object,
  nil, cons, end, entry, ok, overflow_error,
}

-- The fields of double precision: `mark_f64`, and the value of a `{"Float": f}`.
abbrev pub is_double : String → Bool
is_double k = k == "latency_ms" || (k == "total_latency_ms" || k == "Float")

-- `pack_f32` is `struct.unpack("<f", struct.pack("<f", x))` on the bits of a double, and none is the
-- OverflowError of a float above the singles.
module _ (pack_f32 : ℕ → Option ℕ) where
  abbrev pub packed : Option ℕ → Loaded Value
  packed none = overflow_error
  packed (some b) = ok (float b)

  abbrev mutual
    -- What stands under a key, and in the lists below it.
    pub round_value : String → Value → Loaded Value
    round_value k null = ok null
    round_value k (boolean b) = ok (boolean b)
    round_value k (integer n) = ok (integer n)
    round_value k (float b) = if is_double k then ok (float b) else packed (pack_f32 b)
    round_value k (text s) = ok (text s)
    round_value k (bytes bs) = ok (bytes bs)
    round_value k (array vs) = round_values k vs >>= λ ws. ok (array ws)
    round_value k (object m) = round_fields m >>= λ n. ok (object n)

    pub round_values : String → Values → Loaded Values
    round_values k nil = ok nil
    round_values k (cons v vs) = do w ← round_value k v; ws ← round_values k vs; ok (cons w ws)

    pub round_fields : Fields → Loaded Fields
    round_fields end = ok end
    round_fields (entry k v rest) = do
      w ← round_value k v
      rest' ← round_fields rest
      ok (entry k w rest')
