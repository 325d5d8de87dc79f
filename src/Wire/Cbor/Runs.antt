-- ===== src/Wire/Cbor/Runs.antt =====
-- The scanner at concrete inputs.
use brain_sdk.Prelude.{◌≡◌, refl, [], ◌∷◌, ◌++◌, some, arith}
use brain_sdk.Wire.Cbor.{
  ok, err, truncated, reserved_info, cbor_item_end, scan, read_head, read_arg, shape,
}
use brain_sdk.Wire.Cbor.Progress.{Measures, cbor_item_end_total}
use brain_sdk.Wire.Cbor.Items.{
  Item, array, unsigned, text_string, cons, nil, entry, end, map, encode, head_bytes, IsSized,
  levels, read_head-head_bytes,
}
use brain_sdk.Wire.Cbor.Nesting.{cbor_item_end-encode}

-- {"a": [1, 500]}
abbrev sample : Item
sample =
    map (entry (text_string (0x61 ∷ [])) (array (cons (unsigned 1) (cons (unsigned 500) nil))) end)

sample_encoded : encode sample ≡ 0xa1 ∷ 0x61 ∷ 0x61 ∷ 0x82 ∷ 0x01 ∷ 0x19 ∷ 0x01 ∷ 0xf4 ∷ []
unfolding encode head_bytes
sample_encoded = refl

stray_break_then_end : cbor_item_end (0x9f ∷ 0x01 ∷ []) ≡ err truncated
unfolding cbor_item_end scan read_head read_arg shape
stray_break_then_end = refl

reserved : cbor_item_end (0x1c ∷ []) ≡ err (reserved_info 28)
unfolding cbor_item_end scan read_head read_arg shape
reserved = refl

cbor_item_end_total_example :
    Measures (0xbf ∷ 0xff ∷ 0x00 ∷ []) (cbor_item_end (0xbf ∷ 0xff ∷ 0x00 ∷ []))
cbor_item_end_total_example = cbor_item_end_total (0xbf ∷ 0xff ∷ 0x00 ∷ [])

read_head-head_bytes_example :
    read_head (head_bytes 3 500 ++ (7 ∷ []))
    ≡ ok (record { major = 3; arg = some 500; rest = 7 ∷ [] })
read_head-head_bytes_example = read_head-head_bytes 3 500 (7 ∷ []) (omega arith)

cbor_item_end-encode_example : cbor_item_end (encode sample ++ (0xff ∷ [])) ≡ ok 8
unfolding encode IsSized levels head_bytes
cbor_item_end-encode_example = cbor_item_end-encode sample (0xff ∷ []) (omega arith)
