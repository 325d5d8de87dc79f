-- ===== src/Wire/Frame/Truncated.antt =====
-- python/src/brain_db_sdk/wire/frame.py: decoding a frame that has not arrived whole.
use brain_sdk.Prelude.{
  ℕ, ◌+◌, ◌≤◌, ◌<◌, ◌≡◌, sym, ap, ◌∙◌, inl, inr, List, ◌++◌, arith, length, ltb, lt→ltb, le→ltb,
  ltb→lt, false, if◌then◌else◌, Bool-cases, split_prefix, subst,
}
use brain_sdk.Wire.Frame.{
  Frame, ok, err, truncated_frame, header_size, take_payload, decode_frame, encode_frame,
}
use brain_sdk.Wire.Frame.Sound.{ok-inj}
use brain_sdk.Wire.Frame.Layout.{header_of, IsValid, encode-eq-header_of, check_header-header_of}

cut_in_header :
    (front : List ℕ)
    → length front < header_size
    → decode_frame front ≡ err (truncated_frame (length front) header_size)
unfolding decode_frame
cut_in_header front h = rw (lt→ltb (length front) header_size h)

cut_in_payload :
    (f : Frame) (ws : List ℕ)
    → IsValid f
    → length ws < length f.payload
    → decode_frame (header_of f ++ ws)
      ≡ err (truncated_frame (length (header_of f ++ ws)) (header_size + length f.payload))
unfolding decode_frame take_payload
cut_in_payload f ws v h = rw (
  le→ltb (length (header_of f ++ ws)) header_size (omega arith),
  check_header-header_of f v,
  lt→ltb (length (header_of f ++ ws)) (header_size + length f.payload) (omega arith),
)

-- Given any proper prefix of the encoding of a frame, whose fields fit their places with no
-- undefined flag set, the decoder reports a truncated frame, with the number of bytes that it has
-- and the number that it needs: the header's size if the header is not whole, else the size of the
-- frame.
pub decode_frame_truncated :
    (f : Frame) (bytes front back : List ℕ)
    → IsValid f
    → encode_frame f.opcode f.stream_id f.flags f.payload ≡ ok bytes
    → bytes ≡ front ++ back
    → length front < length bytes
    → decode_frame front
      ≡ err (
          truncated_frame (length front) (
            if ltb (length front) header_size then header_size else header_size + length f.payload))
decode_frame_truncated f bytes front back v e s short =
    elim (Bool-cases (ltb (length front) header_size)) [
      | inl cut ↦ rw cut (cut_in_header front (ltb→lt _ _ cut))
      | inr whole ↦
          let (ws, p, q) =
            split_prefix (header_of f) f.payload front back (sym same ∙ s) (at_least whole) in
          rw whole (
            subst
              (λ t.
                decode_frame t ≡ err (truncated_frame (length t) (header_size + length f.payload)))
              (sym p) (cut_in_payload f ws v (shorter ws p)))
    ]
  where
    same : bytes ≡ header_of f ++ f.payload
    same = ok-inj _ _ (sym e ∙ encode-eq-header_of f v)

    at_least : ltb (length front) header_size ≡ false → 32 ≤ length front
    at_least h = ground arith

    shorter : (ws : List ℕ) → front ≡ header_of f ++ ws → length ws < length f.payload
    shorter ws p = omega (arith, ap length p, ap length same, short)
