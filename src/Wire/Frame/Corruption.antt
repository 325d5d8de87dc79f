-- ===== src/Wire/Frame/Corruption.antt =====
-- python/src/brain_db_sdk/wire/frame.py: decoding a frame with a byte changed.
use brain_sdk.Prelude.{
  ℕ, ◌≤◌, ◌≡◌, ◌≢◌, refl, sym, ap, ap₂, ◌∙◌, subst, List, [], ◌∷◌, ◌++◌, append_assoc, arith,
  length, length-append, take, drop, take-append_of, drop-append_of, split_append,
  split_append_right, take_all, All-append, All-append_left, All-append_right,
}
use brain_sdk.Prelude.Bytes.{
  IsByte, IsBytes, from_bytes, to_bytes, to_bytes-IsBytes, to_bytes-from_bytes_four,
  from_bytes-to_bytes_three, from_bytes-to_bytes_four,
}
use native.Mathlib.Decide.{dec_lt}
use brain_sdk.Wire.Crc32c.{crc32c}
use brain_sdk.Wire.Crc32c.Reference.{crc32c-lt}
use brain_sdk.Wire.Crc32c.Detect.{crc32c_detects_window}
use brain_sdk.Wire.Frame.{Frame, ok, compute_header_crc, decode_frame, encode_frame}
use brain_sdk.Wire.Frame.Layout.{
  header_of, header_crc, front_fields, back_fields, IsValid, encode-eq-header_of,
  front_fields-IsBytes, back_fields-IsBytes, header_crc-lt,
}
use brain_sdk.Wire.Frame.Sound.{Decoded, decode_frame-Decoded, ok-inj}

-- What an accepted input shows of the three parts of its header.
header_crc_matches :
    (p c q r : List ℕ) (g : Frame) (rest : List ℕ)
    → length p ≡ 8
    → length c ≡ 4
    → length q ≡ 20
    → Decoded (p ++ (c ++ (q ++ r))) g rest
    → from_bytes c ≡ crc32c (p ++ q)
unfolding compute_header_crc
header_crc_matches p c q r g rest lp lc lq d =
    ap from_bytes (sym crc_part)
    ∙ d.passed.crc_read
    ∙ ap₂ (λ x y. crc32c (x ++ take 20 y)) front_part back_part
    ∙ ap (λ y. crc32c (p ++ y)) (take_all 20 q (omega arith))
  where
    buf : List ℕ
    buf = p ++ (c ++ (q ++ r))

    header : take 32 buf ≡ p ++ (c ++ q)
    header =
        ap (take 32) (ap (λ t. p ++ t) (sym (append_assoc c q r)) ∙ sym (append_assoc p (c ++ q) r))
        ∙ take-append_of 32 (p ++ (c ++ q)) r
            (omega (arith, length-append p (c ++ q), length-append c q))

    front_part : take 8 (take 32 buf) ≡ p
    front_part = ap (take 8) header ∙ take-append_of 8 p (c ++ q) lp

    tail_part : drop 8 (take 32 buf) ≡ c ++ q
    tail_part = ap (drop 8) header ∙ drop-append_of 8 p (c ++ q) lp

    crc_part : take 4 (drop 8 (take 32 buf)) ≡ c
    crc_part = ap (take 4) tail_part ∙ take-append_of 4 c q lc

    back_part : drop 12 (take 32 buf) ≡ q
    back_part =
        ap (drop 12) (header ∙ sym (append_assoc p c q))
        ∙ drop-append_of 12 (p ++ c) q (omega (arith, length-append p c))

-- One byte changed, anywhere in a byte string, changes the checksum.
pub crc32c_detects_byte :
    (xs ys : List ℕ) (a b : ℕ)
    → IsBytes (xs ++ (a ∷ ys))
    → IsByte b
    → b ≢ a
    → crc32c (xs ++ (a ∷ ys)) ≢ crc32c (xs ++ (b ∷ ys))
crc32c_detects_byte xs ys a b h hb ne =
    crc32c_detects_window xs (a ∷ []) (b ∷ []) ys (All-append_left IsByte xs (a ∷ ys) h)
      (at_a.0, tt) (hb, tt) at_a.1 refl (omega arith) (λ e. ne (cc))
  where
    at_a : IsBytes (a ∷ ys)
    at_a = All-append_right IsByte xs (a ∷ ys) h

rejoin : (b : ℕ) (us ws ys zs : List ℕ) → ys ≡ ws ++ zs → us ++ (b ∷ ys) ≡ (us ++ (b ∷ ws)) ++ zs
rejoin b us ws ys zs q = ap (λ t. us ++ (b ∷ t)) q ∙ sym (append_assoc us (b ∷ ws) zs)

regroup : (b : ℕ) (us ps ws ys : List ℕ) → us ≡ ps ++ ws → us ++ (b ∷ ys) ≡ ps ++ (ws ++ (b ∷ ys))
regroup b us ps ws ys q = ap (λ t. t ++ (b ∷ ys)) q ∙ append_assoc ps ws (b ∷ ys)

module _ (f : Frame) (v : IsValid f) (a b : ℕ) (hb : IsByte b) (ne : b ≢ a) where
  abbrev front : List ℕ
  front = front_fields f.opcode f.flags

  abbrev crc : List ℕ
  crc = to_bytes 4 (header_crc f)

  abbrev back : List ℕ
  back = back_fields f.stream_id f.payload

  covered : IsBytes (front ++ back)
  covered = All-append IsByte front back (front_fields-IsBytes f v) (back_fields-IsBytes f)

  stored : from_bytes crc ≡ crc32c (front ++ back)
  stored = from_bytes-to_bytes_four (header_crc f) (header_crc-lt f v)

  in_front :
      (xs ws : List ℕ) (g : Frame) (rest : List ℕ)
      → front ≡ xs ++ (a ∷ ws)
      → ¬ Decoded ((xs ++ (b ∷ ws)) ++ (crc ++ (back ++ f.payload))) g rest
  in_front xs ws g rest e d =
      crc32c_detects_byte xs (ws ++ back) a b (subst IsBytes shape covered) hb ne (
        ap crc32c (sym shape)
        ∙ sym stored
        ∙ header_crc_matches (xs ++ (b ∷ ws)) crc back f.payload g rest size refl refl d
        ∙ ap crc32c (append_assoc xs (b ∷ ws) back))
    where
      shape : front ++ back ≡ xs ++ (a ∷ (ws ++ back))
      shape = ap (λ t. t ++ back) e ∙ append_assoc xs (a ∷ ws) back

      size : length (xs ++ (b ∷ ws)) ≡ 8
      size = omega (arith, ap length e, length-append xs (a ∷ ws), length-append xs (b ∷ ws))

  in_crc :
      (xs ws : List ℕ) (g : Frame) (rest : List ℕ)
      → crc ≡ xs ++ (a ∷ ws)
      → ¬ Decoded (front ++ ((xs ++ (b ∷ ws)) ++ (back ++ f.payload))) g rest
  in_crc xs ws g rest e d = ne (same_byte xs b a ws (changed_back ∙ e))
    where
      size : length (xs ++ (b ∷ ws)) ≡ 4
      size = omega (arith, ap length e, length-append xs (a ∷ ws), length-append xs (b ∷ ws))

      parts : IsBytes (xs ++ (a ∷ ws))
      parts = subst IsBytes e (to_bytes-IsBytes 4 (header_crc f))

      changed : IsBytes (xs ++ (b ∷ ws))
      changed =
          All-append IsByte xs (b ∷ ws) (All-append_left IsByte xs (a ∷ ws) parts)
            (hb, (All-append_right IsByte xs (a ∷ ws) parts).1)

      changed_back : xs ++ (b ∷ ws) ≡ crc
      changed_back =
          sym (to_bytes-from_bytes_four (xs ++ (b ∷ ws)) size changed)
          ∙ ap (to_bytes 4)
              (header_crc_matches front (xs ++ (b ∷ ws)) back f.payload g rest refl size refl d)

      same_byte : (xs : List ℕ) (x y : ℕ) (ws : List ℕ) → xs ++ (x ∷ ws) ≡ xs ++ (y ∷ ws) → x ≡ y
      same_byte [] x y ws p = cc
      same_byte (z ∷ zs) x y ws p = same_byte zs x y ws (cc)

  in_back :
      (xs ws : List ℕ) (g : Frame) (rest : List ℕ)
      → back ≡ xs ++ (a ∷ ws)
      → ¬ Decoded (front ++ (crc ++ ((xs ++ (b ∷ ws)) ++ f.payload))) g rest
  in_back xs ws g rest e d =
      crc32c_detects_byte (front ++ xs) ws a b (subst IsBytes shape covered) hb ne (
        ap crc32c (sym shape)
        ∙ sym stored
        ∙ header_crc_matches front crc (xs ++ (b ∷ ws)) f.payload g rest refl refl size d
        ∙ ap crc32c (sym (append_assoc front xs (b ∷ ws))))
    where
      shape : front ++ back ≡ (front ++ xs) ++ (a ∷ ws)
      shape = ap (λ t. front ++ t) e ∙ sym (append_assoc front xs (a ∷ ws))

      size : length (xs ++ (b ∷ ws)) ≡ 20
      size = omega (arith, ap length e, length-append xs (a ∷ ws), length-append xs (b ∷ ws))

  in_payload :
      (xs ws : List ℕ) (g : Frame) (rest : List ℕ)
      → f.payload ≡ xs ++ (a ∷ ws)
      → ¬ Decoded (header_of f ++ (xs ++ (b ∷ ws))) g rest
  in_payload xs ws g rest e d =
      crc32c_detects_byte xs ws a b (subst IsBytes e v.payload_bytes) hb ne (
        ap crc32c (sym e)
        ∙ sym (from_bytes-to_bytes_four (crc32c f.payload) (crc32c-lt f.payload v.payload_bytes))
        ∙ d.taken.payload_crc
        ∙ ap crc32c (d.taken.payload_read ∙ take_all d.payload_len (xs ++ (b ∷ ws)) fits))
    where
      announced : length f.payload ≡ d.payload_len
      announced =
          sym (from_bytes-to_bytes_three (length f.payload) (omega (arith, v.payload_fits)))
          ∙ d.passed.length_read

      fits : length (xs ++ (b ∷ ws)) ≤ d.payload_len
      fits =
          omega
            (arith, announced, ap length e, length-append xs (a ∷ ws), length-append xs (b ∷ ws))

  -- The place of the changed byte, counted from each part of the frame in turn.
  -- The place of the changed byte, counted from each part of the frame in turn.
  from_back :
      (us ys : List ℕ) (g : Frame) (rest : List ℕ)
      → back ++ f.payload ≡ us ++ (a ∷ ys)
      → ¬ Decoded (front ++ (crc ++ (us ++ (b ∷ ys)))) g rest
  from_back us ys g rest e d = elim (dec_lt (length us) 20) [
    | yes h ↦
        let (ws, p, q) = split_append back f.payload us a ys e h in
        in_back us ws g rest p
          (subst (λ t. Decoded (front ++ (crc ++ t)) g rest) (rejoin b us ws ys f.payload q) d)
    | no h ↦
        let (ws, p, q) = split_append_right back f.payload us a ys e (omega arith) in
        in_payload ws ys g rest q
          (subst (λ t. Decoded (front ++ (crc ++ t)) g rest) (regroup b us back ws ys p) d)
  ]

  from_crc :
      (us ys : List ℕ) (g : Frame) (rest : List ℕ)
      → crc ++ (back ++ f.payload) ≡ us ++ (a ∷ ys)
      → ¬ Decoded (front ++ (us ++ (b ∷ ys))) g rest
  from_crc us ys g rest e d = elim (dec_lt (length us) 4) [
    | yes h ↦
        let (ws, p, q) = split_append crc (back ++ f.payload) us a ys e h in
        in_crc us ws g rest p
          (subst (λ t. Decoded (front ++ t) g rest) (rejoin b us ws ys (back ++ f.payload) q) d)
    | no h ↦
        let (ws, p, q) = split_append_right crc (back ++ f.payload) us a ys e (omega arith) in
        from_back ws ys g rest q
          (subst (λ t. Decoded (front ++ t) g rest) (regroup b us crc ws ys p) d)
  ]

  from_front :
      (us ys : List ℕ) (g : Frame) (rest : List ℕ)
      → front ++ (crc ++ (back ++ f.payload)) ≡ us ++ (a ∷ ys)
      → ¬ Decoded (us ++ (b ∷ ys)) g rest
  from_front us ys g rest e d = elim (dec_lt (length us) 8) [
    | yes h ↦
        let (ws, p, q) = split_append front (crc ++ (back ++ f.payload)) us a ys e h in
        in_front us ws g rest p
          (subst (λ t. Decoded t g rest) (rejoin b us ws ys (crc ++ (back ++ f.payload)) q) d)
    | no h ↦
        let (ws, p, q) =
          split_append_right front (crc ++ (back ++ f.payload)) us a ys e (omega arith) in
        from_crc ws ys g rest q (subst (λ t. Decoded t g rest) (regroup b us front ws ys p) d)
  ]

-- If one byte of the encoding of a frame, whose fields fit their places with no undefined flag
-- set, is replaced by another byte, in the header, in a checksum or in the payload, the decoder
-- accepts the result as no frame at all.
pub decode_frame_rejects_corruption :
    (f : Frame) (xs ys : List ℕ) (a b : ℕ)
    → IsValid f
    → encode_frame f.opcode f.stream_id f.flags f.payload ≡ ok (xs ++ (a ∷ ys))
    → IsByte b
    → b ≢ a
    → (g : Frame) (rest : List ℕ) → decode_frame (xs ++ (b ∷ ys)) ≢ ok (g, rest)
decode_frame_rejects_corruption f xs ys a b v e hb ne g rest d =
    from_front f v a b hb ne xs ys g rest
      (ok-inj (header_of f ++ f.payload) (xs ++ (a ∷ ys)) (sym (encode-eq-header_of f v) ∙ e))
      (decode_frame-Decoded (xs ++ (b ∷ ys)) g rest d)
