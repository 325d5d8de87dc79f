-- ===== src/Wire/Frame/Sound.antt =====
-- python/src/brain_db_sdk/wire/frame.py: the byte strings that the decoder accepts.
use brain_sdk.Prelude.{
  ℕ, zero, suc, append_assoc, ◌+◌, ◌^◌, ◌≤◌, ◌<◌, ◌≡◌, refl, sym, ap, ap₂, ◌∙◌, subst, Bool, true,
  false, not, ◌||◌, List, [], ◌∷◌, ◌++◌, arith, length, length-take, take, drop, slice, replicate,
  take-append-drop, drop-add, ltb, ==_iff, get_or, take-add, take_one-drop, take_all, All-take,
  All-drop, length-drop,
}
use brain_sdk.Prelude.Bytes.{
  IsBytes, IsByte, from_bytes, to_bytes, bytes_eq_iff, to_bytes-from_bytes_two,
  to_bytes-from_bytes_three, to_bytes-from_bytes_four, from_bytes-lt_two, from_bytes-lt_four,
}
use native.Mathlib.Nat.{add-sub_cancel_left}
use brain_sdk.Wire.Crc32c.{crc32c}
use brain_sdk.Wire.Frame.{
  Frame, FrameError, Result, ok, err, ◌>>=◌, ◌>>◌, raise_if, magic, wire_version, header_size,
  max_payload_bytes, undefined_flags, compute_header_crc, check_header, take_payload, decode_frame,
  encode_frame,
}
use brain_sdk.Wire.Frame.Layout.{
  header_of, header_crc, front_fields, back_fields, IsValid, encode-eq-header_of,
}

pub raise_if-ok {ℓ} :
    {B : Type ℓ} (b : Bool) (e : FrameError) (k : Result B) {v : B}
    → (raise_if b e >> k) ≡ ok v
    → (b ≡ false) × (k ≡ ok v)
raise_if-ok true e k h = cc
raise_if-ok false e k h = (refl, h)

>>=-ok {ℓ κ} :
    {A : Type ℓ} {B : Type κ} (m : Result A) (f : A → Result B) {v : B}
    → (m >>= f) ≡ ok v
    → (a : A) × (m ≡ ok a) × (f a ≡ ok v)
>>=-ok (ok a) f h = (a, refl, h)
>>=-ok (err e) f h = cc

get_or-lt : (i : ℕ) (bs : List ℕ) → IsBytes bs → get_or bs i 0 < 2 ^ 8
get_or-lt i [] h = omega arith
get_or-lt zero (b ∷ bs) h = h.0
get_or-lt (suc i) (b ∷ bs) h = get_or-lt i bs h.1

not-false : (b : Bool) → not b ≡ false → b ≡ true
not-false true h = refl
not-false false h = cc

or-false : (a b : Bool) → (a || b) ≡ false → (a ≡ false) × (b ≡ false)
or-false true b h = cc
or-false false b h = (refl, h)

pub ok-inj {ℓ} : {A : Type ℓ} (a b : A) → ok a ≡ ok b → a ≡ b
ok-inj a b h = cc

ltb→le : (a b : ℕ) → ltb a b ≡ false → b ≤ a
ltb→le a b h = ground arith

-- What a header that passed the checks satisfies.
pub record Passed (h : List ℕ) (n : ℕ) : Type 0 where
  pub magic_read : slice 0 4 h ≡ magic
  pub version_read : get_or h 4 0 ≡ wire_version
  pub reserved_a : get_or h 19 0 ≡ 0
  pub reserved_b : slice 24 32 h ≡ replicate 8 0
  pub flags_defined : undefined_flags (get_or h 7 0) ≡ 0
  pub crc_read : from_bytes (slice 8 12 h) ≡ compute_header_crc h
  pub length_read : from_bytes (slice 16 19 h) ≡ n
  pub length_fits : n ≤ max_payload_bytes

pub check_header-Passed : (h : List ℕ) (n : ℕ) → check_header h ≡ ok n → Passed h n
unfolding check_header
check_header-Passed h n e =
    let (m, e1) = raise_if-ok _ _ _ e in
    let (w, e2) = raise_if-ok _ _ _ e1 in
    let (r, e3) = raise_if-ok _ _ _ e2 in
    let (f, e4) = raise_if-ok _ _ _ e3 in
    let (c, e5) = raise_if-ok _ _ _ e4 in
    let (l, e6) = raise_if-ok _ _ _ e5 in
    let (ra, rb) = or-false _ _ r in
    record {
      magic_read = (bytes_eq_iff _ _).0 (not-false _ m);
      version_read = (==_iff _ _).0 (not-false _ w);
      reserved_a = (==_iff _ _).0 (not-false _ ra);
      reserved_b = (bytes_eq_iff _ _).0 (not-false _ rb);
      flags_defined = (==_iff _ _).0 (not-false _ f);
      crc_read = (==_iff _ _).0 (not-false _ c);
      length_read = ok-inj _ _ e6;
      length_fits = subst (λ t. t ≤ max_payload_bytes) (ok-inj _ _ e6) (ltb→le _ _ l);
    }

-- What a frame that was taken from behind a header satisfies.
pub record Taken (h buf : List ℕ) (n : ℕ) (f : Frame) (rest : List ℕ) : Type 0 where
  pub enough : header_size + n ≤ length buf
  pub payload_crc : from_bytes (slice 20 24 h) ≡ crc32c f.payload
  pub opcode_read : f.opcode ≡ from_bytes (slice 5 7 h)
  pub flags_read : f.flags ≡ get_or h 7 0
  pub stream_id_read : f.stream_id ≡ from_bytes (slice 12 16 h)
  pub payload_read : f.payload ≡ take n (drop 32 buf)
  pub rest_read : rest ≡ drop n (drop 32 buf)

pub take_payload-Taken :
    (h buf : List ℕ) (n : ℕ) (f : Frame) (rest : List ℕ)
    → take_payload h buf n ≡ ok (f, rest)
    → Taken h buf n f rest
unfolding take_payload
take_payload-Taken h buf n f rest e =
    let (l, e1) = raise_if-ok _ _ _ e in
    let (c, e2) = raise_if-ok _ _ _ e1 in
    let pair = ok-inj _ _ e2 in
    let fp = ap (λ p. p.0) pair in
    let cut = ap (λ k. take k (drop 32 buf)) (add-sub_cancel_left 32 n) in
    record {
      enough = ltb→le _ _ l;
      payload_crc = (==_iff _ _).0 (not-false _ c) ∙ ap (λ (g : Frame). crc32c g.payload) fp;
      opcode_read = sym (ap (λ (g : Frame). g.opcode) fp);
      flags_read = sym (ap (λ (g : Frame). g.flags) fp);
      stream_id_read = sym (ap (λ (g : Frame). g.stream_id) fp);
      payload_read = sym (ap (λ (g : Frame). g.payload) fp) ∙ cut;
      rest_read = sym (ap (λ p. p.1) pair) ∙ drop-add 32 n buf;
    }

-- The bytes of a header that passed are the layout of the frame that was taken.
module _ (h buf : List ℕ) (n : ℕ) (f : Frame) (rest : List ℕ) (size : length h ≡ 32)
    (bytes : IsBytes h) (p : Passed h n) (t : Taken h buf n f rest) where
  piece-IsBytes : (k i : ℕ) → IsBytes (take k (drop i h))
  piece-IsBytes k i = All-take IsByte k (drop i h) (All-drop IsByte i h bytes)

  length-piece : (k i : ℕ) → k + i ≤ 32 → length (take k (drop i h)) ≡ k
  length-piece k i fits = omega (arith, length-take k (drop i h), length-drop i h)

  field : (i : ℕ) → i < 32 → take 1 (drop i h) ≡ get_or h i 0 ∷ []
  field i fits = take_one-drop i h 0 (omega arith)

  length-payload : length f.payload ≡ n
  length-payload =
      ap length t.payload_read
      ∙ omega (arith, length-take n (drop 32 buf), length-drop 32 buf, t.enough)

  front_read : take 8 h ≡ front_fields f.opcode f.flags
  front_read =
      take-add 4 4 h
      ∙ ap₂ ◌++◌ p.magic_read (
          take-add 1 3 (drop 4 h)
          ∙ ap₂ ◌++◌ (field 4 (omega arith) ∙ ap (λ b. b ∷ []) p.version_read) (
              ap (take 3) (sym (drop-add 4 1 h))
              ∙ take-add 2 1 (drop 5 h)
              ∙ ap₂ ◌++◌
                  (sym (
                      to_bytes-from_bytes_two _ (length-piece 2 5 (omega arith))
                        (piece-IsBytes 2 5))
                    ∙ ap (to_bytes 2) (sym t.opcode_read))
                  (ap (take 1) (sym (drop-add 5 2 h))
                    ∙ field 7 (omega arith)
                    ∙ ap (λ b. b ∷ []) (sym t.flags_read))))

  back_read : drop 12 h ≡ back_fields f.stream_id f.payload
  back_read =
      sym (take_all 20 (drop 12 h) (omega (arith, length-drop 12 h)))
      ∙ take-add 4 16 (drop 12 h)
      ∙ ap₂ ◌++◌
          (sym (to_bytes-from_bytes_four _ (length-piece 4 12 (omega arith)) (piece-IsBytes 4 12))
            ∙ ap (to_bytes 4) (sym t.stream_id_read))
          (ap (take 16) (sym (drop-add 12 4 h))
            ∙ take-add 3 13 (drop 16 h)
            ∙ ap₂ ◌++◌
                (sym (
                    to_bytes-from_bytes_three _ (length-piece 3 16 (omega arith))
                      (piece-IsBytes 3 16))
                  ∙ ap (to_bytes 3) (p.length_read ∙ sym length-payload))
                (ap (take 13) (sym (drop-add 16 3 h))
                  ∙ take-add 1 12 (drop 19 h)
                  ∙ ap₂ ◌++◌ (field 19 (omega arith) ∙ ap (λ b. b ∷ []) p.reserved_a) (
                      ap (take 12) (sym (drop-add 19 1 h))
                      ∙ take-add 4 8 (drop 20 h)
                      ∙ ap₂ ◌++◌
                          (sym (
                              to_bytes-from_bytes_four _ (length-piece 4 20 (omega arith))
                                (piece-IsBytes 4 20))
                            ∙ ap (to_bytes 4) t.payload_crc)
                          (ap (take 8) (sym (drop-add 20 4 h)) ∙ p.reserved_b))))

  crc_field : take 4 (drop 8 h) ≡ to_bytes 4 (header_crc f)
  unfolding compute_header_crc
  crc_field =
      sym (to_bytes-from_bytes_four _ (length-piece 4 8 (omega arith)) (piece-IsBytes 4 8))
      ∙ ap (to_bytes 4) (p.crc_read ∙ ap₂ (λ a b. crc32c (a ++ take 20 b)) front_read back_read)

  header_read : h ≡ header_of f
  header_read =
      sym (take-append-drop 8 h)
      ∙ ap₂ ◌++◌ front_read (
          sym (take-append-drop 4 (drop 8 h))
          ∙ ap₂ ◌++◌ crc_field (sym (drop-add 8 4 h) ∙ back_read))

  fields_IsValid : IsBytes buf → IsValid f
  fields_IsValid whole = record {
    opcode_fits =
        rw t.opcode_read (from_bytes-lt_two _ (length-piece 2 5 (omega arith)) (piece-IsBytes 2 5));
    flags_fit = rw t.flags_read (get_or-lt 7 h bytes);
    flags_defined = rw t.flags_read p.flags_defined;
    stream_id_fits =
        rw t.stream_id_read
          (from_bytes-lt_four _ (length-piece 4 12 (omega arith)) (piece-IsBytes 4 12));
    payload_fits = rw length-payload p.length_fits;
    payload_bytes =
        subst IsBytes (sym t.payload_read) (All-take IsByte n _ (All-drop IsByte 32 buf whole));
  }

-- The two stages of an accepted decoding.
pub record Decoded (buf : List ℕ) (f : Frame) (rest : List ℕ) : Type 0 where
  pub header_here : 32 ≤ length buf
  pub payload_len : ℕ
  pub passed : Passed (take 32 buf) payload_len
  pub taken : Taken (take 32 buf) buf payload_len f rest

pub decode_frame-Decoded :
    (buf : List ℕ) (f : Frame) (rest : List ℕ)
    → decode_frame buf ≡ ok (f, rest)
    → Decoded buf f rest
unfolding decode_frame
decode_frame-Decoded buf f rest e =
    let (l, e1) = raise_if-ok _ _ _ e in
    let (n, c, e2) = >>=-ok (check_header (take 32 buf)) _ e1 in
    record {
      header_here = ltb→le _ _ l;
      payload_len = n;
      passed = check_header-Passed _ _ c;
      taken = take_payload-Taken _ buf n f rest e2;
    }

-- From a byte string the decoder accepts only encodings: if it returns a frame and the bytes left
-- over, then the frame's fields fit their places with no undefined flag set, the encoder turns the
-- frame into some bytes without an error, and the input is exactly those bytes and the rest.
pub decode_frame_sound :
    (buf : List ℕ) (f : Frame) (rest : List ℕ)
    → IsBytes buf
    → decode_frame buf ≡ ok (f, rest)
    → IsValid f
      × ((bytes : List ℕ) × (encode_frame f.opcode f.stream_id f.flags f.payload ≡ ok bytes)
          × (buf ≡ bytes ++ rest))
decode_frame_sound buf f rest hb e =
    (valid, (header_of f ++ f.payload, encode-eq-header_of f valid, whole))
  where
    d : Decoded buf f rest
    d = decode_frame-Decoded buf f rest e

    size : length (take 32 buf) ≡ 32
    size = omega (arith, length-take 32 buf, d.header_here)

    front : IsBytes (take 32 buf)
    front = All-take IsByte 32 buf hb

    valid : IsValid f
    valid = fields_IsValid (take 32 buf) buf d.payload_len f rest size front d.passed d.taken hb

    whole : buf ≡ header_of f ++ f.payload ++ rest
    whole =
        sym (take-append-drop 32 buf)
        ∙ ap₂ ◌++◌ (header_read (take 32 buf) buf d.payload_len f rest size front d.passed d.taken)
            (sym (take-append-drop d.payload_len (drop 32 buf))
              ∙ ap₂ ◌++◌ (sym d.taken.payload_read) (sym d.taken.rest_read))
        ∙ sym (append_assoc (header_of f) f.payload rest)
