-- ===== src/Mux/Sending.antt =====
-- python/src/brain_db_sdk/mux.py: what `_write` puts on the wire.
use brain_sdk.Prelude.{
  ℕ, ◌^◌, ◌≤◌, ◌<◌, ◌≡◌, refl, sym, ap, ◌∙◌, Bool, true, false, List, [], ◌∷◌, ◌++◌, append-nil,
  arith, ltb, leb, length, if◌then◌else◌,
}
use brain_sdk.Prelude.Bytes.{IsBytes}
use brain_sdk.Wire.Frame.{Frame, flag_eos, max_payload_bytes, encode_frame, decode_frame}
use brain_sdk.Wire.Frame
use brain_sdk.Wire.Frame.Layout.{IsValid}
use brain_sdk.Wire.Frame.RoundTrip.{decode_frame-encode_frame}
use brain_sdk.Wire.Frame.Sound.{raise_if-ok, ok-inj}
use brain_sdk.Errors.{protocol_error, os_error}
use brain_sdk.Mux.{MuxConnection, Answer, ok, raises, send_bytes, write}

abbrev pub request_frame : ℕ → ℕ → List ℕ → Frame
request_frame opcode s payload = record {
  opcode = opcode;
  flags = flag_eos;
  stream_id = s;
  payload = payload;
}

encoded-IsValid :
    (opcode s : ℕ) (payload bytes : List ℕ)
    → IsBytes payload
    → encode_frame opcode s flag_eos payload ≡ Frame.ok bytes
    → IsValid (request_frame opcode s payload)
unfolding encode_frame
encoded-IsValid opcode s payload bytes b e =
    let (l, e1) = raise_if-ok _ _ _ e in
    let (o, e2) = raise_if-ok _ _ _ e1 in
    let (i, e3) = raise_if-ok (leb (2 ^ 32) s) Frame.overflow_error _ e2 in
    record {
      opcode_fits = below opcode (2 ^ 16) o;
      flags_fit = omega arith;
      flags_defined = refl;
      stream_id_fits = below s (2 ^ 32) i;
      payload_fits = at_most (length payload) max_payload_bytes l;
      payload_bytes = b;
    }
  where
    below : (n limit : ℕ) → leb limit n ≡ false → n < limit
    below n limit h = ground arith

    at_most : (n limit : ℕ) → ltb limit n ≡ false → n ≤ limit
    at_most n limit h = ground arith

abbrev answer_if : Bool → MuxConnection → MuxConnection → Answer (Unit {0}) × MuxConnection
answer_if alive m m' = if alive then (ok tt, m') else (raises os_error, m)

-- What a write that returned has done.
abbrev pub Sent : ℕ → ℕ → List ℕ → MuxConnection → MuxConnection → Type 0
Sent opcode s payload m m' =
    (bytes : List ℕ) × (m'.sent ≡ m.sent ++ (bytes ∷ []))
    × (decode_frame bytes ≡ Frame.ok (request_frame opcode s payload, []))

decoded_whole :
    (opcode s : ℕ) (payload bytes : List ℕ)
    → IsBytes payload
    → encode_frame opcode s flag_eos payload ≡ Frame.ok bytes
    → decode_frame bytes ≡ Frame.ok (request_frame opcode s payload, [])
decoded_whole opcode s payload bytes b e =
    let (bytes', e', d) =
      decode_frame-encode_frame (request_frame opcode s payload) []
        (encoded-IsValid opcode s payload bytes b e) in
    ap decode_frame (sym (append-nil bytes) ∙ ap (λ t. t ++ []) (ok-inj bytes bytes' (sym e ∙ e')))
    ∙ d

sent_if :
    (opcode s : ℕ) (payload bytes : List ℕ) (m m' : MuxConnection) (alive : Bool)
    → m'.sent ≡ m.sent ++ (bytes ∷ [])
    → decode_frame bytes ≡ Frame.ok (request_frame opcode s payload, [])
    → (answer_if alive m m').0 ≡ ok tt
    → Sent opcode s payload m (answer_if alive m m').1
sent_if opcode s payload bytes m m' true e d h = (bytes, e, d)
sent_if opcode s payload bytes m m' false e d h = cc

send_bytes-Sent :
    (opcode s : ℕ) (payload : List ℕ) (r : Frame.Result (List ℕ)) (m : MuxConnection)
    → ((bytes : List ℕ)
        → r ≡ Frame.ok bytes
        → decode_frame bytes ≡ Frame.ok (request_frame opcode s payload, []))
    → (send_bytes r m).0 ≡ ok tt
    → Sent opcode s payload m (send_bytes r m).1
send_bytes-Sent opcode s payload (Frame.err e) m d h = cc
send_bytes-Sent opcode s payload (Frame.ok bytes) m d h =
    sent_if opcode s payload bytes m _ m.socket_open refl (d bytes refl) h

-- If `_write` returns, then the payload is within the connection's limit, and exactly one byte
-- string more was sent, from which the codec reads one whole frame, with the opcode, the stream
-- and the payload that were given and the EOS flag. The payload is a byte string.
pub write-Sent :
    (opcode s : ℕ) (payload : List ℕ) (m : MuxConnection)
    → IsBytes payload
    → (write opcode s payload m).0 ≡ ok tt
    → (length payload ≤ m.max_payload_size) × Sent opcode s payload m (write opcode s payload m).1
unfolding write
write-Sent opcode s payload m b h = within (ltb m.max_payload_size (length payload)) refl h
  where
    at_most : ltb m.max_payload_size (length payload) ≡ false → length payload ≤ m.max_payload_size
    at_most e = ground arith

    sending : Answer (Unit {0}) × MuxConnection
    sending = send_bytes (encode_frame opcode s flag_eos payload) m

    within :
        (over : Bool)
        → ltb m.max_payload_size (length payload) ≡ over
        → (if over then (raises protocol_error, m) else sending).0 ≡ ok tt
        → (length payload ≤ m.max_payload_size)
          × Sent opcode s payload m (if over then (raises protocol_error, m) else sending).1
    within true e h = cc
    within false e h = (
      at_most e,
      send_bytes-Sent opcode s payload (encode_frame opcode s flag_eos payload) m
          (λ bytes. decoded_whole opcode s payload bytes b) h,
    )
