-- ===== src/Transport/Reassembly.antt =====
-- python/src/brain_db_sdk/transport.py: reading frames from a stream that is cut into chunks.
use brain_sdk.Prelude.{
  ℕ, suc, ◌-◌, ◌≤◌, ◌<◌, ◌≡◌, refl, sym, ap, ◌∙◌, subst, List, [], ◌∷◌, ◌++◌, append-nil,
  append_assoc, arith, length, length-append, drop, drop-append_of, split_prefix, All, false, ◌==◌,
}
use native.Mathlib.Decide.{dec_lt}
use brain_sdk.Wire.Frame.{Frame, decode_frame}
use brain_sdk.Wire.Frame.Layout.{header_of, IsValid, encode-eq-header_of}
use brain_sdk.Wire.Frame.RoundTrip.{decode_frame-header_of}
use brain_sdk.Wire.Frame.Truncated.{decode_frame_truncated}
use brain_sdk.Transport.{
  whole, short, decide, Recv, chunk, os_error, ok, raises, connection_closed, Stream, read_loop,
  read_frame, read_frames, read_then, cons_ok,
}

abbrev pub encoding : Frame → List ℕ
encoding f = header_of f ++ f.payload

abbrev pub encodings : List Frame → List ℕ
encodings [] = []
encodings (f ∷ fs) = encoding f ++ encodings fs

-- A script that delivers bytes only: no empty chunk, which is the end of the stream, and no error.
abbrev pub Delivers : List Recv → Type 0
Delivers [] = Unit
Delivers (chunk bytes ∷ recvs) = (0 < length bytes) × Delivers recvs
Delivers (os_error ∷ recvs) = ⊥

abbrev pub delivered : List Recv → List ℕ
delivered [] = []
delivered (chunk bytes ∷ recvs) = bytes ++ delivered recvs
delivered (os_error ∷ recvs) = delivered recvs

-- All that a stream will give: what is buffered, then what will be received.
abbrev pub pending : Stream → List ℕ
pending s = s.buf ++ delivered s.recvs

decide-whole :
    (f : Frame) (ws buf : List ℕ)
    → IsValid f
    → buf ≡ encoding f ++ ws
    → decide (decode_frame buf) ≡ whole f ws
unfolding decide
decide-whole f ws buf v e =
    ap (λ b. decide (decode_frame b)) (e ∙ append_assoc (header_of f) f.payload ws)
    ∙ ap decide (decode_frame-header_of f ws v)

drop-whole :
    (f : Frame) (ws buf : List ℕ) → buf ≡ encoding f ++ ws → drop (length buf - length ws) buf ≡ ws
drop-whole f ws buf e =
    ap (λ b. drop (length b - length ws) b) e
    ∙ drop-append_of (length (encoding f ++ ws) - length ws) (encoding f) ws
        (omega (arith, length-append (encoding f) ws))

-- A call that finds the frame in its buffer.
read_buffered :
    (f : Frame) (ws buf : List ℕ) (recvs : List Recv)
    → IsValid f
    → buf ≡ encoding f ++ ws
    → read_loop buf recvs ≡ (ok f, record { buf = ws; recvs = recvs })
unfolding read_loop
read_buffered f ws buf [] v e = rw (decide-whole f ws buf v e, drop-whole f ws buf e)
read_buffered f ws buf (chunk bytes ∷ recvs) v e =
    rw (decide-whole f ws buf v e, drop-whole f ws buf e)
read_buffered f ws buf (os_error ∷ recvs) v e =
    rw (decide-whole f ws buf v e, drop-whole f ws buf e)

decide-short :
    (f : Frame) (front back : List ℕ)
    → IsValid f
    → encoding f ≡ front ++ back
    → length front < length (encoding f)
    → decide (decode_frame front) ≡ short
unfolding decide
decide-short f front back v e h =
    ap decide (decode_frame_truncated f (encoding f) front back v (encode-eq-header_of f v) e h)

-- A call that needs more bytes takes the next chunk.
read_more :
    (f : Frame) (front back bytes : List ℕ) (recvs : List Recv)
    → IsValid f
    → encoding f ≡ front ++ back
    → length front < length (encoding f)
    → 0 < length bytes
    → read_loop front (chunk bytes ∷ recvs) ≡ read_loop (front ++ bytes) recvs
unfolding read_loop
read_more f front back [] recvs v e h pos = absurd (omega arith)
read_more f front back (b ∷ bytes) recvs v e h pos =
    rw (decide-short f front back v e h, nonzero (length bytes))
  where
    nonzero : (n : ℕ) → (suc n == 0) ≡ false
    nonzero n = ground arith

-- The reader returns the frame, and what is pending afterwards is what follows the frame.
abbrev Returns : Frame → List ℕ → List ℕ → List Recv → Type 0
Returns f tail buf recvs =
    (s : Stream) × (read_loop buf recvs ≡ (ok f, s)) × Delivers s.recvs × (pending s ≡ tail)

buffered :
    (f : Frame) (tail buf : List ℕ) (recvs : List Recv)
    → IsValid f
    → Delivers recvs
    → buf ++ delivered recvs ≡ encoding f ++ tail
    → length (encoding f) ≤ length buf
    → Returns f tail buf recvs
buffered f tail buf recvs v d e h =
    let (ws, p, q) = split_prefix (encoding f) tail buf (delivered recvs) (sym e) h in
    (record { buf = ws; recvs = recvs }, read_buffered f ws buf recvs v p, d, sym q)

pub read_loop-encoding :
    (f : Frame) (tail buf : List ℕ) (recvs : List Recv)
    → IsValid f
    → Delivers recvs
    → buf ++ delivered recvs ≡ encoding f ++ tail
    → Returns f tail buf recvs
read_loop-encoding f tail buf [] v d e =
    buffered f tail buf [] v d e
      (omega (arith, ap length e, length-append buf [], length-append (encoding f) tail))
read_loop-encoding f tail buf (os_error ∷ recvs) v d e = absurd d
read_loop-encoding f tail buf (chunk bytes ∷ recvs) v d e =
    elim (dec_lt (length buf) (length (encoding f))) [
      | no h ↦ buffered f tail buf (chunk bytes ∷ recvs) v d e (omega arith)
      | yes h ↦
          let (ws, p, q) =
            split_prefix buf (bytes ++ delivered recvs) (encoding f) tail e (omega arith) in
          let (s, r, d', rest) =
            read_loop-encoding f tail (buf ++ bytes) recvs v d.1
              (append_assoc buf bytes (delivered recvs) ∙ e) in
          (s, read_more f buf ws bytes recvs v p h d.0 ∙ r, d', rest)
    ]

-- If a stream has pending exactly the encodings of some frames, whose fields fit, however they are
-- cut into non-empty chunks and whatever part is buffered already, then as many calls of
-- `read_frame` return those frames in order, and leave nothing pending.
pub read_frames-encodings :
    (fs : List Frame) (s : Stream)
    → All IsValid fs
    → Delivers s.recvs
    → pending s ≡ encodings fs
    → (s' : Stream) × (read_frames (length fs) s ≡ (ok fs, s')) × (pending s' ≡ [])
unfolding read_frames read_frame
read_frames-encodings [] s v d e = (s, refl, e)
read_frames-encodings (f ∷ fs) s v d e =
    let (s1, r1, d1, p1) = read_loop-encoding f (encodings fs) s.buf s.recvs v.0 d e in
    let (s2, r2, p2) = read_frames-encodings fs s1 v.1 d1 p1 in
    (s2, ap (read_then (read_frames (length fs))) r1 ∙ ap (λ r. (cons_ok f r.0, r.1)) r2, p2)

read_loop_cut :
    (f : Frame) (back buf : List ℕ) (recvs : List Recv)
    → IsValid f
    → Delivers recvs
    → encoding f ≡ (buf ++ delivered recvs) ++ back
    → length (buf ++ delivered recvs) < length (encoding f)
    → (read_loop buf recvs).0 ≡ raises connection_closed
unfolding read_loop
read_loop_cut f back buf [] v d e h = rw (
    decide-short f buf back v (e ∙ ap (λ t. t ++ back) (append-nil buf))
      (omega (arith, length-append buf [])))
read_loop_cut f back buf (os_error ∷ recvs) v d e h = absurd d
read_loop_cut f back buf (chunk bytes ∷ recvs) v d e h =
    ap (λ r. r.0)
      (read_more f buf ((bytes ++ delivered recvs) ++ back) bytes recvs v
        (e ∙ append_assoc buf (bytes ++ delivered recvs) back)
        (omega (
          arith,
          length-append buf (bytes ++ delivered recvs),
          length-append bytes (delivered recvs),
          d.0,
        ))
        d.0)
    ∙ read_loop_cut f back (buf ++ bytes) recvs v d.1 (e ∙ ap (λ t. t ++ back) (sym joined))
        (subst (λ t. length t < length (encoding f)) (sym joined) h)
  where
    joined : (buf ++ bytes) ++ delivered recvs ≡ buf ++ (bytes ++ delivered recvs)
    joined = append_assoc buf bytes (delivered recvs)

-- If the peer closes the connection when, in non-empty chunks, only a proper prefix of a frame has
-- been sent, be it nothing, the call raises `ConnectionClosed`. The fields of the frame fit their
-- places with no undefined flag set.
pub read_frame_cut :
    (f : Frame) (s : Stream) (back : List ℕ)
    → IsValid f
    → Delivers s.recvs
    → encoding f ≡ pending s ++ back
    → length (pending s) < length (encoding f)
    → (read_frame s).0 ≡ raises connection_closed
unfolding read_frame
read_frame_cut f s back v d e h = read_loop_cut f back s.buf s.recvs v d e h
