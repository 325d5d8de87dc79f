-- ===== src/Transport.antt =====
-- python/src/brain_db_sdk/transport.py: whole frames over a byte stream. The socket is the list of
-- what its `recv` calls give; after the last one the peer has closed, and `recv` gives no bytes.
pub mod Reassembly
mod Runs
use brain_sdk.Prelude.{ℕ, zero, suc, ◌-◌, List, [], ◌∷◌, ◌++◌, length, drop, ◌==◌, if◌then◌else◌}
use brain_sdk.Wire.Frame.{Frame, FrameError, truncated_frame, decode_frame, encode_frame}
use brain_sdk.Wire.Frame

pub data Recv : Type 0 where
  chunk : List ℕ → Recv
  os_error : Recv

pub data ReadError : Type 0 where
  codec : FrameError → ReadError
  connection_closed : ReadError
  socket_error : ReadError

pub data Outcome {ℓ} (A : Type ℓ) : Type ℓ where
  ok : A → Outcome A
  raises : ReadError → Outcome A

-- The bytes that `write_frame` hands to `sendall`.
abbrev pub write_frame : Frame → Frame.Result (List ℕ)
write_frame f = encode_frame f.opcode f.stream_id f.flags f.payload

-- What the reader keeps between calls: its buffer, and what the socket still has.
pub record Stream : Type 0 where
  pub buf : List ℕ
  pub recvs : List Recv

pub data Decision : Type 0 where
  whole : Frame → List ℕ → Decision
  short : Decision
  fatal : FrameError → Decision

-- `try: decode_frame(bytes(buf))`, with its `except TruncatedFrame`.
pub decide : Frame.Result (Frame × List ℕ) → Decision
decide (Frame.ok (f, rest)) = whole f rest
decide (Frame.err (truncated_frame have need)) = short
decide (Frame.err e) = fatal e

-- One round of the loop: return the frame and drop its bytes, raise, or go on with `more`. The
-- buffer comes back beside an error too, since it is the caller's.
pub after_decode : List ℕ → List Recv → Decision → Outcome Frame × Stream → Outcome Frame × Stream
after_decode buf recvs (whole f rest) more =
    (ok f, record { buf = drop (length buf - length rest) buf; recvs = recvs })
after_decode buf recvs short more = more
after_decode buf recvs (fatal e) more = (raises (codec e), record { buf = buf; recvs = recvs })

pub read_loop : List ℕ → List Recv → Outcome Frame × Stream
unfolding after_decode decide
read_loop buf [] =
    after_decode buf [] (decide (decode_frame buf))
      (raises connection_closed, record { buf = buf; recvs = [] })
read_loop buf (chunk bytes ∷ recvs) =
    let more = read_loop (buf ++ bytes) recvs in
    let received =
      if length bytes == 0
      then (raises connection_closed, record { buf = buf; recvs = recvs })
      else more in
    after_decode buf (chunk bytes ∷ recvs) (decide (decode_frame buf)) received
read_loop buf (os_error ∷ recvs) =
    after_decode buf (os_error ∷ recvs) (decide (decode_frame buf))
      (raises socket_error, record { buf = buf; recvs = recvs })

pub read_frame : Stream → Outcome Frame × Stream
read_frame s = read_loop s.buf s.recvs

abbrev pub cons_ok : Frame → Outcome (List Frame) → Outcome (List Frame)
cons_ok f (ok fs) = ok (f ∷ fs)
cons_ok f (raises e) = raises e

-- One call, and then the rest of the calls unless it raised.
pub read_then :
    (Stream → Outcome (List Frame) × Stream)
    → Outcome Frame × Stream
    → Outcome (List Frame) × Stream
read_then rest (ok f, s) = let (fs, s') = rest s in (cons_ok f fs, s')
read_then rest (raises e, s) = (raises e, s)

-- `count` calls of `read_frame`, one after the other; the first error ends them.
pub read_frames : ℕ → Stream → Outcome (List Frame) × Stream
unfolding read_then
read_frames zero s = (ok [], s)
read_frames (suc count) s = read_then (read_frames count) (read_frame s)
