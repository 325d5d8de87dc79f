-- ===== src/Transport/Runs.antt =====
-- The reader at concrete scripts of the socket.
use brain_sdk.Prelude.{◌≡◌, refl, sym, ap, ◌∙◌, [], ◌∷◌, ◌++◌, arith, take, drop}
use brain_sdk.Wire.Frame.Runs.{request_frame, request_frame-IsValid, request_bytes, request_encoded}
use brain_sdk.Wire.Frame.Layout.{encode-eq-header_of}
use brain_sdk.Wire.Frame.Sound.{ok-inj}
use brain_sdk.Transport.{chunk, ok, raises, connection_closed, Stream, read_frame, read_frames}
use brain_sdk.Transport.Reassembly.{pending, encoding, read_frames-encodings, read_frame_cut}

request_whole : request_bytes ≡ encoding request_frame
request_whole =
    ok-inj _ _ (sym request_encoded ∙ encode-eq-header_of request_frame request_frame-IsValid)

-- Two frames in three chunks: the first chunk ends in the first frame's header, and the third
-- starts in the second frame.
abbrev two_requests : Stream
two_requests = record {
  buf = take 5 request_bytes;
  recvs =
      chunk (take 20 (drop 5 request_bytes))
      ∷ chunk (drop 25 request_bytes ++ take 10 request_bytes)
      ∷ chunk (drop 10 request_bytes)
      ∷ [];
}

two_requests-pending : pending two_requests ≡ request_bytes ++ (request_bytes ++ [])
two_requests-pending = refl

read_frames-encodings_example :
    (s' : Stream) × (read_frames 2 two_requests ≡ (ok (request_frame ∷ request_frame ∷ []), s'))
    × (pending s' ≡ [])
read_frames-encodings_example =
    read_frames-encodings (request_frame ∷ request_frame ∷ []) two_requests
      (request_frame-IsValid, (request_frame-IsValid, tt)) (omega arith)
      (ap (λ t. t ++ (t ++ [])) request_whole)

-- The peer is gone after 25 bytes.
abbrev cut_request : Stream
cut_request = record { buf = []; recvs = chunk (take 25 request_bytes) ∷ [] }

read_frame_cut_example : (read_frame cut_request).0 ≡ raises connection_closed
read_frame_cut_example =
    read_frame_cut request_frame cut_request (drop 25 request_bytes) request_frame-IsValid
      (omega arith) (sym request_whole) (omega arith)
