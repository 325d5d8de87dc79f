-- ===== src/Mux/Runs.antt =====
-- A connection at concrete events.
use brain_sdk.Prelude.{
  ◌≤◌, ℕ, ◌≡◌, ◌≢◌, ◌<◌, ◌%◌, ◌^◌, refl, none, some, List, [], ◌∷◌, true, false, arith,
}
use brain_sdk.Mux.Sending.{Sent, write-Sent}
use brain_sdk.Wire.Crc32c.{
  shift_step, shift_steps, build_entries, build_table, update, crc_loop, crc32c,
}
use brain_sdk.Wire.Frame.{Frame, encode_frame, unsigned_header, compute_header_crc}
use brain_sdk.Wire.Frame.Runs.{request_encoded}
use brain_sdk.Mux.{
  init, PayloadCodec, Event, receives, registers, ok, request, take_stream_id, get_route, write,
  register, deregister, dispatch, step,
}
use brain_sdk.Mux.Invariant.{IsSound, init-IsSound, request-IsSound}
use brain_sdk.Mux.StreamIds.{after_ids, take_stream_id-nth, take_stream_id-fresh}
use brain_sdk.Mux.Delivery.{request-reply}
use brain_sdk.Mux.Handshake.{
  Welcome, handshake, handshake-agreed, is_offered, payload_limit, next, expect,
}
use brain_sdk.Mux.Subscribe.{Subscription, subscribe, EndsAt, is_last, sub_next, sub_next-EndsAt}

-- No payload is an error's, and a pong has none.
abbrev plain : PayloadCodec
plain = record { error_response = λ _. none; pong_payload = λ _. [] }

-- The response is on stream 1; a frame for another stream and a new request come before it.
abbrev response : Frame
response = record { opcode = 0xa0; flags = 0x80; stream_id = 1; payload = [] }

abbrev traffic : List Event
traffic =
    receives (record { opcode = 0xa1; flags = 0x80; stream_id = 3; payload = [] })
    ∷ registers 5
    ∷ receives response
    ∷ []

request-reply_example : (request plain 0x20 (0xa0 ∷ []) init traffic).0 ≡ ok (response ∷ [])
request-reply_example =
    request-reply plain 0x20 (0xa0 ∷ []) _ init traffic init-IsSound refl (omega arith) refl
      request_encoded ((λ e. absurd (omega (arith, e))), tt)

request-IsSound_example :
    IsSound (request plain 0x20 (0xa0 ∷ []) init traffic).1
    × (get_route 1 (request plain 0x20 (0xa0 ∷ []) init traffic).1.routes ≡ none)
request-IsSound_example = request-IsSound plain 0x20 (0xa0 ∷ []) init traffic init-IsSound

written : (write 0x20 1 (0xa0 ∷ []) init).0 ≡ ok tt
unfolding write encode_frame
written = refl

take_stream_id-nth_example : (take_stream_id (after_ids 5 init)).0 ≡ 11
take_stream_id-nth_example = take_stream_id-nth 5

take_stream_id-fresh_example :
    ((take_stream_id (after_ids 5 init)).0 % 2 ≡ 1)
    × ((take_stream_id (after_ids 5 init)).0 < 2 ^ 32)
    × ((take_stream_id (after_ids 5 init)).0 ≢ (take_stream_id (after_ids 9 init)).0)
take_stream_id-fresh_example = take_stream_id-fresh 5 9 (omega arith) (omega arith)

write-Sent_example :
    (1 ≤ init.max_payload_size) × Sent 0x20 1 (0xa0 ∷ []) init (write 0x20 1 (0xa0 ∷ []) init).1
write-Sent_example = write-Sent 0x20 1 (0xa0 ∷ []) init (omega arith) written

abbrev welcome : Welcome
welcome = record { chosen_version = 1; max_payload_size = 0 }

abbrev greetings : List Event
greetings =
    receives (record { opcode = 0x81; flags = 0x80; stream_id = 0; payload = [] })
    ∷ receives (record { opcode = 0x82; flags = 0x80; stream_id = 0; payload = [] })
    ∷ []

greeted :
    (handshake {AuthOk = ℕ} plain (λ _. some welcome) (λ _. some 7) (1 ∷ []) [] [] init greetings).0
    ≡ ok (welcome, 7)
unfolding handshake register deregister next expect step dispatch write encode_frame unsigned_header
    compute_header_crc crc32c crc_loop update build_table build_entries shift_steps shift_step
greeted = refl

handshake-agreed_example :
    (is_offered 1 (1 ∷ []) ≡ true)
    × ((handshake {AuthOk = ℕ} plain
          (λ _. some welcome)
          (λ _. some 7)
          (1 ∷ [])
          []
          []
          init
          greetings).1.max_payload_size
        ≡ payload_limit 0)
handshake-agreed_example =
    handshake-agreed plain (λ _. some welcome) (λ _. some 7) (1 ∷ []) [] [] init greetings welcome 7
      greeted

abbrev feed : Subscription
feed = record { stream_id = 1; queue = 0; has_ended = false }

sub_next-EndsAt_example :
    EndsAt {EventPayload = ℕ} plain
      (λ _. some 3)
      (is_last {EventPayload = ℕ} plain
        (λ _. some 3)
        (next plain 0 (subscribe [] init).1 traffic).0)
      feed
      (next plain 0 (subscribe [] init).1 traffic).1
      (next plain 0 (subscribe [] init).1 traffic).2
      (sub_next plain (λ _. some 3) feed (subscribe [] init).1 traffic)
sub_next-EndsAt_example =
    sub_next-EndsAt plain (λ _. some 3) feed (subscribe [] init).1 traffic refl
