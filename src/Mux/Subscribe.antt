-- ===== src/Mux/Subscribe.antt =====
-- python/src/brain_db_sdk/mux.py: `MuxConnection.subscribe` and the class `Subscription`.
use brain_sdk.Prelude.{
  ℕ, ◌≡◌, refl, sym, ap, subst, Bool, true, false, Option, none, some, List, [], ◌∷◌, ◌==◌, ◌||◌,
  if◌then◌else◌, Bool-cases, inl, inr,
}
use brain_sdk.Wire.Frame.{Frame}
use brain_sdk.Errors.{
  protocol_error, connection_closed, payload_error, brain_timeout, version_mismatch, server_error,
  frame_error, os_error, other_error,
}
use brain_sdk.Mux.{
  MuxConnection, Answer, ok, raises, PayloadCodec, Event, register, deregister, write,
  take_stream_id, request_one, server_exception, op_error, is_eos, get_route,
}
use brain_sdk.Mux.Routes.{get_route-pop_route}
use brain_sdk.Mux.Handshake.{next}

abbrev pub op_subscribe : ℕ
op_subscribe = 0x0030

abbrev pub op_unsubscribe : ℕ
op_unsubscribe = 0x0031

abbrev pub op_unsubscribe_resp : ℕ
op_unsubscribe_resp = 0x00b1

pub record Subscription : Type 0 where
  pub stream_id : ℕ
  pub queue : ℕ
  pub has_ended : Bool

abbrev pub end_of : Subscription → Subscription
end_of sub = record { stream_id = sub.stream_id; queue = sub.queue; has_ended = true }

-- `except Exception: self._deregister(stream_id); raise`
abbrev pub subscribed :
    ℕ → ℕ → Answer (Unit {0}) × MuxConnection → Answer Subscription × MuxConnection
subscribed s q (ok _, m) = (ok (record { stream_id = s; queue = q; has_ended = false }), m)
subscribed s q (raises e, m) = (raises e, deregister s m)

abbrev pub subscribe_registered :
    ℕ → List ℕ → Answer ℕ × MuxConnection → Answer Subscription × MuxConnection
subscribe_registered s payload (raises e, m) = (raises e, m)
subscribe_registered s payload (ok q, m) = subscribed s q (write op_subscribe s payload m)

unfoldable pub subscribe : List ℕ → MuxConnection → Answer Subscription × MuxConnection
subscribe payload m =
    let (s, m') = take_stream_id m in subscribe_registered s payload (register s m')

-- `Subscription.close`
unfoldable pub close : Subscription → MuxConnection → Subscription × MuxConnection
close sub m = (end_of sub, deregister sub.stream_id m)

-- `decode_event` is `decode_payload(SubscriptionEvent, ...)`, where `none` is an exception.
module _ {ℓ} {EventPayload : Type ℓ} (codec : PayloadCodec)
    (decode_event : List ℕ → Option EventPayload) where
  abbrev pub Next : Type ℓ
  Next = Answer (Option EventPayload) × Subscription × MuxConnection × List Event

  abbrev pub decoded : Option EventPayload → Answer (Option EventPayload)
  decoded none = raises payload_error
  decoded (some event) = ok (some event)

  abbrev pub last_event : List ℕ → Answer (Option EventPayload)
  last_event [] = ok none
  last_event (b ∷ payload) = decoded (decode_event (b ∷ payload))

  abbrev pub event_of : Subscription → Frame → MuxConnection → List Event → Next
  event_of sub f m events =
      if f.opcode == op_error
      then (
        raises (server_exception codec (codec.error_response f.payload)),
        end_of sub,
        deregister sub.stream_id m,
        events,
      )
      else if is_eos f
      then (last_event f.payload, end_of sub, deregister sub.stream_id m, events)
      else (decoded (decode_event f.payload), sub, m, events)

  abbrev pub after_next : Subscription → Answer Frame × MuxConnection × List Event → Next
  after_next sub (raises connection_closed, m, events) =
      (ok none, end_of sub, deregister sub.stream_id m, events)
  after_next sub (raises e, m, events) = (raises e, sub, m, events)
  after_next sub (ok f, m, events) = event_of sub f m events

  -- `Subscription.next`
  unfoldable pub sub_next : Subscription → MuxConnection → List Event → Next
  sub_next sub m events =
      if sub.has_ended
      then (ok none, sub, m, events)
      else after_next sub (next codec sub.queue m events)

  -- What a wait for a frame gives at the end of a subscription: the closed connection, an error
  -- frame, or a frame with the EOS flag.
  abbrev pub is_last : Answer Frame → Bool
  is_last (raises connection_closed) = true
  is_last (raises e) = false
  is_last (ok f) = f.opcode == op_error || is_eos f

  -- A call that ended the subscription leaves no route, and the next call is quiet; any other one
  -- leaves the subscription, the connection and the events as the wait left them.
  abbrev pub EndsAt : Bool → Subscription → MuxConnection → List Event → Next → Type ℓ
  EndsAt true sub waited rest (answer, sub', m, events) =
      (sub'.has_ended ≡ true)
      × (get_route sub.stream_id m.routes ≡ none)
      × (events ≡ rest)
      × (sub_next sub' m events ≡ (ok none, sub', m, events))
  EndsAt false sub waited rest (answer, sub', m, events) =
      ◌≡◌ {A = Next} (answer, sub', m, events) (answer, sub, waited, rest)

  quiet :
      (sub : Subscription) (m : MuxConnection) (events : List Event)
      → sub.has_ended ≡ true
      → sub_next sub m events ≡ (ok none, sub, m, events)
  unfolding sub_next
  quiet sub m events h = rw h refl

  ended-EndsAt :
      (sub : Subscription) (answer : Answer (Option EventPayload)) (m : MuxConnection)
      (events : List Event)
      → EndsAt true sub m events (answer, end_of sub, deregister sub.stream_id m, events)
  unfolding deregister
  ended-EndsAt sub answer m events = (
    refl,
    get_route-pop_route sub.stream_id m.routes,
    refl,
    quiet (end_of sub) (deregister sub.stream_id m) events refl,
  )

  event_of-EndsAt :
      (sub : Subscription) (f : Frame) (m : MuxConnection) (events : List Event)
      → EndsAt (is_last (ok f)) sub m events (event_of sub f m events)
  event_of-EndsAt sub f m events = elim (Bool-cases (f.opcode == op_error)) [
    | inl error ↦ rw error (
        ended-EndsAt sub (raises (server_exception codec (codec.error_response f.payload))) m
          events)
    | inr fine ↦ elim (Bool-cases (is_eos f)) [
      | inl eos ↦ rw (fine, eos) (ended-EndsAt sub (last_event f.payload) m events)
      | inr still ↦ rw (fine, still) refl
    ]
  ]

  after_next-EndsAt :
      (sub : Subscription) (r : Answer Frame × MuxConnection × List Event)
      → EndsAt (is_last r.0) sub r.1 r.2 (after_next sub r)
  after_next-EndsAt sub (ok f, m, events) = event_of-EndsAt sub f m events
  after_next-EndsAt sub (raises connection_closed, m, events) = ended-EndsAt sub (ok none) m events
  after_next-EndsAt sub (raises protocol_error, m, events) = refl
  after_next-EndsAt sub (raises brain_timeout, m, events) = refl
  after_next-EndsAt sub (raises (version_mismatch chosen offered), m, events) = refl
  after_next-EndsAt sub (raises (server_error cls response), m, events) = refl
  after_next-EndsAt sub (raises (frame_error e), m, events) = refl
  after_next-EndsAt sub (raises os_error, m, events) = refl
  after_next-EndsAt sub (raises payload_error, m, events) = refl
  after_next-EndsAt sub (raises other_error, m, events) = refl

  live_next :
      (sub : Subscription) (m : MuxConnection) (events : List Event)
      → sub.has_ended ≡ false
      → sub_next sub m events ≡ after_next sub (next codec sub.queue m events)
  unfolding sub_next
  live_next sub m events live =
      ap
        (λ b.
          if b then (ok none, sub, m, events) else after_next sub (next codec sub.queue m events))
        live

  -- A call of `next` on a live subscription ends it exactly when what the connection gives it is
  -- an error frame, a frame with the EOS flag or the closed connection. Then the stream has no
  -- route any more, and the call after it answers that there is no event and changes nothing. Any
  -- other call leaves the subscription as it was, and the connection and the events as the wait
  -- for the frame left them.
  pub sub_next-EndsAt :
      (sub : Subscription) (m : MuxConnection) (events : List Event)
      → sub.has_ended ≡ false
      → EndsAt
          (is_last (next codec sub.queue m events).0)
          sub
          (next codec sub.queue m events).1
          (next codec sub.queue m events).2
          (sub_next sub m events)
  sub_next-EndsAt sub m events live =
      subst
        (EndsAt (is_last (next codec sub.queue m events).0) sub (next codec sub.queue m events).1
          (next codec sub.queue m events).2)
        (sym (live_next sub m events live)) (after_next-EndsAt sub (next codec sub.queue m events))

  -- `Subscription.unsubscribe`, where `decode_response` is `decode_payload(UnsubscribeResponse, ...)`
  -- and the payload is given as encoded.
  abbrev pub unsubscribe_answer {κ} :
      {Response : Type κ} → (List ℕ → Answer Response) → Answer Frame → Answer Response
  unsubscribe_answer decode_response (raises e) = raises e
  unsubscribe_answer decode_response (ok f) =
      if f.opcode == op_unsubscribe_resp then decode_response f.payload else raises protocol_error

  unfoldable pub unsubscribe {κ} :
      {Response : Type κ}
      → (List ℕ → Answer Response)
      → List ℕ
      → MuxConnection
      → List Event
      → Answer Response × MuxConnection × List Event
  unsubscribe decode_response payload m events =
      let (answer, m', rest) = request_one codec op_unsubscribe payload m events in
      (unsubscribe_answer decode_response answer, m', rest)
