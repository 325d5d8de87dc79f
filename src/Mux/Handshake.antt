-- ===== src/Mux/Handshake.antt =====
-- python/src/brain_db_sdk/mux.py: `MuxConnection.handshake`, on stream 0.
use brain_sdk.Prelude.{
  ℕ, ◌≡◌, refl, ap, subst, Bool, true, false, ◌||◌, Option, none, some, List, [], ◌∷◌, ◌==◌,
  if◌then◌else◌, Bool-cases, inl, inr, get_or,
}
use brain_sdk.Wire.Frame.{Frame, max_payload_bytes}
use brain_sdk.Errors.{protocol_error, brain_timeout, payload_error, version_mismatch}
use brain_sdk.Mux.{
  MuxConnection, Item, frame, closed, Answer, ok, raises, PayloadCodec, Event, step, register,
  deregister, write, set_queue, server_exception, op_error, handshake_stream_id,
}

-- `_next`: the item at the front of the queue, or of the events that bring one; none is a timeout.
abbrev take_item : Item → Answer Frame
take_item (frame f) = ok f
take_item (closed error) = raises error

module _ (codec : PayloadCodec) where
  abbrev take_or :
      ℕ
      → MuxConnection
      → List Event
      → List Item
      → Answer Frame × MuxConnection × List Event
      → Answer Frame × MuxConnection × List Event
  take_or q m events [] wait = wait
  take_or q m events (item ∷ items) wait = (take_item item, set_queue codec q items m, events)

  unfoldable pub next : ℕ → MuxConnection → List Event → Answer Frame × MuxConnection × List Event
  next q m [] = take_or q m [] (get_or m.queues q []) (raises brain_timeout, m, [])
  next q m (e ∷ events) =
      let wait = next q (step codec e m) events in
      take_or q m (e ∷ events) (get_or m.queues q []) wait

  -- `_expect`, on what `_next` gave.
  abbrev pub expected : ℕ → Answer Frame → Answer Frame
  expected opcode (raises e) = raises e
  expected opcode (ok f) =
      if f.opcode == op_error
      then raises (server_exception codec (codec.error_response f.payload))
      else if f.opcode == opcode
      then ok f
      else raises protocol_error

  unfoldable pub expect :
      ℕ → ℕ → MuxConnection → List Event → Answer Frame × MuxConnection × List Event
  expect q opcode m events =
      let (answer, m', rest) = next q m events in (expected opcode answer, m', rest)

abbrev pub op_hello : ℕ
op_hello = 0x0001

abbrev pub op_welcome : ℕ
op_welcome = 0x0081

abbrev pub op_auth : ℕ
op_auth = 0x0002

abbrev pub op_auth_ok : ℕ
op_auth_ok = 0x0082

-- What the handshake reads of a WELCOME.
pub record Welcome : Type 0 where
  pub chosen_version : ℕ
  pub max_payload_size : ℕ

abbrev pub is_offered : ℕ → List ℕ → Bool
is_offered v [] = false
is_offered v (w ∷ ws) = v == w || is_offered v ws

-- `welcome.server_features.max_payload_size or MAX_PAYLOAD_BYTES`
abbrev pub payload_limit : ℕ → ℕ
payload_limit size = if size == 0 then max_payload_bytes else size

abbrev pub limit_payloads : ℕ → MuxConnection → MuxConnection
limit_payloads size m = record {
  routes = m.routes;
  queues = m.queues;
  next_stream_id = m.next_stream_id;
  closed_error = m.closed_error;
  max_payload_size = payload_limit size;
  sent = m.sent;
  socket_open = m.socket_open;
}

-- The stages of the handshake; each gives its answer, the connection and the events left. The
-- payloads of HELLO and AUTH are given as encoded, and `decode_welcome` and `decode_auth_ok` are
-- `decode_payload` at the two types, where `none` is an exception.
module _ {ℓ} {AuthOk : Type ℓ} (codec : PayloadCodec) (decode_welcome : List ℕ → Option Welcome)
    (decode_auth_ok : List ℕ → Option AuthOk) where
  abbrev pub Stage : Type ℓ
  Stage = Answer (Welcome × AuthOk) × MuxConnection × List Event

  abbrev pub finish_auth : Welcome → Option AuthOk → MuxConnection → List Event → Stage
  finish_auth welcome none m events = (raises payload_error, m, events)
  finish_auth welcome (some auth_ok) m events =
      (ok (welcome, auth_ok), limit_payloads welcome.max_payload_size m, events)

  abbrev pub read_auth_ok : Welcome → Answer Frame × MuxConnection × List Event → Stage
  read_auth_ok welcome (raises e, m, events) = (raises e, m, events)
  read_auth_ok welcome (ok f, m, events) = finish_auth welcome (decode_auth_ok f.payload) m events

  abbrev pub await_auth_ok : ℕ → Welcome → Answer (Unit {0}) × MuxConnection → List Event → Stage
  await_auth_ok q welcome (raises e, m) events = (raises e, m, events)
  await_auth_ok q welcome (ok _, m) events =
      read_auth_ok welcome (expect codec q op_auth_ok m events)

  abbrev pub check_version :
      ℕ → List ℕ → List ℕ → Option Welcome → MuxConnection → List Event → Stage
  check_version q offered auth none m events = (raises payload_error, m, events)
  check_version q offered auth (some welcome) m events =
      if is_offered welcome.chosen_version offered
      then await_auth_ok q welcome (write op_auth handshake_stream_id auth m) events
      else (raises (version_mismatch welcome.chosen_version offered), m, events)

  abbrev pub read_welcome : ℕ → List ℕ → List ℕ → Answer Frame × MuxConnection × List Event → Stage
  read_welcome q offered auth (raises e, m, events) = (raises e, m, events)
  read_welcome q offered auth (ok f, m, events) =
      check_version q offered auth (decode_welcome f.payload) m events

  abbrev pub await_welcome :
      ℕ → List ℕ → List ℕ → Answer (Unit {0}) × MuxConnection → List Event → Stage
  await_welcome q offered auth (raises e, m) events = (raises e, m, events)
  await_welcome q offered auth (ok _, m) events =
      read_welcome q offered auth (expect codec q op_welcome m events)

  abbrev pub finally : Stage → Stage
  finally (answer, m, events) = (answer, deregister handshake_stream_id m, events)

  abbrev pub handshake_registered :
      List ℕ → List ℕ → List ℕ → Answer ℕ × MuxConnection → List Event → Stage
  handshake_registered offered hello auth (raises e, m) events = (raises e, m, events)
  handshake_registered offered hello auth (ok q, m) events =
      finally (await_welcome q offered auth (write op_hello handshake_stream_id hello m) events)

  unfoldable pub handshake : List ℕ → List ℕ → List ℕ → MuxConnection → List Event → Stage
  handshake offered hello auth m events =
      handshake_registered offered hello auth (register handshake_stream_id m) events

  -- What a stage that succeeded says.
  Agreed : List ℕ → Stage → Type 0
  Agreed offered (raises e, m, events) = Unit
  Agreed offered (ok (welcome, auth_ok), m, events) =
      (is_offered welcome.chosen_version offered ≡ true)
      × (m.max_payload_size ≡ payload_limit welcome.max_payload_size)

  finish_auth-Agreed :
      (offered : List ℕ) (welcome : Welcome) (o : Option AuthOk) (m : MuxConnection)
      (events : List Event)
      → is_offered welcome.chosen_version offered ≡ true
      → Agreed offered (finish_auth welcome o m events)
  unfolding Agreed
  finish_auth-Agreed offered welcome none m events v = tt
  finish_auth-Agreed offered welcome (some auth_ok) m events v = (v, refl)

  read_auth_ok-Agreed :
      (offered : List ℕ) (welcome : Welcome) (r : Answer Frame × MuxConnection × List Event)
      → is_offered welcome.chosen_version offered ≡ true
      → Agreed offered (read_auth_ok welcome r)
  unfolding Agreed
  read_auth_ok-Agreed offered welcome (raises e, m, events) v = tt
  read_auth_ok-Agreed offered welcome (ok f, m, events) v =
      finish_auth-Agreed offered welcome (decode_auth_ok f.payload) m events v

  await_auth_ok-Agreed :
      (offered : List ℕ) (q : ℕ) (welcome : Welcome) (r : Answer (Unit {0}) × MuxConnection)
      (events : List Event)
      → is_offered welcome.chosen_version offered ≡ true
      → Agreed offered (await_auth_ok q welcome r events)
  unfolding Agreed
  await_auth_ok-Agreed offered q welcome (raises e, m) events v = tt
  await_auth_ok-Agreed offered q welcome (ok _, m) events v =
      read_auth_ok-Agreed offered welcome (expect codec q op_auth_ok m events) v

  check_version-Agreed :
      (q : ℕ) (offered auth : List ℕ) (o : Option Welcome) (m : MuxConnection) (events : List Event)
      → Agreed offered (check_version q offered auth o m events)
  unfolding Agreed
  check_version-Agreed q offered auth none m events = tt
  check_version-Agreed q offered auth (some welcome) m events =
      elim (Bool-cases (is_offered welcome.chosen_version offered)) [
        | inl v ↦ rw v (
            await_auth_ok-Agreed offered q welcome (write op_auth handshake_stream_id auth m) events
              v)
        | inr foreign ↦ rw foreign tt
      ]

  read_welcome-Agreed :
      (q : ℕ) (offered auth : List ℕ) (r : Answer Frame × MuxConnection × List Event)
      → Agreed offered (read_welcome q offered auth r)
  unfolding Agreed
  read_welcome-Agreed q offered auth (raises e, m, events) = tt
  read_welcome-Agreed q offered auth (ok f, m, events) =
      check_version-Agreed q offered auth (decode_welcome f.payload) m events

  await_welcome-Agreed :
      (q : ℕ) (offered auth : List ℕ) (r : Answer (Unit {0}) × MuxConnection) (events : List Event)
      → Agreed offered (await_welcome q offered auth r events)
  unfolding Agreed
  await_welcome-Agreed q offered auth (raises e, m) events = tt
  await_welcome-Agreed q offered auth (ok _, m) events =
      read_welcome-Agreed q offered auth (expect codec q op_welcome m events)

  finally-Agreed : (offered : List ℕ) (s : Stage) → Agreed offered s → Agreed offered (finally s)
  unfolding Agreed deregister
  finally-Agreed offered (raises e, m, events) a = tt
  finally-Agreed offered (ok (welcome, auth_ok), m, events) a = a

  registered-Agreed :
      (offered hello auth : List ℕ) (r : Answer ℕ × MuxConnection) (events : List Event)
      → Agreed offered (handshake_registered offered hello auth r events)
  unfolding Agreed
  registered-Agreed offered hello auth (raises e, m) events = tt
  registered-Agreed offered hello auth (ok q, m) events =
      finally-Agreed offered _
        (await_welcome-Agreed q offered auth (write op_hello handshake_stream_id hello m) events)

  abbrev welcome_or : Welcome → Answer (Welcome × AuthOk) → Welcome
  welcome_or default (ok (welcome, auth_ok)) = welcome
  welcome_or default (raises e) = default

  Agreed-answer :
      (offered : List ℕ) (s : Stage) (welcome : Welcome) (auth_ok : AuthOk)
      → Agreed offered s
      → s.0 ≡ ok (welcome, auth_ok)
      → (is_offered welcome.chosen_version offered ≡ true)
        × (s.1.max_payload_size ≡ payload_limit welcome.max_payload_size)
  unfolding Agreed
  Agreed-answer offered (raises e, m, events) welcome auth_ok a h = cc
  Agreed-answer offered (ok (w, x), m, events) welcome auth_ok a h =
      subst
        (λ (v : Welcome).
          (is_offered v.chosen_version offered ≡ true)
          × (m.max_payload_size ≡ payload_limit v.max_payload_size))
        (ap (welcome_or w) h) a

  -- If the handshake succeeds, whatever the reader and other threads do meanwhile, then the
  -- version that the server chose is one that the client offered, and from then on writes are
  -- limited to the payload size that the server advertised, where 0 means the format's own limit.
  pub handshake-agreed :
      (offered hello auth : List ℕ) (m : MuxConnection) (events : List Event) (welcome : Welcome)
      (auth_ok : AuthOk)
      → (handshake offered hello auth m events).0 ≡ ok (welcome, auth_ok)
      → (is_offered welcome.chosen_version offered ≡ true)
        × ((handshake offered hello auth m events).1.max_payload_size
            ≡ payload_limit welcome.max_payload_size)
  unfolding handshake
  handshake-agreed offered hello auth m events welcome auth_ok h =
      Agreed-answer offered (handshake offered hello auth m events) welcome auth_ok
        (registered-Agreed offered hello auth (register handshake_stream_id m) events) h
