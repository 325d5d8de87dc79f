-- ===== src/Mux.antt =====
-- python/src/brain_db_sdk/mux.py: many requests over one connection. Threads are explicit: the
-- state is what the locks protect, and what the reader and the other threads do while a request
-- waits is a list of events; when it is used up, the deadline of the wait is over.
pub mod Routes
pub mod Invariant
pub mod StreamIds
pub mod Sending
pub mod Waiting
pub mod Delivery
pub mod Handshake
pub mod Subscribe
mod Runs
use brain_sdk.Prelude.{
  ℕ, zero, suc, ◌+◌, Bool, true, false, not, bit_and, Option, none, some, List, [], ◌∷◌, ◌++◌, ltb,
  leb, ◌==◌, if◌then◌else◌, length, get_or, set,
}
use brain_sdk.Wire.Frame.{Frame, flag_eos, max_payload_bytes, encode_frame}
use brain_sdk.Wire.Frame
use brain_sdk.Errors.{
  Exception, ErrorResponse, from_response, protocol_error, connection_closed, brain_timeout,
  frame_error, os_error, payload_error,
}

abbrev pub handshake_stream_id : ℕ
handshake_stream_id = 0

-- The opcodes that the connection itself looks at.
abbrev pub op_error : ℕ
op_error = 0x00ff

abbrev pub op_server_ping : ℕ
op_server_ping = 0x0091

abbrev pub op_client_pong : ℕ
op_client_pong = 0x0011

pub data Answer {ℓ} (A : Type ℓ) : Type ℓ where
  ok : A → Answer A
  raises : Exception → Answer A

-- What a route's queue carries: a frame, or the sentinel `_Closed`.
pub data Item : Type 0 where
  frame : Frame → Item
  closed : Exception → Item

-- A route names its queue by a number, since the requester keeps the queue when the route is gone.
-- `sent` are the byte strings handed to `sendall`, and a send on a broken socket raises `OSError`.
pub record MuxConnection : Type 0 where
  pub routes : List (ℕ × ℕ)
  pub queues : List (List Item)
  pub next_stream_id : ℕ
  pub closed_error : Option Exception
  pub max_payload_size : ℕ
  pub sent : List (List ℕ)
  pub socket_open : Bool

-- What the payloads say, by the CBOR library: `decode_payload(ErrorResponse, ...)`, where `none` is
-- an exception, and the payload of the CLIENT_PONG that answers a SERVER_PING with a payload.
pub record PayloadCodec : Type 0 where
  pub error_response : List ℕ → Option ErrorResponse
  pub pong_payload : List ℕ → List ℕ

abbrev pub init : MuxConnection
init = record {
  routes = [];
  queues = [];
  next_stream_id = 1;
  closed_error = none;
  max_payload_size = max_payload_bytes;
  sent = [];
  socket_open = true;
}

-- `routes.get(stream_id)`, `routes.pop(stream_id, None)` and `routes[stream_id] = q`.
abbrev pub get_route : ℕ → List (ℕ × ℕ) → Option ℕ
get_route s [] = none
get_route s ((t, q) ∷ routes) = if t == s then some q else get_route s routes

abbrev pub pop_route : ℕ → List (ℕ × ℕ) → List (ℕ × ℕ)
pop_route s [] = []
pop_route s ((t, q) ∷ routes) = if t == s then pop_route s routes else (t, q) ∷ pop_route s routes

abbrev pub set_route : ℕ → ℕ → List (ℕ × ℕ) → List (ℕ × ℕ)
set_route s q routes = (s, q) ∷ pop_route s routes

-- `q.put(item)`
abbrev pub put_item : ℕ → Item → List (List Item) → List (List Item)
put_item q item queues = set queues q (get_or queues q [] ++ (item ∷ []))

abbrev pub put_all : List (ℕ × ℕ) → Item → List (List Item) → List (List Item)
put_all [] item queues = queues
put_all ((s, q) ∷ routes) item queues = put_all routes item (put_item q item queues)

abbrev with_routes : List (ℕ × ℕ) → List (List Item) → MuxConnection → MuxConnection
with_routes routes queues m = record {
  routes = routes;
  queues = queues;
  next_stream_id = m.next_stream_id;
  closed_error = m.closed_error;
  max_payload_size = m.max_payload_size;
  sent = m.sent;
  socket_open = m.socket_open;
}

abbrev pub register_unless : Option Exception → ℕ → MuxConnection → Answer ℕ × MuxConnection
register_unless (some error) s m = (raises error, m)
register_unless none s m = (
  ok (length m.queues),
  with_routes (set_route s (length m.queues) m.routes) (m.queues ++ ([] ∷ [])) m,
)

unfoldable pub register : ℕ → MuxConnection → Answer ℕ × MuxConnection
register s m = register_unless m.closed_error s m

unfoldable pub deregister : ℕ → MuxConnection → MuxConnection
deregister s m = with_routes (pop_route s m.routes) m.queues m

-- An error of the transport stays, and any other is a closed connection.
abbrev pub closing_error : Exception → Exception
closing_error connection_closed = connection_closed
closing_error os_error = os_error
closing_error _ = connection_closed

abbrev pub first_error : Option Exception → Exception → Exception
first_error none error = error
first_error (some earlier) error = earlier

unfoldable pub fail_all : Exception → MuxConnection → MuxConnection
fail_all exc m = record {
  routes = [];
  queues = put_all m.routes (closed (closing_error exc)) m.queues;
  next_stream_id = m.next_stream_id;
  closed_error = some (first_error m.closed_error (closing_error exc));
  max_payload_size = m.max_payload_size;
  sent = m.sent;
  socket_open = m.socket_open;
}

abbrev pub send_bytes : Frame.Result (List ℕ) → MuxConnection → Answer (Unit {0}) × MuxConnection
send_bytes (Frame.err e) m = (raises (frame_error e), m)
send_bytes (Frame.ok bytes) m =
    if m.socket_open
    then (
      ok tt,
      record {
        routes = m.routes;
        queues = m.queues;
        next_stream_id = m.next_stream_id;
        closed_error = m.closed_error;
        max_payload_size = m.max_payload_size;
        sent = m.sent ++ (bytes ∷ []);
        socket_open = m.socket_open;
      },
    )
    else (raises os_error, m)

-- One frame, flagged as the last of its request.
unfoldable pub write : ℕ → ℕ → List ℕ → MuxConnection → Answer (Unit {0}) × MuxConnection
write opcode s payload m =
    if ltb m.max_payload_size (length payload)
    then (raises protocol_error, m)
    else send_bytes (encode_frame opcode s flag_eos payload) m

-- The id, and the state with the next one: odd, and back to 1 at the end of the range.
unfoldable pub take_stream_id : MuxConnection → ℕ × MuxConnection
take_stream_id m = (
  m.next_stream_id,
  record {
    routes = m.routes;
    queues = m.queues;
    next_stream_id = if leb (m.next_stream_id + 2) 0xffff_ffff then m.next_stream_id + 2 else 1;
    closed_error = m.closed_error;
    max_payload_size = m.max_payload_size;
    sent = m.sent;
    socket_open = m.socket_open;
  },
)

-- What happens while a request waits: the reader receives a frame, or fails and ends; another
-- thread registers a stream, or drops one; the socket breaks.
pub data Event : Type 0 where
  receives : Frame → Event
  fails : Exception → Event
  registers : ℕ → Event
  deregisters : ℕ → Event
  breaks : Event

-- `if q is not None: q.put(frame)`
abbrev pub put_frame : Option ℕ → Frame → MuxConnection → MuxConnection
put_frame none f m = m
put_frame (some q) f m = with_routes m.routes (put_item q (frame f) m.queues) m

abbrev pub is_eos : Frame → Bool
is_eos f = not (bit_and f.flags flag_eos == 0)

module _ (codec : PayloadCodec) where
  -- What the reader does with a frame: answer a SERVER_PING, whatever comes of it, or route.
  unfoldable pub dispatch : Frame → MuxConnection → MuxConnection
  dispatch f m =
      if f.opcode == op_server_ping
      then (write op_client_pong handshake_stream_id (codec.pong_payload f.payload) m).1
      else put_frame (get_route f.stream_id m.routes) f m

  -- The reader is gone once it has failed.
  abbrev pub reader_step :
      Option Exception → (MuxConnection → MuxConnection) → MuxConnection → MuxConnection
  reader_step none act m = act m
  reader_step (some error) act m = m

  unfoldable pub step : Event → MuxConnection → MuxConnection
  step (receives f) m = reader_step m.closed_error (dispatch f) m
  step (fails exc) m = reader_step m.closed_error (fail_all exc) m
  step (registers s) m = (register s m).1
  step (deregisters s) m = deregister s m
  step breaks m = record {
    routes = m.routes;
    queues = m.queues;
    next_stream_id = m.next_stream_id;
    closed_error = m.closed_error;
    max_payload_size = m.max_payload_size;
    sent = m.sent;
    socket_open = false;
  }

  -- `ServerError.from_response(decode_payload(ErrorResponse, payload))`
  abbrev pub server_exception : Option ErrorResponse → Exception
  server_exception none = payload_error
  server_exception (some response) = from_response response

  -- What the loop of `request` makes of an item: an end, or the frames so far.
  pub data Progress : Type 0 where
    ended : Answer (List Frame) → List Item → Progress
    more : List Frame → Progress

  -- The loop on the items that are in the queue.
  unfoldable pub drain : List Frame → List Item → Progress
  drain frames [] = more frames
  drain frames (closed error ∷ items) = ended (raises error) items
  drain frames (frame f ∷ items) =
      let further = drain (frames ++ (f ∷ [])) items in
      if f.opcode == op_error
      then ended (raises (server_exception (codec.error_response f.payload))) items
      else if is_eos f
      then ended (ok (frames ++ (f ∷ []))) items
      else further

  abbrev pub set_queue : ℕ → List Item → MuxConnection → MuxConnection
  set_queue q items m = with_routes m.routes (set m.queues q items) m

  -- The loop of `request`: take what the queue has, and wait for the next event if that was not
  -- all. The events that it did not wait for come back.
  abbrev pub settle :
      ℕ
      → MuxConnection
      → List Event
      → Progress
      → (List Frame → Answer (List Frame) × MuxConnection × List Event)
      → Answer (List Frame) × MuxConnection × List Event
  settle q m events (ended answer items) wait = (answer, set_queue q items m, events)
  settle q m events (more frames) wait = wait frames

  unfoldable pub collect :
      ℕ → List Frame → MuxConnection → List Event → Answer (List Frame) × MuxConnection × List Event
  collect q frames m [] =
      settle q m [] (drain frames (get_or m.queues q []))
        (λ frames'. (raises brain_timeout, set_queue q [] m, []))
  collect q frames m (e ∷ events) =
      settle q m (e ∷ events) (drain frames (get_or m.queues q []))
        (λ frames'. collect q frames' (step e (set_queue q [] m)) events)

  -- Send, and collect the response if that worked.
  abbrev pub collect_sent :
      ℕ
      → Answer (Unit {0}) × MuxConnection
      → List Event
      → Answer (List Frame) × MuxConnection × List Event
  collect_sent q (ok _, m) events = collect q [] m events
  collect_sent q (raises e, m) events = (raises e, m, events)

  -- `finally: self._deregister(stream_id)`
  abbrev pub finally_deregister :
      ℕ
      → Answer (List Frame) × MuxConnection × List Event
      → Answer (List Frame) × MuxConnection × List Event
  finally_deregister s (answer, m, events) = (answer, deregister s m, events)

  -- The `try` of a request on the given stream, once that is registered or refused.
  abbrev pub request_registered :
      ℕ
      → ℕ
      → List ℕ
      → Answer ℕ × MuxConnection
      → List Event
      → Answer (List Frame) × MuxConnection × List Event
  request_registered opcode s payload (raises e, m) events = (raises e, m, events)
  request_registered opcode s payload (ok q, m) events =
      finally_deregister s (collect_sent q (write opcode s payload m) events)

  unfoldable pub request :
      ℕ → List ℕ → MuxConnection → List Event → Answer (List Frame) × MuxConnection × List Event
  request opcode payload m events =
      let (s, m') = take_stream_id m in request_registered opcode s payload (register s m') events

  unfoldable pub request_on_connection :
      ℕ → List ℕ → MuxConnection → List Event → Answer (List Frame) × MuxConnection × List Event
  request_on_connection opcode payload m events =
      request_registered opcode handshake_stream_id payload (register handshake_stream_id m) events

  abbrev pub exactly_one : Answer (List Frame) → Answer Frame
  exactly_one (raises e) = raises e
  exactly_one (ok (f ∷ [])) = ok f
  exactly_one (ok _) = raises protocol_error

  unfoldable pub request_one :
      ℕ → List ℕ → MuxConnection → List Event → Answer Frame × MuxConnection × List Event
  request_one opcode payload m events =
      let (answer, m', rest) = request opcode payload m events in (exactly_one answer, m', rest)
