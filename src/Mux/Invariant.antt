-- ===== src/Mux/Invariant.antt =====
-- python/src/brain_db_sdk/mux.py: the soundness of the routes.
use brain_sdk.Prelude.{
  ℕ, suc, ◌<◌, ◌≡◌, refl, sym, ap, ◌∙◌, subst, Option, none, some, List, [], ◌∷◌, ◌++◌, Bool-cases,
  inl, inr, ◌==◌, ==_iff, ltb, length, length-set, length-append, get_or, arith, ◌⊎◌,
}
use brain_sdk.Wire.Frame.{Frame, encode_frame, flag_eos}
use brain_sdk.Wire.Frame
use brain_sdk.Errors.{Exception}
use brain_sdk.Mux.{
  MuxConnection, Item, closed, Answer, ok, raises, PayloadCodec, init, get_route, pop_route,
  set_route, put_all, register_unless, register, deregister, fail_all, closing_error, send_bytes,
  write, take_stream_id, Event, receives, fails, registers, deregisters, breaks, put_frame,
  dispatch, reader_step, step, Progress, ended, more, drain, set_queue, settle, collect,
  collect_sent, finally_deregister, request_registered, request,
}
use brain_sdk.Mux.Routes.{
  some-inj, none-some, false_==, get_route-pop_route, get_route-popped, get_route-set_other,
}

pub record Sound (routes : List (ℕ × ℕ)) (count : ℕ) (closed_error : Option Exception)
    : Type 0 where
  pub bounded : (s q : ℕ) → get_route s routes ≡ some q → q < count
  pub separate : (s t q : ℕ) → get_route s routes ≡ some q → get_route t routes ≡ some q → s ≡ t
  pub closed_empty : (error : Exception) → closed_error ≡ some error → routes ≡ []

abbrev pub IsSound : MuxConnection → Type 0
IsSound m = Sound m.routes (length m.queues) m.closed_error

pub init-IsSound : IsSound init
init-IsSound = record {
  bounded = λ s q h. absurd (none-some q h);
  separate = λ s t q h k. absurd (none-some q h);
  closed_empty = λ error h. absurd (none-some error h);
}

empty-Sound : (count : ℕ) (closed_error : Option Exception) → Sound [] count closed_error
empty-Sound count closed_error = record {
  bounded = λ s q h. absurd (none-some q h);
  separate = λ s t q h k. absurd (none-some q h);
  closed_empty = λ error h. refl;
}

pop_route-Sound :
    (t : ℕ) (routes : List (ℕ × ℕ)) (count : ℕ) (closed_error : Option Exception)
    → Sound routes count closed_error
    → Sound (pop_route t routes) count closed_error
pop_route-Sound t routes count closed_error w = record {
  bounded = λ s q h. w.bounded s q (get_route-popped s t q routes h).1;
  separate = λ s u q h k.
      w.separate s u q (get_route-popped s t q routes h).1 (get_route-popped u t q routes k).1;
  closed_empty = λ error h. ap (pop_route t) (w.closed_empty error h);
}

-- A registered route is the new one, or an old one of another stream.
set_route-cases :
    (s t q p : ℕ) (routes : List (ℕ × ℕ))
    → get_route s (set_route t q routes) ≡ some p
    → ((s ≡ t) × (p ≡ q)) ⊎ (get_route s routes ≡ some p)
set_route-cases s t q p routes h = elim (Bool-cases (t == s)) [
  | inl same ↦ inl (sym ((==_iff t s).0 same), sym (some-inj q p (sym (rw same refl) ∙ h)))
  | inr other ↦ inr (sym (get_route-set_other s t q routes (false_== t s other)) ∙ h)
]

set_route-Sound :
    (t : ℕ) (routes : List (ℕ × ℕ)) (count : ℕ)
    → Sound routes count none
    → Sound (set_route t count routes) (suc count) none
set_route-Sound t routes count w = record {
  bounded = λ s q h. elim (set_route-cases s t count q routes h) [
    | inl (e, new) ↦ omega (arith, new)
    | inr old ↦ omega (arith, w.bounded s q old)
  ];
  separate = λ s u q h k. elim (set_route-cases s t count q routes h) [
    | inl (e, new) ↦ elim (set_route-cases u t count q routes k) [
      | inl (f, new') ↦ e ∙ sym f
      | inr old ↦ absurd (omega (arith, new, w.bounded u q old))
    ]
    | inr old ↦ elim (set_route-cases u t count q routes k) [
      | inl (f, new) ↦ absurd (omega (arith, new, w.bounded s q old))
      | inr old' ↦ w.separate s u q old old'
    ]
  ];
  closed_empty = λ error h. absurd (none-some error h);
}

register_unless-IsSound :
    (closed_error : Option Exception) (s : ℕ) (m : MuxConnection)
    → m.closed_error ≡ closed_error
    → IsSound m
    → IsSound (register_unless closed_error s m).1
register_unless-IsSound (some error) s m e w = w
register_unless-IsSound none s m e w =
    subst (λ c. Sound (set_route s (length m.queues) m.routes) (length (m.queues ++ ([] ∷ []))) c)
      (sym e)
      (subst (λ n. Sound (set_route s (length m.queues) m.routes) n none) one_more
        (set_route-Sound s m.routes (length m.queues)
          (subst (Sound m.routes (length m.queues)) e w)))
  where
    one_more : suc (length m.queues) ≡ length (m.queues ++ ([] ∷ []))
    one_more = omega (arith, length-append m.queues ([] ∷ []))

pub register-IsSound : (s : ℕ) (m : MuxConnection) → IsSound m → IsSound (register s m).1
unfolding register
register-IsSound s m w = register_unless-IsSound m.closed_error s m refl w

pub deregister-IsSound : (s : ℕ) (m : MuxConnection) → IsSound m → IsSound (deregister s m)
unfolding deregister
deregister-IsSound s m w = pop_route-Sound s m.routes (length m.queues) m.closed_error w

pub fail_all-IsSound : (exc : Exception) (m : MuxConnection) → IsSound (fail_all exc m)
unfolding fail_all
fail_all-IsSound exc m =
    empty-Sound (length (put_all m.routes (closed (closing_error exc)) m.queues)) _

send_bytes-IsSound :
    (r : Frame.Result (List ℕ)) (m : MuxConnection) → IsSound m → IsSound (send_bytes r m).1
send_bytes-IsSound (Frame.err e) m w = w
send_bytes-IsSound (Frame.ok bytes) m w = elim (Bool-cases m.socket_open) [
  | inl alive ↦ rw alive w
  | inr broken ↦ rw broken w
]

pub write-IsSound :
    (opcode s : ℕ) (payload : List ℕ) (m : MuxConnection)
    → IsSound m
    → IsSound (write opcode s payload m).1
unfolding write
write-IsSound opcode s payload m w = elim (Bool-cases (ltb m.max_payload_size (length payload))) [
  | inl over ↦ rw over w
  | inr fits ↦ rw fits (send_bytes-IsSound (encode_frame opcode s flag_eos payload) m w)
]

pub set_queue-IsSound :
    (codec : PayloadCodec) (q : ℕ) (items : List Item) (m : MuxConnection)
    → IsSound m
    → IsSound (set_queue codec q items m)
set_queue-IsSound codec q items m w =
    subst (λ n. Sound m.routes n m.closed_error) (sym (length-set m.queues q items)) w

put_frame-IsSound :
    (o : Option ℕ) (f : Frame) (m : MuxConnection) → IsSound m → IsSound (put_frame o f m)
put_frame-IsSound none f m w = w
put_frame-IsSound (some q) f m w =
    subst (λ n. Sound m.routes n m.closed_error) (sym (length-set m.queues q _)) w

pub dispatch-IsSound :
    (codec : PayloadCodec) (f : Frame) (m : MuxConnection)
    → IsSound m
    → IsSound (dispatch codec f m)
unfolding dispatch
dispatch-IsSound codec f m w = elim (Bool-cases (f.opcode == 0x0091)) [
  | inl ping ↦ rw ping (write-IsSound 0x0011 0 (codec.pong_payload f.payload) m w)
  | inr other ↦ rw other (put_frame-IsSound (get_route f.stream_id m.routes) f m w)
]

reader_step-IsSound :
    (codec : PayloadCodec) (o : Option Exception) (act : MuxConnection → MuxConnection)
    (m : MuxConnection)
    → IsSound m
    → IsSound (act m)
    → IsSound (reader_step codec o act m)
reader_step-IsSound codec none act m w v = v
reader_step-IsSound codec (some error) act m w v = w

-- No event breaks the soundness of the routes.
pub step-IsSound :
    (codec : PayloadCodec) (e : Event) (m : MuxConnection) → IsSound m → IsSound (step codec e m)
unfolding step
step-IsSound codec (receives f) m w =
    reader_step-IsSound codec m.closed_error (dispatch codec f) m w (dispatch-IsSound codec f m w)
step-IsSound codec (fails exc) m w =
    reader_step-IsSound codec m.closed_error (fail_all exc) m w (fail_all-IsSound exc m)
step-IsSound codec (registers s) m w = register-IsSound s m w
step-IsSound codec (deregisters s) m w = deregister-IsSound s m w
step-IsSound codec breaks m w = w

settle-IsSound :
    (codec : PayloadCodec) (q : ℕ) (m : MuxConnection) (events : List Event) (p : Progress codec)
    (wait : List Frame → Answer (List Frame) × MuxConnection × List Event)
    → IsSound m
    → ((frames : List Frame) → IsSound (wait frames).1)
    → IsSound (settle codec q m events p wait).1
settle-IsSound codec q m events (ended answer items) wait w h = set_queue-IsSound codec q items m w
settle-IsSound codec q m events (more frames) wait w h = h frames

collect-IsSound :
    (codec : PayloadCodec) (q : ℕ) (frames : List Frame) (m : MuxConnection) (events : List Event)
    → IsSound m
    → IsSound (collect codec q frames m events).1
unfolding collect
collect-IsSound codec q frames m [] w =
    settle-IsSound codec q m [] (drain codec frames (get_or m.queues q [])) _ w
      (λ frames'. set_queue-IsSound codec q [] m w)
collect-IsSound codec q frames m (e ∷ events) w =
    settle-IsSound codec q m (e ∷ events) (drain codec frames (get_or m.queues q [])) _ w
      (λ frames'.
        collect-IsSound codec q frames' _ events
          (step-IsSound codec e _ (set_queue-IsSound codec q [] m w)))

finally-IsSound :
    (codec : PayloadCodec) (s : ℕ) (r : Answer (List Frame) × MuxConnection × List Event)
    → IsSound r.1
    → IsSound (finally_deregister codec s r).1
finally-IsSound codec s (answer, m, events) w = deregister-IsSound s m w

collect_sent-IsSound :
    (codec : PayloadCodec) (q : ℕ) (r : Answer (Unit {0}) × MuxConnection) (events : List Event)
    → IsSound r.1
    → IsSound (collect_sent codec q r events).1
collect_sent-IsSound codec q (ok _, m) events w = collect-IsSound codec q [] m events w
collect_sent-IsSound codec q (raises e, m) events w = w

-- Without the route of a request: its stream leads nowhere.
abbrev Unrouted : ℕ → MuxConnection → Type 0
Unrouted s m = get_route s m.routes ≡ none

finally-Unrouted :
    (codec : PayloadCodec) (s : ℕ) (r : Answer (List Frame) × MuxConnection × List Event)
    → Unrouted s (finally_deregister codec s r).1
unfolding deregister
finally-Unrouted codec s (answer, m, events) = get_route-pop_route s m.routes

registered-keeps :
    (codec : PayloadCodec) (opcode s : ℕ) (payload : List ℕ) (m : MuxConnection)
    (r : Answer ℕ × MuxConnection) (events : List Event)
    → IsSound r.1
    → ((e : Exception) → r.0 ≡ raises e → Unrouted s r.1)
    → IsSound (request_registered codec opcode s payload r events).1
      × Unrouted s (request_registered codec opcode s payload r events).1
registered-keeps codec opcode s payload m (raises e, m') events w refused = (w, refused e refl)
registered-keeps codec opcode s payload m (ok q, m') events w refused =
    let r = collect_sent codec q (write opcode s payload m') events in
    (
      finally-IsSound codec s r (
          collect_sent-IsSound codec q (write opcode s payload m') events
            (write-IsSound opcode s payload m' w)),
      finally-Unrouted codec s r,
    )

register-refused :
    (o : Option Exception) (s : ℕ) (m : MuxConnection) (e : Exception)
    → m.closed_error ≡ o
    → IsSound m
    → (register_unless o s m).0 ≡ raises e
    → Unrouted s (register_unless o s m).1
register-refused none s m e h w r = cc
register-refused (some error) s m e h w r = ap (get_route s) (w.closed_empty error h)

-- From a sound connection a request ends on a sound connection in which its stream has no route,
-- whatever it answers and whatever the reader and the other threads do in the meantime: routes
-- never share a queue, and none is left behind.
pub request-IsSound :
    (codec : PayloadCodec) (opcode : ℕ) (payload : List ℕ) (m : MuxConnection) (events : List Event)
    → IsSound m
    → IsSound (request codec opcode payload m events).1
      × (get_route m.next_stream_id (request codec opcode payload m events).1.routes ≡ none)
unfolding request register take_stream_id
request-IsSound codec opcode payload m events w =
    registered-keeps codec opcode m.next_stream_id payload m
      (register m.next_stream_id (take_stream_id m).1) events
      (register-IsSound m.next_stream_id (take_stream_id m).1 w)
      (λ e. register-refused m.closed_error m.next_stream_id (take_stream_id m).1 e refl w)
