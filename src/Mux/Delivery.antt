-- ===== src/Mux/Delivery.antt =====
-- python/src/brain_db_sdk/mux.py: the answer of a request.
use brain_sdk.Prelude.{
  ℕ, ◌≤◌, ◌≡◌, ◌≢◌, refl, sym, ap, ◌∙◌, subst, none, List, [], ◌∷◌, ◌++◌, Bool-cases, inl, inr,
  true, ◌==◌, le→ltb, if◌then◌else◌, length, length-set, get_or, set, arith,
}
use brain_sdk.Wire.Frame.{Frame, encode_frame, flag_eos}
use brain_sdk.Wire.Frame
use brain_sdk.Errors.{Exception, brain_timeout}
use brain_sdk.Mux.{
  MuxConnection, Item, frame, closed, Answer, ok, raises, PayloadCodec, register_unless, register,
  fail_all, closing_error, write, take_stream_id, Event, receives, fails, registers, deregisters,
  breaks, reader_step, step, drain, set_queue, settle, collect, collect_sent, finally_deregister,
  request_registered, request, op_error, op_server_ping, is_eos, server_exception,
}
use brain_sdk.Mux.Routes.{get_route-set_route, get_or-set, get_or-last, put_all-reaches, Starts}
use brain_sdk.Mux.Invariant.{IsSound, register-IsSound}
use brain_sdk.Mux.Waiting.{
  own_items, Undisturbed, Waits, queue, After, set_queue-Waits, write-After, step-After,
}

module _ (codec : PayloadCodec) where
  -- The answer that the items for a stream determine: an error frame or the end of the connection
  -- raises, the frame with the EOS flag completes the response, and without an end it is a timeout.
  abbrev pub reply : List Frame → List Item → Answer (List Frame)
  reply frames [] = raises brain_timeout
  reply frames (closed error ∷ items) = raises error
  reply frames (frame f ∷ items) =
      let rest = reply (frames ++ (f ∷ [])) items in
      if f.opcode == op_error
      then raises (server_exception codec (codec.error_response f.payload))
      else if is_eos f
      then ok (frames ++ (f ∷ []))
      else rest

  settle-reply :
      (q : ℕ) (m : MuxConnection) (events : List Event) (frames : List Frame)
      (items later : List Item)
      (wait : List Frame → Answer (List Frame) × MuxConnection × List Event)
      → ((frames' : List Frame) → (wait frames').0 ≡ reply frames' later)
      → (settle codec q m events (drain codec frames items) wait).0 ≡ reply frames (items ++ later)
  unfolding drain
  settle-reply q m events frames [] later wait h = h frames
  settle-reply q m events frames (closed error ∷ items) later wait h = refl
  settle-reply q m events frames (frame f ∷ items) later wait h =
      elim (Bool-cases (f.opcode == op_error)) [
        | inl error ↦ rw error refl
        | inr fine ↦ elim (Bool-cases (is_eos f)) [
          | inl eos ↦ rw (fine, eos) refl
          | inr open_still ↦
              rw (fine, open_still)
                (settle-reply q m events (frames ++ (f ∷ [])) items later wait h)
        ]
      ]

  -- Once the queue has the sentinel first, the request raises its error.
  collect-closed :
      (q : ℕ) (frames : List Frame) (m : MuxConnection) (events : List Event) (error : Exception)
      → Starts (closed error) (get_or m.queues q [])
      → (collect codec q frames m events).0 ≡ raises error
  unfolding collect drain
  collect-closed q frames m [] error (rest, e) = rw e refl
  collect-closed q frames m (x ∷ events) error (rest, e) = rw e refl

  own_items-cons :
      (s : ℕ) (e : Event) (events : List Event)
      → ((exc : Exception) → e ≢ fails exc)
      → own_items s (e ∷ events) ≡ own_items s (e ∷ []) ++ own_items s events
  own_items-cons s (receives f) events n = elim (Bool-cases (f.opcode == op_server_ping)) [
    | inl ping ↦ rw ping refl
    | inr other ↦ elim (Bool-cases (f.stream_id == s)) [
      | inl own ↦ rw (other, own) refl
      | inr foreign ↦ rw (other, foreign) refl
    ]
  ]
  own_items-cons s (fails exc) events n = absurd (n exc refl)
  own_items-cons s (registers t) events n = refl
  own_items-cons s (deregisters t) events n = refl
  own_items-cons s breaks events n = refl

  Undisturbed-head :
      (s : ℕ) (e : Event) (events : List Event)
      → Undisturbed s (e ∷ events)
      → Undisturbed s (e ∷ []) × Undisturbed s events
  Undisturbed-head s (receives f) events u = (tt, u)
  Undisturbed-head s (fails exc) events u = (tt, u)
  Undisturbed-head s (registers t) events u = ((u.0, tt), u.1)
  Undisturbed-head s (deregisters t) events u = ((u.0, tt), u.1)
  Undisturbed-head s breaks events u = (tt, u)

  emptied :
      (s q : ℕ) (m : MuxConnection)
      → Waits codec s q m
      → After codec s q [] (set_queue codec q [] m)
  emptied s q m w = (
    set_queue-Waits codec s q q [] m w,
    get_or-set q [] [] m.queues (w.is_sound.bounded s q w.routed),
  )

  -- The rest of the wait answers by what is in the queue and what is still to come.
  abbrev Answers : ℕ → ℕ → List Event → Type 0
  Answers s q events =
      (frames : List Frame) (m : MuxConnection)
      → Waits codec s q m
      → (collect codec q frames m events).0 ≡ reply frames (queue codec q m ++ own_items s events)

  wait-harmless :
      (s q : ℕ) (e : Event) (events : List Event) (frames : List Frame) (m : MuxConnection)
      → Waits codec s q m
      → Undisturbed s (e ∷ events)
      → ((exc : Exception) → e ≢ fails exc)
      → Answers s q events
      → (collect codec q frames (step codec e (set_queue codec q [] m)) events).0
        ≡ reply frames (own_items s (e ∷ events))
  wait-harmless s q e events frames m w u n answers =
      let a =
        step-After codec s q e (set_queue codec q [] m) (Undisturbed-head s e events u).0 n
          (emptied s q m w) in
      answers frames _ a.0
      ∙ ap (λ t. reply frames (t ++ own_items s events)) a.1
      ∙ ap (reply frames) (sym (own_items-cons s e events n))

  wait-failure :
      (s q : ℕ) (exc : Exception) (events : List Event) (frames : List Frame) (m : MuxConnection)
      → Waits codec s q m
      → (collect codec q frames (step codec (fails exc) (set_queue codec q [] m)) events).0
        ≡ raises (closing_error exc)
  unfolding step fail_all
  wait-failure s q exc events frames m w = collect-closed q frames _ events (closing_error exc) (
      subst
        (λ o.
          Starts (closed (closing_error exc))
            (get_or (reader_step codec o (fail_all exc) (set_queue codec q [] m)).queues q []))
        (sym w.alive)
        (put_all-reaches m.routes s q (closed (closing_error exc)) (set m.queues q [])
          (omega (arith, length-set m.queues q [], w.is_sound.bounded s q w.routed))
          (emptied s q m w).1 w.routed))

  wait-event :
      (s q : ℕ) (e : Event) (events : List Event) (frames : List Frame) (m : MuxConnection)
      → Waits codec s q m
      → Undisturbed s (e ∷ events)
      → Answers s q events
      → (collect codec q frames (step codec e (set_queue codec q [] m)) events).0
        ≡ reply frames (own_items s (e ∷ events))
  wait-event s q (receives f) events frames m w u answers =
      wait-harmless s q (receives f) events frames m w u (λ exc h. cc) answers
  wait-event s q (fails exc) events frames m w u answers = wait-failure s q exc events frames m w
  wait-event s q (registers t) events frames m w u answers =
      wait-harmless s q (registers t) events frames m w u (λ exc h. cc) answers
  wait-event s q (deregisters t) events frames m w u answers =
      wait-harmless s q (deregisters t) events frames m w u (λ exc h. cc) answers
  wait-event s q breaks events frames m w u answers =
      wait-harmless s q breaks events frames m w u (λ exc h. cc) answers

  collect-reply : (s q : ℕ) (events : List Event) → Undisturbed s events → Answers s q events
  unfolding collect
  collect-reply s q [] u frames m w =
      settle-reply q m [] frames (queue codec q m) [] _ (λ frames'. refl)
  collect-reply s q (e ∷ events) u frames m w =
      settle-reply q m (e ∷ events) frames (queue codec q m) (own_items s (e ∷ events)) _
        (λ frames'.
          wait-event s q e events frames' m w u
            (collect-reply s q events (Undisturbed-head s e events u).1))

  finally-answer :
      (s : ℕ) (r : Answer (List Frame) × MuxConnection × List Event)
      → (finally_deregister codec s r).0 ≡ r.0
  finally-answer s (answer, m, events) = refl

  sent-reply :
      (s q : ℕ) (r : Answer (Unit {0}) × MuxConnection) (events : List Event)
      → r.0 ≡ ok tt
      → After codec s q [] r.1
      → Undisturbed s events
      → (collect_sent codec q r events).0 ≡ reply [] (own_items s events)
  sent-reply s q (ok _, m) events e a u =
      collect-reply s q events u [] m a.0 ∙ ap (λ t. reply [] (t ++ own_items s events)) a.1
  sent-reply s q (raises x, m) events e a u = cc

  registered-After :
      (s : ℕ) (m : MuxConnection)
      → IsSound m
      → m.closed_error ≡ none
      → After codec s (length m.queues) [] (register_unless none s m).1
  unfolding register
  registered-After s m w alive = (
    record {
      is_sound = subst (λ o. IsSound (register_unless o s m).1) alive (register-IsSound s m w);
      routed = get_route-set_route s (length m.queues) m.routes;
      alive = alive;
    },
    get_or-last [] [] m.queues,
  )

  write-ok :
      (opcode s : ℕ) (payload bytes : List ℕ) (m : MuxConnection)
      → length payload ≤ m.max_payload_size
      → m.socket_open ≡ true
      → encode_frame opcode s flag_eos payload ≡ Frame.ok bytes
      → (write opcode s payload m).0 ≡ ok tt
  unfolding write
  write-ok opcode s payload bytes m fits open_socket e =
      rw (le→ltb m.max_payload_size (length payload) fits, e, open_socket) refl

  -- On a sound connection whose reader lives, a request that can be sent answers by the items for
  -- its own stream, in their order: whatever frames for other streams, heartbeats, and acts of
  -- other threads on other streams come between, the answer is the frames up to the one with the
  -- EOS flag, the server's error, the error that the reader failed with, or a timeout.
  pub request-reply :
      (opcode : ℕ) (payload bytes : List ℕ) (m : MuxConnection) (events : List Event)
      → IsSound m
      → m.closed_error ≡ none
      → length payload ≤ m.max_payload_size
      → m.socket_open ≡ true
      → encode_frame opcode m.next_stream_id flag_eos payload ≡ Frame.ok bytes
      → Undisturbed m.next_stream_id events
      → (request codec opcode payload m events).0 ≡ reply [] (own_items m.next_stream_id events)
  unfolding request register take_stream_id
  request-reply opcode payload bytes m events w alive fits open_socket e u =
      ap (λ o. (request_registered codec opcode s payload (register_unless o s m1) events).0) alive
      ∙ finally-answer s (collect_sent codec q (write opcode s payload m2) events)
      ∙ sent-reply s q (write opcode s payload m2) events
          (write-ok opcode s payload bytes m2 fits open_socket e)
          (write-After codec opcode s s q payload m2 [] (registered-After s m1 w alive)) u
    where
      s : ℕ
      s = m.next_stream_id

      q : ℕ
      q = length m.queues

      m1 : MuxConnection
      m1 = (take_stream_id m).1

      m2 : MuxConnection
      m2 = (register_unless none s m1).1
