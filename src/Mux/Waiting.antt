-- ===== src/Mux/Waiting.antt =====
-- python/src/brain_db_sdk/mux.py: the route and the queue of a request while it waits.
use brain_sdk.Prelude.{
  ℕ, ◌≡◌, ◌≢◌, refl, sym, ap, ◌∙◌, subst, Option, none, some, List, [], ◌∷◌, ◌++◌, Bool-cases, inl,
  inr, ◌==◌, ==_iff, ltb, if◌then◌else◌, length, get_or,
}
use brain_sdk.Wire.Frame.{Frame, encode_frame, flag_eos}
use brain_sdk.Wire.Frame
use brain_sdk.Errors.{Exception}
use brain_sdk.Mux.{
  MuxConnection, Item, frame, closed, PayloadCodec, get_route, register_unless, register,
  deregister, closing_error, send_bytes, write, Event, receives, fails, registers, deregisters,
  breaks, put_frame, dispatch, reader_step, step, set_queue, op_server_ping,
}
use brain_sdk.Mux.Routes.{
  false_==, get_route-pop_other, get_route-set_other, get_or-set, get_or-set_other, get_or-append,
}
use brain_sdk.Mux.Invariant.{IsSound, register-IsSound, deregister-IsSound, set_queue-IsSound}

-- The items for a stream among the events: its frames, except the heartbeats, which the reader
-- keeps to itself, up to the failure of the reader.
abbrev pub own_items : ℕ → List Event → List Item
own_items s [] = []
own_items s (receives f ∷ events) =
    let rest = own_items s events in
    if f.opcode == op_server_ping then rest else if f.stream_id == s then frame f ∷ rest else rest
own_items s (fails exc ∷ events) = closed (closing_error exc) ∷ []
own_items s (e ∷ events) = own_items s events

-- No other thread touches the route of the stream.
abbrev pub Undisturbed : ℕ → List Event → Type 0
Undisturbed s [] = Unit
Undisturbed s (registers t ∷ events) = (t ≢ s) × Undisturbed s events
Undisturbed s (deregisters t ∷ events) = (t ≢ s) × Undisturbed s events
Undisturbed s (e ∷ events) = Undisturbed s events

module _ (codec : PayloadCodec) where
  -- The stream's route leads to the requester's queue, and the reader lives.
  pub record Waits (s q : ℕ) (m : MuxConnection) : Type 0 where
    pub is_sound : IsSound m
    pub routed : get_route s m.routes ≡ some q
    pub alive : m.closed_error ≡ none

  pub set_queue-Waits :
      (s q p : ℕ) (items : List Item) (m : MuxConnection)
      → Waits s q m
      → Waits s q (set_queue codec p items m)
  set_queue-Waits s q p items m w = record {
    is_sound = set_queue-IsSound codec p items m w.is_sound;
    routed = w.routed;
    alive = w.alive;
  }

  abbrev pub queue : ℕ → MuxConnection → List Item
  queue q m = get_or m.queues q []

  -- A harmless event leaves the waiting stream with these items more in its queue.
  abbrev pub After : ℕ → ℕ → List Item → MuxConnection → Type 0
  After s q items m = Waits s q m × (queue q m ≡ items)

  send_bytes-After :
      (s q : ℕ) (r : Frame.Result (List ℕ)) (m : MuxConnection) (items : List Item)
      → After s q items m
      → After s q items (send_bytes r m).1
  send_bytes-After s q (Frame.err e) m items a = a
  send_bytes-After s q (Frame.ok bytes) m items a = elim (Bool-cases m.socket_open) [
    | inl alive ↦
        rw alive (record { is_sound = a.0.is_sound; routed = a.0.routed; alive = a.0.alive }, a.1)
    | inr broken ↦
        rw broken (record { is_sound = a.0.is_sound; routed = a.0.routed; alive = a.0.alive }, a.1)
  ]

  pub write-After :
      (opcode t s q : ℕ) (payload : List ℕ) (m : MuxConnection) (items : List Item)
      → After s q items m
      → After s q items (write opcode t payload m).1
  unfolding write
  write-After opcode t s q payload m items a =
      elim (Bool-cases (ltb m.max_payload_size (length payload))) [
        | inl over ↦ rw over a
        | inr fits ↦
            rw fits (send_bytes-After s q (encode_frame opcode t flag_eos payload) m items a)
      ]

  put_other :
      (s q : ℕ) (f : Frame) (o : Option ℕ) (m : MuxConnection)
      → get_route f.stream_id m.routes ≡ o
      → f.stream_id ≢ s
      → After s q [] m
      → After s q [] (put_frame o f m)
  put_other s q f none m e ne a = a
  put_other s q f (some p) m e ne a = (
    set_queue-Waits s q p _ m a.0,
    get_or-set_other p q _ [] m.queues
          (λ same. ne (a.0.is_sound.separate f.stream_id s q (e ∙ ap some same) a.0.routed))
        ∙ a.1,
  )

  put_own :
      (s q : ℕ) (f : Frame) (m : MuxConnection)
      → After s q [] m
      → After s q (frame f ∷ []) (put_frame (some q) f m)
  put_own s q f m a = (
    set_queue-Waits s q q _ m a.0,
    get_or-set q _ [] m.queues (a.0.is_sound.bounded s q a.0.routed)
        ∙ ap (λ t. t ++ (frame f ∷ [])) a.1,
  )

  dispatch-After :
      (s q : ℕ) (f : Frame) (m : MuxConnection)
      → After s q [] m
      → After s q (own_items s (receives f ∷ [])) (dispatch codec f m)
  unfolding dispatch
  dispatch-After s q f m a = elim (Bool-cases (f.opcode == op_server_ping)) [
    | inl ping ↦ rw ping (write-After 0x0011 0 s q (codec.pong_payload f.payload) m [] a)
    | inr other ↦ elim (Bool-cases (f.stream_id == s)) [
      | inl own ↦
          rw
            (other, own, ap (λ t. get_route t m.routes) ((==_iff f.stream_id s).0 own) ∙ a.0.routed)
            (put_own s q f m a)
      | inr foreign ↦
          rw (other, foreign)
            (put_other s q f (get_route f.stream_id m.routes) m refl
              (false_== f.stream_id s foreign) a)
    ]
  ]

  deregister-After :
      (s q t : ℕ) (m : MuxConnection) (items : List Item)
      → t ≢ s
      → After s q items m
      → After s q items (deregister t m)
  unfolding deregister
  deregister-After s q t m items ne a = (
    record {
      is_sound = deregister-IsSound t m a.0.is_sound;
      routed = get_route-pop_other s t m.routes ne ∙ a.0.routed;
      alive = a.0.alive;
    },
    a.1,
  )

  register-After :
      (s q t : ℕ) (m : MuxConnection) (items : List Item)
      → t ≢ s
      → After s q items m
      → After s q items (register t m).1
  unfolding register
  register-After s q t m items ne a =
      subst (λ o. After s q items (register_unless o t m).1) (sym a.0.alive)
        (
          record {
            is_sound =
                subst (λ o. IsSound (register_unless o t m).1) a.0.alive
                  (register-IsSound t m a.0.is_sound);
            routed = get_route-set_other s t (length m.queues) m.routes ne ∙ a.0.routed;
            alive = a.0.alive;
          },
          get_or-append q [] m.queues ([] ∷ []) (a.0.is_sound.bounded s q a.0.routed) ∙ a.1,
        )

  -- Waiting through one event.
  pub step-After :
      (s q : ℕ) (e : Event) (m : MuxConnection)
      → Undisturbed s (e ∷ [])
      → ((exc : Exception) → e ≢ fails exc)
      → After s q [] m
      → After s q (own_items s (e ∷ [])) (step codec e m)
  unfolding step
  step-After s q (receives f) m u n a =
      subst
        (λ o. After s q (own_items s (receives f ∷ [])) (reader_step codec o (dispatch codec f) m))
        (sym a.0.alive) (dispatch-After s q f m a)
  step-After s q (fails exc) m u n a = absurd (n exc refl)
  step-After s q (registers t) m u n a = register-After s q t m [] u.0 a
  step-After s q (deregisters t) m u n a = deregister-After s q t m [] u.0 a
  step-After s q breaks m u n a =
      (record { is_sound = a.0.is_sound; routed = a.0.routed; alive = a.0.alive }, a.1)
