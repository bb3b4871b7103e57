-- ===== src/Azbus/Receiver/Protocol.antt =====
-- The order in which azbus/receiver.go uses the SDK's receiver, whatever its client calls.
use go_rkvstcommon.Prelude.{
  ℕ, ◌≡◌, refl, ap, ◌∙◌, ◌==◌, true, false, Option, some, List, [], ◌∷◌, ◌++◌, length, Bool-cases,
  inl, inr, arith,
}
use go_rkvstcommon.Prelude.Outcome.{ok, panic, Outcome-cases}
use go_rkvstcommon.Prelude.Exec.{Exec, pure, ◌>>◌, >>=-eq-ok}
use go_rkvstcommon.Azbus.Error.{BusError}
use go_rkvstcommon.Azbus.Bus.{
  Message, Disposition, handle, receive_messages, close_receiver, open_handler, Bus, World, perform,
  get, put, wrapping, wrap_outcome-eq-ok, az_client,
}
use go_rkvstcommon.Azbus.Protocol.{makes, follow}
use go_rkvstcommon.Azbus.Protocol.Keeps.{
  Holder, Keeps-wrapping, Keeps-uses, Keeps-elsewhere, InStep, At, Keeps, Leaves, Keeps-az_client,
  Keeps-put, At-of-InStep, InStep-of-At,
}
use go_rkvstcommon.Azbus.Protocol.Changes.{
  Leaves->>=, Leaves-makes, Leaves-closes, InStep-if, InStep-either, InStep->>=,
}
use go_rkvstcommon.Azbus.Receiver.{
  Receiver, ReceiverConfig, new_receiver, with_client, with_receiver, with_cancel, closed, new_call,
  open_handlers, close_handlers, open_new, receiver_open, close_open, receiver_close, listen,
  shutdown, begin_listen, receive_next, settle_late,
}
use go_rkvstcommon.Azbus.Disposition.{dispose, settle_nil}
use go_rkvstcommon.Azbus.Receiver.Rounds.{
  Keeps-dispose, Keeps-settle_nil, effect, receive_rounds, Keeps-receive_rounds,
  Keeps-open_handlers, Keeps-close_handlers,
}

-- What goroutines do with the Receiver: its open and close_, and Shutdown; a whole Listen, with the
-- rounds of messages that it gets; and the parts of a Listen that others come between, which are its
-- beginning, a ReceiveMessages, and a worker's call of a handler and what it disposes
pub data Operation : Type 0 where
  open_receiver close_it shut_down begin_it receive_more : Operation
  listen_for : List (List (Message × ℕ)) → Operation
  handle_one : Message → ℕ → Operation
  settle_one : Disposition → Option BusError → Message → Operation

module _ (bus : Bus) where
  abbrev pub holder : Holder Receiver
  holder = record { bus = bus; effect = effect; opened = λ r. r.receiver }

  effect-new_call : (cfg : ReceiverConfig) → effect (new_call cfg) ≡ makes
  unfolding new_call
  effect-new_call cfg = elim (Bool-cases (cfg.subscription_name == "")) [
    | inl t ↦ rw t refl
    | inr f ↦ rw f refl
  ]

  Leaves-open_new : (r : Receiver) → r.receiver ≡ false → Leaves holder false (open_new bus r)
  unfolding open_new put Keeps At InStep
  Leaves-open_new r e =
      Leaves->>= holder false (az_client bus r.az_client) _
        (Keeps-az_client holder false r.az_client (λ n. refl))
        (λ c.
          Leaves->>= holder false (put (with_client c r)) _
            (Keeps-put holder false (with_client c r) e)
            (λ t.
              Leaves-makes holder (new_call r.cfg)
                (put (with_receiver (with_client c r)) >> open_handlers bus r.handlers)
                (effect-new_call r.cfg)
                (λ w f.
                  let v : World Receiver = (with_receiver (with_client c r), w.1) in
                  InStep-of-At holder true (open_handlers bus r.handlers v).1
                    (Keeps-open_handlers bus r.handlers v (refl, f)))))

  receiver_open-InStep :
      (w : World Receiver) → InStep holder w → InStep holder (receiver_open bus w).1
  unfolding receiver_open get Leaves
  receiver_open-InStep w i =
      InStep-if holder (pure tt) (open_new bus w.0) w i (λ t a. i)
        (λ f a. Leaves-open_new w.0 f w a)

  receiver_close-InStep :
      (w : World Receiver) → InStep holder w → InStep holder (receiver_close bus w).1
  unfolding receiver_close close_open get Leaves
  receiver_close-InStep w i =
      InStep-if holder (close_open bus w.0) (pure tt) w i
        (λ t a.
          Leaves->>= holder true (close_handlers bus w.0.handlers) _
            (Keeps-close_handlers bus w.0.handlers)
            (λ u. Leaves-closes holder close_receiver (closed w.0) refl refl) w a)
        (λ f a. i)

  -- Opening handlers does not change the receiver.
  open_handlers-state : (js : List ℕ) (w : World Receiver) → (open_handlers bus js w).1.0 ≡ w.0
  unfolding open_handlers perform
  open_handlers-state [] w = refl
  open_handlers-state (j ∷ js) w = elim (Outcome-cases (bus.done w.1 (open_handler j))) [
    | inl (t, d) ↦ ground (arith, open_handlers-state js (w.0, w.1 ++ open_handler j ∷ []))
    | inr (inl (e, d)) ↦ ground arith
    | inr (inr d) ↦ ground arith
  ]

  open_new-opens :
      (r : Receiver) (w : World Receiver)
      → (open_new bus r w).0 ≡ ok tt
      → (open_new bus r w).1.0.receiver ≡ true
  unfolding open_new put
  open_new-opens r w o =
      let (c, e, k, p) = >>=-eq-ok (az_client bus r.az_client) _ w o in
      let v : World Receiver = (with_client c r, (az_client bus r.az_client w).1.1) in
      let (t, e', k', p') =
        >>=-eq-ok (wrapping (perform bus.done (new_call r.cfg)))
          (λ u. put (with_receiver (with_client c r)) >> open_handlers bus r.handlers) v k in
      ap (λ x. x.0.receiver) (p ∙ p')
      ∙ ap (λ x. x.receiver) (open_handlers-state r.handlers (with_receiver (with_client c r), _))

  receiver_open-opens :
      (w : World Receiver)
      → (receiver_open bus w).0 ≡ ok tt
      → (receiver_open bus w).1.0.receiver ≡ true
  unfolding receiver_open get
  receiver_open-opens w o = elim (Bool-cases w.0.receiver) [
    | inl t ↦ ground arith
    | inr f ↦ ground (arith, open_new-opens w.0 w)
  ]

  listen-InStep :
      (n : ℕ) (rounds : List (List (Message × ℕ))) (w : World Receiver)
      → InStep holder w
      → InStep holder (listen bus (receive_rounds bus n rounds) w).1
  unfolding listen get put wrapping InStep Keeps
  listen-InStep n rounds w i =
      let v : World Receiver = (with_cancel w.0, w.1) in
      let u = (receiver_open bus v).1 in
      InStep->>= holder (wrapping (receiver_open bus)) (λ t. receive_rounds bus n rounds) v
        (receiver_open-InStep v i)
        (λ t o. InStep-of-At holder true (receive_rounds bus n rounds u).1 (
          Keeps-receive_rounds bus n rounds u (
            At-of-InStep holder true u (receiver_open-InStep v i)
              (receiver_open-opens v (wrap_outcome-eq-ok (receiver_open bus v).0 tt o)))))

  shutdown-InStep : (w : World Receiver) → InStep holder w → InStep holder (shutdown bus w).1
  unfolding shutdown get
  shutdown-InStep w i =
      InStep-either holder w.0.cancel (receiver_close bus) (λ v. (panic, v)) w
        (receiver_close-InStep w i) i

  begin_listen-InStep :
      (w : World Receiver) → InStep holder w → InStep holder (begin_listen bus w).1
  unfolding begin_listen get put wrapping InStep
  begin_listen-InStep w i = receiver_open-InStep (with_cancel w.0, w.1) i

  receive_next-InStep :
      (n : ℕ) (w : World Receiver) → InStep holder w → InStep holder (receive_next bus n w).1
  unfolding receive_next get Keeps
  receive_next-InStep n w i =
      InStep-if holder (wrapping (perform bus.received (receive_messages n))) (λ v. (panic, v)) w i
        (λ t a. InStep-of-At holder true _ (
          Keeps-wrapping holder true (perform bus.received (receive_messages n))
            (Keeps-uses holder bus.received (receive_messages n) refl) w a))
        (λ f a. i)

  handle_one-InStep :
      (msg : Message) (j : ℕ) (w : World Receiver)
      → InStep holder w
      → InStep holder (perform bus.handled (handle j (msg ∷ [])) w).1
  unfolding Keeps
  handle_one-InStep msg j w i =
      let b = w.0.receiver in
      InStep-of-At holder b _ (
        Keeps-elsewhere holder bus.handled (handle j (msg ∷ [])) b refl w
          (At-of-InStep holder b w i refl))

  settle_late-InStep :
      (d : Disposition) (e : Option BusError) (msg : Message) (w : World Receiver)
      → InStep holder w
      → InStep holder (settle_late bus d e msg w).1
  unfolding settle_late get Keeps
  settle_late-InStep d e msg w i =
      let open_of = λ (r : Receiver). r.receiver in
      InStep-if holder (dispose bus d e msg) (settle_nil d) w i
        (λ t a. InStep-of-At holder true _ (Keeps-dispose bus open_of d e msg w a))
        (λ f a. InStep-of-At holder false _ (Keeps-settle_nil bus open_of false d w a))

  -- The result of what is done is not looked at.
  abbrev quietly : {A : Type 0} → Exec (World Receiver) BusError A → World Receiver → World Receiver
  quietly m w = (m w).1

  -- What is done, where receiveMessages asks for as many messages as there are handlers
  unfoldable pub act : Operation → World Receiver → World Receiver
  unfolding receiver_open receiver_close listen shutdown receive_rounds begin_listen receive_next
      settle_late perform
  act open_receiver w = quietly (receiver_open bus) w
  act close_it w = quietly (receiver_close bus) w
  act shut_down w = quietly (shutdown bus) w
  act begin_it w = quietly (begin_listen bus) w
  act receive_more w = quietly (receive_next bus (length w.0.handlers)) w
  act (listen_for rounds) w =
      quietly (listen bus (receive_rounds bus (length w.0.handlers) rounds)) w
  act (handle_one msg j) w = quietly (perform bus.handled (handle j (msg ∷ []))) w
  act (settle_one d e msg) w = quietly (settle_late bus d e msg) w

  -- One after the other, whatever each comes to
  unfoldable pub acts : List Operation → World Receiver → World Receiver
  unfolding act
  acts [] w = w
  acts (o ∷ os) w = acts os (act o w)

  act-InStep : (o : Operation) (w : World Receiver) → InStep holder w → InStep holder (act o w)
  unfolding act
  act-InStep open_receiver w i = receiver_open-InStep w i
  act-InStep close_it w i = receiver_close-InStep w i
  act-InStep shut_down w i = shutdown-InStep w i
  act-InStep begin_it w i = begin_listen-InStep w i
  act-InStep receive_more w i = receive_next-InStep (length w.0.handlers) w i
  act-InStep (handle_one msg j) w i = handle_one-InStep msg j w i
  act-InStep (settle_one d e msg) w i = settle_late-InStep d e msg w i
  act-InStep (listen_for rounds) w i = listen-InStep (length w.0.handlers) rounds w i

  acts-InStep :
      (os : List Operation) (w : World Receiver) → InStep holder w → InStep holder (acts os w)
  unfolding acts
  acts-InStep [] w i = i
  acts-InStep (o ∷ os) w i = acts-InStep os (act o w) (act-InStep o w i)

  -- However the parts of Listen and of its workers on a new receiver (its beginning, a receiving, a
  -- call of a handler, a disposition) come between each other and between open, close_ and Shutdown,
  -- of which each runs to its end before anything else is done with the receiver, and with any errors
  -- and panics of the SDK and the handlers: the calls follow the protocol of the connection, and the
  -- receiver holds the connection to be open just where it is. So messages are received and settled
  -- only between the making of the SDK's receiver and its closing, and no second one is made before
  -- the first is closed.
  pub receiver-follows :
      (os : List Operation) (cfg : ReceiverConfig) (handlers : List ℕ)
      → follow effect bus [] (acts os (new_receiver cfg handlers, [])).1 false
        ≡ some (acts os (new_receiver cfg handlers, [])).0.receiver
  unfolding new_receiver InStep follow
  receiver-follows os cfg handlers = acts-InStep os (new_receiver cfg handlers, []) refl
