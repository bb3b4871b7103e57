-- ===== src/Azbus/Receiver/Rounds.antt =====
-- What the messages and the handlers of azbus/receiver.go do with the SDK's receiver: it stays open.
use go_rkvstcommon.Prelude.{ℕ, refl, Bool, true, Option, none, some, List, [], ◌∷◌}
use go_rkvstcommon.Prelude.Exec.{Exec, pure, ◌>>◌}
use go_rkvstcommon.Azbus.Error.{BusError}
use go_rkvstcommon.Azbus.Bus.{
  Message, Disposition, deadletter_disposition, abandon_disposition, reschedule_disposition,
  complete_disposition, unknown_disposition, Call, new_receiver_for_queue,
  new_receiver_for_subscription, receive_messages, close_receiver, open_handler, close_handler,
  handle, abandon_message, complete_message, dead_letter_message, renew_message_lock, Bus, World,
  perform, wrapping, logging,
}
use go_rkvstcommon.Azbus.Protocol.{Effect, makes, uses, closes, elsewhere}
use go_rkvstcommon.Azbus.Protocol.Keeps.{
  Holder, Keeps, Keeps-pure, Keeps->>=, Keeps-wrapping, Keeps-logging, Keeps-uses, Keeps-outcome,
  Keeps-elsewhere,
}
use go_rkvstcommon.Azbus.Disposition.{abandon, dead_letter, complete, dispose, settle_nil}
use go_rkvstcommon.Azbus.Receiver.{
  Receiver, wrap_error, open_handlers, close_handlers, process_message,
}

-- What a call of the SDK, or of a handler, does with the receiver
abbrev pub effect : Call → Effect
effect (new_receiver_for_queue name deadletter) = makes
effect (new_receiver_for_subscription name subscription deadletter) = makes
effect (receive_messages n) = uses
effect (abandon_message msg) = uses
effect (complete_message msg) = uses
effect (dead_letter_message msg e) = uses
effect (renew_message_lock msg) = uses
effect close_receiver = closes
effect c = elsewhere

module _ (bus : Bus) {S : Type 0} (opened : S → Bool) where
  -- An object that holds the SDK's receiver
  abbrev pub held : Holder S
  held = record { bus = bus; effect = effect; opened = opened }

  pub Keeps-dispose :
      (d : Disposition) (e : Option BusError) (msg : Message)
      → Keeps held true (dispose bus d e msg)
  unfolding dispose abandon dead_letter complete Keeps
  Keeps-dispose deadletter_disposition none msg = λ w a. a
  Keeps-dispose deadletter_disposition (some e) msg =
      Keeps-logging held true (perform bus.done (dead_letter_message msg e))
        (Keeps-uses held bus.done (dead_letter_message msg e) refl)
  Keeps-dispose abandon_disposition e msg =
      Keeps-logging held true (perform bus.done (abandon_message msg))
        (Keeps-uses held bus.done (abandon_message msg) refl)
  Keeps-dispose reschedule_disposition e msg = Keeps-pure held true tt
  Keeps-dispose complete_disposition e msg =
      Keeps-logging held true (perform bus.done (complete_message msg))
        (Keeps-uses held bus.done (complete_message msg) refl)
  Keeps-dispose (unknown_disposition n) e msg = Keeps-pure held true tt

  pub Keeps-settle_nil : (b : Bool) (d : Disposition) → Keeps held b (settle_nil d)
  unfolding settle_nil Keeps
  Keeps-settle_nil b deadletter_disposition w a = a
  Keeps-settle_nil b abandon_disposition w a = a
  Keeps-settle_nil b reschedule_disposition w a = a
  Keeps-settle_nil b complete_disposition w a = a
  Keeps-settle_nil b (unknown_disposition n) w a = a

module _ (bus : Bus) where
  -- The messages that the workers process, each by the handler with this number
  unfoldable pub process_all : List (Message × ℕ) → Exec (World Receiver) BusError Unit
  unfolding process_message
  process_all [] = pure tt
  process_all ((msg, handler) ∷ ms) = process_message bus msg handler >> process_all ms

  -- receiveMessages as the sequence of its calls: for each round ReceiveMessages, and then what the
  -- workers do with the messages, in the order of these
  unfoldable pub receive_rounds :
      ℕ → List (List (Message × ℕ)) → Exec (World Receiver) BusError Unit
  unfolding perform wrapping process_all
  receive_rounds n [] = pure tt
  receive_rounds n (ms ∷ rounds) =
      wrapping (perform bus.received (receive_messages n))
      >> (process_all ms >> receive_rounds n rounds)

  -- The receiver, as it holds its connection
  abbrev holder : Holder Receiver
  holder = record { bus = bus; effect = effect; opened = λ r. r.receiver }

  Keeps-process_message :
      (msg : Message) (handler : ℕ) → Keeps holder true (process_message bus msg handler)
  unfolding process_message
  Keeps-process_message msg handler =
      Keeps->>= holder true (perform bus.handled (handle handler (msg ∷ []))) _
        (Keeps-elsewhere holder bus.handled (handle handler (msg ∷ [])) true refl)
        (λ p. Keeps-dispose bus (λ (r : Receiver). r.receiver) p.0 p.1 msg)

  Keeps-process_all : (ms : List (Message × ℕ)) → Keeps holder true (process_all ms)
  unfolding process_all
  Keeps-process_all [] = Keeps-pure holder true tt
  Keeps-process_all ((msg, handler) ∷ ms) =
      Keeps->>= holder true (process_message bus msg handler) _ (Keeps-process_message msg handler)
        (λ t. Keeps-process_all ms)

  pub Keeps-receive_rounds :
      (n : ℕ) (rounds : List (List (Message × ℕ))) → Keeps holder true (receive_rounds n rounds)
  unfolding receive_rounds
  Keeps-receive_rounds n [] = Keeps-pure holder true tt
  Keeps-receive_rounds n (ms ∷ rounds) =
      Keeps->>= holder true (wrapping (perform bus.received (receive_messages n))) _
        (Keeps-wrapping holder true (perform bus.received (receive_messages n))
          (Keeps-uses holder bus.received (receive_messages n) refl))
        (λ messages.
          Keeps->>= holder true (process_all ms) _ (Keeps-process_all ms)
            (λ t. Keeps-receive_rounds n rounds))

  pub Keeps-open_handlers : (js : List ℕ) → Keeps holder true (open_handlers bus js)
  unfolding open_handlers
  Keeps-open_handlers [] = Keeps-pure holder true tt
  Keeps-open_handlers (j ∷ js) =
      Keeps->>= holder true _ (λ t. open_handlers bus js)
        (Keeps-outcome holder true wrap_error (perform bus.done (open_handler j))
          (Keeps-elsewhere holder bus.done (open_handler j) true refl))
        (λ t. Keeps-open_handlers js)

  pub Keeps-close_handlers : (js : List ℕ) → Keeps holder true (close_handlers bus js)
  unfolding close_handlers
  Keeps-close_handlers [] = Keeps-pure holder true tt
  Keeps-close_handlers (j ∷ js) =
      Keeps->>= holder true (logging (perform bus.done (close_handler j))) _
        (Keeps-logging holder true (perform bus.done (close_handler j))
          (Keeps-elsewhere holder bus.done (close_handler j) true refl))
        (λ t. Keeps-close_handlers js)
