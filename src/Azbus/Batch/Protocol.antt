-- ===== src/Azbus/Batch/Protocol.antt =====
-- The order in which azbus/batchreceiver.go uses the SDK's receiver, whatever its client calls.
use go_rkvstcommon.Prelude.{
  ℕ, zero, suc, ◌≡◌, refl, ap, ◌∙◌, ◌==◌, nat_eq, true, false, Option, none, some, List, [], ◌∷◌,
  Bool-cases, inl, inr, arith,
}
use go_rkvstcommon.Prelude.Outcome.{ok, panic}
use go_rkvstcommon.Prelude.Exec.{Exec, pure, fail, ◌>>◌, >>=-eq-ok}
use go_rkvstcommon.Azbus.Error.{BusError}
use go_rkvstcommon.Azbus.Bus.{
  Message, Disposition, receive_messages, open_handler, close_handler, close_receiver, handle, Bus,
  World, perform, get, put, wrapping, wrap_outcome-eq-ok, logging, az_client,
}
use go_rkvstcommon.Azbus.Protocol.{makes, follow}
use go_rkvstcommon.Azbus.Protocol.Keeps.{
  Holder, InStep, At, Keeps, Leaves, At-of-InStep, InStep-of-At, Keeps-pure, Keeps-fail, Keeps-if,
  Keeps->>=, Keeps-wrapping, Keeps-logging, Keeps-uses, Keeps-outcome, Keeps-elsewhere, Keeps-put,
  Keeps-az_client,
}
use go_rkvstcommon.Azbus.Protocol.Changes.{
  Leaves->>=, Leaves-makes, Leaves-closes, InStep-if, InStep-either, InStep->>=,
}
use go_rkvstcommon.Azbus.Disposition.{dispose, settle_nil}
use go_rkvstcommon.Azbus.Receiver.Rounds.{effect, Keeps-dispose, Keeps-settle_nil}
use go_rkvstcommon.Prelude.Int.{ℤ}
use go_rkvstcommon.Azbus.Batch.{
  BatchReceiverConfig, BatchReceiver, new_batch, with_client, with_receiver, with_cancel,
  closed_batch, bad_batch_size, new_batch_call, wrap_error, result_of, handle_batch,
  handle_received, receive_one_message_batch, receive_batches, open_batch_handler, batch_open_new,
  batch_open, close_batch_handler, batch_close, batch_listen, batch_shutdown, batch_begin,
  batch_round, dispose_late, dispose_all,
}

-- What goroutines do with the BatchReceiver: its open and close_, and Shutdown; a whole Listen for so
-- many batches; and the parts of a Listen that others come between, which are its beginning, the
-- round of a batch, and a handler's Dispose
pub data BatchOperation : Type 0 where
  open_batch close_batch shut_down_batch begin_batch next_batch : BatchOperation
  dispose_one : Disposition → Option BusError → Message → BatchOperation
  listen_batches : ℕ → BatchOperation

module _ (bus : Bus) where
  abbrev holder : Holder BatchReceiver
  holder = record { bus = bus; effect = effect; opened = λ r. r.receiver }

  effect-new_batch_call : (cfg : BatchReceiverConfig) → effect (new_batch_call cfg) ≡ makes
  unfolding new_batch_call
  effect-new_batch_call cfg = elim (Bool-cases (cfg.subscription_name == "")) [
    | inl t ↦ rw t refl
    | inr f ↦ rw f refl
  ]

  Keeps-result_of : (r : Disposition × Option BusError) → Keeps holder true (result_of r)
  Keeps-result_of (d, none) = Keeps-pure holder true tt
  Keeps-result_of (d, some e) = Keeps-fail holder _ true e

  Keeps-dispose_all :
      (l : List (Disposition × Option BusError × Message)) → Keeps holder true (dispose_all bus l)
  unfolding dispose_all
  Keeps-dispose_all [] = Keeps-pure holder true tt
  Keeps-dispose_all ((d, e, msg) ∷ more) =
      Keeps->>= holder true (dispose bus d e msg) _
        (Keeps-dispose bus (λ (r : BatchReceiver). r.receiver) d e msg)
        (λ t. Keeps-dispose_all more)

  Keeps-handle_received :
      (handler : Option ℕ) (ms : List Message) → Keeps holder true (handle_received bus handler ms)
  unfolding handle_received handle_batch Keeps
  Keeps-handle_received handler [] = λ w a. a
  Keeps-handle_received none (m ∷ ms) = λ w a. a
  Keeps-handle_received (some j) (m ∷ ms) = λ w.
      Keeps->>= holder true (perform bus.handled (handle j (m ∷ ms))) _
        (Keeps-elsewhere holder bus.handled (handle j (m ∷ ms)) true refl)
        (λ r.
          Keeps->>= holder true (dispose_all bus (bus.disposed w.1 (handle j (m ∷ ms)))) _
            (Keeps-dispose_all (bus.disposed w.1 (handle j (m ∷ ms)))) (λ t. Keeps-result_of r))
        w

  Keeps-receive_one_message_batch : Keeps holder true (receive_one_message_batch bus)
  unfolding receive_one_message_batch get Keeps
  Keeps-receive_one_message_batch w =
      let n = w.0.cfg.batch_size in
      Keeps-if holder true (nat_eq n 0) (fail bad_batch_size) _
        (Keeps-fail holder (Unit {0}) true bad_batch_size)
        (Keeps->>= holder true (wrapping (perform bus.received (receive_messages n))) _
          (Keeps-wrapping holder true (perform bus.received (receive_messages n))
            (Keeps-uses holder bus.received (receive_messages n) refl))
          (λ ms. Keeps-handle_received w.0.handler ms))
        w

  Keeps-receive_batches : (fuel : ℕ) → Keeps holder true (receive_batches bus fuel)
  unfolding receive_batches
  Keeps-receive_batches zero = Keeps-pure holder true tt
  Keeps-receive_batches (suc fuel) =
      Keeps->>= holder true (receive_one_message_batch bus) _ Keeps-receive_one_message_batch
        (λ t. Keeps-receive_batches fuel)

  Keeps-open_batch_handler :
      (handler : Option ℕ) → Keeps holder true (open_batch_handler bus handler)
  unfolding open_batch_handler
  Keeps-open_batch_handler none = Keeps-pure holder true tt
  Keeps-open_batch_handler (some j) =
      Keeps-outcome holder true wrap_error (perform bus.done (open_handler j))
        (Keeps-elsewhere holder bus.done (open_handler j) true refl)

  Keeps-close_batch_handler :
      (handler : Option ℕ) → Keeps holder true (close_batch_handler bus handler)
  unfolding close_batch_handler
  Keeps-close_batch_handler none = Keeps-pure holder true tt
  Keeps-close_batch_handler (some j) =
      Keeps-logging holder true (perform bus.done (close_handler j))
        (Keeps-elsewhere holder bus.done (close_handler j) true refl)

  Leaves-batch_open_new :
      (r : BatchReceiver) → r.receiver ≡ false → Leaves holder false (batch_open_new bus r)
  unfolding batch_open_new put Keeps At InStep
  Leaves-batch_open_new r e =
      Leaves->>= holder false (az_client bus r.az_client) _
        (Keeps-az_client holder false r.az_client (λ n. refl))
        (λ c.
          Leaves->>= holder false (put (with_client c r)) _
            (Keeps-put holder false (with_client c r) e)
            (λ t.
              Leaves-makes holder (new_batch_call r.cfg)
                (put (with_receiver (with_client c r)) >> open_batch_handler bus r.handler)
                (effect-new_batch_call r.cfg)
                (λ w f.
                  let v : World BatchReceiver = (with_receiver (with_client c r), w.1) in
                  InStep-of-At holder true (open_batch_handler bus r.handler v).1
                    (Keeps-open_batch_handler r.handler v (refl, f)))))

  batch_open-InStep :
      (w : World BatchReceiver) → InStep holder w → InStep holder (batch_open bus w).1
  unfolding batch_open get Leaves
  batch_open-InStep w i =
      InStep-if holder (pure tt) (batch_open_new bus w.0) w i (λ t a. i)
        (λ f a. Leaves-batch_open_new w.0 f w a)

  batch_close-InStep :
      (w : World BatchReceiver) → InStep holder w → InStep holder (batch_close bus w).1
  unfolding batch_close get Leaves
  batch_close-InStep w i =
      InStep-if holder
        (close_batch_handler bus w.0.handler
          >> (logging (perform bus.done close_receiver) >> put (closed_batch w.0)))
        (pure tt) w i
        (λ t a.
          Leaves->>= holder true (close_batch_handler bus w.0.handler) _
            (Keeps-close_batch_handler w.0.handler)
            (λ u. Leaves-closes holder close_receiver (closed_batch w.0) refl refl) w a)
        (λ f a. i)

  -- Opening the handler does not change the receiver.
  open_batch_handler-state :
      (handler : Option ℕ) (w : World BatchReceiver) → (open_batch_handler bus handler w).1.0 ≡ w.0
  unfolding open_batch_handler perform
  open_batch_handler-state none w = refl
  open_batch_handler-state (some j) w = refl

  batch_open_new-opens :
      (r : BatchReceiver) (w : World BatchReceiver)
      → (batch_open_new bus r w).0 ≡ ok tt
      → (batch_open_new bus r w).1.0.receiver ≡ true
  unfolding batch_open_new put
  batch_open_new-opens r w o =
      let (c, e, k, p) = >>=-eq-ok (az_client bus r.az_client) _ w o in
      let v : World BatchReceiver = (with_client c r, (az_client bus r.az_client w).1.1) in
      let (t, e', k', p') =
        >>=-eq-ok (wrapping (perform bus.done (new_batch_call r.cfg)))
          (λ u. put (with_receiver (with_client c r)) >> open_batch_handler bus r.handler) v k in
      ap (λ x. x.0.receiver) (p ∙ p')
      ∙ ap (λ x. x.receiver)
          (open_batch_handler-state r.handler (with_receiver (with_client c r), _))

  batch_open-opens :
      (w : World BatchReceiver)
      → (batch_open bus w).0 ≡ ok tt
      → (batch_open bus w).1.0.receiver ≡ true
  unfolding batch_open get
  batch_open-opens w o = elim (Bool-cases w.0.receiver) [
    | inl t ↦ ground arith
    | inr f ↦ ground (arith, batch_open_new-opens w.0 w)
  ]

  batch_listen-InStep :
      (fuel : ℕ) (w : World BatchReceiver)
      → InStep holder w
      → InStep holder (batch_listen bus fuel w).1
  unfolding batch_listen get put wrapping InStep Keeps
  batch_listen-InStep fuel w i =
      let v : World BatchReceiver = (with_cancel w.0, w.1) in
      let u = (batch_open bus v).1 in
      InStep->>= holder (wrapping (batch_open bus)) (λ t. receive_batches bus fuel) v
        (batch_open-InStep v i)
        (λ t o. InStep-of-At holder true (receive_batches bus fuel u).1 (
          Keeps-receive_batches fuel u (
            At-of-InStep holder true u (batch_open-InStep v i)
              (batch_open-opens v (wrap_outcome-eq-ok (batch_open bus v).0 tt o)))))

  batch_shutdown-InStep :
      (w : World BatchReceiver) → InStep holder w → InStep holder (batch_shutdown bus w).1
  unfolding batch_shutdown get
  batch_shutdown-InStep w i =
      InStep-either holder w.0.cancel (batch_close bus) (λ v. (panic, v)) w (batch_close-InStep w i)
        i

  batch_begin-InStep :
      (w : World BatchReceiver) → InStep holder w → InStep holder (batch_begin bus w).1
  unfolding batch_begin get put wrapping InStep
  batch_begin-InStep w i = batch_open-InStep (with_cancel w.0, w.1) i

  batch_round-InStep :
      (w : World BatchReceiver) → InStep holder w → InStep holder (batch_round bus w).1
  unfolding batch_round get Keeps
  batch_round-InStep w i =
      InStep-if holder (receive_one_message_batch bus) (λ v. (panic, v)) w i
        (λ t a. InStep-of-At holder true _ (Keeps-receive_one_message_batch w a)) (λ f a. i)

  dispose_late-InStep :
      (d : Disposition) (e : Option BusError) (msg : Message) (w : World BatchReceiver)
      → InStep holder w
      → InStep holder (dispose_late bus d e msg w).1
  unfolding dispose_late get Keeps
  dispose_late-InStep d e msg w i =
      let open_of = λ (r : BatchReceiver). r.receiver in
      InStep-if holder (dispose bus d e msg) (settle_nil d) w i
        (λ t a. InStep-of-At holder true _ (Keeps-dispose bus open_of d e msg w a))
        (λ f a. InStep-of-At holder false _ (Keeps-settle_nil bus open_of false d w a))

  -- What is done
  unfoldable pub act : BatchOperation → Exec (World BatchReceiver) BusError (Unit {0})
  unfolding batch_open batch_close batch_listen batch_shutdown batch_begin batch_round dispose_late
  act open_batch = batch_open bus
  act close_batch = batch_close bus
  act shut_down_batch = batch_shutdown bus
  act begin_batch = batch_begin bus
  act next_batch = batch_round bus
  act (dispose_one d e msg) = dispose_late bus d e msg
  act (listen_batches fuel) = batch_listen bus fuel

  -- One after the other, whatever each comes to
  unfoldable pub acts : List BatchOperation → World BatchReceiver → World BatchReceiver
  unfolding act
  acts [] w = w
  acts (o ∷ os) w = acts os (act o w).1

  act-InStep :
      (o : BatchOperation) (w : World BatchReceiver) → InStep holder w → InStep holder (act o w).1
  unfolding act
  act-InStep open_batch w i = batch_open-InStep w i
  act-InStep close_batch w i = batch_close-InStep w i
  act-InStep shut_down_batch w i = batch_shutdown-InStep w i
  act-InStep begin_batch w i = batch_begin-InStep w i
  act-InStep next_batch w i = batch_round-InStep w i
  act-InStep (dispose_one d e msg) w i = dispose_late-InStep d e msg w i
  act-InStep (listen_batches fuel) w i = batch_listen-InStep fuel w i

  acts-InStep :
      (os : List BatchOperation) (w : World BatchReceiver)
      → InStep holder w
      → InStep holder (acts os w)
  unfolding acts
  acts-InStep [] w i = i
  acts-InStep (o ∷ os) w i = acts-InStep os (act o w).1 (act-InStep o w i)

  -- However the parts of Listen on a new batch receiver (its beginning, the round of a batch, and a
  -- handler's Dispose) come between each other and between open, close_ and Shutdown, of which each
  -- runs to its end before anything else is done with the receiver, and with any errors and panics of
  -- the SDK and the handler: batches are received and messages settled only between the making of the
  -- SDK's receiver and its closing, no second one is made before the first is closed, and the batch
  -- receiver holds it to be open just where it is.
  pub batch-follows :
      (os : List BatchOperation) (cfg : BatchReceiverConfig) (handler : Option ℕ)
      (deadlines : List ℤ)
      → follow effect bus [] (acts os (new_batch handler cfg deadlines, [])).1 false
        ≡ some (acts os (new_batch handler cfg deadlines, [])).0.receiver
  unfolding new_batch InStep follow
  batch-follows os cfg handler deadlines = acts-InStep os (new_batch handler cfg deadlines, []) refl
