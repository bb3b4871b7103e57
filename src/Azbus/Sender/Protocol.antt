-- ===== src/Azbus/Sender/Protocol.antt =====
-- The order in which azbus/sender.go uses the SDK's sender, whatever its client calls.
use go_rkvstcommon.Prelude.{
  ℕ, ◌≡◌, refl, String, ◌==◌, Bool, true, false, some, List, [], ◌∷◌, length,
}
use go_rkvstcommon.Prelude.Int.{ℤ}
use go_rkvstcommon.Prelude.Exec.{Exec, pure, ◌>>◌}
use go_rkvstcommon.Azbus.Error.{BusError}
use go_rkvstcommon.Azbus.Bus.{
  Call, new_sender, send_message, send_message_batch, close_sender, Bus, World, AzClient, perform,
  get, put, wrapping, az_client, get_queue_max_message_size, new_az_client, admin_open, get_queue,
  no_connection_string,
}
use go_rkvstcommon.Azbus.Protocol.{Effect, makes, uses, closes, elsewhere, follow}
use go_rkvstcommon.Azbus.Protocol.Keeps.{
  At, InStep, Keeps, Leaves, Keeps->>=, Keeps-put, Keeps-wrapping, Keeps-uses, Keeps-elsewhere,
  At-of-InStep, InStep-of-At, Holder, Keeps-if, Keeps-pure, Keeps-fail, Keeps-az_client,
}
use go_rkvstcommon.Azbus.Protocol.Changes.{
  Leaves->>=, Leaves-makes, Leaves-closes, InStep-if, InStep->>=,
}
use go_rkvstcommon.Prelude.Dict.{Dict}
use go_rkvstcommon.Prelude.Outcome.{Outcome, ok, err, panic}
use go_rkvstcommon.Azbus.Messages.{BusMessage, update_sending_message_for_span}
use go_rkvstcommon.Azbus.Sender.{
  Sender, assigned_limit, carried, new_sender_of, oversized, with_client, with_limit, with_sender,
  exceeds, set_limit, set_sender, open_new, sender_open, sender_close, send, send_within,
  send_batch,
}
use go_rkvstcommon.Azbus.Sender.Laws.{sender_open-opens}

-- A call of the Sender
pub data Operation : Type 0 where
  open_sender close_it : Operation
  send_it : String → Outcome String (Dict String String) → BusMessage → Operation
  send_of_batch : ℕ → Operation

-- What a call of the SDK does with its sender
abbrev pub effect : Call → Effect
effect (new_sender name) = makes
effect (send_message id message) = uses
effect (send_message_batch batch) = uses
effect close_sender = closes
effect c = elsewhere

module _ (bus : Bus) where
  -- The method that is called
  unfoldable pub act : Operation → Exec (World Sender) BusError Unit
  unfolding sender_open sender_close send send_batch
  act open_sender = sender_open bus
  act close_it = sender_close bus
  act (send_it id injected message) = send bus id injected message
  act (send_of_batch batch) = send_batch bus batch

  -- The calls, one after the other, whatever each comes to
  unfoldable pub acts : List Operation → World Sender → World Sender
  unfolding act
  acts [] w = w
  acts (o ∷ os) w = acts os (act o w).1

  -- The sender, as it holds its connection
  abbrev holder : Holder Sender
  holder = record { bus = bus; effect = effect; opened = λ s. s.sender }

  Keeps-admin_open : (b : Bool) (c : AzClient) → Keeps holder b (admin_open bus c)
  unfolding admin_open
  Keeps-admin_open b c = Keeps-if holder b c.client _ _ (Keeps-pure holder b c) (
      Keeps-if holder b (c.connection_string == "") _ _ (Keeps-fail holder _ b no_connection_string)
        (Keeps->>= holder b _ _
          (Keeps-wrapping holder b _ (Keeps-elsewhere holder bus.done _ b refl))
          (λ t. Keeps-pure holder b _)))

  Keeps-get_queue_max_message_size :
      (b : Bool) (c : AzClient) (name : String)
      → Keeps holder b (get_queue_max_message_size bus c name)
  unfolding get_queue_max_message_size
  Keeps-get_queue_max_message_size b c name =
      Keeps->>= holder b (admin_open bus c) _ (Keeps-admin_open b c) (λ c'.
        Keeps->>= holder b (wrapping (perform bus.max_kilobytes (get_queue name))) _
          (Keeps-wrapping holder b (perform bus.max_kilobytes (get_queue name))
            (Keeps-elsewhere holder bus.max_kilobytes (get_queue name) b refl))
          (λ q. Keeps-pure holder b _))

  Keeps-assigned_limit :
      (b : Bool) (s : Sender) (o : Outcome BusError ℤ) (w : World Sender)
      → s.sender ≡ b
      → At holder b w
      → At holder b (assigned_limit bus s o w).1
  unfolding At assigned_limit
  Keeps-assigned_limit b s (ok n) w e a = (e, a.1)
  Keeps-assigned_limit b s (err x) w e a = (e, a.1)
  Keeps-assigned_limit b s panic w e a = a

  Keeps-set_limit : (b : Bool) (s : Sender) → s.sender ≡ b → Keeps holder b (set_limit bus s)
  unfolding set_limit Keeps
  Keeps-set_limit b s e =
      let asked = λ (w : World Sender).
        wrapping
          (get_queue_max_message_size bus (new_az_client s.connection_string) s.topic_or_queue_name)
          w in
      Keeps->>= holder b (λ w. assigned_limit bus s (asked w).0 (asked w).1) _
        (λ w a. Keeps-assigned_limit b s (asked w).0 (asked w).1 e (
          Keeps-wrapping holder b
            (get_queue_max_message_size bus (new_az_client s.connection_string)
              s.topic_or_queue_name)
            (Keeps-get_queue_max_message_size b _ _) w a))
        (λ n. Keeps-pure holder b (with_limit n s))

  Leaves-set_sender : (s : Sender) → Leaves holder false (set_sender bus s)
  unfolding set_sender InStep put
  Leaves-set_sender s =
      Leaves-makes holder (new_sender s.topic_or_queue_name) (put (with_sender true s)) refl
        (λ w f. f)

  Leaves-open_new : (s : Sender) → s.sender ≡ false → Leaves holder false (open_new bus s)
  unfolding open_new
  Leaves-open_new s e =
      Leaves->>= holder false (az_client bus s.az_client) _
        (Keeps-az_client holder false _ (λ n. refl))
        (λ c.
          Leaves->>= holder false (put (with_client c s)) _
            (Keeps-put holder false (with_client c s) e)
            (λ t.
              Leaves->>= holder false (set_limit bus (with_client c s)) (set_sender bus)
                (Keeps-set_limit false (with_client c s) e) Leaves-set_sender))

  sender_open-InStep : (w : World Sender) → InStep holder w → InStep holder (sender_open bus w).1
  unfolding sender_open get Leaves
  sender_open-InStep w i =
      InStep-if holder (pure tt) (open_new bus w.0) w i (λ t a. i)
        (λ f a. Leaves-open_new w.0 f w a)

  sender_close-InStep : (w : World Sender) → InStep holder w → InStep holder (sender_close bus w).1
  unfolding sender_close get Leaves
  sender_close-InStep w i =
      InStep-if holder _ (pure tt) w i
        (λ t a. Leaves-closes holder close_sender (with_sender false w.0) refl refl w a) (λ f a. i)

  Keeps-carried : (o : Outcome String BusMessage) → Keeps holder true (carried o)
  unfolding Keeps
  Keeps-carried (ok message) w a = a
  Keeps-carried (err e) w a = a
  Keeps-carried panic w a = a

  Keeps-send_within :
      (id : String) (injected : Outcome String (Dict String String)) (message : BusMessage)
      (s : Sender)
      → Keeps holder true (send_within bus id injected message s)
  unfolding send_within
  Keeps-send_within id injected message s =
      Keeps-if holder true (exceeds (length message.body) s.max_message_size_in_bytes) _ _
        (Keeps-fail holder _ true oversized)
        (Keeps->>= holder true (carried (update_sending_message_for_span injected message)) _
          (Keeps-carried _)
          (λ sent.
            Keeps-wrapping holder true _ (Keeps-uses holder bus.done (send_message id sent) refl)))

  -- What is done with a sender after Open
  opened-InStep :
      (f : Exec (World Sender) BusError Unit) (w : World Sender)
      → Keeps holder true f
      → InStep holder w
      → InStep holder ((sender_open bus >> f) w).1
  unfolding Keeps
  opened-InStep f w k i =
      let v = (sender_open bus w).1 in
      InStep->>= holder (sender_open bus) (λ t. f) w (sender_open-InStep w i)
        (λ t o.
          InStep-of-At holder true (f v).1
            (k v (At-of-InStep holder true v (sender_open-InStep w i) (sender_open-opens bus w o))))

  act-InStep : (o : Operation) (w : World Sender) → InStep holder w → InStep holder (act o w).1
  unfolding act send send_batch get Keeps
  act-InStep open_sender w i = sender_open-InStep w i
  act-InStep close_it w i = sender_close-InStep w i
  act-InStep (send_it id injected message) w i =
      opened-InStep (λ v. send_within bus id injected message v.0 v) w
        (λ v. Keeps-send_within id injected message v.0 v) i
  act-InStep (send_of_batch batch) w i =
      opened-InStep (wrapping (perform bus.done (send_message_batch batch))) w
        (Keeps-wrapping holder true (perform bus.done (send_message_batch batch))
          (Keeps-uses holder bus.done (send_message_batch batch) refl))
        i

  acts-InStep :
      (os : List Operation) (w : World Sender) → InStep holder w → InStep holder (acts os w)
  unfolding acts
  acts-InStep [] w i = i
  acts-InStep (o ∷ os) w i = acts-InStep os (act o w).1 (act-InStep o w i)

  -- However Open, Close, Send and SendBatch of a new sender are called, in any order and with any
  -- errors and panics of the SDK, its calls follow the protocol of the connection, and it holds the
  -- connection to be open just where it is: no message is sent and no sender is closed that is not
  -- open, and none is made where one is open.
  pub acts-follow :
      (os : List Operation) (connection_string name : String)
      → follow effect bus [] (acts os (new_sender_of connection_string name, [])).1 false
        ≡ some (acts os (new_sender_of connection_string name, [])).0.sender
  unfolding new_sender_of InStep follow
  acts-follow os connection_string name =
      acts-InStep os (new_sender_of connection_string name, []) refl
