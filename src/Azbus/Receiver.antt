-- ===== src/Azbus/Receiver.antt =====
-- azbus/receiver.go: the life of a Receiver, and how one message is processed. The workers of
-- receiveMessages are in Azbus.Pool.
pub mod Laws
pub mod Rounds
pub mod Protocol
pub mod Locks
pub mod Window
use go_rkvstcommon.Prelude.{
  ℕ, String, ◌==◌, Bool, true, false, Option, none, some, List, [], ◌∷◌, ◌++◌, if◌then◌else◌,
}
use go_rkvstcommon.Prelude.Outcome.{Outcome, ok, err, panic}
use go_rkvstcommon.Prelude.Exec.{Exec, pure, fail, ◌>>=◌, ◌>>◌}
use go_rkvstcommon.Azbus.Error.{BusError, wrapped}
use go_rkvstcommon.Azbus.Bus.{
  Message, receive_messages, Disposition, new_receiver_for_queue, new_receiver_for_subscription,
  open_handler, close_handler, close_receiver, handle, Call, Bus, World, perform, get, put,
  wrapping, logging, AzClient, new_az_client, az_client,
}
use go_rkvstcommon.Azbus.Disposition.{dispose, settle_nil}

-- type ReceiverConfig struct, without the renewal of locks, which is in Azbus.Receiver.Locks
pub record ReceiverConfig : Type 0 where
  pub connection_string : String
  pub topic_or_queue_name : String
  pub subscription_name : String
  pub deadletter : Bool

-- type Receiver struct: whether its receiver and its cancel are set, and its handlers' numbers
pub record Receiver : Type 0 where
  pub az_client : AzClient
  pub cfg : ReceiverConfig
  pub receiver : Bool
  pub handlers : List ℕ
  pub cancel : Bool

-- NewReceiver with WithHandlers
unfoldable pub new_receiver : ReceiverConfig → List ℕ → Receiver
new_receiver cfg handlers = record {
  az_client = new_az_client cfg.connection_string;
  cfg = cfg;
  receiver = false;
  handlers = handlers;
  cancel = false;
}

abbrev pub with_client : AzClient → Receiver → Receiver
with_client c r = record {
  az_client = c;
  cfg = r.cfg;
  receiver = r.receiver;
  handlers = r.handlers;
  cancel = r.cancel;
}

abbrev pub with_receiver : Receiver → Receiver
with_receiver r = record {
  az_client = r.az_client;
  cfg = r.cfg;
  receiver = true;
  handlers = r.handlers;
  cancel = r.cancel;
}

abbrev pub with_cancel : Receiver → Receiver
with_cancel r = record {
  az_client = r.az_client;
  cfg = r.cfg;
  receiver = r.receiver;
  handlers = r.handlers;
  cancel = true;
}

-- r.handlers = []Handler{}; r.receiver = nil; r.cancel = nil
abbrev pub closed : Receiver → Receiver
closed r = record {
  az_client = r.az_client;
  cfg = r.cfg;
  receiver = false;
  handlers = [];
  cancel = false;
}

-- The SDK's call that makes the receiver
unfoldable pub new_call : ReceiverConfig → Call
new_call cfg =
    if cfg.subscription_name == ""
    then new_receiver_for_queue cfg.topic_or_queue_name cfg.deadletter
    else new_receiver_for_subscription cfg.topic_or_queue_name cfg.subscription_name cfg.deadletter

-- fmt.Errorf("failed to open handler: %w", err)
abbrev pub wrap_error : Outcome BusError Unit → Outcome BusError Unit
wrap_error (ok t) = ok tt
wrap_error (err e) = err (wrapped e)
wrap_error panic = panic

module _ (bus : Bus) where
  -- The loop of open over the handlers
  unfoldable pub open_handlers : List ℕ → Exec (World Receiver) BusError Unit
  unfolding perform
  open_handlers [] = pure tt
  open_handlers (j ∷ js) =
      (λ w. (
        wrap_error (perform bus.done (open_handler j) w).0,
        (perform bus.done (open_handler j) w).1,
      ))
      >> open_handlers js

  -- The loop of close_ over the handlers, whose Close returns nothing
  unfoldable pub close_handlers : List ℕ → Exec (World Receiver) BusError Unit
  unfolding perform logging
  close_handlers [] = pure tt
  close_handlers (j ∷ js) = logging (perform bus.done (close_handler j)) >> close_handlers js

  -- (*Receiver).open, where there is no receiver
  unfoldable pub open_new : Receiver → Exec (World Receiver) BusError Unit
  unfolding put perform wrapping open_handlers
  open_new r = do
    c ← az_client bus r.az_client
    put (with_client c r)
    wrapping (perform bus.done (new_call r.cfg))
    put (with_receiver (with_client c r))
    open_handlers r.handlers

  -- (*Receiver).open
  unfoldable pub receiver_open : Exec (World Receiver) BusError Unit
  unfolding get open_new
  receiver_open = do r ← get; if r.receiver then pure tt else open_new r

  -- The part of close_ where there is a receiver
  unfoldable pub close_open : Receiver → Exec (World Receiver) BusError Unit
  unfolding close_handlers logging perform put
  close_open r = do
    close_handlers r.handlers
    logging (perform bus.done close_receiver)
    put (closed r)

  -- (*Receiver).close_
  unfoldable pub receiver_close : Exec (World Receiver) BusError Unit
  unfolding get close_open
  receiver_close = do r ← get; if r.receiver then close_open r else pure tt

  -- (*Receiver).Listen up to receiveMessages
  unfoldable pub begin_listen : Exec (World Receiver) BusError Unit
  unfolding get put wrapping receiver_open
  begin_listen = do r ← get; put (with_cancel r); wrapping receiver_open

  -- r.receiver.ReceiveMessages where Shutdown may have come before it: of a receiver that is nil it
  -- panics.
  unfoldable pub receive_next : ℕ → Exec (World Receiver) BusError (List Message)
  unfolding get wrapping perform
  receive_next n = do
    r ← get
    if r.receiver then wrapping (perform bus.received (receive_messages n)) else (λ w. (panic, w))

  -- dispose, by a worker that Shutdown may have overtaken
  unfoldable pub settle_late :
      Disposition → Option BusError → Message → Exec (World Receiver) BusError Unit
  unfolding get dispose settle_nil
  settle_late d e msg = do r ← get; if r.receiver then dispose bus d e msg else settle_nil d

  -- (*Receiver).Listen, where `receiving` is its last call, and Shutdown does not come beside
  -- it
  unfoldable pub listen : Exec (World Receiver) BusError Unit → Exec (World Receiver) BusError Unit
  unfolding get put wrapping receiver_open
  listen receiving = do r ← get; put (with_cancel r); wrapping receiver_open; receiving

  -- (*Receiver).Shutdown, which calls r.cancel whether it is nil or not
  unfoldable pub shutdown : Exec (World Receiver) BusError Unit
  unfolding get receiver_close
  shutdown = do r ← get; if r.cancel then receiver_close else (λ w. (panic, w))

  -- (*Receiver).processMessage, by the handler with this number
  unfoldable pub process_message : Message → ℕ → Exec (World Receiver) BusError Unit
  unfolding perform dispose
  process_message msg handler = do
    (disposition, e) ← perform bus.handled (handle handler (msg ∷ []))
    dispose bus disposition e msg
