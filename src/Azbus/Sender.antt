-- ===== src/Azbus/Sender.antt =====
-- azbus/sender.go
pub mod Laws
pub mod Protocol
pub mod Trace
use go_rkvstcommon.Prelude.{ℕ, String, Bool, true, false, List, length, ltb, if◌then◌else◌}
use go_rkvstcommon.Prelude.Int.{ℤ, pos, negsuc}
use go_rkvstcommon.Prelude.Outcome.{Outcome, ok, err, panic}
use go_rkvstcommon.Prelude.Exec.{Exec, pure, fail, ◌>>=◌, ◌>>◌}
use go_rkvstcommon.Azbus.Error.{
  BusError, plain, wrapped, sentinel, err_message_oversized, new_azbus_error,
}
use go_rkvstcommon.Prelude.Dict.{Dict}
use go_rkvstcommon.Azbus.Messages.{BusMessage, update_sending_message_for_span}
use go_rkvstcommon.Azbus.Bus.{
  new_sender, send_message, send_message_batch, close_sender, Bus, World, perform, get, put,
  wrapping, logging, AzClient, new_az_client, az_client, get_queue_max_message_size,
}

-- type Sender struct, with its config; `sender` says whether the SDK's sender is open.
pub record Sender : Type 0 where
  pub az_client : AzClient
  pub connection_string : String
  pub topic_or_queue_name : String
  pub sender : Bool
  pub max_message_size_in_bytes : ℤ

-- NewSender
unfoldable pub new_sender_of : String → String → Sender
new_sender_of connection_string name = record {
  az_client = new_az_client connection_string;
  connection_string = connection_string;
  topic_or_queue_name = name;
  sender = false;
  max_message_size_in_bytes = pos 0;
}

-- size > limit
abbrev pub exceeds : ℕ → ℤ → Bool
exceeds size (pos limit) = ltb limit size
exceeds size (negsuc n) = true

abbrev pub oversized : BusError
oversized = wrapped (sentinel err_message_oversized)

-- updateSendingMesssageForSpan returns no error; it may panic.
abbrev pub carried : Outcome String BusMessage → Exec (World Sender) BusError BusMessage
carried (ok message) = pure message
carried (err e) = fail (plain e)
carried panic = λ w. (panic, w)

abbrev pub with_client : AzClient → Sender → Sender
with_client c s = record {
  az_client = c;
  connection_string = s.connection_string;
  topic_or_queue_name = s.topic_or_queue_name;
  sender = s.sender;
  max_message_size_in_bytes = s.max_message_size_in_bytes;
}

abbrev pub with_limit : ℤ → Sender → Sender
with_limit n s = record {
  az_client = s.az_client;
  connection_string = s.connection_string;
  topic_or_queue_name = s.topic_or_queue_name;
  sender = s.sender;
  max_message_size_in_bytes = n;
}

abbrev pub with_sender : Bool → Sender → Sender
with_sender b s = record {
  az_client = s.az_client;
  connection_string = s.connection_string;
  topic_or_queue_name = s.topic_or_queue_name;
  sender = b;
  max_message_size_in_bytes = s.max_message_size_in_bytes;
}

module _ (bus : Bus) where
  -- What getQueueMaxMessageSize returns is assigned to s.maxMessageSizeInBytes, also the 0 that comes
  -- with an error; a panic assigns nothing.
  assigned_limit : Sender → Outcome BusError ℤ → World Sender → Outcome BusError ℤ × World Sender
  assigned_limit s (ok n) w = (ok n, (with_limit n s, w.1))
  assigned_limit s (err e) w = (err e, (with_limit (pos 0) s, w.1))
  assigned_limit s panic w = (panic, w)

  -- The part of Open that gets the limit
  unfoldable pub set_limit : Sender → Exec (World Sender) BusError Sender
  unfolding wrapping assigned_limit
  set_limit s = do
    n ← (λ w.
        let (o, v) =
          wrapping
            (get_queue_max_message_size bus (new_az_client s.connection_string)
              s.topic_or_queue_name)
            w in
        assigned_limit s o v)
    pure (with_limit n s)

  -- The part of Open that makes the sender
  unfoldable pub set_sender : Sender → Exec (World Sender) BusError Unit
  unfolding perform wrapping put
  set_sender s = do
    wrapping (perform bus.done (new_sender s.topic_or_queue_name))
    put (with_sender true s)

  -- (*Sender).Open, where there is no sender
  unfoldable pub open_new : Sender → Exec (World Sender) BusError Unit
  unfolding put set_limit set_sender
  open_new s = do
    c ← az_client bus s.az_client
    put (with_client c s)
    t ← set_limit (with_client c s)
    set_sender t

  -- (*Sender).Open
  unfoldable pub sender_open : Exec (World Sender) BusError Unit
  unfolding get open_new
  sender_open = do s ← get; if s.sender then pure tt else open_new s

  -- (*Sender).Close, of a sender that is not nil
  unfoldable pub sender_close : Exec (World Sender) BusError Unit
  unfolding get put logging perform
  sender_close = do
    s ← get
    if s.sender
        then (do logging (perform bus.done close_sender); put (with_sender false s))
        else pure tt

  -- The part of Send after Open
  unfoldable pub send_within :
      String
      → Outcome String (Dict String String)
      → BusMessage
      → Sender
      → Exec (World Sender) BusError Unit
  unfolding perform wrapping update_sending_message_for_span
  send_within id injected message s =
      if exceeds (length message.body) s.max_message_size_in_bytes then fail oversized else (do
        sent ← carried (update_sending_message_for_span injected message)
        wrapping (perform bus.done (send_message id sent)))

  -- (*Sender).Send of a message, which is given the id that uuid.New makes, and where Inject of the
  -- tracer puts `injected` into the carrier
  unfoldable pub send :
      String → Outcome String (Dict String String) → BusMessage → Exec (World Sender) BusError Unit
  unfolding sender_open get send_within
  send id injected message = do sender_open; s ← get; send_within id injected message s

  -- (*Sender).SendBatch, of the batch with this number
  unfoldable pub send_batch : ℕ → Exec (World Sender) BusError Unit
  unfolding sender_open perform wrapping
  send_batch batch = do sender_open; wrapping (perform bus.done (send_message_batch batch))
