-- ===== src/Azbus/Batch.antt =====
-- azbus/batchreceiver.go. How the deadline ends a context and the logs are not modelled, and neither is
-- a BatchSize below 0; the span is in Azbus.Messages.
pub mod Laws
pub mod Protocol
use go_rkvstcommon.Prelude.{
  ℕ, zero, suc, String, ◌==◌, Bool, true, false, Option, none, some, List, [], ◌∷◌, nat_eq, not,
  if◌then◌else◌,
}
use Prim.Native.String.{◌++◌ as append}
use go_rkvstcommon.Prelude.Int.{ℤ, pos, int_eq}
use go_rkvstcommon.Prelude.Outcome.{Outcome, ok, err, panic}
use go_rkvstcommon.Prelude.Exec.{Exec, pure, fail, ◌>>=◌, ◌>>◌}
use go_rkvstcommon.Azbus.Error.{BusError, plain, wrapped}
use go_rkvstcommon.Azbus.Disposition.{dispose, settle_nil}
use go_rkvstcommon.Azbus.Bus.{
  Message, Disposition, new_receiver_for_queue, new_receiver_for_subscription, receive_messages,
  open_handler, close_handler, close_receiver, handle, Call, Bus, World, perform, get, put,
  wrapping, logging, AzClient, new_az_client, az_client,
}

-- type BatchReceiverConfig struct, without Deadletter, which nothing reads; the deadline is a duration
-- in nanoseconds.
pub record BatchReceiverConfig : Type 0 where
  pub connection_string : String
  pub topic_or_queue_name : String
  pub subscription_name : String
  pub batch_size : ℕ
  pub batch_deadline : ℤ

-- type BatchReceiver struct: whether its receiver and its cancel are set, and its handler's number.
-- Its Options are nil.
pub record BatchReceiver : Type 0 where
  pub az_client : AzClient
  pub cfg : BatchReceiverConfig
  pub receiver : Bool
  pub handler : Option ℕ
  pub cancel : Bool

-- WithBatchDeadline
abbrev pub with_batch_deadline : ℤ → BatchReceiverConfig → BatchReceiverConfig
with_batch_deadline d cfg = record {
  connection_string = cfg.connection_string;
  topic_or_queue_name = cfg.topic_or_queue_name;
  subscription_name = cfg.subscription_name;
  batch_size = cfg.batch_size;
  batch_deadline = d;
}

-- for _, opt := range opts { opt(&r) }, of options that are WithBatchDeadline
unfoldable pub apply_deadlines : List ℤ → BatchReceiverConfig → BatchReceiverConfig
apply_deadlines [] cfg = cfg
apply_deadlines (d ∷ ds) cfg = apply_deadlines ds (with_batch_deadline d cfg)

-- if r.Cfg.BatchDeadline == 0 { r.Cfg.BatchDeadline = DefaultRenewalTime }
unfoldable pub with_default_deadline : BatchReceiverConfig → BatchReceiverConfig
with_default_deadline cfg =
    if int_eq cfg.batch_deadline (pos 0) then with_batch_deadline (pos 50000000000) cfg else cfg

-- NewBatchReceiver, where `deadlines` are those of its options
unfoldable pub new_batch : Option ℕ → BatchReceiverConfig → List ℤ → BatchReceiver
unfolding apply_deadlines with_default_deadline
new_batch handler cfg deadlines = record {
  az_client = new_az_client cfg.connection_string;
  cfg = with_default_deadline (apply_deadlines deadlines cfg);
  receiver = false;
  handler = handler;
  cancel = false;
}

abbrev pub with_client : AzClient → BatchReceiver → BatchReceiver
with_client c r = record {
  az_client = c;
  cfg = r.cfg;
  receiver = r.receiver;
  handler = r.handler;
  cancel = r.cancel;
}

abbrev pub with_receiver : BatchReceiver → BatchReceiver
with_receiver r = record {
  az_client = r.az_client;
  cfg = r.cfg;
  receiver = true;
  handler = r.handler;
  cancel = r.cancel;
}

abbrev pub with_cancel : BatchReceiver → BatchReceiver
with_cancel r = record {
  az_client = r.az_client;
  cfg = r.cfg;
  receiver = r.receiver;
  handler = r.handler;
  cancel = true;
}

-- r.Handler = nil; r.Receiver = nil; r.Cancel = nil
abbrev pub closed_batch : BatchReceiver → BatchReceiver
closed_batch r = record {
  az_client = r.az_client;
  cfg = r.cfg;
  receiver = false;
  handler = none;
  cancel = false;
}

abbrev pub bad_batch_size : BusError
bad_batch_size = plain "BatchSize must be greater than zero"

-- (*BatchReceiver).String
unfoldable batch_string : BatchReceiverConfig → String
batch_string cfg =
    if not (cfg.subscription_name == "")
    then append cfg.topic_or_queue_name (append "." cfg.subscription_name)
    else cfg.topic_or_queue_name

-- The SDK's call that makes the receiver
unfoldable pub new_batch_call : BatchReceiverConfig → Call
new_batch_call cfg =
    if cfg.subscription_name == ""
    then new_receiver_for_queue cfg.topic_or_queue_name false
    else new_receiver_for_subscription cfg.topic_or_queue_name cfg.subscription_name false

-- fmt.Errorf("failed to open batch handler: %w", err)
abbrev pub wrap_error : Outcome BusError (Unit {0}) → Outcome BusError (Unit {0})
wrap_error (ok t) = ok tt
wrap_error (err e) = err (wrapped e)
wrap_error panic = panic

-- The error of Handle, returned as it is
abbrev pub result_of :
    Disposition × Option BusError → Exec (World BatchReceiver) BusError (Unit {0})
result_of (d, none) = pure tt
result_of (d, some e) = fail e

module _ (bus : Bus) where
  -- The calls of (*BatchReceiver).Dispose that a handler makes
  unfoldable pub dispose_all :
      List (Disposition × Option BusError × Message)
      → Exec (World BatchReceiver) BusError (Unit {0})
  unfolding dispose
  dispose_all [] = pure tt
  dispose_all ((d, e, msg) ∷ more) = dispose bus d e msg >> dispose_all more

  -- r.Handler.Handle(batchCtx, r, messages), of a handler that may be nil, with its calls of Dispose
  unfoldable pub handle_batch :
      Option ℕ → List Message → Exec (World BatchReceiver) BusError (Unit {0})
  unfolding perform dispose_all
  handle_batch none messages = λ w. (panic, w)
  handle_batch (some j) messages = λ w.
      (do
        r ← perform bus.handled (handle j messages)
        dispose_all (bus.disposed w.1 (handle j messages))
        result_of r)
        w

  -- The part after ReceiveMessages, which first reads messages[0]
  unfoldable pub handle_received :
      Option ℕ → List Message → Exec (World BatchReceiver) BusError (Unit {0})
  unfolding handle_batch
  handle_received handler [] = λ w. (panic, w)
  handle_received handler (m ∷ ms) = handle_batch handler (m ∷ ms)

  -- (*BatchReceiver).receiveOneMessageBatch
  unfoldable pub receive_one_message_batch : Exec (World BatchReceiver) BusError (Unit {0})
  unfolding get perform wrapping handle_received
  receive_one_message_batch = do
    r ← get
    if nat_eq r.cfg.batch_size 0 then fail bad_batch_size else (do
      messages ← wrapping (perform bus.received (receive_messages r.cfg.batch_size))
      handle_received r.handler messages)

  -- A round of receiveMessages where Shutdown may have come before it: ReceiveMessages of a receiver
  -- that is nil panics.
  unfoldable pub batch_round : Exec (World BatchReceiver) BusError (Unit {0})
  unfolding get receive_one_message_batch
  batch_round = do r ← get; if r.receiver then receive_one_message_batch else (λ w. (panic, w))

  -- Dispose, called by a handler that Shutdown may have overtaken
  unfoldable pub dispose_late :
      Disposition → Option BusError → Message → Exec (World BatchReceiver) BusError (Unit {0})
  unfolding get dispose settle_nil
  dispose_late d e msg = do r ← get; if r.receiver then dispose bus d e msg else settle_nil d

  -- (*BatchReceiver).receiveMessages, whose loop only ends by an error; `ok` where the fuel runs out
  unfoldable pub receive_batches : ℕ → Exec (World BatchReceiver) BusError (Unit {0})
  unfolding receive_one_message_batch
  receive_batches zero = pure tt
  receive_batches (suc fuel) = receive_one_message_batch >> receive_batches fuel

  -- if r.Handler != nil { err = r.Handler.Open() ... }
  unfoldable pub open_batch_handler : Option ℕ → Exec (World BatchReceiver) BusError (Unit {0})
  unfolding perform
  open_batch_handler none = pure tt
  open_batch_handler (some j) = λ w.
      (wrap_error (perform bus.done (open_handler j) w).0, (perform bus.done (open_handler j) w).1)

  -- (*BatchReceiver).open, where there is no receiver
  unfoldable pub batch_open_new : BatchReceiver → Exec (World BatchReceiver) BusError (Unit {0})
  unfolding put perform wrapping open_batch_handler
  batch_open_new r = do
    c ← az_client bus r.az_client
    put (with_client c r)
    wrapping (perform bus.done (new_batch_call r.cfg))
    put (with_receiver (with_client c r))
    open_batch_handler r.handler

  -- (*BatchReceiver).open
  unfoldable pub batch_open : Exec (World BatchReceiver) BusError (Unit {0})
  unfolding get batch_open_new
  batch_open = do r ← get; if r.receiver then pure tt else batch_open_new r

  -- if r.Handler != nil { r.Handler.Close() ... }
  unfoldable pub close_batch_handler : Option ℕ → Exec (World BatchReceiver) BusError (Unit {0})
  unfolding perform logging
  close_batch_handler none = pure tt
  close_batch_handler (some j) = logging (perform bus.done (close_handler j))

  -- (*BatchReceiver).close_
  unfoldable pub batch_close : Exec (World BatchReceiver) BusError (Unit {0})
  unfolding get put logging perform close_batch_handler
  batch_close = do
    r ← get
    if r.receiver
        then (do
          close_batch_handler r.handler
          logging (perform bus.done close_receiver)
          put (closed_batch r))
        else pure tt

  -- (*BatchReceiver).Listen, for `fuel` batches, where Shutdown does not come beside it
  unfoldable pub batch_listen : ℕ → Exec (World BatchReceiver) BusError (Unit {0})
  unfolding get put wrapping batch_open receive_batches
  batch_listen fuel = do r ← get; put (with_cancel r); wrapping batch_open; receive_batches fuel

  -- (*BatchReceiver).Listen up to receiveMessages
  unfoldable pub batch_begin : Exec (World BatchReceiver) BusError (Unit {0})
  unfolding get put wrapping batch_open
  batch_begin = do r ← get; put (with_cancel r); wrapping batch_open

  -- (*BatchReceiver).Shutdown
  unfoldable pub batch_shutdown : Exec (World BatchReceiver) BusError (Unit {0})
  unfolding get batch_close
  batch_shutdown = do r ← get; if r.cancel then batch_close else (λ w. (panic, w))
