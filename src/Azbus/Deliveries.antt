-- ===== src/Azbus/Deliveries.antt =====
-- The theorems of azbus on a receiver that is used and on the trace of a message: the properties'
-- hypotheses hold there.
use go_rkvstcommon.Prelude.{◌≡◌, true, none, some, List, [], ◌∷◌, false}
use go_rkvstcommon.Prelude.Outcome.{ok}
use go_rkvstcommon.Prelude.Dict.{string_key}
use go_rkvstcommon.Azbus.Bus.{
  Message, complete_disposition, Bus, History, new_az_client, new_client, new_receiver_for_queue,
  open_handler,
}
use go_rkvstcommon.Azbus.Protocol.{follow}
use go_rkvstcommon.Azbus.Receiver.{Receiver, ReceiverConfig, new_receiver}
use go_rkvstcommon.Azbus.Receiver.Rounds.{effect}
use go_rkvstcommon.Azbus.Receiver.Protocol.{
  Operation, open_receiver, close_it, shut_down, begin_it, receive_more, handle_one, settle_one,
  listen_for, acts, receiver-follows,
}
use go_rkvstcommon.Prelude.Int.{pos}
use go_rkvstcommon.Azbus.Batch.{BatchReceiverConfig, new_batch}
use go_rkvstcommon.Azbus.Batch.Protocol
use go_rkvstcommon.Azbus.Batch.Protocol.{
  BatchOperation, open_batch, close_batch, shut_down_batch, begin_batch, next_batch, dispose_one,
  listen_batches, batch-follows,
}

abbrev message : Message
message = record { message_id = "1"; delivery_count = 1 }

-- Every call succeeds.
abbrev bus : Bus
bus = record {
  done = λ h call. ok tt;
  max_kilobytes = λ h call. ok none;
  received = λ h call. ok (message ∷ []);
  handled = λ h call. ok (complete_disposition, none);
  disposed = λ h call. (complete_disposition, none, message) ∷ [];
}

abbrev cfg : ReceiverConfig
cfg = record {
  connection_string = "c";
  topic_or_queue_name = "q";
  subscription_name = "";
  deadletter = false;
}

abbrev operations : List Operation
operations =
    listen_for (((message, 1) ∷ []) ∷ [] ∷ [])
    ∷ begin_it
    ∷ receive_more
    ∷ handle_one message 1
    ∷ shut_down
    ∷ settle_one complete_disposition none message
    ∷ receive_more
    ∷ close_it
    ∷ open_receiver
    ∷ []

receiver-follows_example :
    follow effect bus [] (acts bus operations (new_receiver cfg (1 ∷ 2 ∷ []), [])).1 false
    ≡ some (acts bus operations (new_receiver cfg (1 ∷ 2 ∷ []), [])).0.receiver
receiver-follows_example = receiver-follows bus operations cfg (1 ∷ 2 ∷ [])

abbrev batch_cfg : BatchReceiverConfig
batch_cfg = record {
  connection_string = "c";
  topic_or_queue_name = "t";
  subscription_name = "s";
  batch_size = 4;
  batch_deadline = pos 0;
}

abbrev batches : List BatchOperation
batches =
    listen_batches 2
    ∷ next_batch
    ∷ shut_down_batch
    ∷ dispose_one complete_disposition none message
    ∷ next_batch
    ∷ begin_batch
    ∷ close_batch
    ∷ []

batch-follows_example :
    follow effect bus []
      (Protocol.acts bus batches (new_batch (some 1) batch_cfg (pos 7 ∷ []), [])).1
      false
    ≡ some (Protocol.acts bus batches (new_batch (some 1) batch_cfg (pos 7 ∷ []), [])).0.receiver
batch-follows_example = batch-follows bus batches batch_cfg (some 1) (pos 7 ∷ [])

abbrev listening : Receiver
listening = record {
  az_client = new_az_client "c";
  cfg = cfg;
  receiver = true;
  handlers = 1 ∷ [];
  cancel = true;
}

-- The calls of a receiver that listens
abbrev made : History
made = new_client "c" ∷ new_receiver_for_queue "q" false ∷ open_handler 1 ∷ []
