-- ===== src/Azbus/Scenarios.antt =====
-- The theorems of azbus on a small service bus: the properties' hypotheses hold there.
use go_rkvstcommon.Prelude.{
  ℕ, ◌≡◌, ◌↔◌, ◌||◌, refl, true, false, none, some, List, [], ◌∷◌, ◌++◌, arith,
}
use go_rkvstcommon.Prelude.Int.{pos}
use go_rkvstcommon.Prelude.Outcome.{Outcome, ok, err, panic}
use go_rkvstcommon.Azbus.Error.{
  BusError, servicebus, wrapped, plain, code_lock_lost, err_lock_lost, err_message_oversized, is,
  as_servicebus, new_azbus_error,
}
use go_rkvstcommon.Azbus.Error.Laws.{named, new_azbus_error-is}
use go_rkvstcommon.Azbus.Bus.{
  Message, complete_disposition, Call, open_handler, close_handler, close_receiver, send_message,
  Bus, AzClient,
}
use go_rkvstcommon.Azbus.Protocol.{follow}
use go_rkvstcommon.Azbus.Sender.{new_sender_of, Sender, exceeds, oversized, sender_open, send}
use go_rkvstcommon.Azbus.Sender.Laws.{IsOver, IsWithin, send-limit, send-ok}
use go_rkvstcommon.Azbus.Sender.Trace.{send-received}
use go_rkvstcommon.Prelude.{String}
use go_rkvstcommon.Prelude.Dict.{Dict, lookup, string_key}
use go_rkvstcommon.Azbus.Messages.{
  BusMessage, new_out_message, text, other, Properties, update_sending_message_for_span,
  received_carrier,
}
use go_rkvstcommon.Azbus.Messages.Laws.{string_of, or_else, Unique}
use go_rkvstcommon.Azbus.Sender.Protocol.{
  Operation, open_sender, close_it, send_it, send_of_batch, effect, acts, acts-follow,
}
use go_rkvstcommon.Azbus.Receiver.{Receiver, ReceiverConfig, closed, shutdown}
use go_rkvstcommon.Azbus.Receiver.Laws.{shutdown-closes}
use go_rkvstcommon.Azbus.Pool.{
  idle, busy, Pool, receiving, waiting, start, receive, add, push, all_sent, wait, take, finish,
  Reach, here, next,
}
use go_rkvstcommon.Azbus.Pool.Account.{total, one, receiving-processed}
use go_rkvstcommon.Azbus.Pool.{receiving}
use go_rkvstcommon.Azbus.Pool.Stuck.{cancel-can_hang}

abbrev message : Message
message = record { message_id = "1"; delivery_count = 1 }

-- No handler opens; every other call succeeds.
abbrev done_of : Call → Outcome BusError Unit
done_of (open_handler j) = err (plain "no handler")
done_of _ = ok tt

abbrev bus : Bus
bus = record {
  done = λ h call. done_of call;
  max_kilobytes = λ h call. ok (some (pos 1));
  received = λ h call. ok (message ∷ []);
  handled = λ h call. ok (complete_disposition, none);
  disposed = λ h call. [];
}

abbrev client : AzClient
client = record { connection_string = "c"; client = true }

abbrev opened : Sender
opened = record {
  az_client = client;
  connection_string = "c";
  topic_or_queue_name = "q";
  sender = true;
  max_message_size_in_bytes = pos 2;
}

abbrev cfg : ReceiverConfig
cfg = record {
  connection_string = "c";
  topic_or_queue_name = "q";
  subscription_name = "";
  deadletter = false;
}

abbrev listening : Receiver
listening = record {
  az_client = client;
  cfg = cfg;
  receiver = true;
  handlers = 1 ∷ 2 ∷ [];
  cancel = true;
}

abbrev unopened : Receiver
unopened = record {
  az_client = client;
  cfg = cfg;
  receiver = false;
  handlers = 7 ∷ 8 ∷ [];
  cancel = true;
}

new_azbus_error-is_example :
    (is (new_azbus_error (wrapped (servicebus code_lock_lost))) err_lock_lost ≡ (
      is (wrapped (servicebus code_lock_lost)) err_lock_lost
      || named (as_servicebus (wrapped (servicebus code_lock_lost))) err_lock_lost))
    × (as_servicebus (new_azbus_error (wrapped (servicebus code_lock_lost)))
        ≡ as_servicebus (wrapped (servicebus code_lock_lost)))
new_azbus_error-is_example = new_azbus_error-is (wrapped (servicebus code_lock_lost)) err_lock_lost

abbrev carrier : Dict String String
carrier = ("x-b3-traceid", "t") ∷ []

abbrev own : Properties
own = ("n", other 1) ∷ ("x-b3-traceid", text "old") ∷ []

abbrev owned : BusMessage
owned = record { body = 1 ∷ []; application_properties = some own }

abbrev three : BusMessage
three = new_out_message (1 ∷ 2 ∷ 3 ∷ [])

send-limit_example :
    (IsOver (pos 2) 3
      → (send bus "id" (err "no tracer") three (opened, []) ≡ (err oversized, (opened, [])))
        × (is oversized err_message_oversized ≡ true))
    × (IsWithin (pos 2) 3
        → ((send bus "id" (err "no tracer") three (opened, [])).1
            ≡ (opened, send_message "id" three ∷ []))
          × (((send bus "id" (err "no tracer") three (opened, [])).0 ≡ ok tt)
              ↔ (bus.done [] (send_message "id" three) ≡ ok tt)))
unfolding update_sending_message_for_span
send-limit_example = send-limit bus "id" (err "no tracer") three three opened [] refl refl

abbrev one_byte : BusMessage
one_byte = new_out_message (1 ∷ [])

send-ok_example :
    ((send bus "id" (ok carrier) one_byte (opened, [])).1.0.sender ≡ true)
    × (exceeds 1 (send bus "id" (ok carrier) one_byte (opened, [])).1.0.max_message_size_in_bytes
        ≡ false)
    × (sent : BusMessage) × (update_sending_message_for_span (ok carrier) one_byte ≡ ok sent)
    × ((send bus "id" (ok carrier) one_byte (opened, [])).1.1
        ≡ (sender_open bus (opened, [])).1.1 ++ send_message "id" sent ∷ [])
unfolding send
send-ok_example = send-ok bus "id" (ok carrier) one_byte (opened, []) refl

send-received_example :
    (m' : Properties) × ((send bus "id" (ok carrier) owned (opened, [])).1.1
      ≡ (sender_open bus (opened, [])).1.1
        ++ send_message "id" (record { body = 1 ∷ []; application_properties = some m' }) ∷ [])
    × ((k : String)
        → lookup k (received_carrier m') ≡ or_else (lookup k carrier) (string_of (lookup k own)))
unfolding Unique send
send-received_example =
    send-received bus "id" carrier (1 ∷ []) own (opened, []) (refl, tt) (refl, (refl, tt)) refl

shutdown-closes_example :
    ((shutdown bus (listening, [])).1
      ≡ (closed listening, close_handler 1 ∷ close_handler 2 ∷ close_receiver ∷ []))
    × ((shutdown bus (shutdown bus (listening, [])).1).0 ≡ panic)
unfolding shutdown
shutdown-closes_example = shutdown-closes bus listening [] refl refl

-- One message, received, sent to the one worker, and taken.
abbrev taken : Pool ℕ
taken = record {
  phase = waiting;
  queue = [];
  workers = busy 5 ∷ [];
  wg = 1;
  cancelled = false;
  received = 5 ∷ [];
  processed = [];
}

abbrev again : Pool ℕ
again = record {
  phase = receiving;
  queue = [];
  workers = idle ∷ [];
  wg = 0;
  cancelled = false;
  received = 5 ∷ [];
  processed = 5 ∷ [];
}

Reach-taken : Reach ℕ (start ℕ 1) taken
unfolding start
Reach-taken =
    let r1 = next here (receive (start ℕ 1) (5 ∷ []) refl) in
    let r2 = next r1 (add _ 5 [] refl) in
    let r3 = next r2 (push _ 5 [] refl (omega arith)) in
    let r4 = next r3 (all_sent _ refl) in next r4 (take _ 5 [] [] [] refl refl)

Reach-again : Reach ℕ (start ℕ 1) again
Reach-again = next (next Reach-taken (finish _ 5 [] [] refl)) (wait _ refl refl)

receiving-processed_example : total one again.received ≡ total one again.processed
receiving-processed_example = receiving-processed 1 again one Reach-again refl

cancel-can_hang_example :
    (s : Pool ℕ) × Reach ℕ (start ℕ 1) s
    × ((s.phase ≡ waiting) × (s.queue ≡ 5 ∷ []) × (s.cancelled ≡ false))
    × ((v : Pool ℕ) × Reach ℕ s v × (v.phase ≡ receiving) × (v.processed ≡ 5 ∷ []))
    × (t : Pool ℕ) × Reach ℕ s t
    × ((t.queue ≡ 5 ∷ []) × (t.cancelled ≡ true))
    × ((u : Pool ℕ) → Reach ℕ t u → (u.phase ≡ waiting) × (u.processed ≡ []))
cancel-can_hang_example = cancel-can_hang 5

-- A sender that is opened, sends, is closed twice and sends again
abbrev operations : List Operation
operations =
    open_sender
    ∷ send_it "id" (ok carrier) one_byte
    ∷ close_it
    ∷ close_it
    ∷ send_of_batch 3
    ∷ open_sender
    ∷ []

acts-follow_example :
    follow effect bus [] (acts bus operations (new_sender_of "c" "q", [])).1 false
    ≡ some (acts bus operations (new_sender_of "c" "q", [])).0.sender
acts-follow_example = acts-follow bus operations "c" "q"
