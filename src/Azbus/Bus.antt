-- ===== src/Azbus/Bus.antt =====
-- azbus/azclient.go and azbus/azadmin.go, over the Azure service bus SDK and the handlers of
-- messages, which are not part of this repository: what a call returns is a function of the calls
-- made before it, and each call is recorded with its arguments.
use go_rkvstcommon.Prelude.{
  ℕ, ◌+◌, ◌-◌, ◌*◌, ◌%◌, ◌^◌, String, ◌==◌, Bool, true, false, Option, none, some, List, [], ◌∷◌,
  ◌++◌, ltb, if◌then◌else◌, ◌≡◌,
}
use go_rkvstcommon.Prelude.Int.{ℤ, pos, negsuc}
use go_rkvstcommon.Prelude.Outcome.{Outcome, ok, err, panic}
use go_rkvstcommon.Prelude.Exec.{Exec, pure, fail, ◌>>=◌, ◌>>◌}
use go_rkvstcommon.Azbus.Error.{BusError, plain, wrapped, new_azbus_error}
use go_rkvstcommon.Azbus.Messages.{BusMessage}

-- A ReceivedMessage, by its id, and how often it was delivered
pub record Message : Type 0 where
  pub message_id : String
  pub delivery_count : ℕ

-- type Disposition int, with the value of an unknown one
pub data Disposition : Type 0 where
  deadletter_disposition abandon_disposition : Disposition
  reschedule_disposition complete_disposition : Disposition
  unknown_disposition : ℤ → Disposition

-- A call of the SDK or of a handler, where a handler is known by a number, and a message that is sent
-- by its MessageID and the rest of it
pub data Call : Type 0 where
  new_client new_admin_client : String → Call
  get_queue get_topic : String → Call
  new_sender : String → Call
  send_message : String → BusMessage → Call
  send_message_batch : ℕ → Call
  close_sender : Call
  new_receiver_for_queue : String → Bool → Call
  new_receiver_for_subscription : String → String → Bool → Call
  receive_messages : ℕ → Call
  close_receiver : Call
  open_handler close_handler : ℕ → Call
  handle : ℕ → List Message → Call
  abandon_message complete_message renew_message_lock : Message → Call
  dead_letter_message : Message → BusError → Call

abbrev pub History : Type 0
History = List Call

pub record Bus : Type 0 where
  pub done : History → Call → Outcome BusError (Unit {0})
  -- MaxMessageSizeInKilobytes
  pub max_kilobytes : History → Call → Outcome BusError (Option ℤ)
  pub received : History → Call → Outcome BusError (List Message)
  pub handled : History → Call → Outcome BusError (Disposition × Option BusError)
  -- The calls of Dispose that a batch handler makes while it handles a batch
  pub disposed : History → Call → List (Disposition × Option BusError × Message)

-- The world of an object with state S: that state, and the calls made.
abbrev pub World : Type 0 → Type 0
World S = S × History

abbrev pub wrap_outcome : {A : Type 0} → Outcome BusError A → Outcome BusError A
wrap_outcome (ok a) = ok a
wrap_outcome (err e) = err (wrapped (new_azbus_error e))
wrap_outcome panic = panic

pub wrap_outcome-eq-ok :
    {A : Type 0} (o : Outcome BusError A) (a : A) → wrap_outcome o ≡ ok a → o ≡ ok a
wrap_outcome-eq-ok (ok b) a h = h
wrap_outcome-eq-ok (err e) a h = cc
wrap_outcome-eq-ok panic a h = cc

abbrev ignore_outcome : {A : Type 0} → Outcome BusError A → Outcome BusError (Unit {0})
ignore_outcome (ok a) = ok tt
ignore_outcome (err e) = ok tt
ignore_outcome panic = panic

module _ {S : Type 0} where
  -- A call is recorded, and answered by `answer`.
  unfoldable pub perform :
      {A : Type 0} → (History → Call → Outcome BusError A) → Call → Exec (World S) BusError A
  perform answer call w = (answer w.1 call, (w.0, w.1 ++ call ∷ []))

  unfoldable pub get : Exec (World S) BusError S
  get w = (ok w.0, w)

  unfoldable pub put : S → Exec (World S) BusError (Unit {0})
  put s w = (ok tt, (s, w.1))

  -- if err != nil { return fmt.Errorf("...: %w", NewAzbusError(err)) }
  unfoldable pub wrapping : {A : Type 0} → Exec (World S) BusError A → Exec (World S) BusError A
  wrapping m w = (wrap_outcome (m w).0, (m w).1)

  -- An error that is only logged
  unfoldable pub logging :
      {A : Type 0} → Exec (World S) BusError A → Exec (World S) BusError (Unit {0})
  logging m w = (ignore_outcome (m w).0, (m w).1)

-- type AZClient struct, where `client` says whether it is made; azAdminClient has the same form
pub record AzClient : Type 0 where
  pub connection_string : String
  pub client : Bool

abbrev pub new_az_client : String → AzClient
new_az_client s = record { connection_string = s; client = false }

abbrev pub no_connection_string : BusError
no_connection_string = plain "failed to create client"

-- two's complement, of a number below 2 ^ 64
abbrev pub signed : ℕ → ℤ
signed u = if ltb u (2 ^ 63) then pos u else negsuc (2 ^ 64 - 1 - u)

-- n * factor on int64
unfoldable pub times : ℕ → ℤ → ℤ
times factor (pos n) = signed (n * factor % 2 ^ 64)
times factor (negsuc n) = signed ((2 ^ 64 - (n + 1) * factor % 2 ^ 64) % 2 ^ 64)

abbrev pub default_max_message_size : ℤ
default_max_message_size = pos 262144

abbrev max_size : Option ℤ → ℤ
max_size none = default_max_message_size
max_size (some n) = times 1024 n

module _ (bus : Bus) {S : Type 0} where
  -- (*AZClient).azClient: the client, which is made once
  unfoldable pub az_client : AzClient → Exec (World S) BusError AzClient
  unfolding perform wrapping
  az_client c =
      if c.client
      then pure c
      else (if c.connection_string == "" then fail no_connection_string else (do
        wrapping (perform bus.done (new_client c.connection_string))
        pure (record { connection_string = c.connection_string; client = true })))

  -- (*azAdminClient).open
  unfoldable pub admin_open : AzClient → Exec (World S) BusError AzClient
  unfolding perform wrapping
  admin_open c =
      if c.client
      then pure c
      else (if c.connection_string == "" then fail no_connection_string else (do
        wrapping (perform bus.done (new_admin_client c.connection_string))
        pure (record { connection_string = c.connection_string; client = true })))

  -- (*azAdminClient).getQueueMaxMessageSize
  unfoldable pub get_queue_max_message_size : AzClient → String → Exec (World S) BusError ℤ
  unfolding perform wrapping admin_open
  get_queue_max_message_size c queue_name = do
    admin_open c
    q ← wrapping (perform bus.max_kilobytes (get_queue queue_name))
    pure (max_size q)

  -- (*azAdminClient).getTopicMaxMessageSize
  unfoldable pub get_topic_max_message_size : AzClient → String → Exec (World S) BusError ℤ
  unfolding perform wrapping admin_open
  get_topic_max_message_size c topic_name = do
    admin_open c
    t ← wrapping (perform bus.max_kilobytes (get_topic topic_name))
    pure (max_size t)
