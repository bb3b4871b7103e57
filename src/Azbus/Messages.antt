-- ===== src/Azbus/Messages.antt =====
-- azbus/outmessage.go, azbus/receivedmessage.go and azbus/tracing.go: the application properties of
-- messages, and the trace that goes with them. The tracer is not part of this repository: a parameter.
pub mod Laws
use go_rkvstcommon.Prelude.{ℕ, String, Option, none, some, List, [], ◌∷◌}
use go_rkvstcommon.Prelude.Outcome.{Outcome, ok, err, panic, and_then}
use go_rkvstcommon.Prelude.Dict.{string_key, Dict, insert}

-- A value of a property (any): a string, or a value of another type by a number
pub data Property : Type 0 where
  text : String → Property
  other : ℕ → Property

abbrev pub Properties : Type 0
Properties = Dict String Property

-- azservicebus.Message and azservicebus.ReceivedMessage, by their body and properties, where none is
-- a nil map
pub record BusMessage : Type 0 where
  pub body : List ℕ
  pub application_properties : Option Properties

-- NewOutMessage
abbrev pub new_out_message : List ℕ → BusMessage
new_out_message data_bytes = record { body = data_bytes; application_properties = some [] }

abbrev set_in : BusMessage → String → Property → Option Properties → Outcome String BusMessage
set_in o k v none = panic
set_in o k v (some m) = ok (record { body = o.body; application_properties = some (insert k v m) })

-- OutMessageSetProperty and ReceivedSetProperty: an assignment to a nil map panics.
unfoldable pub set_property : BusMessage → String → Property → Outcome String BusMessage
unfolding insert
set_property o k v = set_in o k v o.application_properties

or_empty : Option Properties → Properties
or_empty none = []
or_empty (some m) = m

-- OutMessageProperties and ReceivedProperties
unfoldable pub properties : BusMessage → Properties
unfolding or_empty
properties o = or_empty o.application_properties

-- for k, v := range carrier { OutMessageSetProperty(message, k, v) }
unfoldable pub set_all : Dict String String → BusMessage → Outcome String BusMessage
unfolding set_property
set_all [] o = ok o
set_all ((k, v) ∷ carrier) o = and_then (set_property o k (text v)) (set_all carrier)

-- (*Sender).updateSendingMesssageForSpan, of what Inject puts into the carrier
unfoldable pub update_sending_message_for_span :
    Outcome String (Dict String String) → BusMessage → Outcome String BusMessage
unfolding set_all
update_sending_message_for_span (ok carrier) o = set_all carrier o
update_sending_message_for_span (err e) o = ok o
update_sending_message_for_span panic o = panic

-- The carrier that CreateReceivedMessageTracingContext passes to Extract: the properties that are
-- strings
unfoldable pub received_carrier : Properties → Dict String String
unfolding insert
received_carrier [] = []
received_carrier ((k, text v) ∷ m) = insert k v (received_carrier m)
received_carrier ((k, other n) ∷ m) = received_carrier m

abbrev child_of : {P S : Type 0} → Outcome String P → (Option P → S) → Outcome String S
child_of (ok p) start_span = ok (start_span (some p))
child_of (err e) start_span = ok (start_span none)
child_of panic start_span = panic

-- CreateReceivedMessageTracingContext: the span, which is the child of what Extract finds, if it
-- finds anything
unfoldable pub received_span :
    {P S : Type 0}
    → (Dict String String → Outcome String P)
    → (Option P → S)
    → BusMessage
    → Outcome String S
unfolding received_carrier properties
received_span extract start_span message =
    child_of (extract (received_carrier (properties message))) start_span

-- The carrier that CreateBatchReceivedMessageTracingContext of azbus/batchreceiver.go passes to
-- Extract
unfoldable pub batch_carrier : Dict String String → Dict String String
unfolding insert
batch_carrier [] = []
batch_carrier ((k, v) ∷ span_props) = insert k v (batch_carrier span_props)

-- CreateBatchReceivedMessageTracingContext: the span
unfoldable pub batch_span :
    {P S : Type 0}
    → (Dict String String → Outcome String P)
    → (Option P → S)
    → Dict String String
    → Outcome String S
unfolding batch_carrier
batch_span extract start_span span_props = child_of (extract (batch_carrier span_props)) start_span
