-- ===== src/Azbus/Sender/Trace.antt =====
-- That the trace of what azbus/sender.go sends reaches the receiver, by azbus/tracing.go.
use go_rkvstcommon.Prelude.{ℕ, String, ◌≡◌, sym, ap, ◌∙◌, some, List, [], ◌∷◌, ◌++◌}
use go_rkvstcommon.Prelude.Outcome.{ok, ok-injective}
use go_rkvstcommon.Prelude.Dict.{string_key, Dict, lookup}
use go_rkvstcommon.Azbus.Messages.{BusMessage, Properties, received_carrier}
use go_rkvstcommon.Azbus.Messages.Laws.{
  string_of, or_else, Unique, update_sending_message_for_span-received,
}
use go_rkvstcommon.Azbus.Bus.{Bus, World, send_message}
use go_rkvstcommon.Azbus.Sender.{Sender, sender_open, send}
use go_rkvstcommon.Azbus.Sender.Laws.{send-ok}

-- Where a message has a map of properties and the tracer injects a carrier, a Send that succeeds
-- makes, after the calls of Open, one call, which sends under its id the same body and properties of
-- which the receiver extracts from this carrier: all that was injected, and under each other key
-- the property that the message had before, if that is a string.
pub send-received :
    (bus : Bus) (id : String) (c : Dict String String) (body : List ℕ) (m : Properties)
    (w : World Sender)
    → Unique c
    → Unique m
    → (send bus id (ok c) (record { body = body; application_properties = some m }) w).0 ≡ ok tt
    → (m' : Properties) × ((send bus id
          (ok c)
          (record { body = body; application_properties = some m })
          w).1.1
        ≡ (sender_open bus w).1.1
          ++ send_message id (record { body = body; application_properties = some m' }) ∷ [])
      × ((k : String)
          → lookup k (received_carrier m') ≡ or_else (lookup k c) (string_of (lookup k m)))
send-received bus id c body m w uc um o =
    let message : BusMessage = record { body = body; application_properties = some m } in
    let (opened, small, sent, u, calls) = send-ok bus id (ok c) message w o in
    let (m', e, found) = update_sending_message_for_span-received c body m uc um in
    (
      m',
      calls
          ∙ ap (λ x. (sender_open bus w).1.1 ++ send_message id x ∷ []) (ok-injective (sym u ∙ e)),
      found,
    )
