-- ===== src/Azbus/Disposition.antt =====
-- azbus/disposition.go: settling a message. `S` is the state of the Receiver or BatchReceiver, whose
-- methods of these names are the same.
pub mod Laws
use Prim.Native.String.{◌++◌ as append}
use go_rkvstcommon.Prelude.{String, Option, none, some}
use go_rkvstcommon.Prelude.Decimal.{format_int}
use go_rkvstcommon.Prelude.Outcome.{Outcome, ok, err, panic}
use go_rkvstcommon.Prelude.Exec.{Exec, pure}
use go_rkvstcommon.Azbus.Error.{BusError}
use go_rkvstcommon.Azbus.Bus.{
  Message, Disposition, deadletter_disposition, abandon_disposition, reschedule_disposition,
  complete_disposition, unknown_disposition, abandon_message, complete_message, dead_letter_message,
  Bus, World, perform, logging,
}

-- (Disposition).String
unfoldable disposition_string : Disposition → String
unfolding format_int
disposition_string deadletter_disposition = "DeadLetter"
disposition_string abandon_disposition = "Abandon"
disposition_string reschedule_disposition = "Reschedule"
disposition_string complete_disposition = "Complete"
disposition_string (unknown_disposition n) = append "Unknown" (format_int n)

module _ {S : Type 0} where
  -- What a disposition comes to where r.receiver is nil: the SDK's method panics, where one is called.
  unfoldable pub settle_nil : Disposition → Exec (World S) BusError (Unit {0})
  settle_nil reschedule_disposition = pure tt
  settle_nil (unknown_disposition n) = pure tt
  settle_nil d = λ w. (panic, w)

module _ (bus : Bus) {S : Type 0} where
  -- abandon
  unfoldable pub abandon : Option BusError → Message → Exec (World S) BusError (Unit {0})
  unfolding perform logging
  abandon e msg = logging (perform bus.done (abandon_message msg))

  -- deadLetter: err.Error() is called on whatever err is, a nil one too.
  unfoldable pub dead_letter : Option BusError → Message → Exec (World S) BusError (Unit {0})
  unfolding perform logging
  dead_letter none msg = λ w. (panic, w)
  dead_letter (some e) msg = logging (perform bus.done (dead_letter_message msg e))

  -- complete
  unfoldable pub complete : Option BusError → Message → Exec (World S) BusError (Unit {0})
  unfolding perform logging
  complete e msg = logging (perform bus.done (complete_message msg))

  -- reschedule, which only logs
  abbrev pub reschedule : Option BusError → Message → Exec (World S) BusError (Unit {0})
  reschedule e msg = pure tt

  -- (*Receiver).dispose and (*BatchReceiver).Dispose
  unfoldable pub dispose :
      Disposition → Option BusError → Message → Exec (World S) BusError (Unit {0})
  unfolding abandon dead_letter complete
  dispose deadletter_disposition e msg = dead_letter e msg
  dispose abandon_disposition e msg = abandon e msg
  dispose reschedule_disposition e msg = reschedule e msg
  dispose complete_disposition e msg = complete e msg
  dispose (unknown_disposition n) e msg = pure tt
