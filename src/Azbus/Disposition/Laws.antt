-- ===== src/Azbus/Disposition/Laws.antt =====
-- How many settlements a disposition makes.
use go_rkvstcommon.Prelude.{◌≡◌, refl, ◌≢◌, Option, none, some, List, [], ◌∷◌, ◌++◌, arith}
use mathlib.Core.List.{append-nil}
use go_rkvstcommon.Prelude.Outcome.{err, panic, Outcome-cases}
use go_rkvstcommon.Prelude.{inl, inr}
use go_rkvstcommon.Azbus.Error.{BusError}
use go_rkvstcommon.Azbus.Bus.{
  Message, Disposition, deadletter_disposition, abandon_disposition, reschedule_disposition,
  complete_disposition, unknown_disposition, abandon_message, complete_message, dead_letter_message,
  Bus, World, Call, perform, logging,
}
use go_rkvstcommon.Azbus.Disposition.{abandon, dead_letter, complete, dispose}

-- The settlement that a disposition asks for: none, or one of this message.
abbrev pub settlement : Disposition → Option BusError → Message → List Call
settlement deadletter_disposition none msg = []
settlement deadletter_disposition (some e) msg = dead_letter_message msg e ∷ []
settlement abandon_disposition e msg = abandon_message msg ∷ []
settlement reschedule_disposition e msg = []
settlement complete_disposition e msg = complete_message msg ∷ []
settlement (unknown_disposition n) e msg = []

module _ (bus : Bus) {S : Type 0} where
  -- Whatever the service replies, disposing of a message adds exactly its settlement to the calls
  -- and leaves the state, and the result is no error.
  dispose-settles :
      (d : Disposition) (e : Option BusError) (msg : Message) (w : World S)
      → ((dispose bus d e msg w).1 ≡ (w.0, w.1 ++ settlement d e msg))
        × ((x : BusError) → (dispose bus d e msg w).0 ≢ err x)
  unfolding dispose abandon dead_letter complete logging perform
  dispose-settles deadletter_disposition none msg w = ground (arith, append-nil w.1)
  dispose-settles deadletter_disposition (some e) msg w =
      elim (Outcome-cases (bus.done w.1 (dead_letter_message msg e))) [
        | inl (t, d) ↦ ground arith
        | inr (inl (e', d)) ↦ ground arith
        | inr (inr d) ↦ ground arith
      ]
  dispose-settles abandon_disposition e msg w =
      elim (Outcome-cases (bus.done w.1 (abandon_message msg))) [
        | inl (t, d) ↦ ground arith
        | inr (inl (e', d)) ↦ ground arith
        | inr (inr d) ↦ ground arith
      ]
  dispose-settles reschedule_disposition e msg w = ground (arith, append-nil w.1)
  dispose-settles complete_disposition e msg w =
      elim (Outcome-cases (bus.done w.1 (complete_message msg))) [
        | inl (t, d) ↦ ground arith
        | inr (inl (e', d)) ↦ ground arith
        | inr (inr d) ↦ ground arith
      ]
  dispose-settles (unknown_disposition n) e msg w = ground (arith, append-nil w.1)

  -- A deadletter disposition without an error panics.
  pub dispose-deadletter_nil :
      (msg : Message) (w : World S) → (dispose bus deadletter_disposition none msg w).0 ≡ panic
  unfolding dispose dead_letter
  dispose-deadletter_nil msg w = refl
