-- ===== src/Azbus/Protocol.antt =====
-- The order in which the Azure service bus SDK's connections may be used (the Sender and the
-- Receiver that azbus/sender.go and azbus/receiver.go keep): a connection is made, then used,
-- then closed, and what is not open is neither used nor closed.
pub mod Keeps
pub mod Changes
use go_rkvstcommon.Prelude.{Bool, true, false, Option, none, some, List, [], ◌∷◌, ◌++◌}
use go_rkvstcommon.Prelude.Outcome.{Outcome, ok, err, panic}
use go_rkvstcommon.Azbus.Error.{BusError}
use go_rkvstcommon.Azbus.Bus.{Call, History, Bus}

-- What a call does with the connection
pub data Effect : Type 0 where
  makes uses closes elsewhere : Effect

-- Whether a connection is open after a call with this effect and outcome, where `none` is a call
-- out of order. A close whose error comes back has closed; one that panics has not returned.
unfoldable pub after : Bool → Effect → Outcome BusError (Unit {0}) → Option Bool
after false makes (ok t) = some true
after false makes (err e) = some false
after false makes panic = some false
after true makes o = none
after true uses o = some true
after false uses o = none
after true closes (ok t) = some false
after true closes (err e) = some false
after true closes panic = some true
after false closes o = none
after b elsewhere o = some b

abbrev pub then_go : Option Bool → (Bool → Option Bool) → Option Bool
then_go none f = none
then_go (some b) f = f b

module _ (effect : Call → Effect) (bus : Bus) where
  -- Whether the connection is open after these calls, where it was `b` and `h` were made before.
  unfoldable pub follow : History → List Call → Bool → Option Bool
  unfolding after
  follow h [] b = some b
  follow h (c ∷ calls) b =
      then_go (after b (effect c) (bus.done h c)) (λ b'. follow (h ++ c ∷ []) calls b')
