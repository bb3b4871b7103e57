-- ===== src/Azbus/Receiver/Window.antt =====
-- close_ of azbus/receiver.go between the closing of the SDK's receiver and r.receiver = nil.
use go_rkvstcommon.Prelude.Exec.{Exec, ◌>>◌}
use go_rkvstcommon.Azbus.Error.{BusError}
use go_rkvstcommon.Azbus.Bus.{close_receiver, Bus, World, perform, logging}
use go_rkvstcommon.Azbus.Protocol.Keeps.{Keeps}
use go_rkvstcommon.Azbus.Receiver.{Receiver, close_handlers}

module _ (bus : Bus) where
  -- The calls of (*Receiver).close_, before it sets r.receiver to nil
  unfoldable pub close_calls : Receiver → Exec (World Receiver) BusError Unit
  unfolding close_handlers logging perform
  close_calls r = close_handlers bus r.handlers >> logging (perform bus.done close_receiver)
