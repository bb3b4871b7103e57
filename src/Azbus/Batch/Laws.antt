-- ===== src/Azbus/Batch/Laws.antt =====
-- What one batch of azbus/batchreceiver.go asks for and returns.
use go_rkvstcommon.Prelude.Int.{ℤ, pos, int_eq}
use go_rkvstcommon.Prelude.{
  ℕ, Option, refl, if◌then◌else◌, ◌≡◌, ◌≢◌, some, List, [], ◌∷◌, ◌++◌, arith, nat_eq_iff,
}
use go_rkvstcommon.Prelude.Outcome.{ok, err, panic}
use go_rkvstcommon.Azbus.Error.{BusError, wrapped, new_azbus_error}
use go_rkvstcommon.Azbus.Bus.{receive_messages, History, Bus, perform, get, wrapping}
use go_rkvstcommon.Azbus.Batch.{
  dispose_all, BatchReceiver, BatchReceiverConfig, with_batch_deadline, apply_deadlines,
  with_default_deadline, new_batch, handle_batch, handle_received, receive_one_message_batch,
}

apply_deadlines-last :
    (ds : List ℤ) (d : ℤ) (cfg : BatchReceiverConfig)
    → (apply_deadlines (ds ++ d ∷ []) cfg).batch_deadline ≡ d
unfolding apply_deadlines
apply_deadlines-last [] d cfg = refl
apply_deadlines-last (x ∷ ds) d cfg = apply_deadlines-last ds d (with_batch_deadline x cfg)

-- The deadline is that of the last option, and the default where that is 0.
new_batch-deadline :
    (handler : Option ℕ) (cfg : BatchReceiverConfig) (ds : List ℤ) (d : ℤ)
    → (new_batch handler cfg (ds ++ d ∷ [])).cfg.batch_deadline
      ≡ (if int_eq d (pos 0) then pos 50000000000 else d)
unfolding new_batch with_default_deadline
new_batch-deadline handler cfg ds d = ground (arith, apply_deadlines-last ds d cfg)

module _ (bus : Bus) where
  -- For a batch receiver with a handler and a batch size other than 0, one batch: where receiving
  -- fails, no handler is called and its error is returned wrapped; where no message comes, it panics.
  receive_one_message_batch-handles :
      (r : BatchReceiver) (h : History) (j : ℕ)
      → r.handler ≡ some j
      → r.cfg.batch_size ≢ 0
      → ((e : BusError)
          → bus.received h (receive_messages r.cfg.batch_size) ≡ err e
          → receive_one_message_batch bus (r, h)
            ≡ (err (wrapped (new_azbus_error e)), (r, h ++ receive_messages r.cfg.batch_size ∷ [])))
        × (bus.received h (receive_messages r.cfg.batch_size) ≡ ok []
            → (receive_one_message_batch bus (r, h)).0 ≡ panic)
  unfolding receive_one_message_batch get perform wrapping handle_received handle_batch dispose_all
  receive_one_message_batch-handles r h j s n = ground (arith, nat_eq_iff r.cfg.batch_size 0)
