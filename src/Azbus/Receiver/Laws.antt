-- ===== src/Azbus/Receiver/Laws.antt =====
-- The life of a Receiver: opening, closing, and shutting down twice.
use go_rkvstcommon.Prelude.{
  ℕ, ◌≡◌, ap, ◌∙◌, true, false, List, [], ◌∷◌, ◌++◌, map, arith, Bool-cases, inl, inr,
}
use mathlib.Core.List.{append-nil, append_assoc}
use go_rkvstcommon.Prelude.Outcome.{ok, err, panic}
use go_rkvstcommon.Prelude.Exec.{◌>>=◌, >>=-eq-ok}
use go_rkvstcommon.Azbus.Error.{BusError, wrapped}
use go_rkvstcommon.Azbus.Bus.{
  open_handler, close_handler, close_receiver, History, Bus, World, perform, get, put, wrapping,
  logging, az_client,
}
use go_rkvstcommon.Azbus.Receiver.{
  Receiver, closed, new_call, open_handlers, close_handlers, open_new, receiver_open, close_open,
  receiver_close, shutdown,
}

module _ (bus : Bus) where
  close_handlers-calls :
      (js : List ℕ) (w : World Receiver)
      → (close_handlers bus js w).0 ≡ ok tt
      → (close_handlers bus js w).1 ≡ (w.0, w.1 ++ map close_handler js)
  unfolding close_handlers logging perform
  close_handlers-calls [] w o = ground (arith, append-nil w.1)
  close_handlers-calls (j ∷ js) w o =
      let m = logging (perform bus.done (close_handler j)) in
      let (t, e, k, p) = >>=-eq-ok m (λ _. close_handlers bus js) w o in
      p
      ∙ close_handlers-calls js (m w).1 k
      ∙ ap (λ x. (w.0, x)) (append_assoc w.1 (close_handler j ∷ []) (map close_handler js))

  close_open-closes :
      (r : Receiver) (h : History)
      → (close_open bus r (r, h)).0 ≡ ok tt
      → (close_open bus r (r, h)).1
        ≡ (closed r, h ++ (map close_handler r.handlers ++ close_receiver ∷ []))
  unfolding close_open logging perform put
  close_open-closes r h k =
      let (t, e, k1, p) =
        >>=-eq-ok (close_handlers bus r.handlers)
          (λ _. logging (perform bus.done close_receiver) >>= λ _. put (closed r)) (r, h) k in
      let v = (close_handlers bus r.handlers (r, h)).1 in
      let (t2, e2, k2, p2) =
        >>=-eq-ok (logging (perform bus.done close_receiver)) (λ _. put (closed r)) v k1 in
      p
      ∙ p2
      ∙ ap (λ x. (closed r, x.1 ++ close_receiver ∷ [])) (close_handlers-calls r.handlers (r, h) e)
      ∙ ap (λ x. (closed r, x))
          (append_assoc h (map close_handler r.handlers) (close_receiver ∷ []))

  -- A Shutdown that does not panic, of a receiver that is open, closes each handler once, in their
  -- order, and then the SDK's receiver, and leaves no handler and no cancel: a second Shutdown
  -- panics.
  pub shutdown-closes :
      (r : Receiver) (h : History)
      → r.receiver ≡ true
      → (shutdown bus (r, h)).0 ≡ ok tt
      → ((shutdown bus (r, h)).1
          ≡ (closed r, h ++ (map close_handler r.handlers ++ close_receiver ∷ [])))
        × ((shutdown bus (shutdown bus (r, h)).1).0 ≡ panic)
  unfolding shutdown receiver_close get
  shutdown-closes r h o k = elim (Bool-cases r.cancel) [
    | inl c ↦ ground (arith, close_open-closes r h)
    | inr c ↦ ground arith
  ]

  -- Where the SDK makes the receiver and the first handler fails to open, open fails; and open again
  -- succeeds without a call, although no handler is open.
  receiver_open-forgets_handlers :
      (r : Receiver) (h : History) (j : ℕ) (js : List ℕ) (e : BusError)
      → r.az_client.client ≡ true
      → r.receiver ≡ false
      → r.handlers ≡ j ∷ js
      → bus.done h (new_call r.cfg) ≡ ok tt
      → bus.done (h ++ new_call r.cfg ∷ []) (open_handler j) ≡ err e
      → ((receiver_open bus (r, h)).0 ≡ err (wrapped e))
        × (receiver_open bus (receiver_open bus (r, h)).1 ≡ (ok tt, (receiver_open bus (r, h)).1))
  unfolding receiver_open open_new az_client get put perform wrapping open_handlers
  receiver_open-forgets_handlers r h j js e c n q d f = ground arith
