-- ===== src/Azbus/Sender/Laws.antt =====
-- What Send and Open of azbus/sender.go ask of the service bus.
use go_rkvstcommon.Prelude.{
  String, refl, ◌≡◌, ap, ℕ, ◌<◌, ◌≤◌, ◌∙◌, true, false, [], ◌∷◌, ◌++◌, arith, length, ◌↔◌,
  Bool-cases, inl, inr,
}
use go_rkvstcommon.Prelude.Int.{ℤ, pos, negsuc}
use go_rkvstcommon.Prelude.Outcome.{Outcome, ok, err, Outcome-cases}
use go_rkvstcommon.Prelude.Exec.{◌>>=◌, >>=-eq-ok}
use go_rkvstcommon.Azbus.Error.{err_message_oversized, is}
use go_rkvstcommon.Prelude.Dict.{Dict}
use go_rkvstcommon.Azbus.Messages.{BusMessage, update_sending_message_for_span}
use go_rkvstcommon.Azbus.Bus.{
  send_message, new_sender, Bus, History, World, get, put, perform, wrapping, az_client,
}
use go_rkvstcommon.Azbus.Sender.{
  Sender, with_client, exceeds, oversized, set_limit, set_sender, open_new, sender_open, send,
  send_within,
}

-- A size is above a limit, or not: every size is above a negative one.
abbrev pub IsOver : ℤ → ℕ → Type 0
IsOver (pos limit) size = limit < size
IsOver (negsuc n) size = Unit

abbrev pub IsWithin : ℤ → ℕ → Type 0
IsWithin (pos limit) size = size ≤ limit
IsWithin (negsuc n) size = ⊥

exceeds-IsOver : (limit : ℤ) (size : ℕ) → IsOver limit size → exceeds size limit ≡ true
exceeds-IsOver (pos limit) size h = ground arith
exceeds-IsOver (negsuc n) size h = refl

exceeds-IsWithin : (limit : ℤ) (size : ℕ) → IsWithin limit size → exceeds size limit ≡ false
exceeds-IsWithin (pos limit) size h = ground arith
exceeds-IsWithin (negsuc n) size h = absurd h

module _ (bus : Bus) where
  -- Open of a sender that is open makes no call and changes nothing.
  sender_open-opened :
      (s : Sender) (h : History) → s.sender ≡ true → sender_open bus (s, h) ≡ (ok tt, (s, h))
  unfolding sender_open get
  sender_open-opened s h o = ground arith

  -- Send by a sender that is open, of a message to which updateSendingMesssageForSpan adds the
  -- injected trace: where the message is larger than the limit, Send sends nothing, and its error is
  -- ErrMessageOversized; otherwise it sends the message with the trace once, under its id, and
  -- succeeds just where that does.
  pub send-limit :
      (id : String) (injected : Outcome String (Dict String String)) (message sent : BusMessage)
      (s : Sender) (h : History)
      → s.sender ≡ true
      → update_sending_message_for_span injected message ≡ ok sent
      → (IsOver s.max_message_size_in_bytes (length message.body)
          → (send bus id injected message (s, h) ≡ (err oversized, (s, h)))
            × (is oversized err_message_oversized ≡ true))
        × (IsWithin s.max_message_size_in_bytes (length message.body)
            → ((send bus id injected message (s, h)).1 ≡ (s, h ++ send_message id sent ∷ []))
              × (((send bus id injected message (s, h)).0 ≡ ok tt)
                  ↔ (bus.done h (send_message id sent) ≡ ok tt)))
  unfolding send send_within sender_open get wrapping perform is
  send-limit id injected message sent s h o u =
      let over = exceeds-IsOver s.max_message_size_in_bytes (length message.body) in
      let within = exceeds-IsWithin s.max_message_size_in_bytes (length message.body) in
      elim (Outcome-cases (bus.done h (send_message id sent))) [
        | inl (t, d) ↦
            ((λ a. let b = over a in ground arith), λ a. let b = within a in ground arith)
        | inr (inl (e, d)) ↦
            ((λ a. let b = over a in ground arith), λ a. let b = within a in ground arith)
        | inr (inr d) ↦
            ((λ a. let b = over a in ground arith), λ a. let b = within a in ground arith)
      ]

  set_sender-opens :
      (s : Sender) (w : World Sender)
      → (set_sender bus s w).0 ≡ ok tt
      → (set_sender bus s w).1.0.sender ≡ true
  unfolding set_sender put perform wrapping
  set_sender-opens s w o = elim (Outcome-cases (bus.done w.1 (new_sender s.topic_or_queue_name))) [
    | inl (t, d) ↦ ground arith
    | inr (inl (e, d)) ↦ ground arith
    | inr (inr d) ↦ ground arith
  ]

  open_new-opens :
      (s : Sender) (w : World Sender)
      → (open_new bus s w).0 ≡ ok tt
      → (open_new bus s w).1.0.sender ≡ true
  unfolding open_new put
  open_new-opens s w o =
      let (c, e, k, p) = >>=-eq-ok (az_client bus s.az_client) _ w o in
      let v : World Sender = (with_client c s, (az_client bus s.az_client w).1.1) in
      let (t, e', k', p') = >>=-eq-ok (set_limit bus (with_client c s)) (set_sender bus) v k in
      ap (λ x. x.0.sender) (p ∙ p') ∙ set_sender-opens t (set_limit bus (with_client c s) v).1 k'

  -- After a successful Open the sender is open.
  pub sender_open-opens :
      (w : World Sender) → (sender_open bus w).0 ≡ ok tt → (sender_open bus w).1.0.sender ≡ true
  unfolding sender_open get
  sender_open-opens w o = elim (Bool-cases w.0.sender) [
    | inl t ↦ ground arith
    | inr f ↦ ground (arith, open_new-opens w.0 w)
  ]

  send_within-ok :
      (id : String) (injected : Outcome String (Dict String String)) (message : BusMessage)
      (w : World Sender)
      → (send_within bus id injected message w.0 w).0 ≡ ok tt
      → (exceeds (length message.body) w.0.max_message_size_in_bytes ≡ false)
        × (sent : BusMessage) × (update_sending_message_for_span injected message ≡ ok sent)
        × ((send_within bus id injected message w.0 w).1 ≡ (w.0, w.1 ++ send_message id sent ∷ []))
  unfolding send_within wrapping perform
  send_within-ok id injected message w o =
      elim (Outcome-cases (update_sending_message_for_span injected message)) [
        | inl (sent, u) ↦
            elim (Bool-cases (exceeds (length message.body) w.0.max_message_size_in_bytes)) [
              | inl t ↦ ground arith
              | inr f ↦ (f, sent, u, rw (f, u) refl)
            ]
        | inr (inl (e, u)) ↦ ground arith
        | inr (inr u) ↦ ground arith
      ]

  -- A Send that succeeds leaves the sender open; its last call sent, under the id, the message to
  -- which updateSendingMesssageForSpan added the injected trace, and the size of the message's body
  -- is within the sender's limit.
  pub send-ok :
      (id : String) (injected : Outcome String (Dict String String)) (message : BusMessage)
      (w : World Sender)
      → (send bus id injected message w).0 ≡ ok tt
      → ((send bus id injected message w).1.0.sender ≡ true)
        × (exceeds
              (length message.body)
              (send bus id injected message w).1.0.max_message_size_in_bytes
            ≡ false)
        × (sent : BusMessage) × (update_sending_message_for_span injected message ≡ ok sent)
        × ((send bus id injected message w).1.1
            ≡ (sender_open bus w).1.1 ++ send_message id sent ∷ [])
  unfolding send get
  send-ok id injected message w o =
      let v = (sender_open bus w).1 in
      let (t, e, k, p) =
        >>=-eq-ok (sender_open bus) (λ _. get >>= send_within bus id injected message) w o in
      let (f, sent, u, q) = send_within-ok id injected message v k in
      let r = sender_open-opens w e in
      let z = p ∙ q in
      (
        ap (λ x. x.0.sender) z ∙ r,
        ap (λ x. exceeds (length message.body) x.0.max_message_size_in_bytes) z ∙ f,
        sent,
        u,
        ap (λ x. x.1) z,
      )
