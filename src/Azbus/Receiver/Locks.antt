-- ===== src/Azbus/Receiver/Locks.antt =====
-- The locks of messages in azbus/message.go and azbus/receiver.go: the deadline of a message, the
-- warnings about it, the renewal of its lock and the name of a receiver. Times are nanoseconds since
-- the epoch, and so are durations, as values of int64.
use mathlib.Core.List.{append_assoc, append-nil}
use Prim.Native.String.{◌++◌ as append}
use go_rkvstcommon.Prelude.{
  ℕ, zero, suc, ◌+◌, ◌-◌, ◌*◌, ◌%◌, ◌^◌, ◌≡◌, ◌≢◌, ◌≤◌, ◌<◌, String, ◌==◌, Bool, true, false, ◌&&◌,
  not, Option, none, some, List, [], ◌∷◌, ◌++◌, leb, ltb, if◌then◌else◌, arith, inl, inr,
}
use go_rkvstcommon.Prelude.Int.{ℤ, pos, negsuc, int_eq}
use go_rkvstcommon.Prelude.Outcome.{ok, panic, Outcome-cases}
use go_rkvstcommon.Prelude.Exec.{Exec, pure, ◌>>◌}
use go_rkvstcommon.Azbus.Error.{BusError, err_peek_lock_timeout, is}
use go_rkvstcommon.Azbus.Bus.{
  Message, renew_message_lock, Call, Bus, World, perform, logging, times,
}
use go_rkvstcommon.Azbus.Receiver.{Receiver, ReceiverConfig}

-- RenewMessageLock and RenewMessageTime of a ReceiverConfig
pub record LockConfig : Type 0 where
  pub renew_lock : Bool
  pub renew_time : ℤ

-- 50 * time.Second
abbrev default_renewal_time : ℤ
default_renewal_time = pos 50000000000

-- if r.Cfg.RenewMessageTime == 0 { r.Cfg.RenewMessageTime = DefaultRenewalTime }
unfoldable with_default : LockConfig → LockConfig
with_default cfg =
    if int_eq cfg.renew_time (pos 0) then record cfg { renew_time = default_renewal_time } else cfg

-- WithRenewalTime: time.Duration(t) * time.Second
unfoldable with_renewal_time : ℤ → LockConfig → LockConfig
unfolding times
with_renewal_time t cfg = record cfg { renew_time = times 1000000000 t }

-- t.Sub(u), which stops at the bounds of int64
unfoldable sub_time : ℕ → ℕ → ℤ
sub_time t u =
    if leb u t
    then (if leb (2 ^ 63) (t - u) then pos (2 ^ 63 - 1) else pos (t - u))
    else (if leb (2 ^ 63) (u - t - 1) then negsuc (2 ^ 63 - 1) else negsuc (u - t - 1))

-- d >= e
unfoldable at_least : ℤ → ℤ → Bool
at_least (pos d) (pos e) = leb e d
at_least (pos d) (negsuc e) = true
at_least (negsuc d) (pos e) = false
at_least (negsuc d) (negsuc e) = leb d e

-- The context that setTimeout makes: with a deadline, or with a time from now
data Limit : Type 0 where
  until : ℕ → Limit
  within : ℤ → Limit

-- (*Receiver).setTimeout at the time `now`, of a message with this LockedUntil: the context, and the
-- time there is
unfoldable set_timeout : LockConfig → ℕ → Option ℕ → Limit × ℤ
unfolding sub_time
set_timeout cfg now (some locked_until) = (until locked_until, sub_time locked_until now)
set_timeout cfg now none = (within cfg.renew_time, cfg.renew_time)

-- maxDuration, which is left at 0 where the lock is renewed
unfoldable max_duration : LockConfig → ℕ → Option ℕ → ℤ
unfolding set_timeout
max_duration cfg now locked_until =
    if cfg.renew_lock then pos 0 else (set_timeout cfg now locked_until).1

-- What processMessage warns of: the time taken, or the timeout of the lock
data Warning : Type 0 where
  took_more_than : ℤ → Warning
  returned_timeout : Warning

is_timeout : Option BusError → Bool
is_timeout none = false
is_timeout (some e) = is e err_peek_lock_timeout

-- The end of (*Receiver).processMessage
unfoldable process_warnings : LockConfig → ℤ → ℤ → Option BusError → List Warning
unfolding at_least is_timeout
process_warnings cfg duration max e =
    (if not cfg.renew_lock && at_least duration max then took_more_than max ∷ [] else [])
    ++ (if is_timeout e then returned_timeout ∷ [] else [])

-- Without the renewal of locks, a message whose deadline is set before the end of its lock (and not
-- over 292 years before it) is warned of just where the duration of its processing, counted from
-- then, reaches that end.
process_warnings-late :
    (cfg : LockConfig) (now locked_until d : ℕ)
    → cfg.renew_lock ≡ false
    → now ≤ locked_until
    → locked_until - now < 2 ^ 63
    → process_warnings cfg (pos d) (max_duration cfg now (some locked_until)) none
      ≡ (if leb locked_until (now + d) then took_more_than (pos (locked_until - now)) ∷ [] else [])
unfolding process_warnings max_duration set_timeout sub_time at_least is_timeout
process_warnings-late cfg now locked_until d r l b = ground arith

-- With it, only the error of the handler is warned of.
process_warnings-renewed :
    (cfg : LockConfig) (now : ℕ) (locked_until : Option ℕ) (duration : ℤ) (e : Option BusError)
    → cfg.renew_lock ≡ true
    → process_warnings cfg duration (max_duration cfg now locked_until) e
      ≡ (if is_timeout e then returned_timeout ∷ [] else [])
unfolding process_warnings
process_warnings-renewed cfg now locked_until duration e r = ground arith

-- (*Receiver).String
unfoldable receiver_string : ReceiverConfig → String
receiver_string cfg =
    if not (cfg.subscription_name == "")
    then (if cfg.deadletter
        then append cfg.topic_or_queue_name
            (append "." (append cfg.subscription_name ".deadletter"))
        else append cfg.topic_or_queue_name (append "." cfg.subscription_name))
    else (if cfg.deadletter
        then append cfg.topic_or_queue_name ".deadletter"
        else cfg.topic_or_queue_name)

-- What the select of renewMessageLock takes
data Event : Type 0 where
  tick context_done : Event

module _ (bus : Bus) (msg : Message) where
  -- The loop of renewMessageLock: how often it was executed when it stops, or, where the events end
  -- before, until then
  unfoldable renew_each : List Event → ℕ → Exec (World Receiver) BusError ℕ
  unfolding perform logging
  renew_each [] counter = pure counter
  renew_each (context_done ∷ events) counter = pure counter
  renew_each (tick ∷ events) counter =
      logging (perform bus.done (renew_message_lock msg)) >> renew_each events (counter + 1)

  -- (*Receiver).renewMessageLock, where NewTicker panics on a time that is not above 0
  unfoldable start_renewal : LockConfig → List Event → Exec (World Receiver) BusError ℕ
  unfolding renew_each at_least
  start_renewal cfg events =
      if at_least cfg.renew_time (pos 1) then renew_each events 0 else (λ w. (panic, w))

  -- The ticks before the context is done
  unfoldable ticks : List Event → ℕ
  ticks [] = 0
  ticks (context_done ∷ events) = 0
  ticks (tick ∷ events) = suc (ticks events)

  unfoldable renewals : ℕ → List Call
  renewals zero = []
  renewals (suc n) = renew_message_lock msg ∷ renewals n

  -- Where the SDK's renewal does not panic, the lock is renewed once for each tick before the context
  -- is done, and no more, whatever errors the renewals come to.
  renew_each-ticks :
      (events : List Event) (counter : ℕ) (w : World Receiver)
      → ((h : List Call) → bus.done h (renew_message_lock msg) ≢ panic)
      → renew_each events counter w
        ≡ (ok (counter + ticks events), (w.0, w.1 ++ renewals (ticks events)))
  unfolding renew_each ticks renewals perform logging
  renew_each-ticks [] counter w n = ground (arith, append-nil w.1)
  renew_each-ticks (context_done ∷ events) counter w n = ground (arith, append-nil w.1)
  renew_each-ticks (tick ∷ events) counter w n =
      let v : World Receiver = (w.0, w.1 ++ renew_message_lock msg ∷ []) in
      elim (Outcome-cases (bus.done w.1 (renew_message_lock msg))) [
        | inl (t, d) ↦ ground (
          arith,
          renew_each-ticks events (counter + 1) v n,
          append_assoc w.1 (renew_message_lock msg ∷ []) (renewals (ticks events)),
        )
        | inr (inl (e, d)) ↦ ground (
          arith,
          renew_each-ticks events (counter + 1) v n,
          append_assoc w.1 (renew_message_lock msg ∷ []) (renewals (ticks events)),
        )
        | inr (inr d) ↦ elim (n w.1 d) [ ]
      ]

  -- A renewal time of 9223372037 seconds, or of more up to 18446744073, is below 0 as a duration, so that
  -- the renewal of a message's lock panics before its first event.
  start_renewal-overflow :
      (t : ℕ) (cfg : LockConfig) (events : List Event) (w : World Receiver)
      → 9223372037 ≤ t
      → t ≤ 18446744073
      → start_renewal (with_default (with_renewal_time (pos t) cfg)) events w ≡ (panic, w)
  unfolding start_renewal with_default with_renewal_time at_least times
  start_renewal-overflow t cfg events w low high =
      let wrapped : ltb (t * 1000000000 % 2 ^ 64) (2 ^ 63) ≡ false =
        (let e : t * 1000000000 % 2 ^ 64 ≡ t * 1000000000 = omega arith in
          let l : 2 ^ 63 ≤ t * 1000000000 % 2 ^ 64 = omega arith in ground arith) in
      ground (arith, wrapped)
