-- ===== src/Azbus/Error/Laws.antt =====
-- NewAzbusError of azbus/error.go against errors.Is and errors.As.
use go_rkvstcommon.Prelude.{◌≡◌, refl, Bool, false, ◌||◌, Option, none, some, arith}
use go_rkvstcommon.Azbus.Error.{
  Code, code_unauthorized_access, code_connection_lost, code_lock_lost, code_timeout, code_other,
  Sentinel, err_connection_lost, err_lock_lost, err_unauthorized_access, err_timeout, BusError,
  as_servicebus, same_sentinel, is, new_azbus_error, join_code, join_sentinel, or_else,
}

-- The error that the code of a service bus error, if there is one, names.
abbrev pub named : Option Code → Sentinel → Bool
named none s = false
named (some code_unauthorized_access) s = same_sentinel err_unauthorized_access s
named (some code_connection_lost) s = same_sentinel err_connection_lost s
named (some code_lock_lost) s = same_sentinel err_lock_lost s
named (some code_timeout) s = same_sentinel err_timeout s
named (some (code_other text)) s = false

join_code-is :
    (e : BusError) (c : Option Code) (s : Sentinel) → is (join_code e c) s ≡ (is e s || named c s)
unfolding join_code join_sentinel is
join_code-is e none s = ground arith
join_code-is e (some code_unauthorized_access) s = refl
join_code-is e (some code_connection_lost) s = refl
join_code-is e (some code_lock_lost) s = refl
join_code-is e (some code_timeout) s = refl
join_code-is e (some (code_other text)) s = ground arith

join_code-as :
    (e : BusError) (c : Option Code) → as_servicebus e ≡ c → as_servicebus (join_code e c) ≡ c
unfolding join_code join_sentinel as_servicebus or_else
join_code-as e none h = h
join_code-as e (some code_unauthorized_access) h = ground arith
join_code-as e (some code_connection_lost) h = ground arith
join_code-as e (some code_lock_lost) h = ground arith
join_code-as e (some code_timeout) h = ground arith
join_code-as e (some (code_other text)) h = h

-- errors.Is of what NewAzbusError returns is true of the errors it was true of, and of the one that
-- the code of the first service bus error in the tree names; and errors.As finds the same service
-- bus error in it.
pub new_azbus_error-is :
    (e : BusError) (s : Sentinel)
    → (is (new_azbus_error e) s ≡ (is e s || named (as_servicebus e) s))
      × (as_servicebus (new_azbus_error e) ≡ as_servicebus e)
unfolding new_azbus_error
new_azbus_error-is e s = (join_code-is e (as_servicebus e) s, join_code-as e (as_servicebus e) refl)
