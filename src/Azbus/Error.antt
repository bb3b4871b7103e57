-- ===== src/Azbus/Error.antt =====
-- azbus/error.go. Errors as the trees that errors.Is and errors.As walk.
pub mod Laws
use go_rkvstcommon.Prelude.{String, Bool, true, false, ◌||◌, Option, none, some}

-- azservicebus.Code
pub data Code : Type 0 where
  code_unauthorized_access code_connection_lost code_lock_lost code_timeout : Code
  code_other : String → Code

-- The errors that this package declares with errors.New
pub data Sentinel : Type 0 where
  err_connection_lost err_lock_lost err_unauthorized_access err_timeout : Sentinel
  err_message_oversized err_peek_lock_timeout : Sentinel

-- `servicebus` is an *azservicebus.Error, `plain` any other error that unwraps to none,
-- `wrapped` fmt.Errorf with a %w, and `joined` errors.Join of two errors.
pub data BusError : Type 0 where
  plain : String → BusError
  servicebus : Code → BusError
  sentinel : Sentinel → BusError
  wrapped : BusError → BusError
  joined : BusError → BusError → BusError

or_else : Option Code → Option Code → Option Code
or_else none d = d
or_else (some c) d = some c

-- errors.As(err, &servicebusError): the first one of the tree, in depth-first order
unfoldable pub as_servicebus : BusError → Option Code
unfolding or_else
as_servicebus (plain text) = none
as_servicebus (servicebus c) = some c
as_servicebus (sentinel s) = none
as_servicebus (wrapped e) = as_servicebus e
as_servicebus (joined e f) = or_else (as_servicebus e) (as_servicebus f)

-- err == target
abbrev pub same_sentinel : Sentinel → Sentinel → Bool
same_sentinel err_connection_lost err_connection_lost = true
same_sentinel err_lock_lost err_lock_lost = true
same_sentinel err_unauthorized_access err_unauthorized_access = true
same_sentinel err_timeout err_timeout = true
same_sentinel err_message_oversized err_message_oversized = true
same_sentinel err_peek_lock_timeout err_peek_lock_timeout = true
same_sentinel s t = false

-- errors.Is(err, target) for one of this package's errors
unfoldable pub is : BusError → Sentinel → Bool
is (plain text) t = false
is (servicebus c) t = false
is (sentinel s) t = same_sentinel s t
is (wrapped e) t = is e t
is (joined e f) t = is e t || is f t

-- the cases of the switch
abbrev pub sentinel_of : Code → Option Sentinel
sentinel_of code_unauthorized_access = some err_unauthorized_access
sentinel_of code_connection_lost = some err_connection_lost
sentinel_of code_lock_lost = some err_lock_lost
sentinel_of code_timeout = some err_timeout
sentinel_of (code_other text) = none

join_sentinel : BusError → Option Sentinel → BusError
join_sentinel e none = e
join_sentinel e (some s) = joined e (sentinel s)

join_code : BusError → Option Code → BusError
unfolding join_sentinel
join_code e none = e
join_code e (some c) = join_sentinel e (sentinel_of c)

-- NewAzbusError, of an error that is not nil
unfoldable pub new_azbus_error : BusError → BusError
unfolding join_code
new_azbus_error e = join_code e (as_servicebus e)
