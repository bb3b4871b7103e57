-- ===== src/Azblob/Error.antt =====
-- azblob/error.go. Go errors as a tree; `errors.As` walks it.
use go_rkvstcommon.Prelude.{ℕ, String, Bool, Option, none, some, nat_eq, ◌==◌, if◌then◌else◌}

-- `storage` is the SDK's *StorageError: its ErrorCode, and the StatusCode of its response.
-- `blob` and `blob_nil` are this package's *Error, whose field err may be nil.
-- `wrapped` is any other error that unwraps to one; `plain` is errors.New or fmt.Errorf. Of a text
-- made by a format only the format's own words are kept.
pub data GoError : Type 0 where
  storage : String → ℕ → GoError
  plain : String → GoError
  eof : GoError
  blob : GoError → ℕ → GoError
  blob_nil : ℕ → GoError
  wrapped : GoError → GoError

-- errors.As(err, &terr) for a *StorageError: the outermost one that the chain holds
unfoldable pub as_storage : GoError → Option (String × ℕ)
as_storage (storage code status) = some (code, status)
as_storage (plain text) = none
as_storage eof = none
as_storage (blob e status) = as_storage e
as_storage (blob_nil status) = none
as_storage (wrapped e) = as_storage e

-- type Error struct
pub record Error : Type 0 where
  pub err : Option GoError
  pub status_code : ℕ

-- An *Error where an error is wanted.
abbrev to_error : Option GoError → ℕ → GoError
to_error none n = blob_nil n
to_error (some e) n = blob e n

abbrev pub as_error : Error → GoError
as_error e = to_error e.err e.status_code

abbrev pub new_status_error : String → ℕ → Error
new_status_error text status_code = record { err = some (plain text); status_code = status_code }

unfoldable pub error_from_error : Option GoError → Error
error_from_error err = record { err = err; status_code = 0 }

-- errors.As(e.err, &terr), which is false of nil
unfoldable pub find_storage : Option GoError → Option (String × ℕ)
unfolding as_storage
find_storage none = none
find_storage (some e) = as_storage e

abbrev pub internal_server_error : ℕ
internal_server_error = 500

code_or_default : Option (String × ℕ) → ℕ → ℕ
code_or_default (some (code, status)) status_code = status
code_or_default none status_code =
    if nat_eq status_code 0 then internal_server_error else status_code

-- (*Error).StatusCode
unfoldable pub status_code : Error → ℕ
unfolding code_or_default find_storage
status_code e = code_or_default (find_storage e.err) e.status_code

code_text : Option (String × ℕ) → String
code_text none = ""
code_text (some (code, status)) = code

-- (*Error).StorageErrorCode
unfoldable pub storage_error_code : Error → String
unfolding code_text find_storage
storage_error_code e = code_text (find_storage e.err)

-- azStorageBlob.StorageErrorCodeConditionNotMet
abbrev pub condition_not_met : String
condition_not_met = "ConditionNotMet"

-- (*Error).IsConditionNotMet
unfoldable pub is_condition_not_met : Error → Bool
unfolding storage_error_code
is_condition_not_met e = storage_error_code e == condition_not_met
