-- ===== src/Azblob/Memory.antt =====
-- A service that returns the metadata that was set last, with the names as headers spell them: a file
-- is uploaded to it and read back.
use go_rkvstcommon.Prelude.{String, true, Option, none, some, [], ◌∷◌}
use go_rkvstcommon.Prelude.Dict.{string_key, lookup}
use go_rkvstcommon.Prelude.Outcome.{ok}
use go_rkvstcommon.Prelude.Exec.{Exec}
use go_rkvstcommon.Azblob.Options.{Tags}
use go_rkvstcommon.Azblob.Error.{GoError}
use go_rkvstcommon.Azblob.Response.{WriteResponse}
use go_rkvstcommon.Azblob.Multipart.{upload_part}
use go_rkvstcommon.Azblob.Service.{blob_properties, History, RawReply, Service}
use go_rkvstcommon.Azblob.ReadBack.{metadata_after}
use go_rkvstcommon.Azblob.Scenarios.{service, reply, file, limited}

-- An entry, if there is one, in front of the others
entry : String → Option String → Tags → Tags
entry k none meta = meta
entry k (some v) meta = (k, v) ∷ meta

abbrev first_of : Option String → Option String → Option String
first_of none w = w
first_of (some v) w = some v

spelled : Tags → Tags
unfolding entry lookup
spelled m = entry "Hash" (lookup "hash" m) (
    entry "Size" (lookup "size" m) (
      entry "Mime_type" (lookup "mime_type" m)
        (entry "Time_accepted" (lookup "time_accepted" m) [])))

given_back : Option Tags → RawReply
given_back none = reply
given_back (some m) = record reply { metadata = spelled m }

abbrev remembering : Service
remembering = record service {
  reply = λ h call. elim call [
    | blob_properties identity ↦ ok (given_back (metadata_after (λ p c. true) identity [] h none))
    | _ ↦ ok reply
  ];
}

abbrev uploaded : Exec History GoError WriteResponse
uploaded = upload_part remembering "b" (limited 9) file

abbrev returned : Tags
returned =
    ("Hash", "digest") ∷ ("Size", "3") ∷ ("Mime_type", "text/plain") ∷ ("Time_accepted", "now") ∷ []
