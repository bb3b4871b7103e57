-- ===== src/Azblob/ReadBack.antt =====
-- A file that WriteStream of azblob/upload.go stored, as Reader of azblob/download.go describes it.
use go_rkvstcommon.Prelude.{
  ℕ, ◌≡◌, refl, true, false, String, ◌==◌, Bool, Option, none, some, [], ◌∷◌, ◌++◌, if◌then◌else◌,
}
use go_rkvstcommon.Prelude.Int.{pos}
use go_rkvstcommon.Prelude.Dict.{string_key, lookup}
use go_rkvstcommon.Prelude.Outcome.{Outcome, ok, err, panic}
use go_rkvstcommon.Azblob.Options.{Tags}
use go_rkvstcommon.Azblob.Service.{
  Call, upload_stream, upload, set_metadata, delete, blob_properties, History, RawReply, Service,
}
use go_rkvstcommon.Azblob.Response.{ReaderResponse, zero_response}
use go_rkvstcommon.Azblob.Error.{GoError}

-- Whether a request writes to the blob
touches : String → Call → Bool
touches identity (set_metadata i meta) = i == identity
touches identity (upload_stream i c body) = i == identity
touches identity (upload i c body meta tags) = i == identity
touches identity (delete i) = i == identity
touches identity call = false

-- The metadata that a request which writes to the blob leaves it with: an upload replaces it.
written : Call → Option Tags
written (set_metadata i meta) = meta
written (upload i c body meta tags) = meta
written call = none

succeeded : {A : Type 0} → Outcome GoError A → Bool
succeeded (ok a) = true
succeeded (err e) = false
succeeded panic = false

-- Whether the service did what a request asks, by its answer
unfoldable pub took : Service → History → Call → Bool
unfolding succeeded
took azp h (set_metadata i meta) = succeeded (azp.done h (set_metadata i meta))
took azp h (upload_stream i c body) = succeeded (azp.reply h (upload_stream i c body))
took azp h (upload i c body meta tags) = succeeded (azp.reply h (upload i c body meta tags))
took azp h (delete i) = succeeded (azp.done h (delete i))
took azp h call = true

-- The metadata of a blob that is known after requests, which come after those of `past` and of which
-- `did` says whether they were done: a request that writes to the blob and fails may have been done or
-- not, so that nothing is known after it.
unfoldable pub metadata_after :
    (History → Call → Bool) → String → History → History → Option Tags → Option Tags
unfolding touches written
metadata_after did identity past [] m = m
metadata_after did identity past (call ∷ h) m =
    metadata_after did identity (past ++ call ∷ []) h
      (if touches identity call then (if did past call then written call else none) else m)

pub metadata_after-did :
    (did : History → Call → Bool)
    → ((h : History) (call : Call) → did h call ≡ true)
    → (identity : String) (past h : History) (m : Option Tags)
    → metadata_after did identity past h m ≡ metadata_after (λ p c. true) identity past h m
unfolding metadata_after
metadata_after-did did all identity past [] m = refl
metadata_after-did did all identity past (call ∷ h) m = rw (all past call) (
    metadata_after-did did all identity (past ++ call ∷ []) h
      (if touches identity call then written call else m))

-- The four entries of a blob's metadata that Reader looks at, as they come back in the headers of a
-- response, where their names are in canonical form
pub record Spelled (stored returned : Tags) : Type 0 where
  pub hash : lookup "Hash" returned ≡ lookup "hash" stored
  pub size : lookup "Size" returned ≡ lookup "size" stored
  pub mime : lookup "Mime_type" returned ≡ lookup "mime_type" stored
  pub time : lookup "Time_accepted" returned ≡ lookup "time_accepted" stored

-- The service returns the metadata that was set last with success, where no request that failed may
-- have written to the blob since.
abbrev pub Remembers : Service → Type 0
Remembers azp =
    (identity : String) (h : History) (stored : Tags) (r : RawReply)
    → metadata_after (took azp) identity [] h none ≡ some stored
    → azp.reply h (blob_properties identity) ≡ ok r
    → Spelled stored r.metadata

-- The caller's metadata leaves those entries alone.
pub record LeavesAlone (m : Tags) : Type 0 where
  pub no_hash : lookup "hash" m ≡ none
  pub no_size : lookup "size" m ≡ none
  pub no_mime : lookup "mime_type" m ≡ none
  pub no_time : lookup "time_accepted" m ≡ none

-- The response that describes a blob with these four entries
abbrev pub description : Tags → String → ℕ → String → String → ReaderResponse
description meta hash n mime time = record zero_response {
  hash_value = hash;
  size = pos n;
  mime_type = mime;
  timestamp_accepted = time;
  metadata = meta;
}
