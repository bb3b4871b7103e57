-- ===== src/Azblob/Service.antt =====
-- The Azure SDK's blob clients, which are not part of this repository: what a call returns is a
-- function of the calls made before it, and each call is recorded with its arguments.
pub mod Asks
use go_rkvstcommon.Prelude.{ℕ, String, Bool, Option, none, some, List, [], ◌∷◌, ◌++◌}
use go_rkvstcommon.Prelude.Int.{ℤ}
use go_rkvstcommon.Prelude.Dict.{Dict}
use go_rkvstcommon.Prelude.Outcome.{Outcome, ok, err, panic}
use go_rkvstcommon.Prelude.Exec.{Exec}
use go_rkvstcommon.Azblob.Error.{GoError, blob}
use go_rkvstcommon.Azblob.Options.{Tags, Time, ListMarker}
use go_rkvstcommon.Azblob.Conditions.{BlobAccessConditions}
use go_rkvstcommon.Azblob.HashingReader.{Bytes, Reader, ReadResult}

-- What the items of a list request are to include.
pub data ListInclude : Type 0 where
  include_tags include_metadata : ListInclude

-- azStorageBlob.ContainerListBlobsFlatOptions, and ServiceFilterBlobsOptions
pub record ListRequest : Type 0 where
  pub marker : ListMarker
  pub prefix : Option String
  pub include : List ListInclude
  pub max_results : Option ℤ

pub record FilterRequest : Type 0 where
  pub marker : ListMarker
  pub where_clause : String
  pub max_results : Option ℤ

-- A request to the service, in the order of the SDK's methods that this package calls.
pub data Call : Type 0 where
  container_properties : Call
  upload_stream : String → BlobAccessConditions → ReadResult → Call
  upload : String → BlobAccessConditions → ReadResult → Option Tags → Option Tags → Call
  set_metadata : String → Option Tags → Call
  set_tags : String → Option Tags → Call
  get_tags : String → Call
  blob_properties : String → Call
  download : String → BlobAccessConditions → Call
  delete : String → Call
  acquire_lease : String → ℤ → Call
  renew_lease : String → Call
  release_lease : String → String → Call
  list_blobs : ListRequest → Call
  find_blobs_by_tags : FilterRequest → Call

abbrev pub History : Type 0
History = List Call

-- The parts of a response that this package reads; `header` is RawResponse.Header.
pub record RawReply : Type 0 where
  pub etag : Option String
  pub last_modified : Option Time
  pub status : String
  pub status_code : ℕ
  pub header : Dict String (List String)
  pub metadata : Tags
  pub body : Reader

pub record ListReply : Type 0 where
  pub next_marker : ListMarker
  pub prefix : Option String
  pub status : String
  pub status_code : ℕ
  pub items : List String

-- A reply to each call, in the light of the calls before it. The constructors of blob clients and of
-- lease clients are local and can fail on their argument alone.
pub record Service : Type 0 where
  pub new_blob_client : String → Outcome GoError (Unit {0})
  pub new_block_blob_client : String → Outcome GoError (Unit {0})
  pub new_lease_client : String → Outcome GoError (Unit {0})
  pub done : History → Call → Outcome GoError (Unit {0})
  pub reply : History → Call → Outcome GoError RawReply
  pub tag_set : History → Call → Outcome GoError (List (String × String))
  pub lease_id : History → Call → Outcome GoError String
  pub page : History → Call → Outcome GoError ListReply
  pub has_page : History → Call → Bool
  -- mimetype.DetectReader: the type, and how many reads it made
  pub detect : Reader → Outcome GoError (String × ℕ)
  -- hex.EncodeToString of the SHA-256 digest
  pub hex_sha256 : Bytes → String
  -- time.Now().UTC().Format(time.RFC3339)
  pub now : History → String

-- A call is recorded, and answered by `answer`.
unfoldable pub perform :
    {A : Type 0} → (History → Call → Outcome GoError A) → Call → Exec History GoError A
perform answer call h = (answer h call, h ++ call ∷ [])

-- The outcome of a local call.
abbrev pub local : {A : Type 0} → Outcome GoError A → Exec History GoError A
local o h = (o, h)

-- if err != nil { return ..., ErrorFromError(err) }
abbrev pub from_error : {A : Type 0} → Outcome GoError A → Outcome GoError A
from_error (ok a) = ok a
from_error (err e) = err (blob e 0)
from_error panic = panic

abbrev pub with_error : {A : Type 0} → Exec History GoError A → Exec History GoError A
with_error m h = (from_error (m h).0, (m h).1)
