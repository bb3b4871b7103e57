-- ===== src/Azblob/Multipart.antt =====
-- azblob/upload.go: WriteStream and streamReader, the upload of a file out of a multipart form.
pub mod Laws
pub mod Described
pub mod Once
mod Content
pub mod Limit
use go_rkvstcommon.Prelude.{
  ℕ, zero, suc, ◌+◌, String, ◌==◌, Bool, true, Option, none, some, List, [], ◌∷◌, ltb, nat_eq,
  length, if◌then◌else◌,
}
use go_rkvstcommon.Prelude.Int.{ℤ, pos, negsuc, reaches, is_nonneg}
use go_rkvstcommon.Prelude.Dict.{Dict, lookup, insert, remove, string_key}
use go_rkvstcommon.Prelude.Decimal.{format_int}
use go_rkvstcommon.Prelude.Outcome.{Outcome, ok, err, panic}
use go_rkvstcommon.Prelude.Exec.{Exec, pure, fail, ◌>>=◌, ◌>>◌}
use go_rkvstcommon.Azblob.Error.{GoError, blob, new_status_error, as_error}
use go_rkvstcommon.Azblob.Options.{Tags, StorerOptions, StorerOption, parse_options}
use go_rkvstcommon.Azblob.HashingReader.{
  Bytes, Reader, ReadResult, HashingReader, is_fault, drain_all, copy_all, buffer_reader, rejoin,
}
use go_rkvstcommon.Azblob.Service.{History, Service, local}
use go_rkvstcommon.Azblob.Response.{WriteResponse}
use go_rkvstcommon.Azblob.Upload.{check_container, store_metadata, store_tags, write_stream}

-- A part of the form: its file name, its header, and the reading of its content.
pub record Part : Type 0 where
  pub file_name : String
  pub header : Dict String (List String)
  pub content : Reader

-- What one call of NextPart returns; after the last of them it returns io.EOF.
pub data NextPart : Type 0 where
  part : Part → NextPart
  bad_part : GoError → NextPart

-- The request: its ContentLength, and what its MultipartReader gives.
pub record Request : Type 0 where
  pub content_length : ℤ
  pub multipart_reader : Outcome GoError (List NextPart)

-- HashKey, MimeKey, SizeKey and TimeKey of azblob/download.go
abbrev pub hash_key : String
hash_key = "hash"

abbrev pub mime_key : String
mime_key = "mime_type"

abbrev pub size_key : String
size_key = "size"

abbrev pub time_key : String
time_key = "time_accepted"

-- textproto.CanonicalMIMEHeaderKey(ContentKey), with ContentKey = "content_type"
abbrev pub content_type_key : String
content_type_key = "Content_type"

-- NewStatusError(text, code), as an error
abbrev pub status_error : String → ℕ → GoError
status_error text code = as_error (new_status_error text code)

-- r.ContentLength < 1
abbrev pub is_empty_length : ℤ → Bool
is_empty_length (pos n) = ltb n 1
is_empty_length (negsuc n) = true

-- The body handed to the SDK, with its error unless it was read to its end.
abbrev pub body_of : ReadResult → ReadResult
body_of (bytes, e) = (bytes, if is_fault e then e else none)

-- for k, v := range options.metadata { meta[k] = v }
unfoldable pub merge : Tags → Tags → Tags
merge meta [] = meta
merge meta ((k, v) ∷ more) = merge (insert k v meta) more

abbrev pub given : Option Tags → Tags
given none = []
given (some m) = m

module _ (azp : Service) where
  -- The size check: a limit that is not negative has the whole part copied into a buffer first.
  check_size : StorerOptions → Reader → Outcome GoError Reader
  check_size options content =
      let (buffer, copy_err) = copy_all content in
      if is_nonneg options.size_limit
      then elim copy_err [
        | some e ↦ err e
        | none ↦
            if reaches (length buffer) options.size_limit
            then err (status_error "filesize exceeds maximum" 402)
            else ok (buffer_reader buffer)
      ]
      else ok content

  -- The MIME type that the part's header supplies, or the one that is detected from its content.
  detect_type : Option (List String) → Reader → Outcome GoError (String × Reader)
  detect_type (some (supplied ∷ more)) content = ok (supplied, content)
  detect_type _ content = elim (azp.detect content) [
    | ok (mime_type, reads) ↦ ok (mime_type, rejoin reads content)
    | err e ↦ err e
    | panic ↦ panic
  ]

  -- The response and the metadata that are made of what was read.
  pub describe : WriteResponse → HashingReader → String → String → WriteResponse
  describe wr up mime_type now = record wr {
    hash_value = azp.hex_sha256 up.hasher;
    size = up.size;
    mime_type = mime_type;
    timestamp_accepted = now;
  }

  -- The response is completed at the time at which the upload is done.
  stamp : WriteResponse → HashingReader → String → Exec History GoError WriteResponse
  unfolding describe
  stamp wr up mime_type h = (ok (describe wr up mime_type (azp.now h)), h)

  unfoldable pub standard_metadata : WriteResponse → Tags
  standard_metadata wr =
      (hash_key, wr.hash_value)
      ∷ (size_key, format_int wr.size)
      ∷ (mime_key, wr.mime_type)
      ∷ (time_key, wr.timestamp_accepted)
      ∷ []

  then_type : Option (List String) → Outcome GoError Reader → Outcome GoError (String × Reader)
  unfolding detect_type
  then_type supplied (ok content) = detect_type supplied content
  then_type supplied (err e) = err e
  then_type supplied panic = panic

  -- What is done to a part before its upload: its MIME type, and the reader of its content.
  pub prepare : StorerOptions → Part → Outcome GoError (String × Reader)
  unfolding check_size then_type
  prepare options p = then_type (lookup content_type_key p.header) (check_size options p.content)

  -- The metadata and the tags of a file that was uploaded.
  pub finish_file : String → StorerOptions → WriteResponse → Exec History GoError WriteResponse
  unfolding standard_metadata merge
  finish_file identity options resp = do
    store_metadata azp identity (some (merge (standard_metadata resp) (given options.metadata)))
    store_tags azp identity options.tags
    pure resp

  -- The upload of a prepared part, and of its metadata and tags.
  store_file : String → StorerOptions → String × Reader → Exec History GoError WriteResponse
  unfolding stamp finish_file
  store_file identity options (mime_type, source) = do
    let (body, up) = drain_all (record { hasher = []; size = pos 0; part = source })
    wr ← write_stream azp identity (body_of body) options.lease_id
    resp ← stamp wr up mime_type
    finish_file identity options resp

  -- One round of the loop for a part that is a file.
  unfoldable pub upload_part : String → StorerOptions → Part → Exec History GoError WriteResponse
  unfolding prepare store_file
  upload_part identity options p = do
    typed ← local (prepare options p)
    store_file identity options typed

  -- The loop of streamReader: `num_files` and `resp` are its variables.
  unfoldable pub stream_parts :
      String
      → StorerOptions
      → List NextPart
      → ℕ
      → Option WriteResponse
      → Exec History GoError (Option WriteResponse)
  unfolding upload_part
  stream_parts identity options [] num_files resp = pure resp
  stream_parts identity options (bad_part e ∷ rest) num_files resp =
      fail (status_error "failed to get next part" 500)
  stream_parts identity options (part p ∷ rest) num_files resp =
      if ltb 1 num_files
      then fail (status_error "only one file expected" 400)
      else if p.file_name == ""
      then stream_parts identity options rest num_files resp
      else (do
        wr ← upload_part identity options p
        stream_parts identity options rest (suc num_files) (some wr))

  multipart_or_fail : Outcome GoError (List NextPart) → Outcome GoError (List NextPart)
  multipart_or_fail (ok parts) = ok parts
  multipart_or_fail (err e) = err (status_error "failed to get multipart reader" 400)
  multipart_or_fail panic = panic

  -- streamReader
  unfoldable pub stream_reader :
      String → Request → StorerOptions → Exec History GoError (Option WriteResponse)
  unfolding multipart_or_fail stream_parts
  stream_reader identity r options =
      if is_empty_length r.content_length
      then fail (status_error "no content to be uploaded" 400)
      else (do
        parts ← local (multipart_or_fail r.multipart_reader)
        stream_parts identity options parts 1 none)

  -- (*Storer).WriteStream
  unfoldable pub write_stream_request :
      String → Request → List StorerOption → Exec History GoError (Option WriteResponse)
  unfolding check_container stream_reader
  write_stream_request identity source opts = do
    check_container azp
    stream_reader identity source (parse_options opts)
