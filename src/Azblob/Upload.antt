-- ===== src/Azblob/Upload.antt =====
-- azblob/upload.go (all but the multipart form, which is in Azblob.Multipart), azblob/put.go and
-- azblob/delete.go. A Storer is the service that its container client speaks to.
pub mod Laws
use go_rkvstcommon.Prelude.{
  ℕ, String, ◌==◌, Bool, true, false, not, ◌&&◌, Option, none, some, List, nat_eq, if◌then◌else◌,
}
use go_rkvstcommon.Prelude.Outcome.{Outcome, ok, err, panic}
use go_rkvstcommon.Prelude.Exec.{Exec, pure, fail, ◌>>=◌, ◌>>◌}
use go_rkvstcommon.Azblob.Error.{GoError, plain, as_storage}
use go_rkvstcommon.Azblob.Options.{Tags, StorerOptions, StorerOption, parse_options}
use go_rkvstcommon.Azblob.Conditions.{
  BlobAccessConditions, no_modified, etag_unused, storer_option_conditions,
}
use go_rkvstcommon.Azblob.HashingReader.{Bytes, Reader, ReadResult, copy_all}
use go_rkvstcommon.Azblob.Service.{
  Call, container_properties, upload_stream, upload, set_metadata, set_tags, delete, History,
  Service, perform, local, with_error,
}
use go_rkvstcommon.Azblob.Response.{
  WriteResponse, upload_stream_write_response, upload_write_response,
}

-- An io.ReadSeekCloser: the result of Seek(0, io.SeekCurrent), and the reading.
pub record SeekReader : Type 0 where
  pub position : ℕ
  pub seek_error : Option GoError
  pub reader : Reader

abbrev is_none : Option GoError → Bool
is_none none = true
is_none (some e) = false

-- errors.New("etag conditions are not supported on streaming uploads")
abbrev pub etag_unsupported : GoError
etag_unsupported = plain "etag conditions are not supported on streaming uploads"

-- fmt.Errorf("bad body for %s: %v", identity, ErrMustSupportSeek0)
abbrev pub bad_body : GoError
bad_body = plain "bad body for"

abbrev pub stream_conditions : String → BlobAccessConditions
stream_conditions lease_id = record {
  lease_access_conditions = some (if lease_id == "" then none else some lease_id);
  modified_access_conditions = some no_modified;
}

module _ (azp : Service) where
  -- (*Storer).checkContainer
  unfoldable pub check_container : Exec History GoError Unit
  unfolding perform
  check_container = with_error (perform azp.done container_properties)

  -- (*Storer).setMetadata
  unfoldable pub store_metadata : String → Option Tags → Exec History GoError Unit
  unfolding perform
  store_metadata identity metadata = do
    with_error (local (azp.new_blob_client identity))
    with_error (perform azp.done (set_metadata identity metadata))

  -- (*Storer).setTags
  unfoldable pub store_tags : String → Option Tags → Exec History GoError Unit
  unfolding perform
  store_tags identity tags = do
    with_error (local (azp.new_blob_client identity))
    with_error (perform azp.done (set_tags identity tags))

  -- if m != nil { err = set(m) ... }
  when_given : (Option Tags → Exec History GoError Unit) → Option Tags → Exec History GoError Unit
  when_given set none = pure tt
  when_given set (some m) = set (some m)

  -- (*Storer).writeStream: `body` is what the SDK gets by reading the reader to its end.
  unfoldable pub write_stream : String → ReadResult → String → Exec History GoError WriteResponse
  unfolding perform
  write_stream identity body lease_id = do
    with_error (local (azp.new_block_blob_client identity))
    r ← with_error (perform azp.reply (upload_stream identity (stream_conditions lease_id) body))
    pure (upload_stream_write_response r)

  -- (*Storer).Write
  unfoldable pub write : String → Reader → List StorerOption → Exec History GoError WriteResponse
  unfolding check_container store_metadata store_tags when_given write_stream
  write identity source opts = do
    check_container
    let options = parse_options opts
    if not (etag_unused options.etag_condition) then fail etag_unsupported else do
      wr ← write_stream identity (copy_all source) options.lease_id
      when_given (store_metadata identity) options.metadata
      when_given (store_tags identity) options.tags
      pure wr

  -- (*Storer).putBlob
  unfoldable pub put_blob : String → SeekReader → StorerOptions → Exec History GoError WriteResponse
  unfolding perform
  put_blob identity body options =
      if not (nat_eq body.position 0 && is_none body.seek_error) then fail bad_body else do
        conditions ← local (storer_option_conditions options)
        with_error (local (azp.new_block_blob_client identity))
        r ← with_error (
            perform azp.reply
              (upload identity conditions (copy_all body.reader) options.metadata options.tags))
        pure (upload_write_response r)

  -- (*Storer).Put
  unfoldable pub put : String → SeekReader → List StorerOption → Exec History GoError WriteResponse
  unfolding put_blob
  put identity source opts = put_blob identity source (parse_options opts)

  -- if errors.As(err, &terr) and its response is a 404 then nil, otherwise err
  forgive_missing : Outcome GoError (Unit {0}) → Outcome GoError (Unit {0})
  forgive_missing (ok t) = ok t
  forgive_missing panic = panic
  forgive_missing (err e) = elim (as_storage e) [
    | none ↦ err e
    | some (code, status) ↦ if nat_eq status 404 then ok tt else err e
  ]

  -- (*Storer).Delete
  unfoldable pub delete_blob : String → Exec History GoError (Unit {0})
  unfolding perform forgive_missing
  delete_blob identity = do
    with_error (local (azp.new_block_blob_client identity))
    λ h. (forgive_missing (azp.done h (delete identity)), (perform azp.done (delete identity) h).1)
