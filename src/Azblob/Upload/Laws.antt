-- ===== src/Azblob/Upload/Laws.antt =====
-- Which requests Write, Put and Delete of azblob/upload.go, put.go and delete.go make, and when they
-- report success.
use go_rkvstcommon.Prelude.{
  String, ◌≡◌, ◌≢◌, ◌↔◌, refl, ◌⊎◌, inl, inr, Option-cases, not, Option, none, some, List, [], ◌∷◌,
  ◌++◌, arith,
}
use go_rkvstcommon.Prelude.Outcome.{Outcome, ok, err, panic, Outcome-cases}
use go_rkvstcommon.Prelude.Exec.{Exec, fail}
use go_rkvstcommon.Azblob.Error.{GoError, as_storage}
use go_rkvstcommon.Azblob.Options.{Tags, StorerOptions, StorerOption, etag_not_used, parse_options}
use go_rkvstcommon.Azblob.Conditions.{BlobAccessConditions, etag_unused, storer_option_conditions}
use go_rkvstcommon.Azblob.HashingReader.{Reader, ReadResult, copy_all}
use go_rkvstcommon.Azblob.Service.{
  Call, container_properties, upload_stream, upload, set_metadata, set_tags, delete, History,
  Service,
}
use go_rkvstcommon.Azblob.Service.Asks.{
  Asks, Asks-pure, Asks-fail, Asks-local, Asks-perform, Asks-with_error, Asks-if, Asks-bind,
  Asks-bind_last,
}
use go_rkvstcommon.Azblob.Response.{WriteResponse, upload_stream_write_response}
use go_rkvstcommon.Azblob.Upload.{
  SeekReader, stream_conditions, check_container, store_metadata, store_tags, when_given,
  etag_unsupported, write_stream, write, put_blob, put, forgive_missing, delete_blob,
}

abbrev pub optional : (Option Tags → Call) → Option Tags → List Call
optional call none = []
optional call (some m) = call (some m) ∷ []

module _ (azp : Service) where
  -- Write with an etag condition fails, and asks the service for nothing but the container's
  -- properties.
  pub write-refuses_etag :
      (identity : String) (source : Reader) (opts : List StorerOption) (h : History)
      → (parse_options opts).etag_condition ≢ etag_not_used
      → ((w : WriteResponse) → (write azp identity source opts h).0 ≢ ok w)
        × ((write azp identity source opts h).1 ≡ h ++ container_properties ∷ [])
  unfolding write etag_unused
  write-refuses_etag identity source opts h k = ground arith

  pub store_metadata-Asks :
      (identity : String) (m : Option Tags)
      → Asks (store_metadata azp identity m) (set_metadata identity m ∷ [])
  unfolding store_metadata
  store_metadata-Asks identity m =
      Asks-bind _ _ [] _ (Asks-with_error _ _ (Asks-local _))
        λ _. Asks-with_error _ _ (Asks-perform azp.done _)

  pub store_tags-Asks :
      (identity : String) (m : Option Tags)
      → Asks (store_tags azp identity m) (set_tags identity m ∷ [])
  unfolding store_tags
  store_tags-Asks identity m =
      Asks-bind _ _ [] _ (Asks-with_error _ _ (Asks-local _))
        λ _. Asks-with_error _ _ (Asks-perform azp.done _)

  when_given-Asks :
      (set : Option Tags → Exec History GoError Unit) (call : Option Tags → Call)
      → ((m : Option Tags) → Asks (set m) (call m ∷ []))
      → (m : Option Tags) → Asks (when_given azp set m) (optional call m)
  unfolding when_given
  when_given-Asks set call k none = Asks-pure tt
  when_given-Asks set call k (some m) = k (some m)

  pub write_stream-Asks :
      (identity : String) (body : ReadResult) (lease_id : String)
      → Asks
          (write_stream azp identity body lease_id)
          (upload_stream identity (stream_conditions lease_id) body ∷ [])
  unfolding write_stream
  write_stream-Asks identity body lease_id =
      Asks-bind _ _ [] _ (Asks-with_error _ _ (Asks-local _)) λ _.
        Asks-bind _ _ (_ ∷ []) [] (Asks-with_error _ _ (Asks-perform azp.reply _))
          λ r. Asks-pure (upload_stream_write_response r)

  -- The requests of a successful Write.
  abbrev pub write_calls : String → Reader → StorerOptions → List Call
  write_calls identity source o =
      container_properties
      ∷ upload_stream identity (stream_conditions o.lease_id) (copy_all source)
      ∷ (optional (set_metadata identity) o.metadata ++ optional (set_tags identity) o.tags)

  -- Write makes its requests in one order: the container's check, the upload of the whole source under
  -- the lease of the options, then the metadata and the tags that were given. With success it made
  -- them all, and with an error or a panic a first part of them.
  pub write-Asks :
      (identity : String) (source : Reader) (opts : List StorerOption)
      → Asks (write azp identity source opts) (write_calls identity source (parse_options opts))
  unfolding write check_container
  write-Asks identity source opts =
      let o = parse_options opts in
      Asks-bind _ _ (container_properties ∷ []) _
        (Asks-with_error _ _ (Asks-perform azp.done container_properties))
        λ _.
          Asks-if (not (etag_unused o.etag_condition)) (fail etag_unsupported) _ _
            (λ _. Asks-fail etag_unsupported _)
            λ _.
              Asks-bind _ _ (_ ∷ []) _ (write_stream-Asks identity (copy_all source) o.lease_id)
                λ wr.
                  Asks-bind _ _ (optional (set_metadata identity) o.metadata) _
                    (when_given-Asks _ _ (store_metadata-Asks identity) o.metadata)
                    λ _.
                      Asks-bind_last _ _ _ (when_given-Asks _ _ (store_tags-Asks identity) o.tags)
                        λ _. Asks-pure wr

  -- When Put succeeds, it made one request, and the source stood at its start, the conditions are
  -- those of the options, and the content, the metadata and the tags went in that one request.
  pub put-requests :
      (identity : String) (source : SeekReader) (opts : List StorerOption) (h : History)
      (w : WriteResponse)
      → (put azp identity source opts h).0 ≡ ok w
      → (c : BlobAccessConditions) × (storer_option_conditions (parse_options opts) ≡ ok c)
        × (source.position ≡ 0)
        × (source.seek_error ≡ none)
        × ((put azp identity source opts h).1
            ≡ h
              ++ upload identity c
                  (copy_all source.reader)
                  (parse_options opts).metadata
                  (parse_options opts).tags
                ∷ [])
  unfolding put put_blob
  put-requests identity source opts h w k =
      elim (Outcome-cases (storer_option_conditions (parse_options opts))) [
        | inl (c, e) ↦ (c, e, ground arith, ground arith, ground arith)
        | inr bad ↦ ground arith
      ]

  -- Put makes no request when the source is not at its start or the options' conditions are refused.
  pub put-refuses :
      (identity : String) (source : SeekReader) (opts : List StorerOption) (h : History)
      (e : GoError)
      → (source.position ≢ 0) ⊎ (storer_option_conditions (parse_options opts) ≡ err e)
      → ((put azp identity source opts h).1 ≡ h)
        × ((w : WriteResponse) → (put azp identity source opts h).0 ≢ ok w)
  unfolding put put_blob
  put-refuses identity source opts h e k = ground arith

  -- The service deleted the blob, or said by a 404 that there is none.
  abbrev pub IsGone : Outcome GoError (Unit {0}) → Type 0
  IsGone o =
      (o ≡ ok tt)
      ⊎ ((e : GoError) × (code : String) × (o ≡ err e) × (as_storage e ≡ some (code, 404)))

  forgive_missing-IsGone :
      (o : Outcome GoError (Unit {0})) → forgive_missing azp o ≡ ok tt → IsGone o
  unfolding forgive_missing
  forgive_missing-IsGone (ok t) k = inl refl
  forgive_missing-IsGone panic k = cc
  forgive_missing-IsGone (err e) k = elim (Option-cases (as_storage e)) [
    | inl missing ↦ ground arith
    | inr (found, same) ↦ inr (e, found.0, refl, ground arith)
  ]

  -- Deleting a blob that is not there succeeds: Delete reports success exactly when a client can be
  -- made and the service deletes the blob or answers with a 404.
  pub delete_blob-ok_iff :
      (identity : String) (h : History)
      → ((delete_blob azp identity h).0 ≡ ok tt)
        ↔ ((azp.new_block_blob_client identity ≡ ok tt) × IsGone (azp.done h (delete identity)))
  unfolding delete_blob
  delete_blob-ok_iff identity h = (
    λ k. ground (arith, forgive_missing-IsGone (azp.done h (delete identity))),
    λ k. ground arith,
  )
