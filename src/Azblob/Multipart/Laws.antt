-- ===== src/Azblob/Multipart/Laws.antt =====
-- What WriteStream of azblob/upload.go stores and reports.
use mathlib.Core.List.{append_assoc}
use go_rkvstcommon.Prelude.{
  ◌≡◌, refl, ap, sym, ◌∙◌, String, none, some, List, [], ◌∷◌, ◌++◌, length,
}
use go_rkvstcommon.Prelude.Dict.{insert, string_key, lookup-insert}
use go_rkvstcommon.Prelude.Outcome.{ok, ok-injective}
use go_rkvstcommon.Prelude.Exec.{pure, ◌>>=◌, >>=-eq-ok}
use go_rkvstcommon.Azblob.Options.{StorerOptions}
use go_rkvstcommon.Azblob.HashingReader.{
  Reader, Bytes, ReadResult, HashingReader, copy_all, drain_all, int64,
}
use go_rkvstcommon.Azblob.HashingReader.Laws.{EndsOnce, fresh}
use go_rkvstcommon.Azblob.Service.{
  Call, upload_stream, set_metadata, set_tags, History, Service, local,
}
use go_rkvstcommon.Azblob.Response.{WriteResponse}
use go_rkvstcommon.Azblob.Upload.{store_metadata, store_tags, write_stream, stream_conditions}
use go_rkvstcommon.Azblob.Upload.Laws.{write_stream-Asks, store_metadata-Asks, store_tags-Asks}
use go_rkvstcommon.Azblob.Service.Asks.{Asks, Asks-eq, Asks-bind, Asks-bind_last, Asks-pure}
use mathlib.Core.Path.{subst}
use go_rkvstcommon.Azblob.Multipart.{
  Part, given, finish_file, prepare, store_file, body_of, describe, standard_metadata, merge,
  upload_part,
}
use go_rkvstcommon.Azblob.Multipart.Content.{prepare-copy_all, drained}

module _ (azp : Service) where
  -- The requests after the upload, for the response that is returned.
  abbrev pub description_calls : String → StorerOptions → WriteResponse → List Call
  description_calls identity o w =
      set_metadata identity (some (merge (standard_metadata azp w) (given o.metadata)))
      ∷ set_tags identity o.tags
      ∷ []

  finish_file-Asks :
      (identity : String) (o : StorerOptions) (resp : WriteResponse)
      → Asks (finish_file azp identity o resp) (description_calls identity o resp)
  unfolding finish_file
  finish_file-Asks identity o resp =
      Asks-bind _ _ (_ ∷ []) _ (store_metadata-Asks azp identity _) λ _.
        Asks-bind_last (store_tags azp identity o.tags) (λ _. pure resp) _
          (store_tags-Asks azp identity o.tags) λ _. Asks-pure resp

  pub finish_file-ok :
      (identity : String) (o : StorerOptions) (resp : WriteResponse) (h : History)
      (w : WriteResponse)
      → (finish_file azp identity o resp h).0 ≡ ok w
      → resp ≡ w
  unfolding finish_file
  finish_file-ok identity o resp h w k =
      let (t, e, k', s) = >>=-eq-ok (store_metadata azp identity _) _ h k in
      let (t', e', k'', s') = >>=-eq-ok (store_tags azp identity o.tags) _ _ k' in ok-injective k''

  finish_file-history :
      (identity : String) (o : StorerOptions) (resp : WriteResponse) (h : History)
      (w : WriteResponse)
      → (finish_file azp identity o resp h).0 ≡ ok w
      → (finish_file azp identity o resp h).1 ≡ h ++ description_calls identity o w
  finish_file-history identity o resp h w k =
      subst (λ r. (finish_file azp identity o resp h).1 ≡ h ++ description_calls identity o r)
        (finish_file-ok identity o resp h w k)
        (Asks-eq (finish_file azp identity o resp) _ h (finish_file-Asks identity o resp) k)

  abbrev pub stamped : WriteResponse → HashingReader → String → History → WriteResponse
  stamped wr up mime_type h = describe azp wr up mime_type (azp.now h)

  -- A successful store_file: the digest and the size that it reports, and what it asked for.
  store_file-ok :
      (identity : String) (o : StorerOptions) (m : String) (r : Reader) (h : History)
      (w : WriteResponse)
      → (store_file azp identity o (m, r) h).0 ≡ ok w
      → (w.hash_value ≡ azp.hex_sha256 (drain_all (fresh r)).1.hasher)
        × (w.size ≡ (drain_all (fresh r)).1.size)
        × ((store_file azp identity o (m, r) h).1
            ≡ (h
                ++ upload_stream identity
                    (stream_conditions o.lease_id)
                    (body_of (drain_all (fresh r)).0)
                  ∷ [])
              ++ description_calls identity o w)
  unfolding store_file
  store_file-ok identity o m r h w k =
      let body = body_of (drain_all (fresh r)).0 in
      let (wr, e, k', s) = >>=-eq-ok (write_stream azp identity body o.lease_id) _ h k in
      let h' = (write_stream azp identity body o.lease_id h).1 in
      let resp = stamped wr (drain_all (fresh r)).1 m h' in
      let same = finish_file-ok identity o resp h' w k' in
      let sent =
        Asks-eq (write_stream azp identity body o.lease_id) _ h
          (write_stream-Asks azp identity body o.lease_id) e in
      (
        ap (λ (t : WriteResponse). t.hash_value) (sym same),
        ap (λ (t : WriteResponse). t.size) (sym same),
        s
            ∙ finish_file-history identity o resp h' w k'
            ∙ ap (λ (t : History). t ++ description_calls identity o w) sent,
      )

  -- A successful upload of a part whose reading meets no fault sends its content, whole, reports the
  -- digest and the size (as an int64) of that content, and then records them with the caller's
  -- metadata and tags, which are the last requests.
  pub upload_part-stores :
      (identity : String) (o : StorerOptions) (p : Part) (b : Bytes) (h : History)
      (w : WriteResponse)
      → EndsOnce p.content
      → copy_all p.content ≡ (b, none)
      → (upload_part azp identity o p h).0 ≡ ok w
      → (w.hash_value ≡ azp.hex_sha256 b)
        × (w.size ≡ int64 (length b))
        × ((upload_part azp identity o p h).1
            ≡ h
              ++ (upload_stream identity (stream_conditions o.lease_id) (b, none)
                  ∷ description_calls identity o w))
  unfolding upload_part
  upload_part-stores identity o p b h w ends whole k =
      let ((m, r), prepared, k', s) =
        >>=-eq-ok (local (prepare azp o p)) (store_file azp identity o) h k in
      let (hashed, sized, asked) = store_file-ok identity o m r h w k' in
      let copied =
        prepare-copy_all azp o p m r (ap (λ (t : ReadResult). t.1) whole) ends prepared ∙ whole in
      let (sent, digested, counted) = drained r b copied in
      (
        hashed ∙ ap azp.hex_sha256 digested,
        sized ∙ counted,
        s
            ∙ asked
            ∙ ap
                (λ (t : ReadResult).
                  (h ++ upload_stream identity (stream_conditions o.lease_id) t ∷ [])
                  ++ description_calls identity o w)
                sent
            ∙ append_assoc h _ (description_calls identity o w),
      )

  prepare-ignores_content_type :
      (o : StorerOptions) (p : Part) (values : List String)
      → prepare azp o (record p { header = insert "Content-Type" values p.header })
        ≡ prepare azp o p
  unfolding prepare
  prepare-ignores_content_type o p values = rw lookup-insert refl

  -- The header Content-Type of a part is not read: with any value for it, the upload is the same.
  upload_part-ignores_content_type :
      (identity : String) (o : StorerOptions) (p : Part) (values : List String)
      → upload_part azp identity o (record p { header = insert "Content-Type" values p.header })
        ≡ upload_part azp identity o p
  unfolding upload_part
  upload_part-ignores_content_type identity o p values =
      ap (λ t. local t >>= store_file azp identity o) (prepare-ignores_content_type o p values)
