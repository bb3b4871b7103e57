-- ===== src/Azblob/Multipart/Described.antt =====
-- That WriteStream of azblob/upload.go set the metadata that it reports.
use go_rkvstcommon.Prelude.{◌≡◌, ap, ◌∙◌, String, none, some, [], ◌∷◌, ◌++◌}
use go_rkvstcommon.Prelude.Outcome.{Outcome, ok, err, panic}
use go_rkvstcommon.Prelude.Exec.{>>=-eq-ok}
use mathlib.Core.Path.{subst}
use go_rkvstcommon.Azblob.Error.{GoError}
use go_rkvstcommon.Azblob.Options.{Tags, StorerOptions}
use go_rkvstcommon.Azblob.HashingReader.{Reader, Bytes, ReadResult, copy_all, drain_all}
use go_rkvstcommon.Azblob.HashingReader.Laws.{EndsOnce, fresh}
use go_rkvstcommon.Azblob.Service.{
  upload_stream, set_metadata, History, Service, local, perform, with_error, from_error,
}
use go_rkvstcommon.Azblob.Response.{WriteResponse}
use go_rkvstcommon.Azblob.Upload.{store_metadata, write_stream, stream_conditions}
use go_rkvstcommon.Azblob.Upload.Laws.{write_stream-Asks}
use go_rkvstcommon.Azblob.Service.Asks.{Asks-eq}
use go_rkvstcommon.Azblob.Multipart.{
  Part, given, finish_file, prepare, store_file, body_of, standard_metadata, merge, upload_part,
}
use go_rkvstcommon.Azblob.Multipart.Content.{prepare-copy_all, drained}
use go_rkvstcommon.Azblob.Multipart.Laws.{stamped, finish_file-ok}

from_error-ok : {A : Type 0} (o : Outcome GoError A) (a : A) → from_error o ≡ ok a → o ≡ ok a
from_error-ok (ok b) a h = h
from_error-ok (err x) a h = cc
from_error-ok panic a h = cc

module _ (azp : Service) where
  -- The metadata of a response with the caller's
  abbrev pub stored_metadata : StorerOptions → WriteResponse → Tags
  stored_metadata o w = merge (standard_metadata azp w) (given o.metadata)

  finish_file-set :
      (identity : String) (o : StorerOptions) (resp : WriteResponse) (h : History)
      (w : WriteResponse)
      → (finish_file azp identity o resp h).0 ≡ ok w
      → azp.done h (set_metadata identity (some (stored_metadata o w))) ≡ ok tt
  unfolding finish_file store_metadata perform
  finish_file-set identity o resp h w k =
      let same = finish_file-ok azp identity o resp h w k in
      let (t, e, k1, s) = >>=-eq-ok (store_metadata azp identity _) _ h k in
      let (t', e', k', s') = >>=-eq-ok (with_error (local (azp.new_blob_client identity))) _ h e in
      subst (λ r. azp.done h (set_metadata identity (some (stored_metadata o r))) ≡ ok tt) same
        (from_error-ok _ tt k')

  store_file-set :
      (identity : String) (o : StorerOptions) (m : String) (r : Reader) (h : History)
      (w : WriteResponse)
      → (store_file azp identity o (m, r) h).0 ≡ ok w
      → azp.done
          (h
            ++ upload_stream identity
                (stream_conditions o.lease_id)
                (body_of (drain_all (fresh r)).0)
              ∷ [])
          (set_metadata identity (some (stored_metadata o w)))
        ≡ ok tt
  unfolding store_file
  store_file-set identity o m r h w k =
      let body = body_of (drain_all (fresh r)).0 in
      let (wr, e, k', s) = >>=-eq-ok (write_stream azp identity body o.lease_id) _ h k in
      let h' = (write_stream azp identity body o.lease_id h).1 in
      let sent =
        Asks-eq (write_stream azp identity body o.lease_id) _ h
          (write_stream-Asks azp identity body o.lease_id) e in
      subst (λ t. azp.done t (set_metadata identity (some (stored_metadata o w))) ≡ ok tt) sent
        (finish_file-set identity o (stamped azp wr (drain_all (fresh r)).1 m h') h' w k')

  -- Where an upload of a part succeeded, the service had set the metadata of its response with
  -- success, right after the upload of the content.
  pub upload_part-set :
      (identity : String) (o : StorerOptions) (p : Part) (b : Bytes) (h : History)
      (w : WriteResponse)
      → EndsOnce p.content
      → copy_all p.content ≡ (b, none)
      → (upload_part azp identity o p h).0 ≡ ok w
      → azp.done
          (h ++ upload_stream identity (stream_conditions o.lease_id) (b, none) ∷ [])
          (set_metadata identity (some (stored_metadata o w)))
        ≡ ok tt
  unfolding upload_part
  upload_part-set identity o p b h w ends whole k =
      let ((m, r), prepared, k', s) =
        >>=-eq-ok (local (prepare azp o p)) (store_file azp identity o) h k in
      let copied =
        prepare-copy_all azp o p m r (ap (λ (t : ReadResult). t.1) whole) ends prepared ∙ whole in
      let (sent, digested, counted) = drained r b copied in
      subst
        (λ (t : ReadResult).
          azp.done (h ++ upload_stream identity (stream_conditions o.lease_id) t ∷ [])
            (set_metadata identity (some (stored_metadata o w)))
          ≡ ok tt)
        sent (store_file-set identity o m r h w k')
