-- ===== src/Azblob/Multipart/Once.antt =====
-- How often streamReader of azblob/upload.go uploads.
use go_rkvstcommon.Prelude.{
  ℕ, suc, ◌+◌, ◌≤◌, ◌≡◌, String, ◌==◌, Bool, true, false, Option, none, some, List, [], ◌∷◌, ◌++◌,
  arith, if◌then◌else◌,
}
use go_rkvstcommon.Prelude.Outcome.{Outcome, ok, err, panic}
use go_rkvstcommon.Prelude.Exec.{Exec, continue, ◌>>=◌}
use go_rkvstcommon.Prelude.Int.{pos}
use go_rkvstcommon.Azblob.Error.{GoError}
use go_rkvstcommon.Azblob.Options.{Tags, StorerOptions, StorerOption, parse_options}
use go_rkvstcommon.Azblob.HashingReader.{ReadResult, Reader, drain_all, HashingReader}
use go_rkvstcommon.Azblob.Service.{
  Call, upload_stream, container_properties, History, Service, perform, local, with_error,
}
use go_rkvstcommon.Azblob.Response.{WriteResponse}
use go_rkvstcommon.Azblob.Upload.{store_metadata, store_tags, write_stream}
use go_rkvstcommon.Azblob.Multipart.{
  Part, NextPart, part, bad_part, Request, stamp, prepare, finish_file, store_file, upload_part,
  stream_parts, is_empty_length, multipart_or_fail, write_stream_request,
}

abbrev is_upload : Call → ℕ
is_upload (upload_stream identity c body) = 1
is_upload _ = 0

-- The uploads of a history.
pub uploads : History → ℕ
uploads [] = 0
uploads (c ∷ h) = is_upload c + uploads h

uploads-append : (h h' : History) → uploads (h ++ h') ≡ uploads h + uploads h'
unfolding uploads
uploads-append [] h' = omega arith
uploads-append (c ∷ h) h' = omega (arith, uploads-append h h')

-- `m` uploads n times at most, whatever its outcome.
record UploadsAtMost {A : Type 0} (n : ℕ) (m : Exec History GoError A) : Type 0 where
  at : (h : History) → uploads (m h).1 ≤ uploads h + n

module _ {A : Type 0} where
  at_most-here : (n : ℕ) (o : History → Outcome GoError A) → UploadsAtMost n (λ h. (o h, h))
  at_most-here n o = record { at = λ h. omega arith }

  at_most-perform :
      (answer : History → Call → Outcome GoError A) (c : Call)
      → UploadsAtMost (is_upload c) (with_error (perform answer c))
  unfolding perform uploads
  at_most-perform answer c = record { at = λ h. omega (arith, uploads-append h (c ∷ [])) }

  at_most-if :
      (n : ℕ) (b : Bool) (m k : Exec History GoError A)
      → UploadsAtMost n m
      → UploadsAtMost n k
      → UploadsAtMost n (if b then m else k)
  at_most-if n true m k hm hk = hm
  at_most-if n false m k hm hk = hk

module _ {A B : Type 0} where
  continue-le :
      (n : ℕ) (o : Outcome GoError A) (f : A → Exec History GoError B) (h : History)
      → ((a : A) → UploadsAtMost n (f a))
      → uploads (continue o f h).1 ≤ uploads h + n
  continue-le n (ok a) f h k = (k a).at h
  continue-le n (err e) f h k = omega arith
  continue-le n panic f h k = omega arith

  at_most-bind :
      (n k : ℕ) (m : Exec History GoError A) (f : A → Exec History GoError B)
      → UploadsAtMost n m
      → ((a : A) → UploadsAtMost k (f a))
      → UploadsAtMost (n + k) (m >>= f)
  at_most-bind n k m f hm hf = record {
    at = λ h. omega (arith, hm.at h, continue-le k (m h).0 f (m h).1 hf);
  }

module _ (azp : Service) where
  at_most-metadata : (i : String) (m : Option Tags) → UploadsAtMost 0 (store_metadata azp i m)
  unfolding store_metadata
  at_most-metadata i m = at_most-bind 0 0 _ _ (at_most-here 0 _) λ _. at_most-perform azp.done _

  at_most-tags : (i : String) (m : Option Tags) → UploadsAtMost 0 (store_tags azp i m)
  unfolding store_tags
  at_most-tags i m = at_most-bind 0 0 _ _ (at_most-here 0 _) λ _. at_most-perform azp.done _

  at_most-write_stream :
      (i : String) (body : ReadResult) (l : String) → UploadsAtMost 1 (write_stream azp i body l)
  unfolding write_stream
  at_most-write_stream i body l =
      at_most-bind 0 1 _ _ (at_most-here 0 _)
        λ _. at_most-bind 1 0 _ _ (at_most-perform azp.reply _) λ r. at_most-here 0 _

  at_most-stamp :
      (wr : WriteResponse) (up : HashingReader) (m : String) → UploadsAtMost 0 (stamp azp wr up m)
  unfolding stamp
  at_most-stamp wr up m = at_most-here 0 _

  at_most-finish_file :
      (i : String) (o : StorerOptions) (wr : WriteResponse)
      → UploadsAtMost 0 (finish_file azp i o wr)
  unfolding finish_file
  at_most-finish_file i o wr =
      at_most-bind 0 0 _ _ (at_most-metadata i _)
        λ _. at_most-bind 0 0 _ _ (at_most-tags i o.tags) λ _. at_most-here 0 (λ _. ok wr)

  at_most-store_file :
      (i : String) (o : StorerOptions) (typed : String × Reader)
      → UploadsAtMost 1 (store_file azp i o typed)
  unfolding store_file
  at_most-store_file i o (mime_type, source) =
      let up : HashingReader =
        (drain_all (record { hasher = []; size = pos 0; part = source })).1 in
      at_most-bind 1 0 _ _ (at_most-write_stream i _ _) λ wr.
        at_most-bind 0 0 (stamp azp wr up mime_type) (finish_file azp i o)
          (at_most-stamp wr up mime_type) (at_most-finish_file i o)

  at_most-upload_part :
      (i : String) (o : StorerOptions) (p : Part) → UploadsAtMost 1 (upload_part azp i o p)
  unfolding upload_part
  at_most-upload_part i o p =
      at_most-bind 0 1 (local (prepare azp o p)) (store_file azp i o) (at_most-here 0 _)
        (at_most-store_file i o)

  -- After a file nothing more is uploaded.
  at_most-rest :
      (i : String) (o : StorerOptions) (parts : List NextPart) (n : ℕ) (resp : Option WriteResponse)
      → UploadsAtMost 0 (stream_parts azp i o parts (suc (suc n)) resp)
  unfolding stream_parts
  at_most-rest i o [] n resp = at_most-here 0 _
  at_most-rest i o (bad_part e ∷ rest) n resp = at_most-here 0 _
  at_most-rest i o (part p ∷ rest) n resp = record { at = λ h. ground arith }

  at_most-parts :
      (i : String) (o : StorerOptions) (parts : List NextPart) (resp : Option WriteResponse)
      → UploadsAtMost 1 (stream_parts azp i o parts 1 resp)
  unfolding stream_parts
  at_most-parts i o [] resp = at_most-here 1 _
  at_most-parts i o (bad_part e ∷ rest) resp = at_most-here 1 _
  at_most-parts i o (part p ∷ rest) resp =
      at_most-if 1 (p.file_name == "") _ _ (at_most-parts i o rest resp)
        (at_most-bind 1 0 _ _ (at_most-upload_part i o p) λ wr. at_most-rest i o rest 0 (some wr))

  -- Whatever the request and whatever the outcome, WriteStream uploads at most once.
  pub write_stream_request-uploads_once :
      (identity : String) (r : Request) (opts : List StorerOption) (h : History)
      → uploads (write_stream_request azp identity r opts h).1 ≤ uploads h + 1
  unfolding write_stream_request
  write_stream_request-uploads_once identity r opts h =
      (at_most-bind 0 1 _ _ (at_most-perform azp.done container_properties) λ _.
          at_most-if 1 (is_empty_length r.content_length) _ _ (at_most-here 1 _) (
            at_most-bind 0 1 (local (multipart_or_fail azp r.multipart_reader)) _ (at_most-here 0 _)
              λ parts. at_most-parts identity (parse_options opts) parts none)).at
        h
