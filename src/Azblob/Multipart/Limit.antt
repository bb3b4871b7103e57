-- ===== src/Azblob/Multipart/Limit.antt =====
-- The size limit of WriteStream in azblob/upload.go.
use go_rkvstcommon.Prelude.{
  ℕ, ◌<◌, ◌≡◌, ◌≢◌, String, none, some, List, [], ◌∷◌, arith, length, Bool-cases, inl, inr,
}
use go_rkvstcommon.Prelude.Int.{pos}
use go_rkvstcommon.Prelude.Dict.{string_key}
use go_rkvstcommon.Prelude.Outcome.{Outcome, ok, err, panic, Outcome-cases}
use go_rkvstcommon.Prelude.Exec.{◌>>=◌, >>=-eq-ok}
use go_rkvstcommon.Azblob.Error.{GoError}
use go_rkvstcommon.Azblob.Options.{StorerOptions, StorerOption, parse_options}
use go_rkvstcommon.Azblob.HashingReader.{Reader, copy_all}
use go_rkvstcommon.Azblob.Service.{History, Service, local}
use go_rkvstcommon.Azblob.Response.{WriteResponse}
use go_rkvstcommon.Azblob.Upload.{check_container}
use go_rkvstcommon.Azblob.Multipart.{
  Part, NextPart, part, bad_part, Request, check_size, prepare, store_file, upload_part,
  stream_parts, is_empty_length, multipart_or_fail, stream_reader, write_stream_request,
}

module _ (azp : Service) where
  check_size_zero :
      (o : StorerOptions) (c r : Reader) → o.size_limit ≡ pos 0 → check_size azp o c ≢ ok r
  unfolding check_size
  check_size_zero o c r z = ground arith

  prepare_zero :
      (o : StorerOptions) (p : Part) (t : String × Reader)
      → o.size_limit ≡ pos 0
      → prepare azp o p ≢ ok t
  unfolding prepare
  prepare_zero o p t z = ground arith

  upload_part_zero :
      (identity : String) (o : StorerOptions) (p : Part) (h : History) (w : WriteResponse)
      → o.size_limit ≡ pos 0
      → (upload_part azp identity o p h).0 ≢ ok w
  unfolding upload_part
  upload_part_zero identity o p h w z = ground (arith, Outcome-cases (prepare azp o p))

  stream_parts_zero :
      (identity : String) (o : StorerOptions) (parts : List NextPart) (h : History)
      (w : WriteResponse)
      → o.size_limit ≡ pos 0
      → (stream_parts azp identity o parts 1 none h).0 ≢ ok (some w)
  unfolding stream_parts
  stream_parts_zero identity o [] h w z k = cc
  stream_parts_zero identity o (bad_part e ∷ rest) h w z k = cc
  stream_parts_zero identity o (part p ∷ rest) h w z k =
      elim (Outcome-cases (upload_part azp identity o p h).0) [
        | inl (wr, e) ↦ absurd (upload_part_zero identity o p h wr z e)
        | inr bad ↦ ground (arith, stream_parts_zero identity o rest h w z)
      ]

  form_zero :
      (identity : String) (o : StorerOptions) (form : Outcome GoError (List NextPart)) (h : History)
      (w : WriteResponse)
      → o.size_limit ≡ pos 0
      → ((local form >>= λ parts. stream_parts azp identity o parts 1 none) h).0 ≢ ok (some w)
  form_zero identity o (ok parts) h w z k = stream_parts_zero identity o parts h w z k
  form_zero identity o (err e) h w z k = cc
  form_zero identity o panic h w z k = cc

  stream_reader_zero :
      (identity : String) (o : StorerOptions) (r : Request) (h : History) (w : WriteResponse)
      → o.size_limit ≡ pos 0
      → (stream_reader azp identity r o h).0 ≢ ok (some w)
  unfolding stream_reader
  stream_reader_zero identity o r h w z k = elim (Bool-cases (is_empty_length r.content_length)) [
    | inl refused ↦ ground arith
    | inr some_length ↦
        form_zero identity o (multipart_or_fail azp r.multipart_reader) h w z
          (rw (some_length, stream_reader) at k)
  ]

  -- With the size limit 0, which is its value when WithSizeLimit is not given, no file is ever
  -- uploaded: WriteStream never returns a response.
  write_stream_request-zero_limit :
      (identity : String) (r : Request) (opts : List StorerOption) (h : History) (w : WriteResponse)
      → (parse_options opts).size_limit ≡ pos 0
      → (write_stream_request azp identity r opts h).0 ≢ ok (some w)
  unfolding write_stream_request
  write_stream_request-zero_limit identity r opts h w z k =
      let (t, e, k', s) = >>=-eq-ok (check_container azp) _ h k in
      stream_reader_zero identity (parse_options opts) r (check_container azp h).1 w z k'

  prepare-lt-limit :
      (o : StorerOptions) (p : Part) (n : ℕ) (t : String × Reader)
      → o.size_limit ≡ pos n
      → prepare azp o p ≡ ok t
      → length (copy_all p.content).0 < n
  unfolding prepare
  prepare-lt-limit o p n t z k = ground arith

  -- A file that is uploaded under a limit is smaller than it: a file of just that size is refused.
  pub upload_part-lt-limit :
      (identity : String) (o : StorerOptions) (p : Part) (n : ℕ) (h : History) (w : WriteResponse)
      → o.size_limit ≡ pos n
      → (upload_part azp identity o p h).0 ≡ ok w
      → length (copy_all p.content).0 < n
  unfolding upload_part
  upload_part-lt-limit identity o p n h w z k =
      let (t, e, k', s) = >>=-eq-ok (local (prepare azp o p)) (store_file azp identity o) h k in
      prepare-lt-limit o p n t z e
