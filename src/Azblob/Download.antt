-- ===== src/Azblob/Download.antt =====
-- azblob/download.go, and the parts of azblob/readresponse.go that it calls.
pub mod Laws
pub mod Copy
use go_rkvstcommon.Prelude.{
  ℕ, String, ◌==◌, Bool, true, false, not, ◌||◌, Option, none, some, List, [], ◌∷◌, if◌then◌else◌,
}
use go_rkvstcommon.Prelude.Int.{ℤ, pos}
use go_rkvstcommon.Prelude.Dict.{Dict, lookup, insert, string_key}
use go_rkvstcommon.Prelude.Decimal.{NumError, parse_int}
use go_rkvstcommon.Prelude.Outcome.{Outcome, ok, err, panic}
use go_rkvstcommon.Prelude.Exec.{Exec, pure, fail, ◌>>=◌, ◌>>◌}
use go_rkvstcommon.Azblob.Error.{GoError, plain, eof, blob, new_status_error, as_error}
use go_rkvstcommon.Azblob.Options.{
  Tags, GetMetadata, no_metadata, only_metadata, both_metadata_and_blob, StorerOptions,
  StorerOption, parse_options,
}
use go_rkvstcommon.Azblob.Conditions.{BlobAccessConditions, storer_option_conditions}
use go_rkvstcommon.Azblob.Service.{
  get_tags, blob_properties, download, History, RawReply, Service, perform, local, with_error,
}
use go_rkvstcommon.Azblob.Response.{
  ReaderResponse, zero_response, xms_error_code_header, normalise_reader_response_err,
}

-- type Storer struct, as far as reading needs it: its service, whether it has a container client, and
-- the callback setReadResponseScannedStatus.
pub record Storer : Type 0 where
  pub service : Service
  pub has_container : Bool
  pub set_scanned_status : Option (ReaderResponse → Tags → ReaderResponse)

-- A returned pair (response, error) where not both are nil in the usual way; `none` is nil.
abbrev pub Returned : Type 0
Returned = Option ReaderResponse × Option GoError

-- An error of strconv.ParseInt.
abbrev pub parse_error : GoError
parse_error = plain "strconv.ParseInt"

abbrev pub number_error : Option NumError → Option GoError
number_error none = none
number_error (some e) = some parse_error

abbrev pub value_or_empty : Option String → String
value_or_empty none = ""
value_or_empty (some v) = v

-- The metadata keys of azblob/download.go as textproto.CanonicalMIMEHeaderKey spells them.
abbrev pub size_header : String
size_header = "Size"

apply_status :
    Option (ReaderResponse → Tags → ReaderResponse) → ReaderResponse → Tags → ReaderResponse
apply_status none resp meta = resp
apply_status (some set) resp meta = set resp meta

described :
    Option (ReaderResponse → Tags → ReaderResponse) → ReaderResponse → Tags → ℤ → ReaderResponse
unfolding apply_status
described set resp meta size =
    record (apply_status set
      (record resp {
        size = size;
        hash_value = value_or_empty (lookup "Hash" meta);
        mime_type = value_or_empty (lookup "Mime_type" meta);
        timestamp_accepted = value_or_empty (lookup "Time_accepted" meta);
      })
      meta) { metadata = meta }

-- readerResponseMetadata: the response, as it was if the size is no number, and the error
unfoldable pub reader_response_metadata :
    Option (ReaderResponse → Tags → ReaderResponse)
    → ReaderResponse
    → Tags
    → ReaderResponse × Option GoError
unfolding described
reader_response_metadata set resp meta =
    let (size, parse_err) = parse_int (value_or_empty (lookup size_header meta)) in
    elim (number_error parse_err) [
      | some e ↦ (resp, some e)
      | none ↦ (described set resp meta size, none)
    ]

content_length_of : Option (List String) → ReaderResponse → ReaderResponse × Option GoError
content_length_of none rr = (rr, none)
content_length_of (some []) rr = (record rr { content_length = pos 0 }, none)
content_length_of (some (s ∷ more)) rr =
    let (n, e) = parse_int s in (record rr { content_length = n }, number_error e)

-- value, ok := Header[xMsErrorCodeHeader]; set only if there is one
error_code_of : Option (List String) → ReaderResponse → ReaderResponse
error_code_of (some (value ∷ more)) rr = record rr { xms_error_code = value }
error_code_of _ rr = rr

-- downloadReaderResponse
unfoldable pub download_reader_response :
    RawReply → ReaderResponse → ReaderResponse × Option GoError
unfolding content_length_of error_code_of
download_reader_response r rr = content_length_of (lookup "Content-Length" r.header) (
    error_code_of (lookup xms_error_code_header r.header) (record rr {
      status = r.status;
      status_code = r.status_code;
      last_modified = r.last_modified;
      etag = r.etag;
      metadata = r.metadata;
    }))

-- for _, tag := range resp.BlobTagSet { tags[*tag.Key] = *tag.Value }
unfoldable pub collect_tags : Tags → List (String × String) → Tags
collect_tags tags [] = tags
collect_tags tags ((k, v) ∷ more) = collect_tags (insert k v tags) more

-- for k, requiredValue := range options.tags { ... }
unfoldable pub check_tags : Tags → Tags → Option GoError
check_tags [] blob_tags = none
check_tags ((k, required) ∷ more) blob_tags =
    let rest = check_tags more blob_tags in
    elim (lookup k blob_tags) [
      | none ↦ some (as_error (new_status_error "tag is not specified on blob" 404))
      | some value ↦
          if value == required
          then rest
          else some (as_error (new_status_error "blob has different Tag than required" 404))
    ]

abbrev pub required_tags : Option Tags → Tags
required_tags none = []
required_tags (some m) = m

-- len(options.tags) > 0
abbrev has_tags : Tags → Bool
has_tags [] = false
has_tags (t ∷ ts) = true

abbrev pub tags_or_empty : Option Tags → Tags
tags_or_empty none = []
tags_or_empty (some t) = t

is_only : GetMetadata → Bool
is_only only_metadata = true
is_only _ = false

is_both : GetMetadata → Bool
is_both both_metadata_and_blob = true
is_both _ = false

abbrev raise_if : Option GoError → Exec History GoError (Unit {0})
raise_if none = pure tt
raise_if (some e) = fail e

module _ (azp : Storer) where
  -- (*Storer).getTags
  unfoldable pub fetch_tags : String → Exec History GoError Tags
  unfolding perform collect_tags
  fetch_tags identity = do
    with_error (local (azp.service.new_blob_client identity))
    set ← with_error (perform azp.service.tag_set (get_tags identity))
    pure (collect_tags [] set)

  -- (*Storer).getMetadata
  unfoldable pub fetch_metadata : String → Exec History GoError Tags
  unfolding perform
  fetch_metadata identity = do
    with_error (local (azp.service.new_blob_client identity))
    r ← with_error (perform azp.service.reply (blob_properties identity))
    pure r.metadata

  -- The response of a request for metadata alone. On a size that is no number the code returns nil and
  -- its variable err, which is nil here.
  only_metadata_result : ReaderResponse × Option GoError → Returned
  only_metadata_result (resp, none) = (some resp, none)
  only_metadata_result (resp, some e) = (none, none)

  -- What is made of a download: `resp` so far, and the SDK's answer.
  after_download :
      StorerOptions → ReaderResponse → Outcome GoError RawReply → Outcome GoError Returned
  unfolding is_both
  after_download options resp (ok get) =
      let (rr, e) = download_reader_response get resp in
      elim e [
        | some bad ↦ ok (some rr, some bad)
        | none ↦
            let rr' =
              if is_both options.get_metadata
              then (reader_response_metadata azp.set_scanned_status rr rr.metadata).0
              else rr in
            ok (some (record rr' { reader = some get.body }), none)
      ]
  after_download options resp (err eof) = err (blob eof 0)
  after_download options resp (err e) =
      ok (some (normalise_reader_response_err (some e) resp), some e)
  after_download options resp panic = panic

  -- The part of Reader after the checks of the tags.
  unfoldable pub read_blob :
      String → StorerOptions → BlobAccessConditions → ReaderResponse → Exec History GoError Returned
  unfolding perform is_only only_metadata_result after_download
  read_blob identity options conditions resp =
      if is_only options.get_metadata
      then (do
        meta ← fetch_metadata identity
        pure (only_metadata_result (reader_response_metadata azp.set_scanned_status resp meta)))
      else if not azp.has_container
      then fail (plain "no container client available for reader")
      else (do
        with_error (local (azp.service.new_blob_client identity))
        λ h. (
          after_download options resp (azp.service.reply h (download identity conditions)),
          (perform azp.service.reply (download identity conditions) h).1,
        ))

  -- The tags of the blob, where they are wanted.
  wanted_tags : String → StorerOptions → Exec History GoError (Option Tags)
  wanted_tags identity options =
      if has_tags (required_tags options.tags) || options.get_tags
      then (do tags ← fetch_tags identity; pure (some tags))
      else pure none

  -- (*Storer).Reader
  unfoldable pub reader : String → List StorerOption → Exec History GoError Returned
  unfolding read_blob wanted_tags
  reader identity opts = do
    let options = parse_options opts
    conditions ← local (storer_option_conditions options)
    tags ← wanted_tags identity options
    raise_if (check_tags (required_tags options.tags) (tags_or_empty tags))
    read_blob identity options conditions (record zero_response { tags = tags })
