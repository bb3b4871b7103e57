-- ===== src/Azblob/Scenarios.antt =====
-- The theorems of azblob on small services and options: the properties' hypotheses hold there.
use go_rkvstcommon.Prelude.{ℕ, ◌≡◌, ◌≢◌, refl, true, none, some, [], ◌∷◌, length}
use go_rkvstcommon.Prelude.Int.{pos}
use go_rkvstcommon.Prelude.Dict.{string_key, label_key}
use go_rkvstcommon.Prelude.Outcome.{ok, err}
use go_rkvstcommon.Azblob.Error.{GoError, storage, eof}
use go_rkvstcommon.Azblob.Options.{
  ListMarker, StorerOptions, zero_options, parse_options, with_lease_id, etag_match,
  if_condition_modified_since,
}
use go_rkvstcommon.Prelude.{◌⊎◌, ◌≢◌, none}
use go_rkvstcommon.Azblob.Options.{etag_not_used}
use go_rkvstcommon.Azblob.Conditions.{
  BlobAccessConditions, ModifiedAccessConditions, no_conditions, no_modified,
  storer_option_conditions,
}
use go_rkvstcommon.Azblob.HashingReader.{Reader, int64, drain_all}
use go_rkvstcommon.Azblob.Service.{Call, find_blobs_by_tags, RawReply, ListReply, Service}
use go_rkvstcommon.Azblob.Service.Asks.{Asks}
use go_rkvstcommon.Azblob.Upload.{SeekReader, write}
use go_rkvstcommon.Azblob.Multipart.{Part}
use go_rkvstcommon.Azblob.Conditions.Laws.{
  HasEtag, HasSince, HasLease, storer_option_conditions-honours,
}
use go_rkvstcommon.Azblob.HashingReader.Laws.{fresh, drain_all-Accounts}
use go_rkvstcommon.Azblob.Upload.Laws.{write_calls, write-Asks}

abbrev pub reply : RawReply
reply = record {
  etag = some "0x8D";
  last_modified = some 3;
  status = "200 OK";
  status_code = 200;
  header = [];
  metadata = ("Size", "many") ∷ [];
  body = [];
}

abbrev pub first_page : ListReply
first_page = record {
  next_marker = some "m";
  prefix = none;
  status = "200 OK";
  status_code = 200;
  items = "a" ∷ "b" ∷ [];
}

abbrev pub last_page : ListReply
last_page = record {
  next_marker = none;
  prefix = none;
  status = "200 OK";
  status_code = 200;
  items = "c" ∷ [];
}

abbrev pub page_at : ListMarker → ListReply
page_at none = first_page
page_at (some m) = last_page

abbrev pub page_for : Call → ListReply
page_for (find_blobs_by_tags r) = page_at r.marker
page_for _ = last_page

-- A service that grants every request
abbrev pub service : Service
service = record {
  new_blob_client = λ identity. ok tt;
  new_block_blob_client = λ identity. ok tt;
  new_lease_client = λ identity. ok tt;
  done = λ h call. ok tt;
  reply = λ h call. ok reply;
  tag_set = λ h call. ok (("state", "open") ∷ []);
  lease_id = λ h call. ok "lease";
  page = λ h call. ok (page_for call);
  has_page = λ h call. true;
  detect = λ r. ok ("text/plain", 1);
  hex_sha256 = λ bytes. "digest";
  now = λ h. "now";
}

abbrev pub blob_not_found : GoError
blob_not_found = storage "BlobNotFound" 404

abbrev pub lease_conflict : GoError
lease_conflict = storage "LeaseAlreadyPresent" 409

abbrev pub without_lease : GoError → Service
without_lease e = record service { lease_id = λ h call. err e }

abbrev pub two_reads : Reader
two_reads = (1 ∷ 2 ∷ [], none) ∷ (3 ∷ [], some eof) ∷ []

abbrev pub source : SeekReader
source = record { position = 0; seek_error = none; reader = two_reads }

abbrev pub moved : SeekReader
moved = record { position = 2; seek_error = none; reader = two_reads }

abbrev pub file : Part
file = record { file_name = "f.txt"; header = []; content = two_reads }

abbrev pub limited : ℕ → StorerOptions
limited n = record zero_options { size_limit = pos n }

abbrev pub modified_match : StorerOptions
modified_match = record zero_options {
  etag = "0x8D";
  etag_condition = etag_match;
  since_condition = if_condition_modified_since;
  since = some 5;
}

abbrev matched : BlobAccessConditions
matched = record {
  lease_access_conditions = none;
  modified_access_conditions =
      some (record no_modified { if_match = some "0x8D"; if_modified_since = some 5 });
}

storer_option_conditions-honours_example :
    HasLease modified_match none
    × ((modified_match.lease_id ≢ "") ⊎ (etag_match ≢ etag_not_used)
        → matched.modified_access_conditions ≢ none)
    × ((m : ModifiedAccessConditions)
        → matched.modified_access_conditions ≡ some m
        → HasEtag modified_match m × HasSince modified_match m)
    × (modified_match.lease_id ≡ "" → etag_match ≡ etag_not_used → matched ≡ no_conditions)
unfolding storer_option_conditions
storer_option_conditions-honours_example =
    storer_option_conditions-honours modified_match matched refl

drain_all-Accounts_example :
    ((drain_all (fresh two_reads)).0.1 ≢ none)
    × ((drain_all (fresh two_reads)).1.hasher ≡ (drain_all (fresh two_reads)).0.0)
    × ((drain_all (fresh two_reads)).1.size ≡ int64 (length (drain_all (fresh two_reads)).0.0))
drain_all-Accounts_example = drain_all-Accounts two_reads

write-Asks_example :
    Asks
      (write service "b" two_reads (with_lease_id "l" ∷ []))
      (write_calls service "b" two_reads (parse_options (with_lease_id "l" ∷ [])))
write-Asks_example = write-Asks service "b" two_reads (with_lease_id "l" ∷ [])
