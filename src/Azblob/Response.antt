-- ===== src/Azblob/Response.antt =====
-- azblob/writeresponse.go and azblob/readresponse.go
use go_rkvstcommon.Prelude.{
  ℕ, String, ◌==◌, Bool, ◌||◌, Option, none, some, List, [], ◌∷◌, nat_eq, if◌then◌else◌,
}
use Prim.Native.String
use go_rkvstcommon.Prelude.Int.{ℤ, pos}
use go_rkvstcommon.Prelude.Dict.{lookup, string_key}
use go_rkvstcommon.Azblob.Error.{GoError, find_storage, condition_not_met}
use go_rkvstcommon.Azblob.Options.{Tags, Time}
use go_rkvstcommon.Azblob.HashingReader.{Reader}
use go_rkvstcommon.Azblob.Service.{RawReply}

-- type WriteResponse struct; `size` is an int64.
pub record WriteResponse : Type 0 where
  pub hash_value : String
  pub mime_type : String
  pub size : ℤ
  pub timestamp_accepted : String
  pub etag : Option String
  pub last_modified : Option Time
  pub status_code : ℕ
  pub status : String
  pub xms_error_code : String

abbrev pub xms_error_code_header : String
xms_error_code_header = "X-Ms-Error-Code"

-- value, ok := r.RawResponse.Header[...]; if ok && len(value) > 0 { ... = value[0] }
first_value : Option (List String) → String
first_value (some (value ∷ more)) = value
first_value _ = ""

-- uploadStreamWriteResponse
unfoldable pub upload_stream_write_response : RawReply → WriteResponse
unfolding first_value lookup
upload_stream_write_response r = record {
  hash_value = "";
  mime_type = "";
  size = pos 0;
  timestamp_accepted = "";
  etag = r.etag;
  last_modified = none;
  status_code = r.status_code;
  status = r.status;
  xms_error_code = first_value (lookup xms_error_code_header r.header);
}

-- uploadWriteResponse
unfoldable pub upload_write_response : RawReply → WriteResponse
unfolding upload_stream_write_response
upload_write_response r = record (upload_stream_write_response r) {
  last_modified = r.last_modified;
}

write_code : Option (String × ℕ) → WriteResponse → WriteResponse
write_code none wr = wr
write_code (some (code, status)) wr =
    if code == ""
    then wr
    else if code == condition_not_met
    then record wr { xms_error_code = code; status = String.◌++◌ "304 " code; status_code = 304 }
    else record wr { xms_error_code = code }

-- normaliseWriteResponseErr
unfoldable pub normalise_write_response_err : Option GoError → WriteResponse → WriteResponse
unfolding write_code find_storage
normalise_write_response_err e wr = write_code (find_storage e) wr

-- type ReaderResponse struct. `size` and `content_length` are int64.
pub record ReaderResponse : Type 0 where
  pub reader : Option Reader
  pub hash_value : String
  pub mime_type : String
  pub content_length : ℤ
  pub size : ℤ
  pub tags : Option Tags
  pub timestamp_accepted : String
  pub scanned_status : String
  pub scanned_bad_reason : String
  pub scanned_timestamp : String
  pub etag : Option String
  pub last_modified : Option Time
  pub metadata : Tags
  pub status_code : ℕ
  pub status : String
  pub xms_error_code : String

abbrev pub zero_response : ReaderResponse
zero_response = record {
  reader = none;
  hash_value = "";
  mime_type = "";
  content_length = pos 0;
  size = pos 0;
  tags = none;
  timestamp_accepted = "";
  scanned_status = "";
  scanned_bad_reason = "";
  scanned_timestamp = "";
  etag = none;
  last_modified = none;
  metadata = [];
  status_code = 0;
  status = "";
  xms_error_code = "";
}

-- (*ReaderResponse).ConditionNotMet
unfoldable pub response_condition_not_met : ReaderResponse → Bool
response_condition_not_met r = r.xms_error_code == condition_not_met

-- (*ReaderResponse).Ok
unfoldable pub response_ok : ReaderResponse → Bool
response_ok r = nat_eq r.status_code 200 || nat_eq r.status_code 201

reader_code : Option (String × ℕ) → ReaderResponse → ReaderResponse
reader_code none rr = rr
reader_code (some (code, status)) rr =
    if code == ""
    then rr
    else if code == condition_not_met
    then record rr { xms_error_code = code; status = String.◌++◌ "304 " code; status_code = 304 }
    else record rr { xms_error_code = code }

-- normaliseReaderResponseErr
unfoldable pub normalise_reader_response_err : Option GoError → ReaderResponse → ReaderResponse
unfolding reader_code find_storage
normalise_reader_response_err e rr = reader_code (find_storage e) rr
