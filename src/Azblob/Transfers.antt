-- ===== src/Azblob/Transfers.antt =====
-- Uploads, downloads and listings of azblob on small services: the properties' hypotheses hold there.
use go_rkvstcommon.Prelude.{ℕ, ◌+◌, ◌≤◌, ◌≡◌, refl, true, none, some, [], ◌∷◌, length, arith}
use go_rkvstcommon.Prelude.Int.{pos}
use go_rkvstcommon.Prelude.Dict.{lookup, insert, string_key}
use go_rkvstcommon.Prelude.Outcome.{ok}
use go_rkvstcommon.Prelude.{◌⊎◌, String, List}
use go_rkvstcommon.Azblob.Options.{Tags, parse_options, with_tags, with_list_marker}
use go_rkvstcommon.Azblob.Conditions.{storer_option_conditions, BlobAccessConditions}
use go_rkvstcommon.Azblob.HashingReader.{int64, add_int64, copy_all, rejoin, drain}
use go_rkvstcommon.Azblob.Service.{get_tags, upload, upload_stream, perform}
use go_rkvstcommon.Azblob.Response.{
  WriteResponse, upload_write_response, upload_stream_write_response,
}
use go_rkvstcommon.Azblob.Upload.{stream_conditions, put, write_stream, store_metadata, store_tags}
use go_rkvstcommon.Azblob.Multipart.{Request, part, upload_part, write_stream_request}
use go_rkvstcommon.Azblob.Multipart.Laws.{description_calls, upload_part-stores}
use go_rkvstcommon.Azblob.Multipart.Once.{uploads, write_stream_request-uploads_once}
use go_rkvstcommon.Azblob.Upload.Laws.{put-requests}
use go_rkvstcommon.Azblob.Download.{
  Storer, reader, download_reader_response, fetch_tags, check_tags,
}
use go_rkvstcommon.Azblob.Download.Laws.{Answers, last_value, Matches, reader-Matches}
use go_rkvstcommon.Azblob.Listing.{count, filter_request}
use go_rkvstcommon.Azblob.Listing.Laws.{items_of, count-pages}
use go_rkvstcommon.Azblob.Scenarios.{service, reply, source, file, limited, first_page, last_page}

abbrev storer : Storer
storer = record { service = service; has_container = true; set_scanned_status = none }

abbrev request : Request
request = record { content_length = pos 3; multipart_reader = ok (part file ∷ []) }

abbrev pub stored : WriteResponse
stored = record (upload_stream_write_response reply) {
  hash_value = "digest";
  size = pos 3;
  mime_type = "text/plain";
  timestamp_accepted = "now";
}

write_stream_request-uploads_once_example :
    uploads (write_stream_request service "b" request [] []).1 ≤ uploads [] + 1
write_stream_request-uploads_once_example =
    write_stream_request-uploads_once service "b" request [] []

count-pages_example :
    (count service 2 "f" [] []).0
    ≡ ok (some (int64 (items_of service "f" [] (first_page ∷ last_page ∷ []))))
unfolding filter_request parse_options with_list_marker
count-pages_example =
    count-pages service "f" [] 2 [] first_page (last_page ∷ []) (omega arith)
      (refl, refl, (refl, refl))

put-requests_example :
    (c : BlobAccessConditions) × (storer_option_conditions (parse_options []) ≡ ok c)
    × (source.position ≡ 0)
    × (source.seek_error ≡ none)
    × ((put service "b" source [] []).1
        ≡ upload "b" c (copy_all source.reader) (parse_options []).metadata (parse_options []).tags
          ∷ [])
unfolding put parse_options storer_option_conditions perform
put-requests_example = put-requests service "b" source [] [] (upload_write_response reply) refl

upload_part-stores_example :
    (stored.hash_value ≡ service.hex_sha256 (1 ∷ 2 ∷ 3 ∷ []))
    × (stored.size ≡ int64 (length {A = ℕ} (1 ∷ 2 ∷ 3 ∷ [])))
    × ((upload_part service "b" (limited 9) file []).1
        ≡ upload_stream "b" (stream_conditions "") (1 ∷ 2 ∷ 3 ∷ [], none)
          ∷ description_calls service "b" (limited 9) stored)
unfolding upload_part copy_all lookup write_stream store_metadata store_tags
    upload_stream_write_response drain rejoin add_int64 int64
upload_part-stores_example =
    upload_part-stores service "b" (limited 9) file (1 ∷ 2 ∷ 3 ∷ []) [] stored refl refl refl

reader-Matches_example :
    Matches (("state", "open") ∷ []) (("state", "open") ∷ [])
    × ((◌≡◌ {A = Tags} (("state", "open") ∷ []) [])
        ⊎ ((set : List (String × String)) × (service.tag_set [] (get_tags "b") ≡ ok set)
            × Answers (("state", "open") ∷ []) set))
unfolding last_value reader parse_options with_tags storer_option_conditions perform check_tags
    fetch_tags lookup insert download_reader_response
reader-Matches_example =
    reader-Matches storer "b" (with_tags (some (("state", "open") ∷ [])) ∷ []) [] _ none tt refl
