-- ===== src/Azblob/Listing.antt =====
-- azblob/list.go
pub mod Laws
use go_rkvstcommon.Prelude.{
  ℕ, zero, suc, ◌+◌, String, ◌==◌, Bool, true, false, Option, none, some, List, [], ◌∷◌, ◌++◌,
  length, if◌then◌else◌,
}
use go_rkvstcommon.Prelude.Int.{ℤ, pos, negsuc}
use go_rkvstcommon.Prelude.Exec.{Exec, pure, ◌>>=◌}
use go_rkvstcommon.Azblob.Error.{GoError}
use go_rkvstcommon.Azblob.Options.{
  ListMarker, StorerOptions, StorerOption, parse_options, with_list_marker,
}
use go_rkvstcommon.Azblob.HashingReader.{add_int64}
use go_rkvstcommon.Azblob.Service.{
  ListInclude, include_tags, include_metadata, ListRequest, FilterRequest, list_blobs,
  find_blobs_by_tags, History, Service, ListReply, perform,
}

-- type FilterResponse struct
pub record FilterResponse : Type 0 where
  pub marker : ListMarker
  pub status_code : ℕ
  pub status : String
  pub items : List String

-- type ListerResponse struct
pub record ListerResponse : Type 0 where
  pub marker : ListMarker
  pub prefix : String
  pub status_code : ℕ
  pub status : String
  pub items : List String

-- n > 0, as a bound on the page
at_most : ℤ → Option ℤ
at_most (pos zero) = none
at_most (pos (suc n)) = some (pos (suc n))
at_most (negsuc n) = none

-- r.Marker == nil || *r.Marker == ""
abbrev pub is_last : ListMarker → Bool
is_last none = true
is_last (some m) = m == ""

abbrev when : Bool → ListInclude → List ListInclude
when true i = i ∷ []
when false i = []

prefix_or_empty : Option String → String
prefix_or_empty none = ""
prefix_or_empty (some p) = p

abbrev pub empty_page : ListerResponse
empty_page = record { marker = none; prefix = ""; status_code = 0; status = ""; items = [] }

-- the request that List makes for the options
unfoldable pub list_request : StorerOptions → ListRequest
unfolding at_most
list_request options = record {
  marker = options.list_marker;
  prefix = if options.list_prefix == "" then none else some options.list_prefix;
  include =
      when options.list_include_tags include_tags
      ++ when options.list_include_metadata include_metadata;
  max_results = at_most options.list_max_results;
}

-- the request that FilteredList makes for the options
unfoldable pub filter_request : String → StorerOptions → FilterRequest
unfolding at_most
filter_request tags_filter options = record {
  marker = options.list_marker;
  where_clause = tags_filter;
  max_results = at_most options.list_max_results;
}

module _ (azp : Service) where
  -- (*Storer).FilteredList
  unfoldable pub filtered_list : String → List StorerOption → Exec History GoError FilterResponse
  unfolding perform
  filtered_list tags_filter opts = do
    let request = filter_request tags_filter (parse_options opts)
    resp ← perform azp.page (find_blobs_by_tags request)
    pure (record {
      marker = resp.next_marker;
      status_code = resp.status_code;
      status = resp.status;
      items = resp.items;
    })

  -- (*Storer).List: where the pager has no page, the response is empty.
  unfoldable pub list : List StorerOption → Exec History GoError ListerResponse
  unfolding perform list_request prefix_or_empty
  list opts h =
      let call = list_blobs (list_request (parse_options opts)) in
      if azp.has_page h call
      then (do
        resp ← perform azp.page call
        pure (record {
          marker = resp.next_marker;
          prefix = prefix_or_empty resp.prefix;
          status_code = resp.status_code;
          status = resp.status;
          items = resp.items;
        }))
          h
      else pure empty_page (perform azp.page call h).1

  -- The loop of Count, with its variables `count` and `m`; `none` where the fuel runs out.
  unfoldable pub count_from :
      ℕ → String → List StorerOption → ℤ → ListMarker → Exec History GoError (Option ℤ)
  count_from zero tags_filter opts count m = pure none
  count_from (suc fuel) tags_filter opts count m = do
    r ← filtered_list tags_filter (opts ++ with_list_marker m ∷ [])
    let total = add_int64 count (length r.items)
    let rest = count_from fuel tags_filter opts total r.marker
    if is_last r.marker then pure (some total) else rest

  -- (*Storer).Count
  unfoldable pub count : ℕ → String → List StorerOption → Exec History GoError (Option ℤ)
  unfolding count_from
  count fuel tags_filter opts = count_from fuel tags_filter opts (pos 0) none
