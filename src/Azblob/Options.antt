-- ===== src/Azblob/Options.antt =====
-- azblob/options.go. A functional option is the function itself; a nil map or pointer is `none`.
use go_rkvstcommon.Prelude.{ℕ, String, Bool, true, false, Option, none, some, List, [], ◌∷◌}
use go_rkvstcommon.Prelude.Int.{ℤ, pos}
use go_rkvstcommon.Prelude.Dict.{Dict}

pub data GetMetadata : Type 0 where
  no_metadata only_metadata both_metadata_and_blob : GetMetadata

pub data EtagCondition : Type 0 where
  etag_not_used etag_match etag_none_match tags_where : EtagCondition

pub data IfSinceCondition : Type 0 where
  if_condition_not_used if_condition_modified_since if_condition_unmodified_since : IfSinceCondition

-- Times are opaque: a number names one.
abbrev pub Time : Type 0
Time = ℕ

abbrev pub ListMarker : Type 0
ListMarker = Option String

abbrev pub Tags : Type 0
Tags = Dict String String

pub record StorerOptions : Type 0 where
  pub lease_id : String
  pub metadata : Option Tags
  pub tags : Option Tags
  pub get_metadata : GetMetadata
  pub get_tags : Bool
  pub size_limit : ℤ
  pub etag : String
  pub etag_condition : EtagCondition
  pub since_condition : IfSinceCondition
  pub since : Option Time
  pub list_prefix : String
  pub list_delim : String
  pub list_marker : ListMarker
  pub list_max_results : ℤ
  pub list_include_tags : Bool
  pub list_include_metadata : Bool

-- &StorerOptions{}: every field has Go's zero value.
abbrev pub zero_options : StorerOptions
zero_options = record {
  lease_id = "";
  metadata = none;
  tags = none;
  get_metadata = no_metadata;
  get_tags = false;
  size_limit = pos 0;
  etag = "";
  etag_condition = etag_not_used;
  since_condition = if_condition_not_used;
  since = none;
  list_prefix = "";
  list_delim = "";
  list_marker = none;
  list_max_results = pos 0;
  list_include_tags = false;
  list_include_metadata = false;
}

-- type Option func(*StorerOptions)
abbrev pub StorerOption : Type 0
StorerOption = StorerOptions → StorerOptions

-- for _, opt := range opts { opt(options) }
unfoldable pub apply_options : List StorerOption → StorerOptions → StorerOptions
apply_options [] options = options
apply_options (opt ∷ opts) options = apply_options opts (opt options)

unfoldable pub parse_options : List StorerOption → StorerOptions
unfolding apply_options
parse_options opts = apply_options opts zero_options

unfoldable pub with_list_prefix : String → StorerOption
with_list_prefix prefix a = record a { list_prefix = prefix }

unfoldable pub with_list_max_results : ℤ → StorerOption
with_list_max_results max_results a = record a { list_max_results = max_results }

unfoldable pub with_list_delim : String → StorerOption
with_list_delim delim a = record a { list_delim = delim }

unfoldable pub with_list_marker : ListMarker → StorerOption
with_list_marker marker a = record a { list_marker = marker }

unfoldable pub with_list_tags : StorerOption
with_list_tags a = record a { list_include_tags = true }

unfoldable pub with_list_metadata : StorerOption
with_list_metadata a = record a { list_include_metadata = true }

unfoldable pub with_modified_since : Option Time → StorerOption
with_modified_since none a = record a { since_condition = if_condition_not_used; since = none }
with_modified_since (some since) a = record a {
  since_condition = if_condition_modified_since;
  since = some since;
}

unfoldable pub with_unmodified_since : Option Time → StorerOption
with_unmodified_since none a = record a { since_condition = if_condition_not_used; since = none }
with_unmodified_since (some since) a = record a {
  since_condition = if_condition_unmodified_since;
  since = some since;
}

unfoldable pub with_etag_match : String → StorerOption
with_etag_match etag a = record a { etag = etag; etag_condition = etag_match }

unfoldable pub with_etag_none_match : String → StorerOption
with_etag_none_match etag a = record a { etag = etag; etag_condition = etag_none_match }

unfoldable pub with_where_tags : String → StorerOption
with_where_tags where_tags a = record a { etag = where_tags; etag_condition = tags_where }

unfoldable pub with_lease_id : String → StorerOption
with_lease_id lease_id a = record a { lease_id = lease_id }

unfoldable pub with_metadata : Option Tags → StorerOption
with_metadata metadata a = record a { metadata = metadata }

unfoldable pub with_get_metadata : GetMetadata → StorerOption
with_get_metadata value a = record a { get_metadata = value }

unfoldable pub with_tags : Option Tags → StorerOption
with_tags tags a = record a { tags = tags }

unfoldable pub with_get_tags : StorerOption
with_get_tags a = record a { get_tags = true }

unfoldable pub with_size_limit : ℤ → StorerOption
with_size_limit size_limit a = record a { size_limit = size_limit }
