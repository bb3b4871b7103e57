-- ===== src/Azblob/Conditions.antt =====
-- azblob/accessconditions.go
pub mod Laws
use go_rkvstcommon.Prelude.{
  String, Bool, Option, none, some, ◌&&◌, not, true, false, ◌==◌, if◌then◌else◌,
}
use go_rkvstcommon.Prelude.Outcome.{Outcome, ok, err}
use go_rkvstcommon.Azblob.Error.{GoError, plain}
use go_rkvstcommon.Azblob.Options.{
  EtagCondition, etag_not_used, etag_match, etag_none_match, tags_where, IfSinceCondition,
  if_condition_not_used, if_condition_modified_since, if_condition_unmodified_since, Time,
  StorerOptions,
}

-- azStorageBlob.ModifiedAccessConditions
pub record ModifiedAccessConditions : Type 0 where
  pub if_match : Option String
  pub if_none_match : Option String
  pub if_tags : Option String
  pub if_modified_since : Option Time
  pub if_unmodified_since : Option Time

-- azStorageBlob.BlobAccessConditions: the lease's id, behind the pointer to its struct, and the rest
pub record BlobAccessConditions : Type 0 where
  pub lease_access_conditions : Option (Option String)
  pub modified_access_conditions : Option ModifiedAccessConditions

abbrev pub no_modified : ModifiedAccessConditions
no_modified = record {
  if_match = none;
  if_none_match = none;
  if_tags = none;
  if_modified_since = none;
  if_unmodified_since = none;
}

abbrev pub no_conditions : BlobAccessConditions
no_conditions = record { lease_access_conditions = none; modified_access_conditions = none }

-- options.etagCondition == EtagNotUsed
unfoldable pub etag_unused : EtagCondition → Bool
etag_unused etag_not_used = true
etag_unused _ = false

-- the first `switch`
set_etag : EtagCondition → String → ModifiedAccessConditions → ModifiedAccessConditions
set_etag etag_match etag m = record m { if_match = some etag }
set_etag etag_none_match etag m = record m { if_none_match = some etag }
set_etag tags_where etag m = record m { if_tags = some etag }
set_etag etag_not_used etag m = m

-- the second `switch`
set_since : IfSinceCondition → Option Time → ModifiedAccessConditions → ModifiedAccessConditions
set_since if_condition_modified_since since m = record m { if_modified_since = since }
set_since if_condition_unmodified_since since m = record m { if_unmodified_since = since }
set_since if_condition_not_used since m = m

-- storerOptionConditions
unfoldable pub storer_option_conditions : StorerOptions → Outcome GoError BlobAccessConditions
unfolding etag_unused set_etag set_since
storer_option_conditions options =
    if options.lease_id == "" && etag_unused options.etag_condition
    then ok no_conditions
    else if options.etag == "" && not (etag_unused options.etag_condition)
    then err (plain "etag value missing")
    else ok (record {
      lease_access_conditions =
          if options.lease_id == "" then none else some (some options.lease_id);
      modified_access_conditions = some (
          set_since options.since_condition options.since
            (set_etag options.etag_condition options.etag no_modified));
    })
