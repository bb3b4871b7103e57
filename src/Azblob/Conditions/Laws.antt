-- ===== src/Azblob/Conditions/Laws.antt =====
-- What storerOptionConditions of azblob/accessconditions.go makes of the options.
use go_rkvstcommon.Prelude.{String, ◌≡◌, ◌≢◌, ◌↔◌, Option, none, some, arith, eq_iff, ◌⊎◌, inl, inr}
use go_rkvstcommon.Prelude.Outcome.{ok, err}
use go_rkvstcommon.Azblob.Error.{plain}
use go_rkvstcommon.Azblob.Options.{
  IfSinceCondition, Time, if_condition_not_used, etag_not_used, etag_match, etag_none_match,
  tags_where, if_condition_modified_since, if_condition_unmodified_since, StorerOptions,
}
use go_rkvstcommon.Azblob.Conditions.{
  BlobAccessConditions, no_conditions, ModifiedAccessConditions, storer_option_conditions,
}

-- The conditions are refused exactly when an etag condition is asked for with no etag value.
pub storer_option_conditions-err_iff :
    (o : StorerOptions)
    → (storer_option_conditions o ≡ err (plain "etag value missing"))
      ↔ ((o.etag ≡ "") × (o.etag_condition ≢ etag_not_used))
unfolding storer_option_conditions
storer_option_conditions-err_iff o = (
  λ h. ground (arith, eq_iff o.etag "", eq_iff o.lease_id ""),
  λ h. ground (arith, eq_iff o.etag "", eq_iff o.lease_id ""),
)

-- A field of a request is set to a value where that is asked for, and to nothing where it is not.
abbrev pub SetWhere : {A B : Type 0} → B → B → Option A → Option A → Type 0
SetWhere asked condition value field =
    (asked ≡ condition → field ≡ value) × (asked ≢ condition → field ≡ none)

-- Of the since fields a request has the one that the options name, and no other.
abbrev pub HasSince : StorerOptions → ModifiedAccessConditions → Type 0
HasSince o m =
    SetWhere o.since_condition if_condition_modified_since o.since m.if_modified_since
    × SetWhere o.since_condition if_condition_unmodified_since o.since m.if_unmodified_since

-- Of the etag fields a request sets the one that the options name, to their value, and no other.
abbrev pub HasEtag : StorerOptions → ModifiedAccessConditions → Type 0
HasEtag o m =
    SetWhere o.etag_condition etag_match (some o.etag) m.if_match
    × SetWhere o.etag_condition etag_none_match (some o.etag) m.if_none_match
    × SetWhere o.etag_condition tags_where (some o.etag) m.if_tags

-- The lease of a request is the one of the options, and there is none where they name none.
abbrev pub HasLease : StorerOptions → Option (Option String) → Type 0
HasLease o l = (o.lease_id ≡ "" → l ≡ none) × (o.lease_id ≢ "" → l ≡ some (some o.lease_id))

-- Where the options are not refused, the conditions have the lease of the options, and none where
-- they name none; and where the options name a lease or an etag condition there are modified-access
-- conditions too, of which the etag fields and the since fields are just those that the options ask
-- for, with their values, and every other is unset. With neither a lease nor an etag condition there
-- are no conditions at all.
pub storer_option_conditions-honours :
    (o : StorerOptions) (c : BlobAccessConditions)
    → storer_option_conditions o ≡ ok c
    → HasLease o c.lease_access_conditions
      × ((o.lease_id ≢ "") ⊎ (o.etag_condition ≢ etag_not_used)
          → c.modified_access_conditions ≢ none)
      × ((m : ModifiedAccessConditions)
          → c.modified_access_conditions ≡ some m
          → HasEtag o m × HasSince o m)
      × (o.lease_id ≡ "" → o.etag_condition ≡ etag_not_used → c ≡ no_conditions)
unfolding storer_option_conditions
storer_option_conditions-honours o c h = (
  ground (arith, eq_iff o.lease_id ""),
  λ asked unset. elim asked [
    | inl lease ↦ ground (arith, eq_iff o.lease_id "")
    | inr etag ↦ ground (arith, eq_iff o.lease_id "")
  ],
  λ m e. (ground (arith, eq_iff o.lease_id ""), ground (arith, eq_iff o.lease_id "")),
  ground (arith, eq_iff o.lease_id ""),
)

-- With neither a lease nor an etag condition a since condition has no effect: the request is the one
-- that is made when none is asked for.
storer_option_conditions-drops_since :
    (o : StorerOptions) (c : IfSinceCondition) (t : Option Time)
    → o.lease_id ≡ ""
    → o.etag_condition ≡ etag_not_used
    → storer_option_conditions (record o { since_condition = c; since = t })
      ≡ storer_option_conditions
          (record o { since_condition = if_condition_not_used; since = none })
unfolding storer_option_conditions
storer_option_conditions-drops_since o c t h k = ground (arith, eq_iff o.lease_id "")
