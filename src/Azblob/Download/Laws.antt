-- ===== src/Azblob/Download/Laws.antt =====
-- What Reader of azblob/download.go returns.
use go_rkvstcommon.Prelude.{
  ◌≡◌, refl, sym, ap, ◌∙◌, ◌⊎◌, ◌==◌, if◌then◌else◌, String, eq_iff, Option, none, some, List, [],
  ◌∷◌, arith, All, Option-cases, Bool-cases, inl, inr,
}
use go_rkvstcommon.Prelude.Dict.{insert, lookup-insert, lookup, string_key}
use go_rkvstcommon.Prelude.Int.{ℤ}
use go_rkvstcommon.Prelude.Decimal.{parse_int}
use go_rkvstcommon.Prelude.Outcome.{Outcome, ok-injective, ok, err, panic}
use go_rkvstcommon.Prelude.Exec.{pure, >>=-eq-ok}
use mathlib.Core.Path.{subst}
use go_rkvstcommon.Azblob.Error.{GoError, eof}
use go_rkvstcommon.Azblob.Options.{Tags, only_metadata, StorerOptions, StorerOption, parse_options}
use go_rkvstcommon.Azblob.Conditions.{BlobAccessConditions, storer_option_conditions}
use go_rkvstcommon.Azblob.Service.{
  get_tags, perform, with_error, from_error, History, RawReply, local, download,
}
use go_rkvstcommon.Azblob.Response.{ReaderResponse, zero_response, normalise_reader_response_err}
use go_rkvstcommon.Azblob.Download.{
  Storer, collect_tags, fetch_tags, number_error, size_header, value_or_empty,
  reader_response_metadata, described, download_reader_response, check_tags, required_tags,
  tags_or_empty, raise_if, fetch_metadata, after_download, read_blob, wanted_tags, reader, is_only,
}

-- Every required tag is on the blob, with the required value.
abbrev pub Matches : Tags → Tags → Type 0
Matches required blob_tags = All (λ (t : String × String). lookup t.0 blob_tags ≡ some t.1) required

check_tags-Matches :
    (required blob_tags : Tags) → check_tags required blob_tags ≡ none → Matches required blob_tags
unfolding check_tags
check_tags-Matches [] blob_tags h = tt
check_tags-Matches ((k, v) ∷ more) blob_tags h = elim (Option-cases (lookup k blob_tags)) [
  | inl missing ↦ absurd (ground arith)
  | inr (value, found) ↦ ground (arith, eq_iff value v, check_tags-Matches more blob_tags)
]

-- The value that the last entry for a key has, among a blob's tags as the service lists them
unfoldable pub last_value : String → List (String × String) → Option String
last_value k [] = none
last_value k ((j, v) ∷ more) =
    let later = last_value k more in
    elim later [ some w ↦ some w | none ↦ if j == k then some v else none ]

-- The service lists every required tag with the required value.
abbrev pub Answers : Tags → List (String × String) → Type 0
Answers required set = All (λ (t : String × String). last_value t.0 set ≡ some t.1) required

abbrev or_else : Option String → Option String → Option String
or_else (some v) o = some v
or_else none o = o

or_else-none : (o : Option String) → o ≡ or_else o none
or_else-none none = refl
or_else-none (some v) = refl

collect_tags-lookup :
    (tags : Tags) (set : List (String × String)) (k : String)
    → lookup k (collect_tags tags set) ≡ or_else (last_value k set) (lookup k tags)
unfolding collect_tags last_value
collect_tags-lookup tags [] k = refl
collect_tags-lookup tags ((j, v) ∷ more) k =
    collect_tags-lookup (insert j v tags) more k ∙ elim (Option-cases (last_value k more)) [
      | inl e ↦ ground (arith, lookup-insert j k v tags)
      | inr (w, e) ↦ ground (arith, lookup-insert j k v tags)
    ]

Matches-Answers :
    (required : Tags) (set : List (String × String))
    → Matches required (collect_tags [] set)
    → Answers required set
unfolding lookup
Matches-Answers [] set m = tt
Matches-Answers ((k, v) ∷ more) set (f, m) = (
  or_else-none (last_value k set) ∙ (sym (collect_tags-lookup [] set k) ∙ f),
  Matches-Answers more set m,
)

-- The callback leaves the tags of the response alone.
abbrev pub KeepsTags : Option (ReaderResponse → Tags → ReaderResponse) → Type 0
KeepsTags none = Unit
KeepsTags (some set) = (resp : ReaderResponse) (meta : Tags) → (set resp meta).tags ≡ resp.tags

tags-described :
    (set : Option (ReaderResponse → Tags → ReaderResponse)) (resp : ReaderResponse) (meta : Tags)
    (n : ℤ)
    → KeepsTags set
    → (described set resp meta n).tags ≡ resp.tags
unfolding described
tags-described none resp meta n k = refl
tags-described (some set) resp meta n k = k _ meta

tags-metadata :
    (set : Option (ReaderResponse → Tags → ReaderResponse)) (resp : ReaderResponse) (meta : Tags)
    → KeepsTags set
    → (reader_response_metadata set resp meta).0.tags ≡ resp.tags
unfolding reader_response_metadata
tags-metadata set resp meta k =
    ground (
      arith,
      tags-described set resp meta (parse_int (value_or_empty (lookup size_header meta))).0 k,
    )

tags-download :
    (get : RawReply) (rr : ReaderResponse) → (download_reader_response get rr).0.tags ≡ rr.tags
unfolding download_reader_response
tags-download get rr = ground arith

tags-normalise :
    (e : Option GoError) (rr : ReaderResponse) → (normalise_reader_response_err e rr).tags ≡ rr.tags
unfolding normalise_reader_response_err
tags-normalise e rr = ground arith

raise_if-ok : (e : Option GoError) (h : History) {t : Unit {0}} → (raise_if e h).0 ≡ ok t → e ≡ none
raise_if-ok none h k = refl
raise_if-ok (some e) h k = cc

module _ (azp : Storer) where
  tags-after_download :
      (o : StorerOptions) (resp : ReaderResponse) (answer : Outcome GoError RawReply)
      (r : ReaderResponse) (e : Option GoError)
      → KeepsTags azp.set_scanned_status
      → after_download azp o resp answer ≡ ok (some r, e)
      → r.tags ≡ resp.tags
  unfolding after_download
  tags-after_download o resp (ok get) r e keeps k =
      let rr = (download_reader_response get resp).0 in
      ground
        (arith, tags-download get resp, tags-metadata azp.set_scanned_status rr rr.metadata keeps)
  tags-after_download o resp (err eof) r e keeps k = cc
  tags-after_download o resp (err x) r e keeps k = ground (arith, tags-normalise (some x) resp)
  tags-after_download o resp panic r e keeps k = cc

  tags-read_blob :
      (identity : String) (o : StorerOptions) (c : BlobAccessConditions) (resp : ReaderResponse)
      (h : History) (r : ReaderResponse) (e : Option GoError)
      → KeepsTags azp.set_scanned_status
      → (read_blob azp identity o c resp h).0 ≡ ok (some r, e)
      → r.tags ≡ resp.tags
  unfolding read_blob
  tags-read_blob identity o c resp h r e keeps k = elim (Bool-cases (is_only o.get_metadata)) [
    | inl only ↦
        let (meta, fetched, result, s) =
          >>=-eq-ok (fetch_metadata azp identity) _ h (rw (only, read_blob) at k) in
        ground (arith, tags-metadata azp.set_scanned_status resp meta keeps)
    | inr more ↦
        ground
          (arith, tags-after_download o resp (azp.service.reply h (download identity c)) r e keeps)
  ]

  -- When the size in the metadata is no number, a request for the metadata alone returns neither a
  -- response nor an error.
  read_blob-bad_size :
      (identity : String) (o : StorerOptions) (c : BlobAccessConditions) (resp : ReaderResponse)
      (h : History) (meta : Tags) (e : GoError)
      → o.get_metadata ≡ only_metadata
      → (fetch_metadata azp identity h).0 ≡ ok meta
      → number_error (parse_int (value_or_empty (lookup size_header meta))).1 ≡ some e
      → (read_blob azp identity o c resp h).0 ≡ ok (none, none)
  unfolding read_blob
  read_blob-bad_size identity o c resp h meta e only fetched bad =
      unfold reader_response_metadata in ground arith

  from_error-ok : {A : Type 0} (o : Outcome GoError A) (a : A) → from_error o ≡ ok a → o ≡ ok a
  from_error-ok (ok b) a h = h
  from_error-ok (err x) a h = cc
  from_error-ok panic a h = cc

  -- What the service answers for the tags of a blob is what fetch_tags returns, as a map.
  fetch_tags-set :
      (identity : String) (h : History) (tags : Tags)
      → (fetch_tags azp identity h).0 ≡ ok tags
      → (set : List (String × String)) × (azp.service.tag_set h (get_tags identity) ≡ ok set)
        × (tags ≡ collect_tags [] set)
  unfolding fetch_tags perform
  fetch_tags-set identity h tags k =
      let (t, e, k1, s) =
        >>=-eq-ok (with_error (local (azp.service.new_blob_client identity))) _ h k in
      let (set, e2, k2, s2) =
        >>=-eq-ok (with_error (perform azp.service.tag_set (get_tags identity))) _ h k1 in
      (set, from_error-ok _ set e2, sym (ok-injective k2))

  wanted_tags-set :
      (identity : String) (o : StorerOptions) (required : Tags) (h : History) (tags : Option Tags)
      → required_tags o.tags ≡ required
      → (wanted_tags azp identity o h).0 ≡ ok tags
      → (required ≡ [])
        ⊎ ((set : List (String × String)) × (azp.service.tag_set h (get_tags identity) ≡ ok set)
            × (tags ≡ some (collect_tags [] set)))
  unfolding wanted_tags
  wanted_tags-set identity o [] h tags q k = inl refl
  wanted_tags-set identity o (x ∷ xs) h tags q k =
      let (found, e, k1, s) =
        >>=-eq-ok (fetch_tags azp identity) (λ f. pure (some f)) h (rw q at k) in
      let (set, f, g) = fetch_tags-set identity h found e in
      inr (set, f, sym (ok-injective k1) ∙ ap some g)

  answered :
      (required : Tags) (tags : Option Tags) (set : List (String × String))
      → tags ≡ some (collect_tags [] set)
      → Matches required (tags_or_empty tags)
      → Answers required set
  answered required tags set e m =
      Matches-Answers required set (subst (λ t. Matches required (tags_or_empty t)) e m)

  -- Reader returns a response only of a blob that has every required tag with the required value, by
  -- the service's answer to the request for the tags of this blob, which is the first that Reader
  -- makes, if any tag is required; and the tags of the response have them too, as long as the
  -- callback leaves the tags of the response alone.
  pub reader-Matches :
      (identity : String) (opts : List StorerOption) (h : History) (r : ReaderResponse)
      (e : Option GoError)
      → KeepsTags azp.set_scanned_status
      → (reader azp identity opts h).0 ≡ ok (some r, e)
      → Matches (required_tags (parse_options opts).tags) (tags_or_empty r.tags)
        × ((required_tags (parse_options opts).tags ≡ [])
            ⊎ ((set : List (String × String)) × (azp.service.tag_set h (get_tags identity) ≡ ok set)
                × Answers (required_tags (parse_options opts).tags) set))
  unfolding reader
  reader-Matches identity opts h r e keeps k =
      let o = parse_options opts in
      let (c, e1, k1, s1) = >>=-eq-ok (local (storer_option_conditions o)) _ h k in
      let (tags, e2, k2, s2) = >>=-eq-ok (wanted_tags azp identity o) _ h k1 in
      let h' = (wanted_tags azp identity o h).1 in
      let checked = check_tags (required_tags o.tags) (tags_or_empty tags) in
      let (t, e3, k3, s3) = >>=-eq-ok (raise_if checked) _ h' k2 in
      let fine : checked ≡ none = raise_if-ok checked h' e3 in
      let same =
        tags-read_blob identity o c (record zero_response { tags = tags }) (raise_if checked h').1 r
          e keeps k3 in
      let matches = check_tags-Matches (required_tags o.tags) (tags_or_empty tags) fine in
      (
        rw same matches,
        elim (wanted_tags-set identity o (required_tags o.tags) h tags refl e2) [
          | inl nothing ↦ inl nothing
          | inr (set, f, g) ↦ inr (set, f, answered (required_tags o.tags) tags set g matches)
        ],
      )
