-- ===== src/Cose/Value.antt =====
-- The values of a decoded CBOR header (any in Go), cose/errors.go, and valueFromProtectedHeader and
-- the headers that are a text or bytes of cose/cose.go.
use go_rkvstcommon.Prelude.{ℕ, String, Option, none, some, List, if◌then◌else◌}
use go_rkvstcommon.Prelude.Int.{ℤ, pos, int_eq}
use go_rkvstcommon.Prelude.Outcome.{Outcome, ok, err, panic, and_then}

mutual
  -- `nil` is the nil interface, `value_map` a map[interface{}]interface{}, `other` a value of
  -- another type, by that type's name.
  pub data Value : Type 0 where
    nil : Value
    text : String → Value
    bytes : List ℕ → Value
    int : ℤ → Value
    texts : List String → Value
    value_map : Entries → Value
    other : String → Value

  -- The entries of a map, whose keys differ
  pub data Entries : Type 0 where
    no_entries : Entries
    entry : Value → Value → Entries → Entries

-- The errors of cose/errors.go and cose/ec_cose_alg.go
pub data CoseError : Type 0 where
  no_protected_header_value : ℤ → CoseError
  unexpected_protected_header_type : ℤ → String → String → CoseError
  key_value_error : String → CoseError
  key_format_error : String → String → String → CoseError
  cwt_claims_no_issuer cwt_claims_no_subject cwt_claims_no_cnf : CoseError
  cwt_claims_issuer_not_string cwt_claims_subject_not_string : CoseError
  cwt_claims_cnf_wrong_format : CoseError
  unknown_curve unknown_key_type unknown_algorithm : CoseError
  unsupported_cnf_key_type curve_not_supported malformed_rsa_key : CoseError
  -- an error of the COSE library
  library_error : String → CoseError

-- v, ok := m[label], for an int64 label
unfoldable pub find : ℤ → Entries → Option Value
find label no_entries = none
find label (entry (int n) v rest) =
    let later = find label rest in if int_eq n label then some v else later
find label (entry nil v rest) = find label rest
find label (entry (text s) v rest) = find label rest
find label (entry (bytes b) v rest) = find label rest
find label (entry (texts l) v rest) = find label rest
find label (entry (value_map m) v rest) = find label rest
find label (entry (other t) v rest) = find label rest

-- An error that names the type of a value: reflect.TypeOf(v).String() panics on nil.
unfoldable pub type_error : {A : Type 0} → (String → CoseError) → Value → Outcome CoseError A
type_error e nil = panic
type_error e (text s) = err (e "string")
type_error e (bytes b) = err (e "[]uint8")
type_error e (int n) = err (e "int64")
type_error e (texts l) = err (e "[]string")
type_error e (value_map m) = err (e "map[interface {}]interface {}")
type_error e (other t) = err (e t)

-- (*CoseSign1Message).valueFromProtectedHeader
unfoldable pub value_from_protected_header : ℤ → Entries → Outcome CoseError Value
value_from_protected_header label header = elim (find label header) [
  | none ↦ err (no_protected_header_value label)
  | some v ↦ ok v
]

unfoldable pub text_of : ℤ → Value → Outcome CoseError String
unfolding type_error
text_of label (text s) = ok s
text_of label v = type_error (unexpected_protected_header_type label "string") v

unfoldable pub bytes_of : ℤ → Value → Outcome CoseError (List ℕ)
unfolding type_error
bytes_of label (bytes b) = ok b
bytes_of label v = type_error (unexpected_protected_header_type label "[]byte") v

-- The form of ContentTypeFromProtectedheader, DidFromProtectedHeader and FeedFromProtectedHeader
unfoldable pub text_from_protected_header : ℤ → Entries → Outcome CoseError String
unfolding value_from_protected_header text_of
text_from_protected_header label header =
    and_then (value_from_protected_header label header) (text_of label)

-- cose.HeaderLabelContentType
abbrev pub header_label_content_type : ℤ
header_label_content_type = pos 3

-- (*CoseSign1Message).ContentTypeFromProtectedheader
unfoldable pub content_type_from_protected_header : Entries → Outcome CoseError String
unfolding text_from_protected_header
content_type_from_protected_header = text_from_protected_header header_label_content_type

-- (*CoseSign1Message).DidFromProtectedHeader, with the label HeaderLabelDID
unfoldable pub did_from_protected_header : Entries → Outcome CoseError String
unfolding text_from_protected_header
did_from_protected_header = text_from_protected_header (pos 391)

-- (*CoseSign1Message).FeedFromProtectedHeader, with the label HeaderLabelFeed
unfoldable pub feed_from_protected_header : Entries → Outcome CoseError String
unfolding text_from_protected_header
feed_from_protected_header = text_from_protected_header (pos 392)

-- (*CoseSign1Message).KidFromProtectedHeader, with cose.HeaderLabelKeyID; the bytes of its string
unfoldable pub kid_from_protected_header : Entries → Outcome CoseError (List ℕ)
unfolding value_from_protected_header bytes_of
kid_from_protected_header header =
    and_then (value_from_protected_header (pos 4) header) (bytes_of (pos 4))
