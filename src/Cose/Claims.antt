-- ===== src/Cose/Claims.antt =====
-- cose/cwt_claims.go, CWTClaimsFromProtectedHeader of cose/cose.go, and cose/cwtpublickeyprovider.go
pub mod Laws
pub mod Made
use go_rkvstcommon.Prelude.{ℕ, String, ◌==◌, Bool, true, false, Option, none, some, if◌then◌else◌}
use go_rkvstcommon.Prelude.Int.{ℤ, pos}
use go_rkvstcommon.Prelude.Outcome.{Outcome, ok, err, panic, and_then}
use go_rkvstcommon.Cose.Value.{
  Value, nil, text, bytes, int, texts, value_map, other, Entries, CoseError,
  unexpected_protected_header_type, cwt_claims_no_issuer, cwt_claims_no_subject, cwt_claims_no_cnf,
  cwt_claims_issuer_not_string, cwt_claims_subject_not_string, cwt_claims_cnf_wrong_format,
  unknown_key_type, unsupported_cnf_key_type, find, value_from_protected_header,
}
use go_rkvstcommon.Cose.Key.{
  Labels, index, convert_keys_to_labels, key_type_label_to_key_type, EcCoseKey, new_ec_cose_key,
  PublicKey, public_key,
}

-- HeaderLabelCWTClaims, cwt.KeyIss, cwt.KeySub, CNFLabel and CoseKeyLabel
abbrev pub header_label_cwt_claims : ℤ
header_label_cwt_claims = pos 13

abbrev pub key_iss : ℤ
key_iss = pos 1

abbrev pub key_sub : ℤ
key_sub = pos 2

abbrev pub cnf_label : ℤ
cnf_label = pos 8

abbrev pub cose_key_label : ℤ
cose_key_label = pos 1

-- type CWTClaims struct
pub record CwtClaims : Type 0 where
  pub issuer : String
  pub subject : String
  pub confirmation_method : Option EcCoseKey

-- switch keytype
key_of_type : String → Labels → Outcome CoseError EcCoseKey
key_of_type keytype m =
    if keytype == "EC"
    then new_ec_cose_key m
    else if keytype == "RSA"
    then err unsupported_cnf_key_type
    else err unknown_key_type

-- The part of CNFCoseKey after the key's map
key_of_map : Value → Outcome CoseError EcCoseKey
unfolding convert_keys_to_labels key_type_label_to_key_type index key_of_type
key_of_map (value_map m) = and_then (convert_keys_to_labels m) λ labels.
    and_then (key_type_label_to_key_type (index labels (pos 1)))
      λ keytype. key_of_type keytype labels
key_of_map v = err cwt_claims_cnf_wrong_format

value_of : Option Value → Value
value_of none = nil
value_of (some v) = v

-- The part of CNFCoseKey after the cnf field
key_of_cnf : Option Value → Outcome CoseError EcCoseKey
unfolding find value_of key_of_map
key_of_cnf none = err cwt_claims_no_cnf
key_of_cnf (some (value_map m)) = key_of_map (value_of (find cose_key_label m))
key_of_cnf (some v) = err cwt_claims_cnf_wrong_format

-- CNFCoseKey
unfoldable pub cnf_cose_key : Entries → Outcome CoseError EcCoseKey
unfolding find key_of_cnf
cnf_cose_key claims = key_of_cnf (find cnf_label claims)

-- A field of the claims that is to be a text
claim : CoseError → CoseError → Option Value → Outcome CoseError String
claim missing wrong none = err missing
claim missing wrong (some (text s)) = ok s
claim missing wrong (some v) = err wrong

-- The last part of CWTClaimsFromProtectedHeader: a missing cnf field is no error.
with_confirmation : String → String → Outcome CoseError EcCoseKey → Outcome CoseError CwtClaims
with_confirmation issuer subject (ok key) =
    ok (record { issuer = issuer; subject = subject; confirmation_method = some key })
with_confirmation issuer subject (err cwt_claims_no_cnf) =
    ok (record { issuer = issuer; subject = subject; confirmation_method = none })
with_confirmation issuer subject (err e) = err e
with_confirmation issuer subject panic = panic

-- The part of CWTClaimsFromProtectedHeader after the claims' map, of which a value that is no map is
-- said to have the type of a map.
claims_of : Value → Outcome CoseError CwtClaims
unfolding claim find with_confirmation cnf_cose_key
claims_of (value_map m) =
    and_then (claim cwt_claims_no_issuer cwt_claims_issuer_not_string (find key_iss m)) λ issuer.
      and_then (claim cwt_claims_no_subject cwt_claims_subject_not_string (find key_sub m))
        λ subject. with_confirmation issuer subject (cnf_cose_key m)
claims_of v = err (
    unexpected_protected_header_type header_label_cwt_claims "map[interface{}]interface{}"
      "map[interface {}]interface {}")

-- (*CoseSign1Message).CWTClaimsFromProtectedHeader
unfoldable pub cwt_claims_from_protected_header : Entries → Outcome CoseError CwtClaims
unfolding value_from_protected_header claims_of
cwt_claims_from_protected_header header =
    and_then (value_from_protected_header header_label_cwt_claims header) claims_of

unfoldable pub confirmed_key : Option EcCoseKey → Outcome CoseError PublicKey
unfolding public_key
confirmed_key none = err cwt_claims_no_cnf
confirmed_key (some key) = public_key key

-- (*CWTPublicKeyProvider).PublicKey, where `algorithm` is what protectedHeader.Algorithm() returns
unfoldable pub cwt_public_key : Outcome CoseError ℤ → Entries → Outcome CoseError (PublicKey × ℤ)
unfolding cwt_claims_from_protected_header confirmed_key
cwt_public_key algorithm header = and_then algorithm λ alg.
    and_then (cwt_claims_from_protected_header header)
      λ claims. and_then (confirmed_key claims.confirmation_method) λ key. ok (key, alg)
