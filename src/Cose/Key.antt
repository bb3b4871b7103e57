-- ===== src/Cose/Key.antt =====
-- cose/key.go, cose/ec_key.go and cose/ec_cose_alg.go
pub mod Laws
use go_rkvstcommon.Prelude.{
  ℕ, ◌+◌, ◌*◌, String, ◌==◌, Bool, true, false, Option, none, some, List, [], ◌∷◌, if◌then◌else◌,
}
use go_rkvstcommon.Prelude.Int.{ℤ, pos, negsuc, int_eq}
use go_rkvstcommon.Prelude.Outcome.{Outcome, ok, err, panic, and_then}
use go_rkvstcommon.Cose.Value.{
  Value, nil, text, bytes, int, texts, value_map, other, Entries, no_entries, entry, CoseError,
  key_value_error, key_format_error, cwt_claims_cnf_wrong_format, unknown_curve, unknown_key_type,
  unknown_algorithm, curve_not_supported, type_error,
}

-- map[int64]interface{}
abbrev pub Labels : Type 0
Labels = List (ℤ × Value)

-- v, ok := m[label]
unfoldable pub get_label : ℤ → Labels → Option Value
get_label label [] = none
get_label label ((n, v) ∷ rest) =
    let later = get_label label rest in if int_eq n label then some v else later

value_or_nil : Option Value → Value
value_or_nil none = nil
value_or_nil (some v) = v

-- m[label], which is nil where there is no such label
unfoldable pub index : Labels → ℤ → Value
unfolding get_label value_or_nil
index m label = value_or_nil (get_label label m)

abbrev add_label : ℤ → Value → Outcome CoseError Labels → Outcome CoseError Labels
add_label n v (ok m) = ok ((n, v) ∷ m)
add_label n v (err e) = err e
add_label n v panic = panic

-- convertKeysToLabels, where the loop is over the entries in their order; the result is the same in
-- any order, since their keys differ.
unfoldable pub convert_keys_to_labels : Entries → Outcome CoseError Labels
convert_keys_to_labels no_entries = ok []
convert_keys_to_labels (entry (int n) v rest) = add_label n v (convert_keys_to_labels rest)
convert_keys_to_labels (entry nil v rest) = err cwt_claims_cnf_wrong_format
convert_keys_to_labels (entry (text s) v rest) = err cwt_claims_cnf_wrong_format
convert_keys_to_labels (entry (bytes b) v rest) = err cwt_claims_cnf_wrong_format
convert_keys_to_labels (entry (texts l) v rest) = err cwt_claims_cnf_wrong_format
convert_keys_to_labels (entry (value_map m) v rest) = err cwt_claims_cnf_wrong_format
convert_keys_to_labels (entry (other t) v rest) = err cwt_claims_cnf_wrong_format

-- The cases of a switch on an int64 label, or its error after them
unfoldable pub switch : CoseError → List (ℤ × String) → ℤ → Outcome CoseError String
switch e [] n = err e
switch e ((label, name) ∷ rest) n =
    let later = switch e rest n in if int_eq n label then ok name else later

-- The form that the three functions below share
unfoldable pub from_label :
    String → CoseError → List (ℤ × String) → Value → Outcome CoseError String
unfolding type_error switch
from_label field e names nil = err (key_value_error field)
from_label field e names (text s) = ok s
from_label field e names (int n) = switch e names n
from_label field e names v = type_error (key_format_error field "[int64|string]") v

-- AlgorithmLabelToAlgorithm; negsuc n is -(n + 1)
unfoldable pub algorithm_label_to_algorithm : Value → Outcome CoseError String
unfolding from_label
algorithm_label_to_algorithm = from_label "alg" unknown_algorithm (
    (negsuc 6, "ES256")
    ∷ (negsuc 34, "ES384")
    ∷ (negsuc 35, "ES512")
    ∷ (negsuc 7, "EdDSA")
    ∷ (negsuc 65534, "RS1")
    ∷ (negsuc 258, "RS512")
    ∷ (negsuc 257, "RS384")
    ∷ (negsuc 256, "RS256")
    ∷ [])

-- CurveLabelToCurve
unfoldable pub curve_label_to_curve : Value → Outcome CoseError String
unfolding from_label
curve_label_to_curve = from_label "crv" unknown_curve (
    (pos 1, "P-256")
    ∷ (pos 2, "P-384")
    ∷ (pos 3, "P-521")
    ∷ (pos 4, "X25519")
    ∷ (pos 5, "X448")
    ∷ (pos 6, "Ed25519")
    ∷ (pos 7, "Ed448")
    ∷ [])

-- KeyTypeLabelToKeyType
unfoldable pub key_type_label_to_key_type : Value → Outcome CoseError String
unfolding from_label
key_type_label_to_key_type =
    from_label "kty" unknown_key_type ((pos 1, "OKP") ∷ (pos 2, "EC") ∷ (pos 3, "RSA") ∷ [])

-- type CoseCommonKey struct. Kid is the bytes of a string, and `kid` that string, none where they are nil.
pub record CoseCommonKey : Type 0 where
  pub kty : String
  pub kid : Option String
  pub alg : String
  pub key_ops : List String

-- An error of the algorithm is only logged.
algorithm_or_empty : Outcome CoseError String → Outcome CoseError String
algorithm_or_empty (ok a) = ok a
algorithm_or_empty (err e) = ok ""
algorithm_or_empty panic = panic

-- kid.(string), as bytes, or nil where there are none
kid_of : Value → Option String
kid_of (text s) = if s == "" then none else some s
kid_of v = none

-- keyOps.([]string), nil where it is none
key_ops_of : Value → List String
key_ops_of (texts l) = l
key_ops_of v = []

-- The part of NewCoseCommonKey after the key type
common_key_with : Labels → String → Outcome CoseError CoseCommonKey
unfolding index algorithm_label_to_algorithm algorithm_or_empty kid_of key_ops_of
common_key_with m keytype =
    and_then (algorithm_or_empty (algorithm_label_to_algorithm (index m (pos 3)))) λ algorithm.
      ok (record {
        kty = keytype;
        kid = kid_of (index m (pos 2));
        alg = algorithm;
        key_ops = key_ops_of (index m (pos 4));
      })

-- NewCoseCommonKey
unfoldable pub new_cose_common_key : Labels → Outcome CoseError CoseCommonKey
unfolding index key_type_label_to_key_type common_key_with
new_cose_common_key m = and_then (key_type_label_to_key_type (index m (pos 1))) (common_key_with m)

-- type ECCoseKey struct
pub record EcCoseKey : Type 0 where
  pub common : CoseCommonKey
  pub curve : String
  pub x : List ℕ
  pub y : List ℕ

-- x, ok := coseKey[ECXLabel]
coordinate : String → Option Value → Outcome CoseError Value
coordinate field none = err (key_value_error field)
coordinate field (some v) = ok v

-- xBytes, ok := x.([]byte)
coordinate_bytes : String → Value → Outcome CoseError (List ℕ)
unfolding type_error
coordinate_bytes field (bytes b) = ok b
coordinate_bytes field v = type_error (key_format_error field "[]byte") v

-- The part of NewECCoseKey after the common fields
ec_key_with : Labels → CoseCommonKey → Outcome CoseError EcCoseKey
unfolding index curve_label_to_curve get_label coordinate coordinate_bytes
ec_key_with m common = and_then (curve_label_to_curve (index m (negsuc 0))) λ curve.
    and_then (coordinate "x" (get_label (negsuc 1) m)) λ x.
      and_then (coordinate "y" (get_label (negsuc 2) m)) λ y.
        and_then (coordinate_bytes "x" x) λ xs.
          and_then (coordinate_bytes "y" y)
            λ ys. ok (record { common = common; curve = curve; x = xs; y = ys })

-- NewECCoseKey
unfoldable pub new_ec_cose_key : Labels → Outcome CoseError EcCoseKey
unfolding new_cose_common_key ec_key_with
new_ec_cose_key m = and_then (new_cose_common_key m) (ec_key_with m)

-- big.Int.SetBytes, of big-endian bytes
unfoldable pub set_bytes : ℕ → List ℕ → ℕ
set_bytes n [] = n
set_bytes n (b ∷ bs) = set_bytes (n * 256 + b) bs

-- ecdsa.PublicKey, by the name of its curve
pub record PublicKey : Type 0 where
  pub curve_name : String
  pub x_value : ℕ
  pub y_value : ℕ

abbrev public_key_on : String → EcCoseKey → Outcome CoseError PublicKey
public_key_on name key =
    ok (record { curve_name = name; x_value = set_bytes 0 key.x; y_value = set_bytes 0 key.y })

-- (*ECCoseKey).PublicKey
unfoldable pub public_key : EcCoseKey → Outcome CoseError PublicKey
unfolding set_bytes
public_key key =
    if key.curve == "P-256"
    then public_key_on "P-256" key
    else if key.curve == "P-384"
    then public_key_on "P-384" key
    else if key.curve == "P-521"
    then public_key_on "P-521" key
    else err unknown_curve

-- CoseAlgForEC: AlgorithmES256, AlgorithmES384 and AlgorithmES512 by their numbers
unfoldable pub cose_alg_for_ec : PublicKey → Outcome CoseError ℤ
cose_alg_for_ec key =
    if key.curve_name == "P-256"
    then ok (negsuc 6)
    else if key.curve_name == "P-384"
    then ok (negsuc 34)
    else if key.curve_name == "P-521"
    then ok (negsuc 35)
    else err curve_not_supported
