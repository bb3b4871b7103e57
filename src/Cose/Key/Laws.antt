-- ===== src/Cose/Key/Laws.antt =====
-- Keys of cose/key.go and cose/ec_key.go: labels, and the algorithm of a key.
use go_rkvstcommon.Prelude.{
  ℕ, ◌≡◌, ap, sym, ◌∙◌, ◌≢◌, String, ◌==◌, eq_iff, arith, Bool-cases, inl, inr, List, [], Option,
  none, some, if◌then◌else◌,
}
use go_rkvstcommon.Prelude.Int.{ℤ, pos, negsuc}
use go_rkvstcommon.Prelude.Outcome.{ok, err, Outcome-cases, ok-injective, and_then-ok}
use go_rkvstcommon.Cose.Value.{
  Value, nil, text, bytes, int, texts, value_map, other, Entries, no_entries, entry, CoseError,
  find,
}
use go_rkvstcommon.Cose.Key.{
  Labels, get_label, index, convert_keys_to_labels, key_type_label_to_key_type, CoseCommonKey,
  new_cose_common_key, common_key_with, ec_key_with, EcCoseKey, new_ec_cose_key, PublicKey,
  public_key, cose_alg_for_ec, value_or_nil, kid_of, key_ops_of, algorithm_or_empty, coordinate,
  coordinate_bytes, curve_label_to_curve, from_label, algorithm_label_to_algorithm,
}

-- Where convertKeysToLabels succeeds, every int64 label has in its result the value that it has in
-- the map given.
pub convert_keys_to_labels-find :
    (entries : Entries) (labels : Labels) (label : ℤ)
    → convert_keys_to_labels entries ≡ ok labels
    → get_label label labels ≡ find label entries
unfolding convert_keys_to_labels find get_label
convert_keys_to_labels-find no_entries labels label h = ap (get_label label) (sym (ok-injective h))
convert_keys_to_labels-find (entry (int n) v rest) labels label h =
    elim (Outcome-cases (convert_keys_to_labels rest)) [
      | inl (m, f) ↦ ground (arith, convert_keys_to_labels-find rest m label f)
      | inr (inl (e, f)) ↦ absurd (ground arith)
      | inr (inr f) ↦ absurd (ground arith)
    ]
convert_keys_to_labels-find (entry nil v rest) labels label h = cc
convert_keys_to_labels-find (entry (text s) v rest) labels label h = cc
convert_keys_to_labels-find (entry (bytes b) v rest) labels label h = cc
convert_keys_to_labels-find (entry (texts l) v rest) labels label h = cc
convert_keys_to_labels-find (entry (value_map m) v rest) labels label h = cc
convert_keys_to_labels-find (entry (other t) v rest) labels label h = cc

ec_key_with-common :
    (labels : Labels) (common : CoseCommonKey) (key : EcCoseKey)
    → ec_key_with labels common ≡ ok key
    → key.common ≡ common
unfolding ec_key_with
ec_key_with-common labels common key h = ground arith

common_key_with-kty :
    (labels : Labels) (keytype : String) (common : CoseCommonKey)
    → common_key_with labels keytype ≡ ok common
    → common.kty ≡ keytype
unfolding common_key_with
common_key_with-kty labels keytype common h = ground arith

-- NewECCoseKey gives its key the key type of the labels.
pub new_ec_cose_key-kty :
    (labels : Labels) (key : EcCoseKey)
    → new_ec_cose_key labels ≡ ok key
    → key_type_label_to_key_type (index labels (pos 1)) ≡ ok key.common.kty
unfolding new_ec_cose_key new_cose_common_key
new_ec_cose_key-kty labels key h =
    let (common, f, h1) = and_then-ok (new_cose_common_key labels) (ec_key_with labels) key h in
    let (keytype, g, f1) =
      and_then-ok (key_type_label_to_key_type (index labels (pos 1))) (common_key_with labels)
        common f in
    g
    ∙ ap ok (
        sym (
          ap (λ (c : CoseCommonKey). c.kty) (ec_key_with-common labels common key h1)
          ∙ common_key_with-kty labels keytype common f1))

-- A public key that PublicKey returns is on the curve that the key names, and CoseAlgForEC has an
-- algorithm for it: it returns no error.
pub public_key-alg :
    (key : EcCoseKey) (p : PublicKey)
    → public_key key ≡ ok p
    → (p.curve_name ≡ key.curve) × ((e : CoseError) → cose_alg_for_ec p ≢ err e)
unfolding public_key cose_alg_for_ec
public_key-alg key p h = elim (Bool-cases (key.curve == "P-256")) [
  | inl a ↦ ground (arith, eq_iff key.curve "P-256")
  | inr a ↦ elim (Bool-cases (key.curve == "P-384")) [
    | inl b ↦ ground (arith, eq_iff key.curve "P-384")
    | inr b ↦ ground (arith, eq_iff key.curve "P-521")
  ]
]

index-some :
    (labels : Labels) (n : ℤ) (v : Value) → get_label n labels ≡ some v → index labels n ≡ v
unfolding index value_or_nil
index-some labels n v h = ap value_or_nil h

index-none : (labels : Labels) (n : ℤ) → get_label n labels ≡ none → index labels n ≡ nil
unfolding index value_or_nil
index-none labels n h = ap value_or_nil h

abbrev pub kid_option : String → Option String
kid_option kid = if kid == "" then none else some kid

new_cose_common_key-labels :
    (labels : Labels) (kid alg : String) (n : ℤ)
    → get_label (pos 1) labels ≡ some (text "EC")
    → get_label (pos 2) labels ≡ some (text kid)
    → get_label (pos 3) labels ≡ some (int n)
    → get_label (pos 4) labels ≡ none
    → algorithm_label_to_algorithm (int n) ≡ ok alg
    → new_cose_common_key labels
      ≡ ok (record { kty = "EC"; kid = kid_option kid; alg = alg; key_ops = [] })
unfolding new_cose_common_key common_key_with kid_of key_ops_of algorithm_or_empty from_label
    key_type_label_to_key_type index value_or_nil
new_cose_common_key-labels labels kid alg n a b c d h = rw (a, b, c, d, h)

-- The labels of a key of type EC give that key.
pub new_ec_cose_key-labels :
    (labels : Labels) (kid name alg : String) (n : ℤ) (x y : List ℕ)
    → get_label (pos 1) labels ≡ some (text "EC")
    → get_label (pos 2) labels ≡ some (text kid)
    → get_label (pos 3) labels ≡ some (int n)
    → get_label (pos 4) labels ≡ none
    → get_label (negsuc 0) labels ≡ some (text name)
    → get_label (negsuc 1) labels ≡ some (bytes x)
    → get_label (negsuc 2) labels ≡ some (bytes y)
    → algorithm_label_to_algorithm (int n) ≡ ok alg
    → new_ec_cose_key labels
      ≡ ok (record {
        common = record { kty = "EC"; kid = kid_option kid; alg = alg; key_ops = [] };
        curve = name;
        x = x;
        y = y;
      })
unfolding new_ec_cose_key ec_key_with coordinate coordinate_bytes curve_label_to_curve from_label
    index value_or_nil
new_ec_cose_key-labels labels kid name alg n x y a b c d e f g h =
    rw (new_cose_common_key-labels labels kid alg n a b c d h, e, f, g)
