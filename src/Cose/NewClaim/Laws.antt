-- ===== src/Cose/NewClaim/Laws.antt =====
-- What CNFCoseKey and CWTClaimsFromProtectedHeader read of the claims that NewCNFClaim makes.
use go_rkvstcommon.Prelude.{
  ℕ, zero, suc, ◌/◌, ◌%◌, ◌≤◌, ◌≡◌, refl, ap, ◌∙◌, String, Option, none, some, List, [], ◌∷◌, inl,
  inr, arith, nat_eq, Bool-cases, if◌then◌else◌,
}
use go_rkvstcommon.Prelude.Int.{ℤ, int_eq}
use go_rkvstcommon.Prelude.Outcome.{ok}
use go_rkvstcommon.Cose.Value.{
  Value, nil, text, bytes, int, texts, value_map, other, Entries, no_entries, entry, find,
}
use go_rkvstcommon.Cose.Key.{Labels, convert_keys_to_labels, set_bytes, get_label}
use go_rkvstcommon.Cose.Key.Laws.{convert_keys_to_labels-find}
use go_rkvstcommon.Cose.NewClaim.{
  ClaimValue, claim_text, claim_bytes, claim_algorithm, claim_map, ClaimLabels, no_labels, label,
  bytes_from, number_bytes,
}

bytes_from-set_bytes :
    (fuel n : ℕ) (tail : List ℕ)
    → n ≤ fuel
    → set_bytes 0 (bytes_from fuel n tail) ≡ set_bytes n tail
unfolding bytes_from set_bytes
bytes_from-set_bytes zero n tail h = ap (λ m. set_bytes m tail) (omega arith)
bytes_from-set_bytes (suc fuel) n tail h = elim (Bool-cases (nat_eq n 0)) [
  | inl z ↦ ground arith
  | inr p ↦ ground (arith, bytes_from-set_bytes fuel (n / 256) (n % 256 ∷ tail))
]

-- SetBytes of Bytes is the number itself.
pub number_bytes-set_bytes : (n : ℕ) → set_bytes 0 (number_bytes n) ≡ n
unfolding number_bytes set_bytes
number_bytes-set_bytes n = bytes_from-set_bytes n n [] (omega arith)

-- claim[label]
unfoldable pub find_claim : ℤ → ClaimLabels → Option ClaimValue
find_claim n no_labels = none
find_claim n (label m v rest) =
    let later = find_claim n rest in if int_eq m n then some v else later

unfoldable pub decode_option : (ClaimValue → Value) → Option ClaimValue → Option Value
decode_option decoded none = none
decode_option decoded (some v) = some (decoded v)

-- Every key is an int64.
unfoldable pub HasLabels : Entries → Type 0
HasLabels no_entries = Unit
HasLabels (entry (int n) v rest) = HasLabels rest
HasLabels (entry k v rest) = ⊥

-- CBOR, with the modes of newDefaultSignOptions: what the encoding of a value is decoded to. An
-- integer comes back as an int64, a map as a map[interface{}]interface{} in some order.
pub record Cbor : Type 0 where
  pub decoded : ClaimValue → Value
  pub entries : ClaimLabels → Entries
  pub decoded-text : (s : String) → decoded (claim_text s) ≡ text s
  pub decoded-bytes : (b : List ℕ) → decoded (claim_bytes b) ≡ bytes b
  pub decoded-algorithm : (n : ℤ) → decoded (claim_algorithm n) ≡ int n
  pub decoded-map : (m : ClaimLabels) → decoded (claim_map m) ≡ value_map (entries m)
  pub entries-HasLabels : (m : ClaimLabels) → HasLabels (entries m)
  pub entries-find :
      (m : ClaimLabels) (n : ℤ) → find n (entries m) ≡ decode_option decoded (find_claim n m)

add_label-ok :
    (n : ℤ) (v : Value) (rest : Entries) (labels : Labels)
    → convert_keys_to_labels rest ≡ ok labels
    → convert_keys_to_labels (entry (int n) v rest) ≡ ok ((n, v) ∷ labels)
unfolding convert_keys_to_labels
add_label-ok n v rest labels h = ground arith

-- convertKeysToLabels succeeds where every key is an int64.
pub HasLabels-convert :
    (e : Entries) → HasLabels e → (labels : Labels) × (convert_keys_to_labels e ≡ ok labels)
unfolding HasLabels convert_keys_to_labels
HasLabels-convert no_entries h = ([], refl)
HasLabels-convert (entry (int n) v rest) h =
    let (labels, e) = HasLabels-convert rest h in ((n, v) ∷ labels, add_label-ok n v rest labels e)
HasLabels-convert (entry nil v rest) h = absurd h
HasLabels-convert (entry (text s) v rest) h = absurd h
HasLabels-convert (entry (bytes b) v rest) h = absurd h
HasLabels-convert (entry (texts l) v rest) h = absurd h
HasLabels-convert (entry (value_map m) v rest) h = absurd h
HasLabels-convert (entry (other t) v rest) h = absurd h

module _ (cbor : Cbor) where
  -- A label of a map made, as convertKeysToLabels gives it.
  pub decoded_label :
      (m : ClaimLabels) (labels : Labels) (n : ℤ)
      → convert_keys_to_labels (cbor.entries m) ≡ ok labels
      → get_label n labels ≡ decode_option cbor.decoded (find_claim n m)
  decoded_label m labels n c =
      convert_keys_to_labels-find (cbor.entries m) labels n c ∙ cbor.entries-find m n
