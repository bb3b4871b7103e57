-- ===== src/Cose/NewClaim.antt =====
-- cose/cnfclaim.go
pub mod Laws
use go_rkvstcommon.Prelude.{
  ℕ, zero, suc, ◌/◌, ◌%◌, ◌≡◌, String, Bool, true, false, Option, none, some, List, [], ◌∷◌, nat_eq,
  if◌then◌else◌,
}
use go_rkvstcommon.Prelude.Int.{ℤ, pos, negsuc, int_eq}
use go_rkvstcommon.Prelude.Outcome.{Outcome, ok}
use go_rkvstcommon.Cose.Value.{
  Value, text, bytes, int, value_map, Entries, no_entries, entry, CoseError, find,
}
use go_rkvstcommon.Cose.Key.{PublicKey, Labels, convert_keys_to_labels}
use go_rkvstcommon.Cose.Claims.{key_iss, key_sub, cnf_label, cose_key_label}

mutual
  -- What the claims hold before they are encoded: a cose.Algorithm is of its own type there.
  pub data ClaimValue : Type 0 where
    claim_text : String → ClaimValue
    claim_bytes : List ℕ → ClaimValue
    claim_algorithm : ℤ → ClaimValue
    claim_map : ClaimLabels → ClaimValue

  -- map[int64]interface{}, whose labels differ
  pub data ClaimLabels : Type 0 where
    no_labels : ClaimLabels
    label : ℤ → ClaimValue → ClaimLabels → ClaimLabels

bytes_from : ℕ → ℕ → List ℕ → List ℕ
bytes_from zero n tail = tail
bytes_from (suc fuel) n tail = elim (nat_eq n 0) [
  | true ↦ tail
  | false ↦ bytes_from fuel (n / 256) (n % 256 ∷ tail)
]

-- big.Int.Bytes: the big-endian bytes of a number, with no leading zero
unfoldable pub number_bytes : ℕ → List ℕ
unfolding bytes_from
number_bytes n = bytes_from n n []

-- NewCNFClaim
unfoldable pub new_cnf_claim : String → String → String → ℤ → PublicKey → ClaimLabels
unfolding number_bytes
new_cnf_claim issuer subject kid alg public_key = label key_iss (claim_text issuer) (
    label key_sub (claim_text subject) (
      label cnf_label
        (claim_map (
          label cose_key_label
            (claim_map (
              label (pos 2) (claim_text kid) (
                label (pos 1) (claim_text "EC") (
                  label (pos 3) (claim_algorithm alg) (
                    label (negsuc 0) (claim_text public_key.curve_name) (
                      label (negsuc 1) (claim_bytes (number_bytes public_key.x_value)) (
                        label (negsuc 2) (claim_bytes (number_bytes public_key.y_value))
                          no_labels)))))))
            no_labels))
        no_labels))
