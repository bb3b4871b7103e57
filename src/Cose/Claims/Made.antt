-- ===== src/Cose/Claims/Made.antt =====
-- What cose/cwt_claims.go and cose/cose.go read of the claims that cose/cnfclaim.go makes.
use go_rkvstcommon.Prelude.{
  ◌≡◌, ap, ◌∙◌, Bool, ◌||◌, String, ◌==◌, eq_iff, none, some, [], arith, if◌then◌else◌,
}
use go_rkvstcommon.Prelude.Int.{ℤ, pos, negsuc}
use go_rkvstcommon.Prelude.Outcome.{Outcome, ok, err, and_then}
use go_rkvstcommon.Cose.Value.{
  Value, text, int, value_map, Entries, CoseError, unknown_curve, no_protected_header_value, find,
  value_from_protected_header,
}
use go_rkvstcommon.Cose.Key.{
  PublicKey, EcCoseKey, Labels, convert_keys_to_labels, algorithm_label_to_algorithm, public_key,
  new_ec_cose_key,
}
use go_rkvstcommon.Cose.Key.Laws.{kid_option, new_ec_cose_key-kty, new_ec_cose_key-labels}
use go_rkvstcommon.Cose.Claims.{
  header_label_cwt_claims, key_iss, key_sub, cnf_label, cose_key_label, key_of_type, key_of_map,
  value_of, key_of_cnf, cnf_cose_key, claim, with_confirmation, claims_of,
  cwt_claims_from_protected_header,
}
use go_rkvstcommon.Cose.NewClaim.{
  claim_text, claim_bytes, claim_algorithm, claim_map, ClaimLabels, no_labels, label, number_bytes,
  new_cnf_claim,
}
use go_rkvstcommon.Cose.NewClaim.Laws.{
  Cbor, number_bytes-set_bytes, find_claim, HasLabels-convert, decoded_label, decode_option,
}

-- The key that the claims name
abbrev pub made_key : String → String → PublicKey → EcCoseKey
made_key kid alg p = record {
  common = record { kty = "EC"; kid = kid_option kid; alg = alg; key_ops = [] };
  curve = p.curve_name;
  x = number_bytes p.x_value;
  y = number_bytes p.y_value;
}

-- The maps of the claims: the key's, and the one around it
abbrev key_labels : String → ℤ → PublicKey → ClaimLabels
key_labels kid n p = label (pos 2) (claim_text kid) (
    label (pos 1) (claim_text "EC") (
      label (pos 3) (claim_algorithm n) (
        label (negsuc 0) (claim_text p.curve_name) (
          label (negsuc 1) (claim_bytes (number_bytes p.x_value))
            (label (negsuc 2) (claim_bytes (number_bytes p.y_value)) no_labels)))))

abbrev cnf_labels : String → ℤ → PublicKey → ClaimLabels
cnf_labels kid n p = label cose_key_label (claim_map (key_labels kid n p)) no_labels

claims_of-fields :
    (m : Entries) (issuer subject : String) (key : EcCoseKey)
    → find key_iss m ≡ some (text issuer)
    → find key_sub m ≡ some (text subject)
    → cnf_cose_key m ≡ ok key
    → claims_of (value_map m)
      ≡ ok (record { issuer = issuer; subject = subject; confirmation_method = some key })
unfolding claims_of claim with_confirmation
claims_of-fields m issuer subject key i s k = rw (i, s, k)

value-claims_of :
    (header : Entries) (v : Value)
    → find header_label_cwt_claims header ≡ some v
    → cwt_claims_from_protected_header header ≡ claims_of v
unfolding cwt_claims_from_protected_header value_from_protected_header
value-claims_of header v f =
    ap
      (λ o.
        and_then
          (elim o as (λ x. Outcome CoseError Value) [
            | none ↦ err (no_protected_header_value header_label_cwt_claims)
            | some v ↦ ok v
          ])
          claims_of)
      f

-- The curves that PublicKey knows
abbrev pub known_curve : String → Bool
known_curve name = name == "P-256" || name == "P-384" || name == "P-521"

public_key-made :
    (kid alg : String) (p : PublicKey)
    → public_key (made_key kid alg p)
      ≡ (if known_curve p.curve_name then ok p else err unknown_curve)
unfolding public_key
public_key-made kid alg p = ground (
  arith,
  eq_iff p.curve_name "P-256",
  eq_iff p.curve_name "P-384",
  eq_iff p.curve_name "P-521",
  number_bytes-set_bytes p.x_value,
  number_bytes-set_bytes p.y_value,
)

module _ (cbor : Cbor) (kid alg : String) (n : ℤ) (p : PublicKey)
    (h : algorithm_label_to_algorithm (int n) ≡ ok alg) where
  key_labels-key :
      (labels : Labels)
      → convert_keys_to_labels (cbor.entries (key_labels kid n p)) ≡ ok labels
      → new_ec_cose_key labels ≡ ok (made_key kid alg p)
  unfolding find_claim decode_option
  key_labels-key labels c =
      let at = λ (l : ℤ). decoded_label cbor (key_labels kid n p) labels l c in
      new_ec_cose_key-labels labels kid p.curve_name alg n (number_bytes p.x_value)
        (number_bytes p.y_value) (at (pos 1) ∙ ap some (cbor.decoded-text "EC"))
        (at (pos 2) ∙ ap some (cbor.decoded-text kid))
        (at (pos 3) ∙ ap some (cbor.decoded-algorithm n)) (at (pos 4))
        (at (negsuc 0) ∙ ap some (cbor.decoded-text p.curve_name))
        (at (negsuc 1) ∙ ap some (cbor.decoded-bytes (number_bytes p.x_value)))
        (at (negsuc 2) ∙ ap some (cbor.decoded-bytes (number_bytes p.y_value))) h

  key_of_map-key :
      key_of_map (value_map (cbor.entries (key_labels kid n p))) ≡ ok (made_key kid alg p)
  unfolding key_of_map key_of_type
  key_of_map-key =
      let m = key_labels kid n p in
      let (labels, c) = HasLabels-convert (cbor.entries m) (cbor.entries-HasLabels m) in
      let k = key_labels-key labels c in rw (c, new_ec_cose_key-kty labels (made_key kid alg p) k) k

  -- The key is read where the cnf field is found.
  cnf_cose_key-made :
      (claims : Entries)
      → find cnf_label claims ≡ some (cbor.decoded (claim_map (cnf_labels kid n p)))
      → cnf_cose_key claims ≡ ok (made_key kid alg p)
  unfolding cnf_cose_key key_of_cnf value_of find_claim decode_option
  cnf_cose_key-made claims f =
      let m = key_labels kid n p in
      rw
        (
          f,
          cbor.decoded-map (cnf_labels kid n p),
          cbor.entries-find (cnf_labels kid n p) cose_key_label,
          cbor.decoded-map m,
        )
        key_of_map-key

  -- The claims that NewCNFClaim makes, encoded and decoded, are read by CWTClaimsFromProtectedHeader
  -- as the issuer, the subject and the key that were given, where the algorithm is one of those
  -- known; and PublicKey of that key is the public key given where its curve is P-256, P-384 or
  -- P-521, and the error of an unknown curve otherwise.
  pub new_cnf_claim-read :
      (issuer subject : String) (header : Entries)
      → find header_label_cwt_claims header
        ≡ some (cbor.decoded (claim_map (new_cnf_claim issuer subject kid n p)))
      → (cwt_claims_from_protected_header header
          ≡ ok (record {
            issuer = issuer;
            subject = subject;
            confirmation_method = some (made_key kid alg p);
          }))
        × (public_key (made_key kid alg p)
            ≡ (if known_curve p.curve_name then ok p else err unknown_curve))
  unfolding new_cnf_claim find_claim decode_option
  new_cnf_claim-read issuer subject header f =
      let m = new_cnf_claim issuer subject kid n p in
      let e = cbor.entries m in
      (
        value-claims_of header (value_map e) (f ∙ ap some (cbor.decoded-map m))
            ∙ claims_of-fields e issuer subject (made_key kid alg p)
                (cbor.entries-find m key_iss ∙ ap some (cbor.decoded-text issuer))
                (cbor.entries-find m key_sub ∙ ap some (cbor.decoded-text subject))
                (cnf_cose_key-made e (cbor.entries-find m cnf_label)),
        public_key-made kid alg p,
      )
