-- ===== src/Cose/Scenarios.antt =====
-- The theorems of cose on a small header: the properties' hypotheses hold there.
use go_rkvstcommon.Prelude.{ℕ, ◌≡◌, refl, none, some, List, [], ◌∷◌}
use go_rkvstcommon.Prelude.Int.{pos, negsuc}
use go_rkvstcommon.Prelude.Outcome.{ok}
use go_rkvstcommon.Cose.Value.{nil, text, bytes, int, value_map, Entries, no_entries, entry, find}
use go_rkvstcommon.Cose.Key.{Labels, EcCoseKey, PublicKey, public_key, new_ec_cose_key}
use go_rkvstcommon.Cose.Claims.{
  CwtClaims, header_label_cwt_claims, cwt_claims_from_protected_header,
}
use go_rkvstcommon.Cose.Rsa.{RsaCoseKey}
use go_rkvstcommon.Cose.Verify.{
  Message, CoseLibrary, verify_with_cwt_public_key, verify_with_public_key,
}
use go_rkvstcommon.Cose.Verify.Laws.{verify_with_cwt_public_key-ok}
use go_rkvstcommon.Cose.Claims.Laws.{Reads, cwt_claims_from_protected_header-Reads}

abbrev key_map : Entries
key_map = entry (int (pos 1)) (int (pos 2)) (
    entry (int (negsuc 0)) (int (pos 1)) (
      entry (int (negsuc 1)) (bytes (1 ∷ 2 ∷ []))
        (entry (int (negsuc 2)) (bytes (3 ∷ [])) no_entries)))

abbrev labels : Labels
labels =
    (pos 1, int (pos 2))
    ∷ (negsuc 0, int (pos 1))
    ∷ (negsuc 1, bytes (1 ∷ 2 ∷ []))
    ∷ (negsuc 2, bytes (3 ∷ []))
    ∷ []

abbrev ec_key : EcCoseKey
ec_key = record {
  common = record { kty = "EC"; kid = none; alg = ""; key_ops = [] };
  curve = "P-256";
  x = 1 ∷ 2 ∷ [];
  y = 3 ∷ [];
}

abbrev claims : Entries
claims = entry (int (pos 1)) (text "iss") (
    entry (int (pos 2)) (text "sub") (
      entry (int (pos 8)) (value_map (entry (int (pos 1)) (value_map key_map) no_entries))
        no_entries))

abbrev header : Entries
header = entry (int (pos 13)) (value_map claims) (entry (int (pos 391)) nil no_entries)

cwt_claims_from_protected_header-Reads_example :
    (m : Entries) × (find header_label_cwt_claims header ≡ some (value_map m))
    × Reads (record { issuer = "iss"; subject = "sub"; confirmation_method = some ec_key }) m
unfolding cwt_claims_from_protected_header new_ec_cose_key
cwt_claims_from_protected_header-Reads_example =
    cwt_claims_from_protected_header-Reads header
      (record { issuer = "iss"; subject = "sub"; confirmation_method = some ec_key }) refl

abbrev rsa_labels : Labels
rsa_labels = (pos 1, text "RSA") ∷ (negsuc 0, bytes (9 ∷ 9 ∷ [])) ∷ (negsuc 1, int (pos 65537)) ∷ []

abbrev rsa_key : RsaCoseKey
rsa_key = record {
  common = record { kty = "RSA"; kid = none; alg = ""; key_ops = [] };
  n = pos 0;
  e = pos 65537;
}

-- A library whose verifiers accept messages of any kind
abbrev library : CoseLibrary (List ℕ)
library = record {
  algorithm = λ header. ok (negsuc 6);
  new_verifier = λ alg key. ok (key.x_value ∷ []);
  verify = λ message external verifier. ok tt;
}

abbrev message : Message
message = record { protected = header; payload = 1 ∷ []; signature = 1 ∷ [] }

verify_with_cwt_public_key-ok_example :
    (c : CwtClaims) × (key : EcCoseKey) × (p : PublicKey) × (cwt_claims_from_protected_header
        message.protected
      ≡ ok c)
    × (c.confirmation_method ≡ some key)
    × (public_key key ≡ ok p)
    × (verify_with_public_key library message p [] ≡ ok tt)
unfolding verify_with_cwt_public_key new_ec_cose_key
verify_with_cwt_public_key-ok_example = verify_with_cwt_public_key-ok library message [] refl
