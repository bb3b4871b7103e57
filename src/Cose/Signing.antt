-- ===== src/Cose/Signing.antt =====
-- The theorems on claims that are made and on messages that are signed, on small libraries: the
-- properties' hypotheses hold there.
use go_rkvstcommon.Prelude.{
  ℕ, ◌≡◌, refl, ap, sym, arith, Bool-cases, Bool, true, false, Option, none, some, List, [], ◌∷◌,
  ◌++◌, inl, inr,
}
use go_rkvstcommon.Prelude.Int.{ℤ, pos, int_eq}
use go_rkvstcommon.Prelude.Outcome.{Outcome, ok, err, ok-injective}
use go_rkvstcommon.Cose.Value.{
  Value, text, bytes, int, value_map, Entries, no_entries, entry, CoseError, malformed_rsa_key,
  find,
}
use go_rkvstcommon.Cose.Key.{PublicKey, public_key, algorithm_label_to_algorithm}
use go_rkvstcommon.Cose.Claims.{header_label_cwt_claims, cwt_claims_from_protected_header}
use go_rkvstcommon.Cose.Claims.Made.{made_key, new_cnf_claim-read}
use go_rkvstcommon.Cose.NewClaim.{
  ClaimValue, claim_text, claim_bytes, claim_algorithm, claim_map, ClaimLabels, no_labels, label,
  new_cnf_claim,
}
use go_rkvstcommon.Cose.NewClaim.Laws.{Cbor, find_claim, decode_option, HasLabels}
use go_rkvstcommon.Cose.Verify.{Message, CoseLibrary, verify_with_public_key}
use go_rkvstcommon.Cose.Message.{
  SignLibrary, CoseSign1Message, SigItem, sig_text, sig_raw, sig_bytes, sign_es256,
  create_sign_payload, algorithm_es256, header_label_algorithm, external_bytes,
}
use go_rkvstcommon.Cose.Message.Laws.{
  KeyPairs, sig_structure, sign_es256-verifies, create_sign_payload-binds,
}

-- A decoder that keeps the order of the entries
mutual
  decode : ClaimValue → Value
  decode (claim_text s) = text s
  decode (claim_bytes b) = bytes b
  decode (claim_algorithm n) = int n
  decode (claim_map m) = value_map (decode_labels m)

  decode_labels : ClaimLabels → Entries
  decode_labels no_labels = no_entries
  decode_labels (label n v rest) = entry (int n) (decode v) (decode_labels rest)

decode_labels-HasLabels : (m : ClaimLabels) → HasLabels (decode_labels m)
unfolding HasLabels decode_labels
decode_labels-HasLabels no_labels = tt
decode_labels-HasLabels (label n v rest) = decode_labels-HasLabels rest

decode_labels-find :
    (m : ClaimLabels) (n : ℤ) → find n (decode_labels m) ≡ decode_option decode (find_claim n m)
unfolding find find_claim decode_option decode_labels
decode_labels-find no_labels n = refl
decode_labels-find (label k v rest) n = elim (Bool-cases (int_eq k n)) [
  | inl t ↦ ground (arith, decode_labels-find rest n)
  | inr f ↦ ground (arith, decode_labels-find rest n)
]

pub cbor : Cbor
unfolding decode decode_labels
cbor = record {
  decoded = decode;
  entries = decode_labels;
  decoded-text = λ s. refl;
  decoded-bytes = λ b. refl;
  decoded-algorithm = λ n. refl;
  decoded-map = λ m. refl;
  entries-HasLabels = decode_labels-HasLabels;
  entries-find = decode_labels-find;
}

abbrev pub point : PublicKey
point = record { curve_name = "P-256"; x_value = 258; y_value = 3 }

abbrev made_header : Entries
unfolding cbor
made_header =
    entry (int header_label_cwt_claims)
      (cbor.decoded (claim_map (new_cnf_claim "iss" "sub" "k" algorithm_es256 point))) no_entries

new_cnf_claim-read_example :
    (cwt_claims_from_protected_header made_header
      ≡ ok (record {
        issuer = "iss";
        subject = "sub";
        confirmation_method = some (made_key "k" "ES256" point);
      }))
    × (public_key (made_key "k" "ES256" point) ≡ ok point)
unfolding find algorithm_label_to_algorithm made_header
new_cnf_claim-read_example =
    new_cnf_claim-read cbor "k" "ES256" algorithm_es256 point refl "iss" "sub" made_header refl

-- Libraries that sign by keeping the payload as the signature, with one mode, one signer and the
-- public key as the private key
abbrev pub encoded : List SigItem → Outcome CoseError (List ℕ)
encoded (sig_text s ∷ sig_raw body ∷ sig_bytes (b ∷ []) ∷ sig_bytes (c ∷ []) ∷ []) =
    ok (body ++ b ∷ c ∷ [])
encoded items = err malformed_rsa_key

-- A protected header is well formed where it is one byte.
abbrev one_byte : List ℕ → Outcome CoseError (Unit {0})
one_byte (a ∷ []) = ok tt
one_byte body = err malformed_rsa_key

abbrev signing : SignLibrary Bool Bool ℤ PublicKey
signing = record {
  enc_mode = λ o. ok true;
  dec_mode = λ o. ok true;
  marshal_message = λ m. ok m.payload;
  unmarshal_message = λ b. err malformed_rsa_key;
  marshal_protected = λ m. ok (7 ∷ []);
  wellformed = λ d b. one_byte b;
  marshal = λ e items. encoded items;
  new_signer = λ n k. ok n;
  sign = λ rand external s m.
      (record { protected = m.protected; payload = m.payload; signature = m.payload }, ok tt);
}

unfoldable pub number_of : Option Value → Outcome CoseError ℤ
number_of (some (int n)) = ok n
number_of v = err malformed_rsa_key

abbrev pub verifying : CoseLibrary ℤ
unfolding number_of
verifying = record {
  algorithm = λ header. number_of (find header_label_algorithm header);
  new_verifier = λ n k. ok n;
  verify = λ m external v. ok tt;
}

pairs : KeyPairs signing verifying (λ k. k)
unfolding number_of
pairs = record {
  algorithm-find = λ header n h. ap number_of h;
  sign-protected = λ rand external s m. refl;
  signer-verifier = λ n k s h. (n, refl, λ rand external m g. refl);
}

abbrev unsigned : Message
unsigned = record {
  protected = entry (int header_label_algorithm) (int (pos 9)) no_entries;
  payload = 5 ∷ [];
  signature = [];
}

sign_es256-verifies_example :
    verify_with_public_key verifying (sign_es256 signing (1 ∷ []) [] point unsigned).0 point []
    ≡ ok tt
unfolding sign_es256
sign_es256-verifies_example =
    sign_es256-verifies signing verifying (λ k. k) pairs (1 ∷ []) [] point unsigned refl

parse : List ℕ → Option (List ℕ × List ℕ × List ℕ)
parse (a ∷ b ∷ c ∷ []) = some (a ∷ [], b ∷ [], c ∷ [])
parse b = none

parse-encoded :
    (body external payload b : List ℕ)
    → one_byte body ≡ ok tt
    → encoded (sig_structure body external payload) ≡ ok b
    → parse b ≡ some (body, external, payload)
unfolding parse
parse-encoded (a ∷ []) (x ∷ []) (c ∷ []) b w h = ap parse (sym (ok-injective h))
parse-encoded (a ∷ []) (x ∷ []) [] b w h = cc
parse-encoded (a ∷ []) (x ∷ []) (c ∷ d ∷ more) b w h = cc
parse-encoded (a ∷ []) [] payload b w h = cc
parse-encoded (a ∷ []) (x ∷ y ∷ more) payload b w h = cc
parse-encoded [] external payload b w h = cc
parse-encoded (a ∷ d ∷ more) external payload b w h = cc

abbrev cose_message : CoseSign1Message Bool Bool
cose_message = record { message = unsigned; enc_mode = true; dec_mode = true }

abbrev signed_message : CoseSign1Message Bool Bool
signed_message = record {
  message = record { protected = no_entries; payload = 5 ∷ []; signature = 1 ∷ [] };
  enc_mode = false;
  dec_mode = true;
}

create_sign_payload-binds_example :
    (◌≡◌ {A = Outcome CoseError (List ℕ)} (ok (7 ∷ [])) (ok (7 ∷ [])))
    × (external_bytes (some (2 ∷ [])) ≡ external_bytes (some (2 ∷ [])))
    × (cose_message.message.payload ≡ signed_message.message.payload)
unfolding create_sign_payload
create_sign_payload-binds_example =
    create_sign_payload-binds signing parse (λ d e. parse-encoded) cose_message signed_message
      (some (2 ∷ [])) (some (2 ∷ [])) (7 ∷ 2 ∷ 5 ∷ []) refl refl
