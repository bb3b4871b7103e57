-- ===== src/Cose/Journey.antt =====
-- A message that is signed, sent and read, on small libraries: the hypotheses of what is shown of it
-- hold there.
use go_rkvstcommon.Prelude.{ℕ, ◌≡◌, refl, ap, sym, true, Bool, some, List, [], ◌∷◌}
use go_rkvstcommon.Prelude.Int.{ℤ, pos, negsuc}
use go_rkvstcommon.Prelude.Outcome.{Outcome, ok, err, panic, ok-injective}
use go_rkvstcommon.Cose.Value.{
  Value, int, other, Entries, no_entries, entry, CoseError, malformed_rsa_key, find,
}
use go_rkvstcommon.Cose.Key.{PublicKey, algorithm_label_to_algorithm}
use go_rkvstcommon.Cose.Claims.{header_label_cwt_claims, cwt_claims_from_protected_header}
use go_rkvstcommon.Cose.Claims.Made.{made_key}
use go_rkvstcommon.Cose.NewClaim.{claim_map, new_cnf_claim}
use go_rkvstcommon.Cose.Verify.{Message, verify_with_cwt_public_key}
use go_rkvstcommon.Cose.Message.{
  SignLibrary, CoseSign1Message, sign_es256, header_label_algorithm, algorithm_es256,
  new_cose_sign1_message_from_cbor, marshal_cbor,
}
use go_rkvstcommon.Cose.Message.Laws.{KeyPairs}
use go_rkvstcommon.Cose.Signing.{cbor, point, encoded, number_of, verifying}
use go_rkvstcommon.Cose.Sent.{Sending, sign_es256-sent}

-- What the claims of the messages below are sent as
abbrev claims : Value
claims = cbor.decoded (claim_map (new_cnf_claim "iss" "sub" "k" algorithm_es256 point))

-- A message is sent as its algorithm, its payload, and these claims.
coded : Outcome CoseError ℤ → List ℕ → Outcome CoseError (List ℕ)
coded (ok (negsuc n)) payload = ok (n ∷ payload)
coded (ok (pos n)) payload = err malformed_rsa_key
coded (err e) payload = err e
coded panic payload = panic

abbrev sent_header : ℕ → Entries
sent_header n =
    entry (int header_label_algorithm) (int (negsuc n))
      (entry (int header_label_cwt_claims) claims no_entries)

read_back : List ℕ → Outcome CoseError Message
read_back [] = err malformed_rsa_key
read_back (n ∷ payload) =
    ok (record { protected = sent_header n; payload = payload; signature = payload })

posting : SignLibrary Bool Bool ℤ PublicKey
unfolding coded read_back
posting = record {
  enc_mode = λ o. ok true;
  dec_mode = λ o. ok true;
  marshal_message = λ m. coded (verifying.algorithm m.protected) m.payload;
  unmarshal_message = λ b. read_back b;
  marshal_protected = λ m. ok (7 ∷ []);
  wellformed = λ d b. ok tt;
  marshal = λ e items. encoded items;
  new_signer = λ n k. ok n;
  sign = λ rand external s m.
      (record { protected = m.protected; payload = m.payload; signature = m.payload }, ok tt);
}

posting-pairs : KeyPairs posting verifying (λ k. k)
unfolding number_of posting
posting-pairs = record {
  algorithm-find = λ header n h. ap number_of h;
  sign-protected = λ rand external s m. refl;
  signer-verifier = λ n k s h. (n, refl, λ rand external m g. refl);
}

read-coded :
    (o : Outcome CoseError ℤ) (payload b : List ℕ)
    → coded o payload ≡ ok b
    → (r : Message) × (read_back b ≡ ok r)
      × (r.payload ≡ payload)
      × (verifying.algorithm r.protected ≡ o)
      × (find header_label_cwt_claims r.protected ≡ some claims)
unfolding coded read_back number_of find
read-coded (ok (negsuc n)) payload b h = (
  record { protected = sent_header n; payload = payload; signature = payload },
  ap read_back (sym (ok-injective h)),
  refl,
  refl,
  refl,
)
read-coded (ok (pos n)) payload b h = cc
read-coded (err e) payload b h = cc
read-coded panic payload b h = cc

posting-Sending : Sending posting verifying (λ v. claims)
unfolding posting read-coded
posting-Sending = record {
  sign-payload = λ rand external s m. refl;
  received = λ m b h.
      let (r, u, payload, algorithm, c) =
        read-coded (verifying.algorithm m.protected) m.payload b h in
      (r, u, payload, algorithm, λ external v. refl, λ v f. c);
}

-- A message whose claims are the Go map that NewCNFClaim makes
abbrev unsent : Message
unsent = record {
  protected =
      entry (int header_label_cwt_claims) (other "map[int64]interface {}")
        (entry (int header_label_algorithm) (int (pos 9)) no_entries);
  payload = 5 ∷ [];
  signature = [];
}

sign_es256-sent_example :
    (cs : CoseSign1Message Bool Bool) × (new_cose_sign1_message_from_cbor posting (6 ∷ 5 ∷ []) []
      ≡ ok cs)
    × (cs.message.payload ≡ 5 ∷ [])
    × (cwt_claims_from_protected_header cs.message.protected
        ≡ ok (record {
          issuer = "iss";
          subject = "sub";
          confirmation_method = some (made_key "k" "ES256" point);
        }))
    × (verify_with_cwt_public_key verifying cs.message [] ≡ ok tt)
unfolding find algorithm_label_to_algorithm sign_es256 marshal_cbor number_of coded posting
sign_es256-sent_example =
    sign_es256-sent posting verifying (λ k. k) posting-pairs (λ v. claims) posting-Sending cbor
      (1 ∷ []) [] point unsent (other "map[int64]interface {}") "iss" "sub" "k" "ES256"
      algorithm_es256 (6 ∷ 5 ∷ []) [] true true refl refl refl refl refl refl refl refl
