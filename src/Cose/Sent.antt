-- ===== src/Cose/Sent.antt =====
-- From the signer to the reader: what cose/cnfclaim.go and SignES256 of cose/cose.go make, MarshalCBOR
-- sends, and NewCoseSign1MessageFromCBOR and VerifyWithCWTPublicKey read.
use go_rkvstcommon.Prelude.{
  ℕ, String, ◌≡◌, refl, ap, sym, ◌∙◌, Bool, true, some, List, if◌then◌else◌,
}
use go_rkvstcommon.Prelude.Int.{ℤ}
use go_rkvstcommon.Prelude.Outcome.{Outcome, ok, err, and_then-ok, ok-injective, panic}
use go_rkvstcommon.Cose.Value.{Value, int, find, unknown_curve, CoseError}
use go_rkvstcommon.Cose.Key.{PublicKey, algorithm_label_to_algorithm}
use go_rkvstcommon.Cose.Claims.{header_label_cwt_claims, cwt_claims_from_protected_header}
use go_rkvstcommon.Cose.Claims.Made.{made_key, known_curve, new_cnf_claim-read}
use go_rkvstcommon.Cose.NewClaim.{claim_map, new_cnf_claim}
use go_rkvstcommon.Cose.NewClaim.Laws.{Cbor}
use go_rkvstcommon.Cose.Verify.{
  Message, CoseLibrary, verify_with_cwt_public_key, verify_with_public_key,
}
use go_rkvstcommon.Cose.Verify.Laws.{verify_with_cwt_public_key-key, verify_with_public_key-alike}
use go_rkvstcommon.Cose.Message.{
  SignOptions, new_default_sign_options, apply_options, SignLibrary, CoseSign1Message, with_es256,
  algorithm_es256, sign_with, sign_es256, with_modes, marshal_cbor, unmarshal_cbor,
  new_cose_sign1_message_from_cbor,
}
use go_rkvstcommon.Cose.Message.Laws.{KeyPairs, sign_es256-find, sign_es256-verifies}

-- The documented behaviour of the libraries: Sign leaves the payload as it is, and what a marshalled message is read as has the
-- same payload and the same algorithm, each verifier judges it alike, and the value of the CWT claims
-- in its protected header is what CBOR makes of the value that was sent.
pub record Sending {E D S K V : Type 0} (library : SignLibrary E D S K) (verifying : CoseLibrary V)
    (wire : Value → Value) : Type 0 where
  pub sign-payload :
      (rand external : List ℕ) (s : S) (m : Message)
      → (library.sign rand external s m).0.payload ≡ m.payload
  pub received :
      (m : Message) (b : List ℕ)
      → library.marshal_message m ≡ ok b
      → (r : Message) × (library.unmarshal_message b ≡ ok r)
        × (r.payload ≡ m.payload)
        × (verifying.algorithm r.protected ≡ verifying.algorithm m.protected)
        × ((external : List ℕ) (v : V)
            → verifying.verify r external v ≡ verifying.verify m external v)
        × ((v : Value)
            → find header_label_cwt_claims m.protected ≡ some v
            → find header_label_cwt_claims r.protected ≡ some (wire v))

module _ {E D S K V : Type 0} (library : SignLibrary E D S K) (verifying : CoseLibrary V)
    (public_of : K → PublicKey) (pairs : KeyPairs library verifying public_of)
    (wire : Value → Value) (sending : Sending library verifying wire) (cbor : Cbor) where
  -- A message that accepts a public key and whose header names that key in its claims is read from
  -- what is sent of it with the same payload and those claims, and VerifyWithCWTPublicKey accepts it.
  received-verifies :
      (m : Message) (external : List ℕ) (p : PublicKey) (v : Value)
      (issuer subject kid alg : String) (n : ℤ) (b : List ℕ)
      → algorithm_label_to_algorithm (int n) ≡ ok alg
      → known_curve p.curve_name ≡ true
      → find header_label_cwt_claims m.protected ≡ some v
      → wire v ≡ cbor.decoded (claim_map (new_cnf_claim issuer subject kid n p))
      → verify_with_public_key verifying m p external ≡ ok tt
      → library.marshal_message m ≡ ok b
      → (r : Message) × (library.unmarshal_message b ≡ ok r)
        × (r.payload ≡ m.payload)
        × (cwt_claims_from_protected_header r.protected
            ≡ ok (record {
              issuer = issuer;
              subject = subject;
              confirmation_method = some (made_key kid alg p);
            }))
        × (verify_with_cwt_public_key verifying r external ≡ ok tt)
  received-verifies m external p v issuer subject kid alg n b a c f w h i =
      let (r, u, payload, algorithm, alike, claims) = sending.received m b i in
      let (read, key) =
        new_cnf_claim-read cbor kid alg n p a issuer subject r.protected (claims v f ∙ ap some w) in
      let key' = key ∙ ap (λ (t : Bool). if t then ok p else err unknown_curve) c in
      (
        r,
        u,
        payload,
        read,
        verify_with_cwt_public_key-key verifying r external _ (made_key kid alg p) p read refl key'
            ∙ verify_with_public_key-alike verifying m r external p algorithm (alike external) h,
      )

  sign_with-payload :
      (o : Outcome CoseError S) (rand external : List ℕ) (m : Message)
      → (sign_with library rand external m o).0.payload ≡ m.payload
  unfolding sign_with with_es256
  sign_with-payload (ok s) rand external m = sending.sign-payload rand external s (with_es256 m)
  sign_with-payload (err e) rand external m = refl
  sign_with-payload panic rand external m = refl

  -- Where the protected header holds, under the label of the CWT claims, a value that is sent as the
  -- claims that NewCNFClaim makes of an issuer, a subject, a key id, an algorithm that is known and
  -- the public key of a private key, on P-256, P-384 or P-521: when SignES256 signs with that private
  -- key and MarshalCBOR encodes, each without an error, then NewCoseSign1MessageFromCBOR, with options
  -- that have modes, reads back a message with the payload and with these claims, and
  -- VerifyWithCWTPublicKey accepts it, with the same external data.
  pub sign_es256-sent :
      (rand external : List ℕ) (k : K) (m : Message) (v : Value) (issuer subject kid alg : String)
      (n : ℤ) (b : List ℕ) (with_opts : List (SignOptions → SignOptions)) (e : E) (d : D)
      → algorithm_label_to_algorithm (int n) ≡ ok alg
      → known_curve (public_of k).curve_name ≡ true
      → find header_label_cwt_claims m.protected ≡ some v
      → wire v ≡ cbor.decoded (claim_map (new_cnf_claim issuer subject kid n (public_of k)))
      → (sign_es256 library rand external k m).1 ≡ ok tt
      → marshal_cbor library (sign_es256 library rand external k m).0 ≡ ok b
      → library.enc_mode (apply_options with_opts new_default_sign_options).enc_opts ≡ ok e
      → library.dec_mode (apply_options with_opts new_default_sign_options).dec_opts ≡ ok d
      → (cs : CoseSign1Message E D) × (new_cose_sign1_message_from_cbor library b with_opts ≡ ok cs)
        × (cs.message.payload ≡ m.payload)
        × (cwt_claims_from_protected_header cs.message.protected
            ≡ ok (record {
              issuer = issuer;
              subject = subject;
              confirmation_method = some (made_key kid alg (public_of k));
            }))
        × (verify_with_cwt_public_key verifying cs.message external ≡ ok tt)
  unfolding marshal_cbor unmarshal_cbor new_cose_sign1_message_from_cbor with_modes sign_es256
  sign_es256-sent rand external k m v issuer subject kid alg n b with_opts e d a c f w s i x y =
      let signed = (sign_es256 library rand external k m).0 in
      let (b', j, g) = and_then-ok (library.marshal_message signed) _ b i in
      let (r, u, payload, claims, verified) =
        received-verifies signed external (public_of k) v issuer subject kid alg n b' a c
          (sign_es256-find library verifying public_of pairs rand external k m
              header_label_cwt_claims refl s
            ∙ f)
          w (sign_es256-verifies library verifying public_of pairs rand external k m s) j in
      (
        record { message = r; enc_mode = e; dec_mode = d },
        rw (sym (ok-injective g), u, x, y) refl,
        payload ∙ sign_with-payload (library.new_signer algorithm_es256 k) rand external m,
        claims,
        verified,
      )
