-- ===== src/Cose/Message/Laws.antt =====
-- What cose/cose.go signs with SignES256 verifies, and what CreateSignPayload covers.
use mathlib.Core.Option.{some-injective}
use go_rkvstcommon.Prelude.{ℕ, ◌≡◌, refl, sym, ap, ◌∙◌, false, Option, some, List, [], ◌∷◌, arith}
use go_rkvstcommon.Prelude.Int.{ℤ, int_eq, int_eq_iff}
use go_rkvstcommon.Prelude.Outcome.{Outcome, ok, err, panic, and_then-ok}
use go_rkvstcommon.Cose.Value.{
  Value, nil, text, bytes, int, texts, value_map, other, Entries, no_entries, entry, CoseError,
  find,
}
use go_rkvstcommon.Cose.Key.{PublicKey}
use go_rkvstcommon.Cose.Verify.{
  Message, CoseLibrary, verify_with_provider, provided_key, verify_with_public_key,
}
use go_rkvstcommon.Cose.Message.{
  SignLibrary, CoseSign1Message, set_entry, with_es256, header_label_algorithm, algorithm_es256,
  sign_with, sign_es256, create_sign_payload, SigItem, sig_text, sig_raw, sig_bytes, external_bytes,
  sign1_context,
}

-- What is put under a label is found there.
pub find-set_entry :
    (label : ℤ) (v : Value) (m : Entries) → find label (set_entry label v m) ≡ some v
unfolding find set_entry
find-set_entry label v no_entries = ground (arith, int_eq_iff label label)
find-set_entry label v (entry (int n) w rest) =
    ground (arith, int_eq_iff n label, find-set_entry label v rest)
find-set_entry label v (entry nil w rest) = find-set_entry label v rest
find-set_entry label v (entry (text s) w rest) = find-set_entry label v rest
find-set_entry label v (entry (bytes b) w rest) = find-set_entry label v rest
find-set_entry label v (entry (texts l) w rest) = find-set_entry label v rest
find-set_entry label v (entry (value_map m) w rest) = find-set_entry label v rest
find-set_entry label v (entry (other t) w rest) = find-set_entry label v rest

-- Every other label keeps its value.
pub find-set_entry_other :
    (label n : ℤ) (v : Value) (m : Entries)
    → int_eq label n ≡ false
    → find n (set_entry label v m) ≡ find n m
unfolding find set_entry
find-set_entry_other label n v no_entries h = ground arith
find-set_entry_other label n v (entry (int k) w rest) h = ground (
  arith,
  int_eq_iff k label,
  int_eq_iff k n,
  int_eq_iff label n,
  find-set_entry_other label n v rest h,
)
find-set_entry_other label n v (entry nil w rest) h = find-set_entry_other label n v rest h
find-set_entry_other label n v (entry (text s) w rest) h = find-set_entry_other label n v rest h
find-set_entry_other label n v (entry (bytes b) w rest) h = find-set_entry_other label n v rest h
find-set_entry_other label n v (entry (texts l) w rest) h = find-set_entry_other label n v rest h
find-set_entry_other label n v (entry (value_map m) w rest) h =
    find-set_entry_other label n v rest h
find-set_entry_other label n v (entry (other t) w rest) h = find-set_entry_other label n v rest h

-- The documented behaviour of the libraries: the algorithm of a header is the number under its
-- label, Sign leaves the protected header as it is, and what a signer signs is verified by the
-- verifier for the same algorithm and the public key that belongs to the private key.
pub record KeyPairs {E D S K V : Type 0} (library : SignLibrary E D S K) (verifying : CoseLibrary V)
    (public_of : K → PublicKey) : Type 0 where
  pub algorithm-find :
      (header : Entries) (n : ℤ)
      → find header_label_algorithm header ≡ some (int n)
      → verifying.algorithm header ≡ ok n
  pub sign-protected :
      (rand external : List ℕ) (s : S) (m : Message)
      → (library.sign rand external s m).0.protected ≡ m.protected
  pub signer-verifier :
      (n : ℤ) (k : K) (s : S)
      → library.new_signer n k ≡ ok s
      → (v : V) × (verifying.new_verifier n (public_of k) ≡ ok v)
        × ((rand external : List ℕ) (m : Message)
            → (library.sign rand external s m).1 ≡ ok tt
            → verifying.verify (library.sign rand external s m).0 external v ≡ ok tt)

module _ {E D S K V : Type 0} (library : SignLibrary E D S K) (verifying : CoseLibrary V)
    (public_of : K → PublicKey) (pairs : KeyPairs library verifying public_of) where
  sign_with-verifies :
      (o : Outcome CoseError S) (rand external : List ℕ) (k : K) (m : Message)
      → library.new_signer algorithm_es256 k ≡ o
      → (sign_with library rand external m o).1 ≡ ok tt
      → verify_with_public_key verifying
          (sign_with library rand external m o).0
          (public_of k)
          external
        ≡ ok tt
  unfolding sign_with verify_with_public_key verify_with_provider provided_key with_es256
  sign_with-verifies (ok s) rand external k m n h =
      let (v, f, g) = pairs.signer-verifier algorithm_es256 k s n in
      rw
        (
          pairs.algorithm-find _ algorithm_es256 (
              ap (find header_label_algorithm) (pairs.sign-protected rand external s (with_es256 m))
              ∙ find-set_entry header_label_algorithm (int algorithm_es256) m.protected),
          f,
        )
        (g rand external (with_es256 m) h)
  sign_with-verifies (err e) rand external k m n h = cc
  sign_with-verifies panic rand external k m n h = cc

  -- Signing puts the algorithm under its label, and leaves the rest of the protected header.
  sign_with-protected :
      (o : Outcome CoseError S) (rand external : List ℕ) (m : Message)
      → (sign_with library rand external m o).1 ≡ ok tt
      → (sign_with library rand external m o).0.protected ≡ (with_es256 m).protected
  unfolding sign_with
  sign_with-protected (ok s) rand external m h = pairs.sign-protected rand external s (with_es256 m)
  sign_with-protected (err e) rand external m h = cc
  sign_with-protected panic rand external m h = cc

  pub sign_es256-find :
      (rand external : List ℕ) (k : K) (m : Message) (n : ℤ)
      → int_eq header_label_algorithm n ≡ false
      → (sign_es256 library rand external k m).1 ≡ ok tt
      → find n (sign_es256 library rand external k m).0.protected ≡ find n m.protected
  unfolding sign_es256 with_es256
  sign_es256-find rand external k m n e h =
      ap (find n) (sign_with-protected (library.new_signer algorithm_es256 k) rand external m h)
      ∙ find-set_entry_other header_label_algorithm n (int algorithm_es256) m.protected e

  -- A message that SignES256 signs with a private key verifies with the public key that belongs to
  -- it, whatever algorithm its protected header named before.
  pub sign_es256-verifies :
      (rand external : List ℕ) (k : K) (m : Message)
      → (sign_es256 library rand external k m).1 ≡ ok tt
      → verify_with_public_key verifying
          (sign_es256 library rand external k m).0
          (public_of k)
          external
        ≡ ok tt
  unfolding sign_es256
  sign_es256-verifies rand external k m h =
      sign_with-verifies (library.new_signer algorithm_es256 k) rand external k m refl h

-- The Sig_structure of a protected header, external data and a payload
abbrev pub sig_structure : List ℕ → List ℕ → List ℕ → List SigItem
sig_structure body external payload =
    sig_text sign1_context ∷ sig_raw body ∷ sig_bytes external ∷ sig_bytes payload ∷ []

module _ {E D S K : Type 0} (library : SignLibrary E D S K) where
  -- A payload to be signed is the encoding of the Sig_structure of the message.
  create_sign_payload-ok :
      (cs : CoseSign1Message E D) (external : Option (List ℕ)) (b : List ℕ)
      → create_sign_payload library cs external ≡ ok b
      → (body : List ℕ) × (library.marshal_protected cs.message ≡ ok body)
        × (library.wellformed cs.dec_mode body ≡ ok tt)
        × (library.marshal cs.enc_mode
              (sig_structure body (external_bytes external) cs.message.payload)
            ≡ ok b)
  unfolding create_sign_payload
  create_sign_payload-ok cs external b h =
      let (body, f, h1) = and_then-ok (library.marshal_protected cs.message) _ b h in
      let (t, g, h2) = and_then-ok (library.wellformed cs.dec_mode body) _ b h1 in (body, f, g, h2)

  -- Where the encoding of a Sig_structure whose protected header is well-formed CBOR can be decoded,
  -- what is to be signed fixes the protected header, the external data (none is the same as empty)
  -- and the payload: two messages with the same bytes to be signed have the same of each.
  pub create_sign_payload-binds :
      (parse : List ℕ → Option (List ℕ × List ℕ × List ℕ))
      → ((d : D) (e : E) (body external payload b : List ℕ)
          → library.wellformed d body ≡ ok tt
          → library.marshal e (sig_structure body external payload) ≡ ok b
          → parse b ≡ some (body, external, payload))
      → (cs cs' : CoseSign1Message E D) (external external' : Option (List ℕ)) (b : List ℕ)
      → create_sign_payload library cs external ≡ ok b
      → create_sign_payload library cs' external' ≡ ok b
      → (library.marshal_protected cs.message ≡ library.marshal_protected cs'.message)
        × (external_bytes external ≡ external_bytes external')
        × (cs.message.payload ≡ cs'.message.payload)
  create_sign_payload-binds parse parses cs cs' external external' b h h' =
      let (body, f, g, i) = create_sign_payload-ok cs external b h in
      let (body', f', g', i') = create_sign_payload-ok cs' external' b h' in
      let p =
        sym (parses cs.dec_mode cs.enc_mode body (external_bytes external) cs.message.payload b g i)
        ∙ parses cs'.dec_mode cs'.enc_mode body' (external_bytes external') cs'.message.payload b g'
            i' in
      let q = some-injective _ _ p in
      (f ∙ ap (λ x. ok x.0) q ∙ sym f', ap (λ x. x.1) q, ap (λ x. x.2) q)
