-- ===== src/Azkeys/TestSigner.antt =====
-- azkeys/testCoseSigner.go, over the signers of the COSE library, which is not part of this repository.
use go_rkvstcommon.Prelude.{ℕ, ◌≡◌, sym, ap, ◌∙◌, String, List}
use go_rkvstcommon.Prelude.Int.{ℤ}
use go_rkvstcommon.Prelude.Outcome.{Outcome, ok, err, panic, ok-injective, and_then, and_then-ok}
use go_rkvstcommon.Cose.Value.{CoseError}
use go_rkvstcommon.Cose.Key.{PublicKey, cose_alg_for_ec}

-- cose.Signer with its signers S, and the ECDSA private keys K
record Signers (S K : Type 0) : Type 0 where
  new_signer : ℤ → K → Outcome CoseError S
  algorithm : S → ℤ
  sign : S → List ℕ → List ℕ → Outcome CoseError (List ℕ)
  public_of : K → PublicKey

-- type TestCoseSigner struct
record TestCoseSigner (S : Type 0) : Type 0 where
  inner_signer : S
  public_key : PublicKey

-- require.NoError(t, err), which ends the test
abbrev require_no_error : {A : Type 0} → Outcome CoseError A → Outcome CoseError A
require_no_error (ok a) = ok a
require_no_error (err e) = panic
require_no_error panic = panic

require_no_error-ok :
    {A : Type 0} (o : Outcome CoseError A) (a : A) → require_no_error o ≡ ok a → o ≡ ok a
require_no_error-ok (ok b) a h = h
require_no_error-ok (err e) a h = cc
require_no_error-ok panic a h = cc

-- (*TestCoseSigner).KeyLocation and KeyIdentifier
abbrev test_key_location : String
test_key_location = "test"

abbrev test_key_identifier : String
test_key_identifier = "foo/bar"

module _ {S K : Type 0} (l : Signers S K) where
  -- NewTestCoseSigner
  unfoldable new_test_cose_signer : K → Outcome CoseError (TestCoseSigner S)
  unfolding cose_alg_for_ec
  new_test_cose_signer signing_key =
      and_then (require_no_error (cose_alg_for_ec (l.public_of signing_key))) λ alg.
        and_then (require_no_error (l.new_signer alg signing_key))
          λ signer. ok (record { inner_signer = signer; public_key = l.public_of signing_key })

  -- (*TestCoseSigner).Algorithm, Sign and PublicKey
  abbrev test_algorithm : TestCoseSigner S → ℤ
  test_algorithm s = l.algorithm s.inner_signer

  abbrev test_sign : TestCoseSigner S → List ℕ → List ℕ → Outcome CoseError (List ℕ)
  test_sign s rand content = l.sign s.inner_signer rand content

  abbrev test_public_key : TestCoseSigner S → Outcome CoseError PublicKey
  test_public_key s = ok s.public_key

  -- Where a signer keeps the algorithm that it is made with, the algorithm of a signer for tests is
  -- the one that CoseAlgForEC gives of the public key that it returns, which is that of its key.
  new_test_cose_signer-algorithm :
      ((n : ℤ) (k : K) (s : S) → l.new_signer n k ≡ ok s → l.algorithm s ≡ n)
      → (k : K) (s : TestCoseSigner S) → new_test_cose_signer k ≡ ok s
      → (test_public_key s ≡ ok (l.public_of k))
        × (cose_alg_for_ec s.public_key ≡ ok (test_algorithm s))
  unfolding new_test_cose_signer
  new_test_cose_signer-algorithm keeps k s h =
      let (alg, e, h1) = and_then-ok (require_no_error (cose_alg_for_ec (l.public_of k))) _ s h in
      let (signer, f, h2) = and_then-ok (require_no_error (l.new_signer alg k)) _ s h1 in
      let made = sym (ok-injective h2) in
      (
        ap (λ (x : TestCoseSigner S). ok x.public_key) made,
        ap (λ (x : TestCoseSigner S). cose_alg_for_ec x.public_key) made
            ∙ require_no_error-ok (cose_alg_for_ec (l.public_of k)) alg e
            ∙ ap ok (
                sym (keeps alg k signer (require_no_error-ok (l.new_signer alg k) signer f))
                ∙ ap (λ (x : TestCoseSigner S). l.algorithm x.inner_signer) (sym made)),
      )
