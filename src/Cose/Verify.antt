-- ===== src/Cose/Verify.antt =====
-- Verification in cose/cose.go, and cose/publickeyprovider.go, over the COSE library, which is not part of
-- this repository: its algorithms, verifiers and signers are parameters.
pub mod Laws
use go_rkvstcommon.Prelude.{String, List, ℕ}
use go_rkvstcommon.Prelude.Int.{ℤ, pos, negsuc}
use go_rkvstcommon.Prelude.Outcome.{Outcome, ok, err, panic, and_then}
use go_rkvstcommon.Cose.Value.{Value, int, Entries, no_entries, entry, CoseError}
use go_rkvstcommon.Cose.Key.{PublicKey}
use go_rkvstcommon.Cose.Claims.{cwt_public_key}

-- cose.Sign1Message: its protected header, payload and signature
pub record Message : Type 0 where
  pub protected : Entries
  pub payload : List ℕ
  pub signature : List ℕ

-- The COSE library, with its verifiers V
pub record CoseLibrary (V : Type 0) : Type 0 where
  -- ProtectedHeader.Algorithm
  pub algorithm : Entries → Outcome CoseError ℤ
  -- cose.NewVerifier, for a public key
  pub new_verifier : ℤ → PublicKey → Outcome CoseError V
  -- (*Sign1Message).Verify
  pub verify : Message → List ℕ → V → Outcome CoseError (Unit {0})

module _ {V : Type 0} (library : CoseLibrary V) where
  -- (*CoseSign1Message).VerifyWithProvider, of what the provider's PublicKey returns
  unfoldable pub verify_with_provider :
      Message → Outcome CoseError (PublicKey × ℤ) → List ℕ → Outcome CoseError (Unit {0})
  verify_with_provider message provided external = and_then provided λ key.
      and_then (library.new_verifier key.1 key.0)
        λ verifier. library.verify message external verifier

  -- (*PublicKeyProvider).PublicKey
  unfoldable pub provided_key : Message → PublicKey → Outcome CoseError (PublicKey × ℤ)
  provided_key message public_key =
      and_then (library.algorithm message.protected) λ algorithm. ok (public_key, algorithm)

  -- (*CoseSign1Message).VerifyWithCWTPublicKey
  unfoldable pub verify_with_cwt_public_key : Message → List ℕ → Outcome CoseError (Unit {0})
  unfolding verify_with_provider cwt_public_key
  verify_with_cwt_public_key message external =
      verify_with_provider message
        (cwt_public_key (library.algorithm message.protected) message.protected) external

  -- (*CoseSign1Message).VerifyWithPublicKey
  unfoldable pub verify_with_public_key :
      Message → PublicKey → List ℕ → Outcome CoseError (Unit {0})
  unfolding verify_with_provider provided_key
  verify_with_public_key message public_key external =
      verify_with_provider message (provided_key message public_key) external
