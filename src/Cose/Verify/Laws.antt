-- ===== src/Cose/Verify/Laws.antt =====
-- Which messages VerifyWithCWTPublicKey of cose/cose.go accepts.
use go_rkvstcommon.Prelude.{ℕ, ◌≡◌, refl, ap, ◌∙◌, Option, none, some, List}
use go_rkvstcommon.Prelude.Int.{ℤ}
use go_rkvstcommon.Prelude.Outcome.{Outcome, ok, ok-injective, and_then, and_then-ok}
use go_rkvstcommon.Cose.Value.{CoseError}
use go_rkvstcommon.Cose.Key.{EcCoseKey, PublicKey, public_key}
use go_rkvstcommon.Cose.Claims.{
  CwtClaims, cwt_claims_from_protected_header, confirmed_key, cwt_public_key,
}
use go_rkvstcommon.Cose.Verify.{
  Message, CoseLibrary, verify_with_provider, provided_key, verify_with_cwt_public_key,
  verify_with_public_key,
}

confirmed_key-ok :
    (k : Option EcCoseKey) (p : PublicKey)
    → confirmed_key k ≡ ok p
    → (key : EcCoseKey) × (k ≡ some key) × (public_key key ≡ ok p)
unfolding confirmed_key
confirmed_key-ok none p h = cc
confirmed_key-ok (some key) p h = (key, refl, h)

module _ {V : Type 0} (library : CoseLibrary V) where
  -- A message that VerifyWithCWTPublicKey accepts has claims with a confirmation key, that key has a
  -- public key, and VerifyWithPublicKey with that public key accepts the message too.
  pub verify_with_cwt_public_key-ok :
      (message : Message) (external : List ℕ)
      → verify_with_cwt_public_key library message external ≡ ok tt
      → (claims : CwtClaims) × (key : EcCoseKey) × (p : PublicKey)
        × (cwt_claims_from_protected_header message.protected ≡ ok claims)
        × (claims.confirmation_method ≡ some key)
        × (public_key key ≡ ok p)
        × (verify_with_public_key library message p external ≡ ok tt)
  unfolding verify_with_cwt_public_key verify_with_public_key verify_with_provider provided_key
      cwt_public_key
  verify_with_cwt_public_key-ok message external h =
      let (pa, f, h1) =
        and_then-ok (cwt_public_key (library.algorithm message.protected) message.protected) _ tt
          h in
      let (alg, fa, f1) = and_then-ok (library.algorithm message.protected) _ pa f in
      let (claims, fc, f2) =
        and_then-ok (cwt_claims_from_protected_header message.protected) _ pa f1 in
      let (p, fp, f3) = and_then-ok (confirmed_key claims.confirmation_method) _ pa f2 in
      let (key, k, q) = confirmed_key-ok claims.confirmation_method p fp in
      let accepted =
        ap (λ x. verify_with_provider library message (and_then x λ a. ok (p, a)) external) fa
        ∙ ap (λ (x : PublicKey × ℤ). verify_with_provider library message (ok x) external)
            (ok-injective f3)
        ∙ h1 in
      (claims, key, p, fc, k, q, accepted)

  -- Where the claims of a message have a confirmation key with a public key, VerifyWithCWTPublicKey is
  -- VerifyWithPublicKey with that public key.
  pub verify_with_cwt_public_key-key :
      (message : Message) (external : List ℕ) (claims : CwtClaims) (key : EcCoseKey) (p : PublicKey)
      → cwt_claims_from_protected_header message.protected ≡ ok claims
      → claims.confirmation_method ≡ some key
      → public_key key ≡ ok p
      → verify_with_cwt_public_key library message external
        ≡ verify_with_public_key library message p external
  unfolding verify_with_cwt_public_key verify_with_public_key cwt_public_key provided_key
      confirmed_key
  verify_with_cwt_public_key-key message external claims key p f k q =
      let provider = λ (o : Outcome CoseError PublicKey).
        verify_with_provider library message
          (and_then (library.algorithm message.protected) λ alg. and_then o λ key. ok (key, alg))
          external in
      ap
        (λ (o : Outcome CoseError CwtClaims).
          verify_with_provider library message
            (and_then (library.algorithm message.protected) λ alg.
              and_then o
                λ claims. and_then (confirmed_key claims.confirmation_method) λ key. ok (key, alg))
            external)
        f
      ∙ ap provider (ap confirmed_key k ∙ q)

  -- A message of the same algorithm that every verifier judges alike is accepted too.
  pub verify_with_public_key-alike :
      (a b : Message) (external : List ℕ) (p : PublicKey)
      → library.algorithm b.protected ≡ library.algorithm a.protected
      → ((v : V) → library.verify b external v ≡ library.verify a external v)
      → verify_with_public_key library a p external ≡ ok tt
      → verify_with_public_key library b p external ≡ ok tt
  unfolding verify_with_public_key verify_with_provider provided_key
  verify_with_public_key-alike a b external p g alike h =
      let (pa, f, h1) =
        and_then-ok (and_then (library.algorithm a.protected) λ n. ok (p, n)) _ tt h in
      let (v, i, h2) = and_then-ok (library.new_verifier pa.1 pa.0) _ tt h1 in
      rw (g, f, i, alike v) h2
