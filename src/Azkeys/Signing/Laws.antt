-- ===== src/Azkeys/Signing/Laws.antt =====
-- What is signed by azkeys/keyvault.go and azkeys/coseSigner.go verifies.
use go_rkvstcommon.Prelude.{
  ℕ, ◌≡◌, refl, sym, ap, ◌∙◌, ◌⊎◌, inl, inr, Option, none, some, List, ◌∷◌, ◌++◌, true,
}
use go_rkvstcommon.Prelude.Split.{is_part}
use go_rkvstcommon.Prelude.Outcome.{ok, ok-injective, and_then-ok}
use go_rkvstcommon.Azkeys.KeyVault.{
  KeyId, slash, wrap, get_key_name, get_key_version, get_key_by_kid,
}
use go_rkvstcommon.Azkeys.KeyVault.Laws.{get_key_name-parts}
use go_rkvstcommon.Azkeys.KeyVault.Pages.{wrap-ok}
use go_rkvstcommon.Azkeys.Signing.{
  Curve, p256, p384, p521, other_curve, KeyType, ec, other_type, Algorithm, es384, KeyBundle,
  SigningVault, deref, vault_sign, hash_by, hash_payload, hash_and_sign, vault_verify, CoseSigner,
  signer_of, new_cose_signer, signer_sign, key_identifier, get_latest_key,
}

deref-ok : {A : Type 0} (o : Option A) (a : A) → deref o ≡ ok a → o ≡ some a
deref-ok none a h = cc
deref-ok (some b) a h = ap some (ok-injective h)

-- The vault's documented behaviour: a signature that it makes of a value verifies with the same key
-- and algorithm.
abbrev pub Verifies : SigningVault → Type 0
Verifies v =
    (name version : KeyId) (algorithm : Algorithm) (value r s : List ℕ)
    → v.sign name version algorithm value ≡ ok (some r)
    → v.decode r ≡ ok s
    → v.verify name version algorithm (v.encode s) value ≡ ok (some true)

module _ (v : SigningVault) (verifies : Verifies v) where
  vault_sign-verifies :
      (digest : List ℕ) (kid : KeyId) (algorithm : Algorithm) (s : List ℕ)
      → vault_sign v digest kid algorithm ≡ ok s
      → (name : KeyId) × (version : KeyId) × (get_key_name kid ≡ ok name)
        × (get_key_version kid ≡ ok version)
        × (vault_verify v s digest name version algorithm ≡ ok true)
  unfolding vault_sign vault_verify
  vault_sign-verifies digest kid algorithm s h =
      let (t, e, h1) = and_then-ok (wrap v.vault.new_client) _ s h in
      let (name, f, h2) = and_then-ok (get_key_name kid) _ s h1 in
      let (version, g, h3) = and_then-ok (get_key_version kid) _ s h2 in
      let (r, i, h4) =
        and_then-ok (wrap (v.sign name version algorithm (v.encode digest))) _ s h3 in
      let (text, j, h5) = and_then-ok (deref r) v.decode s h4 in
      let k =
        wrap-ok (v.sign name version algorithm (v.encode digest)) r i ∙ ap ok (deref-ok r text j) in
      (
        name,
        version,
        f,
        g,
        rw (e, verifies name version algorithm (v.encode digest) text s k h5) refl,
      )

  hash_by-curve :
      (kty : KeyType) (crv : Curve) (payload digest : List ℕ)
      → hash_by v kty crv payload ≡ ok digest
      → (kty ≡ ec)
        × (((crv ≡ p256) × (digest ≡ v.sha256 payload))
            ⊎ ((crv ≡ p384) × (digest ≡ v.sha384 payload)))
  unfolding hash_by
  hash_by-curve ec p256 payload digest h = (refl, inl (refl, sym (ok-injective h)))
  hash_by-curve ec p384 payload digest h = (refl, inr (refl, sym (ok-injective h)))
  hash_by-curve ec p521 payload digest h = cc
  hash_by-curve ec other_curve payload digest h = cc
  hash_by-curve other_type crv payload digest h = cc

  hash_payload-curve :
      (payload digest : List ℕ) (key : KeyBundle)
      → hash_payload v payload key ≡ ok digest
      → (key.kty ≡ ec)
        × (((key.crv ≡ p256) × (digest ≡ v.sha256 payload))
            ⊎ ((key.crv ≡ p384) × (digest ≡ v.sha384 payload)))
  unfolding hash_payload
  hash_payload-curve payload digest key h = hash_by-curve key.kty key.crv payload digest h

  -- Where HashAndSign succeeds, the key it reads is an elliptic one on P-256 or P-384, and the
  -- signature verifies, with the same key and algorithm, against the SHA-256 or SHA-384 hash of the
  -- payload that goes with that curve.
  pub hash_and_sign-verifies :
      (payload : List ℕ) (kid : KeyId) (algorithm : Algorithm) (s : List ℕ)
      → hash_and_sign v payload kid algorithm ≡ ok s
      → (key : KeyBundle) × (digest : List ℕ) × (name : KeyId) × (version : KeyId) × (get_key_by_kid
            v.vault kid
          ≡ ok key)
        × (key.kty ≡ ec)
        × (((key.crv ≡ p256) × (digest ≡ v.sha256 payload))
            ⊎ ((key.crv ≡ p384) × (digest ≡ v.sha384 payload)))
        × (get_key_name kid ≡ ok name)
        × (get_key_version kid ≡ ok version)
        × (vault_verify v s digest name version algorithm ≡ ok true)
  unfolding hash_and_sign
  hash_and_sign-verifies payload kid algorithm s h =
      let (key, e, h1) = and_then-ok (wrap (get_key_by_kid v.vault kid)) _ s h in
      let (digest, f, h2) = and_then-ok (wrap (hash_payload v payload key)) _ s h1 in
      let (ty, crv) =
        hash_payload-curve payload digest key (wrap-ok (hash_payload v payload key) digest f) in
      let (name, version, i, j, k) =
        vault_sign-verifies digest kid algorithm s
          (wrap-ok (vault_sign v digest kid algorithm) s h2) in
      (key, digest, name, version, wrap-ok (get_key_by_kid v.vault kid) key e, ty, crv, i, j, k)

  signer_of-alg :
      (location : List ℕ) (key_name : KeyId) (key : KeyBundle) (kid : Option KeyId)
      (signer : CoseSigner)
      → signer_of location key_name key kid ≡ ok signer
      → signer.alg ≡ es384
  unfolding signer_of
  signer_of-alg location key_name key none signer h = cc
  signer_of-alg location key_name key (some kid) signer h =
      ap (λ (x : CoseSigner). x.alg) (sym (ok-injective h))

  new_cose_signer-alg :
      (location : List ℕ) (key_name : KeyId) (signer : CoseSigner)
      → new_cose_signer v location key_name ≡ ok signer
      → signer.alg ≡ es384
  unfolding new_cose_signer
  new_cose_signer-alg location key_name signer h =
      let (key, e, h1) = and_then-ok (wrap (get_latest_key v key_name)) _ signer h in
      signer_of-alg location key_name key key.kid signer h1

  -- What a signer that NewKeyVaultCoseSigner makes signs verifies with ES384, whatever the curve of
  -- the key: of a key on P-256 it is a SHA-256 hash that is signed so.
  pub signer_sign-es384 :
      (location : List ℕ) (key_name : KeyId) (signer : CoseSigner) (content s : List ℕ)
      → new_cose_signer v location key_name ≡ ok signer
      → signer_sign v signer content ≡ ok s
      → (kid : KeyId) × (key : KeyBundle) × (digest : List ℕ) × (name : KeyId) × (version : KeyId)
        × (signer.key.kid ≡ some kid)
        × (get_key_by_kid v.vault kid ≡ ok key)
        × (((key.crv ≡ p256) × (digest ≡ v.sha256 content))
            ⊎ ((key.crv ≡ p384) × (digest ≡ v.sha384 content)))
        × (get_key_name kid ≡ ok name)
        × (get_key_version kid ≡ ok version)
        × (vault_verify v s digest name version es384 ≡ ok true)
  unfolding signer_sign
  signer_sign-es384 location key_name signer content s n h =
      let (kid, e, h1) = and_then-ok (deref signer.key.kid) _ s h in
      let (key, digest, name, version, f, ty, crv, i, j, k) =
        hash_and_sign-verifies content kid signer.alg s
          (wrap-ok (hash_and_sign v content kid signer.alg) s h1) in
      (
        kid,
        key,
        digest,
        name,
        version,
        deref-ok signer.key.kid kid e,
        f,
        crv,
        i,
        j,
        ap (λ a. vault_verify v s digest name version a)
              (sym (new_cose_signer-alg location key_name signer n))
            ∙ k,
      )

-- KeyIdentifier is the location, a colon, the key's name, a slash and its version, where the key's id
-- ends in that name and version after slashes.
pub key_identifier-parts :
    (s : CoseSigner) (prefix name version : KeyId)
    → s.key.kid ≡ some (prefix ++ slash ∷ (name ++ slash ∷ version))
    → is_part slash name ≡ true
    → is_part slash version ≡ true
    → key_identifier s ≡ ok (s.location_identifier ++ 58 ∷ (name ++ slash ∷ version))
unfolding key_identifier
key_identifier-parts s prefix name version k a b =
    let (n, w) = get_key_name-parts prefix name version a b in rw (k, n, w) refl
