-- ===== src/Azkeys/Signing.antt =====
-- Signing with the keys of a vault: the rest of azkeys/keyvault.go, and azkeys/coseSigner.go, over the
-- SDK of Azure key vaults and the hash functions, which are not part of this repository.
pub mod Laws
use go_rkvstcommon.Prelude.{
  ℕ, String, Bool, true, false, Option, none, some, List, [], ◌∷◌, ◌++◌, if◌then◌else◌,
}
use go_rkvstcommon.Prelude.Int.{ℤ, negsuc}
use go_rkvstcommon.Prelude.Outcome.{Outcome, ok, err, panic, and_then}
use go_rkvstcommon.Cose.Key.{PublicKey, set_bytes}
use go_rkvstcommon.Azkeys.KeyVault.{
  KeyId, slash, VaultError, sdk, wrapped, wrap, Vault, get_key_name, get_key_version,
  get_key_by_kid,
}

-- keyvault.JSONWebKeyCurveName and JSONWebKeyType, as far as they are told apart
pub data Curve : Type 0 where
  p256 p384 p521 other_curve : Curve

pub data KeyType : Type 0 where
  ec other_type : KeyType

-- keyvault.JSONWebKeySignatureAlgorithm
pub data Algorithm : Type 0 where
  es256 es384 es512 other_algorithm : Algorithm

-- keyvault.KeyBundle: its Key, where x and y are base64 texts
pub record KeyBundle : Type 0 where
  pub kid : Option KeyId
  pub kty : KeyType
  pub crv : Curve
  pub x : Option (List ℕ)
  pub y : Option (List ℕ)

-- The vault's SDK with the two calls for signatures; base64.URLEncoding; and the hash functions of
-- crypto/sha256 and crypto/sha512
pub record SigningVault : Type 0 where
  pub vault : Vault KeyBundle
  -- Sign, with the pointer that is its result
  pub sign : KeyId → KeyId → Algorithm → List ℕ → Outcome VaultError (Option (List ℕ))
  -- Verify, of a signature and a digest, with the pointer that is its result
  pub verify : KeyId → KeyId → Algorithm → List ℕ → List ℕ → Outcome VaultError (Option Bool)
  pub encode : List ℕ → List ℕ
  pub decode : List ℕ → Outcome VaultError (List ℕ)
  pub sha256 : List ℕ → List ℕ
  pub sha384 : List ℕ → List ℕ

-- errors.New and fmt.Errorf of the errors below, by a number
abbrev pub unsupported_key : VaultError
unsupported_key = sdk 1

abbrev pub key_id_nil : VaultError
key_id_nil = sdk 2

abbrev pub public_key_nil : VaultError
public_key_nil = sdk 3

abbrev pub no_curve : VaultError
no_curve = sdk 4

-- *p
abbrev pub deref : {A : Type 0} → Option A → Outcome VaultError A
deref none = panic
deref (some a) = ok a

module _ (v : SigningVault) where
  -- (*KeyVault).GetLatestKey
  unfoldable pub get_latest_key : KeyId → Outcome VaultError KeyBundle
  get_latest_key key_name = and_then v.vault.new_client λ _. wrap (v.vault.get_key key_name [])

  -- (*KeyVault).Sign
  unfoldable pub vault_sign : List ℕ → KeyId → Algorithm → Outcome VaultError (List ℕ)
  unfolding get_key_name get_key_version
  vault_sign payload key_id algorithm = and_then (wrap v.vault.new_client) λ _.
      and_then (get_key_name key_id) λ name. and_then (get_key_version key_id) λ version.
        and_then (wrap (v.sign name version algorithm (v.encode payload)))
          λ result. and_then (deref result) λ signature. v.decode signature

  -- The two switches of hashPayload
  unfoldable pub hash_by : KeyType → Curve → List ℕ → Outcome VaultError (List ℕ)
  hash_by ec p256 to_be_signed = ok (v.sha256 to_be_signed)
  hash_by ec p384 to_be_signed = ok (v.sha384 to_be_signed)
  hash_by ec p521 to_be_signed = err unsupported_key
  hash_by ec other_curve to_be_signed = err unsupported_key
  hash_by other_type crv to_be_signed = err unsupported_key

  -- hashPayload
  unfoldable pub hash_payload : List ℕ → KeyBundle → Outcome VaultError (List ℕ)
  unfolding hash_by
  hash_payload to_be_signed key = hash_by key.kty key.crv to_be_signed

  -- (*KeyVault).HashAndSign
  unfoldable pub hash_and_sign : List ℕ → KeyId → Algorithm → Outcome VaultError (List ℕ)
  unfolding get_key_by_kid hash_payload vault_sign
  hash_and_sign payload key_id algorithm = and_then (wrap (get_key_by_kid v.vault key_id)) λ key.
      and_then (wrap (hash_payload payload key))
        λ payload_hash. wrap (vault_sign payload_hash key_id algorithm)

  -- (*KeyVault).Verify
  unfoldable pub vault_verify :
      List ℕ → List ℕ → KeyId → KeyId → Algorithm → Outcome VaultError Bool
  vault_verify signature digest key_id key_version algorithm =
      and_then (wrap v.vault.new_client) λ _.
        and_then
          (wrap (v.verify key_id key_version algorithm (v.encode signature) (v.encode digest)))
          λ result. deref result

-- type KeyVaultCoseSigner struct, with its location, key and algorithm
pub record CoseSigner : Type 0 where
  pub key_name : KeyId
  pub alg : Algorithm
  pub key : KeyBundle
  pub location_identifier : List ℕ

-- (*KeyVaultCoseSigner).KeyLocation
abbrev pub key_location : CoseSigner → List ℕ
key_location s = s.location_identifier

-- (*KeyVaultCoseSigner).Algorithm: cose.AlgorithmES384
abbrev pub cose_algorithm : CoseSigner → ℤ
cose_algorithm s = negsuc 34

-- The part of NewKeyVaultCoseSigner after the key is read, by its id
unfoldable pub signer_of : List ℕ → KeyId → KeyBundle → Option KeyId → Outcome VaultError CoseSigner
signer_of location key_name key none = err key_id_nil
signer_of location key_name key (some kid) =
    ok (record { key_name = key_name; alg = es384; key = key; location_identifier = location })

module _ (v : SigningVault) where
  -- NewKeyVaultCoseSigner, where `location` is the first six digits of a hash
  unfoldable pub new_cose_signer : List ℕ → KeyId → Outcome VaultError CoseSigner
  unfolding get_latest_key signer_of
  new_cose_signer location key_name =
      and_then (wrap (get_latest_key v key_name)) λ key. signer_of location key_name key key.kid

  -- base64BEtoBigInt
  unfoldable pub base64_be_to_big_int : List ℕ → Outcome VaultError ℕ
  unfolding set_bytes
  base64_be_to_big_int text = and_then (wrap (v.decode text)) λ s. ok (set_bytes 0 s)

  unfoldable pub curve_name : Curve → Outcome VaultError String
  curve_name p256 = ok "P-256"
  curve_name p384 = ok "P-384"
  curve_name p521 = ok "P-521"
  curve_name other_curve = err no_curve

  -- The part of PublicKey where neither X nor Y is nil
  unfoldable pub point_of : List ℕ → List ℕ → Curve → Outcome VaultError PublicKey
  unfolding base64_be_to_big_int curve_name
  point_of x y crv = and_then (wrap (base64_be_to_big_int x)) λ x_value.
      and_then (wrap (base64_be_to_big_int y)) λ y_value.
        and_then (curve_name crv)
          λ name. ok (record { curve_name = name; x_value = x_value; y_value = y_value })

  -- (*KeyVaultCoseSigner).PublicKey
  unfoldable pub signer_public_key : CoseSigner → Outcome VaultError PublicKey
  unfolding point_of
  signer_public_key s = elim s.key.x [
    | none ↦ err public_key_nil
    | some x ↦ elim s.key.y [ none ↦ err public_key_nil | some y ↦ point_of x y s.key.crv ]
  ]

  -- (*KeyVaultCoseSigner).Sign
  unfoldable pub signer_sign : CoseSigner → List ℕ → Outcome VaultError (List ℕ)
  unfolding hash_and_sign
  signer_sign s content = and_then (deref s.key.kid) λ kid. wrap (hash_and_sign v content kid s.alg)

-- (*KeyVaultCoseSigner).KeyIdentifier
unfoldable pub key_identifier : CoseSigner → Outcome VaultError (List ℕ)
unfolding get_key_name get_key_version
key_identifier s = and_then (deref s.key.kid) λ kid. and_then (get_key_name kid) λ name.
    and_then (get_key_version kid) λ version. ok (key_location s ++ 58 ∷ (name ++ slash ∷ version))
