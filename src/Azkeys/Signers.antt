-- ===== src/Azkeys/Signers.antt =====
-- The theorems of azkeys on secrets and signatures on a small vault: the properties' hypotheses hold
-- there.
use go_rkvstcommon.Prelude.{ℕ, ◌≡◌, refl, ◌⊎◌, String, true, Option, none, some, List, [], ◌∷◌, All}
use go_rkvstcommon.Prelude.Split.{is_part}
use go_rkvstcommon.Prelude.Outcome.{ok, panic}
use go_rkvstcommon.Prelude.Dict.{Dict}
use go_rkvstcommon.Azkeys.KeyVault.{
  KeyId, VaultError, get_key_name, get_key_version, get_key_by_kid,
}
use go_rkvstcommon.Azkeys.Secrets.{SecretItem, SecretClient, Results, list_secrets}
use go_rkvstcommon.Azkeys.Secrets.Laws.{Asked, list_secrets-Asked}
use go_rkvstcommon.Azkeys.Secrets.Listed.{Listed, list_secrets-Listed}
use go_rkvstcommon.Azkeys.Signing.{
  p256, p384, ec, es384, KeyBundle, SigningVault, CoseSigner, vault_verify, key_identifier,
  new_cose_signer, signer_sign, hash_and_sign,
}
use go_rkvstcommon.Azkeys.Signing.Laws.{
  Verifies, hash_and_sign-verifies, signer_sign-es384, key_identifier-parts,
}

-- The paths /secrets/ab and /secrets/x
abbrev wanted_path : List ℕ
wanted_path = 47 ∷ 115 ∷ 101 ∷ 99 ∷ 114 ∷ 101 ∷ 116 ∷ 115 ∷ 47 ∷ 97 ∷ 98 ∷ []

abbrev wanted : SecretItem
wanted = record { id = some "u"; item_tags = ("t", some "v") ∷ ("n", none) ∷ [] }

abbrev untagged : SecretItem
untagged = record { id = some "u"; item_tags = ("t", none) ∷ [] }

abbrev items : List (SecretItem × Option VaultError)
items = (untagged, none) ∷ (wanted, none) ∷ []

abbrev client : SecretClient
client = record {
  new_client = ok tt;
  get_secret = λ id. panic;
  get_secrets = ok items;
  parse_path = λ u. some wanted_path;
}

abbrev tags : Dict String String
tags = ("t", "v") ∷ []

abbrev results : Results
results =
    (
      97 ∷ 98 ∷ [],
      record {
        identity = 97 ∷ 98 ∷ [];
        vault_identity = "u";
        tags = ("t", "v") ∷ [];
        value = none;
      },
    )
    ∷ []

list_secrets-Asked_example : All (Asked (97 ∷ []) tags) results
unfolding list_secrets
list_secrets-Asked_example = list_secrets-Asked client (97 ∷ []) tags results refl

list_secrets-Listed_example : All (Listed client (97 ∷ []) tags results) items
unfolding list_secrets
list_secrets-Listed_example = list_secrets-Listed client (97 ∷ []) tags items results refl refl

-- The id k/n/v of a key on P-256
abbrev key_id : KeyId
key_id = 107 ∷ 47 ∷ 110 ∷ 47 ∷ 118 ∷ []

abbrev bundle : KeyBundle
bundle = record { kid = some key_id; kty = ec; crv = p256; x = none; y = none }

-- A vault that signs by giving back the value, with hashes that are the first byte
abbrev signing : SigningVault
signing = record {
  vault = record {
    new_client = ok tt;
    get_key = λ name version. ok bundle;
    first_page = λ k. panic;
    next_pages = λ k. [];
  };
  sign = λ name version algorithm value. ok (some value);
  verify = λ name version algorithm signature digest. ok (some true);
  encode = λ b. b;
  decode = λ b. ok b;
  sha256 = λ b. 2 ∷ b;
  sha384 = λ b. 3 ∷ b;
}

signing-Verifies : Verifies signing
signing-Verifies name version algorithm value r s h d = refl

hash_and_sign-verifies_example :
    (key : KeyBundle) × (digest : List ℕ) × (name : KeyId) × (version : KeyId) × (get_key_by_kid
        signing.vault key_id
      ≡ ok key)
    × (key.kty ≡ ec)
    × (((key.crv ≡ p256) × (digest ≡ signing.sha256 (9 ∷ [])))
        ⊎ ((key.crv ≡ p384) × (digest ≡ signing.sha384 (9 ∷ []))))
    × (get_key_name key_id ≡ ok name)
    × (get_key_version key_id ≡ ok version)
    × (vault_verify signing (2 ∷ 9 ∷ []) digest name version es384 ≡ ok true)
unfolding hash_and_sign
hash_and_sign-verifies_example =
    hash_and_sign-verifies signing signing-Verifies (9 ∷ []) key_id es384 (2 ∷ 9 ∷ []) refl

abbrev signer : CoseSigner
signer = record { key_name = 110 ∷ []; alg = es384; key = bundle; location_identifier = 108 ∷ [] }

signer_sign-es384_test :
    (kid : KeyId) × (key : KeyBundle) × (digest : List ℕ) × (name : KeyId) × (version : KeyId)
    × (signer.key.kid ≡ some kid)
    × (get_key_by_kid signing.vault kid ≡ ok key)
    × (((key.crv ≡ p256) × (digest ≡ signing.sha256 (9 ∷ [])))
        ⊎ ((key.crv ≡ p384) × (digest ≡ signing.sha384 (9 ∷ []))))
    × (get_key_name kid ≡ ok name)
    × (get_key_version kid ≡ ok version)
    × (vault_verify signing (2 ∷ 9 ∷ []) digest name version es384 ≡ ok true)
unfolding new_cose_signer signer_sign
signer_sign-es384_test =
    signer_sign-es384 signing signing-Verifies (108 ∷ []) (110 ∷ []) signer (9 ∷ []) (2 ∷ 9 ∷ [])
      refl refl

key_identifier-parts_test : key_identifier signer ≡ ok (108 ∷ 58 ∷ 110 ∷ 47 ∷ 118 ∷ [])
unfolding is_part
key_identifier-parts_test =
    key_identifier-parts signer (107 ∷ []) (110 ∷ []) (118 ∷ []) refl refl refl
