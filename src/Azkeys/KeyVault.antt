-- ===== src/Azkeys/KeyVault.antt =====
-- azkeys/keyvault.go: reading keys by their ids. A key id is the list of its bytes.
pub mod Laws
pub mod Pages
use go_rkvstcommon.Prelude.{
  ℕ, zero, suc, Bool, Option, none, some, List, [], ◌∷◌, ◌++◌, nat_eq, if◌then◌else◌,
}
use go_rkvstcommon.Prelude.Split.{split}
use go_rkvstcommon.Prelude.Outcome.{Outcome, ok, err, panic, and_then}

abbrev pub KeyId : Type 0
KeyId = List ℕ

-- '/'
abbrev pub slash : ℕ
slash = 47

-- An error of the key vault's SDK, and fmt.Errorf with a %w
pub data VaultError : Type 0 where
  sdk : ℕ → VaultError
  wrapped : VaultError → VaultError

-- kidParts[len(kidParts)-1]
abbrev pub last_part : List KeyId → Outcome VaultError KeyId
last_part [] = panic
last_part (p ∷ []) = ok p
last_part (p ∷ q ∷ parts) = last_part (q ∷ parts)

-- kidParts[len(kidParts)-2]
abbrev pub last_but_one : List KeyId → Outcome VaultError KeyId
last_but_one [] = panic
last_but_one (p ∷ []) = panic
last_but_one (p ∷ q ∷ []) = ok p
last_but_one (p ∷ q ∷ r ∷ parts) = last_but_one (q ∷ r ∷ parts)

-- GetKeyVersion
unfoldable pub get_key_version : KeyId → Outcome VaultError KeyId
unfolding split
get_key_version key_id = last_part (split slash key_id)

-- GetKeyName
unfoldable pub get_key_name : KeyId → Outcome VaultError KeyId
unfolding split
get_key_name key_id = last_but_one (split slash key_id)

abbrev pub wrap : {A : Type 0} → Outcome VaultError A → Outcome VaultError A
wrap (ok a) = ok a
wrap (err e) = err (wrapped e)
wrap panic = panic

-- The SDK's client, with its key bundles K: GetKey of a name and a version, and the pages of
-- GetKeyVersions, of which each gives the kids of its items or fails.
pub record Vault (K : Type 0) : Type 0 where
  pub new_client : Outcome VaultError (Unit {0})
  pub get_key : KeyId → KeyId → Outcome VaultError K
  pub first_page : KeyId → Outcome VaultError (List (Option KeyId))
  pub next_pages : KeyId → List (Outcome VaultError (List (Option KeyId)))

module _ {K : Type 0} (vault : Vault K) where
  -- (*KeyVault).GetKeyByKID
  unfoldable pub get_key_by_kid : KeyId → Outcome VaultError K
  unfolding get_key_name get_key_version
  get_key_by_kid key_id = and_then vault.new_client λ _.
      and_then (get_key_name key_id)
        λ name. and_then (get_key_version key_id) λ version. wrap (vault.get_key name version)

  -- (*KeyVault).getKeysFromVersions
  unfoldable pub get_keys_from_versions : List (Option KeyId) → Outcome VaultError (List K)
  unfolding get_key_by_kid
  get_keys_from_versions [] = ok []
  get_keys_from_versions (none ∷ items) = get_keys_from_versions items
  get_keys_from_versions (some kid ∷ items) =
      and_then (wrap (get_key_by_kid kid))
        λ key. and_then (get_keys_from_versions items) λ keys. ok (key ∷ keys)

  -- The loop of GetKeyVersionsKeys over the pages that are left
  unfoldable pub next_keys :
      List K → List (Outcome VaultError (List (Option KeyId))) → Outcome VaultError (List K)
  unfolding get_keys_from_versions
  next_keys keys [] = ok keys
  next_keys keys (page ∷ pages) =
      and_then page
        λ items. and_then (get_keys_from_versions items) λ more. next_keys (keys ++ more) pages

  -- (*KeyVault).GetKeyVersionsKeys
  unfoldable pub get_key_versions_keys : KeyId → Outcome VaultError (List K)
  unfolding get_keys_from_versions next_keys
  get_key_versions_keys key_id = and_then vault.new_client λ _.
      and_then (wrap (vault.first_page key_id)) λ items.
        and_then (get_keys_from_versions items) λ keys. next_keys keys (vault.next_pages key_id)
