-- ===== src/Azkeys/Secrets.antt =====
-- azkeys/secretvault.go, over the SDK of Azure key vaults, which is not part of this repository. A
-- path is the list of its bytes, the other texts are strings. A tag whose value is nil is none.
pub mod Laws
pub mod Listed
use go_rkvstcommon.Prelude.{
  ℕ, String, ◌==◌, Bool, true, false, ◌&&◌, Option, none, some, List, [], ◌∷◌, nat_eq,
  if◌then◌else◌,
}
use go_rkvstcommon.Prelude.Outcome.{Outcome, ok, err, panic, and_then}
use go_rkvstcommon.Prelude.Dict.{string_key, Dict, lookup}
use go_rkvstcommon.Azkeys.KeyVault.{VaultError, wrapped, wrap}

-- type SecretEntry struct
pub record SecretEntry : Type 0 where
  pub identity : List ℕ
  pub vault_identity : String
  pub tags : Dict String String
  pub value : Option String

-- keyvault.SecretBundle and keyvault.SecretItem
pub record SecretBundle : Type 0 where
  pub id : Option String
  pub bundle_value : Option String
  pub bundle_tags : Dict String (Option String)

pub record SecretItem : Type 0 where
  pub id : Option String
  pub item_tags : Dict String (Option String)

-- The SDK: its client, GetSecret, and the iterator of GetSecretsComplete as its items, each with the
-- error of the NextWithContext after it; and the path of url.Parse, where none is its error.
pub record SecretClient : Type 0 where
  pub new_client : Outcome VaultError (Unit {0})
  pub get_secret : List ℕ → Outcome VaultError SecretBundle
  pub get_secrets : Outcome VaultError (List (SecretItem × Option VaultError))
  pub parse_path : String → Option (List ℕ)

-- *p, of a pointer to a string
abbrev pub deref : Option String → Outcome VaultError String
deref none = panic
deref (some s) = ok s

-- for k, v := range tags { if v != nil { t[k] = *v } }, of tags whose keys differ
unfoldable pub present_tags : Dict String (Option String) → Dict String String
present_tags [] = []
present_tags ((k, none) ∷ m) = present_tags m
present_tags ((k, some v) ∷ m) = (k, v) ∷ present_tags m

-- strings.HasPrefix(s, prefix)
unfoldable pub has_prefix : List ℕ → List ℕ → Bool
has_prefix s [] = true
has_prefix [] (c ∷ prefix) = false
has_prefix (d ∷ s) (c ∷ prefix) = let rest = has_prefix s prefix in nat_eq d c && rest

-- s after the prefix
unfoldable pub after_prefix : List ℕ → List ℕ → List ℕ
after_prefix s [] = s
after_prefix [] (c ∷ prefix) = []
after_prefix (d ∷ s) (c ∷ prefix) = after_prefix s prefix

-- strings.TrimPrefix(s, prefix)
unfoldable pub trim_prefix : List ℕ → List ℕ → List ℕ
unfolding has_prefix after_prefix
trim_prefix s prefix = if has_prefix s prefix then after_prefix s prefix else s

-- /secrets/
abbrev pub secrets_prefix : List ℕ
secrets_prefix = 47 ∷ 115 ∷ 101 ∷ 99 ∷ 114 ∷ 101 ∷ 116 ∷ 115 ∷ 47 ∷ []

-- Whether a tag is there, with this value
abbrev pub tag_is : String → Option (Option String) → Bool
tag_is wanted none = false
tag_is wanted (some none) = false
tag_is wanted (some (some v)) = wanted == v

-- The loop of ListSecrets over the tags asked for
unfoldable pub tags_match : Dict String String → Dict String (Option String) → Bool
unfolding lookup
tags_match [] item_tags = true
tags_match ((k, wanted) ∷ tags) item_tags =
    let rest = tags_match tags item_tags in
    if tag_is wanted (lookup k item_tags) then rest else false

-- The entry of an item, which has no value
unfoldable pub entry_of : List ℕ → String → SecretItem → SecretEntry
unfolding present_tags
entry_of id vault_identity item = record {
  identity = id;
  vault_identity = vault_identity;
  tags = present_tags item.item_tags;
  value = none;
}

unfoldable pub same_bytes : List ℕ → List ℕ → Bool
same_bytes [] [] = true
same_bytes [] (c ∷ s) = false
same_bytes (c ∷ s) [] = false
same_bytes (c ∷ s) (d ∷ t) = let rest = same_bytes s t in nat_eq c d && rest

-- results[id] = entry
abbrev pub Results : Type 0
Results = List (List ℕ × SecretEntry)

unfoldable pub put_result : List ℕ → SecretEntry → Results → Results
unfolding same_bytes
put_result id entry [] = (id, entry) ∷ []
put_result id entry ((j, e) ∷ m) =
    let later = put_result id entry m in if same_bytes j id then (id, entry) ∷ m else (j, e) ∷ later

module _ (client : SecretClient) where
  -- (*SecretVault).ReadSecret
  unfoldable pub read_secret : List ℕ → Outcome VaultError SecretEntry
  unfolding present_tags
  read_secret id = and_then client.new_client λ _. and_then (wrap (client.get_secret id)) λ secret.
      and_then (deref secret.id) λ vault_identity. ok (record {
        identity = id;
        vault_identity = vault_identity;
        tags = present_tags secret.bundle_tags;
        value = secret.bundle_value;
      })

  -- (*SecretVault).GetOrgKeyHex
  unfoldable pub get_org_key_hex : List ℕ → Outcome VaultError (Option String)
  unfolding read_secret
  get_org_key_hex id = and_then (read_secret id) λ secret. ok secret.value

  -- The results after an item, of its URL's path
  unfoldable pub with_item :
      List ℕ → Dict String String → String → Option (List ℕ) → SecretItem → Results → Results
  unfolding trim_prefix has_prefix tags_match put_result entry_of
  with_item prefix tags vault_identity none item results = results
  with_item prefix tags vault_identity (some path) item results =
      if has_prefix (trim_prefix path secrets_prefix) prefix
      then (if tags_match tags item.item_tags
          then put_result (trim_prefix path secrets_prefix)
              (entry_of (trim_prefix path secrets_prefix) vault_identity item) results
          else results)
      else results

  abbrev next_error : Option VaultError → Outcome VaultError Results → Outcome VaultError Results
  next_error none rest = rest
  next_error (some e) rest = err e

  -- The loop of ListSecrets: every branch ends with NextWithContext, whose error it returns.
  unfoldable pub list_loop :
      List ℕ
      → Dict String String
      → List (SecretItem × Option VaultError)
      → Results
      → Outcome VaultError Results
  unfolding with_item
  list_loop prefix tags [] results = ok results
  list_loop prefix tags ((item, next) ∷ items) results = and_then (deref item.id) λ id.
      next_error next
        (list_loop prefix tags items (with_item prefix tags id (client.parse_path id) item results))

  -- (*SecretVault).ListSecrets
  unfoldable pub list_secrets : List ℕ → Dict String String → Outcome VaultError Results
  unfolding list_loop
  list_secrets prefix tags =
      and_then client.new_client
        λ _. and_then (wrap client.get_secrets) λ items. list_loop prefix tags items []
