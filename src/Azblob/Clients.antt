-- ===== src/Azblob/Clients.antt =====
-- How a Storer is made: azblob/reader.go, azblob/readeroptions.go, azblob/storer.go,
-- azblob/storerazurite.go and azblob/credentials.go, over Azure's SDK, which is not part of this
-- repository. A text is the list of its bytes.
pub mod Laws
use go_rkvstcommon.Prelude.{
  ℕ, String, Bool, true, false, ◌||◌, Option, none, some, List, [], ◌∷◌, ◌++◌, nat_eq,
  if◌then◌else◌,
}
use go_rkvstcommon.Prelude.Outcome.{Outcome, ok, err, panic, and_then}
use go_rkvstcommon.Azblob.Error.{GoError, plain}

abbrev pub Text : Type 0
Text = List ℕ

abbrev pub is_empty : Text → Bool
is_empty [] = true
is_empty (c ∷ s) = false

-- Azure's SDK, with its credentials C (a shared key) and D (of the environment), its authorizers
-- A, its service clients S and its container clients K
pub record AzureSdk (A C D S K : Type 0) : Type 0 where
  pub service_with_no_credential : Text → Outcome GoError S
  pub service_with_default : Text → D → Outcome GoError S
  pub service_with_shared_key : Text → C → Outcome GoError S
  pub container_client : S → Text → Outcome GoError K
  pub default_credential : Outcome GoError D
  pub shared_key_credential : Text → Text → Outcome GoError C
  -- AccountName of a credential, or of nil
  pub account_name_of : Option C → Outcome GoError Text
  pub authorizer : Outcome GoError A
  -- ListKeys for a subscription, a resource group and an account: the keys, and their values
  pub list_keys : A → Text → Text → Text → Outcome GoError (Option (List (Option Text)))

-- type Storer struct, as it is made; none is a nil pointer
pub record StorerClient (C S K : Type 0) : Type 0 where
  pub account_name : Text
  pub resource_group : Text
  pub subscription : Text
  pub container : Text
  pub credential : Option C
  pub root_url : Text
  pub container_url : Text
  pub service : S
  pub container_of : Option K

-- type ReaderOptions struct
pub record ReaderOptions : Type 0 where
  pub account_name : Text
  pub container : Text

-- WithAccountName
abbrev pub with_account_name : Text → ReaderOptions → ReaderOptions
with_account_name account_name a = record { account_name = account_name; container = a.container }

-- WithContainer
abbrev pub with_container : Text → ReaderOptions → ReaderOptions
with_container container a = record { account_name = a.account_name; container = container }

apply_reader_options : List (ReaderOptions → ReaderOptions) → ReaderOptions → ReaderOptions
apply_reader_options [] a = a
apply_reader_options (option ∷ options) a = apply_reader_options options (option a)

-- ParseReaderOptions
unfoldable pub parse_reader_options : List (ReaderOptions → ReaderOptions) → ReaderOptions
unfolding apply_reader_options
parse_reader_options options =
    apply_reader_options options (record { account_name = []; container = [] })

-- type DevConfig struct
pub record DevConfig : Type 0 where
  pub account_name : Text
  pub key : Text
  pub url : Text

-- type Secrets struct of the package secrets
pub record Secrets : Type 0 where
  pub account : Text
  pub url : Text
  pub key : Text

-- strings.TrimSuffix(s, "/")
unfoldable pub trim_slash : Text → Text
trim_slash [] = []
trim_slash (c ∷ []) = if nat_eq c 47 then [] else c ∷ []
trim_slash (c ∷ d ∷ s) = c ∷ trim_slash (d ∷ s)

-- fmt.Sprintf("https://%s.blob.core.windows.net/", accountName)
abbrev pub blob_url : Text → Text
blob_url account_name =
    (104 ∷ 116 ∷ 116 ∷ 112 ∷ 115 ∷ 58 ∷ 47 ∷ 47 ∷ [])
    ++ account_name
    ++ 46 ∷ 98 ∷ 108 ∷ 111 ∷ 98 ∷ 46 ∷ 99 ∷ 111 ∷ 114 ∷ 101 ∷ 46 ∷ 119 ∷ 105 ∷ 110 ∷ 100 ∷ 111 ∷ 119
      ∷ 115 ∷ 46 ∷ 110 ∷ 101 ∷ 116 ∷ 47 ∷ []

-- azurite-emulator, for the resource group and the subscription
abbrev pub azurite_emulator : Text
azurite_emulator =
    97 ∷ 122 ∷ 117 ∷ 114 ∷ 105 ∷ 116 ∷ 101 ∷ 45 ∷ 101 ∷ 109 ∷ 117 ∷ 108 ∷ 97 ∷ 116 ∷ 111 ∷ 114 ∷ []

-- devVarWithDefault, of what the environment has
abbrev pub dev_var_with_default : Option Text → Text → Text
dev_var_with_default none default_value = default_value
dev_var_with_default (some value) default_value = value

module _ {A C D S K : Type 0} (sdk : AzureSdk A C D S K) where
  -- The part of NewReaderNoAuth and NewReaderDefaultAuth after the service client
  unfoldable pub with_service : Text → ReaderOptions → S → Outcome GoError (StorerClient C S K)
  with_service url o service =
      if is_empty o.container
      then ok (record {
        account_name = o.account_name;
        resource_group = [];
        subscription = [];
        container = o.container;
        credential = none;
        root_url = url;
        container_url = [];
        service = service;
        container_of = none;
      })
      else and_then (sdk.container_client service o.container) λ k. ok (record {
        account_name = o.account_name;
        resource_group = [];
        subscription = [];
        container = o.container;
        credential = none;
        root_url = url;
        container_url = url ++ o.container;
        service = service;
        container_of = some k;
      })

  -- NewReaderNoAuth
  unfoldable pub new_reader_no_auth :
      Text → List (ReaderOptions → ReaderOptions) → Outcome GoError (StorerClient C S K)
  unfolding parse_reader_options with_service
  new_reader_no_auth url opts =
      if is_empty url
      then err (plain "url is a required parameter and cannot be empty")
      else and_then (sdk.service_with_no_credential url)
          (with_service url (parse_reader_options opts))

  -- NewReaderDefaultAuth
  unfoldable pub new_reader_default_auth :
      Text → List (ReaderOptions → ReaderOptions) → Outcome GoError (StorerClient C S K)
  unfolding parse_reader_options with_service
  new_reader_default_auth url opts =
      if is_empty url
      then err (plain "url is a required parameter and cannot be empty")
      else and_then sdk.default_credential λ credentials.
        and_then (sdk.service_with_default url credentials)
          (with_service url (parse_reader_options opts))

  -- The clients of New and NewDev for a shared key
  unfoldable pub with_shared_key :
      Text → Text → Text → Text → Text → C → Outcome GoError (StorerClient C S K)
  with_shared_key account_name resource_group subscription container root_url credential =
      and_then (sdk.service_with_shared_key root_url credential) λ service.
        and_then (sdk.container_client service container) λ k. ok (record {
          account_name = account_name;
          resource_group = resource_group;
          subscription = subscription;
          container = container;
          credential = some credential;
          root_url = root_url;
          container_url = root_url ++ container;
          service = service;
          container_of = some k;
        })

  -- NewDev
  unfoldable pub new_dev : DevConfig → Text → Outcome GoError (StorerClient C S K)
  unfolding trim_slash with_shared_key
  new_dev cfg container =
      if is_empty cfg.account_name || is_empty cfg.key || is_empty cfg.url
      then err (plain "missing connection configuration variables")
      else and_then (sdk.shared_key_credential cfg.account_name cfg.key) λ cred.
        with_shared_key cfg.account_name azurite_emulator azurite_emulator container
          (trim_slash cfg.url ++ 47 ∷ []) cred

  -- *((*blobkeys.Keys)[0]).Value, after the test that there is a key
  first_key : Option (List (Option Text)) → Outcome GoError Text
  first_key none = panic
  first_key (some []) = err (plain "no keys found for storage account")
  first_key (some (none ∷ keys)) = panic
  first_key (some (some key ∷ keys)) = ok key

  -- The end of credentials, which logs AccountName of the credential before it returns the error
  logged_credential : Secrets → Outcome GoError C → Outcome GoError (Secrets × C)
  logged_credential secret (ok c) = and_then (sdk.account_name_of (some c)) λ _. ok (secret, c)
  logged_credential secret (err e) = and_then (sdk.account_name_of none) λ _. err e
  logged_credential secret panic = panic

  -- credentials
  unfoldable pub credentials : Text → Text → Text → Outcome GoError (Secrets × C)
  unfolding first_key logged_credential
  credentials account_name resource_group subscription =
      if is_empty account_name || is_empty resource_group || is_empty subscription
      then err (plain "missing authentication variables")
      else and_then sdk.authorizer λ authorizer.
        and_then (sdk.list_keys authorizer subscription resource_group account_name) λ keys.
          and_then (first_key keys) λ key.
            logged_credential
              (record { account = account_name; url = blob_url account_name; key = key })
              (sdk.shared_key_credential account_name key)

  -- New
  unfoldable pub new_storer : Text → Text → Text → Text → Outcome GoError (StorerClient C S K)
  unfolding credentials with_shared_key
  new_storer account_name resource_group subscription container =
      and_then (credentials account_name resource_group subscription) λ found.
        if is_empty container
        then err (plain "storer: container is unspecified")
        else with_shared_key account_name resource_group subscription container found.0.url found.1
