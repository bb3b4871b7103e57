-- ===== src/Azkeys/Authorizer.antt =====
-- The authorizers of azkeys/secretvault.go, over the environment and the authorizers' library, which
-- are parameters, with the lines that they write to the debug log.
use Prim.Native.String.{◌++◌ as append}
use go_rkvstcommon.Prelude.{◌≡◌, refl, String, Option, none, some, List, [], ◌∷◌, ◌++◌}
use go_rkvstcommon.Prelude.Outcome.{Outcome}

-- os.LookupEnv
abbrev Environment : Type 0
Environment = String → Option String

value_or_notset : Option String → String
value_or_notset none = "<notset>"
value_or_notset (some val) = val

-- getWithDefault
unfoldable get_with_default : Environment → String → String
unfolding value_or_notset
get_with_default env key = value_or_notset (env key)

-- A line that names a variable and its value
abbrev variable_line : Environment → String → String
variable_line env key = append key (append ": " (get_with_default env key))

-- resourceName
abbrev resource_name : String
resource_name = "https://vault.azure.net"

-- DefaultAuthorizer, where `bearer` is NewBearerAuthorizer of the provider of tokens for a resource
abbrev default_authorizer : {A : Type 0} → (String → A) → A
default_authorizer bearer = bearer resource_name

module _ {A : Type 0} (env : Environment) where
  -- EnvironmentAuthorizer, where `from_environment` is what auth.NewAuthorizerFromEnvironment
  -- returns, and the lines it logs
  unfoldable environment_authorizer : Outcome String A → Outcome String A × List String
  unfolding get_with_default
  environment_authorizer from_environment = (
    from_environment,
    "Using env authorizer for keyvault"
        ∷ variable_line env "AZURE_TENANT_ID"
        ∷ variable_line env "AZURE_CLIENT_ID"
        ∷ variable_line env "AZURE_CLIENT_SECRET"
        ∷ [],
  )

  -- NewKvClient: the authorizer of the client, by the one that is given
  unfoldable new_kv_client : Option A → Outcome String A → Outcome String A × List String
  unfolding environment_authorizer
  new_kv_client (some authorizer) from_environment = (Outcome.ok authorizer, [])
  new_kv_client none from_environment = environment_authorizer from_environment

  -- Where no authorizer is given, the client's is that of the environment, whatever DefaultAuthorizer
  -- would be, and the client secret of the environment is logged.
  new_kv_client-logs_secret :
      (from_environment : Outcome String A) (secret : String)
      → env "AZURE_CLIENT_SECRET" ≡ some secret
      → ((new_kv_client none from_environment).0 ≡ from_environment)
        × (before : List String) × ((new_kv_client none from_environment).1
            ≡ before ++ append "AZURE_CLIENT_SECRET" (append ": " secret) ∷ [])
  unfolding new_kv_client get_with_default
  new_kv_client-logs_secret from_environment secret e = (
    refl,
    "Using env authorizer for keyvault"
        ∷ variable_line env "AZURE_TENANT_ID"
        ∷ variable_line env "AZURE_CLIENT_ID"
        ∷ [],
    rw e refl,
  )
