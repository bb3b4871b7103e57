-- ===== src/Secrets.antt =====
-- secrets/secrets.go. os.ReadFile and json.Unmarshal are parameters; the latter gives `none` for JSON's
-- null, which sets the pointer that it decodes into to nil.
use go_rkvstcommon.Prelude.{ℕ, ◌≡◌, ap, ◌∙◌, arith, String, Option, none, some, List}
use go_rkvstcommon.Prelude.Outcome.{Outcome, ok, panic, and_then, and_then-ok, ok-injective}
use go_rkvstcommon.Azblob.Clients.{Secrets}

-- The end of New, which logs the account and the URL of what was decoded
logged_secrets : Option Secrets → Outcome String Secrets
logged_secrets none = panic
logged_secrets (some s) = ok s

logged_secrets-ok : (o : Option Secrets) (s : Secrets) → logged_secrets o ≡ ok s → o ≡ some s
unfolding logged_secrets
logged_secrets-ok none s h = cc
logged_secrets-ok (some t) s h = ap some (ok-injective h)

module _ (read_file : String → Outcome String (List ℕ))
    (unmarshal : List ℕ → Outcome String (Option Secrets)) where
  -- New
  new_secrets : String → Outcome String Secrets
  unfolding logged_secrets
  new_secrets secrets_file =
      and_then (read_file secrets_file) λ text. and_then (unmarshal text) logged_secrets

  -- Secrets that New returns are those that the file's text decodes to.
  new_secrets-ok :
      (secrets_file : String) (s : Secrets)
      → new_secrets secrets_file ≡ ok s
      → (text : List ℕ) × (read_file secrets_file ≡ ok text) × (unmarshal text ≡ ok (some s))
  unfolding new_secrets logged_secrets
  new_secrets-ok secrets_file s h =
      let (text, e, k) = and_then-ok (read_file secrets_file) _ s h in
      let (decoded, d, m) = and_then-ok (unmarshal text) logged_secrets s k in
      (text, e, d ∙ ap ok (logged_secrets-ok decoded s m))

  -- A file that holds null makes New panic.
  new_secrets-null :
      (secrets_file : String) (text : List ℕ)
      → read_file secrets_file ≡ ok text
      → unmarshal text ≡ ok none
      → new_secrets secrets_file ≡ panic
  unfolding new_secrets logged_secrets
  new_secrets-null secrets_file text e d = ground (arith, e, d)
