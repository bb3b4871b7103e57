-- ===== src/Azblob/Accounts.antt =====
-- The theorems on how Storers are made, on a small SDK: the properties' hypotheses hold there.
use go_rkvstcommon.Prelude.{◌≡◌, refl, Option, none, some, List, [], ◌∷◌, nat_eq, if◌then◌else◌}
use go_rkvstcommon.Prelude.Outcome.{Outcome, ok, err, panic}
use go_rkvstcommon.Azblob.Error.{GoError, plain}
use go_rkvstcommon.Azblob.Clients.{
  Text, AzureSdk, StorerClient, ReaderOptions, parse_reader_options, with_container,
  with_account_name, new_reader_no_auth, new_reader_default_auth, new_dev, new_storer, DevConfig,
}
use go_rkvstcommon.Azblob.Clients.Laws.{
  Reads, new_reader_no_auth-Reads, new_reader_default_auth-Reads, new_dev-slash, new_storer-panic,
}

-- An SDK whose clients are their texts, and that takes no key but 1
abbrev key_of : Text → Text → Outcome GoError Text
key_of account (c ∷ []) = if nat_eq c 1 then ok account else err (plain "decode account key")
key_of account [] = err (plain "decode account key")
key_of account (c ∷ d ∷ key) = err (plain "decode account key")

abbrev name_of : Option Text → Outcome GoError Text
name_of none = panic
name_of (some account) = ok account

abbrev sdk : AzureSdk Text Text Text Text Text
sdk = record {
  service_with_no_credential = λ url. ok url;
  service_with_default = λ url d. ok url;
  service_with_shared_key = λ url c. ok url;
  container_client = λ s container. ok container;
  default_credential = ok [];
  shared_key_credential = key_of;
  account_name_of = name_of;
  authorizer = ok [];
  list_keys = λ a subscription resource_group account. ok (some (some (2 ∷ []) ∷ []));
}

abbrev options : List (ReaderOptions → ReaderOptions)
options = with_account_name (97 ∷ []) ∷ with_container (99 ∷ []) ∷ []

abbrev reader : StorerClient Text Text Text
reader = record {
  account_name = 97 ∷ [];
  resource_group = [];
  subscription = [];
  container = 99 ∷ [];
  credential = none;
  root_url = 117 ∷ [];
  container_url = 117 ∷ 99 ∷ [];
  service = 117 ∷ [];
  container_of = some (99 ∷ []);
}

new_reader_no_auth-Reads_test : Reads (117 ∷ []) (parse_reader_options options) reader
unfolding new_reader_no_auth
new_reader_no_auth-Reads_test = new_reader_no_auth-Reads sdk (117 ∷ []) options reader refl

new_reader_default_auth-Reads_test : Reads (117 ∷ []) (parse_reader_options options) reader
unfolding new_reader_default_auth
new_reader_default_auth-Reads_test =
    new_reader_default_auth-Reads sdk (117 ∷ []) options reader refl

new_dev-slash_test :
    new_dev sdk (record { account_name = 97 ∷ []; key = 1 ∷ []; url = 117 ∷ 47 ∷ [] }) (99 ∷ [])
    ≡ new_dev sdk (record { account_name = 97 ∷ []; key = 1 ∷ []; url = 117 ∷ [] }) (99 ∷ [])
unfolding go_rkvstcommon.Azblob.Clients.trim_slash
new_dev-slash_test = new_dev-slash sdk (97 ∷ []) (1 ∷ []) (117 ∷ []) (99 ∷ []) refl refl

new_storer-panic_test : new_storer sdk (97 ∷ []) (114 ∷ []) (115 ∷ []) (99 ∷ []) ≡ panic
new_storer-panic_test =
    new_storer-panic sdk (97 ∷ []) (114 ∷ []) (115 ∷ []) (99 ∷ []) (2 ∷ []) [] []
      (plain "decode account key") refl refl refl refl refl
