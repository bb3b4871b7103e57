-- ===== src/Azkeys/Scenarios.antt =====
-- The theorems of azkeys on a small vault: the properties' hypotheses hold there.
use go_rkvstcommon.Prelude.{ℕ, ◌≡◌, ◌≢◌, refl, String, Option, none, some, List, [], ◌∷◌, ◌++◌}
use go_rkvstcommon.Prelude.Outcome.{ok, err}
use go_rkvstcommon.Tracing.Pod.{Text}
use go_rkvstcommon.Azkeys.Token.{query_escape, token_url, get, close_body, Http, Json, oauth_token}
use go_rkvstcommon.Azkeys.Token.Laws.{Decoded, oauth_token-closes}
use go_rkvstcommon.Azkeys.KeyVault.{KeyId, Vault, get_key_versions_keys}
use go_rkvstcommon.Azkeys.KeyVault.Pages.{
  kids, kids_of_pages, ReadsAll, get_key_versions_keys-ReadsAll,
}

-- The key id k/n/v
abbrev key_id : KeyId
key_id = 107 ∷ 47 ∷ 110 ∷ 47 ∷ 118 ∷ []

-- The id of another version, k/n/w
abbrev other_id : KeyId
other_id = 107 ∷ 47 ∷ 110 ∷ 47 ∷ 119 ∷ []

-- A vault whose keys are their versions, with two pages
abbrev vault : Vault KeyId
vault = record {
  new_client = ok tt;
  get_key = λ name version. ok version;
  first_page = λ k. ok (some key_id ∷ none ∷ []);
  next_pages = λ k. ok (some other_id ∷ []) ∷ [];
}

get_key_versions_keys-ReadsAll_example :
    (items : List (Option KeyId)) × (vault.first_page (110 ∷ []) ≡ ok items)
    × ReadsAll vault
        (kids items ++ kids_of_pages (vault.next_pages (110 ∷ [])))
        ((118 ∷ []) ∷ (119 ∷ []) ∷ [])
unfolding get_key_versions_keys
get_key_versions_keys-ReadsAll_example =
    get_key_versions_keys-ReadsAll vault (110 ∷ []) ((118 ∷ []) ∷ (119 ∷ []) ∷ []) refl

-- A client whose answer is a response with a body and the status 200
abbrev http : Http
http = record { answer = λ url. (some (record { status_code = 200; body = some 4 }), none) }

abbrev json : Json
json = record { access_token = λ b. ok (116 ∷ []) }

-- a/b c is asked for as a%2Fb+c.
escaped : query_escape (97 ∷ 47 ∷ 98 ∷ 32 ∷ 99 ∷ []) ≡ 97 ∷ 37 ∷ 50 ∷ 70 ∷ 98 ∷ 43 ∷ 99 ∷ []
unfolding query_escape
escaped = refl

oauth_token-closes_example :
    ((oauth_token http json (97 ∷ []) []).1 ≡ get (token_url (97 ∷ [])) ∷ close_body 4 ∷ [])
    × ((c : ℕ) (token : Text)
        → (oauth_token http json (97 ∷ []) []).0 ≡ ok (c ∷ token)
        → Decoded http json (token_url (97 ∷ [])) (c ∷ token))
    × ((e : String) → (oauth_token http json (97 ∷ []) []).0 ≢ err e)
oauth_token-closes_example = oauth_token-closes http json (97 ∷ []) []
