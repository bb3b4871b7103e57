-- ===== src/Azkeys/KeyVault/Laws.antt =====
-- Names and versions in key ids of azkeys/keyvault.go.
use go_rkvstcommon.Prelude.{true, ◌≡◌, refl, ap, ◌∙◌, List, [], ◌∷◌, ◌++◌}
use go_rkvstcommon.Prelude.Split.{split, is_part, split-part, split-append}
use go_rkvstcommon.Prelude.Outcome.{ok, panic}
use go_rkvstcommon.Azkeys.KeyVault.{
  KeyId, slash, last_part, last_but_one, get_key_version, get_key_name,
}

last-append : (p : List KeyId) (n v : KeyId) → last_part (p ++ n ∷ v ∷ []) ≡ ok v
last-append [] n v = refl
last-append (x ∷ []) n v = refl
last-append (x ∷ y ∷ p) n v = last-append (y ∷ p) n v

last_but_one-append : (p : List KeyId) (n v : KeyId) → last_but_one (p ++ n ∷ v ∷ []) ≡ ok n
last_but_one-append [] n v = refl
last_but_one-append (x ∷ []) n v = refl
last_but_one-append (x ∷ y ∷ []) n v = refl
last_but_one-append (x ∷ y ∷ z ∷ p) n v = last_but_one-append (y ∷ z ∷ p) n v

-- Of a key id that is any prefix, a name and a version, with a slash before each of the last two and
-- none in them, GetKeyName gets the name and GetKeyVersion the version.
pub get_key_name-parts :
    (prefix name version : KeyId)
    → is_part slash name ≡ true
    → is_part slash version ≡ true
    → (get_key_name (prefix ++ slash ∷ (name ++ slash ∷ version)) ≡ ok name)
      × (get_key_version (prefix ++ slash ∷ (name ++ slash ∷ version)) ≡ ok version)
unfolding get_key_name get_key_version
get_key_name-parts prefix name version a b =
    let parts : split slash (prefix ++ slash ∷ (name ++ slash ∷ version))
        ≡ split slash prefix ++ name ∷ version ∷ [] =
      split-append slash prefix (name ++ slash ∷ version)
      ∙ ap (λ x. split slash prefix ++ x) (split-append slash name version)
      ∙ ap (λ x. split slash prefix ++ (x ++ split slash version)) (split-part slash name a)
      ∙ ap (λ x. split slash prefix ++ name ∷ x) (split-part slash version b) in
    (
      ap last_but_one parts ∙ last_but_one-append (split slash prefix) name version,
      ap last_part parts ∙ last-append (split slash prefix) name version,
    )

-- Of a key id without a slash GetKeyName panics.
pub get_key_name-panic :
    (key_id : KeyId) → is_part slash key_id ≡ true → get_key_name key_id ≡ panic
unfolding get_key_name
get_key_name-panic key_id a = ap last_but_one (split-part slash key_id a)
