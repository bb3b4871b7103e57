-- ===== src/Azkeys/Secrets/Listed.antt =====
-- That ListSecrets of azkeys/secretvault.go leaves out no secret that is asked for.
use mathlib.Core.Path.{subst}
use go_rkvstcommon.Prelude.{
  ℕ, ◌≡◌, refl, sym, ap, ◌∙◌, String, Bool, true, false, ◌&&◌, Option, none, some, List, [], ◌∷◌,
  All, arith, inl, inr, Bool-cases, if◌then◌else◌,
}
use go_rkvstcommon.Prelude.Outcome.{ok, ok-injective, and_then-ok}
use go_rkvstcommon.Prelude.Dict.{string_key, Dict}
use go_rkvstcommon.Azkeys.KeyVault.{VaultError, wrap}
use go_rkvstcommon.Azkeys.KeyVault.Pages.{wrap-ok}
use go_rkvstcommon.Azkeys.Secrets.{
  SecretEntry, SecretItem, SecretClient, deref, has_prefix, trim_prefix, secrets_prefix, tags_match,
  entry_of, same_bytes, Results, put_result, with_item, list_loop, list_secrets,
}

-- Whether there is a result under an identity
unfoldable pub has_key : List ℕ → Results → Bool
unfolding same_bytes
has_key id [] = false
has_key id ((j, e) ∷ m) = let later = has_key id m in if same_bytes j id then true else later

same_bytes_refl : (s : List ℕ) → same_bytes s s ≡ true
unfolding same_bytes
same_bytes_refl [] = refl
same_bytes_refl (c ∷ s) = ground (arith, same_bytes_refl s)

has_key-put_result :
    (id : List ℕ) (e : SecretEntry) (m : Results) → has_key id (put_result id e m) ≡ true
unfolding has_key put_result
has_key-put_result id e [] = ground (arith, same_bytes_refl id)
has_key-put_result id e ((j, f) ∷ m) = ground (arith, same_bytes_refl id, has_key-put_result id e m)

same_bytes-eq : (s t : List ℕ) → same_bytes s t ≡ true → s ≡ t
unfolding same_bytes
same_bytes-eq [] [] h = refl
same_bytes-eq [] (c ∷ t) h = cc
same_bytes-eq (c ∷ s) [] h = cc
same_bytes-eq (c ∷ s) (d ∷ t) h = ground (arith, same_bytes-eq s t)

put_result-keeps :
    (k id : List ℕ) (e : SecretEntry) (m : Results)
    → has_key k m ≡ true
    → has_key k (put_result id e m) ≡ true
unfolding has_key put_result
put_result-keeps k id e [] h = cc
put_result-keeps k id e ((j, f) ∷ m) h = elim (Bool-cases (same_bytes j id)) [
  | inl t ↦ (let q = same_bytes-eq j id t in ground arith)
  | inr g ↦ ground (arith, put_result-keeps k id e m)
]

module _ (client : SecretClient) (prefix : List ℕ) (tags : Dict String String) where
  -- The identity that an item with this path is returned under
  unfoldable pub identity_of : SecretItem → Option (List ℕ) → Option (List ℕ)
  identity_of item none = none
  identity_of item (some path) =
      if has_prefix (trim_prefix path secrets_prefix) prefix && tags_match tags item.item_tags
      then some (trim_prefix path secrets_prefix)
      else none

  -- An item's path, where it has an id with one
  unfoldable pub path_of : Option String → Option (List ℕ)
  path_of none = none
  path_of (some id) = client.parse_path id

  unfoldable pub is_listed : Results → Option (List ℕ) → Bool
  unfolding has_key
  is_listed results none = true
  is_listed results (some id) = has_key id results

  -- The item is returned, if it is one of those asked for.
  unfoldable pub Listed : Results → SecretItem × Option VaultError → Type 0
  unfolding is_listed identity_of path_of
  Listed results (item, next) = is_listed results (identity_of item (path_of item.id)) ≡ true

  with_item-is_listed :
      (id : String) (path : Option (List ℕ)) (item : SecretItem) (results : Results)
      → is_listed (with_item client prefix tags id path item results) (identity_of item path) ≡ true
  unfolding with_item is_listed identity_of
  with_item-is_listed id none item results = refl
  with_item-is_listed id (some path) item results =
      let name = trim_prefix path secrets_prefix in
      ground (arith, has_key-put_result name (entry_of name id item) results)

  with_item-keeps :
      (k : List ℕ) (id : String) (path : Option (List ℕ)) (item : SecretItem) (results : Results)
      → has_key k results ≡ true
      → has_key k (with_item client prefix tags id path item results) ≡ true
  unfolding with_item
  with_item-keeps k id none item results h = h
  with_item-keeps k id (some path) item results h =
      let name = trim_prefix path secrets_prefix in
      ground (arith, put_result-keeps k name (entry_of name id item) results)

  list_loop-keeps :
      (k : List ℕ) (items : List (SecretItem × Option VaultError)) (results final : Results)
      → has_key k results ≡ true
      → list_loop client prefix tags items results ≡ ok final
      → has_key k final ≡ true
  unfolding list_loop
  list_loop-keeps k [] results final a h = ap (has_key k) (sym (ok-injective h)) ∙ a
  list_loop-keeps k ((item, none) ∷ items) results final a h =
      let (id, e, h1) = and_then-ok (deref item.id) _ final h in
      list_loop-keeps k items (with_item client prefix tags id (client.parse_path id) item results)
        final (with_item-keeps k id (client.parse_path id) item results a) h1
  list_loop-keeps k ((item, some e) ∷ items) results final a h =
      let (id, d, h1) = and_then-ok (deref item.id) _ final h in absurd (ground arith)

  is_listed-keeps :
      (o : Option (List ℕ)) (items : List (SecretItem × Option VaultError))
      (results final : Results)
      → is_listed results o ≡ true
      → list_loop client prefix tags items results ≡ ok final
      → is_listed final o ≡ true
  unfolding is_listed
  is_listed-keeps none items results final a h = refl
  is_listed-keeps (some k) items results final a h = list_loop-keeps k items results final a h

  deref-ok : (o : Option String) (id : String) → deref o ≡ ok id → path_of o ≡ client.parse_path id
  unfolding path_of
  deref-ok none id h = cc
  deref-ok (some s) id h = ap client.parse_path (ok-injective h)

  list_loop-Listed :
      (items : List (SecretItem × Option VaultError)) (results final : Results)
      → list_loop client prefix tags items results ≡ ok final
      → All (Listed final) items
  unfolding list_loop Listed
  list_loop-Listed [] results final h = tt
  list_loop-Listed ((item, none) ∷ items) results final h =
      let (id, e, h1) = and_then-ok (deref item.id) _ final h in
      let more = with_item client prefix tags id (client.parse_path id) item results in
      (
        is_listed-keeps (identity_of item (path_of item.id)) items more final
            (ap (λ x. is_listed more (identity_of item x)) (deref-ok item.id id e)
              ∙ with_item-is_listed id (client.parse_path id) item results)
            h1,
        list_loop-Listed items more final h1,
      )
  list_loop-Listed ((item, some e) ∷ items) results final h =
      let (id, d, h1) = and_then-ok (deref item.id) _ final h in absurd (ground arith)

  -- Every secret of the vault whose path can be read, with the prefix and the tags asked for, is
  -- among those that ListSecrets returns where it succeeds.
  pub list_secrets-Listed :
      (items : List (SecretItem × Option VaultError)) (final : Results)
      → client.get_secrets ≡ ok items
      → list_secrets client prefix tags ≡ ok final
      → All (Listed final) items
  unfolding list_secrets
  list_secrets-Listed items final g h =
      let (t, e, h1) = and_then-ok client.new_client _ final h in
      let (items', f, h2) = and_then-ok (wrap client.get_secrets) _ final h1 in
      let q = ok-injective (sym (wrap-ok client.get_secrets items' f) ∙ g) in
      subst (All (Listed final)) q (list_loop-Listed items' [] final h2)
