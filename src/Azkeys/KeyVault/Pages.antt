-- ===== src/Azkeys/KeyVault/Pages.antt =====
-- The keys of all versions, from the pages of GetKeyVersions, in azkeys/keyvault.go.
use mathlib.Core.List.{append-nil, append_assoc}
use mathlib.Core.Path.{subst}
use go_rkvstcommon.Prelude.{◌≡◌, sym, Option, none, some, List, [], ◌∷◌, ◌++◌}
use go_rkvstcommon.Prelude.Outcome.{Outcome, ok, err, panic, ok-injective, and_then-ok}
use go_rkvstcommon.Azkeys.KeyVault.{
  KeyId, VaultError, Vault, wrap, get_key_by_kid, get_keys_from_versions, next_keys,
  get_key_versions_keys,
}

-- The kids of the items that have one
abbrev pub kids : List (Option KeyId) → List KeyId
kids [] = []
kids (none ∷ items) = kids items
kids (some kid ∷ items) = kid ∷ kids items

-- ... of pages, where a page that fails has none
abbrev pub kids_of_pages : List (Outcome VaultError (List (Option KeyId))) → List KeyId
kids_of_pages [] = []
kids_of_pages (ok items ∷ pages) = kids items ++ kids_of_pages pages
kids_of_pages (err e ∷ pages) = kids_of_pages pages
kids_of_pages (panic ∷ pages) = kids_of_pages pages

pub wrap-ok : {A : Type 0} (o : Outcome VaultError A) (a : A) → wrap o ≡ ok a → o ≡ ok a
wrap-ok (ok b) a h = h
wrap-ok (err e) a h = cc
wrap-ok panic a h = cc

module _ {K : Type 0} (vault : Vault K) where
  -- The keys are those that GetKeyByKID reads for the kids, one for each, in their order.
  abbrev pub ReadsAll : List KeyId → List K → Type 0
  ReadsAll [] [] = Unit
  ReadsAll [] (k ∷ ks) = ⊥
  ReadsAll (kid ∷ more) [] = ⊥
  ReadsAll (kid ∷ more) (k ∷ ks) = (get_key_by_kid vault kid ≡ ok k) × ReadsAll more ks

  ReadsAll-append :
      (cs bs : List KeyId) (ks ls : List K)
      → ReadsAll cs ks
      → ReadsAll bs ls
      → ReadsAll (cs ++ bs) (ks ++ ls)
  ReadsAll-append [] bs [] ls p q = q
  ReadsAll-append [] bs (k ∷ ks) ls p q = absurd p
  ReadsAll-append (a ∷ cs) bs [] ls p q = absurd p
  ReadsAll-append (a ∷ cs) bs (k ∷ ks) ls p q = (p.0, ReadsAll-append cs bs ks ls p.1 q)

  versions-ReadsAll :
      (items : List (Option KeyId)) (ks : List K)
      → get_keys_from_versions vault items ≡ ok ks
      → ReadsAll (kids items) ks
  unfolding get_keys_from_versions
  versions-ReadsAll [] ks h = subst (ReadsAll []) (ok-injective h) tt
  versions-ReadsAll (none ∷ items) ks h = versions-ReadsAll items ks h
  versions-ReadsAll (some kid ∷ items) ks h =
      let (k, f, h1) = and_then-ok (wrap (get_key_by_kid vault kid)) _ ks h in
      let (ls, g, h2) = and_then-ok (get_keys_from_versions vault items) _ ks h1 in
      subst (ReadsAll (kid ∷ kids items)) (ok-injective h2)
        (wrap-ok (get_key_by_kid vault kid) k f, versions-ReadsAll items ls g)

  next_keys-ReadsAll :
      (cs : List KeyId) (keys ks : List K) (pages : List (Outcome VaultError (List (Option KeyId))))
      → ReadsAll cs keys
      → next_keys vault keys pages ≡ ok ks
      → ReadsAll (cs ++ kids_of_pages pages) ks
  unfolding next_keys
  next_keys-ReadsAll cs keys ks [] a h =
      subst (λ x. ReadsAll x ks) (sym (append-nil cs)) (subst (ReadsAll cs) (ok-injective h) a)
  next_keys-ReadsAll cs keys ks (err e ∷ pages) a h = cc
  next_keys-ReadsAll cs keys ks (panic ∷ pages) a h = cc
  next_keys-ReadsAll cs keys ks (ok items ∷ pages) a h =
      let (more, f, h1) = and_then-ok (get_keys_from_versions vault items) _ ks h in
      subst (λ x. ReadsAll x ks) (append_assoc cs (kids items) (kids_of_pages pages))
        (next_keys-ReadsAll (cs ++ kids items) (keys ++ more) ks pages
          (ReadsAll-append cs (kids items) keys more a (versions-ReadsAll items more f)) h1)

  -- Where GetKeyVersionsKeys succeeds, it got a first page, and its keys are those that GetKeyByKID
  -- reads for the kids of all the pages, one for each, in their order.
  pub get_key_versions_keys-ReadsAll :
      (key_id : KeyId) (ks : List K)
      → get_key_versions_keys vault key_id ≡ ok ks
      → (items : List (Option KeyId)) × (vault.first_page key_id ≡ ok items)
        × ReadsAll (kids items ++ kids_of_pages (vault.next_pages key_id)) ks
  unfolding get_key_versions_keys
  get_key_versions_keys-ReadsAll key_id ks h =
      let (t, c, h1) = and_then-ok vault.new_client _ ks h in
      let (items, f, h2) = and_then-ok (wrap (vault.first_page key_id)) _ ks h1 in
      let (keys, g, h3) = and_then-ok (get_keys_from_versions vault items) _ ks h2 in
      (
        items,
        wrap-ok (vault.first_page key_id) items f,
        next_keys-ReadsAll (kids items) keys ks (vault.next_pages key_id)
            (versions-ReadsAll items keys g) h3,
      )
