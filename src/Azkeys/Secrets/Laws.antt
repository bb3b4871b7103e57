-- ===== src/Azkeys/Secrets/Laws.antt =====
-- Which secrets ListSecrets of azkeys/secretvault.go returns.
use mathlib.Core.Path.{subst}
use go_rkvstcommon.Prelude.{
  ℕ, ◌≡◌, refl, sym, ap, String, eq_iff, Bool, true, false, Option, none, some, List, [], ◌∷◌, All,
  arith, inl, inr, Bool-cases, if◌then◌else◌,
}
use go_rkvstcommon.Prelude.Outcome.{ok, ok-injective, and_then-ok}
use go_rkvstcommon.Prelude.Dict.{string_key, Dict, lookup}
use go_rkvstcommon.Azkeys.KeyVault.{VaultError, wrap}
use go_rkvstcommon.Azkeys.Secrets.{
  SecretEntry, SecretItem, SecretClient, deref, present_tags, has_prefix, trim_prefix,
  secrets_prefix, tag_is, tags_match, entry_of, same_bytes, Results, put_result, with_item,
  list_loop, list_secrets,
}

-- A tag that is there and not nil is among the entry's.
lookup-present_tags :
    (k v : String) (m : Dict String (Option String))
    → lookup k m ≡ some (some v)
    → lookup k (present_tags m) ≡ some v
unfolding lookup present_tags
lookup-present_tags k v [] h = cc
lookup-present_tags k v ((j, none) ∷ m) h = ground (arith, lookup-present_tags k v m)
lookup-present_tags k v ((j, some u) ∷ m) h = ground (arith, lookup-present_tags k v m)

tag_is-some : (v : String) (o : Option (Option String)) → tag_is v o ≡ true → o ≡ some (some v)
tag_is-some v none h = cc
tag_is-some v (some none) h = cc
tag_is-some v (some (some u)) h = ap (λ x. some (some x)) (sym ((eq_iff v u).0 h))

-- The tags t of an entry include all that were asked for.
abbrev pub Tagged : Dict String String → Dict String String → Type 0
unfolding lookup
Tagged tags t = All (λ (p : String × String). lookup p.0 t ≡ some p.1) tags

tags_match-Tagged :
    (tags : Dict String String) (m : Dict String (Option String))
    → tags_match tags m ≡ true
    → Tagged tags (present_tags m)
unfolding tags_match
tags_match-Tagged [] m h = tt
tags_match-Tagged ((k, v) ∷ tags) m h = elim (Bool-cases (tag_is v (lookup k m))) [
  | inl t ↦ (
    lookup-present_tags k v m (tag_is-some v (lookup k m) t),
    tags_match-Tagged tags m (ground arith),
  )
  | inr f ↦ absurd (ground arith)
]

-- A result that was asked for: it is under its identity, which has the prefix, and has the tags.
pub record Asked (prefix : List ℕ) (tags : Dict String String) (r : List ℕ × SecretEntry)
    : Type 0 where
  pub under : r.1.identity ≡ r.0
  pub prefixed : has_prefix r.1.identity prefix ≡ true
  pub tagged : Tagged tags r.1.tags

All-if :
    {A : Type 0} (P : A → Type 0) (b : Bool) (xs ys : List A)
    → All P xs
    → All P ys
    → All P (if b then xs else ys)
All-if P true xs ys a c = a
All-if P false xs ys a c = c

put_result-All :
    (P : List ℕ × SecretEntry → Type 0) (id : List ℕ) (e : SecretEntry) (m : Results)
    → P (id, e)
    → All P m
    → All P (put_result id e m)
unfolding put_result
put_result-All P id e [] p a = (p, tt)
put_result-All P id e ((j, f) ∷ m) p (q, a) =
    All-if P (same_bytes j id) ((id, e) ∷ m) ((j, f) ∷ put_result id e m) (p, a)
      (q, put_result-All P id e m p a)

module _ (client : SecretClient) (prefix : List ℕ) (tags : Dict String String) where
  with_item-Asked :
      (id : String) (path : Option (List ℕ)) (item : SecretItem) (results : Results)
      → All (Asked prefix tags) results
      → All (Asked prefix tags) (with_item client prefix tags id path item results)
  unfolding with_item entry_of
  with_item-Asked id none item results a = a
  with_item-Asked id (some path) item results a =
      let name = trim_prefix path secrets_prefix in
      elim (Bool-cases (has_prefix name prefix)) [
        | inl h ↦ elim (Bool-cases (tags_match tags item.item_tags)) [
          | inl t ↦
              rw (h, t)
                (put_result-All (Asked prefix tags) name (entry_of name id item) results
                  (record {
                    under = refl;
                    prefixed = h;
                    tagged = tags_match-Tagged tags item.item_tags t;
                  })
                  a)
          | inr f ↦ rw (h, f) a
        ]
        | inr f ↦ rw f a
      ]

  list_loop-Asked :
      (items : List (SecretItem × Option VaultError)) (results final : Results)
      → All (Asked prefix tags) results
      → list_loop client prefix tags items results ≡ ok final
      → All (Asked prefix tags) final
  unfolding list_loop
  list_loop-Asked [] results final a h = subst (All (Asked prefix tags)) (ok-injective h) a
  list_loop-Asked ((item, none) ∷ items) results final a h =
      let (id, e, h1) = and_then-ok (deref item.id) _ final h in
      list_loop-Asked items (with_item client prefix tags id (client.parse_path id) item results)
        final (with_item-Asked id (client.parse_path id) item results a) h1
  list_loop-Asked ((item, some e) ∷ items) results final a h =
      let (id, d, h1) = and_then-ok (deref item.id) _ final h in absurd (ground arith)

  -- Every secret that ListSecrets returns is under its identity, which has the prefix asked for, and
  -- its tags include all that were asked for.
  pub list_secrets-Asked :
      (final : Results) → list_secrets client prefix tags ≡ ok final → All (Asked prefix tags) final
  unfolding list_secrets
  list_secrets-Asked final h =
      let (t, e, h1) = and_then-ok client.new_client _ final h in
      let (items, f, h2) = and_then-ok (wrap client.get_secrets) _ final h1 in
      list_loop-Asked items [] final tt h2
