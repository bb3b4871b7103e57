-- ===== src/Tracing/Headers/Laws.antt =====
-- The headers that HeaderMatcher of tracing/tracing.go passes on.
use go_rkvstcommon.Prelude.{
  ℕ, ◌≡◌, refl, ap, ◌∙◌, inl, inr, Bool, true, false, ◌||◌, none, some, List, [], ◌∷◌, nat_eq,
  if◌then◌else◌, arith, Bool-cases,
}
use go_rkvstcommon.Tracing.Headers.{
  Key, lower, upper, to_lower, canonical_from, all_tokens, canonical_mime_header_key, key_eq,
  ot_headers, match_among, header_matcher,
}

lower-lower : (c : ℕ) → lower (lower c) ≡ lower c
lower-lower c = ground arith

lower-upper : (c : ℕ) → lower (upper c) ≡ lower c
lower-upper c = ground arith

to_lower-canonical_from : (b : Bool) (s : Key) → to_lower (canonical_from b s) ≡ to_lower s
unfolding to_lower canonical_from
to_lower-canonical_from b [] = refl
to_lower-canonical_from true (c ∷ s) =
    ap (λ d. d ∷ to_lower (canonical_from (nat_eq c 45) s)) (lower-upper c)
    ∙ ap (λ t. lower c ∷ t) (to_lower-canonical_from (nat_eq c 45) s)
to_lower-canonical_from false (c ∷ s) =
    ap (λ d. d ∷ to_lower (canonical_from (nat_eq c 45) s)) (lower-lower c)
    ∙ ap (λ t. lower c ∷ t) (to_lower-canonical_from (nat_eq c 45) s)

-- The canonical form of a key differs in case only.
pub to_lower-canonical : (key : Key) → to_lower (canonical_mime_header_key key) ≡ to_lower key
unfolding canonical_mime_header_key
to_lower-canonical key = elim (Bool-cases (all_tokens key)) [
  | inl t ↦ ground (arith, to_lower-canonical_from true key)
  | inr f ↦ ground arith
]

-- Whether a key is among these
unfoldable pub is_among : List Key → Key → Bool
unfolding key_eq
is_among [] key = false
is_among (k ∷ ks) key = let later = is_among ks key in key_eq key k || later

match_among-is_among :
    (ks : List Key) (key : Key)
    → match_among ks key ≡ (if is_among ks (to_lower key) then some key else none)
unfolding match_among is_among
match_among-is_among [] key = refl
match_among-is_among (k ∷ ks) key = ground (arith, match_among-is_among ks key)

-- HeaderMatcher passes on just the keys that are, in lower case, among the eight tracing headers, and
-- each in its canonical form, which differs from the key in the case of its letters only.
pub header_matcher-among :
    (key : Key)
    → (header_matcher key ≡ (
        if is_among ot_headers (to_lower key) then some (canonical_mime_header_key key) else none))
      × (to_lower (canonical_mime_header_key key) ≡ to_lower key)
unfolding header_matcher
header_matcher-among key =
    let e = to_lower-canonical key in
    (
      match_among-is_among ot_headers (canonical_mime_header_key key)
          ∙ ap (λ k. if is_among ot_headers k then some (canonical_mime_header_key key) else none)
              e,
      e,
    )
