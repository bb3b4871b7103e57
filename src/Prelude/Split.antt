-- ===== src/Prelude/Split.antt =====
-- strings.Split and strings.Join with a separator of one byte, on strings as lists of bytes.
use Prim.Native.Nat.{ℕ}
use mathlib.Core.Path.{◌≡◌, refl, sym, ap, ◌∙◌, subst}
use mathlib.Core.Logic.{inl, inr}
use mathlib.Core.Bool.{Bool, true, not, ◌&&◌}
use mathlib.Core.List.{List, [], ◌∷◌, ◌++◌}
use native.Mathlib.Omega.{arith}
use go_rkvstcommon.Prelude.Tests.{nat_eq, nat_eq_iff, if◌then◌else◌, Bool-cases}

abbrev onto_first : ℕ → List (List ℕ) → List (List ℕ)
onto_first c [] = (c ∷ []) ∷ []
onto_first c (p ∷ ps) = (c ∷ p) ∷ ps

-- strings.Split(s, sep), which has at least one part
unfoldable pub split : ℕ → List ℕ → List (List ℕ)
split sep [] = [] ∷ []
split sep (c ∷ s) = let rest = split sep s in if nat_eq c sep then [] ∷ rest else onto_first c rest

-- strings.Join(parts, sep)
unfoldable pub join : ℕ → List (List ℕ) → List ℕ
join sep [] = []
join sep (p ∷ []) = p
join sep (p ∷ q ∷ ps) = p ++ sep ∷ join sep (q ∷ ps)

-- No byte is the separator.
unfoldable pub is_part : ℕ → List ℕ → Bool
is_part sep [] = true
is_part sep (c ∷ s) = not (nat_eq c sep) && is_part sep s

module _ (sep : ℕ) where
  onto_first-cons :
      (c : ℕ) (ps : List (List ℕ))
      → (q : List ℕ) × (qs : List (List ℕ)) × (onto_first c ps ≡ q ∷ qs)
  onto_first-cons c [] = (c ∷ [], [], refl)
  onto_first-cons c (p ∷ ps) = (c ∷ p, ps, refl)

  -- There is a first part.
  pub split-cons : (s : List ℕ) → (q : List ℕ) × (qs : List (List ℕ)) × (split sep s ≡ q ∷ qs)
  unfolding split
  split-cons [] = ([], [], refl)
  split-cons (c ∷ s) = elim (Bool-cases (nat_eq c sep)) [
    | inl t ↦ ([], split sep s, ground arith)
    | inr f ↦ (let (q, qs, e) = onto_first-cons c (split sep s) in (q, qs, ground arith))
  ]

  join-onto_first : (c : ℕ) (ps : List (List ℕ)) → join sep (onto_first c ps) ≡ c ∷ join sep ps
  unfolding join
  join-onto_first c [] = refl
  join-onto_first c (p ∷ []) = refl
  join-onto_first c (p ∷ q ∷ ps) = refl

  join-empty_first :
      (ps : List (List ℕ)) (q : List ℕ) (qs : List (List ℕ))
      → ps ≡ q ∷ qs
      → join sep ([] ∷ ps) ≡ sep ∷ join sep ps
  unfolding join
  join-empty_first ps q qs e = subst (λ x. join sep ([] ∷ x) ≡ sep ∷ join sep x) (sym e) refl

  -- Join puts together what Split took apart.
  pub join-split : (s : List ℕ) → join sep (split sep s) ≡ s
  unfolding split join
  join-split [] = refl
  join-split (c ∷ s) =
      let (q, qs, e) = split-cons s in
      elim (Bool-cases (nat_eq c sep)) [
        | inl t ↦
            ground (arith, nat_eq_iff c sep, join-empty_first (split sep s) q qs e, join-split s)
        | inr f ↦ ground (arith, join-onto_first c (split sep s), join-split s)
      ]

  -- A part is not split.
  pub split-part : (s : List ℕ) → is_part sep s ≡ true → split sep s ≡ s ∷ []
  unfolding split is_part
  split-part [] h = refl
  split-part (c ∷ s) h = ground (arith, split-part s)

  -- Split takes apart at each separator.
  pub split-append : (p s : List ℕ) → split sep (p ++ sep ∷ s) ≡ split sep p ++ split sep s
  unfolding split
  split-append [] s = ground (arith, nat_eq_iff sep sep)
  split-append (c ∷ p) s =
      let (q, qs, e) = split-cons p in
      elim (Bool-cases (nat_eq c sep)) [
        | inl t ↦ ground (arith, split-append p s)
        | inr f ↦ ground (arith, split-append p s)
      ]

  -- What follows the last separator is the last part.
  pub split-append_part :
      (p s : List ℕ) → is_part sep s ≡ true → split sep (p ++ sep ∷ s) ≡ split sep p ++ s ∷ []
  split-append_part p s h = split-append p s ∙ ap (λ x. split sep p ++ x) (split-part s h)
