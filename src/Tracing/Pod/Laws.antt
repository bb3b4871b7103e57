-- ===== src/Tracing/Pod/Laws.antt =====
-- What trimPodName of tracing/tracing.go makes of a pod's name.
use mathlib.Core.List.{append_assoc}
use go_rkvstcommon.Prelude.{
  ℕ, suc, ◌-◌, ◌≡◌, refl, sym, ap, ◌∙◌, true, false, ◌||◌, some, List, [], ◌∷◌, ◌++◌, nat_eq,
  length, take, get_elem?, if◌then◌else◌, arith, length-append,
}
use go_rkvstcommon.Prelude.Split.{
  split, join, is_part, split-cons, join-split, split-part, split-append_part,
}
use go_rkvstcommon.Prelude.Outcome.{ok, panic}
use go_rkvstcommon.Tracing.Pod.{
  Text, dash, part_length, without_last, trim_five, trim_parts, trim_pod_name,
}

take-append : (ps qs : List Text) → take (length ps) (ps ++ qs) ≡ ps
take-append [] [] = refl
take-append [] (q ∷ qs) = refl
take-append (p ∷ ps) qs = ap (λ x. p ∷ x) (take-append ps qs)

get_elem?-append :
    (ps : List Text) (q : Text) (qs : List Text) → get_elem? (ps ++ q ∷ qs) (length ps) ≡ some q
get_elem?-append [] q qs = refl
get_elem?-append (p ∷ ps) q qs = get_elem?-append ps q qs

part_length-append :
    (ps : List Text) (q : Text) (qs : List Text)
    → part_length (ps ++ q ∷ qs) (suc (length qs)) ≡ ok (length q)
unfolding part_length
part_length-append ps q qs =
    let e : length (ps ++ q ∷ qs) - suc (length qs) ≡ length ps =
      omega (arith, length-append ps (q ∷ qs)) in
    let g = ap (λ i. get_elem? (ps ++ q ∷ qs) i) e ∙ get_elem?-append ps q qs in
    ground (arith, length-append ps (q ∷ qs))

-- The parts without the last ones
take-last : (ps qs : List Text) → take (length (ps ++ qs) - length qs) (ps ++ qs) ≡ ps
take-last ps qs =
    ap (λ n. take n (ps ++ qs)) (omega (arith, length-append ps qs)) ∙ take-append ps qs

without_last-part : (p s : Text) (q : Text) → without_last p (split dash s ++ q ∷ []) ≡ s
without_last-part p s q =
    let (f, fs, e) = split-cons dash s in
    let l = ap length e in
    let k = length-append (split dash s) (q ∷ []) in
    let t = ap (join dash) (take-last (split dash s) (q ∷ [])) ∙ join-split dash s in ground arith

trim_five-two :
    (p name first second : Text) (n : ℕ)
    → nat_eq n 10 || nat_eq n 11 ≡ true
    → trim_five p (split dash name ++ first ∷ second ∷ []) n ≡ ok name
unfolding trim_five
trim_five-two p name first second n h =
    rw (h, take-last (split dash name) (first ∷ second ∷ [])) (ap ok (join-split dash name))

trim_five-other :
    (p name : Text) (q : Text) (n : ℕ)
    → nat_eq n 10 || nat_eq n 11 ≡ false
    → trim_five p (split dash name ++ q ∷ []) n ≡ ok name
unfolding trim_five
trim_five-other p name q n h = rw h (ap ok (without_last-part p name q))

-- Of a pod's name that ends in two instance IDs, of 10 or 11 bytes and of 5, trimPodName leaves what
-- is before them.
pub trim_pod_name-two :
    (name first second : Text)
    → is_part dash first ≡ true
    → is_part dash second ≡ true
    → nat_eq (length first) 10 || nat_eq (length first) 11 ≡ true
    → length second ≡ 5
    → trim_pod_name ((name ++ dash ∷ first) ++ dash ∷ second) ≡ ok name
unfolding trim_pod_name trim_parts
trim_pod_name-two name first second f g l m =
    let a = split dash name ++ first ∷ second ∷ [] in
    let e : split dash ((name ++ dash ∷ first) ++ dash ∷ second) ≡ a =
      split-append_part dash (name ++ dash ∷ first) second g
      ∙ ap (λ x. x ++ second ∷ []) (split-append_part dash name first f)
      ∙ append_assoc (split dash name) (first ∷ []) (second ∷ []) in
    let last : part_length a 1 ≡ ok (length second) =
      ap (λ x. part_length x 1) (sym (append_assoc (split dash name) (first ∷ []) (second ∷ [])))
      ∙ part_length-append (split dash name ++ first ∷ []) second [] in
    let before : part_length a 2 ≡ ok (length first) =
      part_length-append (split dash name) first (second ∷ []) in
    rw (e, last, m, before) (trim_five-two _ name first second (length first) l)

-- Of a pod's name that ends in one instance ID, not of length 5, trimPodName leaves what is before
-- it.
pub trim_pod_name-one :
    (name last : Text)
    → is_part dash last ≡ true
    → nat_eq (length last) 5 ≡ false
    → trim_pod_name (name ++ dash ∷ last) ≡ ok name
unfolding trim_pod_name trim_parts
trim_pod_name-one name last f l =
    rw (split-append_part dash name last f, part_length-append (split dash name) last [], l)
      (ap ok (without_last-part _ name last))

-- Of a pod's name that ends in an instance ID of length 5, with a part before it that is no instance
-- ID, trimPodName leaves what is before the last part.
pub trim_pod_name-five :
    (name before last : Text)
    → is_part dash before ≡ true
    → is_part dash last ≡ true
    → nat_eq (length before) 10 || nat_eq (length before) 11 ≡ false
    → length last ≡ 5
    → trim_pod_name ((name ++ dash ∷ before) ++ dash ∷ last) ≡ ok (name ++ dash ∷ before)
unfolding trim_pod_name trim_parts
trim_pod_name-five name before last f g l m =
    let stem = name ++ dash ∷ before in
    let e = split-append_part dash stem last g in
    let d : part_length (split dash stem ++ last ∷ []) 2 ≡ ok (length before) =
      ap (λ x. part_length x 2)
        (ap (λ x. x ++ last ∷ []) (split-append_part dash name before f)
          ∙ append_assoc (split dash name) (before ∷ []) (last ∷ []))
      ∙ part_length-append (split dash name) before (last ∷ []) in
    rw (e, part_length-append (split dash stem) last [], m, d)
      (trim_five-other _ stem last (length before) l)

-- trimPodName panics of a name without a dash just where its length is 5; any other such name is
-- left as it is.
pub trim_pod_name-part :
    (name : Text)
    → is_part dash name ≡ true
    → trim_pod_name name ≡ (if nat_eq (length name) 5 then panic else ok name)
unfolding trim_pod_name trim_parts part_length join
trim_pod_name-part name f = rw (split-part dash name f) refl
