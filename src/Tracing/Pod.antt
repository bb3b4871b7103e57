-- ===== src/Tracing/Pod.antt =====
-- trimPodName of tracing/tracing.go, with the string functions it uses. A string is the list of its
-- bytes, since len counts bytes.
pub mod Laws
use go_rkvstcommon.Prelude.{
  ℕ, zero, suc, ◌+◌, ◌-◌, Bool, true, false, ◌&&◌, ◌||◌, Option, none, some, List, [], ◌∷◌, ◌++◌,
  nat_eq, length, take, get_elem?, ltb, if◌then◌else◌,
}
use go_rkvstcommon.Prelude.Split.{split, join}
use go_rkvstcommon.Prelude.Outcome.{Outcome, ok, err, panic}

abbrev pub Text : Type 0
Text = List ℕ

-- '-'
abbrev pub dash : ℕ
dash = 45

-- len(a[i-k]), which panics where there is no such element: i - k is below 0 for k over i.
unfoldable pub part_length : List Text → ℕ → Outcome Text ℕ
part_length a k =
    if ltb (length a) k
    then panic
    else (elim (get_elem? a (length a - k)) [ none ↦ panic | some p ↦ ok (length p) ])

-- The parts without the last, where there are two at least
abbrev without_last : Text → List Text → Text
without_last p a = if ltb 1 (length a) then join dash (take (length a - 1) a) else p

abbrev with_length : Outcome Text ℕ → (ℕ → Outcome Text Text) → Outcome Text Text
with_length (ok n) f = f n
with_length (err e) f = err e
with_length panic f = panic

-- The last part is an instance ID of length 5.
unfoldable pub trim_five : Text → List Text → ℕ → Outcome Text Text
unfolding join
trim_five p a before =
    if nat_eq before 10 || nat_eq before 11
    then ok (join dash (take (length a - 2) a))
    else ok (without_last p a)

-- trimPodName after the split
unfoldable pub trim_parts : Text → List Text → Outcome Text Text
unfolding part_length trim_five join
trim_parts p a = with_length (part_length a 1) (λ last.
    if nat_eq last 5 then with_length (part_length a 2) (trim_five p a) else ok (without_last p a))

-- trimPodName
unfoldable pub trim_pod_name : Text → Outcome Text Text
unfolding split trim_parts
trim_pod_name p = trim_parts p (split dash p)
