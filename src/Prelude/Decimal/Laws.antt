-- ===== src/Prelude/Decimal/Laws.antt =====
-- What strconv.FormatInt writes, strconv.ParseInt reads.
use Prim.Native.Char.{Char, code}
use Prim.Native.Nat.{ℕ, zero, suc, ◌+◌, ◌-◌, ◌*◌, ◌/◌, ◌%◌, ◌^◌, ◌≤◌, ◌<◌}
use Prim.Native.String.{String}
use mathlib.Core.Path.{◌≡◌, refl, ◌∙◌, ap, sym}
use mathlib.Core.Logic.{inl, inr}
use mathlib.Core.Option.{none, some}
use native.Mathlib.Omega.{arith}
use go_rkvstcommon.Prelude.Tests.{ltb, ltb→lt, Bool-cases}
use go_rkvstcommon.Prelude.Int.{pos}
use go_rkvstcommon.Prelude.Decimal.{
  digit, format_from, format_int, digits_from, natural, signed, non_negative, parse_int,
}

code-digit : (n : ℕ) → n < 10 → code (digit n) ≡ 48 + n
unfolding digit
code-digit zero h = refl
code-digit (suc zero) h = refl
code-digit (suc (suc zero)) h = refl
code-digit (suc (suc (suc zero))) h = refl
code-digit (suc (suc (suc (suc zero)))) h = refl
code-digit (suc (suc (suc (suc (suc zero))))) h = refl
code-digit (suc (suc (suc (suc (suc (suc zero)))))) h = refl
code-digit (suc (suc (suc (suc (suc (suc (suc zero))))))) h = refl
code-digit (suc (suc (suc (suc (suc (suc (suc (suc zero)))))))) h = refl
code-digit (suc (suc (suc (suc (suc (suc (suc (suc (suc zero))))))))) h = refl
code-digit (suc (suc (suc (suc (suc (suc (suc (suc (suc (suc n)))))))))) h = absurd (omega arith)

digits_from-digit :
    (acc n : ℕ) (tail : String)
    → n < 10
    → digits_from acc (String.◌∷◌ (digit n) tail) ≡ digits_from (acc * 10 + n) tail
unfolding digits_from
digits_from-digit acc n tail h =
    let e : acc * 10 + (code (digit n) - 48) ≡ acc * 10 + n = omega (arith, code-digit n h) in
    ground (arith, code-digit n, ap (λ k. digits_from k tail) e)

tenfold : (fuel : ℕ) → 10 ^ suc fuel ≡ 10 * 10 ^ fuel
tenfold fuel = omega arith

-- Reading the digits of n, and then what follows them, is going on with n.
digits_from-format_from :
    (fuel n : ℕ) (tail : String)
    → n < 10 ^ fuel
    → digits_from 0 (format_from fuel n tail) ≡ digits_from n tail
unfolding format_from
digits_from-format_from zero n tail h =
    let e : 0 ≡ n = omega (arith, h) in ap (λ k. digits_from k tail) e
digits_from-format_from (suc fuel) n tail h = elim (Bool-cases (ltb n 10)) [
  | inl small ↦ rw small (
      digits_from-digit 0 (n % 10) tail (omega arith)
      ∙ ap (λ k. digits_from k tail) (omega (arith, ltb→lt n 10 small)))
  | inr large ↦ rw large (
      digits_from-format_from fuel (n / 10) (String.◌∷◌ (digit (n % 10)) tail)
        (omega (arith, tenfold fuel))
      ∙ digits_from-digit (n / 10) (n % 10) tail (omega arith)
      ∙ ap (λ k. digits_from k tail) (omega arith))
]

-- A text that starts with a digit
abbrev Starts : String → Type 0
Starts t = (c : Char) × (s : String) × (t ≡ String.◌∷◌ c s) × (48 ≤ code c) × (code c ≤ 57)

digit-Starts : (n : ℕ) (tail : String) → n < 10 → Starts (String.◌∷◌ (digit n) tail)
digit-Starts n tail h =
    (digit n, tail, refl, omega (arith, code-digit n h), omega (arith, code-digit n h))

format_from-Starts : (fuel n : ℕ) (tail : String) → Starts (format_from (suc fuel) n tail)
unfolding format_from
format_from-Starts zero n tail = elim (Bool-cases (ltb n 10)) [
  | inl small ↦ rw small (digit-Starts (n % 10) tail (omega arith))
  | inr large ↦ rw large (digit-Starts (n % 10) tail (omega arith))
]
format_from-Starts (suc fuel) n tail = elim (Bool-cases (ltb n 10)) [
  | inl small ↦ rw small (digit-Starts (n % 10) tail (omega arith))
  | inr large ↦ rw large (format_from-Starts fuel (n / 10) (String.◌∷◌ (digit (n % 10)) tail))
]

natural-format_from : (n : ℕ) → n < 2 ^ 63 → natural (format_from 19 n "") ≡ some n
unfolding natural digits_from
natural-format_from n h =
    let (c, s, e, l, u) = format_from-Starts 18 n "" in
    ap natural e
    ∙ ap (λ t. digits_from 0 t) (sym e)
    ∙ digits_from-format_from 19 n "" (omega (arith, h))

parse_int-of_natural :
    (c : Char) (s : String) (n : ℕ)
    → 48 ≤ code c
    → n < 2 ^ 63
    → natural (String.◌∷◌ c s) ≡ some n
    → parse_int (String.◌∷◌ c s) ≡ (pos n, none)
unfolding parse_int non_negative signed
parse_int-of_natural c s n l h r = ground arith

-- ParseInt of FormatInt, of a number that is not negative, is that number.
pub parse_int-format_int : (n : ℕ) → n < 2 ^ 63 → parse_int (format_int (pos n)) ≡ (pos n, none)
unfolding format_int
parse_int-format_int n h =
    let (c, s, e, l, u) = format_from-Starts 18 n "" in
    ap parse_int e ∙ parse_int-of_natural c s n l h (ap natural (sym e) ∙ natural-format_from n h)
