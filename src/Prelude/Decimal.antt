-- ===== src/Prelude/Decimal.antt =====
-- strconv.FormatInt(n, 10) and strconv.ParseInt(s, 10, 64).
pub mod Laws
use Prim.Native.Char.{Char, code}
use Prim.Native.String
use Prim.Native.Nat.{ℕ, zero, suc, ◌+◌, ◌-◌, ◌*◌, ◌/◌, ◌%◌, ◌^◌}
use Prim.Native.String.{String}
use mathlib.Core.Bool.{◌&&◌}
use mathlib.Core.Option.{Option, none, some}
use go_rkvstcommon.Prelude.Tests.{ltb, leb, if◌then◌else◌}
use go_rkvstcommon.Prelude.Int.{ℤ, pos, negsuc}

digit : ℕ → Char
digit zero = "0"
digit (suc zero) = "1"
digit (suc (suc zero)) = "2"
digit (suc (suc (suc zero))) = "3"
digit (suc (suc (suc (suc zero)))) = "4"
digit (suc (suc (suc (suc (suc zero))))) = "5"
digit (suc (suc (suc (suc (suc (suc zero)))))) = "6"
digit (suc (suc (suc (suc (suc (suc (suc zero))))))) = "7"
digit (suc (suc (suc (suc (suc (suc (suc (suc zero)))))))) = "8"
digit _ = "9"

-- The digits of n in front of `tail`; an int64 has 19 digits at most.
format_from : ℕ → ℕ → String → String
unfolding digit
format_from zero n tail = tail
format_from (suc fuel) n tail =
    let one = String.◌∷◌ (digit (n % 10)) tail in
    let more = format_from fuel (n / 10) one in if ltb n 10 then one else more

unfoldable pub format_int : ℤ → String
unfolding format_from
format_int (pos n) = format_from 19 n ""
format_int (negsuc n) = String.◌++◌ "-" (format_from 19 (suc n) "")

digits_from : ℕ → String → Option ℕ
digits_from acc String.[] = some acc
digits_from acc (String.◌∷◌ c s) =
    let rest = digits_from (acc * 10 + (code c - 48)) s in
    if leb 48 (code c) && leb (code c) 57 then rest else none

natural : String → Option ℕ
unfolding digits_from
natural String.[] = none
natural (String.◌∷◌ c s) = digits_from 0 (String.◌∷◌ c s)

-- Why a text is no int64.
pub data NumError : Type 0 where
  syntax range : NumError

signed : ℕ → ℤ → (ℕ → ℤ) → Option ℕ → ℤ × Option NumError
signed limit most sign none = (pos 0, some syntax)
signed limit most sign (some n) = if leb n limit then (sign n, none) else (most, some range)

negate : ℕ → ℤ
negate zero = pos 0
negate (suc n) = negsuc n

abbrev pub max_int64 : ℕ
max_int64 = 2 ^ 63 - 1

non_negative : Option ℕ → ℤ × Option NumError
unfolding signed
non_negative n = signed max_int64 (pos max_int64) pos n

negative : Option ℕ → ℤ × Option NumError
unfolding signed negate
negative n = signed (2 ^ 63) (negsuc max_int64) negate n

-- The value comes with the error: 0 for a text that is no number, the nearest int64 out of range.
unfoldable pub parse_int : String → ℤ × Option NumError
unfolding natural non_negative negative
parse_int String.[] = (pos 0, some syntax)
parse_int (String.◌∷◌ c s) =
    if leb 45 (code c) && leb (code c) 45
    then negative (natural s)
    else if leb 43 (code c) && leb (code c) 43
    then non_negative (natural s)
    else non_negative (natural (String.◌∷◌ c s))
