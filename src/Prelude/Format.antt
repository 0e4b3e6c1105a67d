-- ===== src/Prelude/Format.antt =====
-- Decimal printing, as `strconv.FormatInt(i, 10)` and the verb `%d` do it.
use Prim.Native.Nat.{ℕ, zero, suc, ◌/◌, ◌%◌}
use Prim.Native.Char.{Char}
use Prim.Native.String.{String, [], ◌∷◌}
use gource.Prelude.Tests.{if◌then◌else◌, eqb}
use gource.Prelude.Int.{ℤ, pos, negsuc}

digit : ℕ → Char
digit d =
    if eqb d 0
    then "0"
    else if eqb d 1
    then "1"
    else if eqb d 2
    then "2"
    else if eqb d 3
    then "3"
    else if eqb d 4
    then "4"
    else if eqb d 5
    then "5"
    else if eqb d 6
    then "6"
    else if eqb d 7
    then "7"
    else if eqb d 8
    then "8"
    else "9"

-- The digits of `n` before `rest`. A number below its fuel is printed whole.
format_digits : ℕ → ℕ → String → String
unfolding digit
format_digits zero n rest = rest
format_digits (suc fuel) n rest =
    let more = format_digits fuel (n / 10) (digit (n % 10) ∷ rest) in
    if eqb (n / 10) 0 then digit (n % 10) ∷ rest else more

unfoldable pub format_int : ℤ → String
unfolding format_digits
format_int (pos n) = format_digits (suc n) n []
format_int (negsuc n) = "-" ∷ format_digits (suc (suc n)) (suc n) []
