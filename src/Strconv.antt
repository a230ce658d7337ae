-- ===== src/Strconv.antt =====
-- What the program uses of Go's `strconv`, and of `int64` values printed in decimal.
pub mod RoundTrip
use openussd.Prelude.{
  ℕ, zero, suc, ◌+◌, ◌-◌, ◌*◌, ◌/◌, ◌%◌, ◌^◌, Bool, true, false, ◌&&◌, Option, none, some, List, [],
  ◌∷◌, ltb, leb, ◌==◌, if◌then◌else◌, ℤ, pos, negsuc,
}
use openussd.Strings.{Text, is_empty}

-- Decimal digits of `n` in front of `rest`; `n + 1` rounds are more than enough.
unfoldable pub print_from : ℕ → ℕ → Text → Text
print_from zero n rest = rest
print_from (suc fuel) n rest =
    let more = print_from fuel (n / 10) ((b'0' + n % 10) ∷ rest) in
    if ltb n 10 then (b'0' + n) ∷ rest else more

unfoldable pub print_nat : ℕ → Text
unfolding print_from
print_nat n = print_from (suc n) n []

-- `strconv.FormatInt(z, 10)`
unfoldable pub format_int : ℤ → Text
unfolding print_nat
format_int (pos n) = print_nat n
format_int (negsuc n) = b'-' ∷ print_nat (suc n)

unfoldable pub parse_digits : ℕ → Text → Option ℕ
parse_digits acc [] = some acc
parse_digits acc (c ∷ s) =
    if leb b'0' c && leb c b'9' then parse_digits (acc * 10 + (c - b'0')) s else none

unfoldable pub parse_nat : Text → Option ℕ
unfolding parse_digits
parse_nat s = if is_empty s then none else parse_digits 0 s

abbrev pub max_int64 : ℕ
max_int64 = 2 ^ 63 - 1

unfoldable pub checked_pos : Option ℕ → Option ℤ
checked_pos none = none
checked_pos (some n) = if ltb max_int64 n then none else some (pos n)

unfoldable pub checked_neg : Option ℕ → Option ℤ
checked_neg none = none
checked_neg (some zero) = some (pos 0)
checked_neg (some (suc n)) = if ltb max_int64 n then none else some (negsuc n)

-- `strconv.ParseInt(s, 10, 64)`: an optional sign, digits, and no value out of range.
unfoldable pub parse_int : Text → Option ℤ
unfolding parse_nat checked_pos checked_neg
parse_int [] = none
parse_int (c ∷ s) =
    if c == b'-'
    then checked_neg (parse_nat s)
    else if c == b'+'
    then checked_pos (parse_nat s)
    else checked_pos (parse_nat (c ∷ s))
