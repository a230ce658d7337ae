-- ===== src/Strconv/RoundTrip.antt =====
-- `FormatInt` and `ParseInt` of Go's strconv, one after the other.
use openussd.Prelude.{
  ℕ, zero, suc, ◌+◌, ◌-◌, ◌*◌, ◌/◌, ◌%◌, ◌≤◌, ◌<◌, ◌≡◌, refl, ◌∙◌, ap, inl, inr, true, false, ◌&&◌,
  some, [], ◌∷◌, ltb, leb, ◌==◌, ℤ, pos, negsuc, arith, Bool-cases, pos_part, neg_part,
}
use openussd.Strings.{Text}
use openussd.Strconv.{
  print_from, print_nat, format_int, parse_digits, parse_nat, max_int64, checked_pos, checked_neg,
  parse_int,
}

parse_digit :
    (acc d : ℕ) (rest : Text)
    → d < 10
    → parse_digits acc ((b'0' + d) ∷ rest) ≡ parse_digits (acc * 10 + d) rest
unfolding parse_digits
parse_digit acc d rest h =
    let test : (leb b'0' (b'0' + d) && leb (b'0' + d) b'9') ≡ true = ground arith in
    let value : b'0' + d - b'0' ≡ d = omega arith in rw (test, value)

parse_digits-print :
    (fuel n : ℕ) (rest : Text)
    → n < fuel
    → parse_digits 0 (print_from fuel n rest) ≡ parse_digits n rest
unfolding print_from
parse_digits-print zero n rest h = elim h [ ]
parse_digits-print (suc fuel) n rest h = elim (Bool-cases (ltb n 10)) [
  | inl small ↦
      rw small (parse_digit 0 n rest (ground arith) ∙ ap (λ k. parse_digits k rest) (omega arith))
  | inr big ↦
      let large : 10 ≤ n = ground arith in
      rw big (
        parse_digits-print fuel (n / 10) ((b'0' + n % 10) ∷ rest) (omega arith)
        ∙ (parse_digit (n / 10) (n % 10) rest (omega arith)
            ∙ ap (λ k. parse_digits k rest) (omega arith)))
]

-- The first rune printed is a digit.
abbrev StartsWithDigit : Text → Type 0
StartsWithDigit [] = ⊥
StartsWithDigit (c ∷ s) = (b'0' ≤ c) × (c ≤ b'9')

print_from-digit : (fuel n : ℕ) (rest : Text) → n < fuel → StartsWithDigit (print_from fuel n rest)
unfolding print_from
print_from-digit zero n rest h = elim h [ ]
print_from-digit (suc fuel) n rest h = elim (Bool-cases (ltb n 10)) [
  | inl small ↦ rw small (ground arith)
  | inr big ↦
      let large : 10 ≤ n = ground arith in
      rw big (print_from-digit fuel (n / 10) ((b'0' + n % 10) ∷ rest) (omega arith))
]

parse_nat_of_digit : (s : Text) → StartsWithDigit s → parse_nat s ≡ parse_digits 0 s
unfolding parse_nat
parse_nat_of_digit [] h = elim h [ ]
parse_nat_of_digit (c ∷ s) h = refl

pub parse_nat-print_nat : (n : ℕ) → parse_nat (print_nat n) ≡ some n
unfolding print_nat
parse_nat-print_nat n =
    parse_nat_of_digit _ (print_from-digit (suc n) n [] (omega arith))
    ∙ (parse_digits-print (suc n) n [] (omega arith) ∙ unfold parse_digits in refl)

parse_int_of_digit : (s : Text) → StartsWithDigit s → parse_int s ≡ checked_pos (parse_nat s)
unfolding parse_int
parse_int_of_digit [] h = elim h [ ]
parse_int_of_digit (c ∷ s) h =
    let minus : (c == b'-') ≡ false = ground arith in
    let plus : (c == b'+') ≡ false = ground arith in rw (minus, plus)

-- Every `int64` is read back from its decimal form.
pub parse_int-format_int :
    (z : ℤ)
    → pos_part z ≤ max_int64
    → neg_part z ≤ max_int64 + 1
    → parse_int (format_int z) ≡ some z
unfolding format_int
parse_int-format_int (pos n) h k =
    parse_int_of_digit (print_nat n)
      (unfold print_nat in print_from-digit (suc n) n [] (omega arith))
    ∙ (ap checked_pos (parse_nat-print_nat n) ∙ unfold checked_pos in ground arith)
parse_int-format_int (negsuc n) h k =
    unfold parse_int in
    (ap checked_neg (parse_nat-print_nat (suc n)) ∙ unfold checked_neg in ground arith)
