-- ===== src/Canonical/Encoding/Fits.antt =====
-- `FitsScreen` of canonical/encoding.go: parts of a text against the whole, whose dropped runes may
-- change the encoding and with it the capacity.
use openussd.Prelude.{
  ℕ, zero, suc, ◌+◌, ◌*◌, ◌≤◌, ◌≡◌, refl, Bool, true, ◌&&◌, [], ◌∷◌, ◌++◌, arith, leb, length,
  if◌then◌else◌, take,
}
use openussd.Strings.{Text}
use openussd.Canonical.Encoding.{ucs2_units, budget, fits_screen}
use openussd.Canonical.Encoding.Cost.{
  all_gsm, septets, cost_of, encoding_of-all_gsm, screen_cost_lem,
}

-- `s` fits beside `reserve` units of its own encoding.
abbrev pub fits_with : ℕ → Text → Bool
fits_with reserve s = leb (cost_of s + reserve) (budget s)

pub fits_with_lem :
    (r : ℕ) (s : Text)
    → fits_with r s ≡ (if all_gsm s then leb (septets s + r) 182 else leb (ucs2_units s + r) 70)
unfolding budget
fits_with_lem r s = ground (arith, screen_cost_lem s, encoding_of-all_gsm s)

pub fits_screen-with : (s : Text) → fits_screen s ≡ fits_with 0 s
unfolding fits_screen budget
fits_screen-with s = ground (arith, screen_cost_lem s, encoding_of-all_gsm s)

pub record IsLighter (p s : Text) : Type 0 where
  pub gsm : all_gsm s ≡ true → all_gsm p ≡ true
  pub septets_le : septets p ≤ septets s
  pub units_le : ucs2_units p ≤ ucs2_units s

septets-le-units : (s : Text) → septets s ≤ 2 * ucs2_units s
unfolding septets ucs2_units
septets-le-units [] = omega arith
septets-le-units (r ∷ s) = ground (arith, septets-le-units s)

pub length-le-septets : (s : Text) → length s ≤ septets s
unfolding septets
length-le-septets [] = omega arith
length-le-septets (r ∷ s) = ground (arith, length-le-septets s)

pub length-le-units : (s : Text) → length s ≤ ucs2_units s
unfolding ucs2_units
length-le-units [] = omega arith
length-le-units (r ∷ s) = ground (arith, length-le-units s)

-- A lighter text fits wherever the heavier one does.
pub fits_with-IsLighter :
    (r : ℕ) (p s : Text) → IsLighter p s → fits_with r s ≡ true → fits_with r p ≡ true
fits_with-IsLighter r p s h f = ground (
  arith,
  fits_with_lem r p,
  fits_with_lem r s,
  septets-le-units p,
  h.gsm,
  h.septets_le,
  h.units_le,
)

pub IsLighter-refl : (s : Text) → IsLighter s s
IsLighter-refl s = record { gsm = λ e. e; septets_le = omega arith; units_le = omega arith }

pub IsLighter-trans : {a b c : Text} → IsLighter a b → IsLighter b c → IsLighter a c
IsLighter-trans h k = record {
  gsm = λ e. h.gsm (k.gsm e);
  septets_le = omega (arith, h.septets_le, k.septets_le);
  units_le = omega (arith, h.units_le, k.units_le);
}

pub IsLighter-nil : (s : Text) → IsLighter [] s
unfolding all_gsm septets ucs2_units
IsLighter-nil s = record { gsm = λ e. refl; septets_le = omega arith; units_le = omega arith }

pub all_gsm-append : (s t : Text) → all_gsm (s ++ t) ≡ (all_gsm s && all_gsm t)
unfolding all_gsm
all_gsm-append [] t = refl
all_gsm-append (r ∷ s) t = ground (arith, all_gsm-append s t)

pub septets-append : (s t : Text) → septets (s ++ t) ≡ septets s + septets t
unfolding septets
septets-append [] t = omega arith
septets-append (r ∷ s) t = omega (arith, septets-append s t)

pub ucs2_units-append : (s t : Text) → ucs2_units (s ++ t) ≡ ucs2_units s + ucs2_units t
unfolding ucs2_units
ucs2_units-append [] t = omega arith
ucs2_units-append (r ∷ s) t = omega (arith, ucs2_units-append s t)

pub IsLighter-append :
    (p s q t : Text) → IsLighter p s → IsLighter q t → IsLighter (p ++ q) (s ++ t)
IsLighter-append p s q t h k = record {
  gsm = λ e. ground (arith, all_gsm-append p q, all_gsm-append s t, h.gsm, k.gsm);
  septets_le = omega (arith, septets-append p q, septets-append s t, h.septets_le, k.septets_le);
  units_le = omega (arith, ucs2_units-append p q, ucs2_units-append s t, h.units_le, k.units_le);
}

IsLighter-cons : (r : ℕ) {p s : Text} → IsLighter p s → IsLighter (r ∷ p) (r ∷ s)
IsLighter-cons r {p} {s} h = IsLighter-append (r ∷ []) (r ∷ []) p s (IsLighter-refl _) h

pub IsLighter-take : (k n : ℕ) (s : Text) → k ≤ n → IsLighter (take k s) (take n s)
IsLighter-take zero n s h = IsLighter-nil _
IsLighter-take (suc k) zero s h = elim h [ ]
IsLighter-take (suc k) (suc n) [] h = IsLighter-refl []
IsLighter-take (suc k) (suc n) (r ∷ s) h = IsLighter-cons r (IsLighter-take k n s (omega arith))

pub take-IsLighter : (k : ℕ) (s : Text) → IsLighter (take k s) s
take-IsLighter zero s = IsLighter-nil s
take-IsLighter (suc k) [] = IsLighter-refl []
take-IsLighter (suc k) (r ∷ s) = IsLighter-cons r (take-IsLighter k s)

-- Nothing longer than a screen's septets fits.
pub length-le-of_fits : (r : ℕ) (s : Text) → fits_with r s ≡ true → length s + r ≤ 182
length-le-of_fits r s f = ground (arith, fits_with_lem r s, length-le-septets s, length-le-units s)

-- Every part that is a prefix of a fitting screen fits too.
pub fits_screen-take : (k : ℕ) (s : Text) → fits_screen s ≡ true → fits_screen (take k s) ≡ true
fits_screen-take k s f = ground (
  arith,
  fits_screen-with s,
  fits_screen-with (take k s),
  fits_with-IsLighter 0 (take k s) s (take-IsLighter k s),
)
