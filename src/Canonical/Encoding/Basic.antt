-- ===== src/Canonical/Encoding/Basic.antt =====
-- Texts that cost a septet a rune, and what a text of the GSM alphabet costs in 16-bit units.
use openussd.Prelude.{
  ℕ, ◌+◌, ◌≡◌, refl, ◌∙◌, leb, Bool, true, ◌&&◌, [], ◌∷◌, ◌++◌, ltb, ◌==◌, all, length, arith,
  if◌then◌else◌, inl, inr, or-eq-true, ==→eq,
}
use openussd.Strings.{Text, contains_rune}
use openussd.Canonical.Encoding.{
  gsm7_basic, gsm7_extended, is_basic, is_extended, ucs2_units, fits_screen,
}
use openussd.Canonical.Encoding.Cost.{is_gsm, all_gsm, septets}
use openussd.Canonical.Encoding.Fits.{fits_with_lem, fits_screen-with}

-- No rune of the extension table.
unfoldable pub all_basic : Text → Bool
all_basic [] = true
all_basic (r ∷ s) = is_basic r && all_basic s

abbrev one_unit : ℕ → Bool
one_unit r = ltb r 0x10000

contains_rune-one_unit :
    (s : Text) (r : ℕ) → all one_unit s ≡ true → contains_rune s r ≡ true → one_unit r ≡ true
unfolding contains_rune
contains_rune-one_unit [] r h e = absurd (ground arith)
contains_rune-one_unit (c ∷ s) r h e = elim (or-eq-true (c == r) (contains_rune s r) e) [
  | inl here ↦ let same = ==→eq c r here in ground arith
  | inr there ↦ contains_rune-one_unit s r (ground arith) there
]

is_gsm-one_unit : (r : ℕ) → is_gsm r ≡ true → one_unit r ≡ true
unfolding is_gsm is_basic is_extended
is_gsm-one_unit r h = elim (or-eq-true (is_basic r) (is_extended r) h) [
  | inl basic ↦ contains_rune-one_unit gsm7_basic r (unfold gsm7_basic in refl) basic
  | inr extended ↦ contains_rune-one_unit gsm7_extended r (unfold gsm7_extended in refl) extended
]

pub ucs2_units-gsm : (s : Text) → all_gsm s ≡ true → ucs2_units s ≡ length s
unfolding ucs2_units all_gsm
ucs2_units-gsm [] h = refl
ucs2_units-gsm (r ∷ s) h = ground (arith, ucs2_units-gsm s, is_gsm-one_unit r)

pub septets-basic : (s : Text) → all_basic s ≡ true → septets s ≡ length s
unfolding septets all_basic
septets-basic [] h = refl
septets-basic (r ∷ s) h = ground (arith, septets-basic s)

pub all_gsm-basic : (s : Text) → all_basic s ≡ true → all_gsm s ≡ true
unfolding all_gsm all_basic is_gsm
all_gsm-basic [] h = refl
all_gsm-basic (r ∷ s) h = ground (arith, all_gsm-basic s)

pub all_basic-append : (s t : Text) → all_basic (s ++ t) ≡ (all_basic s && all_basic t)
unfolding all_basic
all_basic-append [] t = refl
all_basic-append (r ∷ s) t = ground (arith, all_basic-append s t)

-- A text fits if it does in the encoding that it forces.
pub fits_screen_lem :
    (s : Text)
    → fits_screen s ≡ (if all_gsm s then leb (septets s + 0) 182 else leb (ucs2_units s + 0) 70)
fits_screen_lem s = fits_screen-with s ∙ fits_with_lem 0 s
