-- ===== src/Canonical/Encoding/Cost.antt =====
-- The cost of a screen by its definition: septets if every rune is in the alphabet, units if not.
use openussd.Prelude.{ℕ, ◌+◌, ◌≡◌, refl, Bool, true, ◌||◌, ◌&&◌, [], ◌∷◌, arith, if◌then◌else◌}
use openussd.Strings.{Text}
use openussd.Canonical.Encoding.{
  gsm7, ucs2, is_basic, is_extended, encoding_of, ucs2_units, screen_cost_from, screen_cost,
}

unfoldable pub is_gsm : ℕ → Bool
is_gsm r = is_basic r || is_extended r

-- Every rune is in the GSM 03.38 alphabet.
unfoldable pub all_gsm : Text → Bool
all_gsm [] = true
all_gsm (r ∷ s) = is_gsm r && all_gsm s

unfoldable pub septets : Text → ℕ
septets [] = 0
septets (r ∷ s) = (if is_basic r then 1 else 2) + septets s

pub encoding_of-all_gsm : (s : Text) → encoding_of s ≡ (if all_gsm s then gsm7 else ucs2)
unfolding encoding_of all_gsm is_gsm
encoding_of-all_gsm [] = refl
encoding_of-all_gsm (r ∷ s) = ground (arith, encoding_of-all_gsm s)

screen_cost_from_lem :
    (whole s : Text) (cost : ℕ)
    → screen_cost_from whole s cost
      ≡ (if all_gsm s then (cost + septets s, gsm7) else (ucs2_units whole, ucs2))
unfolding screen_cost_from all_gsm is_gsm septets
screen_cost_from_lem whole [] cost = ground arith
screen_cost_from_lem whole (r ∷ s) cost =
    ground (arith, screen_cost_from_lem whole s (cost + 1), screen_cost_from_lem whole s (cost + 2))

abbrev pub cost_of : Text → ℕ
cost_of s = (screen_cost s).0

-- A text costs its septets when every rune is in the alphabet, and else its 16-bit units, runes
-- beyond 0xffff counted twice; the encoding reported is that of `encoding_of`.
pub screen_cost_lem :
    (s : Text)
    → screen_cost s
      ≡ (if all_gsm s then (septets s, encoding_of s) else (ucs2_units s, encoding_of s))
unfolding screen_cost
screen_cost_lem s = ground (arith, screen_cost_from_lem s s 0, encoding_of-all_gsm s)
