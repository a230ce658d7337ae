-- ===== src/Canonical/Encoding.antt =====
-- canonical/encoding.go: what a screen costs in the encoding that its text forces.
pub mod Cost
pub mod Fits
pub mod Basic
use openussd.Prelude.{ℕ, ◌+◌, Bool, true, false, List, [], ◌∷◌, ltb, leb, if◌then◌else◌}
use openussd.Strings.{Text, codes, contains_rune}

abbrev pub max_septets : ℕ
max_septets = 182

abbrev pub max_ucs2_units : ℕ
max_ucs2_units = 70

pub data Encoding : Type 0 where
  gsm7 ucs2 : Encoding

-- The two sets are lists of runes, searched where the source reads a map.
pub gsm7_basic : Text
gsm7_basic =
    codes
      "@£$¥èéùìòÇ\nØø\rÅå_ÆæßÉ !\"#¤%&'()*+,-./0123456789:;<=>?¡ABCDEFGHIJKLMNOPQRSTUVWXYZÄÖÑÜ§¿abcdefghijklmnopqrstuvwxyzäöñüàΔΦΓΛΩΠΨΣΘΞ"

pub gsm7_extended : Text
gsm7_extended = codes "^{}\\[~]|€"

unfoldable pub is_basic : ℕ → Bool
unfolding contains_rune gsm7_basic
is_basic r = contains_rune gsm7_basic r

unfoldable pub is_extended : ℕ → Bool
unfolding contains_rune gsm7_extended
is_extended r = contains_rune gsm7_extended r

unfoldable pub encoding_of : Text → Encoding
encoding_of [] = gsm7
encoding_of (r ∷ s) =
    if is_basic r then encoding_of s else if is_extended r then encoding_of s else ucs2

unfoldable pub ucs2_units : Text → ℕ
ucs2_units [] = 0
ucs2_units (r ∷ s) = (if ltb 0xffff r then 2 else 1) + ucs2_units s

-- The loop of `ScreenCost`: on a rune outside the alphabet the tally is abandoned for the whole.
screen_cost_from : Text → Text → ℕ → ℕ × Encoding
screen_cost_from whole [] cost = (cost, gsm7)
screen_cost_from whole (r ∷ s) cost = elim (is_basic r) [
  | true ↦ screen_cost_from whole s (cost + 1)
  | false ↦ elim (is_extended r) [
    | true ↦ screen_cost_from whole s (cost + 2)
    | false ↦ (ucs2_units whole, ucs2)
  ]
]

unfoldable pub screen_cost : Text → ℕ × Encoding
unfolding screen_cost_from
screen_cost s = screen_cost_from s s 0

abbrev pub capacity : Encoding → ℕ
capacity ucs2 = max_ucs2_units
capacity gsm7 = max_septets

unfoldable pub budget : Text → ℕ
budget s = capacity (encoding_of s)

unfoldable pub fits_screen : Text → Bool
fits_screen s =
    let (cost, enc) = screen_cost s in
    elim enc [ ucs2 ↦ leb cost max_ucs2_units | gsm7 ↦ leb cost max_septets ]
