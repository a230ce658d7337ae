-- ===== src/Sdk/Paginate.antt =====
-- `Paginate` of sdk/go/render.go: a body cut into pages that fit a screen beside a reserve.
pub mod Steps
pub mod Pages
pub mod Content
pub mod Whole
use mathlib.Core.Option
use openussd.Prelude.{
  ℕ, zero, suc, ◌/◌, min, Bool, true, false, ◌&&◌, ◌||◌, Option, none, some, List, [], ◌∷◌, ltb,
  leb, ◌==◌, length, take, drop, if◌then◌else◌,
}
use openussd.Strings.{
  Text, codes, is_empty, has_prefix, is_space, trim_left, trim_right, trim_space,
}
use openussd.Canonical.Encoding.{Encoding, gsm7, ucs2, max_ucs2_units, encoding_of}
use openussd.Canonical.Encoding.Fits.{fits_with}
use openussd.Sdk.Bisect.{longest}
use openussd.Sdk.Shrink.{max_screen}

-- `fits` of `fitRunes`: the prefix of `n` runes costs no more than its own budget less the reserve.
abbrev pub prefix_fits : Text → ℕ → ℕ → Bool
prefix_fits runes reserve n = fits_with reserve (take n runes)

pub fit_runes : Text → ℕ → ℕ
fit_runes runes reserve = longest (prefix_fits runes reserve) (min (length runes) max_screen)

-- `strings.LastIndex`, as the number of runes before the match.
pub last_index : Text → Text → Option ℕ
last_index [] sep = if is_empty sep then some 0 else none
last_index (c ∷ s) sep = elim (last_index s sep) [
  | some i ↦ some (suc i)
  | none ↦ if has_prefix (c ∷ s) sep then some 0 else none
]

-- The loop of `breakPoint` over the separators.
pub break_from : Text → ℕ → List Text → ℕ
unfolding last_index has_prefix
break_from window floor [] = length window
break_from window floor (sep ∷ seps) =
    let rest = break_from window floor seps in
    elim (last_index window sep) [
      | some at ↦ if ltb 0 at && leb floor at then at else rest
      | none ↦ rest
    ]

abbrev pub separators : List Text
separators = codes "\n\n" ∷ codes "\n" ∷ codes " " ∷ []

pub break_point : Text → ℕ
unfolding break_from
break_point window = break_from window (length window / 3) separators

-- The page that a full window gives, and how many runes it uses up.
pub cut_page : Text → ℕ → Text × ℕ
unfolding break_point trim_right is_space
cut_page window fit =
    let cut = break_point (take fit window) in
    let page = trim_right (take cut window) in
    if is_empty page then (take fit window, fit) else (page, cut)

pub data PageStep : Type 0 where
  stop : PageStep
  last : Text → PageStep
  more : Text → ℕ → PageStep

-- One round of the loop, behind the leading spaces: the runes from `at` on are `rest`.
pub page_step : Text → ℕ → PageStep
unfolding fit_runes cut_page
page_step rest reserve =
    let window = take max_screen rest in
    let fit = fit_runes window reserve in
    let (page, cut) = cut_page window fit in
    if is_empty rest || fit == 0
    then stop
    else if leb (length window) fit && leb (length rest) (length window)
    then last window
    else more page cut

-- `none` is out of fuel; every round uses up a rune at least.
pub paginate_from : ℕ → Text → ℕ → Option (List Text)
unfolding page_step trim_left
paginate_from zero rest reserve = none
paginate_from (suc fuel) rest reserve = elim (page_step (trim_left rest) reserve) [
  | stop ↦ some []
  | last page ↦ some (page ∷ [])
  | more page cut ↦
      Option.map (λ pages. page ∷ pages) (paginate_from fuel (drop cut (trim_left rest)) reserve)
]

abbrev is_ucs2 : Encoding → Bool
is_ucs2 gsm7 = false
is_ucs2 ucs2 = true

-- The early returns: no room beside the reserve.
unfoldable pub no_room : Text → ℕ → Bool
no_room body reserve =
    (leb max_ucs2_units reserve && is_ucs2 (encoding_of body)) || leb max_screen reserve

unfoldable pub paginate : Text → ℕ → List Text
unfolding no_room paginate_from trim_space
paginate body reserve =
    if no_room body reserve
    then []
    else Option.get_or (paginate_from (suc (length (trim_space body))) (trim_space body) reserve) []
