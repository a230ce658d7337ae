-- ===== src/Sdk/Menu.antt =====
-- Menus of sdk/go/render.go: titles with numbered options within the screen budget.
pub mod Lines
pub mod Fits
use openussd.Prelude.{
  ℕ, suc, ◌+◌, Bool, true, false, List, [], ◌∷◌, ◌++◌, ltb, length, if◌then◌else◌,
}
use openussd.Strings.{Text, codes, is_empty}
use openussd.Canonical.Encoding.{fits_screen}
use openussd.Sdk.Bisect.{longest}
use openussd.Sdk.Truncate.{truncate}
use openussd.Sdk.Shrink.{shrink}
use openussd.Sdk.Gsm.{one_line}

abbrev pub min_label_runes : ℕ
min_label_runes = 4

pub record MenuItem : Type 0 where
  pub key : Text
  pub label : Text

unfoldable pub line : MenuItem → Text
line m = 0x0a ∷ (one_line m.key ++ (codes ". " ++ one_line m.label))

abbrev pub item : Text → Text → MenuItem
item key label = record { key = key; label = label }

abbrev pub label_fits : Text → Text → Text → ℕ → Bool
label_fits rendered key label n = fits_screen (rendered ++ line (item key (truncate label n)))

unfoldable pub longest_label_that_fits : Text → Text → Text → Text
longest_label_that_fits rendered key label =
    let lo = longest (label_fits rendered key label) (length label) in
    if ltb lo min_label_runes then [] else one_line (truncate label lo)

-- The loop of `Menu`, which stops at the first option with no label that fits.
unfoldable pub menu_from : Text → List MenuItem → Text
menu_from b [] = b
menu_from b (m ∷ items) = elim (fits_screen (b ++ line m)) [
  | true ↦ menu_from (b ++ line m) items
  | false ↦
      let label = longest_label_that_fits b m.key m.label in
      elim (is_empty label) [ true ↦ b | false ↦ menu_from (b ++ line (item m.key label)) items ]
]

unfoldable pub menu : Text → List MenuItem → Text
menu title items = menu_from title items

unfoldable pub lines : List MenuItem → Text
lines [] = []
lines (m ∷ items) = line m ++ lines items

-- The loop of `MenuFit`: the text so far and the number of options shown.
pub menu_fit_from : Text → List MenuItem → Text → ℕ → Text × ℕ
menu_fit_from b [] footer_text shown = (b ++ footer_text, shown)
menu_fit_from b (m ∷ items) footer_text shown = elim (fits_screen (b ++ (line m ++ footer_text))) [
  | true ↦ menu_fit_from (b ++ line m) items footer_text (shown + 1)
  | false ↦ (b ++ footer_text, shown)
]

unfoldable pub menu_fit : Text → List MenuItem → List MenuItem → Text × ℕ
unfolding menu_fit_from lines
menu_fit title items footer =
    let footer_text = lines footer in
    elim (fits_screen (title ++ footer_text)) [
      | true ↦ menu_fit_from title items footer_text 0
      | false ↦ (shrink (title ++ footer_text), 0)
    ]
