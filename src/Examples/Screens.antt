-- ===== src/Examples/Screens.antt =====
-- The screens of the SDK at concrete texts.
use openussd.Prelude.{
  ℕ, ◌≡◌, refl, ◌<◌, ◌+◌, true, false, List, [], ◌∷◌, ◌++◌, arith, All, length, replicate, take,
  some, suc,
}
use openussd.Strings.{Text, codes, trim_space}
use openussd.Canonical.Encoding.{
  fits_screen, screen_cost, ucs2_units, is_basic, is_extended, encoding_of, gsm7,
}
use openussd.Sdk.Bisect.{bisect, longest}
use openussd.Sdk.Truncate.{ellipsis}
use openussd.Sdk.Shrink.{fits_marked, shrink_point, shrink}
use openussd.Sdk.Shrink.Fits.{fits_screen-shrink, shrink_spare}
use openussd.Sdk.Gsm.{to_gsm, label}
use openussd.Sdk.Gsm.Labels.{IsLabelRune}
use openussd.Sdk.Menu.{MenuItem, lines, menu, menu_fit}
use openussd.Sdk.Menu.Fits.{HasFooter, menu_fit-HasFooter}
use openussd.Sdk.Paginate.{no_room, paginate, paginate_from}
use openussd.Sdk.Paginate.Content.{ink, ink_all}
use openussd.Sdk.Paginate.Pages.{IsPage, paginate_total, paginate_pages_fit, paginate_content}

abbrev han : Text
han = replicate 71 0x4e2d

han_long : fits_screen han ≡ false
unfolding fits_screen screen_cost ucs2_units is_basic is_extended
han_long = refl

han_point : shrink_point han ≡ 67
unfolding shrink_point longest bisect fits_screen screen_cost ucs2_units is_basic is_extended
han_point = refl

fits_screen-shrink_example : fits_screen (shrink han) ≡ true
fits_screen-shrink_example = fits_screen-shrink han

shrink_spare_example :
    (k : ℕ) × (shrink han ≡ take k han ++ ellipsis)
    × (k + 3 < length han)
    × (fits_marked han (k + 3) ≡ true)
shrink_spare_example = shrink_spare han han_long (omega (arith, han_point))

abbrev two_options : List MenuItem
two_options =
    record { key = codes "1"; label = codes "News" }
    ∷ record { key = codes "2"; label = codes "Send\n3. Pay" }
    ∷ []

abbrev back : List MenuItem
back = record { key = codes "0"; label = codes "Back" } ∷ []

footer_fits : fits_screen (codes "Home" ++ lines back) ≡ true
unfolding fits_screen screen_cost is_basic is_extended lines openussd.Sdk.Menu.line
    openussd.Sdk.Gsm.one_line openussd.Strings.join openussd.Strings.fields_func
    openussd.Sdk.Gsm.is_break
footer_fits = refl

menu_fit-HasFooter_example :
    HasFooter (codes "Home") two_options (lines back) 0 (menu_fit (codes "Home") two_options back)
menu_fit-HasFooter_example = menu_fit-HasFooter (codes "Home") two_options back footer_fits

abbrev accented : Text
accented = 0x201c ∷ 0x0101 ∷ 0x201d ∷ []

item_label : All IsLabelRune (codes "?")
unfolding openussd.Canonical.Encoding.Cost.is_gsm is_basic is_extended
item_label = (((refl), omega arith), tt)

abbrev two_words : Text
two_words = codes "one two"

two_words_room : no_room two_words 20 ≡ false
unfolding no_room encoding_of is_basic is_extended
two_words_room = refl

paginate_total_example :
    paginate_from (suc (length (trim_space two_words))) (trim_space two_words) 20
    ≡ some (paginate two_words 20)
paginate_total_example = paginate_total two_words 20 two_words_room

paginate_pages_fit_example : All (IsPage 20) (paginate two_words 20)
paginate_pages_fit_example = paginate_pages_fit two_words 20

paginate_content_example : ink_all (paginate two_words 20) ≡ ink two_words
paginate_content_example = paginate_content two_words 20 (omega arith)
