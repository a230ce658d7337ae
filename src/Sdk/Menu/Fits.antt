-- ===== src/Sdk/Menu/Fits.antt =====
-- `Menu` and `MenuFit` of sdk/go/render.go: the screens that they fill.
use openussd.Prelude.{
  ℕ, suc, ◌+◌, ◌≤◌, ◌≡◌, refl, ◌∙◌, inl, inr, true, false, List, [], ◌∷◌, ◌++◌, ltb, length, take,
  drop, arith, Bool-cases, append_assoc,
}
use openussd.Strings.{Text, is_empty}
use openussd.Canonical.Encoding.{fits_screen}
use openussd.Sdk.Bisect.{longest, longest-IsEdge}
use openussd.Sdk.Truncate.{truncate}
use openussd.Sdk.Gsm.{one_line}
use openussd.Sdk.Gsm.Labels.{one_line_idem}
use openussd.Sdk.Shrink.Fits.{fits_screen-shrink}
use openussd.Sdk.Menu.{
  MenuItem, item, line, lines, label_fits, longest_label_that_fits, menu_from, menu, menu_fit_from,
  menu_fit,
}

line-one_line : (key label : Text) → line (item key (one_line label)) ≡ line (item key label)
unfolding line
line-one_line key label = rw one_line_idem

-- A label that the search returns fits on its line.
longest_label_fits :
    (b key label : Text)
    → is_empty (longest_label_that_fits b key label) ≡ false
    → fits_screen (b ++ line (item key (longest_label_that_fits b key label))) ≡ true
unfolding longest_label_that_fits
longest_label_fits b key label h =
    let lo = longest (label_fits b key label) (length label) in
    elim (Bool-cases (ltb lo 4)) [
      | inl small ↦ absurd (ground arith)
      | inr wide ↦
          rw (wide, line-one_line key (truncate label lo))
            (elim (longest-IsEdge (label_fits b key label) (length label)).passes [
              | inl none_found ↦ absurd (ground arith)
              | inr p ↦ p
            ])
    ]

menu_from-fits :
    (b : Text) (items : List MenuItem)
    → fits_screen b ≡ true
    → fits_screen (menu_from b items) ≡ true
unfolding menu_from
menu_from-fits b [] h = h
menu_from-fits b (m ∷ items) h = elim (Bool-cases (fits_screen (b ++ line m))) [
  | inl fits ↦ rw (fits, menu_from) (menu_from-fits (b ++ line m) items fits)
  | inr long ↦
      let label = longest_label_that_fits b m.key m.label in
      elim (Bool-cases (is_empty label)) [
        | inl nothing ↦ rw (long, nothing, menu_from) h
        | inr some_fit ↦
            rw (long, some_fit, menu_from)
              (menu_from-fits (b ++ line (item m.key label)) items
                (longest_label_fits b m.key m.label some_fit))
      ]
]

-- If the title fits a screen, the menu does, whatever the options are.
pub fits_screen-menu :
    (title : Text) (items : List MenuItem)
    → fits_screen title ≡ true
    → fits_screen (menu title items) ≡ true
unfolding menu
fits_screen-menu title items h = menu_from-fits title items h

-- What `MenuFit` returns: the title, the first `shown` options whole, and the whole footer.
pub record HasFooter (b : Text) (items : List MenuItem) (footer_text : Text) (before : ℕ)
    (r : Text × ℕ) : Type 0 where
  pub count : ℕ
  pub shown : r.1 ≡ before + count
  pub within : count ≤ length items
  pub text : r.0 ≡ b ++ (lines (take count items) ++ footer_text)
  pub fits : fits_screen r.0 ≡ true
  pub next_too_long :
      (m : MenuItem) (rest : List MenuItem)
      → drop count items ≡ m ∷ rest
      → fits_screen (b ++ (lines (take count items) ++ (line m ++ footer_text))) ≡ false

regroup : (b l ls ft : Text) → (b ++ l) ++ (ls ++ ft) ≡ b ++ ((l ++ ls) ++ ft)
regroup b l ls ft = simp append_assoc

HasFooter-nil :
    (b footer_text : Text) (before : ℕ)
    → fits_screen (b ++ footer_text) ≡ true
    → HasFooter b [] footer_text before (b ++ footer_text, before)
unfolding lines
HasFooter-nil b footer_text before h = record {
  count = 0;
  shown = omega arith;
  within = omega arith;
  text = refl;
  fits = h;
  next_too_long = λ m rest e. ground arith;
}

HasFooter-stop :
    (b : Text) (m : MenuItem) (items : List MenuItem) (footer_text : Text) (before : ℕ)
    → fits_screen (b ++ footer_text) ≡ true
    → fits_screen (b ++ (line m ++ footer_text)) ≡ false
    → HasFooter b (m ∷ items) footer_text before (b ++ footer_text, before)
unfolding lines
HasFooter-stop b m items footer_text before h long = record {
  count = 0;
  shown = omega arith;
  within = omega arith;
  text = refl;
  fits = h;
  next_too_long = λ m' rest e. let same : m ≡ m' = cc in rw (← same) long;
}

HasFooter-cons :
    (b : Text) (m : MenuItem) (items : List MenuItem) (footer_text : Text) (before : ℕ)
    (r : Text × ℕ)
    → HasFooter (b ++ line m) items footer_text (before + 1) r
    → HasFooter b (m ∷ items) footer_text before r
unfolding lines
HasFooter-cons b m items footer_text before r h = record {
  count = suc h.count;
  shown = omega (arith, h.shown);
  within = omega (arith, h.within);
  text = h.text ∙ regroup b (line m) (lines (take h.count items)) footer_text;
  fits = h.fits;
  next_too_long = λ m' rest e.
      rw (← regroup b (line m) (lines (take h.count items)) (line m' ++ footer_text))
        (h.next_too_long m' rest e);
}

menu_fit_from-HasFooter :
    (b : Text) (items : List MenuItem) (footer_text : Text) (before : ℕ)
    → fits_screen (b ++ footer_text) ≡ true
    → HasFooter b items footer_text before (menu_fit_from b items footer_text before)
unfolding menu_fit_from
menu_fit_from-HasFooter b [] footer_text before h = HasFooter-nil b footer_text before h
menu_fit_from-HasFooter b (m ∷ items) footer_text before h =
    elim (Bool-cases (fits_screen (b ++ (line m ++ footer_text)))) [
      | inl fits ↦
          rw (fits, menu_fit_from)
            (HasFooter-cons b m items footer_text before _ (
              menu_fit_from-HasFooter (b ++ line m) items footer_text (before + 1)
                (rw append_assoc fits)))
      | inr long ↦ rw (long, menu_fit_from) (HasFooter-stop b m items footer_text before h long)
    ]

-- If the title and the footer fit together, `MenuFit` returns the title, the first options whole
-- and the whole footer on one screen, with their number, and the next option would not fit.
pub menu_fit-HasFooter :
    (title : Text) (items footer : List MenuItem)
    → fits_screen (title ++ lines footer) ≡ true
    → HasFooter title items (lines footer) 0 (menu_fit title items footer)
unfolding menu_fit
menu_fit-HasFooter title items footer h =
    rw (h, menu_fit) (menu_fit_from-HasFooter title items (lines footer) 0 h)

-- `MenuFit` returns a screen that fits, also where title and footer alone are too long.
fits_screen-menu_fit :
    (title : Text) (items footer : List MenuItem)
    → fits_screen (menu_fit title items footer).0 ≡ true
unfolding menu_fit
fits_screen-menu_fit title items footer = elim (Bool-cases (fits_screen (title ++ lines footer))) [
  | inl fits ↦ (menu_fit-HasFooter title items footer fits).fits
  | inr long ↦ rw (long, menu_fit) (fits_screen-shrink (title ++ lines footer))
]
