-- ===== src/Fediverse/Frame.antt =====
-- A page of text between a header and a footer, and the numbers in a header.
use openussd.Prelude.{
  ℕ, zero, suc, ◌+◌, ◌≤◌, ◌<◌, ◌≡◌, refl, Bool, true, ◌&&◌, ◌++◌, leb, length, arith,
}
use openussd.Strings.{Text, codes}
use openussd.Strconv.{print_nat}
use openussd.Canonical.Encoding.{fits_screen, ucs2_units}
use openussd.Canonical.Encoding.Cost.{all_gsm, septets}
use openussd.Canonical.Encoding.Fits.{
  fits_with, fits_with_lem, all_gsm-append, septets-append, ucs2_units-append,
}
use openussd.Canonical.Encoding.Basic.{
  all_basic, ucs2_units-gsm, septets-basic, all_gsm-basic, fits_screen_lem,
}

-- A page between a header and a footer.
abbrev pub framed : Text → Text → Text → Text
framed head page foot = head ++ (codes "\n" ++ (page ++ (codes "\n" ++ foot)))

feed_gsm : all_gsm (codes "\n") ≡ true
unfolding all_gsm openussd.Canonical.Encoding.Cost.is_gsm openussd.Canonical.Encoding.is_basic
feed_gsm = refl

feed_septets : septets (codes "\n") ≡ 1
unfolding septets openussd.Canonical.Encoding.is_basic
feed_septets = refl

feed_units : ucs2_units (codes "\n") ≡ 1
unfolding ucs2_units
feed_units = refl

module _ (head page foot : Text) (head_gsm : all_gsm head ≡ true)
    (foot_gsm : all_gsm foot ≡ true) where
  pub all_gsm-framed : all_gsm (framed head page foot) ≡ all_gsm page
  all_gsm-framed =
      rw
        (
          all_gsm-append head (codes "\n" ++ (page ++ (codes "\n" ++ foot))),
          all_gsm-append (codes "\n") (page ++ (codes "\n" ++ foot)),
          all_gsm-append page (codes "\n" ++ foot),
          all_gsm-append (codes "\n") foot,
          head_gsm,
          foot_gsm,
          feed_gsm,
        )
        (ground arith)

  pub septets-framed :
      septets (framed head page foot) ≡ septets head + septets page + septets foot + 2
  septets-framed = omega (
    arith,
    septets-append head (codes "\n" ++ (page ++ (codes "\n" ++ foot))),
    septets-append (codes "\n") (page ++ (codes "\n" ++ foot)),
    septets-append page (codes "\n" ++ foot),
    septets-append (codes "\n") foot,
    feed_septets,
  )

  units-framed :
      ucs2_units (framed head page foot) ≡ length head + ucs2_units page + length foot + 2
  units-framed = omega (
    arith,
    ucs2_units-append head (codes "\n" ++ (page ++ (codes "\n" ++ foot))),
    ucs2_units-append (codes "\n") (page ++ (codes "\n" ++ foot)),
    ucs2_units-append page (codes "\n" ++ foot),
    ucs2_units-append (codes "\n") foot,
    ucs2_units-gsm head head_gsm,
    ucs2_units-gsm foot foot_gsm,
    feed_units,
  )

-- Header and footer take no more than the reserve, so a page that fits beside it fits with them.
pub framed_fits :
    (head page foot : Text) (reserve : ℕ)
    → all_basic head ≡ true
    → all_basic foot ≡ true
    → length head + length foot + 2 ≤ reserve
    → fits_with reserve page ≡ true
    → fits_screen (framed head page foot) ≡ true
framed_fits head page foot reserve hb fb room fits =
    let hg = all_gsm-basic head hb in
    let fg = all_gsm-basic foot fb in
    ground (
      arith,
      fits_screen_lem (framed head page foot),
      all_gsm-framed head page foot hg fg,
      septets-framed head page foot hg fg,
      units-framed head page foot hg fg,
      septets-basic head hb,
      septets-basic foot fb,
      fits_with_lem reserve page,
    )

-- Every number of a page up to 99.
abbrev pub all_below : ℕ → (ℕ → Bool) → Bool
all_below zero p = true
all_below (suc n) p = p n && all_below n p

pub all_below_sound : (n : ℕ) (p : ℕ → Bool) (x : ℕ) → all_below n p ≡ true → x < n → p x ≡ true
all_below_sound zero p x h lt = absurd (omega arith)
all_below_sound (suc n) p x h lt = ground (arith, all_below_sound n p x)

abbrev pub short_number : ℕ → Bool
short_number n = leb (length (print_nat n)) 2 && all_basic (print_nat n)

pub short_numbers : all_below 100 short_number ≡ true
unfolding print_nat all_basic openussd.Canonical.Encoding.is_basic
short_numbers = refl
