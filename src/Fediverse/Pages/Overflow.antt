-- ===== src/Fediverse/Pages/Overflow.antt =====
-- main.go: the screen of a post whose author's name has runes that cost two septets.
use openussd.Prelude.{
  ℕ, ◌+◌, ◌≤◌, ◌<◌, ◌≡◌, refl, ap, true, false, some, [], ◌∷◌, length, length-append, leb→le, arith,
}
use openussd.Strings.{Text, codes, is_empty, trim_left, trim_right}
use openussd.Canonical.Encoding.Fits.{fits_with_lem}
use openussd.Sdk.Gsm.{label}
use openussd.Sdk.Paginate.Whole.{paginate-one}
use openussd.Canonical.Encoding.{fits_screen}
use openussd.Canonical.Encoding.Cost.{all_gsm, septets}
use openussd.Canonical.Encoding.Basic.{all_gsm-basic, fits_screen_lem}
use openussd.Fediverse.Mastodon.{Post}
use openussd.Fediverse.{
  Ctx, max_header_len, widest_page_counter, page_counter, all_controls, post_header, post_at,
  to_page, pages_of, render_post,
}
use openussd.Fediverse.Frame.{framed, all_gsm-framed, septets-framed}
use openussd.Fediverse.Controls.{
  KeepsEn, length-all_controls, nav_of, nav_of_short, nav_of_seven, controls-nav_of,
}
use openussd.Fediverse.Pages.Turning.{shown_page}

framed_overflows :
    (head page foot : Text)
    → all_gsm head ≡ true
    → all_gsm foot ≡ true
    → all_gsm page ≡ true
    → 180 < septets head + septets page + septets foot
    → fits_screen (framed head page foot) ≡ false
framed_overflows head page foot hg fg pg heavy = ground (
  arith,
  fits_screen_lem (framed head page foot),
  all_gsm-framed head page foot hg fg,
  septets-framed head page foot hg fg,
)

module _ (lower : ℕ → ℕ) (c : Ctx) (post : Post) (keeps : KeepsEn lower) where
  -- What is kept free beside a page: the runes of the label, the widest counter, all the controls and
  -- two line feeds.
  reserve_lem :
      length (post_header post widest_page_counter widest_page_counter)
        + length (all_controls lower c)
        + 2
      ≡ length (label post.author max_header_len (codes "Post")) + 33
  unfolding post_header
  reserve_lem = omega (
    arith,
    length-append (label post.author max_header_len (codes "Post"))
        (page_counter widest_page_counter widest_page_counter),
    length-all_controls lower keeps c,
    widest,
  )
    where
      widest : length (page_counter widest_page_counter widest_page_counter) ≡ 8
      widest = unfold openussd.Strconv.print_nat in refl

  pages_of-one :
      is_empty post.text ≡ false
      → trim_left post.text ≡ post.text
      → trim_right post.text ≡ post.text
      → all_gsm post.text ≡ true
      → length (label post.author max_header_len (codes "Post")) + 33 + septets post.text ≤ 182
      → pages_of lower c post ≡ post.text ∷ []
  unfolding pages_of
  pages_of-one given left right gsm room =
      let reserve =
        length (post_header post widest_page_counter widest_page_counter)
        + length (all_controls lower c)
        + 2 in
      paginate-one post.text reserve given
        (ground (arith, fits_with_lem reserve post.text, reserve_lem, gsm, room)) gsm left right

-- If the text of a post fits beside the runes of the author's label, the page counter, the controls
-- and two line feeds, but label and text cost more than 173 septets together, then the text is the one
-- page of the post, and the screen of that page does not fit. Label and text are GSM text, the text is
-- not empty and is trimmed, and ToLower leaves the letters of "en" as they are.
pub page_overflows :
    (lower : ℕ → ℕ) (c : Ctx) (post : Post)
    → KeepsEn lower
    → post_at c.state.posts c.state.cursor ≡ some post
    → is_empty post.text ≡ false
    → trim_left post.text ≡ post.text
    → trim_right post.text ≡ post.text
    → all_gsm (label post.author max_header_len (codes "Post")) ≡ true
    → all_gsm post.text ≡ true
    → length (label post.author max_header_len (codes "Post")) + 33 + septets post.text ≤ 182
    → 173 < septets (label post.author max_header_len (codes "Post")) + septets post.text
    → (pages_of lower c post ≡ post.text ∷ [])
      × (fits_screen (render_post lower (to_page c 0)).1 ≡ false)
unfolding post_header
page_overflows lower c post keeps found given left right hg pg room heavy =
    let one = pages_of-one lower c post keeps given left right pg room in
    let inside : 0 < length (pages_of lower c post) = rw one (omega arith) in
    let seven = leb→le 7 (septets (nav_of false false)) (nav_of_seven false false) in
    (
      one,
      rw
          (
            ap (λ (p : Ctx × Text). p.1) (shown_page lower c post found 0 inside),
            one,
            controls-nav_of lower keeps c 0 1,
          )
          (framed_overflows (label post.author max_header_len (codes "Post")) post.text
            (nav_of false false) hg
            (all_gsm-basic (nav_of false false) (ground (arith, nav_of_short false false))) pg
            (omega (arith, heavy, seven))),
    )
