-- ===== src/Fediverse/Pages.antt =====
-- main.go: the screen of a post, its header, a page of the text and the controls, fits a screen.
pub mod Lines
pub mod Turning
pub mod Overflow
use openussd.Prelude.{
  ℕ, zero, suc, ◌+◌, ◌-◌, ◌≤◌, ◌<◌, ◌≡◌, ◌≢◌, refl, sym, ◌∙◌, ap, subst, Bool, true, false, ◌&&◌,
  Option, none, some, List, [], ◌∷◌, ◌++◌, ltb, leb, ◌==◌, map, length, arith, if◌then◌else◌,
  Bool-cases, ◌⊎◌, inl, inr, All, length-append,
}
use openussd.Strings.{Text, codes, text_eq, join}
use openussd.Strconv.{print_nat}
use mathlib.Core.Option.{get_or}
use openussd.Maps
use openussd.Maps.{Map}
use openussd.Canonical.Encoding.{fits_screen, ucs2_units}
use openussd.Canonical.Encoding.Cost.{all_gsm, septets}
use openussd.Canonical.Encoding.Fits.{
  fits_with, fits_with_lem, all_gsm-append, septets-append, ucs2_units-append,
}
use openussd.Canonical.Encoding.Basic.{
  all_basic, ucs2_units-gsm, septets-basic, all_gsm-basic, all_basic-append, fits_screen_lem,
}
use openussd.Sdk.Gsm.{label, to_gsm}
use openussd.Sdk.I18n.{translate}
use openussd.Sdk.Paginate.Pages.{IsPage, paginate_pages_fit}
use openussd.Fediverse.Mastodon.{Post}
use openussd.Fediverse.Words.{bundle, english, swahili, french}
use openussd.Fediverse.{
  FeedState, Ctx, max_header_len, widest_page_counter, page_counter, post_header, post_at, t,
  all_controls, pages_of, post_pages, controls, page_screen, page_at, clamp_page, render_post,
}
use openussd.Fediverse.Frame.{framed, framed_fits, all_below_sound, short_number, short_numbers}
use openussd.Fediverse.Pages.Lines.{
  IsPageScreen, clamp_page-lt, render_post-nothing, render_post-page, render_post-IsPageScreen,
}
use openussd.Fediverse.Controls.{
  KeepsEn, error_empty, nav_of, nav_of_short, length-all_controls, controls-nav_of,
}

numbers : (n : ℕ) → n ≤ 99 → (length (print_nat n) ≤ 2) × (all_basic (print_nat n) ≡ true)
numbers n h = let e = all_below_sound 100 short_number n short_numbers (omega arith) in ground arith

spelled_basic :
    (page pages : ℕ)
    → all_basic (print_nat page) ≡ true
    → all_basic (print_nat pages) ≡ true
    → all_basic (page_counter page pages) ≡ true
unfolding all_basic openussd.Canonical.Encoding.is_basic
spelled_basic page pages b b' =
    rw
      (
        all_basic-append (print_nat page) (codes "/" ++ (print_nat pages ++ codes ")")),
        b,
        all_basic-append (print_nat pages) (codes ")"),
        b',
      )
      refl

counter_basic :
    (page pages : ℕ)
    → page ≤ 99
    → pages ≤ 99
    → (length (page_counter page pages) ≤ 8) × (all_basic (page_counter page pages) ≡ true)
counter_basic page pages h k =
    let (l, b) = numbers page h in
    let (l', b') = numbers pages k in
    (
      omega (
        arith,
        length-append (print_nat page) (codes "/" ++ (print_nat pages ++ codes ")")),
        length-append (print_nat pages) (codes ")"),
        l,
        l',
      ),
      spelled_basic page pages b b',
    )

widest : length (page_counter widest_page_counter widest_page_counter) ≡ 8
unfolding print_nat
widest = refl

-- The header of a page is GSM text without extensions, no longer than what is reserved for it.
post_header_basic :
    (p : Post) (page pages : ℕ)
    → page ≤ 99
    → pages ≤ 99
    → all_basic (label p.author max_header_len (codes "Post")) ≡ true
    → (all_basic (post_header p page pages) ≡ true)
      × (length (post_header p page pages)
          ≤ length (post_header p widest_page_counter widest_page_counter))
unfolding post_header
post_header_basic p page pages h k basic =
    let name = label p.author max_header_len (codes "Post") in
    let (short, spelled) = counter_basic page pages h k in
    let whole = length-append name (page_counter widest_page_counter widest_page_counter) in
    elim (Bool-cases (ltb 1 pages)) [
      | inl many ↦
          rw (many, post_header)
            (
              rw (all_basic-append name (page_counter page pages), basic, spelled) refl,
              omega (arith, whole, widest, short, length-append name (page_counter page pages)),
            )
      | inr one ↦ rw (one, post_header) (basic, omega (arith, whole))
    ]

module _ (lower : ℕ → ℕ) (keeps : KeepsEn lower) (c : Ctx) (post : Post) where
  -- A page of the post that fits beside the reserve fits a screen between its header and controls.
  page_screen_fits :
      (pages : List Text) (page : ℕ) (text : Text)
      → page + 1 ≤ 99
      → length pages ≤ 99
      → all_basic (label post.author max_header_len (codes "Post")) ≡ true
      → fits_with
          (length (post_header post widest_page_counter widest_page_counter)
            + length (all_controls lower c)
            + 2)
          text
        ≡ true
      → fits_screen (page_screen lower c post pages page text) ≡ true
  page_screen_fits pages page text h k basic fits =
      let (head, room) = post_header_basic post (page + 1) (length pages) h k basic in
      let short = nav_of_short (ltb (page + 1) (length pages)) (ltb 0 page) in
      rw (controls-nav_of lower keeps c page (length pages)) (
        framed_fits (post_header post (page + 1) (length pages)) text
          (nav_of (ltb (page + 1) (length pages)) (ltb 0 page)) _ head (ground arith)
          (ground (arith, length-all_controls lower keeps c)) fits)

page_at-All :
    (P : Text → Type 0) (pages : List Text) (i : ℕ)
    → All P pages
    → i < length pages
    → P (page_at pages i)
page_at-All P [] i h lt = elim lt [ ]
page_at-All P (p ∷ pages) zero h lt = h.0
page_at-All P (p ∷ pages) (suc i) h lt = page_at-All P pages i h.1 (omega arith)

nothing_fits : fits_screen (codes "Nothing to show here.") ≡ true
unfolding fits_screen openussd.Canonical.Encoding.screen_cost openussd.Canonical.Encoding.is_basic
nothing_fits = refl

pages_of-IsPage :
    (lower : ℕ → ℕ) (c : Ctx) (post : Post)
    → All
        (IsPage (
          length (post_header post widest_page_counter widest_page_counter)
          + length (all_controls lower c)
          + 2))
        (pages_of lower c post)
unfolding pages_of
pages_of-IsPage lower c post = paginate_pages_fit post.text _

no_pages : (pages : List Text) → (length pages == 0) ≡ true → pages ≡ []
no_pages [] h = refl
no_pages (p ∷ pages) h = absurd (ground arith)

-- The screen of a post fits before anything is cut off it. It is the line for nothing to show if the
-- post has no page. Otherwise a line with the label of the author, and with which page of how many
-- it is if there are several, the page that was turned to or the last one, and a line with the
-- controls that lead somewhere stand on it whole. The post has at most 99 pages, its author's label
-- needs no rune of the extension table, and ToLower leaves the letters of "en" as they are.
pub fits_screen-render_post :
    (lower : ℕ → ℕ) (c : Ctx) (post : Post)
    → KeepsEn lower
    → post_at c.state.posts c.state.cursor ≡ some post
    → length (pages_of lower c post) ≤ 99
    → all_basic (label post.author max_header_len (codes "Post")) ≡ true
    → (fits_screen (render_post lower c).1 ≡ true)
      × (((pages_of lower c post ≡ []) × ((render_post lower c).1 ≡ codes "Nothing to show here."))
          ⊎ IsPageScreen
              (pages_of lower c post)
              c.state.page
              (label post.author max_header_len (codes "Post"))
              (render_post lower c).1)
fits_screen-render_post lower c post keeps found most basic =
    let pages = pages_of lower c post in
    let page = clamp_page c.state.page (length pages) in
    elim (Bool-cases (length pages == 0)) [
      | inl nothing ↦
          let e = render_post-nothing lower keeps c post found nothing in
          (rw e nothing_fits, inl (no_pages pages nothing, e))
      | inr some_page ↦
          let inside = clamp_page-lt c.state.page (length pages) some_page in
          (
            rw (render_post-page lower keeps c post found some_page) (
                page_screen_fits lower keeps c post pages page (page_at pages page)
                  (omega (arith, inside, most)) most basic
                  (page_at-All _ pages page (pages_of-IsPage lower c post) inside).0),
            inr (render_post-IsPageScreen lower keeps c post found some_page),
          )
    ]
