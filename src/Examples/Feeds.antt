-- ===== src/Examples/Feeds.antt =====
-- The screens of a post in the demonstration application.
use openussd.Prelude.{ℕ, ◌≡◌, ◌⊎◌, refl, true, false, [], ◌∷◌, replicate, length, arith}
use openussd.Strings.{trim_left, trim_right, Text, codes, text_eq, byte_len}
use openussd.Maps
use openussd.Canonical.Encoding.{fits_screen}
use openussd.Canonical.Encoding.Cost.{all_gsm, septets}
use openussd.Canonical.Encoding.Basic.{all_basic}
use openussd.Sdk.Gsm.{label}
use openussd.Fediverse.Mastodon.{Post}
use openussd.Fediverse.{
  FeedState, Ctx, post_at, pages_of, page_at, post_header, to_page, page_screen, render_post,
  feed_app,
}
use openussd.Fediverse.Pages.{fits_screen-render_post}
use openussd.Fediverse.Pages.Lines.{IsPageScreen}
use openussd.Fediverse.Pages.Turning.{after, reaches_page}
use openussd.Fediverse.Pages.Overflow.{page_overflows}
use openussd.Examples.Data.{dialled}

abbrev same_rune : ℕ → ℕ
same_rune c = c

abbrev long_post : Post
long_post = record { author = codes "Ann"; text = replicate 200 b'a'; when = codes "2h" }

abbrev reading : Post → Ctx
reading p = record {
  event = dialled;
  turn = 3;
  state = record { posts = p ∷ []; cursor = 0; page = 0; listed = 1 };
  lang = codes "sw";
  notice = [];
}

two_pages : length (pages_of same_rune (reading long_post) long_post) ≡ 2
unfolding pages_of post_header openussd.Sdk.Paginate.paginate openussd.Sdk.Paginate.no_room
    openussd.Strings.trim_space openussd.Strings.trim_left openussd.Strings.trim_right
    openussd.Strings.is_space openussd.Strings.has_prefix openussd.Strings.join
    openussd.Strings.fields_func openussd.Strings.fields_from openussd.Strings.fields
    openussd.Strings.contains_rune openussd.Strings.text_eq openussd.Strconv.print_from
    openussd.Strconv.print_nat openussd.Canonical.Encoding.is_basic
    openussd.Canonical.Encoding.is_extended openussd.Canonical.Encoding.encoding_of
    openussd.Canonical.Encoding.ucs2_units openussd.Canonical.Encoding.screen_cost
    openussd.Canonical.Encoding.budget fits_screen openussd.Sdk.Gsm.to_gsm openussd.Sdk.Gsm.is_break
    openussd.Sdk.Gsm.one_line label openussd.Sdk.Truncate.last_space
    openussd.Sdk.Truncate.truncate_long openussd.Sdk.Truncate.truncate openussd.Sdk.Bisect.bisect
    openussd.Sdk.Bisect.longest openussd.Sdk.I18n.translate openussd.Sdk.I18n.has
    openussd.Maps.lookup openussd.Maps.insert openussd.Fediverse.Words.bundle
    openussd.Fediverse.Words.english openussd.Fediverse.Words.swahili
    openussd.Fediverse.Words.french
two_pages = refl

ann : all_basic (label (codes "Ann") 28 (codes "Post")) ≡ true
unfolding label all_basic openussd.Strings.trim_space openussd.Sdk.Gsm.one_line
    openussd.Strings.join openussd.Strings.fields_func openussd.Sdk.Gsm.to_gsm
    openussd.Canonical.Encoding.encoding_of openussd.Canonical.Encoding.is_basic
    openussd.Sdk.Gsm.is_break openussd.Sdk.Truncate.truncate
ann = refl

fits_screen-render_post_example :
    (fits_screen (render_post same_rune (reading long_post)).1 ≡ true)
    × (((pages_of same_rune (reading long_post) long_post ≡ [])
          × ((render_post same_rune (reading long_post)).1 ≡ codes "Nothing to show here."))
        ⊎ IsPageScreen
            (pages_of same_rune (reading long_post) long_post)
            0
            (label (codes "Ann") 28 (codes "Post"))
            (render_post same_rune (reading long_post)).1)
fits_screen-render_post_example =
    fits_screen-render_post same_rune (reading long_post) long_post (refl, refl) refl
      (rw two_pages (omega arith)) ann

reaches_page_example :
    (after same_rune (to_page (reading long_post) 0) (replicate 1 (codes "1"))
      ≡ to_page (reading long_post) 1)
    × (after same_rune (to_page (reading long_post) 1) (replicate 1 (codes "2"))
        ≡ to_page (reading long_post) 0)
    × ((render_post same_rune (to_page (reading long_post) 1)).1
        ≡ page_screen same_rune
            (reading long_post)
            long_post
            (pages_of same_rune (reading long_post) long_post)
            1
            (page_at (pages_of same_rune (reading long_post) long_post) 1))
reaches_page_example =
    reaches_page same_rune (reading long_post) long_post 1 refl (rw two_pages (omega arith))

-- A name of brackets, and a text that fills what is left of the screen.
abbrev bracketed : Post
bracketed = record { author = replicate 28 b'['; text = replicate 121 b'a'; when = [] }

bracketed_label : label (replicate 28 b'[') 28 (codes "Post") ≡ replicate 28 b'['
unfolding label openussd.Strings.trim_space openussd.Strings.trim_left openussd.Strings.trim_right
    openussd.Strings.is_space openussd.Sdk.Gsm.one_line openussd.Strings.join
    openussd.Strings.fields_func openussd.Strings.fields_from openussd.Sdk.Gsm.to_gsm
    openussd.Canonical.Encoding.encoding_of openussd.Canonical.Encoding.is_basic
    openussd.Canonical.Encoding.is_extended openussd.Sdk.Gsm.is_break openussd.Sdk.Truncate.truncate
bracketed_label = refl

bracketed_gsm : all_gsm (label (replicate 28 b'[') 28 (codes "Post")) ≡ true
unfolding openussd.Canonical.Encoding.is_basic openussd.Canonical.Encoding.is_extended all_gsm
    openussd.Canonical.Encoding.Cost.is_gsm
bracketed_gsm = rw bracketed_label refl

bracketed_cost : septets (label (replicate 28 b'[') 28 (codes "Post")) ≡ 56
unfolding septets openussd.Canonical.Encoding.is_basic openussd.Canonical.Encoding.is_extended
bracketed_cost = rw bracketed_label refl

bracketed_length : length (label (replicate 28 b'[') 28 (codes "Post")) ≡ 28
bracketed_length = rw bracketed_label refl

text_left : trim_left (replicate 121 b'a') ≡ replicate 121 b'a'
unfolding trim_left openussd.Strings.is_space
text_left = refl

text_right : trim_right (replicate 121 b'a') ≡ replicate 121 b'a'
unfolding trim_right openussd.Strings.is_space
text_right = refl

text_gsm : all_gsm (replicate 121 b'a') ≡ true
unfolding openussd.Canonical.Encoding.is_basic all_gsm openussd.Canonical.Encoding.Cost.is_gsm
text_gsm = refl

text_cost : septets (replicate 121 b'a') ≡ 121
unfolding septets openussd.Canonical.Encoding.is_basic openussd.Canonical.Encoding.is_extended
text_cost = refl

page_overflows_example :
    (pages_of same_rune (reading bracketed) bracketed ≡ replicate 121 b'a' ∷ [])
    × (fits_screen (render_post same_rune (to_page (reading bracketed) 0)).1 ≡ false)
page_overflows_example =
    page_overflows same_rune (reading bracketed) bracketed (refl, refl) refl refl text_left
      text_right bracketed_gsm text_gsm (omega (arith, bracketed_length, text_cost))
      (omega (arith, bracketed_cost, text_cost))
