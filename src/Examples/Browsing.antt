-- ===== src/Examples/Browsing.antt =====
-- A dialogue with the demonstration application.
use openussd.Prelude.{
  ℕ, Bool, ◌&&◌, ◌==◌, sym, ◌∙◌, ap, some-injective, Bool-cases, ◌≡◌, inl, inr, refl, true, false,
  Option, none, some, List, [], ◌∷◌, ◌++◌, ok, arith, if◌then◌else◌,
}
use openussd.Strings.{Text, codes, text_eq, byte_len}
use openussd.Maps
use openussd.Canonical.Encoding.{fits_screen}
use openussd.Canonical.Event.{Event, continue_with}
use openussd.Sdk.Gsm.{label}
use openussd.Sdk.App.{Stored, Codec, turn}
use openussd.Fediverse.Mastodon.{Post}
use openussd.Fediverse.{
  FeedState, Ctx, post_at, pages_of, page_at, post_header, to_page, page_screen, render_post,
  feed_app,
}
use openussd.Fediverse.Sound.{feed, feed_app_builds}
use openussd.Fediverse.Sound.Histories.{begins, turns, ReadsBack, IsReady, Browses-IsReady}
use openussd.Canonical.Event.{phase_continue}
use openussd.Strings.Equal.{text_eq_iff}
use openussd.Examples.Data.{dialled}

abbrev same_rune : ℕ → ℕ
same_rune c = c

abbrev pressed_seven : Event
pressed_seven = record dialled { path = codes "7" ∷ []; phase = phase_continue }

-- A codec that writes only the state with which the application begins.
abbrev is_nil : List Post → Bool
is_nil [] = true
is_nil (p ∷ posts) = false

is_nil_lem : (posts : List Post) → is_nil posts ≡ true → posts ≡ []
is_nil_lem [] h = refl
is_nil_lem (p ∷ posts) h = absurd (ground arith)

-- The state is that with which the application begins.
abbrev is_begun : FeedState → Bool
is_begun st = is_nil st.posts && (st.cursor == 0 && (st.page == 0 && st.listed == 0))

abbrev begun : FeedState
begun = record { posts = []; cursor = 0; page = 0; listed = 0 }

is_begun_lem : (st : FeedState) → is_begun st ≡ true → st ≡ begun
is_begun_lem st h =
    let posts : st.posts ≡ [] = is_nil_lem st.posts (ground arith) in
    let cursor : st.cursor ≡ 0 = ground arith in
    let page : st.page ≡ 0 = ground arith in
    let listed : st.listed ≡ 0 = ground arith in
    ap (λ ps. record st { posts = ps }) posts
    ∙ ap (λ n. record begun { cursor = n; page = st.page; listed = st.listed }) cursor
    ∙ ap (λ n. record begun { page = n; listed = st.listed }) page
    ∙ ap (λ n. record begun { listed = n }) listed

abbrev write : Stored FeedState → Option Text
write st = if text_eq st.lang (codes "en") && is_begun st.app then some (b'x' ∷ st.screen) else none

abbrev read : Text → Option (Stored FeedState)
read [] = none
read (c ∷ screen) = some (record { screen = screen; lang = codes "en"; app = begun })

abbrev begun_codec : Codec FeedState
begun_codec = record { decode = read; encode = write; zero = begun; lower = same_rune }

begun_codec-ReadsBack : ReadsBack begun_codec
begun_codec-ReadsBack st blob h =
    elim (Bool-cases (text_eq st.lang (codes "en") && is_begun st.app)) [
      | inr other ↦ absurd (ground (arith, rw other at h))
      | inl both ↦
          let same : b'x' ∷ st.screen ≡ blob = some-injective (rw both at h) in
          let english : text_eq st.lang (codes "en") ≡ true = ground arith in
          let lang : st.lang ≡ codes "en" = (text_eq_iff st.lang (codes "en")).0 english in
          let app : st.app ≡ begun = is_begun_lem st.app (ground arith) in
          ap read (sym same)
          ∙ ap (λ l. some (record st { lang = l; app = begun })) (sym lang)
          ∙ ap (λ a. some (record st { app = a })) (sym app)
    ]

-- The first turn shows the menu; the second turn is an input that no option has.
abbrev menu_text : Text
menu_text = codes "OpenUSSD Fediverse\n1. Public timeline\n2. About\n0. Quit"

menu_turn :
    turn begun_codec (feed same_rune none) dialled 1 none
    ≡ ok (continue_with menu_text, some (codes "xmenu"))
unfolding pages_of post_header openussd.Sdk.Paginate.paginate openussd.Sdk.Paginate.no_room
    openussd.Strings.trim_space openussd.Strings.trim_left openussd.Strings.trim_right
    openussd.Strings.is_space openussd.Strings.has_prefix openussd.Strings.join
    openussd.Strings.fields_func openussd.Strings.fields_from openussd.Strings.fields
    openussd.Strings.contains_rune openussd.Strings.text_eq openussd.Strconv.print_from
    openussd.Strconv.print_nat openussd.Canonical.Encoding.is_basic
    openussd.Canonical.Encoding.is_extended openussd.Canonical.Encoding.encoding_of
    openussd.Canonical.Encoding.ucs2_units openussd.Canonical.Encoding.screen_cost
    openussd.Canonical.Encoding.budget fits_screen openussd.Sdk.Gsm.to_gsm openussd.Sdk.Gsm.is_break
    openussd.Sdk.Gsm.one_line label openussd.Sdk.Truncate.last_space
    openussd.Sdk.Truncate.truncate_long openussd.Sdk.Truncate.truncate openussd.Sdk.Bisect.bisect
    openussd.Sdk.Bisect.longest openussd.Sdk.I18n.translate openussd.Sdk.I18n.has
    openussd.Maps.lookup openussd.Maps.insert openussd.Fediverse.Words.bundle
    openussd.Fediverse.Words.english openussd.Fediverse.Words.swahili
    openussd.Fediverse.Words.french turn openussd.Sdk.Shrink.shrink openussd.Fediverse.menu_prompt
    openussd.Fediverse.menu_handle openussd.Sdk.Menu.menu openussd.Sdk.Menu.line
    openussd.Sdk.Menu.longest_label_that_fits openussd.Sdk.Menu.menu_from
menu_turn = refl

wrong_turn :
    turn begun_codec (feed same_rune none) pressed_seven 2 (some (codes "xmenu"))
    ≡ ok (continue_with (codes "Invalid choice.\n" ++ menu_text), some (codes "xmenu"))
unfolding pages_of post_header openussd.Sdk.Paginate.paginate openussd.Sdk.Paginate.no_room
    openussd.Strings.trim_space openussd.Strings.trim_left openussd.Strings.trim_right
    openussd.Strings.is_space openussd.Strings.has_prefix openussd.Strings.join
    openussd.Strings.fields_func openussd.Strings.fields_from openussd.Strings.fields
    openussd.Strings.contains_rune openussd.Strings.text_eq openussd.Strconv.print_from
    openussd.Strconv.print_nat openussd.Canonical.Encoding.is_basic
    openussd.Canonical.Encoding.is_extended openussd.Canonical.Encoding.encoding_of
    openussd.Canonical.Encoding.ucs2_units openussd.Canonical.Encoding.screen_cost
    openussd.Canonical.Encoding.budget fits_screen openussd.Sdk.Gsm.to_gsm openussd.Sdk.Gsm.is_break
    openussd.Sdk.Gsm.one_line label openussd.Sdk.Truncate.last_space
    openussd.Sdk.Truncate.truncate_long openussd.Sdk.Truncate.truncate openussd.Sdk.Bisect.bisect
    openussd.Sdk.Bisect.longest openussd.Sdk.I18n.translate openussd.Sdk.I18n.has
    openussd.Maps.lookup openussd.Maps.insert openussd.Fediverse.Words.bundle
    openussd.Fediverse.Words.english openussd.Fediverse.Words.swahili
    openussd.Fediverse.Words.french turn openussd.Sdk.Shrink.shrink openussd.Fediverse.menu_prompt
    openussd.Fediverse.menu_handle openussd.Sdk.Menu.menu openussd.Sdk.Menu.line
    openussd.Sdk.Menu.longest_label_that_fits openussd.Sdk.Menu.menu_from
    openussd.Canonical.Event.last_input
wrong_turn = refl

Browses-IsReady_example : IsReady begun_codec (some (codes "xmenu"))
Browses-IsReady_example = Browses-IsReady begun_codec (some (codes "xmenu")) begun_codec-ReadsBack (
    turns none (feed same_rune none) pressed_seven 2 _
      (turns none (feed same_rune none) dialled 1 _ begins (feed_app_builds same_rune none)
        menu_turn)
      (feed_app_builds same_rune none) wrong_turn)
