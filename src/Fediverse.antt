-- ===== src/Fediverse.antt =====
-- adapters/fediverse/main.go: the demonstration application, three screens over a public timeline.
pub mod Plain
pub mod Mastodon
pub mod Words
pub mod Frame
pub mod Controls
pub mod Pages
pub mod Sound
use openussd.Prelude.{
  ℕ, zero, suc, ◌+◌, ◌-◌, Bool, true, false, not, ◌&&◌, ◌||◌, Option, none, some, List, [], ◌∷◌,
  ◌++◌, ltb, leb, ◌==◌, length, if◌then◌else◌, Result, ok, err, map_err, ◌>>=◌, ◌>>◌, ℤ, pos,
  negsuc,
}
use openussd.Strings.{Text, codes, text_eq, is_empty, trim_space, join}
use openussd.Strconv.{print_nat, parse_int}
use openussd.Sdk.Gsm.{label, to_gsm}
use openussd.Sdk.Menu.{MenuItem, item, menu, menu_fit}
use openussd.Sdk.Paginate.{paginate}
use openussd.Sdk.I18n.{Bundle, translate}
use openussd.Sdk.App.{
  Context, Action, goto, stay, finish, Screen, App, AppError, new_app, with_bundle,
}
use openussd.Fediverse.Mastodon.{Post, Web, Reading, public_timeline}
use openussd.Fediverse.Words.{bundle}

abbrev pub timeline_size : ℕ
timeline_size = 10

-- The session state of the application.
pub record FeedState : Type 0 where
  pub posts : List Post
  pub cursor : ℕ
  pub page : ℕ
  pub listed : ℕ

abbrev pub Ctx : Type 0
Ctx = Context FeedState

abbrev pub max_header_len : ℕ
max_header_len = 28

abbrev pub widest_page_counter : ℕ
widest_page_counter = 99

abbrev pub page_counter : ℕ → ℕ → Text
page_counter page pages =
    codes " (" ++ (print_nat page ++ (codes "/" ++ (print_nat pages ++ codes ")")))

unfoldable pub post_header : Post → ℕ → ℕ → Text
post_header p page pages =
    let header = label p.author max_header_len (codes "Post") in
    if ltb 1 pages then header ++ page_counter page pages else header

abbrev pub post_at : List Post → ℕ → Option Post
post_at [] i = none
post_at (p ∷ posts) zero = some p
post_at (p ∷ posts) (suc i) = post_at posts i

-- The loop of the timeline screen over the posts, from the number `i` on.
unfoldable pub timeline_items : ℕ → List Post → List MenuItem
timeline_items i [] = []
timeline_items i (p ∷ posts) =
    let name = label p.author max_header_len (codes "Post " ++ print_nat (i + 1)) in
    let shown = if is_empty p.when then name else name ++ (codes " (" ++ (p.when ++ codes ")")) in
    item (print_nat (i + 1)) shown ∷ timeline_items (i + 1) posts

abbrev pub page_at : List Text → ℕ → Text
page_at [] i = []
page_at (p ∷ pages) zero = p
page_at (p ∷ pages) (suc i) = page_at pages i

-- The page that is shown: the last one where the state is past it.
abbrev pub clamp_page : ℕ → ℕ → ℕ
clamp_page page count = if leb count page then count - 1 else page

-- A choice that is listed, by `strconv.Atoi`.
abbrev pub chosen : ℕ → Option ℤ → Option ℕ
chosen listed none = none
chosen listed (some (negsuc n)) = none
chosen listed (some (pos zero)) = none
chosen listed (some (pos (suc n))) = if ltb listed (suc n) then none else some n

abbrev pub with_posts : Ctx → List Post → Ctx
with_posts c posts = record c { state = record c.state { posts = posts } }

abbrev pub to_post_at : Ctx → ℕ → Ctx
to_post_at c n = record c { state = record c.state { cursor = n; page = 0 } }

abbrev pub to_page : Ctx → ℕ → Ctx
to_page c page = record c { state = record c.state { page = page } }

-- What the menu is given when it asks for the timeline.
unfoldable pub fetch_timeline : Web → Reading → Text → Option (List Post)
fetch_timeline web r instance_url = elim (public_timeline web r instance_url timeline_size) [
  | err _ ↦ none
  | ok posts ↦ some posts
]

-- `unicode.ToLower` on a rune is the parameter.
module _ (lower : ℕ → ℕ) where
  abbrev pub t : Ctx → Text → Text
  t c key = translate lower (some bundle) c.lang key

  abbrev pub all_controls : Ctx → Text
  all_controls c = to_gsm (
      join (t c (codes "nav.next") ∷ t c (codes "nav.prev") ∷ t c (codes "nav.back") ∷ [])
        (codes " "))

  unfoldable pub pages_of : Ctx → Post → List Text
  unfolding post_header
  pages_of c post =
      let header = post_header post widest_page_counter widest_page_counter in
      paginate post.text (length header + length (all_controls c) + 2)

  unfoldable pub post_pages : Ctx → List Text
  unfolding pages_of
  post_pages c = elim (post_at c.state.posts c.state.cursor) [
    | none ↦ []
    | some post ↦ pages_of c post
  ]

  -- The controls that lead somewhere from the page `page` of `count`.
  unfoldable pub controls : Ctx → ℕ → ℕ → List Text
  controls c page count =
      (if ltb (page + 1) count then t c (codes "nav.next") ∷ [] else [])
      ++ ((if ltb 0 page then t c (codes "nav.prev") ∷ [] else []) ++ t c (codes "nav.back") ∷ [])

  abbrev pub page_screen : Ctx → Post → List Text → ℕ → Text → Text
  page_screen c post pages page text =
      post_header post (page + 1) (length pages)
      ++ (codes "\n"
          ++ (text ++ (codes "\n" ++ to_gsm (join (controls c page (length pages)) (codes " ")))))

  unfoldable pub render_post : Ctx → Ctx × Text
  unfolding post_pages controls
  render_post c = elim (post_at c.state.posts c.state.cursor) [
    | none ↦ (c, t c (codes "error.empty"))
    | some post ↦
        let pages = pages_of c post in
        let page = clamp_page c.state.page (length pages) in
        if length pages == 0 then (c, t c (codes "error.empty")) else (
          record c { state = record c.state { page = page } },
          page_screen c post pages page (page_at pages page),
        )
  ]

  unfoldable pub menu_prompt : Ctx → Ctx × Result Text Text
  menu_prompt c = (
    c,
    ok (
        menu (t c (codes "menu.title")) (
          item (codes "1") (t c (codes "menu.timeline"))
          ∷ item (codes "2") (t c (codes "menu.about"))
          ∷ item (codes "0") (t c (codes "menu.quit"))
          ∷ [])),
  )

  -- What `PublicTimeline` returned is the first argument.
  unfoldable pub menu_handle : Option (List Post) → Ctx → Text → Ctx × Result Text Action
  menu_handle fetched c input =
      if text_eq input (codes "1")
      then elim fetched [
        | none ↦ (c, ok (stay (t c (codes "error.fetch"))))
        | some posts ↦ (with_posts c posts, ok (goto (codes "timeline")))
      ]
      else if text_eq input (codes "2")
      then (c, ok (goto (codes "about")))
      else if text_eq input (codes "0")
      then (c, ok (finish (t c (codes "session.ended"))))
      else (c, ok (stay (t c (codes "error.choice"))))

  unfoldable pub timeline_prompt : Ctx → Ctx × Result Text Text
  unfolding timeline_items
  timeline_prompt c =
      let title = t c (codes "timeline.title") in
      let headed = if is_empty c.notice then title else c.notice ++ (codes "\n" ++ title) in
      let (screen, shown) =
        menu_fit headed (timeline_items 0 c.state.posts)
          (item (codes "0") (t c (codes "menu.quit")) ∷ []) in
      (record c { state = record c.state { listed = shown } }, ok screen)

  unfoldable pub timeline_handle : Ctx → Text → Ctx × Result Text Action
  timeline_handle c input =
      if text_eq input (codes "0")
      then (c, ok (finish (t c (codes "session.ended"))))
      else elim (chosen c.state.listed (parse_int (trim_space input))) [
        | none ↦ (c, ok (stay (t c (codes "error.choice"))))
        | some n ↦ (to_post_at c n, ok (goto (codes "post")))
      ]

  unfoldable pub post_handle : Ctx → Text → Ctx × Result Text Action
  unfolding post_pages
  post_handle c input =
      let count = length (post_pages c) in
      let page = c.state.page in
      let refused : Ctx × Result Text Action = (c, ok (stay (t c (codes "error.choice")))) in
      if text_eq input (codes "1")
      then (if leb count (page + 1)
          then refused
          else (to_page c (page + 1), ok (goto (codes "post"))))
      else if text_eq input (codes "2")
      then (if page == 0 then refused else (to_page c (page - 1), ok (goto (codes "post"))))
      else if text_eq input (codes "0")
      then (c, ok (goto (codes "timeline")))
      else refused

  abbrev pub menu_screen : Option (List Post) → Screen FeedState
  menu_screen fetched = record {
    name = codes "menu";
    prompt = some menu_prompt;
    handle = some (menu_handle fetched);
  }

  abbrev pub timeline_screen : Screen FeedState
  timeline_screen = record {
    name = codes "timeline";
    prompt = some timeline_prompt;
    handle = some timeline_handle;
  }

  abbrev pub post_screen : Screen FeedState
  post_screen = record {
    name = codes "post";
    prompt = some (λ c. let shown = render_post c in (shown.0, ok (shown.1)));
    handle = some post_handle;
  }

  abbrev pub about_screen : Screen FeedState
  about_screen = record {
    name = codes "about";
    prompt = some (λ c. (c, ok (t c (codes "about.body"))));
    handle = none;
  }

  abbrev pub screens : Option (List Post) → List (Screen FeedState)
  screens fetched = menu_screen fetched ∷ timeline_screen ∷ post_screen ∷ about_screen ∷ []

  abbrev pub feed_app : Option (List Post) → Result AppError (App FeedState)
  feed_app fetched = do
    app ← new_app (codes "menu") (screens fetched)
    ok (with_bundle (some bundle) app)
