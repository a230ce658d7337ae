-- ===== src/Fediverse/Sound.antt =====
-- main.go: the session state of the application stays sound, from turn to turn.
pub mod Turns
pub mod Histories
use openussd.Prelude.{
  ℕ, zero, suc, ◌+◌, ◌≤◌, ◌<◌, ◌≡◌, ◌≢◌, refl, sym, ◌∙◌, ap, subst, ◌⊎◌, inl, inr, Bool, true,
  false, Option, none, some, List, [], ◌∷◌, ◌++◌, ltb, leb, ◌==◌, length, get_or, arith,
  if◌then◌else◌, Bool-cases, Option-cases, Result, ok, err, some-injective, ℤ, pos, negsuc,
}
use openussd.Strings.{Text, codes, text_eq, is_empty, trim_space}
use openussd.Strconv.{parse_int}
use openussd.Maps
use openussd.Maps.{Map}
use openussd.Canonical.Event.{Event}
use openussd.Canonical.Encoding.{fits_screen}
use openussd.Sdk.Menu.{MenuItem, item, lines, menu_fit}
use openussd.Sdk.Menu.Fits.{HasFooter, menu_fit-HasFooter}
use openussd.Sdk.I18n.{default_lang}
use openussd.Sdk.App.{
  Context, Stored, Action, Screen, App, Codec, new_app, with_bundle, restore, turn, goto, stay,
}
use openussd.Sdk.App.Built.{IsApp, new_app-IsApp}
use openussd.Sdk.App.Answers.{with_bundle-IsApp}
use openussd.Sdk.App.Keeps.{Keeps, target, IsKept, turn-IsKept}
use openussd.Fediverse.Mastodon.{Post}
use openussd.Fediverse.Words.{bundle}
use openussd.Fediverse.{
  FeedState, Ctx, t, timeline_items, post_at, pages_of, render_post, menu_prompt, menu_handle,
  timeline_prompt, chosen, timeline_handle, post_handle, menu_screen, timeline_screen, post_screen,
  about_screen, feed_app,
}

-- What holds of a state that waits for input: the options that were listed are posts, and the post
-- that is read is there.
abbrev pub Held : Text → FeedState → Type 0
Held name s =
    (name ≡ codes "timeline" → s.listed ≤ length s.posts)
    × (name ≡ codes "post" → s.cursor < length s.posts)

abbrev pub Entry : Text → FeedState → Type 0
Entry name s = name ≡ codes "post" → s.cursor < length s.posts

-- Two names with different first runes.
pub apart : (c d : ℕ) (s s' : Text) → c ≢ d → c ∷ s ≢ d ∷ s'
apart c d s s' h e = h (ap (λ (w : Text). get_or w 0 0) e)

lookup_cases {ℓ} :
    {V : Type ℓ} (k n : Text) (v w : V) (m : Map V)
    → Maps.lookup k ((n, v) ∷ m) ≡ some w
    → (v ≡ w) ⊎ (Maps.lookup k m ≡ some w)
unfolding Maps.lookup
lookup_cases k n v w m h = elim (Bool-cases (text_eq n k)) [
  | inl here ↦ inl (some-injective (rw here at h))
  | inr there ↦ inr (rw there at h)
]

lookup_nil {ℓ} : {V : Type ℓ} (k : Text) (w : V) → Maps.lookup {V = V} k [] ≡ some w → ⊥
unfolding Maps.lookup
lookup_nil k w h = ground arith

module _ (lower : ℕ → ℕ) (fetched : Option (List Post)) where
  -- The application that is built.
  abbrev pub feed : App FeedState
  feed = record {
    screens =
        (codes "menu", menu_screen lower fetched)
        ∷ (codes "timeline", timeline_screen lower)
        ∷ (codes "post", post_screen lower)
        ∷ (codes "about", about_screen lower)
        ∷ [];
    start = codes "menu";
    bundle = some bundle;
    default_lang = default_lang;
  }

  pub feed_app_builds : feed_app lower fetched ≡ ok feed
  unfolding new_app Maps.lookup Maps.insert text_eq with_bundle
  feed_app_builds = refl

  pub is_screen :
      (k : Text) (s : Screen FeedState)
      → Maps.lookup k feed.screens ≡ some s
      → (menu_screen lower fetched ≡ s)
        ⊎ ((timeline_screen lower ≡ s) ⊎ ((post_screen lower ≡ s) ⊎ (about_screen lower ≡ s)))
  is_screen k s h = elim (lookup_cases k _ (menu_screen lower fetched) s _ h) [
    | inl e ↦ inl e
    | inr h1 ↦ elim (lookup_cases k _ (timeline_screen lower) s _ h1) [
      | inl e ↦ inr (inl e)
      | inr h2 ↦ elim (lookup_cases k _ (post_screen lower) s _ h2) [
        | inl e ↦ inr (inr (inl e))
        | inr h3 ↦ elim (lookup_cases k _ (about_screen lower) s _ h3) [
          | inl e ↦ inr (inr (inr e))
          | inr h4 ↦ absurd (lookup_nil k s h4)
        ]
      ]
    ]
  ]

length-timeline_items : (i : ℕ) (posts : List Post) → length (timeline_items i posts) ≡ length posts
unfolding timeline_items
length-timeline_items i [] = refl
length-timeline_items i (p ∷ posts) = ap suc (length-timeline_items (i + 1) posts)

menu_fit-le :
    (title : Text) (items footer : List MenuItem) → (menu_fit title items footer).1 ≤ length items
unfolding menu_fit
menu_fit-le title items footer = elim (Bool-cases (fits_screen (title ++ lines footer))) [
  | inl fits ↦
      let h = menu_fit-HasFooter title items footer fits in omega (arith, h.shown, h.within)
  | inr long ↦ rw (long, menu_fit) (omega arith)
]

pub timeline_prompt-listed :
    (lower : ℕ → ℕ) (c : Ctx)
    → (timeline_prompt lower c).0.state.listed ≤ length (timeline_prompt lower c).0.state.posts
unfolding timeline_prompt
timeline_prompt-listed lower c =
    subst (λ n. (timeline_prompt lower c).0.state.listed ≤ n)
      (length-timeline_items 0 c.state.posts) (menu_fit-le _ (timeline_items 0 c.state.posts) _)

pub render_post-state :
    (lower : ℕ → ℕ) (c : Ctx)
    → ((render_post lower c).0.state.posts ≡ c.state.posts)
      × ((render_post lower c).0.state.cursor ≡ c.state.cursor)
unfolding render_post
render_post-state lower c = elim (Option-cases (post_at c.state.posts c.state.cursor)) [
  | inl missing ↦ rw (missing, render_post) (refl, refl)
  | inr (post, there) ↦ elim (Bool-cases (length (pages_of lower c post) == 0)) [
    | inl nothing ↦ rw (there, render_post) (rw nothing (refl, refl))
    | inr some_page ↦ rw (there, render_post) (rw some_page (refl, refl))
  ]
]
