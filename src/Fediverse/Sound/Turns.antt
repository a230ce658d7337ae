-- ===== src/Fediverse/Sound/Turns.antt =====
-- main.go: what the handlers do to the session state, and whole turns.
use openussd.Prelude.{
  ℕ, zero, suc, ◌+◌, ◌-◌, ◌≤◌, ◌<◌, ◌≡◌, refl, ◌∙◌, ap, subst, inl, inr, true, false, Option, none,
  some, List, leb, ◌==◌, length, arith, if◌then◌else◌, Bool-cases, Option-cases, Result, ok,
  some-injective, ℤ, pos, negsuc,
}
use openussd.Strings.{Text, codes, text_eq, is_empty, trim_space}
use openussd.Strconv.{parse_int}
use openussd.Maps
use openussd.Tenant.Router.Table.{ok-injective}
use openussd.Sdk.App.{Action, Screen, goto, stay, finish}
use openussd.Sdk.App.Keeps.{Keeps}
use openussd.Fediverse.Mastodon.{Post}
use openussd.Fediverse.{
  FeedState, Ctx, t, post_pages, menu_handle, timeline_prompt, chosen, timeline_handle, with_posts,
  to_post_at, to_page, post_handle, menu_screen, timeline_screen, post_screen, about_screen,
}
use openussd.Fediverse.Sound.{
  apart, Held, Entry, feed, is_screen, timeline_prompt-listed, render_post-state,
}

-- What a handler on the screen `name` must come to, if the dialogue goes on.
abbrev LeadsOn : Text → Ctx × Result Text Action → Type 0
LeadsOn name r =
    (action : Action)
    → r.1 ≡ ok action
    → action.is_end ≡ false
    → Entry (if is_empty action.next then name else action.next) r.0.state

LeadsOn-action :
    (name : Text) (c : Ctx) (a : Action)
    → Entry (if is_empty a.next then name else a.next) c.state
    → LeadsOn name (c, ok a)
LeadsOn-action name c a entry action e live =
    subst (λ (b : Action). Entry (if is_empty b.next then name else b.next) c.state)
      (ok-injective e) entry

LeadsOn-finish : (name : Text) (c : Ctx) (message : Text) → LeadsOn name (c, ok (finish message))
LeadsOn-finish name c message action e live =
    absurd (ended (ap (λ (b : Action). b.is_end) (ok-injective e) ∙ live))
  where
    ended : true ≡ false → ⊥
    ended e = cc

not_menu : (s : FeedState) → Entry (codes "menu") s
not_menu s e = absurd (apart b'm' b'p' _ _ (omega arith) e)

not_timeline : (s : FeedState) → Entry (codes "timeline") s
not_timeline s e = absurd (apart b't' b'p' _ _ (omega arith) e)

not_about : (s : FeedState) → Entry (codes "about") s
not_about s e = absurd (apart b'a' b'p' _ _ (omega arith) e)

chosen-le : (listed n : ℕ) (z : Option ℤ) → chosen listed z ≡ some n → n < listed
chosen-le listed n none h = absurd (ground arith)
chosen-le listed n (some (negsuc m)) h = absurd (ground arith)
chosen-le listed n (some (pos zero)) h = absurd (ground arith)
chosen-le listed n (some (pos (suc m))) h = ground arith

module _ (lower : ℕ → ℕ) (fetched : Option (List Post)) (c : Ctx) (input : Text) where
  menu_handle-LeadsOn : LeadsOn (codes "menu") (menu_handle lower fetched c input)
  unfolding menu_handle
  menu_handle-LeadsOn = elim (Bool-cases (text_eq input (codes "1"))) [
    | inl one ↦ elim (Option-cases fetched) [
      | inl down ↦
          rw (one, down, menu_handle) (LeadsOn-action (codes "menu") c (stay _) (not_menu c.state))
      | inr (posts, up) ↦
          rw (one, up, menu_handle)
            (LeadsOn-action (codes "menu") (with_posts c posts) (goto (codes "timeline"))
              (not_timeline (with_posts c posts).state))
    ]
    | inr not_one ↦ elim (Bool-cases (text_eq input (codes "2"))) [
      | inl two ↦
          rw (not_one, two, menu_handle)
            (LeadsOn-action (codes "menu") c (goto (codes "about")) (not_about c.state))
      | inr not_two ↦ elim (Bool-cases (text_eq input (codes "0"))) [
        | inl zero_key ↦
            rw (not_one, not_two, zero_key, menu_handle) (LeadsOn-finish (codes "menu") c _)
        | inr other ↦
            rw (not_one, not_two, other, menu_handle)
              (LeadsOn-action (codes "menu") c (stay _) (not_menu c.state))
      ]
    ]
  ]

  timeline_handle-LeadsOn :
      c.state.listed ≤ length c.state.posts
      → LeadsOn (codes "timeline") (timeline_handle lower c input)
  unfolding timeline_handle
  timeline_handle-LeadsOn held = elim (Bool-cases (text_eq input (codes "0"))) [
    | inl quit ↦ rw (quit, timeline_handle) (LeadsOn-finish (codes "timeline") c _)
    | inr more ↦ elim (Option-cases (chosen c.state.listed (parse_int (trim_space input)))) [
      | inl bad ↦
          rw (more, bad, timeline_handle)
            (LeadsOn-action (codes "timeline") c (stay _) (not_timeline c.state))
      | inr (n, good) ↦
          let inside = chosen-le c.state.listed n (parse_int (trim_space input)) good in
          rw (more, good, timeline_handle)
            (LeadsOn-action (codes "timeline") (to_post_at c n) (goto (codes "post"))
              (λ e. omega (arith, inside, held)))
    ]
  ]

  post_handle-LeadsOn :
      c.state.cursor < length c.state.posts → LeadsOn (codes "post") (post_handle lower c input)
  unfolding post_handle
  post_handle-LeadsOn held =
      let refused =
        LeadsOn-action (codes "post") c (stay (t lower c (codes "error.choice"))) (λ e. held) in
      elim (Bool-cases (text_eq input (codes "1"))) [
        | inl next ↦ elim (Bool-cases (leb (length (post_pages lower c)) (c.state.page + 1))) [
          | inl last_page ↦ rw (next, last_page, post_handle) refused
          | inr more ↦
              rw (next, more, post_handle)
                (LeadsOn-action (codes "post") (to_page c (c.state.page + 1)) (goto (codes "post"))
                  (λ e. held))
        ]
        | inr not_next ↦ elim (Bool-cases (text_eq input (codes "2"))) [
          | inl prev ↦ elim (Bool-cases (c.state.page == 0)) [
            | inl first_page ↦ rw (not_next, prev, first_page, post_handle) refused
            | inr more ↦
                rw (not_next, prev, more, post_handle)
                  (LeadsOn-action (codes "post") (to_page c (c.state.page - 1))
                    (goto (codes "post")) (λ e. held))
          ]
          | inr not_prev ↦ elim (Bool-cases (text_eq input (codes "0"))) [
            | inl back ↦
                rw (not_next, not_prev, back, post_handle)
                  (LeadsOn-action (codes "post") c (goto (codes "timeline")) (not_timeline c.state))
            | inr other ↦ rw (not_next, not_prev, other, post_handle) refused
          ]
        ]
      ]

abbrev Prompts : Screen FeedState → Type 0
Prompts s =
    (p : Ctx → Ctx × Result Text Text) (c : Ctx)
    → s.prompt ≡ some p
    → Entry s.name c.state
    → Held s.name (p c).0.state

abbrev Handles : Screen FeedState → Type 0
Handles s =
    (h : Ctx → Text → Ctx × Result Text Action) (c : Ctx) (input : Text)
    → s.handle ≡ some h
    → Held s.name c.state
    → LeadsOn s.name (h c input)

pub Held-menu : (s : FeedState) → Held (codes "menu") s
Held-menu s = (λ e. absurd (apart b'm' b't' _ _ (omega arith) e), not_menu s)

Held-about : (s : FeedState) → Held (codes "about") s
Held-about s = (λ e. absurd (apart b'a' b't' _ _ (omega arith) e), not_about s)

module _ (lower : ℕ → ℕ) (fetched : Option (List Post)) where
  menu-Prompts : Prompts (menu_screen lower fetched)
  menu-Prompts p c speaks entry = Held-menu (p c).0.state

  about-Prompts : Prompts (about_screen lower)
  about-Prompts p c speaks entry = Held-about (p c).0.state

  timeline-Prompts : Prompts (timeline_screen lower)
  timeline-Prompts p c speaks entry =
      subst (λ (q : Ctx → Ctx × Result Text Text). Held (codes "timeline") (q c).0.state)
        (some-injective speaks)
        (λ e. timeline_prompt-listed lower c, not_timeline (timeline_prompt lower c).0.state)

  post-Prompts : Prompts (post_screen lower)
  post-Prompts p c speaks entry =
      let (posts, cursor) = render_post-state lower c in
      subst (λ (q : Ctx → Ctx × Result Text Text). Held (codes "post") (q c).0.state)
        (some-injective speaks)
        (λ e. absurd (apart b'p' b't' _ _ (omega arith) e), λ e. rw (posts, cursor) (entry refl))

  menu-Handles : Handles (menu_screen lower fetched)
  menu-Handles h c input takes held =
      subst (λ (g : Ctx → Text → Ctx × Result Text Action). LeadsOn (codes "menu") (g c input))
        (some-injective takes) (menu_handle-LeadsOn lower fetched c input)

  timeline-Handles : Handles (timeline_screen lower)
  timeline-Handles h c input takes held =
      subst (λ (g : Ctx → Text → Ctx × Result Text Action). LeadsOn (codes "timeline") (g c input))
        (some-injective takes) (timeline_handle-LeadsOn lower fetched c input (held.0 refl))

  post-Handles : Handles (post_screen lower)
  post-Handles h c input takes held =
      subst (λ (g : Ctx → Text → Ctx × Result Text Action). LeadsOn (codes "post") (g c input))
        (some-injective takes) (post_handle-LeadsOn lower fetched c input (held.1 refl))

  about-Handles : Handles (about_screen lower)
  about-Handles h c input takes held = absurd (ground arith)

  each-Prompts :
      (s : Screen FeedState) → Maps.lookup s.name (feed lower fetched).screens ≡ some s → Prompts s
  each-Prompts s there = elim (is_screen lower fetched s.name s there) [
    | inl e ↦ subst Prompts e menu-Prompts
    | inr (inl e) ↦ subst Prompts e timeline-Prompts
    | inr (inr (inl e)) ↦ subst Prompts e post-Prompts
    | inr (inr (inr e)) ↦ subst Prompts e about-Prompts
  ]

  each-Handles :
      (s : Screen FeedState) → Maps.lookup s.name (feed lower fetched).screens ≡ some s → Handles s
  each-Handles s there = elim (is_screen lower fetched s.name s there) [
    | inl e ↦ subst Handles e menu-Handles
    | inr (inl e) ↦ subst Handles e timeline-Handles
    | inr (inr (inl e)) ↦ subst Handles e post-Handles
    | inr (inr (inr e)) ↦ subst Handles e about-Handles
  ]

  pub feed-Keeps : Keeps (feed lower fetched) Held Entry
  feed-Keeps = record {
    enter = λ name s held. held.1;
    prompt = λ s p c there speaks entry. each-Prompts s there p c speaks entry;
    handle = λ s h c input action there takes held did live.
        each-Handles s there h c input takes held action did live;
  }
