-- ===== src/Fediverse/Pages/Turning.antt =====
-- main.go: turning the pages of a post. A turn is the handler on the input and then the prompt.
use openussd.Prelude.{
  ℕ, zero, suc, ◌+◌, ◌-◌, ◌<◌, ◌≡◌, refl, ◌∙◌, ap, subst, false, some, List, [], ◌∷◌, leb, ◌==◌,
  replicate, length, arith, ok,
}
use openussd.Strings.{Text, codes, text_eq}
use openussd.Sdk.App.{goto}
use openussd.Fediverse.Mastodon.{Post}
use openussd.Fediverse.{
  Ctx, post_at, pages_of, post_pages, to_page, post_handle, render_post, page_screen, page_at,
}

-- One turn on the screen of a post: the context after it, and the screen.
abbrev pub turned : (ℕ → ℕ) → Ctx → Text → Ctx × Text
turned lower c input = render_post lower (post_handle lower c input).0

abbrev pub after : (ℕ → ℕ) → Ctx → List Text → Ctx
after lower c [] = c
after lower c (input ∷ inputs) = after lower (turned lower c input).0 inputs

module _ (lower : ℕ → ℕ) (c : Ctx) (post : Post)
    (found : post_at c.state.posts c.state.cursor ≡ some post) where
  post_pages_lem : (page : ℕ) → post_pages lower (to_page c page) ≡ pages_of lower c post
  unfolding post_pages pages_of
  post_pages_lem page = rw (found, post_pages) refl

  next_handle :
      (page : ℕ)
      → page + 1 < length (pages_of lower c post)
      → post_handle lower (to_page c page) (codes "1")
        ≡ (to_page c (page + 1), ok (goto (codes "post")))
  unfolding post_handle text_eq
  next_handle page h =
      let more : leb (length (pages_of lower c post)) (page + 1) ≡ false = ground arith in
      rw (ap length (post_pages_lem page), more) refl

  back_handle :
      (page : ℕ)
      → post_handle lower (to_page c (suc page)) (codes "2")
        ≡ (to_page c page, ok (goto (codes "post")))
  unfolding post_handle text_eq
  back_handle page =
      let moved : (suc page == 0) ≡ false = ground arith in
      let less : suc page - 1 ≡ page = omega arith in rw (moved, less) refl

  pub shown_page :
      (page : ℕ)
      → page < length (pages_of lower c post)
      → render_post lower (to_page c page) ≡ (
        to_page c page,
        page_screen lower c post
            (pages_of lower c post)
            page
            (page_at (pages_of lower c post) page),
      )
  unfolding render_post
  shown_page page h =
      let some_page : (length (pages_of lower c post) == 0) ≡ false = ground arith in
      let inside : leb (length (pages_of lower c post)) page ≡ false = ground arith in
      rw (found, render_post) (rw (some_page, inside) refl)

  next_turned :
      (page : ℕ)
      → page + 1 < length (pages_of lower c post)
      → (turned lower (to_page c page) (codes "1")).0 ≡ to_page c (page + 1)
  next_turned page h =
      rw (next_handle page h) (ap (λ (p : Ctx × Text). p.0) (shown_page (page + 1) h))

  back_turned :
      (page : ℕ)
      → page < length (pages_of lower c post)
      → (turned lower (to_page c (suc page)) (codes "2")).0 ≡ to_page c page
  back_turned page h = rw (back_handle page) (ap (λ (p : Ctx × Text). p.0) (shown_page page h))

  after_next :
      (k page : ℕ)
      → page + k < length (pages_of lower c post)
      → after lower (to_page c page) (replicate k (codes "1")) ≡ to_page c (page + k)
  after_next zero page h = ap (to_page c) (omega arith)
  after_next (suc k) page h =
      ap (λ (x : Ctx). after lower x (replicate k (codes "1")))
        (next_turned page (omega (arith, h)))
      ∙ after_next k (page + 1) (omega (arith, h))
      ∙ ap (to_page c) (omega arith)

  after_back :
      (k page : ℕ)
      → page + k < length (pages_of lower c post)
      → after lower (to_page c (page + k)) (replicate k (codes "2")) ≡ to_page c page
  after_back zero page h = ap (to_page c) (omega arith)
  after_back (suc k) page h =
      let e : page + suc k ≡ suc (page + k) = omega arith in
      ap (λ n. after lower (to_page c n) (replicate (suc k) (codes "2"))) e
      ∙ ap (λ (x : Ctx). after lower x (replicate k (codes "2")))
          (back_turned (page + k) (omega (arith, h)))
      ∙ after_back k page (omega (arith, h))

-- Every page of a post is reached: from the first page, pressing 1 as often as `k` comes to page `k`,
-- which is what the screen then shows, and pressing 2 as often comes back; nothing but the page
-- changes.
pub reaches_page :
    (lower : ℕ → ℕ) (c : Ctx) (post : Post) (k : ℕ)
    → post_at c.state.posts c.state.cursor ≡ some post
    → k < length (pages_of lower c post)
    → (after lower (to_page c 0) (replicate k (codes "1")) ≡ to_page c k)
      × (after lower (to_page c k) (replicate k (codes "2")) ≡ to_page c 0)
      × ((render_post lower (to_page c k)).1
          ≡ page_screen lower c post (pages_of lower c post) k (page_at (pages_of lower c post) k))
reaches_page lower c post k found h = (
  after_next lower c post found k 0 (omega arith) ∙ ap (to_page c) (omega arith),
  subst (λ n. after lower (to_page c n) (replicate k (codes "2")) ≡ to_page c 0) (omega arith)
      (after_back lower c post found k 0 (omega arith)),
  ap (λ (p : Ctx × Text). p.1) (shown_page lower c post found k h),
)
