-- ===== src/Fediverse/Pages/Lines.antt =====
-- main.go: what stands on the screen of a post.
use openussd.Prelude.{
  ℕ, ◌+◌, ◌≤◌, ◌<◌, ◌≡◌, refl, ap, ◌∙◌, ◌⊎◌, inl, inr, true, false, some, List, ◌++◌, ltb, leb,
  ◌==◌, length, arith, Bool-cases,
}
use openussd.Strings.{Text, codes, join}
use openussd.Strconv.{print_nat}
use openussd.Sdk.Gsm.{label, to_gsm}
use openussd.Fediverse.Mastodon.{Post}
use openussd.Fediverse.{
  Ctx, post_header, post_at, pages_of, page_screen, page_at, clamp_page, render_post,
}
use openussd.Fediverse.Controls.{KeepsEn, error_empty, nav_of, controls-nav_of}

-- The name of the author, and which page of how many it is if there is more than one.
abbrev pub IsHeader : Text → ℕ → ℕ → Text → Type 0
IsHeader name k count head =
    ((count ≤ 1) × (head ≡ name))
    ⊎ ((1 < count)
        × (head
            ≡ name
              ++ (codes " ("
                  ++ (print_nat (k + 1) ++ (codes "/" ++ (print_nat count ++ codes ")"))))))

-- The page that was turned to, or the last one if it is past it.
abbrev pub IsClamped : ℕ → ℕ → ℕ → Type 0
IsClamped turned count k = ((turned < count) × (k ≡ turned)) ⊎ ((count ≤ turned) × (k + 1 ≡ count))

-- The controls that lead somewhere from a page.
pub data IsControls (k count : ℕ) : Text → Type 0 where
  alone : k ≡ 0 → count ≤ k + 1 → IsControls k count (codes "0. Back")
  first : k ≡ 0 → k + 1 < count → IsControls k count (codes "1. Next 0. Back")
  final : 0 < k → count ≤ k + 1 → IsControls k count (codes "2. Prev 0. Back")
  inner : 0 < k → k + 1 < count → IsControls k count (codes "1. Next 2. Prev 0. Back")

-- The screen of a page: a line of the header, the page and a line of the controls.
pub record IsPageScreen (pages : List Text) (turned : ℕ) (name screen : Text) : Type 0 where
  pub page : ℕ
  pub inside : page < length pages
  pub clamped : IsClamped turned (length pages) page
  pub head : Text
  pub header : IsHeader name page (length pages) head
  pub foot : Text
  pub leads : IsControls page (length pages) foot
  pub lines : screen ≡ head ++ (codes "\n" ++ (page_at pages page ++ (codes "\n" ++ foot)))

nav_of-IsControls : (k count : ℕ) → IsControls k count (nav_of (ltb (k + 1) count) (ltb 0 k))
unfolding to_gsm join openussd.Canonical.Encoding.encoding_of openussd.Canonical.Encoding.is_basic
nav_of-IsControls k count = elim (Bool-cases (ltb (k + 1) count)) [
  | inl next ↦ elim (Bool-cases (ltb 0 k)) [
    | inl prev ↦ rw (next, prev) (inner (ground arith) (ground arith))
    | inr start ↦ rw (next, start) (first (ground arith) (ground arith))
  ]
  | inr over ↦ elim (Bool-cases (ltb 0 k)) [
    | inl prev ↦ rw (over, prev) (final (ground arith) (ground arith))
    | inr start ↦ rw (over, start) (alone (ground arith) (ground arith))
  ]
]

post_header-IsHeader :
    (p : Post) (k count : ℕ)
    → IsHeader (label p.author 28 (codes "Post")) k count (post_header p (k + 1) count)
unfolding post_header
post_header-IsHeader p k count = elim (Bool-cases (ltb 1 count)) [
  | inl many ↦ rw many (inr (ground arith, refl))
  | inr one ↦ rw one (inl (ground arith, refl))
]

pub clamp_page-lt : (page count : ℕ) → (count == 0) ≡ false → clamp_page page count < count
clamp_page-lt page count h = ground arith

clamp_page-IsClamped :
    (turned count : ℕ) → (count == 0) ≡ false → IsClamped turned count (clamp_page turned count)
clamp_page-IsClamped turned count h = elim (Bool-cases (leb count turned)) [
  | inl past ↦ rw past (inr (ground arith, ground arith))
  | inr before ↦ rw before (inl (ground arith, refl))
]

module _ (lower : ℕ → ℕ) (keeps : KeepsEn lower) (c : Ctx) (post : Post)
    (found : post_at c.state.posts c.state.cursor ≡ some post) where
  pub render_post-nothing :
      (length (pages_of lower c post) == 0) ≡ true
      → (render_post lower c).1 ≡ codes "Nothing to show here."
  unfolding render_post
  render_post-nothing h = rw (found, render_post) (rw h (error_empty lower keeps c))

  abbrev shown : ℕ
  shown = clamp_page c.state.page (length (pages_of lower c post))

  pub render_post-page :
      (length (pages_of lower c post) == 0) ≡ false
      → (render_post lower c).1
        ≡ page_screen lower c post
            (pages_of lower c post)
            shown
            (page_at (pages_of lower c post) shown)
  unfolding render_post
  render_post-page h = rw (found, render_post) (rw h refl)

  pub render_post-IsPageScreen :
      (length (pages_of lower c post) == 0) ≡ false
      → IsPageScreen
          (pages_of lower c post)
          c.state.page
          (label post.author 28 (codes "Post"))
          (render_post lower c).1
  render_post-IsPageScreen h =
      let pages = pages_of lower c post in
      record {
        page = shown;
        inside = clamp_page-lt c.state.page (length pages) h;
        clamped = clamp_page-IsClamped c.state.page (length pages) h;
        head = post_header post (shown + 1) (length pages);
        header = post_header-IsHeader post shown (length pages);
        foot = nav_of (ltb (shown + 1) (length pages)) (ltb 0 shown);
        leads = nav_of-IsControls shown (length pages);
        lines =
            render_post-page h
            ∙ ap
                (λ foot.
                  post_header post (shown + 1) (length pages)
                  ++ (codes "\n" ++ (page_at pages shown ++ (codes "\n" ++ foot))))
                (controls-nav_of lower keeps c shown (length pages));
      }
