-- ===== src/Sdk/Paginate/Whole.antt =====
-- `Paginate` of sdk/go/render.go: a body that fits beside the reserve is one page.
use openussd.Prelude.{
  ℕ, ◌+◌, ◌≤◌, ◌<◌, ◌≡◌, refl, sym, subst, inl, inr, true, false, ◌&&◌, ◌||◌, [], ◌∷◌, leb, ◌==◌,
  length, take, take_all, min, arith, Bool, Bool-cases, leb→le,
}
use openussd.Strings.{Text, is_empty, trim_left, trim_right, trim_space}
use openussd.Canonical.Encoding.{encoding_of}
use openussd.Canonical.Encoding.Cost.{all_gsm, encoding_of-all_gsm}
use openussd.Canonical.Encoding.Fits.{fits_with, length-le-of_fits}
use openussd.Sdk.Bisect.{longest, longest-IsEdge}
use openussd.Sdk.Shrink.{max_screen}
use openussd.Sdk.Paginate.{
  prefix_fits, fit_runes, last, page_step, paginate_from, no_room, paginate, is_ucs2,
}
use openussd.Sdk.Paginate.Steps.{prefix_fits-IsDownward}

module _ (body : Text) (reserve : ℕ) (given : is_empty body ≡ false)
    (fits : fits_with reserve body ≡ true) where
  body-length : (0 < length body) × (length body + reserve ≤ 182)
  body-length = (length-pos body given, length-le-of_fits reserve body fits)
    where
      length-pos : (s : Text) → is_empty s ≡ false → 0 < length s
      length-pos [] h = ground arith
      length-pos (c ∷ s) h = omega arith

  whole_window : take max_screen body ≡ body
  whole_window = take_all max_screen body (omega (arith, body-length.1))

  prefix_fits-all : (k : ℕ) → k ≤ length body → prefix_fits body reserve k ≡ true
  prefix_fits-all k h = prefix_fits-IsDownward body reserve k (length body) h (
      subst (λ s. fits_with reserve s ≡ true) (sym (take_all (length body) body (omega arith)))
        fits)

  fit_runes-all : fit_runes body reserve ≡ length body
  unfolding fit_runes
  fit_runes-all =
      let r = longest (prefix_fits body reserve) (min (length body) max_screen) in
      let edge = longest-IsEdge (prefix_fits body reserve) (min (length body) max_screen) in
      let small = body-length.1 in
      elim edge.stops [
        | inl top ↦ omega (arith, top, small)
        | inr stuck ↦ elim (Bool-cases (leb (length body) r)) [
          | inl all ↦
              let le : length body ≤ r = leb→le (length body) r all in omega (arith, edge.high, le)
          | inr less ↦
              let inside : r + 1 ≤ length body = ground (arith, less) in
              absurd (ground (arith, stuck, prefix_fits-all (r + 1) inside))
        ]
      ]

  page_step-last : page_step body reserve ≡ last body
  unfolding page_step
  page_step-last =
      let some_runes : (length body == 0) ≡ false = ground (arith, body-length.0) in
      let whole : leb (length body) (length body) ≡ true = ground arith in
      rw (page_step, whole_window, fit_runes-all, given, some_runes, whole) refl

  no_room-not : all_gsm body ≡ true → no_room body reserve ≡ false
  unfolding no_room
  no_room-not gsm =
      let gsm7_body : is_ucs2 (encoding_of body) ≡ false =
        rw (encoding_of-all_gsm body, gsm) refl in
      let room : leb max_screen reserve ≡ false = ground (arith, body-length.0, body-length.1) in
      rw (gsm7_body, room) (and_false (leb 70 reserve))
    where
      and_false : (b : Bool) → (b && false || false) ≡ false
      and_false true = refl
      and_false false = refl

  -- The body is trimmed.
  pub paginate-one :
      all_gsm body ≡ true
      → trim_left body ≡ body
      → trim_right body ≡ body
      → paginate body reserve ≡ body ∷ []
  unfolding paginate trim_space paginate_from
  paginate-one gsm left right =
      rw (paginate, no_room-not gsm, left, right) (rw (paginate_from, left, page_step-last) refl)
