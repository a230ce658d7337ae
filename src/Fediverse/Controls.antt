-- ===== src/Fediverse/Controls.antt =====
-- main.go: the controls below a page. Their words are English in every language.
use openussd.Prelude.{
  ℕ, ◌+◌, ◌≡◌, refl, Bool, true, false, ◌&&◌, none, some, [], ◌∷◌, ◌++◌, ltb, leb, map, length,
  if◌then◌else◌, Bool-cases, inl, inr,
}
use openussd.Strings.{Text, codes, text_eq, join}
use mathlib.Core.Option.{get_or}
use openussd.Maps
use openussd.Maps.{Map}
use openussd.Canonical.Encoding.{fits_screen, ucs2_units}
use openussd.Canonical.Encoding.Cost.{septets}
use openussd.Canonical.Encoding.Basic.{all_basic}
use openussd.Sdk.Gsm.{to_gsm}
use openussd.Sdk.I18n.{translate}
use openussd.Fediverse.Words.{bundle, english, swahili, french}
use openussd.Fediverse.{Ctx, t, all_controls, controls}

-- `unicode.ToLower` leaves the letters of "en" as they are.
abbrev pub KeepsEn : (ℕ → ℕ) → Type 0
KeepsEn lower = (lower b'e' ≡ b'e') × (lower b'n' ≡ b'n')

module _ (lower : ℕ → ℕ) (keeps : KeepsEn lower) where
  found_en :
      (key v : Text)
      → Maps.lookup key english ≡ some v
      → Maps.lookup key (get_or (Maps.lookup (lower b'e' ∷ lower b'n' ∷ []) bundle.strings) [])
        ≡ some v
  unfolding bundle Maps.lookup text_eq
  found_en key v en = rw (keeps.0, keeps.1) en

  -- A text that only the English table has is the same in every language.
  translate-english :
      (lang key v : Text)
      → Maps.lookup key english ≡ some v
      → Maps.lookup key swahili ≡ none
      → Maps.lookup key french ≡ none
      → translate lower (some bundle) lang key ≡ v
  unfolding translate bundle Maps.lookup
  translate-english lang key v en sw fr =
      let fallback = found_en key v en in
      elim (Bool-cases (text_eq (codes "en") (map lower lang))) [
        | inl is_en ↦ rw (is_en, translate) (rw en refl)
        | inr not_en ↦ elim (Bool-cases (text_eq (codes "sw") (map lower lang))) [
          | inl is_sw ↦ rw (not_en, is_sw, translate) (rw sw (rw fallback refl))
          | inr not_sw ↦ elim (Bool-cases (text_eq (codes "fr") (map lower lang))) [
            | inl is_fr ↦ rw (not_en, not_sw, is_fr, translate) (rw fr (rw fallback refl))
            | inr not_fr ↦ rw (not_en, not_sw, not_fr, translate) (rw fallback refl)
          ]
        ]
      ]

  nav_next : (c : Ctx) → t lower c (codes "nav.next") ≡ codes "1. Next"
  unfolding english swahili french Maps.lookup text_eq
  nav_next c = translate-english c.lang (codes "nav.next") (codes "1. Next") refl refl refl

  nav_prev : (c : Ctx) → t lower c (codes "nav.prev") ≡ codes "2. Prev"
  unfolding english swahili french Maps.lookup text_eq
  nav_prev c = translate-english c.lang (codes "nav.prev") (codes "2. Prev") refl refl refl

  nav_back : (c : Ctx) → t lower c (codes "nav.back") ≡ codes "0. Back"
  unfolding english swahili french Maps.lookup text_eq
  nav_back c = translate-english c.lang (codes "nav.back") (codes "0. Back") refl refl refl

  pub error_empty : (c : Ctx) → t lower c (codes "error.empty") ≡ codes "Nothing to show here."
  unfolding english swahili french Maps.lookup text_eq
  error_empty c =
      translate-english c.lang (codes "error.empty") (codes "Nothing to show here.") refl refl refl

-- The controls of a page, once their words are known.
abbrev pub nav_of : Bool → Bool → Text
nav_of next prev = to_gsm (
    join
      ((if next then codes "1. Next" ∷ [] else [])
        ++ ((if prev then codes "2. Prev" ∷ [] else []) ++ codes "0. Back" ∷ []))
      (codes " "))

pub nav_of_short :
    (next prev : Bool) → (leb (length (nav_of next prev)) 23 && all_basic (nav_of next prev)) ≡ true
unfolding to_gsm join openussd.Canonical.Encoding.encoding_of openussd.Canonical.Encoding.is_basic
    all_basic
nav_of_short true true = refl
nav_of_short true false = refl
nav_of_short false true = refl
nav_of_short false false = refl

pub nav_of_seven : (next prev : Bool) → leb 7 (septets (nav_of next prev)) ≡ true
unfolding to_gsm join openussd.Canonical.Encoding.encoding_of openussd.Canonical.Encoding.is_basic
    septets
nav_of_seven true true = refl
nav_of_seven true false = refl
nav_of_seven false true = refl
nav_of_seven false false = refl

module _ (lower : ℕ → ℕ) (keeps : KeepsEn lower) (c : Ctx) where
  pub length-all_controls : length (all_controls lower c) ≡ 23
  unfolding to_gsm join openussd.Canonical.Encoding.encoding_of openussd.Canonical.Encoding.is_basic
  length-all_controls =
      rw (nav_next lower keeps c, nav_prev lower keeps c, nav_back lower keeps c) refl

  pub controls-nav_of :
      (page count : ℕ)
      → to_gsm (join (controls lower c page count) (codes " "))
        ≡ nav_of (ltb (page + 1) count) (ltb 0 page)
  unfolding controls
  controls-nav_of page count =
      rw (nav_next lower keeps c, nav_prev lower keeps c, nav_back lower keeps c) refl
