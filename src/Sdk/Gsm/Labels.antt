-- ===== src/Sdk/Gsm/Labels.antt =====
-- What `ToGSM`, `OneLine` and `Label` promise of the text that they return.
use openussd.Prelude.{
  ℕ, zero, suc, ◌≤◌, ◌≡◌, ◌≢◌, refl, ap, ◌⊎◌, inl, inr, Bool, true, false, ◌&&◌, List, [], ◌∷◌, leb,
  ltb, length, take, replicate, All, All-append, All-take, All-map, arith, Bool-cases, Option-cases,
  some, leb→le,
}
use openussd.Strings.{Text, is_space, fields, fields_func, join, trim_space}
use openussd.Strings.Words.{fields_func-All, fields_func-IsWord, fields_func-join, join-All}
use openussd.Strings.Trim.{trim_space-All}
use openussd.Canonical.Encoding.{Encoding, gsm7, ucs2, encoding_of, is_basic, is_extended}
use openussd.Canonical.Encoding.Cost.{is_gsm, all_gsm, encoding_of-all_gsm}
use openussd.Sdk.Truncate.{ellipsis, truncate}
use openussd.Sdk.Truncate.Shape.{
  truncate-IsMarked, truncate_of_narrow, truncate_of_short, length-truncate_le,
}
use openussd.Sdk.Gsm.{
  transliterations, transliterate_in, gsm_rune, gsm_runes, to_gsm, is_break, one_line, label,
}

abbrev pub IsGsm : ℕ → Type 0
IsGsm r = is_gsm r ≡ true

pub All-gsm→All : (s : Text) → all_gsm s ≡ true → All IsGsm s
unfolding all_gsm
All-gsm→All [] h = tt
All-gsm→All (r ∷ s) h = ground (arith, All-gsm→All s)

pub All→all_gsm : (s : Text) → All IsGsm s → all_gsm s ≡ true
unfolding all_gsm
All→all_gsm [] h = refl
All→all_gsm (r ∷ s) h = ground (arith, All→all_gsm s h.1)

pub gsm7→All : (s : Text) → encoding_of s ≡ gsm7 → All IsGsm s
gsm7→All s h = All-gsm→All s (ground (arith, encoding_of-all_gsm s))

pub All→gsm7 : (s : Text) → All IsGsm s → encoding_of s ≡ gsm7
All→gsm7 s h = ground (arith, encoding_of-all_gsm s, All→all_gsm s h)

abbrev all_replacements_gsm : List (ℕ × Text) → Bool
all_replacements_gsm [] = true
all_replacements_gsm ((k, repl) ∷ table) = all_gsm repl && all_replacements_gsm table

transliterations_gsm : all_replacements_gsm transliterations ≡ true
unfolding transliterations all_gsm is_gsm is_basic is_extended
transliterations_gsm = refl

transliterate_in-IsGsm :
    (table : List (ℕ × Text)) (r : ℕ) (repl : Text)
    → all_replacements_gsm table ≡ true
    → transliterate_in table r ≡ some repl
    → all_gsm repl ≡ true
unfolding transliterate_in
transliterate_in-IsGsm [] r repl h e = ground arith
transliterate_in-IsGsm ((k, v) ∷ table) r repl h e =
    ground (arith, transliterate_in-IsGsm table r repl)

space-IsGsm : IsGsm 0x20
unfolding is_gsm is_basic
space-IsGsm = refl

Encoding-cases : (e : Encoding) → (e ≡ gsm7) ⊎ (e ≡ ucs2)
Encoding-cases gsm7 = inl refl
Encoding-cases ucs2 = inr refl

gsm_rune-All : (r : ℕ) → All IsGsm (gsm_rune r)
unfolding gsm_rune
gsm_rune-All r = elim (Encoding-cases (encoding_of (r ∷ []))) [
  | inl basic ↦ rw (basic, gsm_rune) (gsm7→All _ basic)
  | inr other ↦ elim (Option-cases (transliterate_in transliterations r)) [
    | inl miss ↦ rw (other, miss, gsm_rune) (space-IsGsm, tt)
    | inr (repl, hit) ↦
        rw (other, hit, gsm_rune)
          (All-gsm→All repl
            (transliterate_in-IsGsm transliterations r repl transliterations_gsm hit))
  ]
]

gsm_runes-All : (s : Text) → All IsGsm (gsm_runes s)
unfolding gsm_runes
gsm_runes-All [] = tt
gsm_runes-All (r ∷ s) = All-append IsGsm (gsm_rune r) _ (gsm_rune-All r) (gsm_runes-All s)

pub to_gsm-All : (s : Text) → All IsGsm (to_gsm s)
unfolding to_gsm fields
to_gsm-All s = elim (Encoding-cases (encoding_of s)) [
  | inl basic ↦ rw (basic, to_gsm) (gsm7→All s basic)
  | inr other ↦
      rw (other, to_gsm)
        (join-All IsGsm _ _ (space-IsGsm, tt)
          (fields_func-All is_space IsGsm (gsm_runes s) (gsm_runes-All s)))
]

-- The result of `ToGSM` stays in the GSM alphabet, and a text already in it is returned unchanged.
to_gsm-gsm7 : (s : Text) → (encoding_of (to_gsm s) ≡ gsm7) × (encoding_of s ≡ gsm7 → to_gsm s ≡ s)
to_gsm-gsm7 s = (All→gsm7 (to_gsm s) (to_gsm-All s), λ e. unfold to_gsm in rw (e, to_gsm))

-- No rune that ends a line, and no tab.
abbrev pub IsInline : ℕ → Type 0
IsInline r = (r ≢ 0x0a) × (r ≢ 0x0d) × (r ≢ 0x09) × (r ≢ 0x0b) × (r ≢ 0x0c)

not_break-IsInline : (r : ℕ) → is_break r ≡ false → IsInline r
unfolding is_break
not_break-IsInline r h = ground arith

space-IsInline : IsInline 0x20
space-IsInline = omega arith

pub one_line-IsInline : (s : Text) → All IsInline (one_line s)
unfolding one_line
one_line-IsInline s =
    join-All IsInline (fields_func is_break s) _ (space-IsInline, tt)
      (All-map (λ w h. All-map not_break-IsInline w h.1) _ (fields_func-IsWord is_break s))

pub one_line-All : (P : ℕ → Type 0) (s : Text) → P 0x20 → All P s → All P (one_line s)
unfolding one_line
one_line-All P s sp h = join-All P _ _ (sp, tt) (fields_func-All is_break P s h)

-- A second pass of `OneLine` changes nothing.
pub one_line_idem : (s : Text) → one_line (one_line s) ≡ one_line s
unfolding one_line
one_line_idem s =
    ap (λ ws. join ws (0x20 ∷ []))
      (fields_func-join is_break 0x20 (fields_func is_break s) (unfold is_break in refl)
        (fields_func-IsWord is_break s))

replicate-All : (P : ℕ → Type 0) (n r : ℕ) → P r → All P (replicate n r)
replicate-All P zero r h = tt
replicate-All P (suc n) r h = (h, replicate-All P n r h)

pub truncate-All :
    (P : ℕ → Type 0) (s : Text) (limit : ℕ) → P b'.' → All P s → All P (truncate s limit)
truncate-All P s limit dot h = elim (Bool-cases (leb (length s) limit)) [
  | inl short ↦ rw (truncate_of_short s limit (leb→le _ _ short)) h
  | inr long ↦ elim (Bool-cases (leb limit 3)) [
    | inl narrow ↦
        rw (truncate_of_narrow s limit (leb→le _ _ narrow) (ground arith))
          (replicate-All P limit b'.' dot)
    | inr wide ↦
        let (k, le, e) = truncate-IsMarked s limit (ground arith) (ground arith) in
        rw e (All-append P (take k s) ellipsis (All-take P k s h) (dot, (dot, (dot, tt))))
  ]
]

-- A rune that a menu line can carry: in the GSM alphabet, and no line break.
abbrev pub IsLabelRune : ℕ → Type 0
IsLabelRune r = IsGsm r × IsInline r

All-pair : (s : Text) → All IsGsm s → All IsInline s → All IsLabelRune s
All-pair [] g i = tt
All-pair (r ∷ s) g i = ((g.0, i.0), All-pair s g.1 i.1)

dot_label : IsLabelRune b'.'
unfolding is_gsm is_basic
dot_label = (refl, omega arith)

label_text-All : (s : Text) → All IsLabelRune (trim_space (one_line (to_gsm s)))
label_text-All s = trim_space-All IsLabelRune _ (
    All-pair _ (one_line-All IsGsm (to_gsm s) space-IsGsm (to_gsm-All s))
      (one_line-IsInline (to_gsm s)))

-- Whatever the remote text, a label is at most `limit` runes, all in the GSM alphabet and none a
-- line break or a tab, if that holds of the runes of the fallback.
pub label-IsLabelRune :
    (s : Text) (limit : ℕ) (fallback : Text)
    → All IsLabelRune fallback
    → (length (label s limit fallback) ≤ limit) × All IsLabelRune (label s limit fallback)
unfolding label
label-IsLabelRune s limit fallback h =
    let out = trim_space (one_line (to_gsm s)) in
    elim (Bool-cases (ltb (length out) 2)) [
      | inl blank ↦
          rw blank
            (length-truncate_le fallback limit, truncate-All IsLabelRune fallback limit dot_label h)
      | inr usable ↦ rw usable (
        length-truncate_le out limit,
        truncate-All IsLabelRune out limit dot_label (label_text-All s),
      )
    ]
