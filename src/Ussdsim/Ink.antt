-- ===== src/Ussdsim/Ink.antt =====
-- What splitting a text at its spaces and line feeds keeps, for `wrap` of cmd/ussdsim/main.go.
use openussd.Prelude.{
  ℕ, ◌≡◌, refl, sym, ◌∙◌, ap, true, false, List, [], ◌∷◌, ◌++◌, ◌==◌, arith, append_assoc,
  append-nil, Bool-cases, inl, inr,
}
use openussd.Strings.{Text, is_space, flush, fields_from, fields_func, fields, split, onto_first}
use openussd.Sdk.Paginate.Content.{ink, ink_all, ink-append}

pub ink_all-append : (ws vs : List Text) → ink_all (ws ++ vs) ≡ ink_all ws ++ ink_all vs
unfolding ink_all
ink_all-append [] vs = refl
ink_all-append (w ∷ ws) vs =
    ap (λ t. ink w ++ t) (ink_all-append ws vs)
    ∙ sym (append_assoc (ink w) (ink_all ws) (ink_all vs))

ink_all-flush : (cur : Text) → ink_all (flush is_space cur) ≡ ink cur
unfolding ink_all ink
ink_all-flush [] = refl
ink_all-flush (c ∷ s) = append-nil (ink (c ∷ s))

ink_blank : (c : ℕ) (s : Text) → is_space c ≡ true → ink (c ∷ s) ≡ ink s
unfolding ink
ink_blank c s blank = rw (blank, ink) refl

ink_all-fields_from : (cur s : Text) → ink_all (fields_from is_space cur s) ≡ ink cur ++ ink s
unfolding ink
ink_all-fields_from cur [] = unfold fields_from in (ink_all-flush cur ∙ sym (append-nil (ink cur)))
ink_all-fields_from cur (c ∷ s) = elim (Bool-cases (is_space c)) [
  | inl blank ↦
      let step : fields_from is_space cur (c ∷ s)
          ≡ flush is_space cur ++ fields_from is_space [] s =
        unfold fields_from in rw (blank, fields_from) refl in
      ap ink_all step
      ∙ ink_all-append (flush is_space cur) (fields_from is_space [] s)
      ∙ ap (λ t. t ++ ink_all (fields_from is_space [] s)) (ink_all-flush cur)
      ∙ ap (λ t. ink cur ++ t) (ink_all-fields_from [] s)
      ∙ ap (λ t. ink cur ++ t) (sym (ink_blank c s blank))
  | inr mark ↦
      let step : fields_from is_space cur (c ∷ s) ≡ fields_from is_space (cur ++ c ∷ []) s =
        unfold fields_from in rw (mark, fields_from) refl in
      ap ink_all step
      ∙ ink_all-fields_from (cur ++ c ∷ []) s
      ∙ ap (λ t. t ++ ink s) (ink-append cur (c ∷ []))
      ∙ append_assoc (ink cur) (ink (c ∷ [])) (ink s)
      ∙ ap (λ t. ink cur ++ t) (sym (ink-append (c ∷ []) s))
]

pub ink_all-fields : (s : Text) → ink_all (fields s) ≡ ink s
unfolding fields fields_func ink
ink_all-fields s = ink_all-fields_from [] s

ink_all-onto_first :
    (c : ℕ) (ws : List Text) → ink_all (onto_first c ws) ≡ ink (c ∷ []) ++ ink_all ws
unfolding ink_all
ink_all-onto_first c [] = refl
ink_all-onto_first c (w ∷ ws) =
    ap (λ t. t ++ ink_all ws) (ink-append (c ∷ []) w)
    ∙ append_assoc (ink (c ∷ [])) (ink w) (ink_all ws)

ink_all_nil : (ws : List Text) → ink_all ([] ∷ ws) ≡ ink_all ws
unfolding ink_all ink
ink_all_nil ws = refl

feed_first : (c : ℕ) (s : Text) → (c == 0x0a) ≡ true → split (c ∷ s) 0x0a ≡ [] ∷ split s 0x0a
unfolding split
feed_first c s feed = rw (feed, split) refl

other_first :
    (c : ℕ) (s : Text) → (c == 0x0a) ≡ false → split (c ∷ s) 0x0a ≡ onto_first c (split s 0x0a)
unfolding split
other_first c s other = rw (other, split) refl

pub ink_all-split : (s : Text) → ink_all (split s 0x0a) ≡ ink s
ink_all-split [] = unfold split ink ink_all in refl
ink_all-split (c ∷ s) = elim (Bool-cases (c == 0x0a)) [
  | inl feed ↦
      let at : c ≡ 0x0a = ground arith in
      let blank : is_space c ≡ true = unfold is_space in rw at refl in
      ap ink_all (feed_first c s feed)
      ∙ ink_all_nil (split s 0x0a)
      ∙ ink_all-split s
      ∙ sym (ink_blank c s blank)
  | inr other ↦
      ap ink_all (other_first c s other)
      ∙ ink_all-onto_first c (split s 0x0a)
      ∙ ap (λ t. ink (c ∷ []) ++ t) (ink_all-split s)
      ∙ sym (ink-append (c ∷ []) s)
]
