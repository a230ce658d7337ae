-- ===== src/Strings/Words.antt =====
-- Fields of a text, and their joins.
use openussd.Prelude.{
  ℕ, Bool, true, false, List, [], ◌∷◌, ◌++◌, ◌≡◌, ◌≢◌, refl, inl, inr, All, All-append, append-nil,
  append_assoc, Bool-cases, ap,
}
use openussd.Strings.{Text, flush, fields_from, fields_func, join}

-- A non-empty run of runes that are no separators.
abbrev pub IsWord : (ℕ → Bool) → Text → Type 0
IsWord sep w = (w ≢ []) × All (λ c. sep c ≡ false) w

-- What holds of every rune of a text holds of those of its fields.
module _ (sep : ℕ → Bool) (P : ℕ → Type 0) where
  flush-All : (cur : Text) → All P cur → All (All P) (flush sep cur)
  flush-All [] h = tt
  flush-All (c ∷ s) h = (h, tt)

  fields_from-All : (cur s : Text) → All P cur → All P s → All (All P) (fields_from sep cur s)
  unfolding fields_from
  fields_from-All cur [] hc hs = flush-All cur hc
  fields_from-All cur (c ∷ s) hc hs = elim (Bool-cases (sep c)) [
    | inl e ↦
        rw (e, fields_from) (All-append _ _ _ (flush-All cur hc) (fields_from-All [] s tt hs.1))
    | inr e ↦
        rw (e, fields_from)
          (fields_from-All (cur ++ c ∷ []) s (All-append P cur _ hc (hs.0, tt)) hs.1)
  ]

  pub fields_func-All : (s : Text) → All P s → All (All P) (fields_func sep s)
  unfolding fields_func
  fields_func-All s h = fields_from-All [] s tt h

pub join-All :
    (P : ℕ → Type 0) (ws : List Text) (sep : Text)
    → All P sep
    → All (All P) ws
    → All P (join ws sep)
unfolding join
join-All P [] sep hs h = tt
join-All P (w ∷ []) sep hs h = h.0
join-All P (w ∷ v ∷ ws) sep hs h =
    All-append P w _ h.0 (All-append P sep _ hs (join-All P (v ∷ ws) sep hs h.1))

module _ (sep : ℕ → Bool) where
  flush-IsWord : (cur : Text) → All (λ c. sep c ≡ false) cur → All (IsWord sep) (flush sep cur)
  flush-IsWord [] h = tt
  flush-IsWord (c ∷ s) h = ((λ e. cc e, h), tt)

  fields_from-IsWord :
      (cur s : Text) → All (λ c. sep c ≡ false) cur → All (IsWord sep) (fields_from sep cur s)
  unfolding fields_from
  fields_from-IsWord cur [] hc = flush-IsWord cur hc
  fields_from-IsWord cur (c ∷ s) hc = elim (Bool-cases (sep c)) [
    | inl e ↦
        rw (e, fields_from) (All-append _ _ _ (flush-IsWord cur hc) (fields_from-IsWord [] s tt))
    | inr e ↦
        rw (e, fields_from) (fields_from-IsWord (cur ++ c ∷ []) s (All-append _ cur _ hc (e, tt)))
  ]

  pub fields_func-IsWord : (s : Text) → All (IsWord sep) (fields_func sep s)
  unfolding fields_func
  fields_func-IsWord s = fields_from-IsWord [] s tt

  fields_from-append :
      (w cur rest : Text)
      → All (λ c. sep c ≡ false) w
      → fields_from sep cur (w ++ rest) ≡ fields_from sep (cur ++ w) rest
  unfolding fields_from
  fields_from-append [] cur rest h = rw append-nil
  fields_from-append (c ∷ w) cur rest h =
      rw (h.0, fields_from) (rw (fields_from-append w (cur ++ c ∷ []) rest h.1, append_assoc))

  flush_of_word : (w : Text) → w ≢ [] → flush sep w ≡ w ∷ []
  flush_of_word [] h = absurd (h refl)
  flush_of_word (c ∷ w) h = refl

  fields_from_word : (w : Text) → IsWord sep w → fields_from sep [] w ≡ w ∷ []
  fields_from_word w h = rw (← append-nil w) (
      rw (fields_from-append w [] [] h.1)
        (unfold fields_from in rw (append-nil, flush_of_word w h.0)))

  fields_from_sep :
      (s : ℕ) (cur rest : Text)
      → sep s ≡ true
      → fields_from sep cur (s ∷ rest) ≡ flush sep cur ++ fields_from sep [] rest
  unfolding fields_from
  fields_from_sep s cur rest hs = rw (hs, fields_from)

  fields_from-join :
      (s : ℕ) (ws : List Text)
      → sep s ≡ true
      → All (IsWord sep) ws
      → fields_from sep [] (join ws (s ∷ [])) ≡ ws
  unfolding join
  fields_from-join s [] hs h = unfold fields_from in refl
  fields_from-join s (w ∷ []) hs h = fields_from_word w h.0
  fields_from-join s (w ∷ v ∷ ws) hs h =
      rw
        (
          fields_from-append w [] (s ∷ join (v ∷ ws) (s ∷ [])) h.0.1,
          fields_from_sep s w (join (v ∷ ws) (s ∷ [])) hs,
          flush_of_word w h.0.0,
        )
        (ap (λ t. w ∷ t) (fields_from-join s (v ∷ ws) hs h.1))

  -- Words joined by a separator are the fields of the join.
  pub fields_func-join :
      (s : ℕ) (ws : List Text)
      → sep s ≡ true
      → All (IsWord sep) ws
      → fields_func sep (join ws (s ∷ [])) ≡ ws
  unfolding fields_func
  fields_func-join s ws hs h = fields_from-join s ws hs h
