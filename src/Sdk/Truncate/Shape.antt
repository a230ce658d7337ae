-- ===== src/Sdk/Truncate/Shape.antt =====
-- What a truncated text is: a prefix of the text and the marker, within the limit.
use openussd.Prelude.{
  ℕ, zero, suc, ◌-◌, ◌≤◌, ◌<◌, ◌≡◌, refl, ◌∙◌, ap, inl, inr, some, [], ◌∷◌, ◌++◌, leb, length,
  get_or, take, replicate, arith, Bool-cases, Option-cases, take-take, length-take, length-append,
  length-replicate, max, ◌/◌, leb→le,
}
use openussd.Strings.{Text, is_space, trim_right}
use openussd.Strings.Trim.{trim_right-take}
use openussd.Sdk.Truncate.{ellipsis, max_word_lookback, last_space, truncate_long, truncate}

pub last_space_lt : (cut : Text) (floor n i : ℕ) → last_space cut floor n ≡ some i → i < n
unfolding last_space
last_space_lt cut floor zero i h = ground arith
last_space_lt cut floor (suc n) i h = ground (arith, last_space_lt cut floor n i)

-- A prefix of at most `n` runes, and the marker.
abbrev pub IsMarked : Text → ℕ → Text → Type 0
IsMarked s n t = (k : ℕ) × (k ≤ n) × (t ≡ take k s ++ ellipsis)

IsMarked-trim : (s : Text) (m n : ℕ) → m ≤ n → IsMarked s n (trim_right (take m s) ++ ellipsis)
IsMarked-trim s m n h =
    let (k, le, e) = trim_right-take (take m s) in
    let small : k ≤ m = omega (arith, length-take m s) in
    (k, omega arith, ap (λ t. t ++ ellipsis) (e ∙ take-take k m s small))

IsMarked-trim_take :
    (s : Text) (i m n : ℕ)
    → i ≤ m
    → m ≤ n
    → IsMarked s n (trim_right (take i (take m s)) ++ ellipsis)
IsMarked-trim_take s i m n h h' = rw (take-take i m s h) (IsMarked-trim s i n (omega arith))

truncate_long-IsMarked : (s : Text) (limit : ℕ) → IsMarked s (limit - 3) (truncate_long s limit)
unfolding truncate_long
truncate_long-IsMarked s limit =
    let cut = take (limit - 3) s in
    let floor = max (length cut - max_word_lookback) (length cut / 2) in
    elim (Bool-cases (is_space (get_or s (length cut) 0))) [
      | inl e ↦ rw e (IsMarked-trim s (limit - 3) (limit - 3) (omega arith))
      | inr e ↦ elim (Option-cases (last_space cut floor (length cut))) [
        | inl miss ↦ rw (e, miss) (limit - 3, omega arith, refl)
        | inr (i, hit) ↦
            rw (e, hit)
              (IsMarked-trim_take s i (limit - 3) (limit - 3)
                (omega
                  (arith, last_space_lt cut floor (length cut) i hit, length-take (limit - 3) s))
                (omega arith))
      ]
    ]

truncate_of_long :
    (s : Text) (limit : ℕ) → 3 < limit → limit < length s → truncate s limit ≡ truncate_long s limit
unfolding truncate
truncate_of_long s limit h h' = ground arith

-- Above the marker's width, a text that is too long becomes a prefix of it and the marker.
pub truncate-IsMarked :
    (s : Text) (limit : ℕ)
    → 3 < limit
    → limit < length s
    → IsMarked s (limit - 3) (truncate s limit)
truncate-IsMarked s limit h h' = rw (truncate_of_long s limit h h') (truncate_long-IsMarked s limit)

pub truncate_of_short : (s : Text) (limit : ℕ) → length s ≤ limit → truncate s limit ≡ s
unfolding truncate
truncate_of_short [] zero h = refl
truncate_of_short (c ∷ s) zero h = absurd (omega arith)
truncate_of_short s (suc limit) h = ground arith

pub truncate_of_narrow :
    (s : Text) (limit : ℕ) → limit ≤ 3 → limit < length s → truncate s limit ≡ replicate limit b'.'
unfolding truncate
truncate_of_narrow s zero h h' = refl
truncate_of_narrow s (suc limit) h h' = ground arith

pub length-truncate_le : (s : Text) (limit : ℕ) → length (truncate s limit) ≤ limit
length-truncate_le s limit = elim (Bool-cases (leb (length s) limit)) [
  | inl short ↦ rw (truncate_of_short s limit (leb→le _ _ short)) (leb→le _ _ short)
  | inr long ↦ elim (Bool-cases (leb limit 3)) [
    | inl narrow ↦
        rw (truncate_of_narrow s limit (leb→le _ _ narrow) (ground arith))
          (omega (arith, length-replicate {A = ℕ} limit b'.'))
    | inr wide ↦
        let (k, le, e) = truncate-IsMarked s limit (ground arith) (ground arith) in
        let w : 3 < limit = ground arith in
        rw e (omega (arith, length-append (take k s) ellipsis, length-take k s))
  ]
]
