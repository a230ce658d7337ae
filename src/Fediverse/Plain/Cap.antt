-- ===== src/Fediverse/Plain/Cap.antt =====
-- `capBytes` of mastodon.go: the bound on what is left of a text.
use openussd.Prelude.{
  ℕ, zero, suc, ◌+◌, ◌-◌, ◌≤◌, ◌≡◌, refl, ◌∙◌, ap, ◌⊎◌, inl, inr, [], ◌∷◌, ◌++◌, ltb, leb, take,
  arith, Bool-cases, take-take, take_all, length-take, leb→le, leb→lt,
}
use openussd.Strings.{Text, codes, byte_len, rune_len, cut_bytes, trim_right}
use openussd.Strings.Trim.{trim_right-take}
use openussd.Fediverse.Plain.{cap_point, cap_bytes}

pub byte_len-append : (s t : Text) → byte_len (s ++ t) ≡ byte_len s + byte_len t
unfolding byte_len
byte_len-append [] t = omega arith
byte_len-append (c ∷ s) t = omega (arith, byte_len-append s t)

byte_len-take : (k : ℕ) (s : Text) → byte_len (take k s) ≤ byte_len s
unfolding byte_len
byte_len-take zero s = omega arith
byte_len-take (suc k) [] = omega arith
byte_len-take (suc k) (c ∷ s) = omega (arith, byte_len-take k s)

byte_len-cut_bytes : (room : ℕ) (s : Text) → byte_len (cut_bytes room s) ≤ room
unfolding cut_bytes byte_len
byte_len-cut_bytes room [] = omega arith
byte_len-cut_bytes room (c ∷ s) = elim (Bool-cases (ltb room (rune_len c))) [
  | inl full ↦ rw full (omega arith)
  | inr more ↦
      let fits : rune_len c ≤ room = ground (arith, more) in
      rw more (omega (arith, byte_len-cut_bytes (room - rune_len c) s, fits))
]

cut_bytes-take : (room : ℕ) (s : Text) → (k : ℕ) × (cut_bytes room s ≡ take k s)
unfolding cut_bytes
cut_bytes-take room [] = (0, refl)
cut_bytes-take room (c ∷ s) = elim (Bool-cases (ltb room (rune_len c))) [
  | inl full ↦ (0, rw full)
  | inr more ↦
      let (k, e) = cut_bytes-take (room - rune_len c) s in (suc k, rw more (ap (λ t. c ∷ t) e))
]

-- The point of the cut leaves room for the marker.
cap_point-le : (limit i cut : ℕ) (s : Text) → cut + 3 ≤ limit → cap_point limit i cut s + 3 ≤ limit
unfolding cap_point
cap_point-le limit i cut [] h = h
cap_point-le limit i cut (c ∷ s) h = elim (Bool-cases (ltb limit (i + 3))) [
  | inl past ↦ rw past h
  | inr before ↦ rw before (cap_point-le limit (i + rune_len c) i s (ground (arith, before)))
]

take-nested : (j k : ℕ) (s : Text) → (m : ℕ) × (take j (take k s) ≡ take m s)
take-nested j k s = elim (Bool-cases (leb j k)) [
  | inl le ↦ (j, take-take j k s (leb→le j k le))
  | inr gt ↦ (k, take_all j (take k s) (omega (arith, length-take k s, leb→lt j k gt)))
]

marked_bound :
    (cut : Text) (limit point j : ℕ)
    → trim_right cut ≡ take j cut
    → byte_len cut ≤ point
    → point + 3 ≤ limit
    → byte_len (trim_right cut ++ codes "...") ≤ limit
marked_bound cut limit point j e h k =
    rw (e, byte_len-append (take j cut) (codes "..."), dots)
      (omega (arith, byte_len-take j cut, h, k))
  where
    dots : byte_len (codes "...") ≡ 3
    dots = unfold byte_len in refl

-- With room for the marker, `capBytes` returns at most `limit` bytes: the text itself if it has no
-- more, or its first runes and the marker.
pub cap_bytes_bound :
    (s : Text) (limit : ℕ)
    → 3 ≤ limit
    → (byte_len (cap_bytes s limit) ≤ limit)
      × (((byte_len s ≤ limit) × (cap_bytes s limit ≡ s))
          ⊎ ((k : ℕ) × (cap_bytes s limit ≡ take k s ++ codes "...")))
unfolding cap_bytes
cap_bytes_bound s limit room = elim (Bool-cases (leb (byte_len s) limit)) [
  | inl short ↦ let le = leb→le _ _ short in rw short (le, inl (le, refl))
  | inr long ↦
      let cut = cut_bytes (cap_point limit 0 0 s) s in
      let (j, _, trimmed) = trim_right-take cut in
      let (k, taken) = cut_bytes-take (cap_point limit 0 0 s) s in
      let (m, nested) = take-nested j k s in
      let shape : trim_right cut ++ codes "..." ≡ take m s ++ codes "..." =
        ap (λ t. t ++ codes "...") (trimmed ∙ ap (take j) taken ∙ nested) in
      rw long (
        marked_bound cut limit (cap_point limit 0 0 s) j trimmed (byte_len-cut_bytes _ s)
            (cap_point-le limit 0 0 s room),
        inr (m, shape),
      )
]
