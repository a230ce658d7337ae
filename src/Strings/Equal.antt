-- ===== src/Strings/Equal.antt =====
-- Comparing texts, and equality.
use openussd.Prelude.{true, false, ◌≢◌, [], ◌∷◌, ◌++◌, ◌≡◌, ◌↔◌, refl, arith}
use openussd.Strings.{Text, is_empty, text_eq, has_prefix}

text_eq_sound : (s t : Text) → text_eq s t ≡ true → s ≡ t
unfolding text_eq
text_eq_sound [] [] h = refl
text_eq_sound [] (d ∷ t) h = ground arith
text_eq_sound (c ∷ s) [] h = ground arith
text_eq_sound (c ∷ s) (d ∷ t) h = ground (arith, text_eq_sound s t)

pub text_eq_refl : (s : Text) → text_eq s s ≡ true
unfolding text_eq
text_eq_refl [] = refl
text_eq_refl (c ∷ s) = ground (arith, text_eq_refl s)

text_eq_complete : (s t : Text) → s ≡ t → text_eq s t ≡ true
text_eq_complete s t e = rw (← e) (text_eq_refl s)

pub text_eq_iff : (s t : Text) → (text_eq s t ≡ true) ↔ (s ≡ t)
text_eq_iff s t = (text_eq_sound s t, text_eq_complete s t)

-- What the test for the empty text tells.
pub is_empty_sound : (s : Text) → is_empty s ≡ true → s ≡ []
is_empty_sound [] h = refl
is_empty_sound (c ∷ s) h = absurd (ground arith)

pub is_empty-false : (s : Text) → is_empty s ≡ false → s ≢ []
is_empty-false [] h = ground arith
is_empty-false (c ∷ s) h = ground arith

pub has_prefix-append : (s p : Text) → has_prefix s p ≡ true → (t : Text) × (s ≡ p ++ t)
unfolding has_prefix
has_prefix-append s [] h = (s, refl)
has_prefix-append [] (p ∷ ps) h = ground arith
has_prefix-append (c ∷ s) (p ∷ ps) h =
    let (t, e) = has_prefix-append s ps (ground arith) in (t, ground arith)
