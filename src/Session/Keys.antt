-- ===== src/Session/Keys.antt =====
-- When two session keys are stored under one string.
use openussd.Prelude.{
  ℕ, ◌≡◌, ◌≢◌, refl, ap, [], ◌∷◌, ◌++◌, append_assoc, All, length, length-append, false, ok, arith,
}
use openussd.Strings.{Text, is_empty}
use openussd.Session.{Key, key_string, validate_key}

-- A text without the separator is recovered from what it is joined to.
split_unique :
    (sep : ℕ) (a b s t : Text)
    → All (λ c. c ≢ sep) a
    → All (λ c. c ≢ sep) b
    → a ++ sep ∷ s ≡ b ++ sep ∷ t
    → (a ≡ b) × (s ≡ t)
split_unique sep [] [] s t ha hb e = (refl, cc)
split_unique sep [] (d ∷ b) s t ha hb e = absurd (hb.0 (cc))
split_unique sep (c ∷ a) [] s t ha hb e = absurd (ha.0 (cc))
split_unique sep (c ∷ a) (d ∷ b) s t ha hb e =
    let (same, rest) = split_unique sep a b s t ha.1 hb.1 (cc) in (cc, rest)

-- Keys of networks whose names have no colon are stored under different strings.
pub key_string_injective :
    (j k : Key)
    → All (λ c. c ≢ b':') j.mno
    → All (λ c. c ≢ b':') k.mno
    → key_string j ≡ key_string k
    → j ≡ k
unfolding key_string
key_string_injective j k hj hk e =
    let (mno, sid) = split_unique b':' j.mno k.mno j.session_id k.session_id hj hk e in
    λ i. record { mno = mno i; session_id = sid i }

-- The two keys that one name, split at a colon, makes.
abbrev pub split_name : Text → Text → Text → Key
split_name a b c = record { mno = a ++ b':' ∷ b; session_id = c }

abbrev pub split_id : Text → Text → Text → Key
split_id a b c = record { mno = a; session_id = b ++ b':' ∷ c }

valid_key :
    (k : Key) → is_empty k.mno ≡ false → is_empty k.session_id ≡ false → validate_key k ≡ ok tt
unfolding validate_key
valid_key k m s = rw (m, s)

append-nonempty : (a b : Text) → is_empty a ≡ false → is_empty (a ++ b) ≡ false
append-nonempty [] b h = absurd (ground arith)
append-nonempty (c ∷ a) b h = refl

append-nonempty_right : (a b : Text) → is_empty b ≡ false → is_empty (a ++ b) ≡ false
append-nonempty_right [] b h = h
append-nonempty_right (c ∷ a) b h = refl

longer : (a b : Text) → a ++ b':' ∷ b ≡ a → ⊥
longer a b e =
    let same : length (a ++ b':' ∷ b) ≡ length a = ap length e in
    omega (arith, same, length-append a (b':' ∷ b))

-- For every name of a network that is split at a colon there are two different valid keys that are
-- stored under one string. The first part of the name and the rest of the identifier are not
-- empty.
pub key_string_collides :
    (a b c : Text)
    → is_empty a ≡ false
    → is_empty c ≡ false
    → (validate_key (split_name a b c) ≡ ok tt)
      × (validate_key (split_id a b c) ≡ ok tt)
      × (key_string (split_name a b c) ≡ key_string (split_id a b c))
      × (split_name a b c ≢ split_id a b c)
key_string_collides a b c ha hc = (
  valid_key (split_name a b c) (append-nonempty a _ ha) hc,
  valid_key (split_id a b c) ha (append-nonempty_right b (b':' ∷ c) refl),
  unfold key_string in append_assoc a (b':' ∷ b) (b':' ∷ c),
  λ e. longer a b (ap (λ (k : Key). k.mno) e),
)
