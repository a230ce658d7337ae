-- ===== src/Examples/Codec.antt =====
-- An encoding of objects that is read back: every text stands behind its length.
use openussd.Prelude.{
  ℕ, zero, suc, ◌≡◌, refl, ◌∙◌, ap, none, some, List, [], ◌∷◌, ◌++◌, length, take, drop,
  append_assoc,
}
use openussd.Strings.{Text}
use openussd.Maps.{Map}
use openussd.Adapter.Simulator.Fields.{Value, text, texts, Json, IsJson}

abbrev put_text : Text → Text
put_text s = length s ∷ s

abbrev get_text : Text → Text × Text
get_text [] = ([], [])
get_text (n ∷ s) = (take n s, drop n s)

abbrev put_texts : List Text → Text
put_texts [] = []
put_texts (t ∷ l) = put_text t ++ put_texts l

abbrev get_texts : ℕ → Text → List Text × Text
get_texts zero s = ([], s)
get_texts (suc n) s = let rest = get_texts n (get_text s).1 in ((get_text s).0 ∷ rest.0, rest.1)

abbrev put_value : Value → Text
put_value (text s) = 0 ∷ put_text s
put_value (texts l) = suc (length l) ∷ put_texts l

abbrev get_value : Text → Value × Text
get_value [] = (text [], [])
get_value (zero ∷ s) = (text (get_text s).0, (get_text s).1)
get_value (suc n ∷ s) = (texts (get_texts n s).0, (get_texts n s).1)

abbrev put_object : Map Value → Text
put_object [] = []
put_object ((k, v) ∷ m) = put_text k ++ (put_value v ++ put_object m)

abbrev get_object : ℕ → Text → Map Value
get_object zero s = []
get_object (suc n) s = let v = get_value (get_text s).1 in ((get_text s).0, v.0) ∷ get_object n v.1

abbrev pub codec : Json
codec = record {
  marshal = λ m. length m ∷ put_object m;
  unmarshal = λ s. elim s [ [] ↦ none | n ∷ rest ↦ some (get_object n rest) ];
}

split_at :
    (t r : Text) → ◌≡◌ {A = Text × Text} (take (length t) (t ++ r), drop (length t) (t ++ r)) (t, r)
split_at [] r = refl
split_at (c ∷ t) r = ap (λ (p : Text × Text). (c ∷ p.0, p.1)) (split_at t r)

get_texts-put_texts :
    (l : List Text) (r : Text)
    → ◌≡◌ {A = List Text × Text} (get_texts (length l) (put_texts l ++ r)) (l, r)
get_texts-put_texts [] r = refl
get_texts-put_texts (t ∷ l) r =
    ap (λ (p : Text × Text). (p.0 ∷ (get_texts (length l) p.1).0, (get_texts (length l) p.1).1))
      (ap (λ s. get_text (length t ∷ s)) (append_assoc t (put_texts l) r)
        ∙ split_at t (put_texts l ++ r))
    ∙ ap (λ (p : List Text × Text). (t ∷ p.0, p.1)) (get_texts-put_texts l r)

get_value-put_value :
    (v : Value) (r : Text) → ◌≡◌ {A = Value × Text} (get_value (put_value v ++ r)) (v, r)
get_value-put_value (text s) r = ap (λ (p : Text × Text). (text p.0, p.1)) (split_at s r)
get_value-put_value (texts l) r =
    ap (λ (p : List Text × Text). (texts p.0, p.1)) (get_texts-put_texts l r)

get_object-put_object : (m : Map Value) → get_object (length m) (put_object m) ≡ m
get_object-put_object [] = refl
get_object-put_object ((k, v) ∷ m) =
    ap (λ (p : Text × Text). (p.0, (get_value p.1).0) ∷ get_object (length m) (get_value p.1).1)
      (split_at k (put_value v ++ put_object m))
    ∙ ap (λ (p : Value × Text). (k, p.0) ∷ get_object (length m) p.1)
        (get_value-put_value v (put_object m))
    ∙ ap (λ rest. (k, v) ∷ rest) (get_object-put_object m)

pub codec-IsJson : IsJson codec
codec-IsJson m distinct = ap some (get_object-put_object m)
