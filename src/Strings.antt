-- ===== src/Strings.antt =====
-- What the program uses of Go's `strings` and `unicode` packages. A Go string that holds valid
-- UTF-8 is the list of its runes, as `range` and `[]rune` see it; `byte_len` is Go's `len`.
pub mod Words
pub mod Trim
pub mod Equal
pub mod Split
use Prim.Native.Char.{code}
use Prim.Native.String.{String}
use openussd.Prelude.{
  ℕ, suc, ◌+◌, ◌-◌, Bool, true, false, ◌&&◌, ◌||◌, List, [], ◌∷◌, ◌++◌, ltb, leb, ◌==◌,
  if◌then◌else◌, Option, none, some,
}

abbrev pub Text : Type 0
Text = List ℕ

abbrev pub codes : String → Text
codes String.[] = []
codes (String.◌∷◌ c s) = code c ∷ codes s

unfoldable pub text_eq : Text → Text → Bool
text_eq [] [] = true
text_eq (c ∷ s) (d ∷ t) = c == d && text_eq s t
text_eq _ _ = false

abbrev pub is_empty : Text → Bool
is_empty [] = true
is_empty (c ∷ s) = false

-- The bytes of one rune in UTF-8.
abbrev pub rune_len : ℕ → ℕ
rune_len c = if ltb c 0x80 then 1 else if ltb c 0x800 then 2 else if ltb c 0x10000 then 3 else 4

unfoldable pub byte_len : Text → ℕ
byte_len [] = 0
byte_len (c ∷ s) = rune_len c + byte_len s

-- `s[:room]` in bytes. A rune that is cut through is dropped: the cuts are on a boundary, or what
-- follows drops the bytes of half a rune.
unfoldable pub cut_bytes : ℕ → Text → Text
cut_bytes room [] = []
cut_bytes room (c ∷ s) =
    let rest = cut_bytes (room - rune_len c) s in if ltb room (rune_len c) then [] else c ∷ rest

-- `strings.ContainsRune`
unfoldable pub contains_rune : Text → ℕ → Bool
contains_rune [] r = false
contains_rune (c ∷ s) r = c == r || contains_rune s r

-- `strings.HasPrefix`
unfoldable pub has_prefix : Text → Text → Bool
has_prefix s [] = true
has_prefix [] (p ∷ ps) = false
has_prefix (c ∷ s) (p ∷ ps) = c == p && has_prefix s ps

-- `unicode.IsSpace`: the runes with the property White_Space.
unfoldable pub is_space : ℕ → Bool
is_space c =
    (leb 0x09 c && leb c 0x0d)
    || c == 0x20
    || c == 0x85
    || c == 0xa0
    || c == 0x1680
    || (leb 0x2000 c && leb c 0x200a)
    || c == 0x2028
    || c == 0x2029
    || c == 0x202f
    || c == 0x205f
    || c == 0x3000

-- `strings.TrimRightFunc(s, unicode.IsSpace)`
unfoldable pub trim_right : Text → Text
unfolding is_space
trim_right [] = []
trim_right (c ∷ s) = let rest = trim_right s in if is_space c && is_empty rest then [] else c ∷ rest

unfoldable pub trim_left : Text → Text
unfolding is_space
trim_left [] = []
trim_left (c ∷ s) = if is_space c then trim_left s else c ∷ s

-- `strings.TrimSpace`
unfoldable pub trim_space : Text → Text
unfolding trim_left trim_right
trim_space s = trim_right (trim_left s)

-- `strings.FieldsFunc`: the runs of runes that are no separators.
module _ (sep : ℕ → Bool) where
  abbrev pub flush : Text → List Text
  flush [] = []
  flush (c ∷ s) = (c ∷ s) ∷ []

  unfoldable pub fields_from : Text → Text → List Text
  fields_from cur [] = flush cur
  fields_from cur (c ∷ s) = elim (sep c) [
    | true ↦ flush cur ++ fields_from [] s
    | false ↦ fields_from (cur ++ c ∷ []) s
  ]

  unfoldable pub fields_func : Text → List Text
  unfolding fields_from
  fields_func s = fields_from [] s

-- `strings.Fields`
unfoldable pub fields : Text → List Text
unfolding fields_func is_space
fields s = fields_func is_space s

-- `strings.Join`
unfoldable pub join : List Text → Text → Text
join [] sep = []
join (w ∷ []) sep = w
join (w ∷ v ∷ ws) sep = w ++ (sep ++ join (v ∷ ws) sep)

-- `strings.Split` by one rune.
abbrev pub onto_first : ℕ → List Text → List Text
onto_first c [] = (c ∷ []) ∷ []
onto_first c (w ∷ ws) = (c ∷ w) ∷ ws

unfoldable pub split : Text → ℕ → List Text
split [] sep = [] ∷ []
split (c ∷ s) sep = let rest = split s sep in if c == sep then [] ∷ rest else onto_first c rest
