-- ===== src/Fediverse/Plain.antt =====
-- The text functions of adapters/fediverse/mastodon.go: HTML to plain text, a limit in bytes, ages.
pub mod Cap
use openussd.Prelude.{
  ℕ, zero, suc, ◌+◌, ◌-◌, ◌*◌, ◌/◌, Bool, true, false, ◌&&◌, ◌||◌, Option, none, some, List, [],
  ◌∷◌, ◌++◌, ◌==◌, ltb, leb, if◌then◌else◌, length,
}
use openussd.Strings.{
  Text, codes, is_space, has_prefix, byte_len, rune_len, cut_bytes, trim_right, trim_space,
}
use openussd.Strconv.{print_nat}

abbrev pub max_post_bytes : ℕ
max_post_bytes = 900

-- The loop of `capBytes`: `i` is the offset of the next rune and `cut` that of the one before it.
unfoldable pub cap_point : ℕ → ℕ → ℕ → Text → ℕ
cap_point limit i cut [] = cut
cap_point limit i cut (c ∷ s) =
    let rest = cap_point limit (i + rune_len c) i s in if ltb limit (i + 3) then cut else rest

unfoldable pub cap_bytes : Text → ℕ → Text
unfolding cap_point cut_bytes
cap_bytes s limit =
    if leb (byte_len s) limit
    then s
    else trim_right (cut_bytes (cap_point limit 0 0 s) s) ++ codes "..."

-- `strings.ReplaceAll`; the first argument counts the runes of a match that are still to be passed.
unfoldable pub replace_from : ℕ → Text → Text → Text → Text
unfolding has_prefix
replace_from skip [] old new = []
replace_from zero (c ∷ s) old new =
    if has_prefix (c ∷ s) old
    then new ++ replace_from (length old - 1) s old new
    else c ∷ replace_from 0 s old new
replace_from (suc skip) (c ∷ s) old new = replace_from skip s old new

unfoldable pub break_tags : List Text → Text → Text
unfolding replace_from
break_tags [] s = s
break_tags (br ∷ brs) s = break_tags brs (replace_from 0 s br (codes "\n"))

-- How many runes there are up to the next `>`.
unfoldable pub tag_end : Text → Option ℕ
tag_end [] = none
tag_end (c ∷ s) =
    let rest = tag_end s in
    if c == b'>' then some 1 else elim rest [ none ↦ none | some n ↦ some (suc n) ]

-- `tagPattern`: from a `<` to the first `>` after it.
unfoldable pub strip_tags : ℕ → Text → Text
unfolding tag_end
strip_tags skip [] = []
strip_tags zero (c ∷ s) = elim (c == b'<') [
  | false ↦ c ∷ strip_tags 0 s
  | true ↦ elim (tag_end s) [ none ↦ c ∷ strip_tags 0 s | some n ↦ strip_tags n s ]
]
strip_tags (suc skip) (c ∷ s) = strip_tags skip s

abbrev pub is_blank : ℕ → Bool
is_blank c = c == 0x20 || c == 0x09

-- `whitespacePatten`: the flag says that the rune before was a blank.
unfoldable pub squeeze_blanks : Bool → Text → Text
squeeze_blanks run [] = []
squeeze_blanks run (c ∷ s) =
    let rest = squeeze_blanks (is_blank c) s in
    if is_blank c then (if run then rest else 0x20 ∷ rest) else c ∷ rest

-- `blankLinePattern`: the number counts the line feeds just before, as far as two.
unfoldable pub squeeze_lines : ℕ → Text → Text
squeeze_lines n [] = []
squeeze_lines n (c ∷ s) =
    let kept = squeeze_lines (n + 1) s in
    let dropped = squeeze_lines n s in
    let other = squeeze_lines 0 s in
    if c == 0x0a then (if ltb n 2 then c ∷ kept else dropped) else c ∷ other

abbrev pub block_ends : List Text
block_ends = codes "<br>" ∷ codes "<br/>" ∷ codes "<br />" ∷ codes "</p>" ∷ []

-- `html.UnescapeString` is the parameter.
unfoldable pub strip_html : (Text → Text) → Text → Text
unfolding break_tags strip_tags squeeze_blanks squeeze_lines trim_space
strip_html unescape s =
    trim_space
      (squeeze_lines 0 (squeeze_blanks false (unescape (strip_tags 0 (break_tags block_ends s)))))

abbrev pub second : ℕ
second = 1_000_000_000

-- `time.Parse` is the parameter. An age of less than nothing is 0 here, which reads the same.
unfoldable pub humanise_time : (Text → Option ℕ) → ℕ → Text → Text
unfolding print_nat
humanise_time parse_time now iso = elim (parse_time iso) [
  | none ↦ []
  | some t ↦
      let d = now - t in
      if ltb d (60 * second)
      then codes "now"
      else if ltb d (3_600 * second)
      then print_nat (d / (60 * second)) ++ codes "m"
      else if ltb d (86_400 * second)
      then print_nat (d / (3_600 * second)) ++ codes "h"
      else print_nat (d / (3_600 * second) / 24) ++ codes "d"
]

-- `unicode.IsPrint` is the parameter.
unfoldable pub printable : (ℕ → Bool) → Text → Text
printable is_print [] = []
printable is_print (c ∷ s) =
    let rest = printable is_print s in if is_print c then c ∷ rest else rest

abbrev pub max_reason_bytes : ℕ
max_reason_bytes = 200

-- The field of the error body is `none` if it does not decode.
unfoldable pub api_error : (ℕ → Bool) → Option Text → Text
unfolding printable cut_bytes
api_error is_print none = []
api_error is_print (some error) =
    let reason = printable is_print error in
    if ltb max_reason_bytes (byte_len reason) then cut_bytes max_reason_bytes reason else reason
