-- ===== src/Sdk/Truncate.antt =====
-- `Truncate` of sdk/go/render.go: a text cut to a number of runes, at a word boundary if one is near.
pub mod Shape
use openussd.Prelude.{
  ℕ, zero, suc, ◌-◌, ◌/◌, max, Bool, Option, none, some, List, [], ◌∷◌, ◌++◌, leb, ltb, ◌==◌,
  length, get_or, take, replicate, if◌then◌else◌,
}
use openussd.Strings.{Text, codes, is_space, trim_right}

abbrev pub ellipsis : Text
ellipsis = codes "..."

abbrev pub max_word_lookback : ℕ
max_word_lookback = 24

-- `for i := n - 1; i >= floor; i--`: the last space of `cut` before `n` and not before `floor`.
unfoldable pub last_space : Text → ℕ → ℕ → Option ℕ
last_space cut floor zero = none
last_space cut floor (suc i) =
    if ltb i floor
    then none
    else if is_space (get_or cut i 0)
    then some i
    else last_space cut floor i

-- What `Truncate` does once the text is too long and the marker fits.
unfoldable pub truncate_long : Text → ℕ → Text
unfolding last_space
truncate_long s limit =
    let cut = take (limit - length ellipsis) s in
    let floor = max (length cut - max_word_lookback) (length cut / 2) in
    if is_space (get_or s (length cut) 0)
    then trim_right cut ++ ellipsis
    else elim (last_space cut floor (length cut)) [
      | some i ↦ trim_right (take i cut) ++ ellipsis
      | none ↦ cut ++ ellipsis
    ]

-- A negative limit gives the empty text too.
unfoldable pub truncate : Text → ℕ → Text
unfolding truncate_long trim_right is_space
truncate s limit =
    if leb limit 0
    then []
    else if leb (length s) limit
    then s
    else if leb limit (length ellipsis)
    then replicate limit b'.'
    else truncate_long s limit
