-- ===== src/Sdk/Gsm.antt =====
-- sdk/go/gsm.go: rewriting text into the GSM 03.38 alphabet, and labels for menu lines.
pub mod Labels
use openussd.Prelude.{
  ℕ, Bool, List, [], ◌∷◌, ◌++◌, ◌==◌, ◌||◌, ltb, Option, none, some, length, if◌then◌else◌,
}
use openussd.Strings.{Text, codes, is_space, fields, fields_func, join, trim_space}
use openussd.Canonical.Encoding.{gsm7, ucs2, encoding_of}
use openussd.Sdk.Truncate.{truncate}

pub transliterations : List (ℕ × Text)
transliterations =
    (0x2018, codes "'")
    ∷ (0x2019, codes "'")
    ∷ (0x201a, codes ",")
    ∷ (0x201b, codes "'")
    ∷ (0x201c, codes "\"")
    ∷ (0x201d, codes "\"")
    ∷ (0x201e, codes "\"")
    ∷ (0x201f, codes "\"")
    ∷ (0x2013, codes "-")
    ∷ (0x2014, codes "-")
    ∷ (0x2212, codes "-")
    ∷ (0x2012, codes "-")
    ∷ (0x2026, codes "...")
    ∷ (0x2022, codes "*")
    ∷ (0xb7, codes ".")
    ∷ (0x2030, codes "%")
    ∷ (0xab, codes "\"")
    ∷ (0xbb, codes "\"")
    ∷ (0x2032, codes "'")
    ∷ (0x2033, codes "\"")
    ∷ (0xe1, codes "a")
    ∷ (0xe2, codes "a")
    ∷ (0xe3, codes "a")
    ∷ (0xe5, codes "a")
    ∷ (0x101, codes "a")
    ∷ (0xe9, codes "e")
    ∷ (0xea, codes "e")
    ∷ (0xeb, codes "e")
    ∷ (0x113, codes "e")
    ∷ (0xed, codes "i")
    ∷ (0xee, codes "i")
    ∷ (0xef, codes "i")
    ∷ (0x12b, codes "i")
    ∷ (0xf3, codes "o")
    ∷ (0xf4, codes "o")
    ∷ (0xf5, codes "o")
    ∷ (0x14d, codes "o")
    ∷ (0xfa, codes "u")
    ∷ (0xfb, codes "u")
    ∷ (0x16b, codes "u")
    ∷ (0xe7, codes "c")
    ∷ (0x161, codes "s")
    ∷ (0x17e, codes "z")
    ∷ (0xfd, codes "y")
    ∷ (0xc1, codes "A")
    ∷ (0xc2, codes "A")
    ∷ (0xc3, codes "A")
    ∷ (0x100, codes "A")
    ∷ (0xc8, codes "E")
    ∷ (0xca, codes "E")
    ∷ (0xcb, codes "E")
    ∷ (0xcd, codes "I")
    ∷ (0xce, codes "I")
    ∷ (0xcf, codes "I")
    ∷ (0xd3, codes "O")
    ∷ (0xd4, codes "O")
    ∷ (0xd5, codes "O")
    ∷ (0xda, codes "U")
    ∷ (0xdb, codes "U")
    ∷ (0xa0, codes " ")
    ∷ (0x200b, codes "")
    ∷ (0xfe0f, codes "")
    ∷ (0x9, codes " ")
    ∷ []

pub transliterate_in : List (ℕ × Text) → ℕ → Option Text
transliterate_in [] r = none
transliterate_in ((k, repl) ∷ table) r = if k == r then some repl else transliterate_in table r

-- One round of the loop of `ToGSM`.
pub gsm_rune : ℕ → Text
unfolding transliterate_in transliterations
gsm_rune r = elim (encoding_of (r ∷ [])) [
  | gsm7 ↦ r ∷ []
  | ucs2 ↦ elim (transliterate_in transliterations r) [ some repl ↦ repl | none ↦ 0x20 ∷ [] ]
]

pub gsm_runes : Text → Text
unfolding gsm_rune
gsm_runes [] = []
gsm_runes (r ∷ s) = gsm_rune r ++ gsm_runes s

unfoldable pub to_gsm : Text → Text
to_gsm s = elim (encoding_of s) [ gsm7 ↦ s | ucs2 ↦ join (fields (gsm_runes s)) (0x20 ∷ []) ]

-- The separators of `OneLine`: line feed, carriage return, tab, vertical tab, form feed and space.
unfoldable pub is_break : ℕ → Bool
is_break r = r == 0x0a || r == 0x0d || r == 0x09 || r == 0x0b || r == 0x0c || r == 0x20

unfoldable pub one_line : Text → Text
one_line s = join (fields_func is_break s) (0x20 ∷ [])

unfoldable pub label : Text → ℕ → Text → Text
label s limit fallback =
    let out = trim_space (one_line (to_gsm s)) in
    if ltb (length out) 2 then truncate fallback limit else truncate out limit
