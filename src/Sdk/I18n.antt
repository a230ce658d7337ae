-- ===== src/Sdk/I18n.antt =====
-- sdk/go/i18n.go: translations. The parameter `lower` is `unicode.ToLower` on one rune; the bundle
-- is `none` for a nil pointer, and a missing language is the nil map.
use openussd.Prelude.{ℕ, Bool, true, false, Option, none, some, [], map, if◌then◌else◌}
use mathlib.Core.Option
use openussd.Strings.{Text, codes, is_empty}
use openussd.Maps
use openussd.Maps.{Map}

abbrev pub default_lang : Text
default_lang = codes "en"

pub record Bundle : Type 0 where
  pub fallback : Text
  pub strings : Map (Map Text)

abbrev pub new_bundle : Map (Map Text) → Bundle
new_bundle langs = record { fallback = default_lang; strings = langs }

module _ (lower : ℕ → ℕ) where
  abbrev pub find : Bundle → Text → Text → Option Text
  find b lang key = Maps.lookup key (Option.get_or (Maps.lookup (map lower lang) b.strings) [])

  unfoldable pub translate : Option Bundle → Text → Text → Text
  translate none lang key = key
  translate (some b) lang key = elim (find b lang key) [
    | some v ↦ v
    | none ↦ elim (find b (if is_empty b.fallback then default_lang else b.fallback) key) [
      | some v ↦ v
      | none ↦ key
    ]
  ]

  unfoldable pub has : Option Bundle → Text → Bool
  has none lang = false
  has (some b) lang = elim (Maps.lookup (map lower lang) b.strings) [ none ↦ false | some _ ↦ true ]
