-- ===== src/Sdk/Shrink.antt =====
-- `Shrink` of sdk/go/render.go, the backstop that every rendered screen passes through.
pub mod Fits
use openussd.Prelude.{ℕ, ◌+◌, Bool, [], ◌++◌, min, ◌==◌, length, take, if◌then◌else◌}
use openussd.Strings.{Text}
use openussd.Canonical.Encoding.{max_septets, fits_screen}
use openussd.Sdk.Bisect.{longest}
use openussd.Sdk.Truncate.{ellipsis, truncate}

abbrev pub max_screen : ℕ
max_screen = max_septets

-- The prefix of `n` runes fits once the ellipsis is added.
abbrev pub fits_marked : Text → ℕ → Bool
fits_marked s n = fits_screen (take n s ++ ellipsis)

-- `lo` after the search in `Shrink`.
unfoldable pub shrink_point : Text → ℕ
shrink_point s = longest (fits_marked s) (min (length s) max_screen)

-- The slice `runes[:lo+1]` is `take`.
unfoldable pub shrink : Text → Text
shrink s =
    if fits_screen s
    then s
    else let lo = shrink_point s in if lo == 0 then [] else truncate (take (lo + 1) s) lo
