-- ===== src/Webhook/Sign.antt =====
-- webhook/sign.go: signing the requests to a tenant, and checking the signature on the other side.
-- Every error is the one error of the source, told apart by its wrapping text. Headers are a map
-- by the name that both sides use; `now.Sub` does not saturate here, where the source's clock
-- would have to be 292 years from the timestamp.
pub mod Accepts
use openussd.Prelude.{
  ℕ, ◌+◌, ◌*◌, ◌/◌, Bool, not, ◌||◌, Option, none, some, List, ◌++◌, ◌∷◌, ltb, ◌==◌, if◌then◌else◌,
  Result, ok, err, ℤ, pos_part, neg_part, sub_ℕ,
}
use mathlib.Core.Option
use openussd.Strings.{Text, codes, text_eq, is_empty, has_prefix}
use openussd.Strconv.{format_int, parse_int}
use openussd.Maps
use openussd.Maps.{Map}

abbrev pub header_timestamp : Text
header_timestamp = codes "X-OpenUSSD-Timestamp"

abbrev pub header_signature : Text
header_signature = codes "X-OpenUSSD-Signature"

abbrev pub header_tenant : Text
header_tenant = codes "X-OpenUSSD-Tenant"

abbrev pub scheme_v1 : Text
scheme_v1 = codes "v1"

-- Five minutes.
abbrev pub default_tolerance : ℕ
default_tolerance = 300_000_000_000

-- Seconds from Go's zero time to 1970.
abbrev pub epoch : ℕ
epoch = 62_135_596_800

-- `ts.Unix()` for nanoseconds since the zero time.
unfoldable pub unix_of : ℕ → ℤ
unix_of ts = sub_ℕ (ts / 1_000_000_000) epoch

-- `http.Header.Get`: an absent header is the empty text.
unfoldable pub get_header : Text → Map Text → Text
get_header name h = Option.get_or (Maps.lookup name h) List.[]

pub data SignatureError : Type 0 where
  no_secret missing_timestamp unparseable_timestamp out_of_tolerance unsupported_scheme mismatch :
      SignatureError

-- A tolerance that is not positive is 0 here.
unfoldable pub effective_tolerance : ℕ → ℕ
effective_tolerance tolerance = if tolerance == 0 then default_tolerance else tolerance

-- `skew > tolerance || skew < -tolerance`, without negative numbers.
unfoldable pub out_of_window : ℤ → ℕ → ℕ → Bool
out_of_window unix now tolerance =
    let ahead = (pos_part unix + epoch) * 1_000_000_000 in
    let behind = neg_part unix * 1_000_000_000 in
    ltb (ahead + tolerance) (now + behind) || ltb (now + behind + tolerance) ahead

-- The text that is signed.
unfoldable pub signed_text : ℤ → Text → Text
signed_text unix body = format_int unix ++ b'.' ∷ body

-- HMAC-SHA256 in hexadecimal is the parameter: of a secret and a message.
module _ (hmac_hex : Text → Text → Text) where
  -- `Signature`, given the Unix time of its argument.
  unfoldable pub signature : Text → ℤ → Text → Text
  signature secret unix body = scheme_v1 ++ (b'=' ∷ hmac_hex secret (signed_text unix body))

  unfoldable pub sign : Map Text → Text → ℕ → Text → Map Text
  sign h secret ts body =
      Maps.insert header_signature (signature secret (unix_of ts) body)
        (Maps.insert header_timestamp (format_int (unix_of ts)) h)

  -- The checks after the timestamp is read.
  unfoldable pub verify_at : Map Text → Text → Text → ℕ → ℕ → ℤ → Result SignatureError Unit
  verify_at h secret body now tolerance unix =
      let got = get_header header_signature h in
      if out_of_window unix now (effective_tolerance tolerance)
      then err out_of_tolerance
      else if not (has_prefix got (scheme_v1 ++ codes "="))
      then err unsupported_scheme
      else if not (text_eq got (signature secret unix body))
      then err mismatch
      else ok tt

  unfoldable pub verify : Map Text → Text → Text → ℕ → ℕ → Result SignatureError Unit
  unfolding verify_at
  verify h secret body now tolerance =
      let raw = get_header header_timestamp h in
      if is_empty secret
      then err no_secret
      else if is_empty raw
      then err missing_timestamp
      else elim (parse_int raw) [
        | none ↦ err unparseable_timestamp
        | some unix ↦ verify_at h secret body now tolerance unix
      ]
