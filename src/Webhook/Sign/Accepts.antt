-- ===== src/Webhook/Sign/Accepts.antt =====
-- `Verify` of webhook/sign.go: which requests it accepts.
use openussd.Prelude.{
  if◌then◌else◌, ℕ, ◌+◌, ◌*◌, ◌/◌, ◌≤◌, ◌≡◌, refl, ◌↔◌, true, false, ◌++◌, Option, none, some, [],
  ◌∷◌, Result, ok, err, Option-cases, inl, inr, ℤ, pos_part, neg_part, arith, if_err-eq-ok,
  if_err_pass, not-eq-false, some-injective, ap, ◌∙◌, sym,
}
use openussd.Strings.{Text, codes, is_empty, has_prefix, text_eq}
use openussd.Strings.Equal.{text_eq_iff, text_eq_refl}
use openussd.Strconv.{parse_int, format_int, max_int64}
use openussd.Strconv.RoundTrip.{parse_int-format_int}
use openussd.Maps.{Map}
use openussd.Maps.Laws.{lookup-insert}
use openussd.Webhook.Sign.{
  SignatureError, no_secret, missing_timestamp, unparseable_timestamp, verify, verify_at, sign,
  signature, signed_text, get_header, header_timestamp, header_signature, out_of_window,
  effective_tolerance, unix_of, epoch, scheme_v1,
}

-- The timestamp is no further than `tolerance` from `now`, in nanoseconds since the zero time.
pub record IsWithin (unix : ℤ) (now tolerance : ℕ) : Type 0 where
  pub not_too_old :
      now + neg_part unix * 1_000_000_000 ≤ (pos_part unix + epoch) * 1_000_000_000 + tolerance
  pub not_too_new :
      (pos_part unix + epoch) * 1_000_000_000 ≤ now + neg_part unix * 1_000_000_000 + tolerance

IsWithin-iff :
    (unix : ℤ) (now tolerance : ℕ)
    → (out_of_window unix now tolerance ≡ false) ↔ IsWithin unix now tolerance
unfolding out_of_window
IsWithin-iff unix now tolerance = (
  (λ h. record { not_too_old = ground arith; not_too_new = ground arith }),
  λ w. ground (arith, w.not_too_old, w.not_too_new),
)

-- A signature that is made of the secret, the body and the time in the header, and is recent.
pub record IsSigned (hmac_hex : Text → Text → Text) (h : Map Text) (secret body : Text)
    (now tolerance : ℕ) (unix : ℤ) : Type 0 where
  pub configured : is_empty secret ≡ false
  pub timestamp : parse_int (get_header header_timestamp h) ≡ some unix
  pub recent : IsWithin unix now (effective_tolerance tolerance)
  pub signed :
      get_header header_signature h
      ≡ codes "v1=" ++ hmac_hex secret (format_int unix ++ b'.' ∷ body)

has_prefix_self : (s t : Text) → has_prefix (s ++ t) s ≡ true
unfolding has_prefix
has_prefix_self [] t = refl
has_prefix_self (c ∷ s) t = ground (arith, has_prefix_self s t)

parse_int-nonempty : (s : Text) (z : ℤ) → parse_int s ≡ some z → is_empty s ≡ false
unfolding parse_int
parse_int-nonempty [] z h = absurd (ground arith)
parse_int-nonempty (c ∷ s) z h = refl

module _ (hmac_hex : Text → Text → Text) (h : Map Text) (secret body : Text)
    (now tolerance : ℕ) where
  signature-has_prefix :
      (unix : ℤ) → has_prefix (signature hmac_hex secret unix body) (scheme_v1 ++ codes "=") ≡ true
  unfolding signature
  signature-has_prefix unix =
      has_prefix_self (scheme_v1 ++ codes "=") (hmac_hex secret (signed_text unix body))

  verify_at-IsSigned :
      (unix : ℤ)
      → verify_at hmac_hex h secret body now tolerance unix ≡ ok tt
      → IsWithin unix now (effective_tolerance tolerance)
        × (get_header header_signature h ≡ signature hmac_hex secret unix body)
  unfolding verify_at
  verify_at-IsSigned unix k =
      let (recent, k1) = if_err-eq-ok _ _ _ k in
      let (scheme, k2) = if_err-eq-ok _ _ _ k1 in
      let (signed, _) = if_err-eq-ok _ _ _ k2 in
      (
        (IsWithin-iff unix now (effective_tolerance tolerance)).0 recent,
        (text_eq_iff _ _).0 (not-eq-false _ signed),
      )

  verify_at_of_signed :
      (unix : ℤ)
      → IsWithin unix now (effective_tolerance tolerance)
      → get_header header_signature h ≡ signature hmac_hex secret unix body
      → verify_at hmac_hex h secret body now tolerance unix ≡ ok tt
  unfolding verify_at
  verify_at_of_signed unix recent signed = rw (
    (IsWithin-iff unix now (effective_tolerance tolerance)).1 recent,
    signed,
    signature-has_prefix unix,
    text_eq_refl,
  )

  abbrev at_timestamp : Option ℤ → Result SignatureError Unit
  at_timestamp none = err unparseable_timestamp
  at_timestamp (some unix) = verify_at hmac_hex h secret body now tolerance unix

  verify-IsSigned :
      verify hmac_hex h secret body now tolerance ≡ ok tt
      → (unix : ℤ) × IsSigned hmac_hex h secret body now tolerance unix
  unfolding verify signature signed_text
  verify-IsSigned k =
      let raw = get_header header_timestamp h in
      let parsed_one = at_timestamp (parse_int raw) in
      let (configured, k1) =
        if_err-eq-ok (is_empty secret) no_secret
          (if is_empty raw then err missing_timestamp else parsed_one) k in
      let (_, k2) = if_err-eq-ok (is_empty raw) missing_timestamp parsed_one k1 in
      elim (Option-cases (parse_int (get_header header_timestamp h))) [
        | inl bad ↦ absurd (ground (arith, rw bad at k2))
        | inr (unix, parsed) ↦
            let (recent, signed) = verify_at-IsSigned unix (rw parsed at k2) in
            (
              unix,
              record {
                configured = configured;
                timestamp = parsed;
                recent = recent;
                signed = signed;
              },
            )
      ]

  verify_of_signed :
      (unix : ℤ)
      → IsSigned hmac_hex h secret body now tolerance unix
      → verify hmac_hex h secret body now tolerance ≡ ok tt
  unfolding verify signature signed_text
  verify_of_signed unix s =
      if_err_pass _ _ _ s.configured
      ∙ (if_err_pass _ _ _ (parse_int-nonempty _ unix s.timestamp)
          ∙ rw s.timestamp (verify_at_of_signed unix s.recent s.signed))

-- `Verify` accepts a request exactly if a secret is configured, the timestamp is a number no further
-- than the tolerance from the clock, and the signature is "v1=" and the MAC, under the secret, of that
-- number, a dot and the body.
pub verify_iff :
    (hmac_hex : Text → Text → Text) (h : Map Text) (secret body : Text) (now tolerance : ℕ)
    → (verify hmac_hex h secret body now tolerance ≡ ok tt)
      ↔ ((unix : ℤ) × IsSigned hmac_hex h secret body now tolerance unix)
verify_iff hmac_hex h secret body now tolerance = (
  verify-IsSigned hmac_hex h secret body now tolerance,
  λ (unix, s). verify_of_signed hmac_hex h secret body now tolerance unix s,
)

unix_of-IsWithin :
    (ts now tolerance : ℕ)
    → ts ≤ now + tolerance
    → now ≤ ts / 1_000_000_000 * 1_000_000_000 + tolerance
    → IsWithin (unix_of ts) now tolerance
unfolding unix_of
unix_of-IsWithin ts now tolerance new old = record {
  not_too_old = ground arith;
  not_too_new = ground arith;
}

unix_of_range :
    (ts : ℕ)
    → ts / 1_000_000_000 ≤ max_int64
    → (pos_part (unix_of ts) ≤ max_int64) × (neg_part (unix_of ts) ≤ max_int64 + 1)
unfolding unix_of
unix_of_range ts h = (ground arith, ground arith)

get_header-sign-signature :
    (hmac_hex : Text → Text → Text) (h : Map Text) (secret : Text) (ts : ℕ) (body : Text)
    → get_header header_signature (sign hmac_hex h secret ts body)
      ≡ signature hmac_hex secret (unix_of ts) body
unfolding sign get_header
get_header-sign-signature hmac_hex h secret ts body = rw (lookup-insert, text_eq_refl)

get_header-sign-timestamp :
    (hmac_hex : Text → Text → Text) (h : Map Text) (secret : Text) (ts : ℕ) (body : Text)
    → get_header header_timestamp (sign hmac_hex h secret ts body) ≡ format_int (unix_of ts)
unfolding sign get_header
get_header-sign-timestamp hmac_hex h secret ts body =
    let differ : text_eq header_signature header_timestamp ≡ false = unfold text_eq in refl in
    rw (lookup-insert, differ, lookup-insert, text_eq_refl)

-- What `Sign` attaches, `Verify` accepts with the same secret and body, at every time that is not
-- before the time of signing nor after its whole second by more than the tolerance. The secret is
-- not empty and the time is an `int64` number of seconds.
pub verify-sign :
    (hmac_hex : Text → Text → Text) (h : Map Text) (secret body : Text) (ts now tolerance : ℕ)
    → is_empty secret ≡ false
    → ts / 1_000_000_000 ≤ max_int64
    → ts ≤ now + effective_tolerance tolerance
    → now ≤ ts / 1_000_000_000 * 1_000_000_000 + effective_tolerance tolerance
    → verify hmac_hex (sign hmac_hex h secret ts body) secret body now tolerance ≡ ok tt
unfolding signature signed_text
verify-sign hmac_hex h secret body ts now tolerance configured fits new old =
    let (upper, lower) = unix_of_range ts fits in
    verify_of_signed hmac_hex (sign hmac_hex h secret ts body) secret body now tolerance
      (unix_of ts)
      (record {
        configured = configured;
        timestamp =
            ap parse_int (get_header-sign-timestamp hmac_hex h secret ts body)
            ∙ parse_int-format_int (unix_of ts) upper lower;
        recent = unix_of-IsWithin ts now _ new old;
        signed = get_header-sign-signature hmac_hex h secret ts body;
      })

append-cancel : (s t u : Text) → s ++ t ≡ s ++ u → t ≡ u
append-cancel [] t u h = h
append-cancel (c ∷ s) t u h = append-cancel s t u (ground arith)

signature-message :
    (hmac_hex : Text → Text → Text) (secret : Text) (unix : ℤ) (body other : Text)
    → signature hmac_hex secret unix body ≡ signature hmac_hex secret unix other
    → hmac_hex secret (signed_text unix body) ≡ hmac_hex secret (signed_text unix other)
unfolding signature
signature-message hmac_hex secret unix body other h = append-cancel (codes "v1=") _ _ h

-- One set of headers accepted for two bodies exhibits two messages with the same HMAC, which are
-- the two bodies behind the timestamp of the headers.
verify_binds_body :
    (hmac_hex : Text → Text → Text) (h : Map Text) (secret body other : Text)
    (now later tolerance : ℕ)
    → verify hmac_hex h secret body now tolerance ≡ ok tt
    → verify hmac_hex h secret other later tolerance ≡ ok tt
    → (unix : ℤ) × (parse_int (get_header header_timestamp h) ≡ some unix)
      × (hmac_hex secret (signed_text unix body) ≡ hmac_hex secret (signed_text unix other))
unfolding signature signed_text
verify_binds_body hmac_hex h secret body other now later tolerance a b =
    let (unix, s) = verify-IsSigned hmac_hex h secret body now tolerance a in
    let (unix', s') = verify-IsSigned hmac_hex h secret other later tolerance b in
    let same : unix' ≡ unix = some-injective (sym s'.timestamp ∙ s.timestamp) in
    let signed : get_header header_signature h ≡ signature hmac_hex secret unix other =
      s'.signed ∙ ap (λ u. signature hmac_hex secret u other) same in
    (unix, s.timestamp, signature-message hmac_hex secret unix body other (sym s.signed ∙ signed))
