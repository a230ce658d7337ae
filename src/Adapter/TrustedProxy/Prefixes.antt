-- ===== src/Adapter/TrustedProxy/Prefixes.antt =====
-- ParsePrefixes of gateway/internal/adapter/trustedproxy.go: the entries of an allowlist.
use openussd.Prelude.{
  ℕ, ◌-◌, ltb, Bool, not, ◌||◌, Option, none, some, List, [], ◌∷◌, ◌++◌, if◌then◌else◌, Result, ok,
  err, ◌>>=◌, ◌≡◌, refl, inl, inr, Bool-cases, Result-cases,
}
use openussd.Strings.{Text, trim_space, is_empty, contains_rune}

-- What the function uses of `netip`.
pub record Prefixes (Addr Prefix : Type 0) : Type 0 where
  pub parse_addr : Text → Option Addr
  pub parse_prefix : Text → Option Prefix
  pub addr : Prefix → Addr
  pub bits : Prefix → ℕ
  pub is_4in6 : Addr → Bool
  pub unmap : Addr → Addr
  pub bit_len : Addr → ℕ
  pub prefix_from : Addr → ℕ → Prefix
  pub masked : Prefix → Prefix

pub data PrefixError : Type 0 where
  bad_cidr bad_address : Text → PrefixError

module _ {Addr Prefix : Type 0} (netip : Prefixes Addr Prefix) where
  unfoldable pub unmap_prefix : Prefix → Prefix
  unmap_prefix p =
      if not (netip.is_4in6 (netip.addr p)) || ltb (netip.bits p) 96
      then p
      else netip.prefix_from (netip.unmap (netip.addr p)) (netip.bits p - 96)

  -- One entry that is not blank.
  unfoldable pub parse_entry : Text → Result PrefixError Prefix
  unfolding unmap_prefix
  parse_entry s =
      if contains_rune s b'/'
      then elim (netip.parse_prefix s) [
        | none ↦ err (bad_cidr s)
        | some p ↦ ok (netip.masked (unmap_prefix p))
      ]
      else elim (netip.parse_addr s) [
        | none ↦ err (bad_address s)
        | some a ↦ ok (netip.prefix_from (netip.unmap a) (netip.bit_len (netip.unmap a)))
      ]

  unfoldable pub parse_prefixes : List Text → Result PrefixError (List Prefix)
  unfolding parse_entry
  parse_prefixes [] = ok []
  parse_prefixes (s ∷ rest) =
      let others = parse_prefixes rest in
      if is_empty (trim_space s)
      then others
      else (do p ← parse_entry (trim_space s); ps ← others; ok (p ∷ ps))

  collected :
      (r : Result PrefixError Prefix) (ps qs : Result PrefixError (List Prefix))
      → (r >>= (λ p. (ps >>= (λ a. qs >>= (λ b. ok (a ++ b)))) >>= (λ c. ok (p ∷ c))))
        ≡ ((r >>= (λ p. ps >>= (λ a. ok (p ∷ a)))) >>= (λ a. qs >>= (λ b. ok (a ++ b))))
  collected (err e) ps qs = refl
  collected (ok p) (err e) qs = refl
  collected (ok p) (ok a) (err e) = refl
  collected (ok p) (ok a) (ok b) = refl

  -- The entries of two lists are parsed one list after the other.
  parse_prefixes-append :
      (xs ys : List Text)
      → parse_prefixes (xs ++ ys)
        ≡ (parse_prefixes xs >>= (λ ps. parse_prefixes ys >>= (λ qs. ok (ps ++ qs))))
  unfolding parse_prefixes
  parse_prefixes-append [] ys = elim (Result-cases (parse_prefixes ys)) [
    | inl (qs, e) ↦ rw (e)
    | inr (e, q) ↦ rw (q)
  ]
  parse_prefixes-append (s ∷ xs) ys =
      let rest = parse_prefixes-append xs ys in
      elim (Bool-cases (is_empty (trim_space s))) [
        | inl blank ↦ rw blank rest
        | inr entry ↦
            rw (entry, rest)
              (collected (parse_entry (trim_space s)) (parse_prefixes xs) (parse_prefixes ys))
      ]
