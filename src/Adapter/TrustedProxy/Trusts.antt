-- ===== src/Adapter/TrustedProxy/Trusts.antt =====
-- trustedproxy.go: which requests pass the allowlist, and what a client can forge.
use openussd.Prelude.{
  ◌≡◌, refl, sym, ◌∙◌, ap, ap₂, true, not, Option, none, some, List, [], ◌∷◌, ◌++◌, if◌then◌else◌,
  arith, In, inl, inr, Bool-cases, Option-cases, or-eq-true,
}
use mathlib.Core.Option
use openussd.Strings.{Text, join, split}
use openussd.Strings.Split.{split-append}
use openussd.Adapter.{HttpRequest}
use openussd.Adapter.TrustedProxy.{
  Network, TrustedProxy, contains_addr, peer_addr, last_hop, hops_of, client_addr, verify,
}

module _ {Addr Prefix : Type 0} (net : Network Addr Prefix) where
  contains_addr-In :
      (ps : List Prefix) (a : Addr)
      → contains_addr net ps a ≡ true
      → (p : Prefix) × In p ps × (net.contains p a ≡ true)
  unfolding contains_addr
  contains_addr-In [] a h = absurd (ground arith)
  contains_addr-In (p ∷ ps) a h = elim (or-eq-true (net.contains p a) (contains_addr net ps a) h) [
    | inl here ↦ (p, inl refl, here)
    | inr there ↦ let (q, m, e) = contains_addr-In ps a there in (q, inr m, e)
  ]

  last_hop-append :
      (forwarders : List Prefix) (left right : List Text) (a : Addr)
      → last_hop net forwarders right ≡ some a
      → last_hop net forwarders (left ++ right) ≡ some a
  unfolding last_hop
  last_hop-append forwarders [] right a h = h
  last_hop-append forwarders (l ∷ left) right a h = rw (last_hop-append forwarders left right a h)

  verify-client_addr :
      (t : TrustedProxy Prefix) (r : HttpRequest)
      → verify net t r ≡ true
      → (a : Addr) × (client_addr net t r ≡ some a)
        × (contains_addr net t.allowed a ≡ true)
        × (t.adapter.verify r ≡ true)
  unfolding verify
  verify-client_addr t r h = elim (Option-cases (client_addr net t r)) [
    | inl nobody ↦ absurd (ground (arith, rw (nobody, verify) at h))
    | inr (a, somebody) ↦ elim (Bool-cases (contains_addr net t.allowed a)) [
      | inl good ↦ (a, somebody, good, (rw (somebody, good, verify) at h))
      | inr bad ↦ absurd (ground (arith, rw (somebody, bad, verify) at h))
    ]
  ]

  choose : TrustedProxy Prefix → Option Addr → Option Addr → Option Addr
  choose t none hop = none
  choose t (some peer) hop =
      if not (contains_addr net t.forwarders peer) then some peer else some (Option.get_or hop peer)

  client_addr_lem :
      (t : TrustedProxy Prefix) (r : HttpRequest)
      → client_addr net t r ≡ choose t (peer_addr net r) (last_hop net t.forwarders (hops_of net r))
  unfolding client_addr choose
  client_addr_lem t r = elim (Option-cases (peer_addr net r)) [
    | inl nobody ↦ rw (nobody, client_addr)
    | inr (peer, somebody) ↦ rw (somebody, client_addr)
  ]

-- A request that is verified comes from an address in one of the allowed prefixes, and the adapter's
-- own check passed.
pub verify-IsAllowed :
    (Addr Prefix : Type 0) (net : Network Addr Prefix) (t : TrustedProxy Prefix) (r : HttpRequest)
    → verify net t r ≡ true
    → (a : Addr) × (p : Prefix) × (client_addr net t r ≡ some a)
      × In p t.allowed
      × (net.contains p a ≡ true)
      × (t.adapter.verify r ≡ true)
verify-IsAllowed Addr Prefix net t r h =
    let (a, client, allowed, checked) = verify-client_addr net t r h in
    let (p, m, e) = contains_addr-In net t.allowed a allowed in (a, p, client, m, e, checked)

-- Where X-Forwarded-For is one line that has a hop which parses and is no forwarder, the address
-- that the proxy goes by stays the same if any text and a comma are put before the line.
pub client_addr_forged :
    (Addr Prefix : Type 0) (net : Network Addr Prefix) (t : TrustedProxy Prefix) (r : HttpRequest)
    (written forged : Text) (a : Addr)
    → r.forwarded_for ≡ written ∷ []
    → last_hop net t.forwarders (split written b',') ≡ some a
    → client_addr net t (record r { forwarded_for = (forged ++ b',' ∷ written) ∷ [] })
      ≡ client_addr net t r
client_addr_forged Addr Prefix net t r written forged a header found =
    let attacked = record r { forwarded_for = (forged ++ b',' ∷ written) ∷ [] } in
    let honest : last_hop net t.forwarders (hops_of net r) ≡ some a =
      unfold hops_of join in rw (header, join) found in
    let spoofed : last_hop net t.forwarders (hops_of net attacked) ≡ some a =
      unfold hops_of join in
      (ap (last_hop net t.forwarders) (split-append forged written b',')
        ∙ last_hop-append net t.forwarders (split forged b',') (split written b',') a found) in
    let same : peer_addr net attacked ≡ peer_addr net r = unfold peer_addr in refl in
    client_addr_lem net t attacked
    ∙ (ap₂ (choose net t) same (spoofed ∙ sym honest) ∙ sym (client_addr_lem net t r))
