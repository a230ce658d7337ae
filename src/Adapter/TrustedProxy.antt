-- ===== src/Adapter/TrustedProxy.antt =====
-- gateway/internal/adapter/trustedproxy.go: an allowlist of sources around an adapter.
pub mod Trusts
pub mod Prefixes
use openussd.Prelude.{
  ℕ, Bool, true, false, not, ◌&&◌, ◌||◌, Option, none, some, List, [], ◌∷◌, ◌++◌, ◌==◌,
  if◌then◌else◌,
}
use mathlib.Core.Option
use openussd.Strings.{Text, codes, trim_space, join, split, is_empty}
use openussd.Adapter.{HttpRequest, Adapter}

abbrev pub is_bracket : ℕ → Bool
is_bracket c = c == b'[' || c == b']'

pub trim_brackets_left : Text → Text
trim_brackets_left [] = []
trim_brackets_left (c ∷ s) = if is_bracket c then trim_brackets_left s else c ∷ s

pub trim_brackets_right : Text → Text
trim_brackets_right [] = []
trim_brackets_right (c ∷ s) =
    let rest = trim_brackets_right s in if is_bracket c && is_empty rest then [] else c ∷ rest

-- `strings.Trim(host, "[]")`
unfoldable pub trim_brackets : Text → Text
unfolding trim_brackets_left trim_brackets_right
trim_brackets s = trim_brackets_right (trim_brackets_left s)

-- What the proxy uses of `net` and `netip`: the host of a `host:port`, the parser of addresses, the
-- IPv4 form of a mapped address, and whether a prefix contains an address.
pub record Network (Addr Prefix : Type 0) : Type 0 where
  pub host_of : Text → Option Text
  pub parse_addr : Text → Option Addr
  pub unmap : Addr → Addr
  pub contains : Prefix → Addr → Bool

pub record TrustedProxy (Prefix : Type 0) : Type 0 where
  pub adapter : Adapter
  pub allowed : List Prefix
  pub forwarders : List Prefix

module _ {Addr Prefix : Type 0} (net : Network Addr Prefix) where
  unfoldable pub contains_addr : List Prefix → Addr → Bool
  contains_addr [] a = false
  contains_addr (p ∷ prefixes) a = net.contains p a || contains_addr prefixes a

  unfoldable pub peer_addr : HttpRequest → Option Addr
  peer_addr r =
      Option.map net.unmap
        (net.parse_addr (trim_brackets (Option.get_or (net.host_of r.remote_addr) r.remote_addr)))

  -- The loop over the hops, from the right: the first that parses and is no forwarder.
  unfoldable pub last_hop : List Prefix → List Text → Option Addr
  last_hop forwarders [] = none
  last_hop forwarders (h ∷ hops) = elim (last_hop forwarders hops) [
    | some a ↦ some a
    | none ↦ elim (net.parse_addr (trim_space h)) [
      | none ↦ none
      | some a ↦ if not (contains_addr forwarders (net.unmap a)) then some (net.unmap a) else none
    ]
  ]

  unfoldable pub hops_of : HttpRequest → List Text
  hops_of r = split (join r.forwarded_for (codes ",")) b','

  -- With no forwarders the test fails for every peer, so the first half of the source's test is in it.
  unfoldable pub client_addr : TrustedProxy Prefix → HttpRequest → Option Addr
  unfolding contains_addr last_hop peer_addr hops_of
  client_addr t r = elim (peer_addr r) [
    | none ↦ none
    | some peer ↦
        if not (contains_addr t.forwarders peer)
        then some peer
        else some (Option.get_or (last_hop t.forwarders (hops_of r)) peer)
  ]

  unfoldable pub verify : TrustedProxy Prefix → HttpRequest → Bool
  unfolding client_addr
  verify t r = elim (client_addr t r) [
    | none ↦ false
    | some a ↦ if contains_addr t.allowed a then t.adapter.verify r else false
  ]

  -- `TrustedProxy` has no `RequiresAllowlist`.
  unfoldable pub trusted : TrustedProxy Prefix → Adapter
  unfolding verify
  trusted t = record {
    name = t.adapter.name;
    verify = verify t;
    parse = t.adapter.parse;
    render = t.adapter.render;
    requires_allowlist = none;
  }
