-- ===== src/Tenant/Router/Route.antt =====
-- What `Route` answers on a table that `NewRouter` built.
use native.Mathlib.Nat.{le_of_eq}
use openussd.Prelude.{
  ◌≤◌, ◌≡◌, refl, sym, ◌∙◌, ap, subst, inl, inr, ◌↔◌, true, Option, List, [], ◌∷◌, ◌++◌, ok, In,
  All-In, arith, Bool-cases, length, drop, and-eq-true,
}
use openussd.Strings.{Text, text_eq}
use openussd.Strings.Equal.{text_eq_iff}
use openussd.Canonical.Event.{Event}
use openussd.Tenant.{Tenant}
use openussd.Tenant.Router.{Router, group, new_router, has_prefix, route_in, route}
use openussd.Tenant.Router.Table.{ok-injective}
use openussd.Tenant.Router.Sorted.{IsDescending}
use openussd.Tenant.Router.Groups.{IsRouter, new_router-IsRouter}

-- `hasPrefix` holds exactly if the path is the prefix and what `Route` leaves of it.
pub has_prefix_iff :
    (path prefix : List Text)
    → (has_prefix path prefix ≡ true) ↔ (path ≡ prefix ++ drop (length prefix) path)
unfolding has_prefix
has_prefix_iff path [] = ((λ e. refl), λ e. refl)
has_prefix_iff [] (seg ∷ prefix) = ((λ e. ground arith), λ e. cc)
has_prefix_iff (p ∷ path) (seg ∷ prefix) =
    let (to, from) = has_prefix_iff path prefix in
    (
      λ e.
          let (head, rest) = and-eq-true (text_eq p seg) _ e in
          let same = (text_eq_iff p seg).0 head in cc (same, to rest),
      λ e. let head : text_eq p seg ≡ true = (text_eq_iff p seg).1 (cc) in rw head (from (cc)),
    )

abbrev ShorterThan : Tenant → Tenant → Type 0
ShorterThan t u = length u.prefix ≤ length t.prefix

-- The first tenant that matches, and that no other match is longer.
record IsFirst (ts : List Tenant) (ev : Event) (r : Tenant × Event) : Type 0 where
  listed : In r.0 ts
  matched : has_prefix ev.path r.0.prefix ≡ true
  stripped : r.1 ≡ record ev { path = drop (length r.0.prefix) ev.path }
  longest : (u : Tenant) → In u ts → has_prefix ev.path u.prefix ≡ true → ShorterThan r.0 u

ap_le : {u t : Tenant} → u ≡ t → ShorterThan t u
ap_le e = le_of_eq (ap (λ (v : Tenant). length v.prefix) e)

route_in-IsFirst :
    (ts : List Tenant) (ev : Event) (r : Tenant × Event)
    → IsDescending ts
    → route_in ts ev ≡ ok r
    → IsFirst ts ev r
unfolding route_in
route_in-IsFirst [] ev r d h = absurd (ground arith)
route_in-IsFirst (t ∷ ts) ev r d h = elim (Bool-cases (has_prefix ev.path t.prefix)) [
  | inl here ↦ subst (IsFirst (t ∷ ts) ev) (ok-injective (rw here at h)) (record {
    listed = inl refl;
    matched = here;
    stripped = refl;
    longest =
        λ u m e. elim m [ inl it ↦ ap_le it | inr there ↦ All-In (ShorterThan t) u ts d.0 there ];
  })
  | inr not_here ↦
      let k = route_in-IsFirst ts ev r d.1 (rw not_here at h) in
      record {
        listed = inr k.listed;
        matched = k.matched;
        stripped = k.stripped;
        longest = λ u m e. elim m [
          | inl it ↦ absurd (
              ground
                (arith, not_here, subst (λ (v : Tenant). has_prefix ev.path v.prefix ≡ true) it e))
          | inr there ↦ k.longest u there e
        ];
      }
]

route_in_found :
    (ts : List Tenant) (ev : Event) (u : Tenant)
    → In u ts
    → has_prefix ev.path u.prefix ≡ true
    → (r : Tenant × Event) × (route_in ts ev ≡ ok r)
unfolding route_in
route_in_found [] ev u h e = elim h [ ]
route_in_found (t ∷ ts) ev u h e = elim (Bool-cases (has_prefix ev.path t.prefix)) [
  | inl here ↦ ((t, record ev { path = drop (length t.prefix) ev.path }), rw here)
  | inr not_here ↦ elim h [
    | inl it ↦
        absurd (
          ground (arith, not_here, subst (λ (v : Tenant). has_prefix ev.path v.prefix ≡ true) it e))
    | inr there ↦ let (r, found) = route_in_found ts ev u there e in (r, rw not_here found)
  ]
]

route_in-msisdn :
    (ts : List Tenant) (ev : Event) (t : Tenant) (routed : Event)
    → route_in ts ev ≡ ok (t, routed)
    → routed.msisdn ≡ ev.msisdn
unfolding route_in
route_in-msisdn [] ev t routed h = absurd (ground arith)
route_in-msisdn (u ∷ ts) ev t routed h = elim (Bool-cases (has_prefix ev.path u.prefix)) [
  | inl here ↦ ap (λ (r : Tenant × Event). r.1.msisdn) (sym (ok-injective (rw here at h)))
  | inr not_here ↦ route_in-msisdn ts ev t routed (rw not_here at h)
]

-- Routing leaves the subscriber.
pub route-msisdn :
    (r : Router) (ev : Event) (t : Tenant) (routed : Event)
    → route r ev ≡ ok (t, routed)
    → routed.msisdn ≡ ev.msisdn
unfolding route
route-msisdn r ev t routed h = route_in-msisdn (group ev.shortcode r.by_shortcode) ev t routed h

-- The tenant that answers an event, and the event that it is given.
pub record IsRouted (tenants : List Tenant) (ev : Event) (t : Tenant) (routed : Event)
    : Type 0 where
  pub configured : In t tenants
  pub shortcode : t.shortcode ≡ ev.shortcode
  pub path : ev.path ≡ t.prefix ++ routed.path
  pub unchanged : routed ≡ record ev { path = routed.path }
  pub most_specific :
      (u : Tenant)
      → In u tenants
      → u.shortcode ≡ ev.shortcode
      → has_prefix ev.path u.prefix ≡ true
      → length u.prefix ≤ length t.prefix
  pub only : (u : Tenant) → In u tenants → u.shortcode ≡ ev.shortcode → u.prefix ≡ t.prefix → u ≡ t

module _ (tenants : List Tenant) (r : Router) (table : IsRouter tenants r) where
  route_in_table :
      (ev : Event) (t : Tenant) (routed : Event)
      → route r ev ≡ ok (t, routed)
      → IsRouted tenants ev t routed
  unfolding route
  route_in_table ev t routed h =
      let first =
        route_in-IsFirst (group ev.shortcode r.by_shortcode) ev (t, routed)
          (table.descending ev.shortcode) h in
      let (configured, shortcode) = table.member t ev.shortcode first.listed in
      let left : routed.path ≡ drop (length t.prefix) ev.path =
        ap (λ (e : Event). e.path) first.stripped in
      record {
        configured = configured;
        shortcode = shortcode;
        path =
            (has_prefix_iff ev.path t.prefix).0 first.matched ∙ ap (λ p. t.prefix ++ p) (sym left);
        unchanged = first.stripped ∙ ap (λ p. record ev { path = p }) (sym left);
        most_specific = λ u m e p.
            first.longest u (subst (λ sc. In u (group sc r.by_shortcode)) e (table.listed u m)) p;
        only = λ u m e p. table.by_route u t m configured (e ∙ sym shortcode) p;
      }

  route_finds :
      (ev : Event) (u : Tenant)
      → In u tenants
      → u.shortcode ≡ ev.shortcode
      → (t : Tenant × Event) × (route r ev ≡ ok t)
  unfolding route
  route_finds ev u m e =
      let (root, listed, bare) = table.root u m in
      route_in_found (group ev.shortcode r.by_shortcode) ev root
        (subst (λ sc. In root (group sc r.by_shortcode)) e listed)
        (subst (λ p. has_prefix ev.path p ≡ true) (sym bare) (unfold has_prefix in refl))

-- On a table that `NewRouter` accepted, the tenant that answers is configured for the shortcode, its
-- prefix is taken off the path and nothing else is changed, no configured tenant that matches has a
-- longer prefix, and none but it has that shortcode and prefix.
pub route-IsRouted :
    (parse_scheme : Text → Option Text) (tenants : List Tenant) (r : Router) (ev : Event)
    (t : Tenant) (routed : Event)
    → new_router parse_scheme tenants ≡ ok r
    → route r ev ≡ ok (t, routed)
    → IsRouted tenants ev t routed
route-IsRouted parse_scheme tenants r ev t routed built h =
    route_in_table tenants r (new_router-IsRouter parse_scheme tenants r built) ev t routed h

-- On a table that `NewRouter` accepted, an event for the shortcode of a tenant that was given is
-- always answered, whatever its path.
pub route_total :
    (parse_scheme : Text → Option Text) (tenants : List Tenant) (r : Router) (ev : Event)
    (u : Tenant)
    → new_router parse_scheme tenants ≡ ok r
    → In u tenants
    → u.shortcode ≡ ev.shortcode
    → (answer : Tenant × Event) × (route r ev ≡ ok answer)
route_total parse_scheme tenants r ev u built m e =
    route_finds tenants r (new_router-IsRouter parse_scheme tenants r built) ev u m e
