-- ===== src/Tenant/Router/Groups.antt =====
-- What a router that `NewRouter` returns holds.
use openussd.Prelude.{
  some-injective, ◌≡◌, ◌≢◌, refl, sym, ◌∙◌, ap, subst, ◌⊎◌, inl, inr, Option, List, [], ◌∷◌,
  if◌then◌else◌, ok, >>=-eq-ok, In, arith, Bool-cases, if_true, if_false, ◌==◌,
}
use openussd.Strings.{Text, text_eq}
use openussd.Maps
use openussd.Maps.{Map}
use openussd.Tenant.{Tenant}
use openussd.Tenant.Router.{
  Table, group, Building, route_key, roots, sort_stable, check_groups, add_tenants, nothing_built,
  Router, new_router,
}
use openussd.Tenant.Router.Sorted.{
  IsDescending, In-sort_stable, sort_stable-In, sort_stable-IsDescending, some_root,
}
use openussd.Tenant.Router.Table.{IsBuilt, onto, In-onto, onto-In, add_tenants_lem, ok-injective}

abbrev IsChecked : Table → Table → Text → Type 0
IsChecked table table' sc =
    (group sc table' ≡ sort_stable (group sc table))
    × ((group sc table ≡ []) ⊎ (roots (group sc table) ≡ 1))

group-cons :
    (k sc : Text) (ts : List Tenant) (table : Table)
    → group sc ((k, ts) ∷ table) ≡ (if text_eq k sc then ts else group sc table)
unfolding Maps.lookup
group-cons k sc ts table = ground arith

IsChecked-cons :
    (k sc : Text) (ts : List Tenant) (table groups : Table)
    → roots ts ≡ 1
    → IsChecked table groups sc
    → IsChecked ((k, ts) ∷ table) ((k, sort_stable ts) ∷ groups) sc
IsChecked-cons k sc ts table groups root h = elim (Bool-cases (text_eq k sc)) [
  | inl same ↦
      let here : group sc ((k, ts) ∷ table) ≡ ts = group-cons k sc ts table ∙ if_true _ _ same in
      (
        group-cons k sc (sort_stable ts) groups ∙ (if_true _ _ same ∙ ap sort_stable (sym here)),
        inr (ap roots here ∙ root),
      )
  | inr other ↦
      let there : group sc ((k, ts) ∷ table) ≡ group sc table =
        group-cons k sc ts table ∙ if_false _ _ other in
      (
        group-cons k sc (sort_stable ts) groups
            ∙ (if_false _ _ other ∙ (h.0 ∙ ap sort_stable (sym there))),
        elim h.1 [ inl e ↦ inl (there ∙ e) | inr e ↦ inr (ap roots there ∙ e) ],
      )
]

check_groups_lem :
    (table table' : Table) (sc : Text) → check_groups table ≡ ok table' → IsChecked table table' sc
unfolding check_groups
check_groups_lem [] table' sc h =
    subst (λ (t : Table). IsChecked [] t sc) (ok-injective h)
      (unfold Maps.lookup sort_stable in (refl, inl refl))
check_groups_lem ((k, ts) ∷ table) table' sc h = elim (Bool-cases (roots ts == 1)) [
  | inr other ↦ absurd (ground (arith, other))
  | inl root ↦
      let (groups, rest, made) = >>=-eq-ok (check_groups table) _ (rw root at h) in
      subst (λ (t : Table). IsChecked ((k, ts) ∷ table) t sc) (ok-injective made)
        (IsChecked-cons k sc ts table groups (ground arith) (check_groups_lem table groups sc rest))
]

-- The routing table of a router: each shortcode has its tenants, the longest prefix first and one of
-- them a root, and tenants are told apart by their names and by their routes.
pub record IsRouter (tenants : List Tenant) (r : Router) : Type 0 where
  pub listed : (t : Tenant) → In t tenants → In t (group t.shortcode r.by_shortcode)
  pub member :
      (t : Tenant) (sc : Text) → In t (group sc r.by_shortcode) → In t tenants × (t.shortcode ≡ sc)
  pub descending : (sc : Text) → IsDescending (group sc r.by_shortcode)
  pub root :
      (t : Tenant)
      → In t tenants
      → (u : Tenant) × In u (group t.shortcode r.by_shortcode) × (u.prefix ≡ [])
  pub by_name : (t u : Tenant) → In t tenants → In u tenants → t.name ≡ u.name → t ≡ u
  pub by_route :
      (t u : Tenant)
      → In t tenants
      → In u tenants
      → t.shortcode ≡ u.shortcode
      → t.prefix ≡ u.prefix
      → t ≡ u

same_route :
    (t u : Tenant) → t.shortcode ≡ u.shortcode → t.prefix ≡ u.prefix → route_key t ≡ route_key u
unfolding route_key
same_route t u e f = cc

nonempty_group : (ts : List Tenant) (t : Tenant) → In t ts → ts ≢ []
nonempty_group [] t h e = elim h [ ]
nonempty_group (u ∷ ts) t h e = cc

module _ (tenants : List Tenant) (b : Building) (table : Table)
    (built : IsBuilt (onto tenants []) b) (checked : check_groups b.table ≡ ok table) where
  given : (t : Tenant) → In t tenants → In t (onto tenants [])
  given t h = In-onto t tenants [] (inl h)

  taken : (t : Tenant) → In t (onto tenants []) → In t tenants
  taken t h = elim (onto-In t tenants [] h) [ inl m ↦ m | inr nothing ↦ absurd nothing ]

  sorted : (sc : Text) → group sc table ≡ sort_stable (group sc b.table)
  sorted sc = (check_groups_lem b.table table sc checked).0

  root_of :
      (t : Tenant) → In t tenants → (u : Tenant) × In u (group t.shortcode table) × (u.prefix ≡ [])
  root_of t h = elim (check_groups_lem b.table table t.shortcode checked).1 [
    | inl nothing ↦ absurd (nonempty_group _ t (built.listed t (given t h)) nothing)
    | inr one ↦
        let (u, m, e) = some_root (group t.shortcode b.table) (λ z. omega arith) in
        (u, subst (In u) (sym (sorted t.shortcode)) (sort_stable-In u _ m), e)
  ]

  built-IsRouter : IsRouter tenants (record { by_shortcode = table })
  built-IsRouter = record {
    listed = λ t h.
        subst (In t) (sym (sorted t.shortcode)) (sort_stable-In t _ (built.listed t (given t h)));
    member = λ t sc h.
        let (m, e) = built.member t sc (In-sort_stable t _ (subst (In t) (sorted sc) h)) in
        (taken t m, e);
    descending =
        λ sc. subst IsDescending (sym (sorted sc)) (sort_stable-IsDescending (group sc b.table));
    root = root_of;
    by_name = λ t u h k e. built.unique t u (given t h) (given u k) e;
    by_route = λ t u h k e f. built.unique t u (given t h) (given u k) (
        some-injective (
          sym (built.routed t (given t h))
          ∙ (ap (λ key. Maps.lookup key b.seen) (same_route t u e f)
              ∙ built.routed u (given u k))));
  }

-- A router that `NewRouter` returns holds the tenants given and no others, sorted, with a root for
-- every shortcode, and no two of them share a name or a shortcode and prefix.
pub new_router-IsRouter :
    (parse_scheme : Text → Option Text) (tenants : List Tenant) (r : Router)
    → new_router parse_scheme tenants ≡ ok r
    → IsRouter tenants r
unfolding new_router
new_router-IsRouter parse_scheme tenants r h =
    let (b, first, rest) = >>=-eq-ok (add_tenants parse_scheme nothing_built tenants) _ h in
    let (table, second, made) = >>=-eq-ok (check_groups b.table) _ rest in
    subst (IsRouter tenants) (ok-injective made)
      (built-IsRouter tenants b table (add_tenants_lem parse_scheme tenants b first) second)
