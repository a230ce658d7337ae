-- ===== src/Tenant/Router/Table.antt =====
-- What the first loop of `NewRouter` has built, and what the second makes of it.
use openussd.Prelude.{
  ◌≡◌, refl, sym, ◌∙◌, ap, subst, ◌⊎◌, inl, inr, Option, none, some, List, [], ◌∷◌, if◌then◌else◌,
  Result, ok, map_err, >>=-eq-ok, In, In-append_left, In-append_right, In-append_cases, arith,
  Bool-cases, Option-cases, if_true, if_false,
}
use openussd.Strings.{Text, text_eq}
use openussd.Strings.Equal.{text_eq_iff, text_eq_refl}
use openussd.Maps
use openussd.Maps.{Map}
use openussd.Maps.Laws.{lookup-insert}
use openussd.Tenant.{Tenant, validate}
use openussd.Tenant.Router.{
  Table, group, Building, route_key, added, add_tenant, add_tenants, nothing_built,
}

group-insert :
    (k sc : Text) (v : List Tenant) (table : Table)
    → group sc (Maps.insert k v table) ≡ (if text_eq k sc then v else group sc table)
group-insert k sc v table = elim (Bool-cases (text_eq k sc)) [
  | inl same ↦ rw (lookup-insert k sc v table, same)
  | inr other ↦ rw (lookup-insert k sc v table, other)
]

pub ok-injective : {E A : Type 0} {a b : A} → ◌≡◌ {A = Result E A} (ok a) (ok b) → a ≡ b
ok-injective h = cc

-- The tables hold the tenants added so far, and no others.
pub record IsBuilt (done : List Tenant) (b : Building) : Type 0 where
  pub listed : (t : Tenant) → In t done → In t (group t.shortcode b.table)
  pub member : (t : Tenant) (sc : Text) → In t (group sc b.table) → In t done × (t.shortcode ≡ sc)
  pub routed : (t : Tenant) → In t done → Maps.lookup (route_key t) b.seen ≡ some t.name
  pub named : (t : Tenant) → In t done → Maps.lookup t.name b.names ≡ some tt
  pub unique : (t u : Tenant) → In t done → In u done → t.name ≡ u.name → t ≡ u

In-group-added :
    (b : Building) (t u : Tenant) (sc : Text)
    → In u (group sc (added b t).table)
    → In u (group sc b.table) ⊎ ((u ≡ t) × (t.shortcode ≡ sc))
In-group-added b t u sc h = elim (Bool-cases (text_eq t.shortcode sc)) [
  | inl same ↦
      let e = (text_eq_iff t.shortcode sc).0 same in
      elim (In-append_cases u (group t.shortcode b.table) (t ∷ [])
        (subst (In u) (group-insert t.shortcode sc _ b.table ∙ if_true _ _ same) h)) [
          | inl old ↦ inl (subst (λ k. In u (group k b.table)) e old)
          | inr new ↦ elim new [ inl it ↦ inr (it, e) | inr nothing ↦ absurd nothing ]
        ]
  | inr other ↦ inl (subst (In u) (group-insert t.shortcode sc _ b.table ∙ if_false _ _ other) h)
]

group_added-In :
    (b : Building) (t u : Tenant)
    → (In u (group u.shortcode b.table)) ⊎ (u ≡ t)
    → In u (group u.shortcode (added b t).table)
group_added-In b t u (inr it) =
    subst (λ (v : Tenant). In v (group v.shortcode (added b t).table)) (sym it)
      (subst (In t)
        (sym
          (group-insert t.shortcode t.shortcode _ b.table ∙ if_true _ _ (text_eq_refl t.shortcode)))
        (In-append_right t (group t.shortcode b.table) (t ∷ []) (inl refl)))
group_added-In b t u (inl old) = elim (Bool-cases (text_eq t.shortcode u.shortcode)) [
  | inl same ↦
      let e = (text_eq_iff t.shortcode u.shortcode).0 same in
      subst (In u) (sym (group-insert t.shortcode u.shortcode _ b.table ∙ if_true _ _ same)) (
        In-append_left u (group t.shortcode b.table) (t ∷ [])
          (subst (λ k. In u (group k b.table)) (sym e) old))
  | inr other ↦
      subst (In u) (sym (group-insert t.shortcode u.shortcode _ b.table ∙ if_false _ _ other)) old
]

-- A key that is new leaves the keys that are there.
kept_lookup {ℓ} :
    {V : Type ℓ} (k j : Text) (v w : V) (m : Map V)
    → Maps.lookup k m ≡ none
    → Maps.lookup j m ≡ some w
    → Maps.lookup j (Maps.insert k v m) ≡ some w
kept_lookup k j v w m free there =
    ground (arith, lookup-insert k j v m, text_eq_iff k j, there, free)

new_lookup {ℓ} :
    {V : Type ℓ} (k : Text) (v : V) (m : Map V) → Maps.lookup k (Maps.insert k v m) ≡ some v
new_lookup k v m = lookup-insert k k v m ∙ if_true _ _ (text_eq_refl k)

IsBuilt-added :
    (done : List Tenant) (b : Building) (t : Tenant)
    → Maps.lookup t.name b.names ≡ none
    → Maps.lookup (route_key t) b.seen ≡ none
    → IsBuilt done b
    → IsBuilt (t ∷ done) (added b t)
IsBuilt-added done b t fresh free h = record {
  listed =
      λ u m. group_added-In b t u (elim m [ inl it ↦ inr it | inr old ↦ inl (h.listed u old) ]);
  member = λ u sc m. elim (In-group-added b t u sc m) [
    | inl old ↦ let (p, q) = h.member u sc old in (inr p, q)
    | inr (it, e) ↦ (inl it, ap (λ (v : Tenant). v.shortcode) it ∙ e)
  ];
  routed = λ u m. elim m [
    | inl it ↦
        subst (λ (v : Tenant). Maps.lookup (route_key v) (added b t).seen ≡ some v.name) (sym it)
          (new_lookup (route_key t) t.name b.seen)
    | inr old ↦ kept_lookup (route_key t) (route_key u) t.name u.name b.seen free (h.routed u old)
  ];
  named = λ u m. elim m [
    | inl it ↦
        subst (λ (v : Tenant). Maps.lookup v.name (added b t).names ≡ some tt) (sym it)
          (new_lookup t.name tt b.names)
    | inr old ↦ kept_lookup t.name u.name tt tt b.names fresh (h.named u old)
  ];
  unique = λ u v mu mv e. distinct u v mu mv e;
}
  where
    clash : (u : Tenant) → In u done → t.name ≡ u.name → ⊥
    clash u old e = ground (arith, h.named u old, fresh, e)

    distinct : (u v : Tenant) → In u (t ∷ done) → In v (t ∷ done) → u.name ≡ v.name → u ≡ v
    distinct u v (inl it) (inl it') e = it ∙ sym it'
    distinct u v (inl it) (inr old) e =
        absurd (clash v old (ap (λ (w : Tenant). w.name) (sym it) ∙ e))
    distinct u v (inr old) (inl it) e =
        absurd (clash u old (ap (λ (w : Tenant). w.name) (sym it) ∙ sym e))
    distinct u v (inr old) (inr old') e = h.unique u v old old' e

-- The tenants added, the last first.
pub onto : List Tenant → List Tenant → List Tenant
onto [] done = done
onto (t ∷ ts) done = onto ts (t ∷ done)

pub In-onto : (u : Tenant) (ts done : List Tenant) → In u ts ⊎ In u done → In u (onto ts done)
unfolding onto
In-onto u [] done (inl h) = elim h [ ]
In-onto u [] done (inr h) = h
In-onto u (t ∷ ts) done (inl (inl e)) = In-onto u ts (t ∷ done) (inr (inl e))
In-onto u (t ∷ ts) done (inl (inr h)) = In-onto u ts (t ∷ done) (inl h)
In-onto u (t ∷ ts) done (inr h) = In-onto u ts (t ∷ done) (inr (inr h))

pub onto-In : (u : Tenant) (ts done : List Tenant) → In u (onto ts done) → In u ts ⊎ In u done
unfolding onto
onto-In u [] done h = inr h
onto-In u (t ∷ ts) done h = elim (onto-In u ts (t ∷ done) h) [
  | inl m ↦ inl (inr m)
  | inr m ↦ elim m [ inl e ↦ inl (inl e) | inr k ↦ inr k ]
]

IsBuilt-empty : IsBuilt [] nothing_built
unfolding Maps.lookup
IsBuilt-empty = record {
  listed = λ t h. elim h [ ];
  member = λ t sc h. elim h [ ];
  routed = λ t h. elim h [ ];
  named = λ t h. elim h [ ];
  unique = λ t u h k e. elim h [ ];
}

module _ (parse_scheme : Text → Option Text) where
  -- A tenant is added only under a new name and a new route.
  add_tenant_ok :
      (b b' : Building) (t : Tenant)
      → add_tenant parse_scheme b t ≡ ok b'
      → (b' ≡ added b t)
        × (Maps.lookup t.name b.names ≡ none)
        × (Maps.lookup (route_key t) b.seen ≡ none)
  unfolding add_tenant
  add_tenant_ok b b' t h =
      let (_, _, h1) = >>=-eq-ok (map_err _ (validate parse_scheme t)) _ h in
      elim (Option-cases (Maps.lookup t.name b.names)) [
        | inr (x, used) ↦ absurd (ground (arith, used))
        | inl fresh ↦ elim (Option-cases (Maps.lookup (route_key t) b.seen)) [
          | inr (other, taken) ↦ absurd (ground (arith, fresh, taken))
          | inl free ↦ (ok-injective (sym h1 ∙ (rw (fresh, free))), fresh, free)
        ]
      ]

  add_tenants-IsBuilt :
      (ts done : List Tenant) (b b' : Building)
      → add_tenants parse_scheme b ts ≡ ok b'
      → IsBuilt done b
      → IsBuilt (onto ts done) b'
  unfolding add_tenants onto
  add_tenants-IsBuilt [] done b b' h k = subst (IsBuilt done) (ok-injective h) k
  add_tenants-IsBuilt (t ∷ ts) done b b' h k =
      let (c, step, rest) = >>=-eq-ok (add_tenant parse_scheme b t) _ h in
      let (same, fresh, free) = add_tenant_ok b c t step in
      add_tenants-IsBuilt ts (t ∷ done) c b' rest
        (subst (IsBuilt (t ∷ done)) (sym same) (IsBuilt-added done b t fresh free k))

  -- After the first loop the tables hold exactly the tenants given, under distinct names.
  pub add_tenants_lem :
      (ts : List Tenant) (b : Building)
      → add_tenants parse_scheme nothing_built ts ≡ ok b
      → IsBuilt (onto ts []) b
  add_tenants_lem ts b h = add_tenants-IsBuilt ts [] nothing_built b h IsBuilt-empty
