-- ===== src/Tenant/Router.antt =====
-- The routing table of gateway/internal/tenant/tenant.go: building it and resolving events.
pub mod Sorted
pub mod Table
pub mod Groups
pub mod Route
pub mod Accepted
use mathlib.Core.Option
use openussd.Prelude.{
  ℕ, zero, suc, ◌+◌, Bool, true, false, ◌&&◌, Option, none, some, List, [], ◌∷◌, ◌++◌, ltb, ◌==◌,
  if◌then◌else◌, length, drop, Result, ok, err, ◌>>=◌, ◌>>◌, map_err,
}
use openussd.Strings.{Text, codes, text_eq, join, is_empty}
use openussd.Maps
use openussd.Maps.{Map}
use openussd.Canonical.Event.{Event}
use openussd.Tenant.{Tenant, TenantError, validate}

pub data RouterError : Type 0 where
  invalid : TenantError → RouterError
  duplicate_name : Text → RouterError
  collision : Text → Text → Text → RouterError
  wrong_roots : Text → ℕ → RouterError

-- Each shortcode's tenants.
abbrev pub Table : Type 0
Table = Map (List Tenant)

-- A shortcode that is missing has the nil slice.
abbrev pub group : Text → Table → List Tenant
group shortcode table = Option.get_or (Maps.lookup shortcode table) []

pub record Router : Type 0 where
  pub by_shortcode : Table

-- The local variables of the first loop of `NewRouter`.
pub record Building : Type 0 where
  pub table : Table
  pub seen : Map Text
  pub names : Map (Unit {0})

unfoldable pub route_key : Tenant → Text
route_key t = t.shortcode ++ (codes "|" ++ join t.prefix (codes "*"))

abbrev pub added : Building → Tenant → Building
added b t = record {
  table = Maps.insert t.shortcode (group t.shortcode b.table ++ t ∷ []) b.table;
  seen = Maps.insert (route_key t) t.name b.seen;
  names = Maps.insert t.name tt b.names;
}

abbrev pub nothing_built : Building
nothing_built = record { table = []; seen = []; names = [] }

-- The second loop: one root for each shortcode, and the longest prefix first.
unfoldable pub roots : List Tenant → ℕ
roots [] = 0
roots (t ∷ ts) = (if length t.prefix == 0 then 1 else 0) + roots ts

-- `sort.SliceStable` by descending length of the prefix.
unfoldable pub insert_sorted : Tenant → List Tenant → List Tenant
insert_sorted t [] = t ∷ []
insert_sorted t (u ∷ us) =
    if ltb (length t.prefix) (length u.prefix) then u ∷ insert_sorted t us else t ∷ u ∷ us

unfoldable pub sort_stable : List Tenant → List Tenant
unfolding insert_sorted
sort_stable [] = []
sort_stable (t ∷ ts) = insert_sorted t (sort_stable ts)

unfoldable pub check_groups : Table → Result RouterError Table
unfolding roots sort_stable
check_groups [] = ok []
check_groups ((shortcode, ts) ∷ table) =
    let rest = check_groups table in
    if roots ts == 1
    then (do groups ← rest; ok ((shortcode, sort_stable ts) ∷ groups))
    else err (wrong_roots shortcode (roots ts))

module _ (parse_scheme : Text → Option Text) where
  -- One round of the first loop.
  unfoldable pub add_tenant : Building → Tenant → Result RouterError Building
  add_tenant b t = do
    map_err invalid (validate parse_scheme t)
    elim (Maps.lookup t.name b.names) [
      | some _ ↦ err (duplicate_name t.name)
      | none ↦ elim (Maps.lookup (route_key t) b.seen) [
        | some other ↦ err (collision t.name other (route_key t))
        | none ↦ ok (added b t)
      ]
    ]

  unfoldable pub add_tenants : Building → List Tenant → Result RouterError Building
  unfolding add_tenant
  add_tenants b [] = ok b
  add_tenants b (t ∷ ts) = do b' ← add_tenant b t; add_tenants b' ts

  unfoldable pub new_router : List Tenant → Result RouterError Router
  unfolding add_tenants check_groups
  new_router tenants = do
    b ← add_tenants nothing_built tenants
    table ← check_groups b.table
    ok (record { by_shortcode = table })

unfoldable pub has_prefix : List Text → List Text → Bool
has_prefix path [] = true
has_prefix [] (seg ∷ prefix) = false
has_prefix (p ∷ path) (seg ∷ prefix) = text_eq p seg && has_prefix path prefix

pub data NoRoute : Type 0 where
  no_route : Text → ℕ → NoRoute

-- The loop of `Route` over the tenants of the shortcode.
unfoldable pub route_in : List Tenant → Event → Result NoRoute (Tenant × Event)
route_in [] ev = err (no_route ev.shortcode (length ev.path))
route_in (t ∷ ts) ev =
    if has_prefix ev.path t.prefix
    then ok (t, record ev { path = drop (length t.prefix) ev.path })
    else route_in ts ev

unfoldable pub route : Router → Event → Result NoRoute (Tenant × Event)
unfolding route_in has_prefix
route r ev = route_in (group ev.shortcode r.by_shortcode) ev
