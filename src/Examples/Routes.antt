-- ===== src/Examples/Routes.antt =====
-- The routing table at two tenants behind one shortcode.
use openussd.Prelude.{◌≡◌, refl, inl, [], ◌∷◌, ok}
use openussd.Strings.{Text, codes}
use openussd.Canonical.Event.{Event}
use openussd.Tenant.{Tenant}
use openussd.Tenant.Router.{Router, new_router, route}
use openussd.Tenant.Router.Groups.{IsRouter, new_router-IsRouter}
use openussd.Tenant.Router.Route.{IsRouted, route-IsRouted, route_total}
use openussd.Examples.Data.{
  menu_tenant, bank_tenant, two_tenants, https_only, two_routes, dialled, pressed_two,
}

pub routes_built : new_router https_only two_tenants ≡ ok two_routes
unfolding new_router openussd.Tenant.validate openussd.Strings.text_eq openussd.Maps.lookup
    openussd.Maps.insert openussd.Tenant.Router.route_key openussd.Strings.join
routes_built = refl

abbrev pub left_five : Event
left_five = record pressed_two { path = codes "5" ∷ [] }

pub bank_answers : route two_routes pressed_two ≡ ok (bank_tenant, left_five)
unfolding route openussd.Maps.lookup openussd.Strings.text_eq
bank_answers = refl

new_router-IsRouter_example : IsRouter two_tenants two_routes
new_router-IsRouter_example = new_router-IsRouter https_only two_tenants two_routes routes_built

route-IsRouted_example : IsRouted two_tenants pressed_two bank_tenant left_five
route-IsRouted_example =
    route-IsRouted https_only two_tenants two_routes pressed_two bank_tenant left_five routes_built
      bank_answers

route_total_example : (answer : Tenant × Event) × (route two_routes dialled ≡ ok answer)
route_total_example =
    route_total https_only two_tenants two_routes dialled menu_tenant routes_built (inl refl) refl
