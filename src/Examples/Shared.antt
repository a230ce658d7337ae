-- ===== src/Examples/Shared.antt =====
-- Two turns of a dialogue over the Redis store.
use openussd.Prelude.{◌≡◌, refl, some, [], ok}
use openussd.Strings.{Text, codes}
use openussd.Canonical.Event.{Event}
use openussd.Tenant.Router.{route}
use openussd.Session.Redis.{redis_key, redis_store}
use openussd.Httpx.Inbound.{payload_of, handle}
use openussd.Httpx.Inbound.Steps.{session_for}
use openussd.Httpx.Inbound.Shared.{begun, turn, Serves-IsOwned}
use openussd.Examples.Data.{menu_tenant, two_tenants, https_only, two_routes, dialled, loopback}
use openussd.Examples.Routes.{routes_built}
use openussd.Examples.Dialogues.{Own, noon, loopback-IsHonoured}
use openussd.Examples.Servers.{
  map_client, map_client-IsRedis, spelled_json, spelled_json-ReadsBack, same_state, three_seconds,
  Held, nothing_held,
}
use openussd.Maps.{Map}

abbrev after_dialling : Map Held
after_dialling =
    (handle (redis_store map_client spelled_json three_seconds) loopback two_routes [] noon
      dialled).0

menu_answers : route two_routes dialled ≡ ok (menu_tenant, dialled)
unfolding route openussd.Maps.lookup openussd.Strings.text_eq
menu_answers = refl

sent_on :
    (payload_of
      (session_for
        (redis_store map_client spelled_json three_seconds)
        loopback
        two_routes
        after_dialling
        noon
        dialled
        menu_tenant)
      dialled).state
    ≡ some (codes "7")
unfolding handle openussd.Canonical.Event.terminal openussd.Strings.text_eq route
    openussd.Maps.lookup openussd.Maps.insert openussd.Tenant.Dispatch.deliver
    openussd.Canonical.Event.validate_response openussd.Canonical.Encoding.fits_screen
    openussd.Canonical.Encoding.screen_cost openussd.Canonical.Encoding.is_basic
    openussd.Session.Redis.redis_save openussd.Session.Redis.redis_load
    openussd.Session.validate_key openussd.Session.key_string openussd.Session.stamp
    openussd.Httpx.Inbound.new_session openussd.Httpx.Inbound.resumed openussd.Httpx.Inbound.entered
    openussd.Webhook.Envelope.normalise_state openussd.Strings.trim_space
sent_on = refl

Serves-IsOwned_example : Own menu_tenant.name dialled.msisdn (codes "7")
Serves-IsOwned_example =
    Serves-IsOwned Own map_client map_client-IsRedis spelled_json same_state three_seconds loopback
      https_only two_tenants two_routes [] after_dialling spelled_json-ReadsBack
      (λ name msisdn state x h. (x, h, λ own. own)) loopback-IsHonoured routes_built
      (λ later k. nothing_held later (redis_key k)) (turn noon dialled begun) noon dialled
      menu_tenant dialled (codes "7") menu_answers sent_on
