-- ===== src/Lib.antt =====
-- OpenUSSD, a USSD gateway and its Go SDK. A mobile network posts what a subscriber typed to the
-- gateway; an adapter turns it into a canonical event; the gateway loads the session, routes the
-- event to a tenant by shortcode and typed prefix, posts it to the tenant's webhook with a signature,
-- keeps the state that the tenant returns, and renders the screen for the network. The SDK is the
-- tenant's side: it verifies the signature, runs one turn of an application of screens, and keeps
-- every screen within what the network carries.
--
-- The parts, and where they are modelled:
--   canonical/encoding.go, canonical/event.go: Canonical.Encoding, Canonical.Event. The cost of a
--     text, the test that it fits a screen, events, responses and their validation.
--   sdk/go/render.go, sdk/go/gsm.go: Sdk.Bisect, Sdk.Truncate, Sdk.Shrink, Sdk.Menu, Sdk.Paginate,
--     Sdk.Gsm. One function for each function of the source and each loop in it.
--   sdk/go/i18n.go, sdk/go/app.go, sdk/go/handler.go: Sdk.I18n, Sdk.App, Sdk.Handler.
--   webhook/: Webhook.Envelope, Webhook.Sign, shared by both sides.
--   gateway/internal/session/: Session has keys, sessions and the interface Store as a record with
--     its laws; Session.Memory is the memory store, whose operations take the time, and Session.Redis
--     the store in Redis. Session.Redis.Laws has the behaviour of a server that it relies on.
--   gateway/internal/tenant/: Tenant, Tenant.Router, Tenant.Dispatch. NewRouter is a fold over the
--     tenants into a record of its local maps; Deliver is a chain of results.
--   gateway/internal/adapter/: Adapter, with its children for each adapter, the registry and the
--     trusted proxy.
--   gateway/internal/httpx/inbound.go: Httpx.Inbound. handle takes the state of a store and returns
--     it changed with the response or an error; Httpx.Inbound.Steps tells its outcomes apart as a
--     relation, and Httpx.Inbound.Histories and Httpx.Inbound.Shared the memory stores and the Redis
--     servers that a gateway comes to.
--   gateway/internal/config/: Config, and Config.Expand for the references to the environment.
--   gateway/cmd/gateway/main.go: Gateway has newRegistry, a fold over the configured adapters, and
--     Gateway.Start what run makes before it listens.
--   adapters/fediverse/: Fediverse has the screens of main.go, which read what PublicTimeline
--     returned as an argument, and Fediverse.Words their texts; Fediverse.Plain and
--     Fediverse.Mastodon are mastodon.go. Fediverse.Sound.Histories has the states that a dialogue
--     comes to as a relation.
--   cmd/ussdsim/main.go: Ussdsim. The loop of run takes the lines that are typed as a list, and the
--     gateway as a state that requests change. Ussdsim.Posts has the JSON object of a request and the
--     POST with it, and Adapter.Simulator.Fields how the simulator adapter reads one.
--   Examples holds the theorems at concrete inputs.
-- Prelude, Strings, Strconv and Maps are what the program uses of the language and its library.
--
-- Conventions. A Go string is valid UTF-8 and is the list of its runes; byte_len is len. Bodies are
-- lists of bytes. A time is the number of nanoseconds since Go's zero time. An int that the code
-- keeps from being negative is a natural number; a timeout, a lifetime, a tolerance or a limit that
-- is not positive is 0, but a Config keeps the sign of its lifetime. A nil RawMessage is none. A map
-- is an association list, visited in its order. An error is a value of a data type of the function,
-- without the text of its message. Parameters are: HMAC, JSON, YAML, the HTTP and Redis
-- clients, files, the environment, url.Parse, url.ParseQuery, net and netip, unicode.ToLower and
-- unicode.IsPrint, html.UnescapeString and time.Parse.
--
-- Loops. Paginate runs on fuel, one round for each rune of the trimmed body and one more; the binary
-- searches take as much fuel as their range is wide, of which they use a part. Cutting a line that is
-- too long takes at most as many rounds as the line has runes. Printing a number takes as many rounds
-- as the number, and one more. The other loops are structural.
--
-- Not modelled: logging, flags, signals and the HTTP servers of the commands, the health endpoints, and
-- the site. A lock is held for each whole operation of the memory store and the registry, so an
-- execution is a sequence of operations; two callbacks of one session at the same time are not
-- interleaved.
pub mod Prelude
pub mod Strings
pub mod Canonical
pub mod Sdk
pub mod Maps
pub mod Session
pub mod Tenant
pub mod Strconv
pub mod Webhook
pub mod Adapter
pub mod Httpx
pub mod Config
pub mod Fediverse
pub mod Gateway
pub mod Ussdsim
pub mod Examples
