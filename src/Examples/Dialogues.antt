-- ===== src/Examples/Dialogues.antt =====
-- Turns of a dialogue over the memory store, with both tenants answering.
use openussd.Prelude.{
  ℕ, ◌≡◌, ◌≢◌, refl, sym, ◌∙◌, ap, ◌⊎◌, inl, inr, true, false, some, [], ◌∷◌, ok, err, arith,
  some-injective,
}
use openussd.Strings.{Text, codes}
use openussd.Maps.{Map}
use openussd.Canonical.Encoding.{fits_screen}
use openussd.Canonical.Event.{Event, terminal, Response, no_response, continue_with}
use openussd.Session.{Key, key_string, validate_key, Session, not_found, StoreError}
use openussd.Session.Memory.{Memory, with_ttl, new_memory, load, delete, memory_store}
use openussd.Session.Memory.Laws.{memory_store-IsStore}
use openussd.Session.Memory.Sweeps.{IsWellFormed}
use openussd.Session.Memory.Honest.{memory_honesty, load-eq-ok}
use openussd.Tenant.{Tenant}
use openussd.Tenant.Router.{no_route, route}
use openussd.Tenant.Dispatch.{Outside}
use openussd.Tenant.Dispatch.Delivers.{deliver-IsDelivered}
use openussd.Webhook.Envelope.{Reply}
use openussd.Adapter.{HttpRequest, Page, expected_post}
use openussd.Adapter.AfricasTalking
use openussd.Adapter.AfricasTalking.Parses.{line_of, render_iff}
use openussd.Httpx.Inbound
use openussd.Httpx.Inbound.{
  Times, HandleError, saving, key_of, payload_of, handle, forbidden, bad_request, empty_ok, page,
  serve_http,
}
use openussd.Httpx.Inbound.Steps.{session_for}
use openussd.Httpx.Inbound.Ownership.{IsOwned, IsHonoured, handle-IsOwned}
use openussd.Httpx.Inbound.Histories.{start, turn, Reaches-IsOwned}
use openussd.Httpx.Inbound.Others.{handle_others}
use openussd.Httpx.Inbound.Turns.{IsContinued, handle-IsContinued, handle_ends}
use openussd.Httpx.Inbound.Failures.{handle_fails}
use openussd.Httpx.Inbound.Serves.{IsRenderer, serve_http_answers}
use openussd.Examples.Data.{
  two_tenants, https_only, two_routes, dialled, cancelled, welcome, loopback,
}
use openussd.Examples.Routes.{routes_built}
use openussd.Examples.Requests.{posted, one_form, parsed_event, posted_parses}

abbrev empty_store : Memory
empty_store = new_memory (with_ttl 100 ∷ [])

abbrev pub noon : Times
noon = record { loaded_at = 10; sent_at = 11; stored_at = 12 }

-- The state that both tenants answer with.
abbrev pub Own : Text → Text → Text → Type 0
Own tenant msisdn state = state ≡ codes "7"

pub loopback-IsHonoured : IsHonoured Own loopback
loopback-IsHonoured now t payload reply h given x state =
    let d = deliver-IsDelivered loopback now t payload reply h in
    let same : record welcome { clear_state = false } ≡ d.decoded = some-injective d.read in
    elim d.state [
      | inl (nothing, _) ↦ absurd (ground (arith, nothing, state))
      | inr (s, sent, kept, _, _) ↦
          some-injective (sym state ∙ (kept ∙ (sym sent ∙ sym (ap (λ (r : Reply). r.state) same))))
    ]

nothing_stored : (later : ℕ) (k : Key) (s : Session) → load empty_store later k ≡ ok s → ⊥
nothing_stored later k s h =
    let (_, read) = load-eq-ok empty_store later k s h in
    unfold new_memory with_ttl openussd.Maps.lookup in ground (arith, read)

handle-IsOwned_example :
    IsOwned Own memory_store memory_honesty
      (handle memory_store loopback two_routes empty_store noon dialled).0
    × ((t : Tenant) (routed : Event) (x : Text)
        → route two_routes dialled ≡ ok (t, routed)
        → (payload_of
            (session_for memory_store loopback two_routes empty_store noon dialled t)
            routed).state
          ≡ some x
        → Own t.name (codes "+254") x)
handle-IsOwned_example =
    handle-IsOwned Own memory_store loopback https_only two_tenants two_routes empty_store noon
      dialled memory_honesty (λ name msisdn state x h. (x, h, λ own. own)) loopback-IsHonoured
      routes_built (λ later k s h. absurd (nothing_stored later k s h))

abbrev after_dialling : Memory
after_dialling = (handle memory_store loopback two_routes empty_store noon dialled).0

Reaches-IsOwned_example :
    IsWellFormed after_dialling
    × ((at : Times) (ev : Event) (t : Tenant) (routed : Event) (x : Text)
        → route two_routes ev ≡ ok (t, routed)
        → (payload_of
            (session_for memory_store loopback two_routes after_dialling at ev t)
            routed).state
          ≡ some x
        → Own t.name ev.msisdn x)
Reaches-IsOwned_example =
    Reaches-IsOwned Own loopback https_only two_tenants two_routes 100 after_dialling
      loopback-IsHonoured routes_built (turn noon dialled start)

own_key : (s : Session) → load empty_store 10 (key_of dialled) ≡ ok s → s.key ≡ key_of dialled
own_key s h = absurd (nothing_stored 10 (key_of dialled) s h)

dialled_live : terminal dialled.phase ≡ false
unfolding terminal openussd.Strings.text_eq
dialled_live = refl

welcomed :
    (handle memory_store loopback two_routes empty_store noon dialled).1
    ≡ ok (continue_with (codes "Hi"))
unfolding handle terminal openussd.Strings.text_eq route openussd.Maps.lookup
    openussd.Tenant.Dispatch.deliver openussd.Canonical.Event.validate_response fits_screen
    openussd.Canonical.Encoding.screen_cost openussd.Canonical.Encoding.is_basic
    openussd.Session.Memory.save validate_key load new_memory with_ttl
welcomed = refl

handle-IsContinued_example :
    IsContinued memory_store memory_store-IsStore loopback two_routes empty_store noon dialled
      own_key after_dialling
      (continue_with (codes "Hi"))
handle-IsContinued_example =
    handle-IsContinued memory_store memory_store-IsStore loopback two_routes empty_store noon
      dialled own_key (continue_with (codes "Hi")) dialled_live welcomed refl

cancelled_over : terminal cancelled.phase ≡ true
unfolding terminal openussd.Strings.text_eq
cancelled_over = refl

good_key : validate_key (key_of cancelled) ≡ ok tt
unfolding validate_key
good_key = refl

deleted : (delete empty_store 12 (key_of cancelled)).1 ≡ ok tt
unfolding delete
deleted = refl

handle_ends_example :
    load
      (handle memory_store loopback two_routes empty_store noon cancelled).0
      13
      (key_of cancelled)
    ≡ err not_found
handle_ends_example =
    handle_ends memory_store memory_store-IsStore loopback two_routes empty_store noon cancelled 13
      good_key deleted (inl cancelled_over)

-- Another dialogue, while the first one is stored.
abbrev second : Event
second = record dialled { session_id = codes "s2" }

keys_differ : key_string (key_of second) ≢ key_string (key_of dialled)
unfolding key_string
keys_differ h = ground (arith, h)

second_missing : load after_dialling 10 (key_of second) ≡ err not_found
unfolding handle terminal openussd.Strings.text_eq route openussd.Maps.lookup openussd.Maps.insert
    openussd.Tenant.Dispatch.deliver openussd.Canonical.Event.validate_response fits_screen
    openussd.Canonical.Encoding.screen_cost openussd.Canonical.Encoding.is_basic
    openussd.Session.Memory.save validate_key load new_memory with_ttl key_string
second_missing = refl

handle_others_example :
    load (handle memory_store loopback two_routes after_dialling noon second).0 13 (key_of dialled)
    ≡ load after_dialling 13 (key_of dialled)
handle_others_example =
    handle_others memory_store memory_store-IsStore loopback two_routes after_dialling noon second
      (λ s h. absurd (ground (arith, second_missing, h))) 13 (key_of dialled) keys_differ

abbrev elsewhere : Event
elsewhere = record dialled { shortcode = codes "*1#" }

nowhere :
    (handle memory_store loopback two_routes empty_store noon elsewhere).1
    ≡ err (Inbound.no_route (no_route (codes "*1#") 0))
unfolding handle terminal openussd.Strings.text_eq route openussd.Maps.lookup
nowhere = refl

handle_fails_example :
    ((handle memory_store loopback two_routes empty_store noon elsewhere).0 ≡ empty_store)
    ⊎ ((se : StoreError) × (Inbound.no_route (no_route (codes "*1#") 0) ≡ saving se))
handle_fails_example =
    handle_fails memory_store loopback two_routes empty_store noon elsewhere
      (Inbound.no_route (no_route (codes "*1#") 0)) nowhere

africastalking-IsRenderer : IsRenderer (AfricasTalking.africastalking one_form)
africastalking-IsRenderer resp fits =
    (line_of resp, (render_iff resp (line_of resp)).1 (fits, refl))

serve_http_answers_example :
    ((terminal parsed_event.phase ≡ true)
      × ((serve_http memory_store loopback two_routes
            (AfricasTalking.africastalking one_form)
            empty_store
            (record noon { loaded_at = 7 })
            posted).1
          ≡ empty_ok))
    ⊎ ((resp : Response) × (p : Page) × (fits_screen resp.body ≡ true)
        × (AfricasTalking.render resp ≡ ok p)
        × ((serve_http memory_store loopback two_routes
              (AfricasTalking.africastalking one_form)
              empty_store
              (record noon { loaded_at = 7 })
              posted).1
            ≡ page p))
serve_http_answers_example =
    serve_http_answers memory_store loopback two_routes (AfricasTalking.africastalking one_form)
      empty_store (record noon { loaded_at = 7 }) posted parsed_event africastalking-IsRenderer refl
      posted_parses

abbrev got : HttpRequest
got = record posted { method = codes "GET" }

got_refused : AfricasTalking.parse one_form 10 got ≡ err (expected_post (codes "GET"))
unfolding AfricasTalking.parse openussd.Strings.text_eq
got_refused = refl
