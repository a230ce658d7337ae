-- ===== src/Httpx/Inbound/Resumes.antt =====
-- `handle` of gateway/internal/httpx/inbound.go: the turn and the state with which it goes on from what
-- the store answered, and the state that it leaves.
use openussd.Prelude.{
  ℕ, ◌+◌, ◌≡◌, ◌≢◌, ◌⊎◌, inl, inr, refl, true, false, Option, none, some, [], Result, ok, err,
  arith, Bool-cases, Option-cases,
}
use openussd.Strings.{Text, is_empty, text_eq}
use openussd.Strings.Equal.{is_empty_sound, is_empty-false, text_eq_iff}
use openussd.Canonical.Event.{Event}
use openussd.Session.{Session, StoreError}
use openussd.Webhook.Envelope.{Reply}
use openussd.Httpx.Inbound.{new_session, resumed, entered, new_state}

-- The turn that is counted and the state that is sent, for what is found under the event's key and the
-- tenant that it was routed to.
pub data Resumes (ev : Event) (found : Result StoreError Session) (name : Text)
    : ℕ → Option Text → Type 0 where
  unknown : (e : StoreError) → found ≡ err e → Resumes ev found name 1 none
  another_number :
      (s : Session) → found ≡ ok s → s.msisdn ≢ ev.msisdn → Resumes ev found name 1 none
  handed_over :
      (s : Session)
      → found ≡ ok s
      → s.msisdn ≡ ev.msisdn
      → s.tenant ≢ []
      → s.tenant ≢ name
      → Resumes ev found name 1 none
  goes_on :
      (s : Session)
      → found ≡ ok s
      → s.msisdn ≡ ev.msisdn
      → (s.tenant ≡ []) ⊎ (s.tenant ≡ name)
      → Resumes ev found name (s.turn + 1) s.state

-- A reply that clears the state leaves none, one that carries a state leaves that, and any other leaves
-- the state that was sent.
abbrev pub IsNextState : Reply → Option Text → Option Text → Type 0
IsNextState reply sent next =
    ((reply.clear_state ≡ true) × (next ≡ none))
    ⊎ ((reply.clear_state ≡ false)
        × (((x : Text) × (reply.state ≡ some x) × (next ≡ some x))
            ⊎ ((reply.state ≡ none) × (next ≡ sent))))

pub new_state-IsNextState :
    (reply : Reply) (sent : Option Text) → IsNextState reply sent (new_state reply sent)
new_state-IsNextState reply sent = elim (Bool-cases reply.clear_state) [
  | inl clears ↦ inl (clears, rw clears refl)
  | inr keeps ↦ inr (
    keeps,
    elim (Option-cases reply.state) [
      | inl nothing ↦ inr (nothing, rw (keeps, nothing) refl)
      | inr (x, given) ↦ inl (x, given, rw (keeps, given) refl)
    ],
  )
]

abbrev Goes : Event → Result StoreError Session → Text → Session → Type 0
Goes ev found name sess =
    Resumes ev found name (entered sess name).turn (entered sess name).state
    × ((entered sess name).msisdn ≡ ev.msisdn)

found-Goes : (ev : Event) (name : Text) (s : Session) → s.msisdn ≡ ev.msisdn → Goes ev (ok s) name s
unfolding entered
found-Goes ev name s own = elim (Bool-cases (is_empty s.tenant)) [
  | inl none_yet ↦ rw none_yet (goes_on s refl own (inl (is_empty_sound s.tenant none_yet)), own)
  | inr other ↦ elim (Bool-cases (text_eq s.tenant name)) [
    | inl same ↦
        rw (other, same) (goes_on s refl own (inr ((text_eq_iff s.tenant name).0 same)), own)
    | inr apart ↦
        rw (other, apart)
          (
            handed_over s refl own (is_empty-false s.tenant other)
                (λ e. absurd (ground (arith, text_eq_iff s.tenant name))),
            own,
          )
  ]
]

resumed-Goes :
    (ev : Event) (name : Text) (found : Result StoreError Session)
    → Goes ev found name (resumed ev found)
unfolding resumed
resumed-Goes ev name (err e) = unfold entered new_session in (unknown e refl, refl)
resumed-Goes ev name (ok s) = elim (Bool-cases (text_eq s.msisdn ev.msisdn)) [
  | inl own ↦ rw own (found-Goes ev name s ((text_eq_iff s.msisdn ev.msisdn).0 own))
  | inr other ↦ rw other (
      unfold entered new_session in
      (another_number s refl (λ e. absurd (ground (arith, text_eq_iff s.msisdn ev.msisdn))), refl))
]

module _ (ev : Event) (found : Result StoreError Session) (name : Text) where
  pub entered-Resumes :
      Resumes ev found name
        (entered (resumed ev found) name).turn
        (entered (resumed ev found) name).state
  entered-Resumes = (resumed-Goes ev name found).0

  -- The session that a turn goes on with carries the event's number.
  pub entered-msisdn : (entered (resumed ev found) name).msisdn ≡ ev.msisdn
  entered-msisdn = (resumed-Goes ev name found).1
