-- ===== src/Sdk/App/Turns.antt =====
-- `Turn` of sdk/go/app.go: what it answers, function by function.
use openussd.Prelude.{
  ℕ, ◌≡◌, ◌≢◌, sym, ◌∙◌, subst, inl, inr, true, ◌||◌, Option, none, some, [], if◌then◌else◌, Result,
  ok, err, arith, Bool-cases, Option-cases, Result-cases, length, ◌==◌,
}
use openussd.Strings.{Text, codes, is_empty, text_eq}
use openussd.Maps
use openussd.Maps.{Map}
use openussd.Canonical.Encoding.{fits_screen}
use openussd.Canonical.Event.{Event, phase_begin, last_input, Response, continue_with, end_with}
use openussd.Sdk.Shrink.Fits.{fits_screen-shrink}
use openussd.Sdk.I18n.{translate}
use openussd.Sdk.App.{
  Context, Stored, Action, Screen, App, TurnError, screen_gone, panicked, Codec, Outcome, restore,
  with_notice, rendered, render, ended, act, turn_on, turn,
}
use openussd.Sdk.App.Built.{IsScreen, IsApp}

module _ {S : Type 0} (codec : Codec S) (a : App S) where
  -- The answers of a turn: a last screen and no state; the message that the session has ended; or a
  -- screen that takes input, and state that names it.
  pub data IsAnswer : Response × Option Text → Type 0 where
    last : (body : Text) → fits_screen body ≡ true → IsAnswer (end_with body, none)
    over :
        (lang : Text)
        → IsAnswer (end_with (translate codec.lower a.bundle lang (codes "session.ended")), none)
    goes_on :
        (body : Text) (st : Stored S) (blob : Text) (screen : Screen S)
        (handle : Context S → Text → Context S × Result Text Action)
        → fits_screen body ≡ true
        → codec.encode st ≡ some blob
        → Maps.lookup st.screen a.screens ≡ some screen
        → screen.handle ≡ some handle
        → IsAnswer (continue_with body, some blob)

  -- The errors of a screen that is there and has a prompt.
  abbrev IsMild : TurnError → Type 0
  IsMild panicked = ⊥
  IsMild (screen_gone name) = ⊥
  IsMild e = Unit

  abbrev IsSound : Outcome codec → Type 0
  IsSound (ok p) = IsAnswer p
  IsSound (err e) = IsMild e

  rendered-IsSound :
      (screen : Screen S) (prefix : Text) (ctx : Context S) (body : Text)
      → Maps.lookup screen.name a.screens ≡ some screen
      → IsSound (rendered codec screen prefix ctx body)
  unfolding rendered
  rendered-IsSound screen prefix ctx body listed =
      let st : Stored S = record { screen = screen.name; lang = ctx.lang; app = ctx.state } in
      let fits = fits_screen-shrink (with_notice codec prefix body) in
      elim (Option-cases (codec.encode st)) [
        | inl bad ↦ rw (bad, rendered) tt
        | inr (blob, good) ↦ elim (Option-cases screen.handle) [
          | inl dead ↦ rw (good, dead, rendered) (last _ fits)
          | inr (h, live) ↦
              rw (good, live, rendered) (goes_on _ st blob screen h fits good listed live)
        ]
      ]

  render-IsSound :
      (ctx : Context S) (screen : Screen S) (prefix : Text)
      → IsScreen screen.name screen
      → Maps.lookup screen.name a.screens ≡ some screen
      → IsSound (render codec ctx screen prefix)
  unfolding render
  render-IsSound ctx screen prefix good listed =
      rw (good.prompts, render)
        (elim (Result-cases (good.prompt (record ctx { notice = prefix })).1) [
          | inl (text, h) ↦ rw h (
              rendered-IsSound screen prefix (good.prompt (record ctx { notice = prefix })).0 text
                listed)
          | inr (e, h) ↦ rw h tt
        ])

  module _ (app : IsApp a) where
    -- A screen that is found is found under its own name.
    found :
        (name : Text) (s : Screen S)
        → Maps.lookup name a.screens ≡ some s
        → IsScreen s.name s × (Maps.lookup s.name a.screens ≡ some s)
    found name s h =
        let good = app.screens name s h in
        (
          subst (λ n. IsScreen n s) (sym good.named) good,
          subst (λ n. Maps.lookup n a.screens ≡ some s) (sym good.named) h,
        )

    act-IsSound :
        (current : Screen S) (ctx : Context S) (action : Action)
        → IsScreen current.name current
        → Maps.lookup current.name a.screens ≡ some current
        → IsSound (act codec a current ctx action)
    unfolding act
    act-IsSound current ctx action good listed = elim (Bool-cases action.is_end) [
      | inl finished ↦
          rw (finished, act)
            (last _ (
              fits_screen-shrink (if is_empty action.text then ended codec a ctx else action.text)))
      | inr more ↦ elim (Bool-cases (is_empty action.next)) [
        | inl here ↦ rw (more, here, act) (render-IsSound ctx current action.text good listed)
        | inr away ↦ elim (Option-cases (Maps.lookup action.next a.screens)) [
          | inl nowhere ↦ rw (more, away, nowhere, act) tt
          | inr (next, there) ↦
              let (good', listed') = found action.next next there in
              rw (more, away, there, act) (render-IsSound ctx next action.text good' listed')
        ]
      ]
    ]

    turn_on-IsSound :
        (current : Screen S) (ctx : Context S)
        → IsScreen current.name current
        → Maps.lookup current.name a.screens ≡ some current
        → IsSound (turn_on codec a current ctx)
    unfolding turn_on
    turn_on-IsSound current ctx good listed =
        elim (Bool-cases (text_eq ctx.event.phase phase_begin || length ctx.event.path == 0)) [
          | inl first ↦ rw (first, turn_on) (render-IsSound ctx current [] good listed)
          | inr input ↦ elim (Option-cases current.handle) [
            | inl dead ↦ rw (input, dead, turn_on) (over ctx.lang)
            | inr (h, live) ↦
                rw (input, live, turn_on)
                  (elim (Result-cases (h ctx (last_input ctx.event)).1) [
                    | inl (action, did) ↦
                        rw did
                          (act-IsSound current (h ctx (last_input ctx.event)).0 action good listed)
                    | inr (e, failed) ↦ rw failed tt
                  ])
          ]
        ]

    -- Where the stored screen is one of the application.
    turn-IsSound :
        (ev : Event) (n : ℕ) (stored : Option Text) (current : Screen S)
        → Maps.lookup (restore codec a stored).screen a.screens ≡ some current
        → IsSound (turn codec a ev n stored)
    unfolding turn
    turn-IsSound ev n stored current there =
        let st = restore codec a stored in
        let (good, listed) = found st.screen current there in
        rw (there, turn)
          (turn_on-IsSound current
            (record { event = ev; turn = n; state = st.app; lang = st.lang; notice = [] }) good
            listed)

    turn_gone :
        (ev : Event) (n : ℕ) (stored : Option Text)
        → Maps.lookup (restore codec a stored).screen a.screens ≡ none
        → turn codec a ev n stored ≡ err (screen_gone (restore codec a stored).screen)
    unfolding turn
    turn_gone ev n stored gone = rw (gone, turn)

    pub turn-cases :
        (ev : Event) (n : ℕ) (stored : Option Text)
        → (p : Response × Option Text) → turn codec a ev n stored ≡ ok p
        → IsAnswer p
    turn-cases ev n stored p h =
        elim (Option-cases (Maps.lookup (restore codec a stored).screen a.screens)) [
          | inl gone ↦ absurd (ground (arith, sym (turn_gone ev n stored gone) ∙ h))
          | inr (current, there) ↦ subst IsSound h (turn-IsSound ev n stored current there)
        ]

    pub turn-panics :
        (ev : Event) (n : ℕ) (stored : Option Text) → turn codec a ev n stored ≢ err panicked
    turn-panics ev n stored h =
        elim (Option-cases (Maps.lookup (restore codec a stored).screen a.screens)) [
          | inl gone ↦ absurd (ground (arith, sym (turn_gone ev n stored gone) ∙ h))
          | inr (current, there) ↦ subst IsSound h (turn-IsSound ev n stored current there)
        ]

    pub turn-finds :
        (ev : Event) (n : ℕ) (stored : Option Text) (current : Screen S) (k : Text)
        → Maps.lookup (restore codec a stored).screen a.screens ≡ some current
        → turn codec a ev n stored ≢ err (screen_gone k)
    turn-finds ev n stored current k there h =
        subst IsSound h (turn-IsSound ev n stored current there)
