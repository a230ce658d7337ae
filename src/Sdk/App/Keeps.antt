-- ===== src/Sdk/App/Keeps.antt =====
-- What an application's own invariant needs, and that a turn of sdk/go/app.go then keeps it.
use openussd.Prelude.{
  ℕ, ◌≡◌, sym, subst, inl, inr, false, ◌||◌, Option, none, some, [], if◌then◌else◌, Result, ok, err,
  Bool-cases, Option-cases, Result-cases, length, ◌==◌,
}
use openussd.Strings.{Text, is_empty, text_eq}
use openussd.Maps
use openussd.Canonical.Event.{Event, phase_begin, last_input}
use openussd.Sdk.App.{
  Context, Stored, Action, Screen, App, Codec, Outcome, restore, rendered, render, act, turn_on,
  turn,
}
use openussd.Sdk.App.Built.{IsApp}

module _ {S : Type 0} (a : App S) where
  abbrev pub target : Screen S → Action → Text
  target s action = if is_empty action.next then s.name else action.next

  -- `Held` is what holds of a state that waits for input on a screen, and `Entry` what must hold
  -- where a screen is about to be shown.
  pub record Keeps (Held Entry : Text → S → Type 0) : Type 0 where
    pub enter : (name : Text) (s : S) → Held name s → Entry name s
    pub prompt :
        (s : Screen S) (p : Context S → Context S × Result Text Text) (ctx : Context S)
        → Maps.lookup s.name a.screens ≡ some s
        → s.prompt ≡ some p
        → Entry s.name ctx.state
        → Held s.name (p ctx).0.state
    pub handle :
        (s : Screen S) (h : Context S → Text → Context S × Result Text Action) (ctx : Context S)
        (input : Text) (action : Action)
        → Maps.lookup s.name a.screens ≡ some s
        → s.handle ≡ some h
        → Held s.name ctx.state
        → (h ctx input).1 ≡ ok action
        → action.is_end ≡ false
        → Entry (target s action) (h ctx input).0.state

module _ {S : Type 0} (codec : Codec S) (a : App S) (Held Entry : Text → S → Type 0)
    (keeps : Keeps a Held Entry) (app : IsApp a) where
  -- State that is stored for the next turn is held.
  abbrev pub IsKept : Outcome codec → Type 0
  IsKept (err e) = Unit
  IsKept (ok (response, none)) = Unit
  IsKept (ok (response, some blob)) =
      (st : Stored S) × (codec.encode st ≡ some blob) × Held st.screen st.app

  rendered-IsKept :
      (screen : Screen S) (prefix : Text) (ctx : Context S) (body : Text)
      → Held screen.name ctx.state
      → IsKept (rendered codec screen prefix ctx body)
  unfolding rendered
  rendered-IsKept screen prefix ctx body held =
      let st : Stored S = record { screen = screen.name; lang = ctx.lang; app = ctx.state } in
      elim (Option-cases (codec.encode st)) [
        | inl bad ↦ rw (bad, rendered) tt
        | inr (blob, good) ↦ elim (Option-cases screen.handle) [
          | inl dead ↦ rw (good, dead, rendered) tt
          | inr (h, live) ↦ rw (good, live, rendered) (st, good, held)
        ]
      ]

  named :
      (name : Text) (s : Screen S)
      → Maps.lookup name a.screens ≡ some s
      → (s.name ≡ name) × (Maps.lookup s.name a.screens ≡ some s)
  named name s there =
      let good = app.screens name s there in
      (good.named, subst (λ n. Maps.lookup n a.screens ≡ some s) (sym good.named) there)

  render-IsKept :
      (ctx : Context S) (screen : Screen S) (prefix : Text)
      → Maps.lookup screen.name a.screens ≡ some screen
      → Entry screen.name ctx.state
      → IsKept (render codec ctx screen prefix)
  unfolding render
  render-IsKept ctx screen prefix listed entry =
      let good = app.screens screen.name screen listed in
      let shown = record ctx { notice = prefix } in
      let held = keeps.prompt screen good.prompt shown listed good.prompts entry in
      rw (good.prompts, render)
        (elim (Result-cases (good.prompt shown).1) [
          | inl (text, h) ↦ rw h (rendered-IsKept screen prefix (good.prompt shown).0 text held)
          | inr (e, h) ↦ rw h tt
        ])

  act-IsKept :
      (current : Screen S) (ctx : Context S) (action : Action)
      → Maps.lookup current.name a.screens ≡ some current
      → (action.is_end ≡ false → Entry (target a current action) ctx.state)
      → IsKept (act codec a current ctx action)
  unfolding act
  act-IsKept current ctx action listed entry = elim (Bool-cases action.is_end) [
    | inl finished ↦ rw (finished, act) tt
    | inr more ↦ elim (Bool-cases (is_empty action.next)) [
      | inl here ↦
          rw (more, here, act)
            (render-IsKept ctx current action.text listed (rw here at (entry more)))
      | inr away ↦ elim (Option-cases (Maps.lookup action.next a.screens)) [
        | inl nowhere ↦ rw (more, away, nowhere, act) tt
        | inr (next, there) ↦
            let (same, listed') = named action.next next there in
            rw (more, away, there, act)
              (render-IsKept ctx next action.text listed'
                (subst (λ n. Entry n ctx.state) (sym same) (rw away at (entry more))))
      ]
    ]
  ]

  turn_on-IsKept :
      (current : Screen S) (ctx : Context S)
      → Maps.lookup current.name a.screens ≡ some current
      → Held current.name ctx.state
      → IsKept (turn_on codec a current ctx)
  unfolding turn_on
  turn_on-IsKept current ctx listed held =
      elim (Bool-cases (text_eq ctx.event.phase phase_begin || length ctx.event.path == 0)) [
        | inl first ↦
            rw (first, turn_on)
              (render-IsKept ctx current [] listed (keeps.enter current.name ctx.state held))
        | inr input ↦ elim (Option-cases current.handle) [
          | inl dead ↦ rw (input, dead, turn_on) tt
          | inr (h, live) ↦
              rw (input, live, turn_on)
                (elim (Result-cases (h ctx (last_input ctx.event)).1) [
                  | inl (action, did) ↦ rw did (
                      act-IsKept current (h ctx (last_input ctx.event)).0 action listed (
                        keeps.handle current h ctx (last_input ctx.event) action listed live held
                          did))
                  | inr (e, failed) ↦ rw failed tt
                ])
        ]
      ]

  -- A turn from held state stores held state.
  pub turn-IsKept :
      (ev : Event) (n : ℕ) (stored : Option Text)
      → Held (restore codec a stored).screen (restore codec a stored).app
      → IsKept (turn codec a ev n stored)
  unfolding turn
  turn-IsKept ev n stored held =
      let st = restore codec a stored in
      elim (Option-cases (Maps.lookup st.screen a.screens)) [
        | inl gone ↦ rw (gone, turn) tt
        | inr (current, there) ↦
            let (same, listed) = named st.screen current there in
            rw (there, turn)
              (turn_on-IsKept current
                (record { event = ev; turn = n; state = st.app; lang = st.lang; notice = [] })
                listed (subst (λ name. Held name st.app) (sym same) held))
      ]
