-- ===== src/Sdk/App/Built.antt =====
-- `NewApp` of sdk/go/app.go: what it accepts.
use openussd.Prelude.{
  ◌≡◌, refl, sym, ◌∙◌, subst, ◌⊎◌, inl, inr, Bool, true, false, Option, none, some, List, [], ◌∷◌,
  if◌then◌else◌, Result, ok, err, >>=-eq-ok, arith, Bool-cases, Option-cases, some-injective,
}
use openussd.Strings.{Text, is_empty, text_eq}
use openussd.Strings.Equal.{text_eq_iff}
use openussd.Maps
use openussd.Maps.{Map}
use openussd.Maps.Laws.{lookup-insert}
use openussd.Tenant.Router.Table.{ok-injective}
use openussd.Sdk.I18n.{default_lang}
use openussd.Sdk.App.{Screen, Context, App, AppError, start_missing, add_screens, new_app}

module _ {S : Type 0} where
  -- A screen under its own, nonempty name, and with a prompt.
  pub record IsScreen (name : Text) (s : Screen S) : Type 0 where
    pub named : s.name ≡ name
    pub nonempty : is_empty name ≡ false
    pub prompt : Context S → Context S × Result Text Text
    pub prompts : s.prompt ≡ some prompt

  abbrev pub HasScreens : Map (Screen S) → Type 0
  HasScreens m = (name : Text) (s : Screen S) → Maps.lookup name m ≡ some s → IsScreen name s

  pub record IsApp (a : App S) : Type 0 where
    pub screens : HasScreens a.screens
    pub first : Screen S
    pub starts : Maps.lookup a.start a.screens ≡ some first

  inserted :
      (same : Bool) (s t : Screen S) (old : Option (Screen S))
      → (if same then some s else old) ≡ some t
      → ((same ≡ true) × (s ≡ t)) ⊎ (old ≡ some t)
  inserted true s t old h = inl (refl, some-injective h)
  inserted false s t old h = inr h

  insert-HasScreens :
      (m : Map (Screen S)) (s : Screen S)
      → IsScreen s.name s
      → HasScreens m
      → HasScreens (Maps.insert s.name s m)
  insert-HasScreens m s good h name t k =
      elim (inserted (text_eq s.name name) s t (Maps.lookup name m)
        (sym (lookup-insert s.name name s m) ∙ k)) [
          | inl (same, e) ↦
              subst (λ (u : Screen S). IsScreen name u) e
                (subst (λ n. IsScreen n s) ((text_eq_iff s.name name).0 same) good)
          | inr old ↦ h name t old
        ]

  -- One screen of the list passed its checks.
  step_screen :
      (m m' : Map (Screen S)) (s : Screen S) (ss : List (Screen S))
      → add_screens m (s ∷ ss) ≡ ok m'
      → IsScreen s.name s × (add_screens (Maps.insert s.name s m) ss ≡ ok m')
  unfolding add_screens
  step_screen m m' s ss h = elim (Bool-cases (is_empty s.name)) [
    | inl nothing ↦ absurd (ground (arith, rw (nothing, add_screens) at h))
    | inr named ↦ elim (Option-cases s.prompt) [
      | inl mute ↦ absurd (ground (arith, rw (named, mute, add_screens) at h))
      | inr (p, speaks) ↦ elim (Option-cases (Maps.lookup s.name m)) [
        | inr (t, twice) ↦ absurd (ground (arith, rw (named, speaks, twice, add_screens) at h))
        | inl new ↦ (
          record { named = refl; nonempty = named; prompt = p; prompts = speaks },
          rw (named, speaks, new, add_screens) at h,
        )
      ]
    ]
  ]

  add_screens-HasScreens :
      (ss : List (Screen S)) (m m' : Map (Screen S))
      → add_screens m ss ≡ ok m'
      → HasScreens m
      → HasScreens m'
  unfolding add_screens
  add_screens-HasScreens [] m m' h k = subst HasScreens (ok-injective h) k
  add_screens-HasScreens (s ∷ ss) m m' h k =
      let (good, rest) = step_screen m m' s ss h in
      add_screens-HasScreens ss (Maps.insert s.name s m) m' rest (insert-HasScreens m s good k)

  start_app : Text → Map (Screen S) → Option (Screen S) → Result AppError (App S)
  start_app start m none = err (start_missing start)
  start_app start m (some s) =
      ok (record { screens = m; start = start; bundle = none; default_lang = default_lang })

  start_app-IsApp :
      (start : Text) (m : Map (Screen S)) (a : App S)
      → HasScreens m
      → start_app start m (Maps.lookup start m) ≡ ok a
      → IsApp a
  unfolding start_app
  start_app-IsApp start m a has h = elim (Option-cases (Maps.lookup start m)) [
    | inl gone ↦ absurd (ground (arith, rw gone at h))
    | inr (s, there) ↦
        subst IsApp (ok-injective (rw there at h))
          (record { screens = has; first = s; starts = there })
  ]

-- In an application that `NewApp` returns every screen is found under its own name, which is not empty,
-- and has a prompt, and the start screen is one of them.
pub new_app-IsApp :
    (S : Type 0) (start : Text) (screens : List (Screen S)) (a : App S)
    → new_app start screens ≡ ok a
    → IsApp a
unfolding new_app
new_app-IsApp S start screens a h =
    let (m, added, rest) = >>=-eq-ok (add_screens [] screens) _ h in
    start_app-IsApp start m a
      (add_screens-HasScreens screens [] m added
        (λ name s k. absurd (unfold Maps.lookup in ground (arith, k))))
      (unfold start_app in rest)
