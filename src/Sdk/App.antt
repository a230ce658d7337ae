-- ===== src/Sdk/App.antt =====
-- sdk/go/app.go: an application of screens, and one turn of a dialogue with it. A screen changes its
-- context in place, so the functions here return it; a nil function is `none`.
pub mod Built
pub mod Turns
pub mod Answers
pub mod Keeps
use openussd.Prelude.{
  ℕ, ◌++◌, Bool, true, false, not, ◌&&◌, ◌||◌, Option, none, some, List, [], ◌∷◌, ltb, length, ◌==◌,
  if◌then◌else◌, Result, ok, err, ◌>>=◌, ◌>>◌,
}
use openussd.Strings.{Text, codes, text_eq, is_empty, has_prefix}
use openussd.Maps
use openussd.Maps.{Map}
use openussd.Canonical.Event.{Event, phase_begin, last_input, Response, continue_with, end_with}
use openussd.Sdk.Shrink.{shrink}
use openussd.Sdk.I18n.{Bundle, default_lang, translate}

module _ (S : Type 0) where
  pub record Context : Type 0 where
    pub event : Event
    pub turn : ℕ
    pub state : S
    pub lang : Text
    pub notice : Text

  -- What is stored between turns.
  pub record Stored : Type 0 where
    pub screen : Text
    pub lang : Text
    pub app : S

pub record Action : Type 0 where
  pub next : Text
  pub text : Text
  pub is_end : Bool

abbrev pub goto : Text → Action
goto screen = record { next = screen; text = []; is_end = false }

abbrev pub stay : Text → Action
stay message = record { next = []; text = message; is_end = false }

abbrev pub finish : Text → Action
finish message = record { next = []; text = message; is_end = true }

-- The errors of screens are texts.
pub record Screen (S : Type 0) : Type 0 where
  pub name : Text
  pub prompt : Option (Context S → Context S × Result Text Text)
  pub handle : Option (Context S → Text → Context S × Result Text Action)

pub record App (S : Type 0) : Type 0 where
  pub screens : Map (Screen S)
  pub start : Text
  pub bundle : Option Bundle
  pub default_lang : Text

pub data AppError : Type 0 where
  nameless : AppError
  no_prompt declared_twice start_missing : Text → AppError

module _ {S : Type 0} where
  -- The loop of `NewApp`.
  unfoldable pub add_screens : Map (Screen S) → List (Screen S) → Result AppError (Map (Screen S))
  add_screens m [] = ok m
  add_screens m (s ∷ screens) = if is_empty s.name then err nameless else elim s.prompt [
    | none ↦ err (no_prompt s.name)
    | some _ ↦ elim (Maps.lookup s.name m) [
      | some _ ↦ err (declared_twice s.name)
      | none ↦ add_screens (Maps.insert s.name s m) screens
    ]
  ]

  unfoldable pub new_app : Text → List (Screen S) → Result AppError (App S)
  unfolding add_screens
  new_app start screens = do
    m ← add_screens [] screens
    elim (Maps.lookup start m) [
      | none ↦ err (start_missing start)
      | some _ ↦
          ok (record { screens = m; start = start; bundle = none; default_lang = default_lang })
    ]

-- `WithBundle`; the bundle may be nil.
unfoldable pub with_bundle : {S : Type 0} → Option Bundle → App S → App S
with_bundle b a = record a { bundle = b }

pub data TurnError : Type 0 where
  screen_gone : Text → TurnError
  handler_failed : Text → TurnError
  unknown_target : Text → Text → TurnError
  prompt_failed : Text → Text → TurnError
  encoding_failed panicked : TurnError

-- The JSON of the stored state and the lower case of a rune are parameters.
pub record Codec (S : Type 0) : Type 0 where
  pub decode : Text → Option (Stored S)
  pub encode : Stored S → Option Text
  pub zero : S
  pub lower : ℕ → ℕ

module _ {S : Type 0} (codec : Codec S) where
  abbrev pub Outcome : Type 0
  Outcome = Result TurnError (Response × Option Text)

  abbrev pub fresh : Stored S
  fresh = record { screen = []; lang = []; app = codec.zero }

  -- The stored state, the zero one where there is none or it cannot be read.
  abbrev pub read_stored : Option Text → Stored S
  read_stored none = fresh
  read_stored (some blob) =
      if is_empty blob then fresh else elim (codec.decode blob) [ none ↦ fresh | some st ↦ st ]

  unfoldable pub restore : App S → Option Text → Stored S
  restore a stored =
      let st = read_stored stored in
      record st {
        screen = if is_empty st.screen then a.start else st.screen;
        lang = if is_empty st.lang then a.default_lang else st.lang;
      }

  abbrev pub with_notice : Text → Text → Text
  with_notice prefix body =
      if not (is_empty prefix) && not (has_prefix body prefix)
      then prefix ++ codes "\n" ++ body
      else body

  -- The end of `render`, after the prompt.
  unfoldable pub rendered : Screen S → Text → Context S → Text → Outcome
  rendered screen prefix ctx body =
      let shown = shrink (with_notice prefix body) in
      elim (codec.encode (record { screen = screen.name; lang = ctx.lang; app = ctx.state })) [
        | none ↦ err encoding_failed
        | some encoded ↦ elim screen.handle [
          | none ↦ ok (end_with shown, none)
          | some _ ↦ ok (continue_with shown, some encoded)
        ]
      ]

  unfoldable pub render : Context S → Screen S → Text → Outcome
  unfolding rendered
  render ctx screen prefix = elim screen.prompt [
    | none ↦ err panicked
    | some prompt ↦
        let (ctx', body) = prompt (record ctx { notice = prefix }) in
        elim body [
          | err e ↦ err (prompt_failed screen.name e)
          | ok text ↦ rendered screen prefix ctx' text
        ]
  ]

  -- `c.T("session.ended")`
  abbrev pub ended : App S → Context S → Text
  ended a ctx = translate codec.lower a.bundle ctx.lang (codes "session.ended")

  -- What is done with the action of a screen.
  unfoldable pub act : App S → Screen S → Context S → Action → Outcome
  unfolding render
  act a current ctx action =
      if action.is_end
      then ok (end_with (shrink (if is_empty action.text then ended a ctx else action.text)), none)
      else if is_empty action.next
      then render ctx current action.text
      else elim (Maps.lookup action.next a.screens) [
        | none ↦ err (unknown_target current.name action.next)
        | some next ↦ render ctx next action.text
      ]

  -- The turn on the screen that is current.
  unfoldable pub turn_on : App S → Screen S → Context S → Outcome
  unfolding act
  turn_on a current ctx =
      if text_eq ctx.event.phase phase_begin || length ctx.event.path == 0
      then render ctx current []
      else elim current.handle [
        | none ↦ ok (end_with (ended a ctx), none)
        | some handle ↦
            let (ctx', result) = handle ctx (last_input ctx.event) in
            elim result [ err e ↦ err (handler_failed e) | ok action ↦ act a current ctx' action ]
      ]

  unfoldable pub turn : App S → Event → ℕ → Option Text → Outcome
  unfolding restore turn_on
  turn a ev n stored =
      let st = restore a stored in
      elim (Maps.lookup st.screen a.screens) [
        | none ↦ err (screen_gone st.screen)
        | some current ↦
            turn_on a current
              (record { event = ev; turn = n; state = st.app; lang = st.lang; notice = [] })
      ]
