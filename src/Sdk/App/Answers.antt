-- ===== src/Sdk/App/Answers.antt =====
-- Turns of an application that `NewApp` built, with any bundle.
use openussd.Prelude.{
  ℕ, ◌+◌, ◌≡◌, ◌≢◌, refl, ◌∙◌, ap, false, Option, some, List, ok, err, arith, if_false,
}
use openussd.Strings.{Text, is_empty}
use openussd.Maps
use openussd.Canonical.Event.{Event, Response}
use openussd.Sdk.I18n.{Bundle}
use openussd.Sdk.App.{
  Screen, App, Stored, Codec, screen_gone, panicked, new_app, with_bundle, restore, turn,
}
use openussd.Sdk.App.Built.{IsApp, new_app-IsApp}
use openussd.Sdk.App.Turns.{IsAnswer, last, over, goes_on, turn-cases, turn-panics, turn-finds}

pub with_bundle-IsApp :
    {S : Type 0} (b : Option Bundle) (a : App S) → IsApp a → IsApp (with_bundle b a)
unfolding with_bundle
with_bundle-IsApp b a app = record { screens = app.screens; first = app.first; starts = app.starts }

-- A turn that succeeds answers with a last screen that fits and no state, with the message that the
-- session has ended and no state, or with a screen that fits and the state that names a screen of the
-- application that takes input.
pub turn-IsAnswer :
    (S : Type 0) (codec : Codec S) (start : Text) (screens : List (Screen S)) (a : App S)
    (b : Option Bundle) (ev : Event) (n : ℕ) (stored : Option Text) (p : Response × Option Text)
    → new_app start screens ≡ ok a
    → turn codec (with_bundle b a) ev n stored ≡ ok p
    → IsAnswer codec (with_bundle b a) p
turn-IsAnswer S codec start screens a b ev n stored p built h =
    turn-cases codec (with_bundle b a)
      (with_bundle-IsApp b a (new_app-IsApp S start screens a built)) ev n stored p h

-- No turn of an application that `NewApp` built calls a prompt that is nil.
pub turn_calls_prompts :
    (S : Type 0) (codec : Codec S) (start : Text) (screens : List (Screen S)) (a : App S)
    (b : Option Bundle) (ev : Event) (n : ℕ) (stored : Option Text)
    → new_app start screens ≡ ok a
    → turn codec (with_bundle b a) ev n stored ≢ err panicked
turn_calls_prompts S codec start screens a b ev n stored built =
    turn-panics codec (with_bundle b a)
      (with_bundle-IsApp b a (new_app-IsApp S start screens a built)) ev n stored

-- The codec reads back what it writes, and writes no empty text.
abbrev pub IsRoundTrip : {S : Type 0} → Codec S → Type 0
IsRoundTrip {S} codec =
    (st : Stored S) (blob : Text)
    → codec.encode st ≡ some blob
    → (codec.decode blob ≡ some st) × (is_empty blob ≡ false)

module _ {S : Type 0} (codec : Codec S) (a : App S) where
  restore-screen :
      (st : Stored S) (blob : Text)
      → codec.decode blob ≡ some st
      → is_empty blob ≡ false
      → is_empty st.screen ≡ false
      → (restore codec a (some blob)).screen ≡ st.screen
  unfolding restore
  restore-screen st blob decoded written named = rw (written, decoded) (if_false _ _ named)

  answer-resumes :
      (p : Response × Option Text) (blob : Text)
      → IsApp a
      → IsRoundTrip codec
      → IsAnswer codec a p
      → p.1 ≡ some blob
      → (screen : Screen S) × (Maps.lookup (restore codec a (some blob)).screen a.screens
          ≡ some screen)
  answer-resumes p blob app trip (last body fits) h = absurd (ground arith)
  answer-resumes p blob app trip (over lang) h = absurd (ground arith)
  answer-resumes p blob app trip (goes_on body st blob' screen handle fits encoded listed live) h =
      let (decoded, written) = trip st blob (encoded ∙ h) in
      (
        screen,
        ap (λ k. Maps.lookup k a.screens)
              (restore-screen st blob decoded written
                (app.screens st.screen screen listed).nonempty)
            ∙ listed,
      )

-- The state that a turn returns is good for the next one: whatever the event, the screen that it names
-- still exists. The codec reads back what it writes.
turn_resumes :
    (S : Type 0) (codec : Codec S) (start : Text) (screens : List (Screen S)) (a : App S)
    (b : Option Bundle) (ev next : Event) (n : ℕ) (stored : Option Text) (resp : Response)
    (blob k : Text)
    → IsRoundTrip codec
    → new_app start screens ≡ ok a
    → turn codec (with_bundle b a) ev n stored ≡ ok (resp, some blob)
    → turn codec (with_bundle b a) next (n + 1) (some blob) ≢ err (screen_gone k)
turn_resumes S codec start screens a b ev next n stored resp blob k trip built h =
    let app = with_bundle-IsApp b a (new_app-IsApp S start screens a built) in
    let (screen, there) =
      answer-resumes codec (with_bundle b a) (resp, some blob) blob app trip
        (turn-cases codec (with_bundle b a) app ev n stored (resp, some blob) h) refl in
    turn-finds codec (with_bundle b a) app next (n + 1) (some blob) screen k there
