-- ===== src/Fediverse/Sound/Histories.antt =====
-- main.go over many turns: the session states that a dialogue comes to.
use openussd.Prelude.{
  ℕ, ◌≡◌, sym, ◌∙◌, subst, inl, inr, Option, none, some, List, if◌then◌else◌, Bool-cases, ok,
  >>=-eq-ok,
}
use openussd.Strings.{Text, codes, is_empty}
use openussd.Canonical.Event.{Event, Response}
use openussd.Sdk.App.{Stored, App, Codec, new_app, restore, turn}
use openussd.Sdk.App.Built.{IsApp, new_app-IsApp}
use openussd.Sdk.App.Keeps.{IsKept, turn-IsKept}
use openussd.Sdk.App.Answers.{with_bundle-IsApp}
use openussd.Fediverse.Words.{bundle}
use openussd.Tenant.Router.Table.{ok-injective}
use openussd.Fediverse.Mastodon.{Post}
use openussd.Fediverse.{FeedState, screens, feed_app}
use openussd.Fediverse.Sound.{Held, Entry, feed, feed_app_builds}
use openussd.Fediverse.Sound.Turns.{Held-menu, feed-Keeps}

-- The session states that turns of the application come to, from none, whatever is typed and
-- whatever the instance answers.
pub data Browses (codec : Codec FeedState) : Option Text → Type 0 where
  begins : Browses codec none
  turns :
      (fetched : Option (List Post)) (a : App FeedState) (ev : Event) (n : ℕ)
      {stored after : Option Text} (response : Response)
      → Browses codec stored
      → feed_app codec.lower fetched ≡ ok a
      → turn codec a ev n stored ≡ ok (response, after)
      → Browses codec after

-- The JSON of a state is read back as the state.
abbrev pub ReadsBack : Codec FeedState → Type 0
ReadsBack codec =
    (st : Stored FeedState) (blob : Text)
    → codec.encode st ≡ some blob
    → codec.decode blob ≡ some st

-- What the next turn starts from.
abbrev pub IsReady : Codec FeedState → Option Text → Type 0
IsReady codec stored =
    (fetched : Option (List Post))
    → Held (restore codec (feed codec.lower fetched) stored).screen
        (restore codec (feed codec.lower fetched) stored).app

restored-Held :
    (codec : Codec FeedState) (st : Stored FeedState)
    → Held st.screen st.app
    → Held (if is_empty st.screen then codes "menu" else st.screen) st.app
restored-Held codec st held = elim (Bool-cases (is_empty st.screen)) [
  | inl nameless ↦ rw nameless (Held-menu st.app)
  | inr named ↦ rw named held
]

none-IsReady : (codec : Codec FeedState) → IsReady codec none
unfolding restore
none-IsReady codec fetched = Held-menu codec.zero

some-IsReady :
    (codec : Codec FeedState) (st : Stored FeedState) (blob : Text)
    → codec.decode blob ≡ some st
    → Held st.screen st.app
    → IsReady codec (some blob)
unfolding restore
some-IsReady codec st blob reads held fetched = elim (Bool-cases (is_empty blob)) [
  | inl nothing ↦ rw (nothing, restore) (Held-menu codec.zero)
  | inr something ↦ rw (something, restore) (rw reads (restored-Held codec st held))
]

feed-IsApp : (lower : ℕ → ℕ) (fetched : Option (List Post)) → IsApp (feed lower fetched)
feed-IsApp lower fetched =
    let (app, built, e) =
      >>=-eq-ok (new_app (codes "menu") (screens lower fetched)) _
        (feed_app_builds lower fetched) in
    subst IsApp (ok-injective e) (
      with_bundle-IsApp (some bundle) app
        (new_app-IsApp FeedState (codes "menu") (screens lower fetched) app built))

kept-IsReady :
    (codec : Codec FeedState) (fetched : Option (List Post)) (response : Response)
    (after : Option Text)
    → ReadsBack codec
    → IsKept codec
        (feed codec.lower fetched)
        Held
        Entry
        (feed-Keeps codec.lower fetched)
        (feed-IsApp codec.lower fetched)
        (ok (response, after))
    → IsReady codec after
kept-IsReady codec fetched response none reads kept = none-IsReady codec
kept-IsReady codec fetched response (some blob) reads (st, encoded, held) =
    some-IsReady codec st blob (reads st blob encoded) held

-- Whatever is typed and whatever the instance answers, the state from which a turn of the demo starts
-- is sound: on the timeline every option that was listed is a post, and on a post the cursor is on
-- one. The JSON of a state is read back as the state.
pub Browses-IsReady :
    (codec : Codec FeedState) (stored : Option Text)
    → ReadsBack codec
    → Browses codec stored
    → IsReady codec stored
Browses-IsReady codec stored reads begins = none-IsReady codec
Browses-IsReady codec stored reads
      (turns fetched a ev n {stored = before} response earlier built done) =
    let same : feed codec.lower fetched ≡ a =
      ok-injective (sym (feed_app_builds codec.lower fetched) ∙ built) in
    kept-IsReady codec fetched response stored reads (
      subst
        (IsKept codec (feed codec.lower fetched) Held Entry (feed-Keeps codec.lower fetched)
          (feed-IsApp codec.lower fetched))
        (subst (λ (b : App FeedState). turn codec b ev n before ≡ ok (response, stored)) (sym same)
          done)
        (turn-IsKept codec (feed codec.lower fetched) Held Entry (feed-Keeps codec.lower fetched)
          (feed-IsApp codec.lower fetched) ev n before
          (Browses-IsReady codec before reads earlier fetched)))
