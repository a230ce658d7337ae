-- ===== src/Fediverse/Words.antt =====
-- The texts of adapters/fediverse/main.go in its three languages.
use openussd.Prelude.{[], ◌∷◌}
use openussd.Strings.{Text, codes}
use openussd.Maps.{Map}
use openussd.Sdk.I18n.{Bundle, new_bundle}

unfoldable pub english : Map Text
english =
    (codes "menu.title", codes "OpenUSSD Fediverse")
    ∷ (codes "menu.timeline", codes "Public timeline")
    ∷ (codes "menu.about", codes "About")
    ∷ (codes "menu.quit", codes "Quit")
    ∷ (codes "timeline.title", codes "Latest posts")
    ∷ (codes "nav.next", codes "1. Next")
    ∷ (codes "nav.prev", codes "2. Prev")
    ∷ (codes "nav.back", codes "0. Back")
    ∷ (codes "error.fetch", codes "Could not reach the instance. Try again.")
    ∷ (codes "error.empty", codes "Nothing to show here.")
    ∷ (codes "error.choice", codes "Invalid choice.")
    ∷ (codes "session.ended", codes "Goodbye.")
    ∷ (
      codes "about.body",
      codes
          "OpenUSSD: an open gateway and SDK bringing the federated web to feature phones. github.com/davidrukahu/openussd",
    )
    ∷ []

unfoldable pub swahili : Map Text
swahili =
    (codes "menu.title", codes "OpenUSSD Fediverse")
    ∷ (codes "menu.timeline", codes "Ratiba ya umma")
    ∷ (codes "menu.about", codes "Kuhusu")
    ∷ (codes "menu.quit", codes "Ondoka")
    ∷ (codes "error.choice", codes "Chaguo si sahihi.")
    ∷ (codes "session.ended", codes "Kwaheri.")
    ∷ []

unfoldable pub french : Map Text
french =
    (codes "menu.title", codes "OpenUSSD Fediverse")
    ∷ (codes "menu.timeline", codes "Fil public")
    ∷ (codes "menu.about", codes "À propos")
    ∷ (codes "menu.quit", codes "Quitter")
    ∷ (codes "error.choice", codes "Choix invalide.")
    ∷ (codes "session.ended", codes "Au revoir.")
    ∷ []

unfoldable pub bundle : Bundle
unfolding english swahili french
bundle = new_bundle ((codes "en", english) ∷ (codes "sw", swahili) ∷ (codes "fr", french) ∷ [])
