-- ===== src/Examples/Handsets.antt =====
-- The handset in a terminal, on a gateway that shows one menu.
use openussd.Prelude.{ℕ, ◌+◌, ◌≡◌, refl, false, some, List, [], ◌∷◌, ok, arith, All, ◌≤◌}
use openussd.Strings.{Text, codes, byte_len}
use openussd.Canonical.Event.Valid.{Lacks}
use openussd.Ussdsim.Posts.{fields_of, posted}
use openussd.Ussdsim.Speaks.{IsTaken, IsSmall, sent-IsTaken}
use openussd.Examples.Codec.{codec, codec-IsJson}
use openussd.Canonical.Event.{Response}
use openussd.Strings.{trim_space}
use openussd.Canonical.Event.{phase_begin}
use openussd.Sdk.Paginate.Content.{ink}
use openussd.Ussdsim.{Gateway, run, wrap, screen_width}
use openussd.Ussdsim.Wrapping.{IsWrapped, wrap-IsWrapped}
use openussd.Ussdsim.Dialling.{logged, IsReleased, run-IsReleased}

abbrev offer : Text
offer = codes "Welcome to the savings group of the north\n1. Balance"

wrap-IsWrapped_example : IsWrapped screen_width (ink offer) (wrap offer screen_width)
wrap-IsWrapped_example = wrap-IsWrapped offer screen_width (omega arith)

-- The state counts the requests.
abbrev menu_gateway : Gateway
menu_gateway = record {
  State = ℕ;
  post = λ n req. (n + 1, some (200, codes "menu"));
  decode = λ body. some (record { body = body; end_session = false });
}

abbrev typed : List Text
typed = codes " 1" ∷ codes "2 " ∷ []

run_ends :
    (run (logged menu_gateway) (codes "s1") (codes "+254") (codes "*384#") (0, []) typed).2 ≡ ok tt
unfolding openussd.Ussdsim.dial openussd.Canonical.Event.terminal openussd.Strings.text_eq
run_ends = refl

run-IsReleased_example :
    IsReleased
      (codes "s1")
      (codes "+254")
      (codes "*384#")
      []
      phase_begin
      typed
      (run (logged menu_gateway) (codes "s1") (codes "+254") (codes "*384#") (0, []) typed).0.1
      (run (logged menu_gateway) (codes "s1") (codes "+254") (codes "*384#") (0, []) typed).1
run-IsReleased_example =
    run-IsReleased (codes "s1") (codes "+254") (codes "*384#") menu_gateway 0 typed run_ends

short_id : byte_len (codes "s1") ≤ 128
unfolding byte_len
short_id = omega arith

typed_clean : All (Lacks b'*') typed
typed_clean = (
  ((λ e. absurd (ground arith)), ((λ e. absurd (ground arith)), tt)),
  (((λ e. absurd (ground arith)), ((λ e. absurd (ground arith)), tt)), tt),
)

-- The screens as they are.
abbrev plain_body : Response → Text
plain_body resp = resp.body

bodies-IsSmall :
    All
      (IsSmall codec (codes "10.0.0.9"))
      (run (logged menu_gateway) (codes "s1") (codes "+254") (codes "*384#") (0, []) typed).0.1
unfolding posted fields_of openussd.Ussdsim.dial openussd.Ussdsim.cancel trim_space
    openussd.Strings.text_eq openussd.Canonical.Event.terminal
bodies-IsSmall = (omega arith, (omega arith, (omega arith, (omega arith, tt))))

sent-IsTaken_example :
    All
      (IsTaken codec plain_body 7 (codes "10.0.0.9"))
      (run (logged menu_gateway) (codes "s1") (codes "+254") (codes "*384#") (0, []) typed).0.1
sent-IsTaken_example =
    sent-IsTaken codec codec-IsJson plain_body (codes "s1") (codes "+254") (codes "*384#")
      menu_gateway 0 typed 7 (codes "10.0.0.9") (λ e. cc) short_id (λ e. cc) typed_clean run_ends
      bodies-IsSmall
