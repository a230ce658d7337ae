-- ===== src/Ussdsim.antt =====
-- cmd/ussdsim/main.go: the handset in a terminal, its lines and its dialogue.
pub mod Ink
pub mod Wrapping
pub mod Dialling
pub mod Posts
pub mod Speaks
use mathlib.Core.Option
use openussd.Prelude.{
  ℕ, zero, suc, ◌+◌, ◌-◌, Bool, true, false, not, Option, none, some, List, [], ◌∷◌, ◌++◌, ltb, leb,
  ◌==◌, length, take, drop, map, replicate, if◌then◌else◌, Result, ok, err,
}
use openussd.Strings.{Text, codes, is_empty, fields, split, trim_space}
use openussd.Canonical.Encoding.{Encoding, screen_cost, fits_screen, budget}
use openussd.Canonical.Event.{
  Phase, phase_begin, phase_continue, phase_cancel, terminal, Response, no_response,
}

abbrev pub screen_width : ℕ
screen_width = 32

-- The loop on a line that is longer than the screen: the lines that are full, and what is left.
-- `none` is out of fuel.
unfoldable pub chop : ℕ → ℕ → Text → Option (List Text × Text)
chop zero width line = if ltb width (length line) then none else some ([], line)
chop (suc fuel) width line =
    let rest = chop fuel width (drop width line) in
    if ltb width (length line)
    then Option.map (λ p. (take width line ∷ p.0, p.1)) rest
    else some ([], line)

-- The `switch`: the lines that are done, and the line that is begun.
abbrev pub add_word : ℕ → Text → Text → List Text × Text
add_word width line word =
    if is_empty line
    then ([], word)
    else if leb (length line + 1 + length word) width
    then ([], line ++ (codes " " ++ word))
    else (line ∷ [], word)

-- The loop over the words of a paragraph.
unfoldable pub wrap_words : ℕ → Text → List Text → Option (List Text × Text)
unfolding chop
wrap_words width line [] = some ([], line)
wrap_words width line (word ∷ words) =
    let (done, begun) = add_word width line word in
    elim (chop (length begun) width begun) [
      | none ↦ none
      | some (pieces, left) ↦
          Option.map (λ p. (done ++ (pieces ++ p.0), p.1)) (wrap_words width left words)
    ]

abbrev pub last_line : Text → List Text
last_line [] = []
last_line (c ∷ s) = (c ∷ s) ∷ []

unfoldable pub wrap_para : ℕ → Text → Option (List Text)
unfolding wrap_words fields
wrap_para width [] = some ([] ∷ [])
wrap_para width (c ∷ para) =
    Option.map (λ p. p.0 ++ last_line p.1) (wrap_words width [] (fields (c ∷ para)))

-- The loop over the paragraphs.
unfoldable pub wrap_paras : ℕ → List Text → Option (List Text)
unfolding wrap_para
wrap_paras width [] = some []
wrap_paras width (para ∷ paras) = elim (wrap_para width para) [
  | none ↦ none
  | some lines ↦ Option.map (λ more. lines ++ more) (wrap_paras width paras)
]

unfoldable pub wrap : Text → ℕ → Option (List Text)
unfolding wrap_paras split
wrap s width = wrap_paras width (split s 0x0a)

-- `%-*s`
abbrev pub padded : Text → Text
padded line = line ++ replicate (screen_width - length line) 0x20

-- What is printed of a screen: the lines in the frame, the cost where a network would reject it, and
-- whether the session has ended.
pub record Drawn : Type 0 where
  pub lines : List Text
  pub rejected : Option ((ℕ × Encoding) × ℕ)
  pub ended : Bool

unfoldable pub draw : Text → Bool → Option Drawn
unfolding wrap
draw body ended =
    Option.map
      (λ lines. record {
        lines = map (λ line. codes "| " ++ (padded line ++ codes " |")) lines;
        rejected = if not (fits_screen body) then some (screen_cost body, budget body) else none;
        ended = ended;
      })
      (wrap body screen_width)

pub record Request : Type 0 where
  pub session_id : Text
  pub msisdn : Text
  pub shortcode : Text
  pub path : List Text
  pub phase : Phase

-- The requests of one dialogue have the same session, number and shortcode.
abbrev pub request : Text → Text → Text → List Text → Phase → Request
request session_id msisdn shortcode path phase = record {
  session_id = session_id;
  msisdn = msisdn;
  shortcode = shortcode;
  path = path;
  phase = phase;
}

-- `http.Client` and JSON: the gateway is a state that a request changes, and its answer has a status
-- and a body, if there is one.
pub record Gateway : Type 1 where
  pub State : Type 0
  pub post : State → Request → State × Option (ℕ × Text)
  pub decode : Text → Option Response

pub data SendError : Type 0 where
  unreachable undecodable : SendError
  replied : ℕ → SendError

module _ (gateway : Gateway) where
  -- What is made of the answer.
  unfoldable pub received : Request → Option (ℕ × Text) → Result SendError Response
  received req none = err unreachable
  received req (some (status, body)) =
      if not (status == 200)
      then err (replied status)
      else if terminal req.phase
      then ok no_response
      else elim (gateway.decode body) [ none ↦ err undecodable | some out ↦ ok out ]

  unfoldable pub send : gateway.State → Request → gateway.State × Result SendError Response
  unfolding received
  send σ req = let (σ', answer) = gateway.post σ req in (σ', received req answer)

  module _ (session_id msisdn shortcode : Text) where
    unfoldable pub cancel : gateway.State → List Text → gateway.State × Result SendError Unit
    unfolding send
    cancel σ path = elim (send σ (request session_id msisdn shortcode path phase_cancel)).1 [
      | err e ↦ ((send σ (request session_id msisdn shortcode path phase_cancel)).0, err e)
      | ok _ ↦ ((send σ (request session_id msisdn shortcode path phase_cancel)).0, ok tt)
    ]

    -- The loop of `run`, on the lines that are typed; the screens drawn stand beside the result.
    unfoldable pub dial :
        gateway.State
        → List Text
        → Phase
        → List Text
        → gateway.State × List Response × Result SendError Unit
    unfolding send cancel
    dial σ path phase [] =
        let (σ', answer) = send σ (request session_id msisdn shortcode path phase) in
        elim answer [
          | err e ↦ (σ', [], err e)
          | ok resp ↦ elim resp.end_session [
            | true ↦ (σ', resp ∷ [], ok tt)
            | false ↦ let (σ'', result) = cancel σ' path in (σ'', resp ∷ [], result)
          ]
        ]
    dial σ path phase (input ∷ inputs) =
        let (σ', answer) = send σ (request session_id msisdn shortcode path phase) in
        elim answer [
          | err e ↦ (σ', [], err e)
          | ok resp ↦ elim resp.end_session [
            | true ↦ (σ', resp ∷ [], ok tt)
            | false ↦
                let (σ'', screens, result) =
                  dial σ' (path ++ trim_space input ∷ []) phase_continue inputs in
                (σ'', resp ∷ screens, result)
          ]
        ]

    abbrev pub run :
        gateway.State → List Text → gateway.State × List Response × Result SendError Unit
    run σ inputs = dial σ [] phase_begin inputs
