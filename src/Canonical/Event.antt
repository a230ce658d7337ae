-- ===== src/Canonical/Event.antt =====
-- canonical/event.go: the event that every adapter produces and the response that it renders.
pub mod Valid
use openussd.Prelude.{
  ℕ, suc, ◌+◌, Bool, true, false, not, ◌&&◌, ◌||◌, List, [], ◌∷◌, ltb, length, if◌then◌else◌,
  Result, ok, err,
}
use openussd.Strings.{Text, codes, text_eq, is_empty, byte_len, contains_rune}
use openussd.Canonical.Encoding.{Encoding, screen_cost, budget, fits_screen}

-- A phase is a string in the source too; the four constants are the defined ones.
abbrev pub Phase : Type 0
Phase = Text

abbrev pub phase_begin : Phase
phase_begin = codes "begin"

abbrev pub phase_continue : Phase
phase_continue = codes "continue"

abbrev pub phase_cancel : Phase
phase_cancel = codes "cancel"

abbrev pub phase_timeout : Phase
phase_timeout = codes "timeout"

unfoldable pub terminal : Phase → Bool
terminal p = text_eq p phase_cancel || text_eq p phase_timeout

unfoldable pub valid : Phase → Bool
valid p =
    text_eq p phase_begin
    || text_eq p phase_continue
    || text_eq p phase_cancel
    || text_eq p phase_timeout

abbrev pub max_session_id_len : ℕ
max_session_id_len = 128

-- Times are nanoseconds since Go's zero time.
pub record Event : Type 0 where
  pub mno : Text
  pub session_id : Text
  pub msisdn : Text
  pub shortcode : Text
  pub path : List Text
  pub phase : Phase
  pub network_code : Text
  pub received_at : ℕ
  pub raw : List ℕ

-- `Path[len(Path)-1]`, or the empty text.
pub last_segment : List Text → Text
last_segment [] = []
last_segment (s ∷ []) = s
last_segment (s ∷ t ∷ path) = last_segment (t ∷ path)

unfoldable pub last_input : Event → Text
unfolding last_segment
last_input e = last_segment e.path

pub data EventError : Type 0 where
  no_mno no_session_id no_msisdn : EventError
  session_id_too_long : ℕ → EventError
  unknown_phase : Phase → EventError
  begin_with_input : ℕ → EventError
  separator_in_segment : ℕ → Text → EventError

-- The loop of `Validate` over the path.
pub validate_segments : ℕ → List Text → Result EventError Unit
validate_segments i [] = ok tt
validate_segments i (seg ∷ path) =
    if contains_rune seg b'*'
    then err (separator_in_segment i seg)
    else validate_segments (i + 1) path

unfoldable pub validate : Event → Result EventError Unit
unfolding validate_segments
validate e =
    if is_empty e.mno
    then err no_mno
    else if is_empty e.session_id
    then err no_session_id
    else if ltb max_session_id_len (byte_len e.session_id)
    then err (session_id_too_long (byte_len e.session_id))
    else if is_empty e.msisdn
    then err no_msisdn
    else if not (valid e.phase)
    then err (unknown_phase e.phase)
    else if text_eq e.phase phase_begin && ltb 0 (length e.path)
    then err (begin_with_input (length e.path))
    else validate_segments 0 e.path

pub record Response : Type 0 where
  pub body : Text
  pub end_session : Bool

abbrev pub no_response : Response
no_response = record { body = []; end_session = false }

abbrev pub continue_with : Text → Response
continue_with body = record { body = body; end_session = false }

abbrev pub end_with : Text → Response
end_with body = record { body = body; end_session = true }

pub data ResponseError : Type 0 where
  too_long : ℕ → Encoding → ℕ → ResponseError

unfoldable pub validate_response : Response → Result ResponseError Unit
validate_response r =
    let (cost, enc) = screen_cost r.body in
    if not (fits_screen r.body) then err (too_long cost enc (budget r.body)) else ok tt
