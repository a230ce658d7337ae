-- ===== src/Ussdsim/Speaks.antt =====
-- cmd/ussdsim/main.go and the simulator adapter of the gateway: the handset sends what it takes.
use openussd.Prelude.{
  ℕ, zero, suc, ◌+◌, ◌≤◌, ◌≡◌, ◌≢◌, refl, sym, ◌∙◌, ap, subst, inl, inr, List, [], ◌∷◌, ◌++◌, map,
  length, All, All-append, ok, false, take, take_all, length-take, ltb, arith, ◌>>=◌, ◌>>◌, map_err,
  some, Option,
}
use openussd.Strings.{Text, codes, byte_len, is_empty, text_eq, trim_space}
use openussd.Strings.Trim.{trim_space-All}
use openussd.Canonical.Event.{
  validate, Event, Phase, phase_begin, phase_continue, phase_cancel, Response,
}
use openussd.Canonical.Event.Valid.{Lacks, IsDefined, IsValid, validate_iff}
use openussd.Adapter.Simulator.{SimRequest}
use openussd.Adapter.{invalid_event, HttpRequest, max_body_bytes, read_body}
use openussd.Adapter.Simulator.{inferred_phase, event_of, parse_json, parse}
use openussd.Adapter.Simulator.Fields.{Json, IsJson, read_request}
use openussd.Ussdsim.{Request, Gateway, request, run}
use openussd.Ussdsim.Dialling.{logged, asked, IsReleased, run-IsReleased}
use openussd.Ussdsim.Posts.{fields_of, posted, read_back, read_request-fields_of}

-- The event that a request of the handset stands for, with the body that was posted.
abbrev pub meant : ℕ → Text → Request → Event
meant now raw req = record {
  mno = codes "simulator";
  session_id = req.session_id;
  msisdn = req.msisdn;
  shortcode = req.shortcode;
  path = req.path;
  phase = req.phase;
  network_code = [];
  received_at = now;
  raw = raw;
}

-- The adapter makes it of the request that is posted.
abbrev pub IsTaken : Json → (Response → Text) → ℕ → Text → Request → Type 0
IsTaken json encode now remote_addr req =
    parse (read_request json) encode now (posted json remote_addr req)
    ≡ ok (meant now (posted json remote_addr req).body req)

-- The body is not too large for the adapter.
abbrev pub IsSmall : Json → Text → Request → Type 0
IsSmall json remote_addr req = length (posted json remote_addr req).body ≤ 65_536

-- A request that has a phase and stands for a valid event.
abbrev IsSpoken : ℕ → Request → Type 0
IsSpoken now req = (is_empty req.phase ≡ false) × ((raw : Text) → IsValid (meant now raw req))

small_body :
    (max : ℕ) (r : HttpRequest)
    → r.broken ≡ false
    → length r.body ≤ max
    → read_body max r ≡ ok r.body
unfolding read_body
small_body max r whole small =
    let short : ltb max (length (take (max + 1) r.body)) ≡ false =
      ground (arith, length-take (max + 1) r.body, small) in
    rw (whole, short) (ap ok (take_all (max + 1) r.body (omega (arith, small))))

event_of-read_back :
    (now : ℕ) (raw : Text) (req : Request)
    → is_empty req.phase ≡ false
    → event_of now raw (read_back req) ≡ meant now raw req
unfolding event_of inferred_phase
event_of-read_back now raw req given = rw given refl

parsed_event :
    (decode : Text → Option SimRequest) (encode : Response → Text) (now : ℕ) (raw : Text)
    (sim : SimRequest)
    → decode raw ≡ some sim
    → validate (event_of now raw sim) ≡ ok tt
    → (parse_json decode encode raw >>= (λ got.
        map_err invalid_event (validate (event_of now raw got)) >> ok (event_of now raw got)))
      ≡ ok (event_of now raw sim)
unfolding parse_json
parsed_event decode encode now raw sim got valid = rw (parse_json, got) (rw valid refl)

IsSpoken-IsTaken :
    (json : Json) (law : IsJson json) (encode : Response → Text) (now : ℕ) (remote_addr : Text)
    (req : Request)
    → IsSmall json remote_addr req
    → IsSpoken now req
    → IsTaken json encode now remote_addr req
unfolding parse parse_json posted text_eq
IsSpoken-IsTaken json law encode now remote_addr req small spoken =
    let raw = json.marshal (fields_of req) in
    let e = event_of-read_back now raw req spoken.0 in
    let valid : validate (event_of now raw (read_back req)) ≡ ok tt =
      rw e ((validate_iff (meant now raw req)).1 (spoken.1 raw)) in
    rw (small_body max_body_bytes (posted json remote_addr req) refl small) (
      parsed_event (read_request json) encode now raw (read_back req)
        (read_request-fields_of json law req) valid
      ∙ ap ok e)

taken :
    (json : Json) (law : IsJson json) (encode : Response → Text) (now : ℕ) (remote_addr : Text)
    (sent : List Request)
    → All (IsSmall json remote_addr) sent
    → All (IsSpoken now) sent
    → All (IsTaken json encode now remote_addr) sent
taken json law encode now remote_addr [] small spoken = tt
taken json law encode now remote_addr (req ∷ sent) small spoken = (
  IsSpoken-IsTaken json law encode now remote_addr req small.0 spoken.0,
  taken json law encode now remote_addr sent small.1 spoken.1,
)

module _ (session_id msisdn shortcode : Text) (now : ℕ) (named : session_id ≢ [])
    (short : byte_len session_id ≤ 128) (numbered : msisdn ≢ []) where
  request-IsSpoken :
      (path : List Text) (phase : Phase)
      → is_empty phase ≡ false
      → IsDefined phase
      → (phase ≡ phase_begin → path ≡ [])
      → All (Lacks b'*') path
      → IsSpoken now (request session_id msisdn shortcode path phase)
  request-IsSpoken path phase given defined start clean = (
    given,
    λ raw. record {
      mno = λ e. cc;
      session_id = named;
      short_id = short;
      msisdn = numbered;
      phase = defined;
      no_input_at_begin = start;
      no_separator = clean;
    },
  )

  asked-IsSpoken :
      (n : ℕ) (path : List Text) (phase : Phase) (inputs : List Text)
      → is_empty phase ≡ false
      → IsDefined phase
      → (phase ≡ phase_begin → path ≡ [])
      → All (Lacks b'*') path
      → All (Lacks b'*') inputs
      → All (IsSpoken now) (asked session_id msisdn shortcode n path phase inputs)
  asked-IsSpoken zero path phase inputs given defined start clean typed = tt
  asked-IsSpoken (suc n) path phase [] given defined start clean typed =
      (request-IsSpoken path phase given defined start clean, tt)
  asked-IsSpoken (suc n) path phase (input ∷ inputs) given defined start clean typed = (
    request-IsSpoken path phase given defined start clean,
    asked-IsSpoken n (path ++ trim_space input ∷ []) phase_continue inputs refl (inr (inl refl))
        (λ e. cc)
        (All-append (Lacks b'*') path _ clean (trim_space-All (λ c. c ≢ b'*') input typed.0, tt))
        typed.1,
  )

  trimmed-Lacks :
      (inputs : List Text) → All (Lacks b'*') inputs → All (Lacks b'*') (map trim_space inputs)
  trimmed-Lacks [] h = tt
  trimmed-Lacks (input ∷ inputs) h =
      (trim_space-All (λ c. c ≢ b'*') input h.0, trimmed-Lacks inputs h.1)

  IsReleased-IsSpoken :
      (inputs : List Text) (sent : List Request) (screens : List Response)
      → All (Lacks b'*') inputs
      → IsReleased session_id msisdn shortcode [] phase_begin inputs sent screens
      → All (IsSpoken now) sent
  IsReleased-IsSpoken inputs sent screens typed (inl (over, log)) =
      subst (All (IsSpoken now)) (sym log)
        (asked-IsSpoken (length screens) [] phase_begin inputs refl (inl refl) (λ e. refl) tt typed)
  IsReleased-IsSpoken inputs sent screens typed (inr (left, count, log)) =
      subst (All (IsSpoken now)) (sym log) (
        All-append (IsSpoken now) _ _
          (asked-IsSpoken (length screens) [] phase_begin inputs refl (inl refl) (λ e. refl) tt
            typed)
          (
            request-IsSpoken (map trim_space inputs) phase_cancel refl (inr (inr (inl refl)))
                (λ e. cc) (trimmed-Lacks inputs typed),
            tt,
          ))

-- The handset speaks the protocol of the simulator adapter: in a dialogue that ends without an error,
-- whatever is typed without a star, `Parse` of the adapter makes of every request that was posted the
-- event with the request's session, number, short code, path and phase. JSON reads back what it
-- writes, every body has at most 65536 bytes, the session and the number are named, and the name of
-- the session has at most 128 bytes.
pub sent-IsTaken :
    (json : Json) (law : IsJson json) (encode : Response → Text)
    (session_id msisdn shortcode : Text) (g : Gateway) (σ : g.State) (inputs : List Text) (now : ℕ)
    (remote_addr : Text)
    → session_id ≢ []
    → byte_len session_id ≤ 128
    → msisdn ≢ []
    → All (Lacks b'*') inputs
    → (run (logged g) session_id msisdn shortcode (σ, []) inputs).2 ≡ ok tt
    → All (IsSmall json remote_addr) (run (logged g) session_id msisdn shortcode (σ, []) inputs).0.1
    → All
        (IsTaken json encode now remote_addr)
        (run (logged g) session_id msisdn shortcode (σ, []) inputs).0.1
sent-IsTaken json law encode session_id msisdn shortcode g σ inputs now remote_addr named short
      numbered typed h small =
    taken json law encode now remote_addr _ small (
      IsReleased-IsSpoken session_id msisdn shortcode now named short numbered inputs _ _ typed
        (run-IsReleased session_id msisdn shortcode g σ inputs h))
