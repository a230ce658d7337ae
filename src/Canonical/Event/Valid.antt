-- ===== src/Canonical/Event/Valid.antt =====
-- When an event or a response is valid, independent of the order in which the checks are made.
use openussd.Prelude.{
  ℕ, ◌+◌, ◌≤◌, ◌≡◌, ◌≢◌, ◌↔◌, refl, ◌⊎◌, inl, inr, Bool, true, false, not, ◌&&◌, List, [], ◌∷◌, ltb,
  length, ok, if_err-eq-ok, All, arith, Bool-cases,
}
use openussd.Strings.{Text, text_eq, is_empty, byte_len, contains_rune}
use openussd.Strings.Equal.{is_empty-false, text_eq_iff}
use openussd.Canonical.Encoding.{fits_screen}
use openussd.Canonical.Event.{
  Phase, phase_begin, phase_continue, phase_cancel, phase_timeout, valid, max_session_id_len, Event,
  validate_segments, validate, Response, validate_response,
}

abbrev pub Lacks : ℕ → Text → Type 0
Lacks r s = All (λ c. c ≢ r) s

contains_rune-false : (s : Text) (r : ℕ) → (contains_rune s r ≡ false) ↔ Lacks r s
unfolding contains_rune
contains_rune-false [] r = ((λ e. tt), λ h. refl)
contains_rune-false (c ∷ s) r = ground (arith, contains_rune-false s r)

abbrev pub IsDefined : Phase → Type 0
IsDefined p = (p ≡ phase_begin) ⊎ (p ≡ phase_continue) ⊎ (p ≡ phase_cancel) ⊎ (p ≡ phase_timeout)

pub record IsValid (e : Event) : Type 0 where
  pub mno : e.mno ≢ []
  pub session_id : e.session_id ≢ []
  pub short_id : byte_len e.session_id ≤ 128
  pub msisdn : e.msisdn ≢ []
  pub phase : IsDefined e.phase
  pub no_input_at_begin : e.phase ≡ phase_begin → e.path ≡ []
  pub no_separator : All (Lacks b'*') e.path

validate_segments_iff :
    (i : ℕ) (path : List Text) → (validate_segments i path ≡ ok tt) ↔ All (Lacks b'*') path
unfolding validate_segments
validate_segments_iff i [] = ((λ e. tt), λ h. refl)
validate_segments_iff i (seg ∷ path) =
    let (sound, complete) = validate_segments_iff (i + 1) path in
    let (lacks, clean) = contains_rune-false seg b'*' in
    elim (Bool-cases (contains_rune seg b'*')) [
      | inl bad ↦ ((λ e. ground arith), λ h. ground (arith, clean h.0))
      | inr good ↦ ((λ e. (lacks good, sound (rw good at e))), λ h. rw good (complete h.1))
    ]

valid_iff : (p : Phase) → (valid p ≡ true) ↔ IsDefined p
unfolding valid
valid_iff p = ground (
  arith,
  text_eq_iff p phase_begin,
  text_eq_iff p phase_continue,
  text_eq_iff p phase_cancel,
  text_eq_iff p phase_timeout,
)

ne→is_empty : (s : Text) → s ≢ [] → is_empty s ≡ false
ne→is_empty [] h = absurd (h refl)
ne→is_empty (c ∷ s) h = refl

no_input : (b : Bool) (path : List Text) → (b && ltb 0 (length path)) ≡ false → b ≡ true → path ≡ []
no_input b [] h e = refl
no_input b (seg ∷ path) h e = ground arith

no_input_check :
    (b : Bool) (path : List Text) → (b ≡ true → path ≡ []) → (b && ltb 0 (length path)) ≡ false
no_input_check false path h = refl
no_input_check true path h = rw (h refl)

validate_sound : (e : Event) → validate e ≡ ok tt → IsValid e
unfolding validate
validate_sound e h =
    let (mno, h1) = if_err-eq-ok (is_empty e.mno) _ _ h in
    let (sid, h2) = if_err-eq-ok (is_empty e.session_id) _ _ h1 in
    let (short, h3) = if_err-eq-ok (ltb max_session_id_len (byte_len e.session_id)) _ _ h2 in
    let (msisdn, h4) = if_err-eq-ok (is_empty e.msisdn) _ _ h3 in
    let (phase, h5) = if_err-eq-ok (not (valid e.phase)) _ _ h4 in
    let (start, h6) = if_err-eq-ok (text_eq e.phase phase_begin && ltb 0 (length e.path)) _ _ h5 in
    record {
      mno = is_empty-false e.mno mno;
      session_id = is_empty-false e.session_id sid;
      short_id = ground arith;
      msisdn = is_empty-false e.msisdn msisdn;
      phase = (valid_iff e.phase).0 (ground arith);
      no_input_at_begin = λ b.
          no_input (text_eq e.phase phase_begin) e.path start
            ((text_eq_iff e.phase phase_begin).1 b);
      no_separator = (validate_segments_iff 0 e.path).0 h6;
    }

validate_complete : (e : Event) → IsValid e → validate e ≡ ok tt
unfolding validate
validate_complete e h =
    let long : ltb max_session_id_len (byte_len e.session_id) ≡ false =
      let small = h.short_id in ground arith in
    let defined : not (valid e.phase) ≡ false =
      let v = (valid_iff e.phase).1 h.phase in rw v refl in
    let start =
      no_input_check (text_eq e.phase phase_begin) e.path
        (λ b. h.no_input_at_begin ((text_eq_iff e.phase phase_begin).0 b)) in
    rw
      (
        ne→is_empty e.mno h.mno,
        ne→is_empty e.session_id h.session_id,
        long,
        ne→is_empty e.msisdn h.msisdn,
        defined,
        start,
      )
      ((validate_segments_iff 0 e.path).1 h.no_separator)

-- An event passes `Validate` exactly if its network, its identifier and its number are not empty,
-- the identifier has at most 128 bytes, its phase is one of the four, it carries no input if it
-- begins, and no segment holds a star.
pub validate_iff : (e : Event) → (validate e ≡ ok tt) ↔ IsValid e
validate_iff e = (validate_sound e, validate_complete e)

pub validate_response_iff :
    (r : Response) → (validate_response r ≡ ok tt) ↔ (fits_screen r.body ≡ true)
unfolding validate_response
validate_response_iff r = ground arith
