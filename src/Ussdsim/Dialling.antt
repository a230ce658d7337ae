-- ===== src/Ussdsim/Dialling.antt =====
-- `run` of cmd/ussdsim/main.go: the requests that a dialogue sends, and that it is released.
use openussd.Prelude.{
  ℕ, zero, suc, ◌≡◌, refl, sym, ◌∙◌, ap, subst, ◌⊎◌, inl, inr, Bool, true, false, List, [], ◌∷◌,
  ◌++◌, map, length, arith, append_assoc, append-nil, Result, ok, Bool-cases, Result-cases,
}
use openussd.Strings.{Text, trim_space}
use openussd.Canonical.Event.{Phase, phase_begin, phase_continue, phase_cancel, Response}
use openussd.Ussdsim.{Request, Gateway, SendError, received, send, request, cancel, dial, run}

-- The gateway with a log of the requests that it was sent.
abbrev pub logged : Gateway → Gateway
logged g = record {
  State = g.State × List Request;
  post = λ σ req. (((g.post σ.0 req).0, σ.1 ++ req ∷ []), (g.post σ.0 req).1);
  decode = g.decode;
}

-- The last screen drawn ended the session.
abbrev pub ended : List Response → Bool
ended [] = false
ended (resp ∷ []) = resp.end_session
ended (resp ∷ next ∷ screens) = ended (next ∷ screens)

ended_before :
    (resp : Response) (screens : List Response)
    → resp.end_session ≡ false
    → ended (resp ∷ screens) ≡ ended screens
ended_before resp [] h = h
ended_before resp (next ∷ screens) h = refl

module _ (session_id msisdn shortcode : Text) where
  -- The first `n` requests of a dialogue: one for each screen, with what was typed up to then.
  abbrev pub asked : ℕ → List Text → Phase → List Text → List Request
  asked zero path phase inputs = []
  asked (suc n) path phase [] = request session_id msisdn shortcode path phase ∷ []
  asked (suc n) path phase (input ∷ inputs) =
      request session_id msisdn shortcode path phase
      ∷ asked n (path ++ trim_space input ∷ []) phase_continue inputs

  -- The requests of a dialogue whose screens were drawn: to the screen that ended it, or to the end
  -- of what was typed and then a cancellation.
  abbrev pub IsReleased : List Text → Phase → List Text → List Request → List Response → Type 0
  IsReleased path phase inputs log screens =
      ((ended screens ≡ true) × (log ≡ asked (length screens) path phase inputs))
      ⊎ ((ended screens ≡ false)
          × (length screens ≡ suc (length inputs))
          × (log
              ≡ asked (length screens) path phase inputs
                ++ request session_id msisdn shortcode (path ++ map trim_space inputs) phase_cancel
                  ∷ []))

  IsReleased-next :
      (input : Text) (inputs path : List Text) (phase : Phase) (sent : List Request)
      (resp : Response) (screens : List Response)
      → resp.end_session ≡ false
      → IsReleased (path ++ trim_space input ∷ []) phase_continue inputs sent screens
      → IsReleased path phase
          (input ∷ inputs)
          (request session_id msisdn shortcode path phase ∷ sent)
          (resp ∷ screens)
  IsReleased-next input inputs path phase sent resp screens on (inl (over, log)) = inl (
    ended_before resp screens on ∙ over,
    ap (λ l. request session_id msisdn shortcode path phase ∷ l) log,
  )
  IsReleased-next input inputs path phase sent resp screens on (inr (left, count, log)) =
      let typed = append_assoc path (trim_space input ∷ []) (map trim_space inputs) in
      inr (
        ended_before resp screens on ∙ left,
        ap suc count,
        ap (λ l. request session_id msisdn shortcode path phase ∷ l)
            (log
              ∙ ap
                  (λ p.
                    asked (length screens) (path ++ trim_space input ∷ []) phase_continue inputs
                    ++ request session_id msisdn shortcode p phase_cancel ∷ [])
                  typed),
      )

  module _ (g : Gateway) where
    -- What a dialogue leaves: its log, its screens and its result.
    abbrev Left : Type 0
    Left = (logged g).State × List Response × Result SendError Unit

    abbrev dialled_from : g.State → List Request → List Text → Phase → List Text → Left
    dialled_from σ log path phase inputs =
        dial (logged g) session_id msisdn shortcode (σ, log) path phase inputs

    cancel_log :
        (σ : g.State) (log : List Request) (path : List Text)
        → (cancel (logged g) session_id msisdn shortcode (σ, log) path).0.1
          ≡ log ++ request session_id msisdn shortcode path phase_cancel ∷ []
    unfolding cancel send
    cancel_log σ log path =
        let last = request session_id msisdn shortcode path phase_cancel in
        elim (Result-cases (received (logged g) last (g.post σ last).1)) [
          | inl (done, sent) ↦ rw (cancel, sent) refl
          | inr (e, lost) ↦ rw (cancel, lost) refl
        ]

    dial-IsReleased :
        (inputs path : List Text) (phase : Phase) (σ : g.State) (log : List Request)
        → (dialled_from σ log path phase inputs).2 ≡ ok tt
        → (sent : List Request) × ((dialled_from σ log path phase inputs).0.1 ≡ log ++ sent)
          × IsReleased path phase inputs sent (dialled_from σ log path phase inputs).1
    unfolding dial send
    dial-IsReleased [] path phase σ log h =
        let first = request session_id msisdn shortcode path phase in
        let last = request session_id msisdn shortcode path phase_cancel in
        elim (Result-cases (received (logged g) first (g.post σ first).1)) [
          | inr (e, lost) ↦ absurd (ground (arith, rw (lost, dial) at h))
          | inl (resp, got) ↦ elim (Bool-cases resp.end_session) [
            | inl over ↦ rw (got, dial, over) (first ∷ [], refl, inl (over, refl))
            | inr on ↦
                rw (got, dial, on)
                  (
                    first ∷ last ∷ [],
                    cancel_log (g.post σ first).0 (log ++ first ∷ []) path
                        ∙ append_assoc log (first ∷ []) (last ∷ []),
                    inr (
                      on,
                      refl,
                      ap (λ p. first ∷ request session_id msisdn shortcode p phase_cancel ∷ [])
                          (sym (append-nil path)),
                    ),
                  )
          ]
        ]
    dial-IsReleased (input ∷ inputs) path phase σ log h =
        let first = request session_id msisdn shortcode path phase in
        elim (Result-cases (received (logged g) first (g.post σ first).1)) [
          | inr (e, lost) ↦ absurd (ground (arith, rw (lost, dial) at h))
          | inl (resp, got) ↦ elim (Bool-cases resp.end_session) [
            | inl over ↦ rw (got, dial, over) (first ∷ [], refl, inl (over, refl))
            | inr on ↦
                let path' = path ++ trim_space input ∷ [] in
                let (sent, logs, released) =
                  dial-IsReleased inputs path' phase_continue (g.post σ first).0 (log ++ first ∷ [])
                    (rw (got, dial, on) at h) in
                rw (got, dial, on)
                  (
                    first ∷ sent,
                    logs ∙ append_assoc log (first ∷ []) sent,
                    IsReleased-next input inputs path phase sent resp _ on released,
                  )
          ]
        ]

-- A dialogue of the handset that ends without an error has sent one request for each screen, the first
-- to begin it and the others with everything typed so far, and it is released: the last screen ended
-- the session, or all that was typed was sent and then a cancellation.
pub run-IsReleased :
    (session_id msisdn shortcode : Text) (g : Gateway) (σ : g.State) (inputs : List Text)
    → (run (logged g) session_id msisdn shortcode (σ, []) inputs).2 ≡ ok tt
    → IsReleased session_id msisdn shortcode [] phase_begin inputs
        (run (logged g) session_id msisdn shortcode (σ, []) inputs).0.1
        (run (logged g) session_id msisdn shortcode (σ, []) inputs).1
run-IsReleased session_id msisdn shortcode g σ inputs h =
    let (sent, logs, released) =
      dial-IsReleased session_id msisdn shortcode g inputs [] phase_begin σ [] h in
    subst
      (λ l.
        IsReleased session_id msisdn shortcode [] phase_begin inputs l
          (run (logged g) session_id msisdn shortcode (σ, []) inputs).1)
      (sym logs) released
