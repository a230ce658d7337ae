-- ===== src/Sdk/Handler/Served.antt =====
-- `ServeHTTP` of sdk/go/handler.go: what a request went through that was answered.
use openussd.Prelude.{
  ℕ, ◌+◌, ◌≤◌, ◌≡◌, refl, sym, ◌∙◌, ap, subst, ◌⊎◌, ◌↔◌, [], inl, inr, true, not, ◌&&◌, Option,
  none, some, Result, ok, err, map_err, map_err-eq-ok, >>=-eq-ok, if_err-eq-ok, arith, Bool-cases,
  length, length-take, take, take_all, ltb, leb, if◌then◌else◌,
}
use openussd.Strings.{Text, codes, text_eq, is_empty}
use openussd.Strings.Equal.{is_empty_sound, text_eq_iff}
use openussd.Canonical.Event.{Response}
use openussd.Tenant.Router.Table.{ok-injective}
use openussd.Webhook.Envelope.{version, Request, Reply, normalise_state}
use openussd.Webhook.Sign.{SignatureError, verify, default_tolerance}
use openussd.Sdk.App.{App, Codec, TurnError, turn}
use openussd.Sdk.Handler.{
  Inbound, forbidden, unsupported_version, max_request_bytes, read_up_to, is_nil, reply_for,
  decoded, answered, serve,
}

read_up_to-eq-ok :
    (max : ℕ) (r : Inbound) (body : Text)
    → read_up_to max r ≡ ok body
    → (length r.body ≤ max) × (body ≡ r.body)
unfolding read_up_to
read_up_to-eq-ok max r body h =
    let (whole, h1) = if_err-eq-ok (r.broken && leb (length r.body) max) _ _ h in
    let (small, h2) =
      if_err-eq-ok (ltb max (length (take (max + 1) r.body))) _ (ok (take (max + 1) r.body)) h1 in
    let bound : length r.body ≤ max = ground (arith, length-take (max + 1) r.body, small) in
    (bound, sym (ok-injective h2) ∙ take_all (max + 1) r.body (omega (arith, bound)))

reply_for-eq-ok :
    (r : Result TurnError (Response × Option Text)) (reply : Reply)
    → reply_for r ≡ ok reply
    → (r ≡ ok (reply.response, reply.state)) × ((reply.clear_state ≡ true) ↔ (reply.state ≡ none))
unfolding reply_for
reply_for-eq-ok (err e) reply h = absurd (ground arith)
reply_for-eq-ok (ok (resp, state)) reply h =
    subst
      (λ (q : Reply).
        (◌≡◌ {A = Result TurnError (Response × Option Text)} (ok (resp, state))
          (ok (q.response, q.state)))
        × ((q.clear_state ≡ true) ↔ (q.state ≡ none)))
      (ok-injective h) (refl, is_nil_iff state)
  where
    is_nil_iff : (o : Option Text) → (is_nil o ≡ true) ↔ (o ≡ none)
    is_nil_iff none = ((λ e. refl), λ e. refl)
    is_nil_iff (some x) = ((λ e. ground arith), λ e. ground arith)

known_version :
    (v : Text)
    → (if not (is_empty v) && not (text_eq v version) then err unsupported_version else ok tt)
      ≡ ok tt
    → (v ≡ []) ⊎ (v ≡ version)
known_version v h = elim (Bool-cases (is_empty v)) [
  | inl nothing ↦ inl (is_empty_sound v nothing)
  | inr something ↦
      let (known, _) =
        if_err-eq-ok (not (is_empty v) && not (text_eq v version)) unsupported_version (ok tt) h in
      inr ((text_eq_iff v version).0 (ground (arith, something, known)))
]

module _ {S : Type 0} (hmac_hex : Text → Text → Text) (decode : Text → Option Request)
    (codec : Codec S) (a : App S) (secret : Text) (now : ℕ) where
  pub record IsServed (r : Inbound) (reply : Reply) : Type 0 where
    pub bounded : length r.body ≤ max_request_bytes
    pub signed : verify hmac_hex r.headers secret r.body now default_tolerance ≡ ok tt
    pub request : Request
    pub read : decode r.body ≡ some request
    pub understood : (request.version ≡ []) ⊎ (request.version ≡ version)
    pub turned :
        turn codec a request.event request.turn (normalise_state request.state)
        ≡ ok (reply.response, reply.state)
    pub cleared : (reply.clear_state ≡ true) ↔ (reply.state ≡ none)

  decoded-eq-ok :
      (body : Text) (req : Request)
      → decoded hmac_hex decode codec body ≡ ok req
      → decode body ≡ some req
  unfolding decoded
  decoded-eq-ok body req h = ground arith

  serve-IsServed :
      (r : Inbound) (reply : Reply)
      → serve hmac_hex decode codec a secret now r ≡ ok reply
      → IsServed r reply
  unfolding serve answered
  serve-IsServed r reply h =
      let (_, h1) = if_err-eq-ok (not (text_eq r.method (codes "POST"))) _ _ h in
      let (body, got, h2) = >>=-eq-ok (read_up_to max_request_bytes r) _ h1 in
      let (_, signed, h3) =
        >>=-eq-ok
          (map_err (λ (e : SignatureError). forbidden)
            (verify hmac_hex r.headers secret body now default_tolerance))
          _ h2 in
      let (req, understood, h4) = >>=-eq-ok (decoded hmac_hex decode codec body) _ h3 in
      let (_, known, h5) =
        >>=-eq-ok
          (if not (is_empty req.version) && not (text_eq req.version version)
            then err unsupported_version
            else ok tt)
          _ h4 in
      let (bounded, same) = read_up_to-eq-ok max_request_bytes r body got in
      let (turned, cleared) = reply_for-eq-ok _ reply h5 in
      record {
        bounded = bounded;
        signed =
            ap (λ b. verify hmac_hex r.headers secret b now default_tolerance) (sym same)
            ∙ map_err-eq-ok (λ (e : SignatureError). forbidden) _ signed;
        request = req;
        read = ap decode (sym same) ∙ decoded-eq-ok body req understood;
        understood = known_version req.version known;
        turned = turned;
        cleared = cleared;
      }

-- A request that the application answers was signed with the secret, within the size and the clock's
-- tolerance, and carries no version or the one that is known; the reply is that of one turn on its event
-- and normalised state, and it clears the gateway's state exactly if it carries none.
pub serve-ok :
    (S : Type 0) (hmac_hex : Text → Text → Text) (decode : Text → Option Request) (codec : Codec S)
    (a : App S) (secret : Text) (now : ℕ) (r : Inbound) (reply : Reply)
    → serve hmac_hex decode codec a secret now r ≡ ok reply
    → IsServed hmac_hex decode codec a secret now r reply
serve-ok S hmac_hex decode codec a secret now r reply h =
    serve-IsServed hmac_hex decode codec a secret now r reply h
