-- ===== src/Http/Admission.antt =====
-- Which requests reach a handler.
use systemd_monitoring_mcp.Base.{
  ℕ, ◌≤◌, ◌≡◌, refl, ◌↔◌, true, false, Option, none, some, [], arith, ok, err, is_ok, Bool-cases,
  Option-cases, Result-cases, inl, inr, max,
}
use systemd_monitoring_mcp.Text.{Text, text, text_eq}
use systemd_monitoring_mcp.Json.{json_object}
use systemd_monitoring_mcp.Text.Laws.{text_eq→≡, text_eq_refl}
use systemd_monitoring_mcp.Errors.{
  AppError, new_too_many_requests, into_response, Response, error_body,
}
use systemd_monitoring_mcp.Env.{Env}
use systemd_monitoring_mcp.RateLimit.Floats.{Float}
use systemd_monitoring_mcp.RateLimit.{RateLimiter, check_at}
use systemd_monitoring_mcp.RateLimit.Bucket.{check_at_rejected}
use systemd_monitoring_mcp.Server.Version.{Kit}
use systemd_monitoring_mcp.Http.{
  Web, HttpRequest, is_protected, bearer_token_matches, require_bearer_token, authorize, serve,
}

-- The answer to a request over the limit
abbrev pub rate_limited : ℕ → Response
rate_limited retry = record {
  status = 429;
  body = error_body (record {
    code = text "rate_limit_exceeded";
    message = text "rate limit exceeded";
    details = json_object [];
  });
  retry_after = some retry;
}

module _ (web : Web) where
  own_token_passes :
      (api_token header : Text)
      → web.decode_bearer header ≡ some api_token
      → require_bearer_token web api_token (some header) ≡ ok tt
  unfolding require_bearer_token bearer_token_matches
  own_token_passes api_token header e =
      rw (require_bearer_token, e, bearer_token_matches, text_eq_refl (web.hmac api_token)) refl

  passes_by_tag :
      (api_token header token : Text)
      → web.decode_bearer header ≡ some token
      → web.hmac token ≡ web.hmac api_token
      → is_ok (require_bearer_token web api_token (some header)) ≡ true
  unfolding require_bearer_token bearer_token_matches
  passes_by_tag api_token header token e tags =
      rw (is_ok, e, tags, text_eq_refl (web.hmac api_token))

  passing_token :
      (api_token header : Text)
      → is_ok (require_bearer_token web api_token (some header)) ≡ true
      → (token : Text) × (web.decode_bearer header ≡ some token)
        × (web.hmac token ≡ web.hmac api_token)
  unfolding require_bearer_token bearer_token_matches
  passing_token api_token header h = elim (Option-cases (web.decode_bearer header)) [
    | inl e ↦ absurd (cc (rw (is_ok, e) at h))
    | inr (token, e) ↦ elim (Bool-cases (text_eq (web.hmac token) (web.hmac api_token))) [
      | inl same ↦ (token, e, text_eq→≡ _ _ same)
      | inr other ↦ absurd (cc (rw (is_ok, e, other) at h))
    ]
  ]

  refused_error :
      (api_token : Text) (header : Option Text) (error : AppError)
      → require_bearer_token web api_token header ≡ err error
      → ((into_response error).status ≡ 401) × ((into_response error).retry_after ≡ none)
  unfolding require_bearer_token into_response
  refused_error api_token none error h = ground arith
  refused_error api_token (some header) error h = ground arith

  -- A request passes exactly if its header is a bearer header with a token whose tag is the tag of the
  -- configured token, so that the configured token always passes; and every other request is refused
  -- with status 401.
  pub require_bearer_token_iff :
      (api_token : Text) (header : Option Text)
      → ((is_ok (require_bearer_token web api_token header) ≡ true) ↔ (
          (h : Text) × (token : Text) × (header ≡ some h)
          × (web.decode_bearer h ≡ some token)
          × (web.hmac token ≡ web.hmac api_token)))
        × ((h : Text)
            → header ≡ some h
            → web.decode_bearer h ≡ some api_token
            → require_bearer_token web api_token header ≡ ok tt)
        × ((error : AppError)
            → require_bearer_token web api_token header ≡ err error
            → ((into_response error).status ≡ 401) × ((into_response error).retry_after ≡ none))
  unfolding require_bearer_token
  require_bearer_token_iff api_token none =
      ((λ h. cc, λ (h, token, given, _, _). cc), λ h given. cc, refused_error api_token none)
  require_bearer_token_iff api_token (some header) = (
    (
      λ h.
          let (token, decoded, tags) = passing_token api_token header h in
          (header, token, refl, decoded, tags),
      λ (h, token, given, decoded, tags).
          let same : header ≡ h = cc given in
          passes_by_tag api_token header token (rw same decoded) tags,
    ),
    λ h given decoded.
        let same : header ≡ h = cc given in own_token_passes api_token header (rw same decoded),
    refused_error api_token (some header),
  )

module _ (f : Float) (web : Web) where
  refused :
      (env : Env) (kit : Kit) (api_token : Text) (r : HttpRequest)
      → is_protected r.route ≡ true
      → (error : AppError) → require_bearer_token web api_token r.authorization ≡ err error
      → authorize env kit web api_token r ≡ (into_response error, [])
  unfolding authorize
  refused env kit api_token r guarded error e = rw (guarded, e)

  -- Without the token a request to a protected route learns nothing and does nothing: its answer and
  -- the limiter that it leaves are the same whatever the providers, the clock and the protocol kit
  -- are, and nothing is audited.
  pub unauthorized_learns_nothing :
      (env other : Env) (kit other_kit : Kit) (api_token : Text) (limiter : RateLimiter f) (now : ℕ)
      (r : HttpRequest)
      → is_protected r.route ≡ true
      → is_ok (require_bearer_token web api_token r.authorization) ≡ false
      → (serve env kit web f api_token limiter now r
          ≡ serve other other_kit web f api_token limiter now r)
        × ((serve env kit web f api_token limiter now r).0.1 ≡ [])
  unfolding serve
  unauthorized_learns_nothing env other kit other_kit api_token limiter now r guarded h =
      elim (Result-cases (require_bearer_token web api_token r.authorization)) [
        | inl (_, e) ↦ absurd (cc (rw e at h))
        | inr (error, e) ↦
            let one = refused env kit api_token r guarded error e in
            let two = refused other other_kit api_token r guarded error e in
            elim (Result-cases (check_at f limiter now).0) [
              | inl (_, a) ↦ (rw (serve, a, one, two), rw (serve, a, one))
              | inr (_, a) ↦ (rw (serve, a), rw (serve, a))
            ]
      ]

  -- The limiter comes before everything else: a request that it rejects, whatever its route, its
  -- token and its body, is answered with status 429, the error body of the rate limit and the delay,
  -- of at least a second, and nothing is audited; one that it admits is answered by the layer of the
  -- token; and every request, known or not, takes one decision.
  pub serve_limited :
      (env : Env) (kit : Kit) (api_token : Text) (limiter : RateLimiter f) (now : ℕ)
      (r : HttpRequest)
      → ((serve env kit web f api_token limiter now r).1 ≡ (check_at f limiter now).1)
        × ((retry : ℕ)
            → (check_at f limiter now).0 ≡ err retry
            → ((serve env kit web f api_token limiter now r).0 ≡ (rate_limited retry, []))
              × (1 ≤ retry))
        × ((check_at f limiter now).0 ≡ ok tt
            → (serve env kit web f api_token limiter now r).0 ≡ authorize env kit web api_token r)
  unfolding serve new_too_many_requests into_response
  serve_limited env kit api_token limiter now r = (
    refl,
    λ retry e.
        let (least, _) = check_at_rejected f limiter now retry e in
        let clamp : max retry 1 ≡ retry = omega (arith, least) in
        (rw (serve, e, clamp, clamp), least),
    λ e. rw (serve, e),
  )
