-- ===== src/Identity/Middleware.antt =====
-- identity/middleware.go: the gate that every inbound request passes. The world `W` holds what the
-- verifiers and the clock of the request's context change. How a verifier is built is an argument,
-- which `Identity.Discovery` fills.
pub mod Admission
pub mod Answers
use go_ai.Prelude.{
  ℕ, Bool, true, false, Option, none, some, List, [], ◌∷◌, Result, ok, err, if◌then◌else◌,
}
use go_ai.Text.{Text, codes}
use go_ai.Dict.{Dict, lookup}
use go_ai.Agent.Graph.{is_empty}
use go_ai.Identity.Config.{OauthConfig, Claims, VerifiedUser, requires_auth, user_token_header}
use go_ai.Identity.Code
use go_ai.Identity.Errors.{
  Fault, verifier_panicked, wrap, is_not_ready, as_token_error, status_for_code,
}
use go_ai.Identity.Context.{Context, Header, context_with_user, context_with_token}
use go_ai.Identity.Claims.{extract_scopes, missing_scopes, string_claim, tenant_claim}
use go_ai.Identity.Token.{trim_bearer}

-- What a call of `Verify` comes to: a panic is an outcome of its own.
pub data Verdict : Type 0 where
  accepted : Claims → Verdict
  refused : Fault → Verdict
  panicked : Text → Verdict

abbrev pub TokenVerifier : Type 0 → Type 0
TokenVerifier W = Context → Text → W → Verdict × W

-- `error` is the value of the one field of the JSON body.
pub record Response : Type 0 where
  pub status : ℕ
  pub content_type : Text
  pub cache_control : Text
  pub error : Text

pub record Request : Type 0 where
  pub header : Header
  pub context : Context

-- `abandoned` answers nothing: the caller is gone. `served` calls the next handler.
pub data Outcome : Type 0 where
  answered : Response → Outcome
  abandoned : Outcome
  served : Context → Outcome

unfoldable pub write_error : ℕ → Text → Outcome
write_error status code = answered (record {
  status = status;
  content_type = codes "application/json";
  cache_control = codes "no-store";
  error = code;
})

-- `Header.Get` under a canonical name: the first value, or the empty string.
abbrev first_value : Option (List Text) → Text
first_value none = []
first_value (some []) = []
first_value (some (v ∷ vs)) = v

-- The `oauthGate`: `verifier` is none until it is supplied or built.
pub record Gate (W : Type 0) : Type 0 where
  pub config : OauthConfig
  pub verifier : Option (TokenVerifier W)

-- `Middleware`, with the verifier of `WithVerifier`, if any.
unfoldable pub new_gate : {W : Type 0} → OauthConfig → Option (TokenVerifier W) → Gate W
new_gate cfg verifier = record { config = cfg; verifier = verifier }

-- `recover` turns a panic into an error.
unfoldable pub adjudicate : Verdict → Result Fault Claims
adjudicate (accepted claims) = ok claims
adjudicate (refused e) = err e
adjudicate (panicked p) = err (wrap verifier_panicked)

-- `gone` says that the request's context is done.
unfoldable pub reject_verify_error : Bool → Fault → Outcome
reject_verify_error gone e =
    if is_not_ready e then write_error 503 Code.verifier_unavailable else (elim (as_token_error e) [
      | some code ↦ write_error (status_for_code code) code
      | none ↦ if gone then abandoned else write_error 503 Code.verifier_unavailable
    ])

unfoldable pub verified_user : Claims → VerifiedUser
verified_user claims = record {
  subject = string_claim claims (codes "sub");
  tenant = tenant_claim claims;
  scopes = extract_scopes claims;
  claims = claims;
  issuer_id = string_claim claims (codes "iss");
}

-- The part of `serve` behind a successful verification.
unfoldable pub admit : OauthConfig → Context → Text → Claims → Outcome
admit config ctx token claims =
    if missing_scopes config.scopes (extract_scopes claims)
    then write_error 403 Code.missing_scope
    else served (context_with_token (context_with_user ctx (some (verified_user claims))) token)

unfoldable pub decide : Bool → OauthConfig → Context → Text → Verdict → Outcome
decide gone config ctx token verdict = elim (adjudicate verdict) [
  | err e ↦ reject_verify_error gone e
  | ok claims ↦ admit config ctx token claims
]

unfoldable pub token_of : Request → Text
token_of r = trim_bearer (first_value (lookup user_token_header r.header))

module _ {W : Type 0} (build : OauthConfig → W → Result Fault (TokenVerifier W) × W)
    (is_done : W → Bool) where
  -- `getVerifier`: a failed build is not kept.
  unfoldable pub get_verifier : Gate W → W → Result Fault (TokenVerifier W) × Gate W × W
  get_verifier g w = elim g.verifier [
    | some v ↦ (ok v, g, w)
    | none ↦
        let (built, w') = build g.config w in
        elim built [ err e ↦ (err e, g, w') | ok v ↦ (ok v, record g { verifier = some v }, w') ]
  ]

  unfoldable pub serve : Gate W → Request → W → Outcome × Gate W × W
  serve g r w =
      let token = token_of r in
      if is_empty token
      then (
        (if requires_auth g.config then write_error 401 Code.missing_token else served r.context),
        g,
        w,
      )
      else (let (found, g', w₁) = get_verifier g w in
          elim found [
            | err e ↦ (write_error 503 Code.not_configured, g', w₁)
            | ok verify ↦
                let (verdict, w₂) = verify r.context token w₁ in
                (decide (is_done w₂) g.config r.context token verdict, g', w₂)
          ])
