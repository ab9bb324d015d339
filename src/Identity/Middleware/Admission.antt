-- ===== src/Identity/Middleware/Admission.antt =====
-- What the gate lets through, and how it answers what it does not.
use go_ai.Prelude.{
  ℕ, ◌≡◌, refl, sym, ◌∙◌, inl, inr, ◌≢◌, Bool, true, false, some, [], ◌∷◌, Result, ok, err, arith,
  All, Elem, Bool-cases, Result-cases, if◌then◌else◌,
}
use go_ai.Text.{Text}
use go_ai.Agent.Graph.{is_empty}
use go_ai.Identity.Config.{OauthConfig, Claims, requires_auth}
use go_ai.Identity.Code
use go_ai.Identity.Errors.{Fault, verifier_panicked, wrap}
use go_ai.Identity.Context.{Context, context_with_user, context_with_token}
use go_ai.Identity.Claims.{extract_scopes, missing_scopes}
use go_ai.Identity.Claims.Scopes.{missing_scopes_iff}
use go_ai.Identity.Middleware.{
  Verdict, accepted, refused, panicked, TokenVerifier, Request, Outcome, served, write_error, Gate,
  adjudicate, reject_verify_error, verified_user, admit, decide, token_of, get_verifier, serve,
}

-- The ways in which a request reaches the handler with the context `ctx`: without a token where the
-- policy asks for none, and then with its own context; or with a token that a verifier accepted, with
-- every required scope, and then with the user and the token added to its context.
pub data Admitted {W : Type 0} (config : OauthConfig) (verifier : Result Fault (TokenVerifier W))
    (r : Request) (w : W) (ctx : Context) : Type 0 where
  anonymous :
      token_of r ≡ []
      → requires_auth config ≡ false
      → ctx ≡ r.context
      → Admitted config verifier r w ctx
  verified :
      (verify : TokenVerifier W) (claims : Claims)
      → is_empty (token_of r) ≡ false
      → verifier ≡ ok verify
      → (verify r.context (token_of r) w).0 ≡ accepted claims
      → All (λ scope. Elem scope (extract_scopes claims)) config.scopes
      → ctx
        ≡ context_with_token
            (context_with_user r.context (some (verified_user claims)))
            (token_of r)
      → Admitted config verifier r w ctx

admit-served :
    (config : OauthConfig) (ctx : Context) (token : Text) (claims : Claims) (ctx' : Context)
    → admit config ctx token claims ≡ served ctx'
    → All (λ scope. Elem scope (extract_scopes claims)) config.scopes
      × (ctx' ≡ context_with_token (context_with_user ctx (some (verified_user claims))) token)
unfolding admit write_error
admit-served config ctx token claims ctx' h =
    elim (Bool-cases (missing_scopes config.scopes (extract_scopes claims))) [
      | inl missing ↦ ground arith
      | inr held ↦ ((missing_scopes_iff config.scopes (extract_scopes claims)).0 held, ground arith)
    ]

reject-ne-served :
    (gone : Bool) (e : Fault) (ctx : Context) → reject_verify_error gone e ≢ served ctx
unfolding reject_verify_error write_error
reject-ne-served gone e ctx = ground arith

decide-served :
    (gone : Bool) (config : OauthConfig) (ctx : Context) (token : Text) (verdict : Verdict)
    (ctx' : Context)
    → decide gone config ctx token verdict ≡ served ctx'
    → (claims : Claims) × (verdict ≡ accepted claims)
      × (admit config ctx token claims ≡ served ctx')
unfolding decide adjudicate
decide-served gone config ctx token (accepted claims) ctx' h = (claims, refl, h)
decide-served gone config ctx token (refused e) ctx' h = absurd (reject-ne-served gone e ctx' h)
decide-served gone config ctx token (panicked p) ctx' h =
    absurd (reject-ne-served gone (wrap verifier_panicked) ctx' h)

write_error-ne-served :
    (status : ℕ) (code : Text) (ctx : Context) → write_error status code ≢ served ctx
unfolding write_error
write_error-ne-served status code ctx = ground arith

eq-nil_of_is_empty : (t : Text) → is_empty t ≡ true → t ≡ []
eq-nil_of_is_empty [] h = refl
eq-nil_of_is_empty (c ∷ t) h = cc

module _ {W : Type 0} (build : OauthConfig → W → Result Fault (TokenVerifier W) × W)
    (is_done : W → Bool) (g : Gate W) (r : Request) (w : W) where
  abbrev found : Result Fault (TokenVerifier W)
  found = (get_verifier build is_done g w).0

  abbrev built_world : W
  built_world = (get_verifier build is_done g w).2

  serve-with_token :
      is_empty (token_of r) ≡ false
      → (verify : TokenVerifier W) → found ≡ ok verify
      → (serve build is_done g r w).0
        ≡ decide
            (is_done (verify r.context (token_of r) built_world).1)
            g.config
            r.context
            (token_of r)
            (verify r.context (token_of r) built_world).0
  unfolding serve
  serve-with_token present verify h = rw (present, h, serve)

  serve-unconfigured :
      is_empty (token_of r) ≡ false
      → (e : Fault) → found ≡ err e
      → (serve build is_done g r w).0 ≡ write_error 503 Code.not_configured
  unfolding serve
  serve-unconfigured present e h = rw (present, h, serve)

  serve-without_token :
      is_empty (token_of r) ≡ true
      → (serve build is_done g r w).0
        ≡ (if requires_auth g.config then write_error 401 Code.missing_token else served r.context)
  unfolding serve
  serve-without_token absent = rw (absent, serve)

  anonymous-served :
      (ctx : Context)
      → ◌≡◌ {A = Outcome}
          (if requires_auth g.config then write_error 401 Code.missing_token else served r.context)
          (served ctx)
      → (requires_auth g.config ≡ false) × (ctx ≡ r.context)
  unfolding write_error
  anonymous-served ctx h = ground arith

  -- The handler runs only for a request that was admitted in one of the two ways.
  pub serve-Admitted :
      (ctx : Context)
      → (serve build is_done g r w).0 ≡ served ctx
      → Admitted g.config found r built_world ctx
  unfolding serve
  serve-Admitted ctx h = elim (Bool-cases (is_empty (token_of r))) [
    | inl absent ↦
        anonymous (eq-nil_of_is_empty (token_of r) absent)
          (anonymous-served ctx (sym (serve-without_token absent) ∙ h)).0
          (anonymous-served ctx (sym (serve-without_token absent) ∙ h)).1
    | inr present ↦ elim (Result-cases found) [
      | inl (verify, ready) ↦
          let answer = verify r.context (token_of r) built_world in
          let (claims, yes_claims, admitted) =
            decide-served (is_done answer.1) g.config r.context (token_of r) answer.0 ctx
              (sym (serve-with_token present verify ready) ∙ h) in
          let (held, same) = admit-served g.config r.context (token_of r) claims ctx admitted in
          verified verify claims present ready yes_claims held same
      | inr (e, failed) ↦ absurd (
          write_error-ne-served 503 Code.not_configured ctx
            (sym (serve-unconfigured present e failed) ∙ h))
    ]
  ]
