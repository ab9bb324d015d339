-- ===== src/Identity/Tests.antt =====
-- Requests through the gate and the transport, tokens through the verifier, and the theorems at them.
use go_ai.Prelude.{
  IsDistinct, ℕ, ◌+◌, ◌≡◌, refl, ◌↔◌, Bool, false, Option, none, some, [], ◌∷◌, Result, err, All,
  Elem, if◌then◌else◌,
}
use go_ai.Text.{Text, codes, ◌==◌, contains}
use go_ai.Text.Sort.{IsSorted, sort, insert_sorted, text_leb}
use go_ai.Text.Space.{trim_space, fields}
use go_ai.Dict.{lookup, insert, remove}
use go_ai.Value.{text}
use go_ai.Identity.Config.{OauthConfig, Claims, zero_config, requires_auth, user_token_header}
use go_ai.Identity.Code
use go_ai.Identity.Errors.{
  Fault, plain, token, wrap, is_not_ready, is_token_error, as_token_error, status_for_code,
  token_verification_error,
}
use go_ai.Identity.Context.{
  Context, context_with_user, context_with_token, token_from_context, outbound_identity_headers,
}
use go_ai.Identity.Claims.{
  scopes_of, unique_from, sorted_unique, extract_from, extract_scopes, missing_scopes, string_claim,
  tenant_claim, scope_claims,
}
use go_ai.Identity.Claims.Scopes.{missing_scopes_iff, raw_scopes, extract_scopes-IsSorted}
use go_ai.Identity.Token.{trim_bearer, strip_scheme, has_prefix_fold, lower_byte}
use go_ai.Identity.Middleware.{
  accepted, refused, TokenVerifier, Request, Outcome, served, write_error, new_gate, adjudicate,
  reject_verify_error, verified_user, admit, decide, token_of, get_verifier, serve,
}
use go_ai.Identity.Middleware.Admission.{Admitted, serve-Admitted}
use go_ai.Identity.Middleware.Answers.{IsRejection, reject_verify_error-IsRejection}

-- Every definition of the inbound side that the runs below compute with.
inbound : Unit {0}
unfolding lookup insert remove ◌==◌ contains sort insert_sorted text_leb trim_space fields
    requires_auth is_not_ready is_token_error as_token_error status_for_code
    token_verification_error context_with_user context_with_token token_from_context
    outbound_identity_headers scopes_of unique_from sorted_unique extract_from extract_scopes
    missing_scopes string_claim tenant_claim raw_scopes trim_bearer strip_scheme has_prefix_fold
    lower_byte new_gate write_error adjudicate reject_verify_error verified_user admit decide
    token_of get_verifier serve
inbound = tt

abbrev caller_claims : Claims
caller_claims =
    (codes "sub", text (codes "ann"))
    ∷ (codes "iss", text (codes "i"))
    ∷ (codes "scp", text (codes "w r w"))
    ∷ []

-- Accepts the token "t" alone, and counts its calls.
abbrev one_token : TokenVerifier ℕ
one_token ctx raw w = (
  if raw == codes "t" then accepted caller_claims else refused (token Code.expired (plain [])),
  w + 1,
)

abbrev no_build : OauthConfig → ℕ → Result Fault (TokenVerifier ℕ) × ℕ
no_build cfg w = (err (plain []), w)

abbrev never_done : ℕ → Bool
never_done w = false

abbrev policy : OauthConfig
policy = record zero_config { scopes = codes "r" ∷ [] }

abbrev asking : Text → Request
asking value = record { header = (user_token_header, value ∷ []) ∷ []; context = [] }

abbrev outcome_of : Option (TokenVerifier ℕ) → Text → Outcome
outcome_of verifier value =
    (serve no_build never_done (new_gate policy verifier) (asking value) 0).0

abbrev served_context : Context
unfolding inbound
served_context =
    context_with_token (context_with_user [] (some (verified_user caller_claims))) (codes "t")

gate_tests :
    (outcome_of (some one_token) (codes "Bearer t") ≡ served served_context)
    × (outcome_of (some one_token) (codes "x") ≡ write_error 401 Code.expired)
    × (outcome_of (some one_token) [] ≡ write_error 401 Code.missing_token)
    × (outcome_of none (codes "t") ≡ write_error 503 Code.not_configured)
    × (trim_bearer (codes "Bearer ") ≡ codes "Bearer")
    × (extract_scopes caller_claims ≡ codes "r" ∷ codes "w" ∷ [])
unfolding inbound
gate_tests = (refl, refl, refl, refl, refl, refl)

missing_scopes_iff_example :
    (missing_scopes (codes "r" ∷ []) (codes "w" ∷ codes "r" ∷ []) ≡ false)
    ↔ All (λ scope. Elem scope (codes "w" ∷ codes "r" ∷ [])) (codes "r" ∷ [])
missing_scopes_iff_example = missing_scopes_iff (codes "r" ∷ []) (codes "w" ∷ codes "r" ∷ [])

extract_scopes-IsSorted_example :
    IsSorted (extract_scopes caller_claims)
    × IsDistinct (extract_scopes caller_claims)
    × ((a : Text)
        → Elem a (extract_scopes caller_claims) ↔ Elem a (raw_scopes scope_claims caller_claims))
extract_scopes-IsSorted_example = extract_scopes-IsSorted caller_claims

let_in : outcome_of (some one_token) (codes "t") ≡ served served_context
unfolding inbound
let_in = refl

serve-Admitted_example :
    Admitted policy
      (get_verifier no_build never_done (new_gate policy (some one_token)) 0).0
      (asking (codes "t"))
      (get_verifier no_build never_done (new_gate policy (some one_token)) 0).2
      served_context
unfolding new_gate
serve-Admitted_example =
    serve-Admitted no_build never_done (new_gate policy (some one_token)) (asking (codes "t")) 0
      served_context let_in

abbrev expired_error : Fault
expired_error = wrap (token Code.expired (plain []))

reject_verify_error-IsRejection_example :
    IsRejection false expired_error (reject_verify_error false expired_error)
reject_verify_error-IsRejection_example = reject_verify_error-IsRejection false expired_error
