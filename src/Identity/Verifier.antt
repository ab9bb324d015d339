-- ===== src/Identity/Verifier.antt =====
-- identity/verifier.go: the JWKS verifier. The jwx library, which parses and checks tokens and keeps
-- the key cache, is a parameter.
pub mod Stable
pub mod Fetched
pub mod Acceptance
pub mod Closed
mod Tests
pub use go_ai.Identity.Jwx.{Headers, ValidateOptions, ValidationError, Jwx}
use go_ai.Prelude.{
  ℕ, ◌+◌, ◌-◌, Bool, true, false, not, ◌&&◌, ◌||◌, Option, none, some, List, [], ◌∷◌, ◌++◌, Result,
  ok, err, ltb, if◌then◌else◌,
}
use go_ai.Text.{Text, codes, ◌==◌, contains}
use go_ai.Agent.Graph.{is_empty}
use go_ai.Identity.Config.{Claims}
use go_ai.Identity.Code
use go_ai.Identity.Errors.{
  Fault, not_ready, verifier_closed, plain, wrap, wrap_two, token_verification_error,
}

-- Seconds.
abbrev pub clock_skew : ℕ
clock_skew = 120

abbrev pub jwks_forced_refresh_interval : ℕ
jwks_forced_refresh_interval = 30

abbrev pub allowed_algorithms : List Text
allowed_algorithms = codes "RS256" ∷ codes "ES256" ∷ []

unfoldable pub algorithm_allowed : Text → Bool
unfolding contains
algorithm_allowed alg = contains alg allowed_algorithms

unfoldable pub code_for_validation_error : ValidationError → Text
code_for_validation_error e =
    if e.is_expired
    then Code.expired
    else if e.is_invalid_issuer
    then Code.invalid_issuer
    else if e.is_invalid_audience
    then Code.invalid_audience
    else Code.invalid_token

abbrev nonempty : Text → Option Text
nonempty [] = none
nonempty (c ∷ t) = some (c ∷ t)

module _ {W : Type 0} (jwx : Jwx W) where
  open jwx use {Key, KeySet, Token, Cache}

  -- The overrides `keys` and `refreshKeys` of the tests, none for nil.
  abbrev pub Fetch : Type 0
  Fetch = W → Result Fault KeySet × W

  -- `cache` is none for nil; `cancel` is not nil exactly when `cache` is not. The zero time of
  -- `lastForcedRefresh` is none.
  pub record JwksVerifier : Type 0 where
    pub issuer : Text
    pub jwks_uri : Text
    pub audience : Text
    pub cache : Option Cache
    pub closed : Bool
    pub last_forced_refresh : Option ℕ
    pub keys : Option Fetch
    pub refresh_keys : Option Fetch

  unfoldable pub new_jwks_verifier : Text → Text → Text → JwksVerifier
  new_jwks_verifier issuer jwks_uri audience = record {
    issuer = issuer;
    jwks_uri = jwks_uri;
    audience = audience;
    cache = none;
    closed = false;
    last_forced_refresh = none;
    keys = none;
    refresh_keys = none;
  }

  unfoldable pub close : JwksVerifier → W → JwksVerifier × W
  close v w =
      let w' : W = elim v.cache [ none ↦ w | some c ↦ jwx.cancel c w ] in
      (record v { closed = true; cache = none }, w')

  -- The key cache, made on first use.
  unfoldable pub jwks_cache : JwksVerifier → W → Result Fault Cache × JwksVerifier × W
  jwks_cache v w = if v.closed then (err verifier_closed, v, w) else (elim v.cache [
    | some c ↦ (ok c, v, w)
    | none ↦
        let (fresh, w₁) = jwx.new_cache w in
        let (failed, w₂) = jwx.register fresh v.jwks_uri w₁ in
        elim failed [
          | some e ↦ (err (wrap (plain e)), v, jwx.cancel fresh w₂)
          | none ↦ (ok fresh, record v { cache = some fresh }, w₂)
        ]
  ])

  abbrev fetched : Result Text KeySet → Result Fault KeySet
  fetched (ok set) = ok set
  fetched (err e) = err (wrap (plain e))

  -- `cache.Get` and `cache.Refresh` differ only in the call that is made.
  unfoldable pub from_cache :
      (Cache → Text → W → Result Text KeySet × W)
      → JwksVerifier
      → W
      → Result Fault KeySet × JwksVerifier × W
  unfolding jwks_cache
  from_cache fetch v w =
      let (found, v', w₁) = jwks_cache v w in
      elim found [
        | err e ↦ (err e, v', w₁)
        | ok cache ↦ let (set, w₂) = fetch cache v.jwks_uri w₁ in (fetched set, v', w₂)
      ]

  unfoldable pub key_set : JwksVerifier → W → Result Fault KeySet × JwksVerifier × W
  unfolding from_cache
  key_set v w = elim v.keys [
    | some fetch ↦ let (set, w') = fetch w in (set, v, w')
    | none ↦ from_cache jwx.get v w
  ]

  unfoldable pub warm : JwksVerifier → W → Option Fault × JwksVerifier × W
  unfolding key_set
  warm v w =
      let (set, v', w') = key_set v w in
      elim set [ ok s ↦ (none, v', w') | err e ↦ (some e, v', w') ]

  unfoldable pub allow_forced_refresh : JwksVerifier → W → Bool × JwksVerifier
  allow_forced_refresh v w =
      let recorded = record v { last_forced_refresh = some (jwx.now w) } in
      elim v.last_forced_refresh [
        | none ↦ (true, recorded)
        | some last ↦
            if ltb (jwx.now w - last) jwks_forced_refresh_interval
            then (false, v)
            else (true, recorded)
      ]

  unfoldable pub forced_fetch : JwksVerifier → W → Result Fault KeySet × JwksVerifier × W
  unfolding from_cache
  forced_fetch v w = elim v.refresh_keys [
    | some fetch ↦ let (set, w') = fetch w in (set, v, w')
    | none ↦ elim v.keys [
      | some fetch ↦ let (set, w') = fetch w in (set, v, w')
      | none ↦ from_cache jwx.refresh v w
    ]
  ]

  abbrev some_set : Result Fault KeySet → Result Fault (Option KeySet)
  some_set (ok set) = ok (some set)
  some_set (err e) = err e

  -- A nil set where the rate limit declines.
  unfoldable pub refresh_key_set :
      JwksVerifier → W → Result Fault (Option KeySet) × JwksVerifier × W
  unfolding allow_forced_refresh forced_fetch
  refresh_key_set v w =
      let (allowed, v₁) = allow_forced_refresh v w in
      if allowed
      then (let (set, v₂, w') = forced_fetch v₁ w in (some_set set, v₂, w'))
      else (ok none, v₁, w)

  abbrev key_in : Option KeySet → Text → Option Key
  key_in none kid = none
  key_in (some set) kid = jwx.lookup_key_id set kid

  abbrev named_key : Option Key → Result Fault Key
  named_key none = err (wrap not_ready)
  named_key (some key) = ok key

  unfoldable pub signing_key :
      KeySet → Text → JwksVerifier → W → Result Fault Key × JwksVerifier × W
  unfolding refresh_key_set
  signing_key set kid v w = elim (jwx.lookup_key_id set kid) [
    | some key ↦ (ok key, v, w)
    | none ↦
        let (refreshed, v', w') = refresh_key_set v w in
        elim refreshed [
          | err e ↦ (err (wrap_two not_ready e), v', w')
          | ok found ↦ (named_key (key_in found kid), v', w')
        ]
  ]

  unfoldable pub validate_options : JwksVerifier → ValidateOptions
  validate_options v = record {
    skew = clock_skew;
    required = codes "exp" ∷ codes "iss" ∷ codes "sub" ∷ [];
    issuer = nonempty v.issuer;
    audience = nonempty v.audience;
  }

  -- The protected header of the only signature.
  unfoldable pub protected_headers : Text → Result Fault Headers
  protected_headers raw = elim (jwx.parse_jws raw) [
    | err e ↦ err (plain e)
    | ok [] ↦ err (plain (codes "token carries no signature"))
    | ok (h ∷ []) ↦ ok h
    | ok (h ∷ k ∷ hs) ↦ err (plain (codes "token carries several signatures, want exactly 1"))
  ]

  unfoldable pub check_claims : JwksVerifier → Token → W → Result Fault Claims
  unfolding validate_options code_for_validation_error token_verification_error
  check_claims v token w = elim (jwx.validate token (validate_options v) w) [
    | some e ↦ err (token_verification_error (code_for_validation_error e) (plain e.detail))
    | none ↦ elim (jwx.as_map token) [
      | err e ↦ err (token_verification_error Code.decode_error (plain e))
      | ok claims ↦ ok claims
    ]
  ]

  unfoldable pub check_signature : JwksVerifier → Text → Text → Key → W → Result Fault Claims
  unfolding check_claims token_verification_error
  check_signature v raw alg key w = elim (jwx.parse_verified raw alg key) [
    | err e ↦ err (token_verification_error Code.invalid_signature (plain e))
    | ok token ↦ check_claims v token w
  ]

  -- The part of `Verify` behind the algorithm check.
  unfoldable pub verify_with_keys :
      Text → Headers → JwksVerifier → W → Result Fault Claims × JwksVerifier × W
  unfolding key_set signing_key check_signature
  verify_with_keys raw headers v w =
      let (found, v₁, w₁) = key_set v w in
      elim found [
        | err e ↦ (err (wrap_two not_ready e), v₁, w₁)
        | ok set ↦
            let (key, v₂, w₂) = signing_key set headers.key_id v₁ w₁ in
            elim key [
              | err e ↦ (err e, v₂, w₂)
              | ok k ↦ (check_signature v₂ raw headers.algorithm k w₂, v₂, w₂)
            ]
      ]

  unfoldable pub verify : Text → JwksVerifier → W → Result Fault Claims × JwksVerifier × W
  unfolding protected_headers algorithm_allowed verify_with_keys token_verification_error
  verify raw v w = elim (jwx.parse_insecure raw) [
    | some e ↦ (err (token_verification_error Code.decode_error (plain e)), v, w)
    | none ↦ elim (protected_headers raw) [
      | err e ↦ (err (token_verification_error Code.decode_error e), v, w)
      | ok headers ↦
          if not (algorithm_allowed headers.algorithm)
          then (err (token_verification_error Code.invalid_token (plain headers.algorithm)), v, w)
          else verify_with_keys raw headers v w
    ]
  ]
