-- ===== src/Identity/Verifier/Acceptance.antt =====
-- identity/verifier.go: what a token has to pass.
use go_ai.Prelude.{
  ◌≡◌, ap, ◌∙◌, ◌⊎◌, inl, inr, true, none, some, [], ◌∷◌, ok, arith, Bool-cases, Option-cases,
  Result-cases,
}
use go_ai.Text.{Text}
use go_ai.Identity.Config.{Claims}
use go_ai.Identity.Verifier.{
  Jwx, Headers, JwksVerifier, algorithm_allowed, key_set, refresh_key_set, signing_key,
  validate_options, protected_headers, check_claims, check_signature, verify_with_keys, verify,
}
use go_ai.Identity.Verifier.Stable.{
  same_trans, key_set-same, signing_key-same, validate_options-same,
}
use go_ai.Identity.Verifier.Fetched.{IsFetched, key_set-IsKeySet, refresh_key_set-IsRefreshed}

module _ {W : Type 0} (jwx : Jwx W) where
  open jwx use {Key, KeySet, Token, Cache}

  -- What an accepted token has passed.
  pub record IsVerified (raw : Text) (v : JwksVerifier jwx) (w : W) (claims : Claims) : Type 0 where
    pub headers : Headers
    pub only_signature : jwx.parse_jws raw ≡ ok (headers ∷ [])
    pub allowed : algorithm_allowed headers.algorithm ≡ true
    pub set : KeySet
    pub fetched : IsFetched jwx v w set
    pub key : Key
    pub named : jwx.lookup_key_id set headers.key_id ≡ some key
    pub token : Token
    pub signed : jwx.parse_verified raw headers.algorithm key ≡ ok token
    pub at : W
    pub valid : jwx.validate token (validate_options jwx v) at ≡ none
    pub read : jwx.as_map token ≡ ok claims

  signing_key-named :
      (set : KeySet) (kid : Text) (v : JwksVerifier jwx) (w : W) (key : Key)
      → (signing_key jwx set kid v w).0 ≡ ok key
      → (jwx.lookup_key_id set kid ≡ some key)
        ⊎ ((other : KeySet) × ((refresh_key_set jwx v w).0 ≡ ok (some other))
            × (jwx.lookup_key_id other kid ≡ some key))
  unfolding signing_key
  signing_key-named set kid v w key h = elim (Option-cases (jwx.lookup_key_id set kid)) [
    | inr (k, found) ↦ inl (ground arith)
    | inl missing ↦ elim (Result-cases (refresh_key_set jwx v w).0) [
      | inr (e, failed) ↦ ground arith
      | inl (o, got) ↦ elim (Option-cases o) [
        | inl declined ↦ ground arith
        | inr (other, there) ↦ elim (Option-cases (jwx.lookup_key_id other kid)) [
          | inl absent ↦ ground arith
          | inr (k, found) ↦ inr (other, got ∙ ap ok there, ground arith)
        ]
      ]
    ]
  ]

  check_signature-ok :
      (v : JwksVerifier jwx) (raw alg : Text) (key : Key) (w : W) (claims : Claims)
      → check_signature jwx v raw alg key w ≡ ok claims
      → (token : Token) × (jwx.parse_verified raw alg key ≡ ok token)
        × (jwx.validate token (validate_options jwx v) w ≡ none)
        × (jwx.as_map token ≡ ok claims)
  unfolding check_signature check_claims
  check_signature-ok v raw alg key w claims h =
      elim (Result-cases (jwx.parse_verified raw alg key)) [
        | inr (e, failed) ↦ ground arith
        | inl (token, parsed) ↦ (token, parsed, ground arith, ground arith)
      ]

  fetched_set :
      (v : JwksVerifier jwx) (w : W) (set : KeySet)
      → (kid : Text) (key : Key) → (key_set jwx v w).0 ≡ ok set
      → (signing_key jwx set kid (key_set jwx v w).1 (key_set jwx v w).2).0 ≡ ok key
      → (held : KeySet) × IsFetched jwx v w held × (jwx.lookup_key_id held kid ≡ some key)
  fetched_set v w set kid key got h =
      let v₁ = (key_set jwx v w).1 in
      let w₁ = (key_set jwx v w).2 in
      elim (signing_key-named set kid v₁ w₁ key h) [
        | inl found ↦ (set, inl (key_set-IsKeySet jwx v w set got), found)
        | inr (other, refreshed, found) ↦
            (other, inr (refresh_key_set-IsRefreshed jwx v₁ w₁ other refreshed), found)
      ]

  verify_with_keys-IsVerified :
      (raw : Text) (headers : Headers) (v : JwksVerifier jwx) (w : W) (claims : Claims)
      → jwx.parse_jws raw ≡ ok (headers ∷ [])
      → algorithm_allowed headers.algorithm ≡ true
      → (verify_with_keys jwx raw headers v w).0 ≡ ok claims
      → IsVerified raw v w claims
  unfolding verify_with_keys
  verify_with_keys-IsVerified raw headers v w claims one allowed h =
      let v₁ = (key_set jwx v w).1 in
      let w₁ = (key_set jwx v w).2 in
      elim (Result-cases (key_set jwx v w).0) [
        | inr (e, failed) ↦ ground arith
        | inl (set, got) ↦
            let signing = signing_key jwx set headers.key_id v₁ w₁ in
            elim (Result-cases signing.0) [
              | inr (e, failed) ↦ ground arith
              | inl (key, signed) ↦
                  let checked : check_signature jwx signing.1 raw headers.algorithm key signing.2
                      ≡ ok claims =
                    ground arith in
                  let (token, parsed, valid, read) =
                    check_signature-ok signing.1 raw headers.algorithm key signing.2 claims
                      checked in
                  let (held, fetched, named) = fetched_set v w set headers.key_id key got signed in
                  let same =
                    same_trans jwx v v₁ signing.1 (key_set-same jwx v w)
                      (signing_key-same jwx set headers.key_id v₁ w₁) in
                  record {
                    headers = headers;
                    only_signature = one;
                    allowed = allowed;
                    set = held;
                    fetched = fetched;
                    key = key;
                    named = named;
                    token = token;
                    signed = parsed;
                    at = signing.2;
                    valid =
                        ap (λ o. jwx.validate token o signing.2)
                          (validate_options-same jwx v signing.1 same)
                        ∙ valid;
                    read = read;
                  }
            ]
      ]

  protected_headers-ok :
      (raw : Text) (headers : Headers)
      → protected_headers jwx raw ≡ ok headers
      → jwx.parse_jws raw ≡ ok (headers ∷ [])
  unfolding protected_headers
  protected_headers-ok raw headers h = ground arith

  -- An accepted token has exactly one signature, by RS256 or ES256, which the key that its header
  -- names verifies; the key is of the set that the verifier has at this call, from its cache for its own
  -- endpoint, or of the set that a refresh then answers with; and the claims have passed the checks for
  -- the verifier's issuer and audience.
  pub verify-IsVerified :
      (raw : Text) (v : JwksVerifier jwx) (w : W) (claims : Claims)
      → (verify jwx raw v w).0 ≡ ok claims
      → IsVerified raw v w claims
  unfolding verify
  verify-IsVerified raw v w claims h = elim (Option-cases (jwx.parse_insecure raw)) [
    | inr (e, failed) ↦ ground arith
    | inl parses ↦ elim (Result-cases (protected_headers jwx raw)) [
      | inr (e, failed) ↦ ground arith
      | inl (headers, got) ↦ elim (Bool-cases (algorithm_allowed headers.algorithm)) [
        | inr refused ↦ ground arith
        | inl allowed ↦
            verify_with_keys-IsVerified raw headers v w claims
              (protected_headers-ok raw headers got) allowed
              (rw (parses, got, allowed, verify) at h)
      ]
    ]
  ]
