-- ===== src/Identity/Verifier/Stable.antt =====
-- identity/verifier.go: a verifier's coordinates stay what they were made.
use go_ai.Prelude.{◌≡◌, refl, ◌∙◌, inl, inr, Result, arith, Bool-cases, Option-cases, Result-cases}
use go_ai.Text.{Text}
use go_ai.Identity.Verifier.{
  Jwx, JwksVerifier, jwks_cache, from_cache, key_set, warm, allow_forced_refresh, forced_fetch,
  refresh_key_set, signing_key, validate_options,
}

module _ {W : Type 0} (jwx : Jwx W) where
  open jwx use {Key, KeySet, Token, Cache}

  -- The coordinates of a verifier never change.
  pub record SameCoordinates (v u : JwksVerifier jwx) : Type 0 where
    pub same_issuer : v.issuer ≡ u.issuer
    pub same_jwks_uri : v.jwks_uri ≡ u.jwks_uri
    pub same_audience : v.audience ≡ u.audience

  pub same_refl : (v : JwksVerifier jwx) → SameCoordinates v v
  same_refl v = record { same_issuer = refl; same_jwks_uri = refl; same_audience = refl }

  pub same_trans :
      (v u t : JwksVerifier jwx) → SameCoordinates v u → SameCoordinates u t → SameCoordinates v t
  same_trans v u t a b = record {
    same_issuer = a.same_issuer ∙ b.same_issuer;
    same_jwks_uri = a.same_jwks_uri ∙ b.same_jwks_uri;
    same_audience = a.same_audience ∙ b.same_audience;
  }

  jwks_cache-same : (v : JwksVerifier jwx) (w : W) → SameCoordinates v (jwks_cache jwx v w).1
  unfolding jwks_cache
  jwks_cache-same v w = record {
    same_issuer = ground arith;
    same_jwks_uri = ground arith;
    same_audience = ground arith;
  }

  from_cache-same :
      (fetch : Cache → Text → W → Result Text KeySet × W) (v : JwksVerifier jwx) (w : W)
      → SameCoordinates v (from_cache jwx fetch v w).1
  unfolding from_cache
  from_cache-same fetch v w = elim (Result-cases (jwks_cache jwx v w).0) [
    | inl (c, found) ↦ rw (found, from_cache) (jwks_cache-same v w)
    | inr (e, failed) ↦ rw (failed, from_cache) (jwks_cache-same v w)
  ]

  pub key_set-same : (v : JwksVerifier jwx) (w : W) → SameCoordinates v (key_set jwx v w).1
  unfolding key_set
  key_set-same v w = elim (Option-cases v.keys) [
    | inl missing ↦ simp (missing, key_set) (from_cache-same jwx.get v w)
    | inr (fetch, found) ↦ simp (found, key_set) (same_refl v)
  ]

  pub warm-same : (v : JwksVerifier jwx) (w : W) → SameCoordinates v (warm jwx v w).1
  unfolding warm
  warm-same v w = elim (Result-cases (key_set jwx v w).0) [
    | inl (c, found) ↦ rw (found, warm) (key_set-same v w)
    | inr (e, failed) ↦ rw (failed, warm) (key_set-same v w)
  ]

  forced_fetch-same : (v : JwksVerifier jwx) (w : W) → SameCoordinates v (forced_fetch jwx v w).1
  unfolding forced_fetch
  forced_fetch-same v w = elim (Option-cases v.refresh_keys) [
    | inl missing ↦ elim (Option-cases v.keys) [
      | inl absent ↦ simp (missing, absent, forced_fetch) (from_cache-same jwx.refresh v w)
      | inr (fetch, found) ↦ simp (missing, found, forced_fetch) (same_refl v)
    ]
    | inr (fetch, found) ↦ simp (found, forced_fetch) (same_refl v)
  ]

  pub allow-same :
      (v : JwksVerifier jwx) (w : W) → SameCoordinates v (allow_forced_refresh jwx v w).1
  unfolding allow_forced_refresh
  allow-same v w = record {
    same_issuer = ground arith;
    same_jwks_uri = ground arith;
    same_audience = ground arith;
  }

  pub refresh_key_set-same :
      (v : JwksVerifier jwx) (w : W) → SameCoordinates v (refresh_key_set jwx v w).1
  unfolding refresh_key_set
  refresh_key_set-same v w = elim (Bool-cases (allow_forced_refresh jwx v w).0) [
    | inl allowed ↦
        rw (allowed, refresh_key_set)
          (same_trans v (allow_forced_refresh jwx v w).1 _ (allow-same v w)
            (forced_fetch-same (allow_forced_refresh jwx v w).1 w))
    | inr declined ↦ rw (declined, refresh_key_set) (allow-same v w)
  ]

  pub signing_key-same :
      (set : KeySet) (kid : Text) (v : JwksVerifier jwx) (w : W)
      → SameCoordinates v (signing_key jwx set kid v w).1
  unfolding signing_key
  signing_key-same set kid v w = elim (Option-cases (jwx.lookup_key_id set kid)) [
    | inr (k, found) ↦ rw (found, signing_key) (same_refl v)
    | inl missing ↦ elim (Result-cases (refresh_key_set jwx v w).0) [
      | inr (e, failed) ↦ rw (missing, failed, signing_key) (refresh_key_set-same v w)
      | inl (o, got) ↦ rw (missing, got, signing_key) (refresh_key_set-same v w)
    ]
  ]

  pub validate_options-same :
      (v u : JwksVerifier jwx)
      → SameCoordinates v u
      → validate_options jwx v ≡ validate_options jwx u
  unfolding validate_options
  validate_options-same v u s = rw (s.same_issuer, s.same_audience)
