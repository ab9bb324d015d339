-- ===== src/Identity/Verifier/Closed.antt =====
-- identity/verifier.go: a closed verifier, and the rate of forced refreshes.
use go_ai.Prelude.{
  ◌+◌, ◌≤◌, ◌≡◌, refl, ◌≢◌, inl, inr, true, none, ok, err, arith, Option-cases, Result-cases,
}
use go_ai.Text.{Text}
use go_ai.Identity.Config.{Claims}
use go_ai.Identity.Errors.{not_ready, verifier_closed, wrap_two}
use go_ai.Identity.Verifier.{
  Jwx, Headers, JwksVerifier, algorithm_allowed, close, jwks_cache, from_cache, key_set,
  allow_forced_refresh, protected_headers, verify_with_keys, verify, jwks_forced_refresh_interval,
}

module _ {W : Type 0} (jwx : Jwx W) where
  open jwx use {Key, KeySet, Token, Cache}

  closed-key_set :
      (v : JwksVerifier jwx) (w : W)
      → v.closed ≡ true
      → v.keys ≡ none
      → key_set jwx v w ≡ (err verifier_closed, v, w)
  unfolding key_set from_cache jwks_cache
  closed-key_set v w closed none_given = ground arith

  closed-verify_with_keys :
      (raw : Text) (headers : Headers) (v : JwksVerifier jwx) (w : W)
      → v.closed ≡ true
      → v.keys ≡ none
      → verify_with_keys jwx raw headers v w ≡ (err (wrap_two not_ready verifier_closed), v, w)
  unfolding verify_with_keys
  closed-verify_with_keys raw headers v w closed none_given =
      simp (closed-key_set v w closed none_given, verify_with_keys)

  closed-verify :
      (raw : Text) (v : JwksVerifier jwx) (w : W) (claims : Claims)
      → v.closed ≡ true
      → v.keys ≡ none
      → (verify jwx raw v w).0 ≢ ok claims
  unfolding verify
  closed-verify raw v w claims closed none_given h = elim (Option-cases (jwx.parse_insecure raw)) [
    | inr (e, failed) ↦ ground arith
    | inl parses ↦ elim (Result-cases (protected_headers jwx raw)) [
      | inr (e, failed) ↦ ground arith
      | inl (headers, got) ↦
          ground (arith, closed-verify_with_keys raw headers v w closed none_given)
    ]
  ]

  closed-verify-eq :
      (raw : Text) (headers : Headers) (v : JwksVerifier jwx) (w : W)
      → v.closed ≡ true
      → v.keys ≡ none
      → jwx.parse_insecure raw ≡ none
      → protected_headers jwx raw ≡ ok headers
      → algorithm_allowed headers.algorithm ≡ true
      → verify jwx raw v w ≡ (err (wrap_two not_ready verifier_closed), v, w)
  unfolding verify
  closed-verify-eq raw headers v w closed none_given parses got allowed =
      simp (parses, got, allowed, verify)
        (closed-verify_with_keys raw headers v w closed none_given)

  -- A closed verifier accepts no token and asks nothing of the key cache; where the token's header is
  -- in order it answers that it is not ready, whatever the token.
  pub verify-closed :
      (raw : Text) (v : JwksVerifier jwx) (w x : W) (claims : Claims)
      → v.keys ≡ none
      → ((verify jwx raw (close jwx v w).0 x).0 ≢ ok claims)
        × ((headers : Headers)
            → jwx.parse_insecure raw ≡ none
            → protected_headers jwx raw ≡ ok headers
            → algorithm_allowed headers.algorithm ≡ true
            → verify jwx raw (close jwx v w).0 x
              ≡ (err (wrap_two not_ready verifier_closed), (close jwx v w).0, x))
  unfolding close
  verify-closed raw v w x claims none_given = (
    closed-verify raw (close jwx v w).0 x claims refl none_given,
    λ headers parses got allowed.
        closed-verify-eq raw headers (close jwx v w).0 x refl none_given parses got allowed,
  )

  -- Two forced refreshes are at least the interval apart, by the clock of the verifier's world.
  pub allow_forced_refresh-interval :
      (v : JwksVerifier jwx) (w x : W)
      → (allow_forced_refresh jwx v w).0 ≡ true
      → (allow_forced_refresh jwx (allow_forced_refresh jwx v w).1 x).0 ≡ true
      → jwx.now w + jwks_forced_refresh_interval ≤ jwx.now x
  unfolding allow_forced_refresh
  allow_forced_refresh-interval v w x first again = ground arith
