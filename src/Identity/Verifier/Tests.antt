-- ===== src/Identity/Verifier/Tests.antt =====
-- A verifier over a small stand-in for the token library, and the verifier's theorems at it.
use go_ai.Prelude.{ℕ, ◌+◌, ◌≤◌, ◌≡◌, refl, ◌≢◌, true, false, none, some, [], ◌∷◌, ok, err}
use go_ai.Text.{Text, codes, ◌==◌, contains}
use go_ai.Dict.{Dict, lookup}
use go_ai.Value.{text}
use go_ai.Identity.Config.{Claims}
use go_ai.Identity.Errors.{not_ready, verifier_closed, wrap_two, token_verification_error}
use go_ai.Identity.Verifier.{
  Headers, Jwx, JwksVerifier, jwks_forced_refresh_interval, algorithm_allowed,
  code_for_validation_error, new_jwks_verifier, close, jwks_cache, from_cache, key_set, warm,
  allow_forced_refresh, forced_fetch, refresh_key_set, signing_key, validate_options,
  protected_headers, check_claims, check_signature, verify_with_keys, verify,
}
use go_ai.Identity.Verifier.Acceptance.{IsVerified, verify-IsVerified}
use go_ai.Identity.Verifier.Closed.{verify-closed, allow_forced_refresh-interval}

-- Every definition that the runs below compute with.
verifier : Unit {0}
unfolding lookup ◌==◌ contains token_verification_error algorithm_allowed code_for_validation_error
    new_jwks_verifier close jwks_cache from_cache key_set warm allow_forced_refresh forced_fetch
    refresh_key_set signing_key validate_options protected_headers check_claims check_signature
    verify_with_keys verify
verifier = tt

abbrev sub_claims : Claims
sub_claims = (codes "sub", text (codes "ann")) ∷ []

-- A token is the name of its key; the world is the clock; the cache holds the key 7 under "k", and
-- a refresh adds the key 8 under "l".
abbrev toy : Jwx ℕ
toy = record {
  Key = ℕ;
  KeySet = Dict ℕ;
  Token = Text;
  Cache = Unit {0};
  parse_insecure = λ raw. none;
  parse_jws = λ raw. ok (record { algorithm = codes "RS256"; key_id = raw } ∷ []);
  parse_verified = λ raw alg key. ok raw;
  validate = λ raw options now. none;
  as_map = λ raw. ok sub_claims;
  lookup_key_id = λ set kid. lookup kid set;
  new_cache = λ w. (tt, w);
  register = λ c uri w. (none, w);
  get = λ c uri w. (ok ((codes "k", 7) ∷ []), w);
  refresh = λ c uri w. (ok ((codes "k", 7) ∷ (codes "l", 8) ∷ []), w);
  cancel = λ c w. w;
  now = λ w. w;
}

abbrev fresh : JwksVerifier toy
unfolding verifier
fresh = new_jwks_verifier toy (codes "i") (codes "https://i/jwks.json") []

verifier_tests :
    ((verify toy (codes "k") fresh 100).0 ≡ ok sub_claims)
    × ((verify toy (codes "l") fresh 100).0 ≡ ok sub_claims)
    × ((verify toy (codes "m") fresh 100).1.last_forced_refresh ≡ some 100)
    × ((allow_forced_refresh toy (verify toy (codes "m") fresh 100).1 120).0 ≡ false)
    × ((allow_forced_refresh toy (verify toy (codes "m") fresh 100).1 130).0 ≡ true)
unfolding verifier
verifier_tests = (refl, refl, refl, refl, refl)

rotated_accepted : (verify toy (codes "l") fresh 100).0 ≡ ok sub_claims
unfolding verifier
rotated_accepted = refl

verify-IsVerified_example : IsVerified toy (codes "l") fresh 100 sub_claims
verify-IsVerified_example = verify-IsVerified toy (codes "l") fresh 100 sub_claims rotated_accepted

verify-closed_example :
    ((verify toy (codes "k") (close toy fresh 100).0 101).0 ≢ ok sub_claims)
    × ((headers : Headers)
        → toy.parse_insecure (codes "k") ≡ none
        → protected_headers toy (codes "k") ≡ ok headers
        → algorithm_allowed headers.algorithm ≡ true
        → verify toy (codes "k") (close toy fresh 100).0 101
          ≡ (err (wrap_two not_ready verifier_closed), (close toy fresh 100).0, 101))
unfolding fresh
verify-closed_example = verify-closed toy (codes "k") fresh 100 101 sub_claims refl

first_allowed : (allow_forced_refresh toy fresh 100).0 ≡ true
unfolding verifier
first_allowed = refl

second_allowed : (allow_forced_refresh toy (allow_forced_refresh toy fresh 100).1 130).0 ≡ true
unfolding verifier
second_allowed = refl

allow_forced_refresh-interval_example : 100 + jwks_forced_refresh_interval ≤ 130
allow_forced_refresh-interval_example =
    allow_forced_refresh-interval toy fresh 100 130 first_allowed second_allowed
