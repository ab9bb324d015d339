-- ===== src/Identity/Discovery/Tests.antt =====
-- Verifiers built from a policy and a small environment, and the theorems at them.
use go_ai.Prelude.{ℕ, ◌≡◌, refl, ◌⊎◌, true, false, none, some, [], Result, ok, err}
use go_ai.Text.{Text, codes, ◌==◌, has_prefix}
use go_ai.Text.Space.{trim_right_slash}
use go_ai.Agent.Graph.{is_empty}
use go_ai.Identity.Config.{OauthConfig, zero_config}
use go_ai.Identity.Transport.{scheme_http, scheme_https}
use go_ai.Identity.Verifier.{
  Jwx, JwksVerifier, new_jwks_verifier, warm, key_set, from_cache, jwks_cache,
}
use go_ai.Identity.Discovery.{
  IdentityCoordinates, Environment, default_jwks_uri, coords_from_metadata, is_loopback_host,
  check_jwks_transport, first_env, request_coordinates, fetch_coordinates, discover_from_metadata,
  discover_from_remote, discover_from_env, discover, adopted_jwks_uri, resolved_issuer,
  resolved_jwks_uri, resolved_audience, resolve_coordinates, discover_if_needed, build_from,
  build_verifier,
}
use go_ai.Identity.Discovery.Coordinates.{
  IsSafeEndpoint, build_verifier-IsSafeEndpoint, build_verifier-pinned,
}

-- Every definition that the runs below compute with.
discovery : Unit {0}
unfolding ◌==◌ has_prefix trim_right_slash new_jwks_verifier warm key_set from_cache jwks_cache
    default_jwks_uri coords_from_metadata is_loopback_host check_jwks_transport first_env
    request_coordinates fetch_coordinates discover_from_metadata discover_from_remote
    discover_from_env discover adopted_jwks_uri resolved_issuer resolved_jwks_uri resolved_audience
    resolve_coordinates discover_if_needed build_from build_verifier
discovery = tt

-- No key is ever found; the world is not used.
abbrev keyless : Jwx ℕ
keyless = record {
  Key = ℕ;
  KeySet = Unit {0};
  Token = Text;
  Cache = Unit {0};
  parse_insecure = λ raw. none;
  parse_jws = λ raw. ok [];
  parse_verified = λ raw alg key. err [];
  validate = λ raw options now. none;
  as_map = λ raw. ok [];
  lookup_key_id = λ set kid. none;
  new_cache = λ w. (tt, w);
  register = λ c uri w. (none, w);
  get = λ c uri w. (err (codes "unreachable"), w);
  refresh = λ c uri w. (err (codes "unreachable"), w);
  cancel = λ c w. w;
  now = λ w. w;
}

abbrev split_scheme : Text → Result Text (Text × Text)
unfolding has_prefix
split_scheme uri = elim (has_prefix uri (codes "https:")) [
  | true ↦ ok (scheme_https, codes "h")
  | false ↦ ok (scheme_http, codes "h")
]

-- A sidecar on port 3500 that publishes the issuer "d".
abbrev sidecar : Environment ℕ
unfolding ◌==◌
sidecar = record {
  getenv = λ name. elim (name == codes "DAPR_HTTP_PORT") [ true ↦ codes "3500" | false ↦ [] ];
  parse_url = split_scheme;
  is_loopback_ip = λ host. false;
  fetch = λ url auth w. (ok (record { status = 200; body = [] }), w);
  decode_metadata =
      λ body. ok (record { issuer = codes "https://d/"; jwks_uri = []; audience = codes "aud" });
}

abbrev pinned : OauthConfig
pinned = record zero_config { issuer = codes "https://p" }

abbrev pinned_verifier : JwksVerifier keyless
unfolding discovery
pinned_verifier =
    new_jwks_verifier keyless (codes "https://p") (codes "https://p/jwks.json") (codes "aud")

pinned_built :
    (build_verifier sidecar keyless pinned 0).0 ≡ ok (record pinned_verifier { cache = some tt })
unfolding discovery
pinned_built = refl

abbrev built : JwksVerifier keyless
unfolding discovery
built = record pinned_verifier { cache = some tt }

build_verifier-IsSafeEndpoint_example :
    (is_empty built.issuer ≡ false)
    × (is_empty built.jwks_uri ≡ false)
    × IsSafeEndpoint sidecar pinned built.jwks_uri
unfolding built
build_verifier-IsSafeEndpoint_example =
    build_verifier-IsSafeEndpoint sidecar keyless pinned 0 built pinned_built

build_verifier-pinned_example :
    (built.issuer ≡ pinned.issuer)
    × ((built.jwks_uri ≡ pinned.jwks_uri)
        ⊎ (built.jwks_uri ≡ default_jwks_uri pinned.issuer)
        ⊎ ((d : IdentityCoordinates) × ((discover_if_needed sidecar keyless pinned 0).0 ≡ some d)
            × (d.issuer ≡ pinned.issuer)
            × (built.jwks_uri ≡ d.jwks_uri)))
unfolding built
build_verifier-pinned_example =
    build_verifier-pinned sidecar keyless pinned 0 built refl pinned_built
