-- ===== src/Identity/Discovery/Coordinates.antt =====
-- identity/verifier.go: which coordinates `BuildVerifier` settles on.
use go_ai.Prelude.{
  ◌≡◌, refl, ◌⊎◌, inl, inr, true, false, Option, none, some, ok, arith, Bool-cases, Result-cases,
}
use go_ai.Text.{Text, ◌==◌, eq_iff}
use go_ai.Agent.Graph.{is_empty}
use go_ai.Identity.Config.{OauthConfig}
use go_ai.Identity.Transport.{scheme_http, scheme_https}
use go_ai.Identity.Verifier.{Jwx, JwksVerifier, new_jwks_verifier, warm}
use go_ai.Identity.Verifier.Stable.{warm-same}
use go_ai.Identity.Discovery.{
  IdentityCoordinates, Environment, default_jwks_uri, is_loopback_host, check_jwks_transport,
  adopted_jwks_uri, resolved_issuer, resolved_jwks_uri, resolve_coordinates, discover_if_needed,
  build_from, build_verifier,
}

-- Keys may be fetched by https, and by http only where the policy allows it or from this host.
pub record IsSafeEndpoint {W : Type 0} (env : Environment W) (cfg : OauthConfig) (uri : Text)
    : Type 0 where
  pub scheme : Text
  pub hostname : Text
  pub parsed : env.parse_url uri ≡ ok (scheme, hostname)
  pub safe :
      (scheme ≡ scheme_https)
      ⊎ ((scheme ≡ scheme_http)
          × ((cfg.allow_insecure_jwks ≡ true) ⊎ (is_loopback_host env hostname ≡ true)))

module _ {W : Type 0} (env : Environment W) (jwx : Jwx W) where
  check_jwks_transport-IsSafeEndpoint :
      (cfg : OauthConfig) (uri : Text)
      → check_jwks_transport env uri cfg.allow_insecure_jwks ≡ none
      → IsSafeEndpoint env cfg uri
  unfolding check_jwks_transport
  check_jwks_transport-IsSafeEndpoint cfg uri h = elim (Result-cases (env.parse_url uri)) [
    | inr (e, failed) ↦ ground arith
    | inl ((scheme, hostname), parsed) ↦ record {
      scheme = scheme;
      hostname = hostname;
      parsed = parsed;
      safe = ground (arith, eq_iff scheme scheme_https, eq_iff scheme scheme_http);
    }
  ]

  build_from-ok :
      (cfg : OauthConfig) (c : IdentityCoordinates) (w : W) (v : JwksVerifier jwx)
      → (build_from env jwx cfg c w).0 ≡ ok v
      → (is_empty c.issuer ≡ false)
        × (is_empty c.jwks_uri ≡ false)
        × (check_jwks_transport env c.jwks_uri cfg.allow_insecure_jwks ≡ none)
        × (v ≡ (warm jwx (new_jwks_verifier jwx c.issuer c.jwks_uri c.audience) w).1)
  unfolding build_from
  build_from-ok cfg c w v h = (ground arith, ground arith, ground arith, ground arith)

  build_from-same :
      (cfg : OauthConfig) (c : IdentityCoordinates) (w : W) (v : JwksVerifier jwx)
      → (build_from env jwx cfg c w).0 ≡ ok v
      → (c.issuer ≡ v.issuer) × (c.jwks_uri ≡ v.jwks_uri) × (c.audience ≡ v.audience)
  unfolding new_jwks_verifier
  build_from-same cfg c w v h =
      let (entered, keyed, safe, same) = build_from-ok cfg c w v h in
      let warmed = warm-same jwx (new_jwks_verifier jwx c.issuer c.jwks_uri c.audience) w in
      rw same (warmed.same_issuer, warmed.same_jwks_uri, warmed.same_audience)

  -- A verifier that `BuildVerifier` returns has an issuer and a key endpoint, and fetches its keys by
  -- https, or by http where the policy allows it or from this host.
  pub build_verifier-IsSafeEndpoint :
      (cfg : OauthConfig) (w : W) (v : JwksVerifier jwx)
      → (build_verifier env jwx cfg w).0 ≡ ok v
      → (is_empty v.issuer ≡ false)
        × (is_empty v.jwks_uri ≡ false)
        × IsSafeEndpoint env cfg v.jwks_uri
  unfolding build_verifier
  build_verifier-IsSafeEndpoint cfg w v h =
      let (found, w') = discover_if_needed env jwx cfg w in
      let c = resolve_coordinates cfg found in
      let (entered, keyed, safe, same) = build_from-ok cfg c w' v h in
      let (issuer, uri, audience) = build_from-same cfg c w' v h in
      rw⁻¹ (issuer, uri) (entered, keyed, check_jwks_transport-IsSafeEndpoint cfg c.jwks_uri safe)

  resolved-pinned :
      (cfg : OauthConfig) (found : Option IdentityCoordinates)
      → is_empty cfg.issuer ≡ false
      → let c = resolve_coordinates cfg found in
        (c.issuer ≡ cfg.issuer)
        × ((c.jwks_uri ≡ cfg.jwks_uri)
            ⊎ (c.jwks_uri ≡ default_jwks_uri cfg.issuer)
            ⊎ ((d : IdentityCoordinates) × (found ≡ some d)
                × (d.issuer ≡ cfg.issuer)
                × (c.jwks_uri ≡ d.jwks_uri)))
  unfolding resolve_coordinates resolved_issuer resolved_jwks_uri adopted_jwks_uri
  resolved-pinned cfg none named = (
    refl,
    elim (Bool-cases (is_empty cfg.jwks_uri)) [
      | inl unset ↦ inr (inl (ground arith))
      | inr given ↦ inl (ground arith)
    ],
  )
  resolved-pinned cfg (some d) named = (
    rw named,
    elim (Bool-cases (is_empty cfg.jwks_uri)) [
      | inr given ↦ inl (ground arith)
      | inl unset ↦ elim (Bool-cases (d.issuer == cfg.issuer)) [
        | inr other ↦ inr (inl (ground arith))
        | inl same ↦ elim (Bool-cases (is_empty d.jwks_uri)) [
          | inl nothing ↦ inr (inl (ground arith))
          | inr there ↦ inr (inr (d, refl, (eq_iff d.issuer cfg.issuer).0 same, ground arith))
        ]
      ]
    ],
  )

  -- Where the policy names an issuer, the verifier trusts that issuer, and its keys come from where
  -- the policy says, from the issuer's own well-known place, or from what discovery published for
  -- that same issuer: never from another issuer's keys.
  pub build_verifier-pinned :
      (cfg : OauthConfig) (w : W) (v : JwksVerifier jwx)
      → is_empty cfg.issuer ≡ false
      → (build_verifier env jwx cfg w).0 ≡ ok v
      → (v.issuer ≡ cfg.issuer)
        × ((v.jwks_uri ≡ cfg.jwks_uri)
            ⊎ (v.jwks_uri ≡ default_jwks_uri cfg.issuer)
            ⊎ ((d : IdentityCoordinates) × ((discover_if_needed env jwx cfg w).0 ≡ some d)
                × (d.issuer ≡ cfg.issuer)
                × (v.jwks_uri ≡ d.jwks_uri)))
  unfolding build_verifier
  build_verifier-pinned cfg w v named h =
      let (found, w') = discover_if_needed env jwx cfg w in
      let c = resolve_coordinates cfg found in
      let (issuer, uri, audience) = build_from-same cfg c w' v h in
      rw⁻¹ (issuer, uri) (resolved-pinned cfg found named)
