-- ===== src/Identity/Discovery.antt =====
-- identity/verifier.go: how a verifier's coordinates are found, and which key endpoints are safe.
pub mod Coordinates
mod Tests
use go_ai.Prelude.{
  ℕ, Bool, true, false, not, ◌&&◌, ◌||◌, Option, none, some, List, [], ◌∷◌, ◌++◌, Result, ok, err,
  ltb, leb, if◌then◌else◌,
}
use go_ai.Text.{Text, codes, ◌==◌, has_prefix}
use go_ai.Text.Space.{trim_right_slash}
use go_ai.Agent.Graph.{is_empty}
use go_ai.Identity.Config.{OauthConfig}
use go_ai.Identity.Errors.{Fault, not_configured, plain, wrap, wrap_two}
use go_ai.Identity.Transport.{scheme_http, scheme_https}
use go_ai.Identity.Verifier.{Jwx, JwksVerifier, new_jwks_verifier, warm}

abbrev pub jwks_path_suffix : Text
jwks_path_suffix = codes "/jwks.json"

abbrev pub metadata_path : Text
metadata_path = codes "/v1.0/metadata"

abbrev pub metadata_host : Text
metadata_host = codes "127.0.0.1"

pub record IdentityCoordinates : Type 0 where
  pub issuer : Text
  pub jwks_uri : Text
  pub audience : Text

-- The identity block of the metadata body; a missing field decodes as the empty string.
pub record IdentityBlock : Type 0 where
  pub issuer : Text
  pub jwks_uri : Text
  pub audience : Text

pub record HttpResponse : Type 0 where
  pub status : ℕ
  pub body : Text

-- What the process and the standard library's network code answer. `parse_url` gives the scheme and
-- the host name; `is_loopback_ip` is `net.ParseIP` with `IsLoopback`; `fetch` takes the URL and
-- the API token, if one is sent, and stands for the building of the request and the round trip.
pub record Environment (W : Type 0) : Type 0 where
  pub getenv : Text → Text
  pub parse_url : Text → Result Text (Text × Text)
  pub is_loopback_ip : Text → Bool
  pub fetch : Text → Option Text → W → Result Text HttpResponse × W
  pub decode_metadata : Text → Result Text IdentityBlock

unfoldable pub default_jwks_uri : Text → Text
unfolding trim_right_slash
default_jwks_uri issuer = trim_right_slash issuer ++ jwks_path_suffix

unfoldable pub coords_from_metadata : IdentityBlock → Option IdentityCoordinates
unfolding default_jwks_uri
coords_from_metadata block =
    if is_empty block.issuer
    then none
    else some (record {
      issuer = block.issuer;
      jwks_uri = if is_empty block.jwks_uri then default_jwks_uri block.issuer else block.jwks_uri;
      audience = block.audience;
    })

abbrev nonempty : Text → Option Text
nonempty [] = none
nonempty (c ∷ t) = some (c ∷ t)

module _ {W : Type 0} (env : Environment W) where
  unfoldable pub is_loopback_host : Text → Bool
  is_loopback_host host = if host == codes "localhost" then true else env.is_loopback_ip host

  unfoldable pub check_jwks_transport : Text → Bool → Option Fault
  unfolding is_loopback_host
  check_jwks_transport jwks_uri allow_insecure = elim (env.parse_url jwks_uri) [
    | err e ↦ some (wrap_two not_configured (plain e))
    | ok (scheme, hostname) ↦
        if scheme == scheme_https
        then none
        else if scheme == scheme_http && (allow_insecure || is_loopback_host hostname)
        then none
        else some (wrap not_configured)
  ]

  unfoldable pub first_env : List Text → Text
  first_env [] = []
  first_env (name ∷ names) =
      let rest = first_env names in
      if not (is_empty (env.getenv name)) then env.getenv name else rest

  abbrev read_body : HttpResponse → Result Text (Option IdentityCoordinates)
  read_body resp =
      if ltb resp.status 200 || leb 300 resp.status
      then err (codes "metadata endpoint answered an error status")
      else (elim (env.decode_metadata resp.body) [
        | err e ↦ err e
        | ok block ↦ ok (coords_from_metadata block)
      ])

  unfoldable pub request_coordinates :
      Text → Text → W → Result Text (Option IdentityCoordinates) × W
  unfolding coords_from_metadata
  request_coordinates metadata_url api_token w =
      let (answer, w') = env.fetch metadata_url (nonempty api_token) w in
      elim answer [ err e ↦ (err e, w') | ok resp ↦ (read_body resp, w') ]

  -- A failure is logged and counts as nothing found.
  unfoldable pub fetch_coordinates : Text → Text → W → Option IdentityCoordinates × W
  unfolding request_coordinates
  fetch_coordinates metadata_url api_token w =
      let (answer, w') = request_coordinates metadata_url api_token w in
      elim answer [ err e ↦ (none, w') | ok found ↦ (found, w') ]

  unfoldable pub discover_from_metadata : W → Option IdentityCoordinates × W
  unfolding first_env fetch_coordinates
  discover_from_metadata w =
      let port = first_env (codes "CATALYST_DAPR_HTTP_PORT" ∷ codes "DAPR_HTTP_PORT" ∷ []) in
      if is_empty port
      then (none, w)
      else fetch_coordinates
          (codes "http://" ++ metadata_host ++ codes ":" ++ port ++ metadata_path) [] w

  unfoldable pub discover_from_remote : W → Option IdentityCoordinates × W
  unfolding fetch_coordinates trim_right_slash
  discover_from_remote w =
      let endpoint = trim_right_slash (env.getenv (codes "DAPR_HTTP_ENDPOINT")) in
      let api_token = env.getenv (codes "DAPR_API_TOKEN") in
      if is_empty endpoint
      then (none, w)
      else fetch_coordinates (endpoint ++ metadata_path) api_token w

  unfoldable pub discover_from_env : Option IdentityCoordinates
  unfolding default_jwks_uri
  discover_from_env =
      let issuer = env.getenv (codes "DIAGRID_DP_SENTRY_ISSUER") in
      if is_empty issuer
      then none
      else some (record {
        issuer = issuer;
        jwks_uri = default_jwks_uri issuer;
        audience = env.getenv (codes "DIAGRID_DP_SENTRY_AUDIENCE");
      })

  -- The sources in turn, at the first that publishes an issuer.
  unfoldable pub discover : W → Option IdentityCoordinates × W
  unfolding discover_from_metadata discover_from_remote discover_from_env
  discover w =
      let (local_found, w₁) = discover_from_metadata w in
      elim local_found [
        | some c ↦ (some c, w₁)
        | none ↦
            let (remote_found, w₂) = discover_from_remote w₁ in
            elim remote_found [ some c ↦ (some c, w₂) | none ↦ (discover_from_env, w₂) ]
      ]

-- The precedence of `BuildVerifier`: explicit, then discovered, then derived.
unfoldable pub resolved_issuer : OauthConfig → Option IdentityCoordinates → Text
resolved_issuer cfg none = cfg.issuer
resolved_issuer cfg (some d) = if is_empty cfg.issuer then d.issuer else cfg.issuer

unfoldable pub adopted_jwks_uri : OauthConfig → Option IdentityCoordinates → Text → Text
adopted_jwks_uri cfg none issuer = cfg.jwks_uri
adopted_jwks_uri cfg (some d) issuer =
    if is_empty cfg.jwks_uri && d.issuer == issuer then d.jwks_uri else cfg.jwks_uri

unfoldable pub resolved_jwks_uri : OauthConfig → Option IdentityCoordinates → Text → Text
unfolding adopted_jwks_uri default_jwks_uri
resolved_jwks_uri cfg found issuer =
    let adopted = adopted_jwks_uri cfg found issuer in
    if is_empty adopted && not (is_empty issuer) then default_jwks_uri issuer else adopted

unfoldable pub resolved_audience : OauthConfig → Option IdentityCoordinates → Text
resolved_audience cfg none = cfg.audience
resolved_audience cfg (some d) = if is_empty cfg.audience then d.audience else cfg.audience

unfoldable pub resolve_coordinates : OauthConfig → Option IdentityCoordinates → IdentityCoordinates
unfolding resolved_issuer resolved_jwks_uri resolved_audience
resolve_coordinates cfg found =
    let issuer = resolved_issuer cfg found in
    record {
      issuer = issuer;
      jwks_uri = resolved_jwks_uri cfg found issuer;
      audience = resolved_audience cfg found;
    }

module _ {W : Type 0} (env : Environment W) (jwx : Jwx W) where
  unfoldable pub discover_if_needed : OauthConfig → W → Option IdentityCoordinates × W
  unfolding discover
  discover_if_needed cfg w =
      if is_empty cfg.issuer || is_empty cfg.jwks_uri then discover env w else (none, w)

  -- The part of `BuildVerifier` behind discovery. A failed warm-up is only logged.
  unfoldable pub build_from :
      OauthConfig → IdentityCoordinates → W → Result Fault (JwksVerifier jwx) × W
  unfolding check_jwks_transport new_jwks_verifier warm
  build_from cfg c w =
      if is_empty c.issuer || is_empty c.jwks_uri
      then (err (wrap not_configured), w)
      else (elim (check_jwks_transport env c.jwks_uri cfg.allow_insecure_jwks) [
        | some e ↦ (err e, w)
        | none ↦
            let (failed, v, w') =
              warm jwx (new_jwks_verifier jwx c.issuer c.jwks_uri c.audience) w in
            (ok v, w')
      ])

  unfoldable pub build_verifier : OauthConfig → W → Result Fault (JwksVerifier jwx) × W
  unfolding discover_if_needed resolve_coordinates build_from
  build_verifier cfg w =
      let (found, w') = discover_if_needed cfg w in
      build_from cfg (resolve_coordinates cfg found) w'
