-- ===== src/Identity/Config.antt =====
-- identity/identity.go: the policy and the verified caller.
use go_ai.Prelude.{Bool, true, false, Option, none, some, List, []}
use go_ai.Text.{Text, codes, contains}
use go_ai.Dict.{Dict}
use go_ai.Value.{Value}

abbrev pub user_token_header : Text
user_token_header = codes "X-Diagrid-User-Token"

abbrev pub bearer_prefix : Text
bearer_prefix = codes "Bearer "

-- `require_auth` is none for the nil pointer.
pub record OauthConfig : Type 0 where
  pub scopes : List Text
  pub issuer : Text
  pub audience : Text
  pub jwks_uri : Text
  pub require_auth : Option Bool
  pub allow_insecure_jwks : Bool

abbrev pub zero_config : OauthConfig
zero_config = record {
  scopes = [];
  issuer = [];
  audience = [];
  jwks_uri = [];
  require_auth = none;
  allow_insecure_jwks = false;
}

abbrev pub Claims : Type 0
Claims = Dict Value

pub record VerifiedUser : Type 0 where
  pub subject : Text
  pub tenant : Text
  pub scopes : List Text
  pub claims : Claims
  pub issuer_id : Text

unfoldable pub requires_auth : OauthConfig → Bool
requires_auth c = elim c.require_auth [ none ↦ true | some b ↦ b ]

unfoldable pub has_scope : VerifiedUser → Text → Bool
unfolding contains
has_scope u scope = contains scope u.scopes
