-- ===== src/Identity/Jwx.antt =====
-- The jwx library as identity/verifier.go calls it: an interface of types and operations, which the
-- verifier takes as a parameter.
use go_ai.Prelude.{ℕ, Bool, Option, List, Result}
use go_ai.Text.{Text}
use go_ai.Identity.Config.{Claims}

-- A protected header, as far as it is read.
pub record Headers : Type 0 where
  pub algorithm : Text
  pub key_id : Text

-- The claim checks asked of `jwt.Validate`; an issuer or audience is checked only if it is there.
pub record ValidateOptions : Type 0 where
  pub skew : ℕ
  pub required : List Text
  pub issuer : Option Text
  pub audience : Option Text

-- A failure of `jwt.Validate`, by what `errors.Is` finds in it.
pub record ValidationError : Type 0 where
  pub is_expired : Bool
  pub is_invalid_issuer : Bool
  pub is_invalid_audience : Bool
  pub detail : Text

-- The jwx library over a world `W`, which holds the caches' contents and the clock: what it parses,
-- verifies and validates, and the key cache. `now` is seconds since the epoch.
pub record Jwx (W : Type 0) : Type 1 where
  pub Key : Type 0
  pub KeySet : Type 0
  pub Token : Type 0
  pub Cache : Type 0
  pub parse_insecure : Text → Option Text
  pub parse_jws : Text → Result Text (List Headers)
  pub parse_verified : Text → Text → Key → Result Text Token
  pub validate : Token → ValidateOptions → W → Option ValidationError
  pub as_map : Token → Result Text Claims
  pub lookup_key_id : KeySet → Text → Option Key
  pub new_cache : W → Cache × W
  pub register : Cache → Text → W → Option Text × W
  pub get : Cache → Text → W → Result Text KeySet × W
  pub refresh : Cache → Text → W → Result Text KeySet × W
  pub cancel : Cache → W → W
  pub now : W → ℕ
