-- ===== src/Identity/Errors.antt =====
-- identity/errors.go: the error codes, and the errors that the package matches with `errors.Is` and
-- `errors.As`.
use go_ai.Prelude.{ℕ, Bool, true, false, ◌||◌, Option, none, some, if◌then◌else◌}
use go_ai.Text.{Text, ◌==◌}
use go_ai.Identity.Code

-- A Go error as the tree that `errors.Is` and `errors.As` walk. The four sentinels have a
-- constructor each; `token` is a TokenVerificationError with its code and its detail, `plain` an
-- error that wraps nothing, and `wrap` one that wraps one error or two.
pub data Fault : Type 0 where
  not_ready : Fault
  not_configured : Fault
  verifier_closed : Fault
  verifier_panicked : Fault
  plain : Text → Fault
  token : Text → Fault → Fault
  bare_token : Text → Fault
  wrap : Fault → Fault
  wrap_two : Fault → Fault → Fault

-- `errors.Is(err, ErrVerifierNotReady)`. The `Is` method of a token error answers only for another
-- token error, so its detail is walked.
unfoldable pub is_not_ready : Fault → Bool
is_not_ready not_ready = true
is_not_ready (token code e) = is_not_ready e
is_not_ready (wrap e) = is_not_ready e
is_not_ready (wrap_two e f) = is_not_ready e || is_not_ready f
is_not_ready _ = false

-- `errors.Is(err, &TokenVerificationError{Code: code})`: `Is` matches on the code alone.
unfoldable pub is_token_error : Text → Fault → Bool
is_token_error code (token c e) = c == code || is_token_error code e
is_token_error code (bare_token c) = c == code
is_token_error code (wrap e) = is_token_error code e
is_token_error code (wrap_two e f) = is_token_error code e || is_token_error code f
is_token_error code _ = false

abbrev pub first_of_two : Option Text → Option Text → Option Text
first_of_two none o = o
first_of_two (some c) o = some c

-- `errors.As(err, &verr)`: the code of the first token error on the walk.
unfoldable pub as_token_error : Fault → Option Text
as_token_error (token c e) = some c
as_token_error (bare_token c) = some c
as_token_error (wrap e) = as_token_error e
as_token_error (wrap_two e f) = first_of_two (as_token_error e) (as_token_error f)
as_token_error _ = none

unfoldable pub token_verification_error : Text → Fault → Fault
token_verification_error code cause = token code cause

unfoldable pub status_for_code : Text → ℕ
status_for_code code = if code == Code.missing_scope then 403 else 401
