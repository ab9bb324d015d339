-- ===== src/Identity/Context.antt =====
-- identity/context.go: what the middleware puts into a request's context. A context is the list of
-- the values added to it, the latest first.
use go_ai.Prelude.{ℕ, Option, none, some, List, [], ◌∷◌, ◌++◌}
use go_ai.Text.{Text}
use go_ai.Dict.{Dict}
use go_ai.Identity.Config.{VerifiedUser, user_token_header, bearer_prefix}

-- `user_value` holds the pointer to the user, none where it is nil; `other_value` is a value under
-- a key of another package.
pub data ContextValue : Type 0 where
  user_value : Option VerifiedUser → ContextValue
  token_value : Text → ContextValue
  other_value : ℕ → ContextValue

abbrev pub Context : Type 0
Context = List ContextValue

unfoldable pub context_with_user : Context → Option VerifiedUser → Context
context_with_user ctx user = user_value user ∷ ctx

-- `none` stands for the second result being false.
unfoldable pub user_from_context : Context → Option VerifiedUser
user_from_context [] = none
user_from_context (user_value user ∷ ctx) = user
user_from_context (token_value t ∷ ctx) = user_from_context ctx
user_from_context (other_value n ∷ ctx) = user_from_context ctx

unfoldable pub context_with_token : Context → Text → Context
context_with_token ctx raw_token = token_value raw_token ∷ ctx

abbrev nonempty : Text → Option Text
nonempty [] = none
nonempty (c ∷ t) = some (c ∷ t)

unfoldable pub token_from_context : Context → Option Text
token_from_context [] = none
token_from_context (user_value user ∷ ctx) = token_from_context ctx
token_from_context (token_value t ∷ ctx) = nonempty t
token_from_context (other_value n ∷ ctx) = token_from_context ctx

-- An `http.Header`: values under canonical names.
abbrev pub Header : Type 0
Header = Dict (List Text)

unfoldable pub outbound_identity_headers : Context → Header
unfolding token_from_context
outbound_identity_headers ctx = elim (token_from_context ctx) [
  | none ↦ []
  | some token ↦ (user_token_header, (bearer_prefix ++ token) ∷ []) ∷ []
]
