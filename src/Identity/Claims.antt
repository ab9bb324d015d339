-- ===== src/Identity/Claims.antt =====
-- identity/middleware.go: what the middleware reads off the claims of a verified token.
pub mod Scopes
use go_ai.Prelude.{Bool, true, false, not, Option, none, some, List, [], ◌∷◌, if◌then◌else◌}
use go_ai.Text.{Text, codes, contains}
use go_ai.Text.Sort.{sort}
use go_ai.Text.Space.{fields}
use go_ai.Dict.{lookup, has}
use go_ai.Value.{Value, text, texts, array, Items, nil, cons}
use go_ai.Agent.Graph.{is_empty}
use go_ai.Identity.Config.{Claims}

abbrev pub scope_claims : List Text
scope_claims = codes "scp" ∷ codes "scope" ∷ codes "scopes" ∷ []

abbrev pub claim_tenant_id : Text
claim_tenant_id = codes "tid"

abbrev pub claim_tenant : Text
claim_tenant = codes "tenant"

-- The items of a `[]any` that are strings.
unfoldable pub text_items : Items → List Text
text_items nil = []
text_items (cons (text s) xs) = s ∷ text_items xs
text_items (cons v xs) = text_items xs

-- The type switch of `extractScopes`.
unfoldable pub scopes_of : Option Value → List Text
unfolding text_items
scopes_of none = []
scopes_of (some (texts value)) = value
scopes_of (some (array value)) = text_items value
scopes_of (some (text value)) = fields value
scopes_of (some v) = []

-- The loop of `sortedUnique`; `seen` is the set of that name.
unfoldable pub unique_from : List Text → List Text → List Text
unfolding contains
unique_from seen [] = []
unique_from seen (scope ∷ scopes) =
    let rest = unique_from (scope ∷ seen) scopes in
    let skipped = unique_from seen scopes in if contains scope seen then skipped else scope ∷ rest

unfoldable pub sorted_unique : List Text → List Text
unfolding unique_from sort
sorted_unique scopes = sort (unique_from [] scopes)

-- The loop of `extractScopes` over the claim names.
unfoldable pub extract_from : List Text → Claims → List Text
unfolding scopes_of sorted_unique
extract_from [] claims = []
extract_from (name ∷ names) claims =
    let rest = extract_from names claims in
    let scopes = scopes_of (lookup name claims) in
    if is_empty scopes then rest else sorted_unique scopes

unfoldable pub extract_scopes : Claims → List Text
unfolding extract_from
extract_scopes claims = extract_from scope_claims claims

unfoldable pub missing_scopes : List Text → List Text → Bool
unfolding contains
missing_scopes [] granted = false
missing_scopes (scope ∷ required) granted =
    if not (contains scope granted) then true else missing_scopes required granted

-- A type assertion to string: the empty string where it fails.
abbrev pub as_text : Option Value → Text
as_text (some (text v)) = v
as_text _ = []

unfoldable pub string_claim : Claims → Text → Text
string_claim claims name = as_text (lookup name claims)

unfoldable pub tenant_claim : Claims → Text
unfolding string_claim
tenant_claim claims =
    if has claim_tenant_id claims
    then string_claim claims claim_tenant_id
    else string_claim claims claim_tenant
