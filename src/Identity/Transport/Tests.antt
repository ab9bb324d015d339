-- ===== src/Identity/Transport/Tests.antt =====
-- Outgoing requests, and the transport's theorems at one of them.
use go_ai.Prelude.{ℕ, ◌<◌, ◌≡◌, refl, Bool, Option, none, some, List, [], ◌∷◌, ◌++◌}
use go_ai.Text.{Text, codes, ◌==◌}
use go_ai.Dict.{lookup, insert, remove}
use go_ai.Identity.Config.{user_token_header, bearer_prefix}
use go_ai.Identity.Context.{token_value, token_from_context, outbound_identity_headers}
use go_ai.Identity.Transport.{
  Url, Request, Heap, scheme_http, scheme_https, origin_port, walk, original_request_url,
  same_identity_origin, addresses_original_origin, identity_headers_for, set_all, outgoing,
}
use go_ai.Identity.Transport.Origin.{IsFirst, MayCarry, carried, outgoing-token, outgoing-MayCarry}

-- Every definition that the runs below compute with.
outbound : Unit {0}
unfolding lookup insert remove ◌==◌ token_from_context outbound_identity_headers origin_port walk
    original_request_url same_identity_origin addresses_original_origin identity_headers_for set_all
    outgoing
outbound = tt

abbrev same_host : Text → Text → Bool
unfolding ◌==◌
same_host a b = a == b

abbrev site : Text → Text → Text → Url
site scheme hostname port = record { scheme = scheme; hostname = hostname; port = port }

-- The first request of a chain, with a token of its own making in the header.
abbrev first : Request
first = record {
  url = some (site scheme_http (codes "api") []);
  context = token_value (codes "t") ∷ [];
  header = (user_token_header, codes "stale" ∷ []) ∷ [];
  response = none;
}

-- A redirect of the first request to another place.
abbrev redirected : Url → Request
redirected target = record first { url = some target; response = some (some 0) }

abbrev heap : Heap
heap r = first

abbrev token_sent : Request → Option (List Text)
token_sent req = lookup user_token_header (outgoing same_host heap req).header

abbrev bearer_t : List Text
bearer_t = (bearer_prefix ++ codes "t") ∷ []

transport_tests :
    (token_sent first ≡ some bearer_t)
    × (token_sent (redirected (site scheme_https (codes "api") [])) ≡ some bearer_t)
    × (token_sent (redirected (site scheme_http (codes "api") (codes "8080"))) ≡ none)
    × (token_sent (redirected (site scheme_http (codes "evil") [])) ≡ none)
unfolding outbound
transport_tests = (refl, refl, refl, refl)

outgoing-token_example :
    token_sent first
    ≡ carried same_host
        (addresses_original_origin same_host heap first)
        (token_from_context first.context)
outgoing-token_example = outgoing-token same_host heap first

upgraded_sent : token_sent (redirected (site scheme_https (codes "api") [])) ≡ some bearer_t
unfolding outbound
upgraded_sent = refl

outgoing-MayCarry_example :
    (original target : Url) × (t : Text) × (hops : ℕ) × (hops < 64)
    × IsFirst heap hops (redirected (site scheme_https (codes "api") [])) original
    × ((redirected (site scheme_https (codes "api") [])).url ≡ some target)
    × MayCarry same_host original target
    × (token_from_context (redirected (site scheme_https (codes "api") [])).context ≡ some t)
    × (bearer_t ≡ (bearer_prefix ++ t) ∷ [])
outgoing-MayCarry_example =
    outgoing-MayCarry same_host heap (redirected (site scheme_https (codes "api") [])) bearer_t
      upgraded_sent
