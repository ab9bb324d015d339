-- ===== src/Identity/Transport.antt =====
-- identity/http.go: the outbound transport. Requests live on a heap, since a redirect response points
-- back to the request it answered and a malformed chain may loop.
pub mod Origin
mod Tests
use go_ai.Prelude.{
  ℕ, zero, suc, Bool, true, false, not, ◌&&◌, ◌||◌, Option, none, some, List, [], ◌∷◌,
  if◌then◌else◌,
}
use go_ai.Text.{Text, codes, ◌==◌}
use go_ai.Dict.{insert, remove}
use go_ai.Agent.Graph.{is_empty}
use go_ai.Identity.Config.{user_token_header}
use go_ai.Identity.Context.{Context, Header, outbound_identity_headers}

abbrev pub http_default_port : Text
http_default_port = codes "80"

abbrev pub https_default_port : Text
https_default_port = codes "443"

abbrev pub scheme_http : Text
scheme_http = codes "http"

abbrev pub scheme_https : Text
scheme_https = codes "https"

abbrev pub max_redirect_chain_walk : ℕ
max_redirect_chain_walk = 64

-- The parts of a `url.URL` that the package asks for: `port` is empty where it is implied.
pub record Url : Type 0 where
  pub scheme : Text
  pub hostname : Text
  pub port : Text

abbrev pub Ref : Type 0
Ref = ℕ

-- What a request holds of the response that caused it: none where there is no response, and
-- `some none` where the response names no request.
pub record Request : Type 0 where
  pub url : Option Url
  pub context : Context
  pub header : Header
  pub response : Option (Option Ref)

abbrev pub Heap : Type 0
Heap = Ref → Request

unfoldable pub origin_port : Url → Text
origin_port u =
    if not (is_empty u.port)
    then u.port
    else if u.scheme == scheme_https
    then https_default_port
    else http_default_port

-- The loop of `originalRequestURL`, with the hops that are left.
unfoldable pub walk : Heap → ℕ → Request → Option Url
walk heap zero hop = none
walk heap (suc left) hop = elim hop.response [
  | none ↦ hop.url
  | some none ↦ none
  | some (some r) ↦ walk heap left (heap r)
]

unfoldable pub original_request_url : Heap → Request → Option Url
unfolding walk
original_request_url heap req = walk heap max_redirect_chain_walk req

-- `clone.Header[name] = values` for each of the headers.
unfoldable pub set_all : Header → Header → Header
set_all header [] = header
set_all header ((name, values) ∷ more) = set_all (insert name values header) more

-- `strings.EqualFold` is the argument.
module _ (equal_fold : Text → Text → Bool) where
  unfoldable pub same_identity_origin : Url → Url → Bool
  unfolding origin_port
  same_identity_origin original target =
      if not (equal_fold original.hostname target.hostname)
      then false
      else if original.scheme == target.scheme && origin_port original == origin_port target
      then true
      else original.scheme == scheme_http
        && origin_port original == http_default_port
        && target.scheme == scheme_https
        && origin_port target == https_default_port

  -- A request that is sent has a URL; one without it is off-origin.
  unfoldable pub addresses_original_origin : Heap → Request → Bool
  addresses_original_origin heap req = elim (original_request_url heap req) [
    | none ↦ false
    | some original ↦ elim req.url [ none ↦ false | some url ↦ same_identity_origin original url ]
  ]

  unfoldable pub identity_headers_for : Heap → Request → Header
  identity_headers_for heap req =
      if not (addresses_original_origin heap req) then [] else outbound_identity_headers req.context

  -- The copy of the request that `RoundTrip` hands to `Base`.
  unfoldable pub outgoing : Heap → Request → Request
  outgoing heap req = record req {
    header = set_all (remove user_token_header req.header) (identity_headers_for heap req);
  }
