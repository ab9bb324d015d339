-- ===== src/Identity/Transport/Origin.antt =====
-- Which requests carry the caller's token.
use go_ai.Prelude.{
  ℕ, zero, suc, ◌<◌, ap, ◌≡◌, refl, ◌⊎◌, inl, inr, Bool, true, false, Option, none, some, List, [],
  ◌∷◌, ◌++◌, arith, Option-cases, Bool-cases, sym, ◌∙◌,
}
use go_ai.Text.{Text, eq_iff, eq_refl}
use go_ai.Dict.{lookup, remove, lookup-remove, lookup-insert}
use go_ai.Identity.Config.{user_token_header, bearer_prefix}
use go_ai.Identity.Context.{Context, Header, token_from_context, outbound_identity_headers}
use go_ai.Identity.Transport.{
  Url, Request, Ref, Heap, walk, max_redirect_chain_walk, origin_port, original_request_url,
  same_identity_origin, addresses_original_origin, identity_headers_for, set_all, outgoing,
  scheme_http, scheme_https, http_default_port, https_default_port,
}

-- The URL of the first request of a redirect chain, that many hops back: the first one answers no
-- response, and each later one answers the response to the request before it.
pub data IsFirst (heap : Heap) : ℕ → Request → Url → Type 0 where
  itself : {req : Request} {u : Url} → req.response ≡ none → req.url ≡ some u → IsFirst heap 0 req u
  redirected :
      {n : ℕ} {req : Request} {u : Url} (r : Ref)
      → req.response ≡ some (some r)
      → IsFirst heap n (heap r) u
      → IsFirst heap (suc n) req u

walk-IsFirst :
    (heap : Heap) (left : ℕ) (req : Request) (u : Url)
    → walk heap left req ≡ some u
    → (n : ℕ) × (n < left) × IsFirst heap n req u
unfolding walk
walk-IsFirst heap zero req u h = cc
walk-IsFirst heap (suc left) req u h = elim (Option-cases req.response) [
  | inl first ↦ (0, omega arith, itself first (rw (first, walk) at h))
  | inr (from, answers) ↦ elim (Option-cases from) [
    | inl lost ↦ cc (rw (answers, lost, walk) at h)
    | inr (r, at) ↦
        let (n, within, chain) = walk-IsFirst heap left (heap r) u (rw (answers, at, walk) at h) in
        (suc n, omega arith, redirected r (answers ∙ ap some at) chain)
  ]
]

module _ (equal_fold : Text → Text → Bool) where
  -- The token goes to the same host, and either by the same scheme to the same port, or up from http
  -- on its default port to https on its default port.
  pub record MayCarry (original target : Url) : Type 0 where
    pub same_host : equal_fold original.hostname target.hostname ≡ true
    pub same_or_upgraded :
        ((original.scheme ≡ target.scheme) × (origin_port original ≡ origin_port target))
        ⊎ ((original.scheme ≡ scheme_http)
            × (origin_port original ≡ http_default_port)
            × (target.scheme ≡ scheme_https)
            × (origin_port target ≡ https_default_port))

  same_identity_origin-MayCarry :
      (original target : Url)
      → same_identity_origin equal_fold original target ≡ true
      → MayCarry original target
  unfolding same_identity_origin
  same_identity_origin-MayCarry original target h = record {
    same_host = ground arith;
    same_or_upgraded = ground (
      arith,
      eq_iff original.scheme target.scheme,
      eq_iff (origin_port original) (origin_port target),
      eq_iff original.scheme scheme_http,
      eq_iff (origin_port original) http_default_port,
      eq_iff target.scheme scheme_https,
      eq_iff (origin_port target) https_default_port,
    );
  }

  abbrev pub carried : Bool → Option Text → Option (List Text)
  carried false t = none
  carried true none = none
  carried true (some t) = some ((bearer_prefix ++ t) ∷ [])

  headers_after :
      (header : Header) (ctx : Context)
      → lookup user_token_header
          (set_all (remove user_token_header header) (outbound_identity_headers ctx))
        ≡ carried true (token_from_context ctx)
  unfolding set_all outbound_identity_headers
  headers_after header ctx = elim (Option-cases (token_from_context ctx)) [
    | inl missing ↦
        rw (missing, outbound_identity_headers)
          (lookup-remove user_token_header user_token_header header
            ∙ rw (eq_refl user_token_header))
    | inr (t, found) ↦
        rw (found, outbound_identity_headers)
          (lookup-insert user_token_header user_token_header _ (remove user_token_header header)
            ∙ rw (eq_refl user_token_header))
  ]

  -- The header of the copy that is sent: the context's token where the request still addresses the
  -- origin that the app asked for, and otherwise none, whatever the request had there before.
  pub outgoing-token :
      (heap : Heap) (req : Request)
      → lookup user_token_header (outgoing equal_fold heap req).header
        ≡ carried (addresses_original_origin equal_fold heap req) (token_from_context req.context)
  unfolding outgoing identity_headers_for set_all
  outgoing-token heap req = elim (Bool-cases (addresses_original_origin equal_fold heap req)) [
    | inl home ↦ rw home (headers_after req.header req.context)
    | inr away ↦ rw away (
        lookup-remove user_token_header user_token_header req.header
        ∙ rw (eq_refl user_token_header))
  ]

  addresses_original_origin-MayCarry :
      (heap : Heap) (req : Request)
      → addresses_original_origin equal_fold heap req ≡ true
      → (original target : Url) × (original_request_url heap req ≡ some original)
        × (req.url ≡ some target)
        × MayCarry original target
  unfolding addresses_original_origin
  addresses_original_origin-MayCarry heap req h =
      elim (Option-cases (original_request_url heap req)) [
        | inl broken ↦ cc (rw (broken, addresses_original_origin) at h)
        | inr (original, found) ↦ elim (Option-cases req.url) [
          | inl missing ↦ cc (rw (found, missing, addresses_original_origin) at h)
          | inr (target, here) ↦ (
            original,
            target,
            found,
            here,
            same_identity_origin-MayCarry original target
                (rw (found, here, addresses_original_origin) at h),
          )
        ]
      ]

  carried-eq-some :
      (home : Bool) (token : Option Text) (values : List Text)
      → carried home token ≡ some values
      → (home ≡ true) × (t : Text) × (token ≡ some t) × (values ≡ (bearer_prefix ++ t) ∷ [])
  carried-eq-some false t values h = cc
  carried-eq-some true none values h = cc
  carried-eq-some true (some t) values h = (refl, t, refl, ground arith)

  -- A request that goes out with a user token goes to the origin of the first request of its redirect
  -- chain, fewer than 64 hops back, or up from http to https on that host; and the token is the one
  -- that its context holds.
  pub outgoing-MayCarry :
      (heap : Heap) (req : Request) (values : List Text)
      → lookup user_token_header (outgoing equal_fold heap req).header ≡ some values
      → (original target : Url) × (t : Text) × (hops : ℕ) × (hops < 64)
        × IsFirst heap hops req original
        × (req.url ≡ some target)
        × MayCarry original target
        × (token_from_context req.context ≡ some t)
        × (values ≡ (bearer_prefix ++ t) ∷ [])
  unfolding original_request_url
  outgoing-MayCarry heap req values h =
      let (home, t, token, same) =
        carried-eq-some (addresses_original_origin equal_fold heap req)
          (token_from_context req.context) values (sym (outgoing-token heap req) ∙ h) in
      let (original, target, found, here, may) = addresses_original_origin-MayCarry heap req home in
      let (hops, within, first) = walk-IsFirst heap max_redirect_chain_walk req original found in
      (original, target, t, hops, within, first, here, may, token, same)
