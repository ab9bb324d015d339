-- ===== src/Identity/Verifier/Fetched.antt =====
-- identity/verifier.go: where the set of keys of a verification comes from.
use go_ai.Prelude.{
  refl, Result, false, ◌≡◌, ap, ◌∙◌, ◌⊎◌, inl, inr, true, none, some, ok, arith, Bool-cases,
  Option-cases, Result-cases,
}
use go_ai.Text.{Text}
use go_ai.Identity.Verifier.{
  Jwx, JwksVerifier, Fetch, jwks_cache, from_cache, key_set, allow_forced_refresh, forced_fetch,
  refresh_key_set,
}

module _ {W : Type 0} (jwx : Jwx W) where
  open jwx use {Key, KeySet, Token, Cache}

  -- The cache that the verifier asks, and the world then: its own one, or a new one for its endpoint.
  abbrev pub IsCacheOf : JwksVerifier jwx → W → Cache → W → Type 0
  IsCacheOf v w c at =
      ((v.cache ≡ some c) × (at ≡ w))
      ⊎ ((v.cache ≡ none)
          × (c ≡ (jwx.new_cache w).0)
          × (jwx.register c v.jwks_uri (jwx.new_cache w).1 ≡ (none, at)))

  -- That call of an open verifier's cache, for the verifier's endpoint, answers with the set.
  abbrev pub Gives :
      (Cache → Text → W → Result Text KeySet × W) → JwksVerifier jwx → W → KeySet → Type 0
  Gives ask v w set =
      (v.closed ≡ false)
      × (c : Cache) × (at : W) × IsCacheOf v w c at
      × ((ask c v.jwks_uri at).0 ≡ ok set)

  -- The set is what the test's override answers, or what the cache has.
  abbrev pub IsKeySet : JwksVerifier jwx → W → KeySet → Type 0
  IsKeySet v w set =
      ((fetch : Fetch jwx) × (v.keys ≡ some fetch) × ((fetch w).0 ≡ ok set))
      ⊎ ((v.keys ≡ none) × Gives jwx.get v w set)

  -- The set is what an override answers, or what the cache has after a refresh.
  abbrev pub IsRefreshed : JwksVerifier jwx → W → KeySet → Type 0
  IsRefreshed v w set =
      ((fetch : Fetch jwx) × (v.refresh_keys ≡ some fetch) × ((fetch w).0 ≡ ok set))
      ⊎ ((fetch : Fetch jwx) × (v.refresh_keys ≡ none)
          × (v.keys ≡ some fetch)
          × ((fetch w).0 ≡ ok set))
      ⊎ ((v.refresh_keys ≡ none) × (v.keys ≡ none) × Gives jwx.refresh v w set)

  -- The set of keys is the one that the verifier has at this call, or the one of a refresh by the
  -- verifier as that fetch left it.
  abbrev pub IsFetched : JwksVerifier jwx → W → KeySet → Type 0
  IsFetched v w set = IsKeySet v w set ⊎ IsRefreshed (key_set jwx v w).1 (key_set jwx v w).2 set

  from_cache-Gives :
      (ask : Cache → Text → W → Result Text KeySet × W) (v : JwksVerifier jwx) (w : W)
      (set : KeySet)
      → (from_cache jwx ask v w).0 ≡ ok set
      → Gives ask v w set
  unfolding from_cache jwks_cache
  from_cache-Gives ask v w set h = elim (Bool-cases v.closed) [
    | inl shut ↦ ground arith
    | inr working ↦ elim (Option-cases v.cache) [
      | inr (c, held) ↦ elim (Result-cases (ask c v.jwks_uri w).0) [
        | inr (e, failed) ↦ ground arith
        | inl (got, answers) ↦ (working, c, w, inl (held, refl), ground arith)
      ]
      | inl missing ↦
          let fresh = jwx.new_cache w in
          let made = jwx.register fresh.0 v.jwks_uri fresh.1 in
          elim (Option-cases made.0) [
            | inr (e, failed) ↦ ground arith
            | inl registered ↦ elim (Result-cases (ask fresh.0 v.jwks_uri made.1).0) [
              | inr (e, failed) ↦ ground arith
              | inl (got, answers) ↦ (
                working,
                fresh.0,
                made.1,
                inr (missing, refl, ap (λ o. (o, made.1)) registered),
                ground arith,
              )
            ]
          ]
    ]
  ]

  pub key_set-IsKeySet :
      (v : JwksVerifier jwx) (w : W) (set : KeySet)
      → (key_set jwx v w).0 ≡ ok set
      → IsKeySet v w set
  unfolding key_set
  key_set-IsKeySet v w set h = elim (Option-cases v.keys) [
    | inr (fetch, own) ↦ inl (fetch, own, rw (own, key_set) at h)
    | inl none_set ↦ inr (none_set, from_cache-Gives jwx.get v w set (rw (none_set, key_set) at h))
  ]

  forced_fetch-IsRefreshed :
      (v : JwksVerifier jwx) (w : W) (set : KeySet)
      → (forced_fetch jwx v w).0 ≡ ok set
      → IsRefreshed v w set
  unfolding forced_fetch
  forced_fetch-IsRefreshed v w set h = elim (Option-cases v.refresh_keys) [
    | inr (fetch, own) ↦ inl (fetch, own, rw (own, forced_fetch) at h)
    | inl plain ↦ elim (Option-cases v.keys) [
      | inr (fetch, own) ↦ inr (inl (fetch, plain, own, rw (plain, own, forced_fetch) at h))
      | inl none_set ↦ inr (
          inr (
            plain,
            none_set,
            from_cache-Gives jwx.refresh v w set (rw (plain, none_set, forced_fetch) at h),
          ))
    ]
  ]

  allow_forced_refresh-eq :
      (v : JwksVerifier jwx) (w : W)
      → (allow_forced_refresh jwx v w).0 ≡ true
      → allow_forced_refresh jwx v w ≡ (true, record v { last_forced_refresh = some (jwx.now w) })
  unfolding allow_forced_refresh
  allow_forced_refresh-eq v w h = ground arith

  -- The recorded time of the refresh plays no part in it.
  pub refresh_key_set-IsRefreshed :
      (v : JwksVerifier jwx) (w : W) (set : KeySet)
      → (refresh_key_set jwx v w).0 ≡ ok (some set)
      → IsRefreshed v w set
  unfolding refresh_key_set
  refresh_key_set-IsRefreshed v w set h =
      let later = record v { last_forced_refresh = some (jwx.now w) } in
      elim (Bool-cases (allow_forced_refresh jwx v w).0) [
        | inr declined ↦ ground arith
        | inl allowed ↦ elim (Result-cases (forced_fetch jwx later w).0) [
          | inr (e, failed) ↦ cc (rw (allow_forced_refresh-eq v w allowed, failed) at h)
          | inl (got, answers) ↦
              let same : got ≡ set =
                let k = rw (allow_forced_refresh-eq v w allowed, answers) at h in cc in
              forced_fetch-IsRefreshed later w set (answers ∙ ap ok same)
        ]
      ]
