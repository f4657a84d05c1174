-- ===== src/ImageUpdate/Auth/Cache.antt =====
-- How long a token of internal/imageupdate/auth.go is used.
use renovate_docker_operator.Prelude.{
  ℕ, ◌+◌, ◌*◌, ◌<◌, ◌≡◌, refl, ap, true, Option, none, some, List, [], ◌∷◌, arith, lt→ltb,
}
use renovate_docker_operator.ImageUpdate.Ref.{same}
use renovate_docker_operator.ImageUpdate.Auth.{
  Strings, Params, find, Realm, AnonymousAuth, cache_key, fetch_token, keep_token, fetch_and_keep,
  from_cache, bearer_of, anonymous_bearer, parse_challenge,
}

same_refl : (s : List ℕ) → same s s ≡ true
unfolding same
same_refl [] = refl
same_refl (b ∷ s) = rw (same_refl s) (ground arith)

module _ {W : Type 0} (http : Realm W) (strings : Strings) where
  -- A second call for the same challenge, before 60 seconds have passed since the first one stored
  -- its token, gives that token and does nothing but read the clock.
  pub anonymous_bearer-reused :
      (challenge : List ℕ) (params : Params) (a : AnonymousAuth W) (token : List ℕ)
      → parse_challenge strings challenge ≡ some params
      → find (cache_key params) a.cache ≡ none
      → (anonymous_bearer http strings challenge a).0 ≡ some token
      → (http.now (anonymous_bearer http strings challenge a).1.world).0
        < (http.now (fetch_token http params a.world).1).0 + 60 * 1000000000
      → anonymous_bearer http strings challenge (anonymous_bearer http strings challenge a).1 ≡ (
        some token,
        record (anonymous_bearer http strings challenge a).1 {
          world = (http.now (anonymous_bearer http strings challenge a).1.world).1;
        },
      )
  unfolding anonymous_bearer bearer_of from_cache fetch_and_keep keep_token find
  anonymous_bearer-reused challenge params a token e missing =
      rw (e, missing) (go (fetch_token http params a.world).0)
    where
      again : Option (List ℕ) → Option (List ℕ) × AnonymousAuth W
      again fetched =
          keep_token http (cache_key params) fetched
            (record a { world = (fetch_token http params a.world).1 })

      go :
          (fetched : Option (List ℕ))
          → (again fetched).0 ≡ some token
          → (http.now (again fetched).1.world).0
            < (http.now (fetch_token http params a.world).1).0 + 60 * 1000000000
          → from_cache http params
              (find (cache_key params) (again fetched).1.cache)
              (again fetched).1
            ≡ (
              some token,
              record (again fetched).1 { world = (http.now (again fetched).1.world).1 },
            )
      go none absent soon = ground arith
      go (some t) same_token soon =
          rw (same_refl (cache_key params), lt→ltb _ _ soon)
            (ap
              (λ (v : Option (List ℕ)).
                (v, record (again (some t)).1 { world = (http.now (again (some t)).1.world).1 }))
              same_token)
