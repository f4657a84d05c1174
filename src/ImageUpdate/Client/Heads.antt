-- ===== src/ImageUpdate/Client/Heads.antt =====
-- The results of HeadManifest of internal/imageupdate/registry.go.
use renovate_docker_operator.Prelude.{
  ℕ, ◌≡◌, refl, Bool, true, false, Option, none, some, List, [], ◌==◌, if◌then◌else◌,
}
use renovate_docker_operator.ImageUpdate.Ref.{Reference, is_empty, valid_for_http}
use renovate_docker_operator.ImageUpdate.Auth.{Strings}
use renovate_docker_operator.ImageUpdate.Links.{starts_with}
use renovate_docker_operator.ImageUpdate.Client.{
  auth_error, parse_error, not_found, network_error, challenged, Reply, reply, failed, head,
  HttpResponse, Http, bearer, manifest_url, unauthorized, digest_of, head_answer, do_head_manifest,
  with_token, challenged_head, retry_head, head_manifest,
}

-- A digest that is given is not empty.
abbrev IsFilled : Reply (List ℕ) → Type 0
IsFilled (reply digest) = is_empty digest ≡ false
IsFilled (failed e) = Unit

if-IsFilled :
    (b : Bool) (x y : Reply (List ℕ)) → IsFilled x → IsFilled y → IsFilled (if b then x else y)
if-IsFilled true x y p q = p
if-IsFilled false x y p q = q

module _ (strings : Strings) where
  digest_of-IsFilled : (r : HttpResponse) → IsFilled (digest_of strings r)
  unfolding digest_of
  digest_of-IsFilled r = go (is_empty r.digest) refl
    where
      go :
          (b : Bool)
          → is_empty r.digest ≡ b
          → IsFilled (if b then failed parse_error else reply r.digest)
      go true e = tt
      go false e = e

  head_answer-IsFilled : (o : Option HttpResponse) → IsFilled (head_answer strings o)
  unfolding head_answer unauthorized
  head_answer-IsFilled none = tt
  head_answer-IsFilled (some r) = if-IsFilled (r.status == 200) _ _ (digest_of-IsFilled r) (
      if-IsFilled (r.status == 401) _ _
        (if-IsFilled (starts_with bearer (strings.to_lower r.www_authenticate)) _ _ tt tt)
        (if-IsFilled (r.status == 404) _ _ tt tt))

  module _ {W : Type 0} (http : Http W) (exchange : List ℕ → W → Option (List ℕ) × W) where
    abbrev pub do_head : (url token : List ℕ) → W → Reply (List ℕ) × W
    do_head url token w = do_head_manifest strings http (some exchange) url token w

    -- A token was exchanged for a challenge, and the request with it was challenged again.
    pub data IsRetried (url challenge : List ℕ) (after : W) : Type 0 where
      retried :
          (first token : List ℕ) (w0 w1 : W)
          → exchange first w0 ≡ (some token, w1)
          → do_head url token w1 ≡ (failed (challenged challenge), after)
          → IsRetried url challenge after

    -- A digest that is not empty, a classified error, or a second challenge.
    abbrev pub IsFinal : (url : List ℕ) → Reply (List ℕ) × W → Type 0
    IsFinal url (reply digest, w) = is_empty digest ≡ false
    IsFinal url (failed (challenged c), w) = IsRetried url c w
    IsFinal url (failed auth_error, w) = Unit
    IsFinal url (failed parse_error, w) = Unit
    IsFinal url (failed not_found, w) = Unit
    IsFinal url (failed network_error, w) = Unit

    do_head-IsFilled : (url token : List ℕ) (w : W) → IsFilled (do_head url token w).0
    unfolding do_head_manifest
    do_head-IsFilled url token w = go (http.is_url url)
      where
        go :
            (b : Bool)
            → IsFilled (
                let r : Reply (List ℕ) × W =
                  if b
                  then (
                    head_answer strings (http.send head url token w).0,
                    (http.send head url token w).1,
                  )
                  else (failed parse_error, w) in
                r.0)
        go true = head_answer-IsFilled (http.send head url token w).0
        go false = tt

    with_token-IsFinal :
        (url first : List ℕ) (w0 : W)
        → IsFinal url (with_token strings http (some exchange) url (exchange first w0))
    unfolding with_token
    with_token-IsFinal url first w0 = go (exchange first w0).0 refl
      where
        final :
            (token : List ℕ) (w1 : W)
            → exchange first w0 ≡ (some token, w1)
            → (r : Reply (List ℕ)) (after : W) → IsFilled r
            → do_head url token w1 ≡ (r, after)
            → IsFinal url (r, after)
        final token w1 e (reply digest) after h d = h
        final token w1 e (failed (challenged c)) after h d = retried first token w0 w1 e d
        final token w1 e (failed auth_error) after h d = tt
        final token w1 e (failed parse_error) after h d = tt
        final token w1 e (failed not_found) after h d = tt
        final token w1 e (failed network_error) after h d = tt

        go :
            (o : Option (List ℕ))
            → (exchange first w0).0 ≡ o
            → IsFinal url (with_token strings http (some exchange) url (o, (exchange first w0).1))
        go none e = tt
        go (some token) e =
            let w1 : W = (exchange first w0).1 in
            final token w1 (rw e refl) (do_head url token w1).0 (do_head url token w1).1
              (do_head-IsFilled url token w1) refl

    retry_head-IsFinal :
        (url : List ℕ) (r : Reply (List ℕ)) (w : W)
        → IsFilled r
        → IsFinal url (retry_head strings http (some exchange) url (r, w))
    unfolding retry_head challenged_head
    retry_head-IsFinal url (reply digest) w h = h
    retry_head-IsFinal url (failed (challenged c)) w h = with_token-IsFinal url c w
    retry_head-IsFinal url (failed auth_error) w h = tt
    retry_head-IsFinal url (failed parse_error) w h = tt
    retry_head-IsFinal url (failed not_found) w h = tt
    retry_head-IsFinal url (failed network_error) w h = tt

    -- With an authenticator, HeadManifest gives a digest that is not empty or an error, which has a
    -- class unless the registry challenges the request with the exchanged token again.
    pub head_manifest-IsFinal :
        (ref : Reference) (w : W)
        → IsFinal (manifest_url ref) (head_manifest strings http (some exchange) ref w)
    unfolding head_manifest
    head_manifest-IsFinal ref w = go (valid_for_http ref)
      where
        first : Reply (List ℕ) × W
        first = do_head (manifest_url ref) [] w

        go :
            (valid : Bool)
            → IsFinal (manifest_url ref) (
                if valid
                then retry_head strings http (some exchange) (manifest_url ref) first
                else (failed parse_error, w))
        go true =
            retry_head-IsFinal (manifest_url ref) first.0 first.1
              (do_head-IsFilled (manifest_url ref) [] w)
        go false = tt
