-- ===== src/ImageUpdate/Client.antt =====
-- The registry client of internal/imageupdate/registry.go. A text is its bytes; the headers, timeouts
-- and redirects of a request are left to net/http.
pub mod Heads
pub mod Pages
use renovate_docker_operator.Prelude.{
  ℕ, suc, zero, Bool, true, false, not, ◌&&◌, ◌||◌, Option, none, some, List, [], ◌∷◌, ◌++◌, ◌==◌,
  if◌then◌else◌,
}
use renovate_docker_operator.ImageUpdate.Ref.{
  Reference, is_empty, cut_first, same, has, valid_for_http,
}
use renovate_docker_operator.ImageUpdate.Auth.{Strings}
use renovate_docker_operator.ImageUpdate.Links.{starts_with, parse_next_link}

-- The class of a classified error, and bearerChallengeError, which has none.
pub data ClientError : Type 0 where
  auth_error parse_error not_found network_error : ClientError
  challenged : List ℕ → ClientError

pub data Reply (A : Type 0) : Type 0 where
  reply : A → Reply A
  failed : ClientError → Reply A

pub data Method : Type 0 where
  head get : Method

-- `tags` are those of the decoded body.
pub record HttpResponse : Type 0 where
  pub status : ℕ
  pub digest : List ℕ
  pub www_authenticate : List ℕ
  pub link : List ℕ
  pub tags : Option (List (List ℕ))

-- Whether http.NewRequest takes a URL, and Do with a bearer token that may be empty.
pub record Http (W : Type 0) : Type 0 where
  pub is_url : List ℕ → Bool
  pub send : Method → (url token : List ℕ) → W → Option HttpResponse × W

-- Authenticator.AnonymousBearer, where there is one.
abbrev pub Authenticator : Type 0 → Type 0
Authenticator W = Option (List ℕ → W → Option (List ℕ) × W)

-- "bearer "
abbrev pub bearer : List ℕ
bearer = b'b' ∷ b'e' ∷ b'a' ∷ b'r' ∷ b'e' ∷ b'r' ∷ b' ' ∷ []

-- "https://"
abbrev https : List ℕ
https = b'h' ∷ b't' ∷ b't' ∷ b'p' ∷ b's' ∷ b':' ∷ b'/' ∷ b'/' ∷ []

-- "/v2/"
abbrev v2 : List ℕ
v2 = b'/' ∷ b'v' ∷ b'2' ∷ b'/' ∷ []

-- "/manifests/"
abbrev manifests : List ℕ
manifests = b'/' ∷ b'm' ∷ b'a' ∷ b'n' ∷ b'i' ∷ b'f' ∷ b'e' ∷ b's' ∷ b't' ∷ b's' ∷ b'/' ∷ []

-- "/tags/list"
abbrev tags_list : List ℕ
tags_list = b'/' ∷ b't' ∷ b'a' ∷ b'g' ∷ b's' ∷ b'/' ∷ b'l' ∷ b'i' ∷ b's' ∷ b't' ∷ []

abbrev pub manifest_url : Reference → List ℕ
manifest_url r =
    https
    ++ (r.registry
        ++ (v2 ++ (r.repository ++ (manifests ++ (if is_empty r.tag then r.digest else r.tag)))))

abbrev pub tags_url : Reference → List ℕ
tags_url r = https ++ (r.registry ++ (v2 ++ (r.repository ++ tags_list)))

module _ (strings : Strings) where
  unauthorized : {A : Type 0} → List ℕ → Reply A
  unfolding starts_with
  unauthorized challenge =
      if starts_with bearer (strings.to_lower challenge)
      then failed (challenged challenge)
      else failed auth_error

  digest_of : HttpResponse → Reply (List ℕ)
  digest_of r = if is_empty r.digest then failed parse_error else reply r.digest

  head_answer : Option HttpResponse → Reply (List ℕ)
  unfolding digest_of unauthorized
  head_answer none = failed network_error
  head_answer (some r) =
      if r.status == 200
      then digest_of r
      else if r.status == 401
      then unauthorized r.www_authenticate
      else if r.status == 404
      then failed not_found
      else failed network_error

  page_of : (url link : List ℕ) → Option (List (List ℕ)) → Reply (List (List ℕ) × List ℕ)
  unfolding parse_next_link
  page_of url link none = failed parse_error
  page_of url link (some tags) = reply (tags, parse_next_link strings link url)

  tags_answer : (url : List ℕ) → Option HttpResponse → Reply (List (List ℕ) × List ℕ)
  unfolding page_of unauthorized
  tags_answer url none = failed network_error
  tags_answer url (some r) =
      if r.status == 200
      then page_of url r.link r.tags
      else if r.status == 401
      then unauthorized r.www_authenticate
      else if r.status == 404
      then failed not_found
      else failed network_error

  module _ {W : Type 0} (http : Http W) (auth : Authenticator W) where
    unfoldable pub do_head_manifest : (url token : List ℕ) → W → Reply (List ℕ) × W
    unfolding head_answer
    do_head_manifest url token w =
        if http.is_url url
        then (let (r, w1) = http.send head url token w in (head_answer r, w1))
        else (failed parse_error, w)

    with_token : (url : List ℕ) → Option (List ℕ) × W → Reply (List ℕ) × W
    unfolding do_head_manifest
    with_token url (none, w) = (failed auth_error, w)
    with_token url (some token, w) = do_head_manifest url token w

    challenged_head : (url challenge : List ℕ) → Authenticator W → W → Reply (List ℕ) × W
    unfolding with_token
    challenged_head url challenge none w = (failed (challenged challenge), w)
    challenged_head url challenge (some exchange) w = with_token url (exchange challenge w)

    retry_head : (url : List ℕ) → Reply (List ℕ) × W → Reply (List ℕ) × W
    unfolding challenged_head
    retry_head url (reply digest, w) = (reply digest, w)
    retry_head url (failed (challenged c), w) = challenged_head url c auth w
    retry_head url (failed auth_error, w) = (failed auth_error, w)
    retry_head url (failed parse_error, w) = (failed parse_error, w)
    retry_head url (failed not_found, w) = (failed not_found, w)
    retry_head url (failed network_error, w) = (failed network_error, w)

    unfoldable pub head_manifest : Reference → W → Reply (List ℕ) × W
    unfolding retry_head valid_for_http do_head_manifest
    head_manifest ref w =
        if valid_for_http ref
        then retry_head (manifest_url ref) (do_head_manifest (manifest_url ref) [] w)
        else (failed parse_error, w)

    unfoldable pub get_tags_page : (url token : List ℕ) → W → Reply (List (List ℕ) × List ℕ) × W
    unfolding tags_answer
    get_tags_page url token w =
        if http.is_url url
        then (let (r, w1) = http.send get url token w in (tags_answer url r, w1))
        else (failed parse_error, w)

    -- The token for a challenge: only where there is none yet.
    exchanged : (token challenge : List ℕ) → Authenticator W → W → Reply (List ℕ) × W
    exchanged token challenge none w = (failed (challenged challenge), w)
    exchanged token challenge (some exchange) w =
        let (fresh, w1) = exchange challenge w in
        if is_empty token
        then (elim fresh [ none ↦ failed auth_error | some t ↦ reply t ], w1)
        else (failed (challenged challenge), w)

    -- The loop, with the turns that `pages < 100` leaves.
    unfoldable pub tags_loop :
        (turns : ℕ) → (url token : List ℕ) → (all : List (List ℕ)) → W → Reply (List (List ℕ)) × W
    unfolding get_tags_page exchanged
    tags_loop zero url token all w = (reply all, w)
    tags_loop (suc turns) url token all w =
        let (page, w1) = get_tags_page url token w in
        if is_empty url then (reply all, w) else elim page [
          | reply (tags, next) ↦ tags_loop turns next token (all ++ tags) w1
          | failed (challenged c) ↦
              let (fresh, w2) = exchanged token c auth w1 in
              elim fresh [ reply t ↦ tags_loop turns url t all w2 | failed e ↦ (failed e, w2) ]
          | failed auth_error ↦ (failed auth_error, w1)
          | failed parse_error ↦ (failed parse_error, w1)
          | failed not_found ↦ (failed not_found, w1)
          | failed network_error ↦ (failed network_error, w1)
        ]

    unfoldable pub list_tags : Reference → W → Reply (List (List ℕ)) × W
    list_tags ref w =
        if valid_for_http ref then tags_loop 100 (tags_url ref) [] [] w else (failed parse_error, w)
