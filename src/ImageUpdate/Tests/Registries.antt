-- ===== src/ImageUpdate/Tests/Registries.antt =====
-- A small registry with its realm, and the theorems about the client at concrete inputs.
use renovate_docker_operator.Prelude.{
  ℕ, suc, ◌≡◌, inl, refl, arith, true, false, Option, none, some, List, [], ◌∷◌, ◌++◌,
}
use renovate_docker_operator.ImageUpdate.Ref.{Reference, same, cut_first, valid_for_http}
use renovate_docker_operator.ImageUpdate.Auth.{
  Strings, Params, find, cache_key, Realm, AnonymousAuth, realm, split_from, split_outside_quotes,
  fetch_token, parse_challenge, anonymous_bearer,
}
use renovate_docker_operator.ImageUpdate.Auth.Quotes.{
  join, all_whole, all_closed, split_outside_quotes-join,
}
use renovate_docker_operator.ImageUpdate.Links.{parse_next_link}
use renovate_docker_operator.ImageUpdate.Client.{
  reply, HttpResponse, Http, manifest_url, tags_url, head_manifest, get_tags_page, list_tags,
}
use renovate_docker_operator.ImageUpdate.Client.Heads.{IsFinal, head_manifest-IsFinal}
use renovate_docker_operator.ImageUpdate.Client.Pages.{no_page, page, list_tags-Chain}

abbrev strings : Strings
strings = record { trim_space = λ s. s; to_lower = λ s. s }

-- `a="b,c",d`
abbrev quoted : List ℕ
quoted = b'a' ∷ b'=' ∷ b'"' ∷ b'b' ∷ b',' ∷ b'c' ∷ b'"' ∷ b',' ∷ b'd' ∷ []

quoted_run :
    split_outside_quotes quoted b','
    ≡ (b'a' ∷ b'=' ∷ b'"' ∷ b'b' ∷ b',' ∷ b'c' ∷ b'"' ∷ []) ∷ (b'd' ∷ []) ∷ []
unfolding split_outside_quotes split_from
quoted_run = refl

split_outside_quotes-join_example :
    (join b',' (split_outside_quotes quoted b',') ≡ quoted)
    × (all_whole b',' false (split_outside_quotes quoted b',') ≡ true)
    × (all_closed false (split_outside_quotes quoted b',') ≡ true)
split_outside_quotes-join_example = split_outside_quotes-join quoted b','

-- "realm=r"
abbrev challenge : List ℕ
challenge = realm ++ b'=' ∷ b'r' ∷ []

abbrev params : Params
params = (realm, b'r' ∷ []) ∷ []

challenge_run : parse_challenge strings challenge ≡ some params
unfolding parse_challenge split_outside_quotes split_from find same cut_first
challenge_run = refl

-- A realm that gives the token "t"; the world counts the readings of its clock.
abbrev realm_server : Realm ℕ
realm_server = record {
  now = λ w. (w, suc w);
  build_url = λ r service scope. some r;
  get = λ url w. (some (200, some (b't' ∷ [], [])), w);
}

abbrev fresh : AnonymousAuth ℕ
fresh = record { cache = []; world = 5 }

nothing_cached : find (cache_key params) fresh.cache ≡ none
unfolding find
nothing_cached = refl

first_token : (anonymous_bearer realm_server strings challenge fresh).0 ≡ some (b't' ∷ [])
unfolding anonymous_bearer parse_challenge split_outside_quotes split_from find same cut_first
    fetch_token
first_token = refl

clock_after : (anonymous_bearer realm_server strings challenge fresh).1.world ≡ 6
unfolding anonymous_bearer parse_challenge split_outside_quotes split_from find same cut_first
    fetch_token
clock_after = refl

-- A registry that challenges a request without a token, gives a digest, and lists two tags.
abbrev answer : HttpResponse
answer = record {
  status = 200;
  digest = b'd' ∷ [];
  www_authenticate = [];
  link = [];
  tags = some ((b'1' ∷ []) ∷ (b'2' ∷ []) ∷ []);
}

abbrev http : Http ℕ
http = record { is_url = λ url. true; send = λ method url token w. (some answer, suc w) }

abbrev exchange : List ℕ → ℕ → Option (List ℕ) × ℕ
exchange c w = (some (b't' ∷ []), w)

abbrev ref : Reference
ref = record { registry = b'r' ∷ []; repository = b'a' ∷ []; tag = b'1' ∷ []; digest = [] }

head_manifest-IsFinal_example :
    IsFinal strings http exchange
      (manifest_url ref)
      (head_manifest strings http (some exchange) ref 0)
head_manifest-IsFinal_example = head_manifest-IsFinal strings http exchange ref 0

ref_valid : valid_for_http ref ≡ true
unfolding valid_for_http
ref_valid = refl

one_page :
    get_tags_page strings http none (tags_url ref) [] 0
    ≡ (reply ((b'1' ∷ []) ∷ (b'2' ∷ []) ∷ [], []), 1)
unfolding get_tags_page parse_next_link
one_page = refl

list_tags-Chain_example :
    list_tags strings http none ref 0 ≡ (reply ((b'1' ∷ []) ∷ (b'2' ∷ []) ∷ []), 1)
list_tags-Chain_example =
    list_tags-Chain strings http none ref 1 0 ((b'1' ∷ []) ∷ (b'2' ∷ []) ∷ []) [] 1 ref_valid
      (page 0 (tags_url ref) 0 ((b'1' ∷ []) ∷ (b'2' ∷ []) ∷ []) [] 1 [] [] 1 refl one_page
        (no_page [] 1))
      (inl (refl, omega arith))
