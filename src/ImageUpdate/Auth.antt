-- ===== src/ImageUpdate/Auth.antt =====
-- internal/imageupdate/auth.go: anonymous tokens for a registry's challenge. A text is its bytes.
pub mod Quotes
pub mod Cache
use renovate_docker_operator.Prelude.{
  ℕ, ◌+◌, Bool, true, false, not, ◌&&◌, ◌||◌, Option, none, some, List, [], ◌∷◌, ◌++◌, map, ltb,
  leb, ◌==◌, if◌then◌else◌,
}
use renovate_docker_operator.ImageUpdate.Ref.{is_empty, same, cut_first}

-- strings.TrimSpace and strings.ToLower.
pub record Strings : Type 0 where
  pub trim_space : List ℕ → List ℕ
  pub to_lower : List ℕ → List ℕ

-- A Go map from texts, the last assignment first.
abbrev pub Params : Type 0
Params = List (List ℕ × List ℕ)

unfoldable pub find : {A : Type 0} → List ℕ → List (List ℕ × A) → Option A
unfolding same
find key [] = none
find key ((k, a) ∷ rest) = if same k key then some a else find key rest

-- params[key]
abbrev pub value_of : List ℕ → Params → List ℕ
value_of key params = elim (find key params) [ none ↦ [] | some v ↦ v ]

abbrev pub realm : List ℕ
realm = b'r' ∷ b'e' ∷ b'a' ∷ b'l' ∷ b'm' ∷ []

abbrev pub service : List ℕ
service = b's' ∷ b'e' ∷ b'r' ∷ b'v' ∷ b'i' ∷ b'c' ∷ b'e' ∷ []

abbrev pub scope : List ℕ
scope = b's' ∷ b'c' ∷ b'o' ∷ b'p' ∷ b'e' ∷ []

abbrev pub onto_first : ℕ → List (List ℕ) → List (List ℕ)
onto_first b [] = (b ∷ []) ∷ []
onto_first b (field ∷ fields) = (b ∷ field) ∷ fields

-- The loop, with inQuote.
unfoldable pub split_from : (sep : ℕ) → (in_quote : Bool) → List ℕ → List (List ℕ)
split_from sep in_quote [] = [] ∷ []
split_from sep in_quote (b ∷ s) =
    let closed = split_from sep (not in_quote) s in
    let rest = split_from sep in_quote s in
    if b == b'"'
    then onto_first b closed
    else if b == sep && not in_quote
    then [] ∷ rest
    else onto_first b rest

unfoldable pub split_outside_quotes : List ℕ → (sep : ℕ) → List (List ℕ)
unfolding split_from
split_outside_quotes s sep = split_from sep false s

-- The last byte of a text is c, its first byte being b.
ends_in : ℕ → ℕ → List ℕ → Bool
ends_in c b [] = b == c
ends_in c b (d ∷ s) = ends_in c d s

drop_last : ℕ → List ℕ → List ℕ
drop_last b [] = []
drop_last b (d ∷ s) = b ∷ drop_last d s

-- Without the quotes around a value of at least 2 bytes.
unquote : List ℕ → List ℕ
unfolding ends_in drop_last
unquote [] = []
unquote (b ∷ []) = b ∷ []
unquote (b ∷ c ∷ s) = if b == b'"' && ends_in b'"' c s then drop_last c s else b ∷ c ∷ s

-- ASCII letters in lower case: no other byte folds to a letter of "bearer".
abbrev lower : ℕ → ℕ
lower b = if leb 65 b && leb b 90 then b + 32 else b

strip_bearer : List ℕ → List ℕ
unfolding same
strip_bearer (b1 ∷ b2 ∷ b3 ∷ b4 ∷ b5 ∷ b6 ∷ b7 ∷ s) =
    let start = b1 ∷ b2 ∷ b3 ∷ b4 ∷ b5 ∷ b6 ∷ b7 ∷ [] in
    if same (map lower start) (b'b' ∷ b'e' ∷ b'a' ∷ b'r' ∷ b'e' ∷ b'r' ∷ b' ' ∷ [])
    then s
    else start ++ s
strip_bearer s = s

pub record CachedToken : Type 0 where
  pub token : List ℕ
  pub expires : ℕ

-- Nanoseconds.
abbrev pub token_cache_ttl : ℕ
token_cache_ttl = 60000000000

-- url.Parse with the query of service and scope, where they are set; and a GET of it, with the decoded
-- token and access_token of a body that decodes.
pub record Realm (W : Type 0) : Type 0 where
  pub now : W → ℕ × W
  pub build_url : (realm service scope : List ℕ) → Option (List ℕ)
  pub get : List ℕ → W → Option (ℕ × Option (List ℕ × List ℕ)) × W

pub record AnonymousAuth (W : Type 0) : Type 0 where
  pub cache : List (List ℕ × CachedToken)
  pub world : W

module _ (strings : Strings) where
  -- `none` where a field has no "=".
  put_field : Option (List ℕ × List ℕ) → Params → Params
  unfolding unquote
  put_field none out = out
  put_field (some (key, value)) out =
      (strings.to_lower (strings.trim_space key), unquote (strings.trim_space value)) ∷ out

  put_fields : List (List ℕ) → Params → Params
  unfolding put_field cut_first
  put_fields [] out = out
  put_fields (raw ∷ fields) out =
      let field = strings.trim_space raw in
      put_fields fields (if is_empty field then out else put_field (cut_first b'=' field) out)

  -- An error where there is no realm.
  with_realm : Params → Option (List ℕ) → Option Params
  with_realm params none = none
  with_realm params (some r) = some params

  unfoldable pub parse_challenge : List ℕ → Option Params
  unfolding strip_bearer put_fields split_outside_quotes with_realm find
  parse_challenge challenge =
      let s = strip_bearer (strings.trim_space challenge) in
      let params = put_fields (split_outside_quotes s b',') [] in
      if is_empty s then none else with_realm params (find realm params)

abbrev pub cache_key : Params → List ℕ
cache_key params =
    value_of realm params ++ b'|' ∷ (value_of service params ++ b'|' ∷ value_of scope params)

module _ {W : Type 0} (http : Realm W) where
  -- Of the decoded body.
  token_of : Option (List ℕ × List ℕ) → Option (List ℕ)
  token_of none = none
  token_of (some (token, access_token)) =
      if is_empty token
      then if is_empty access_token then none else some access_token
      else some token

  answer_of : Option (ℕ × Option (List ℕ × List ℕ)) → Option (List ℕ)
  unfolding token_of
  answer_of none = none
  answer_of (some (status, body)) = if status == 200 then token_of body else none

  get_token : Option (List ℕ) → W → Option (List ℕ) × W
  unfolding answer_of
  get_token none w = (none, w)
  get_token (some url) w = let (answer, w1) = http.get url w in (answer_of answer, w1)

  -- `none` is an error.
  unfoldable pub fetch_token : Params → W → Option (List ℕ) × W
  unfolding get_token
  fetch_token params w =
      if is_empty (value_of realm params)
      then (none, w)
      else get_token
          (http.build_url (value_of realm params) (value_of service params) (value_of scope params))
          w

  keep_token : List ℕ → Option (List ℕ) → AnonymousAuth W → Option (List ℕ) × AnonymousAuth W
  keep_token key none a = (none, a)
  keep_token key (some token) a =
      let (now, w) = http.now a.world in
      let entry : CachedToken = record { token = token; expires = now + token_cache_ttl } in
      (some token, record { cache = (key, entry) ∷ a.cache; world = w })

  fetch_and_keep : Params → AnonymousAuth W → Option (List ℕ) × AnonymousAuth W
  unfolding fetch_token keep_token
  fetch_and_keep params a =
      let (token, w) = fetch_token params a.world in
      keep_token (cache_key params) token (record a { world = w })

  -- The clock is only read where there is an entry.
  from_cache : Params → Option CachedToken → AnonymousAuth W → Option (List ℕ) × AnonymousAuth W
  unfolding fetch_and_keep
  from_cache params none a = fetch_and_keep params a
  from_cache params (some entry) a =
      let (now, w) = http.now a.world in
      if ltb now entry.expires
      then (some entry.token, record a { world = w })
      else fetch_and_keep params (record a { world = w })

  bearer_of : Option Params → AnonymousAuth W → Option (List ℕ) × AnonymousAuth W
  unfolding from_cache find
  bearer_of none a = (none, a)
  bearer_of (some params) a = from_cache params (find (cache_key params) a.cache) a

  unfoldable pub anonymous_bearer :
      Strings → List ℕ → AnonymousAuth W → Option (List ℕ) × AnonymousAuth W
  unfolding bearer_of parse_challenge
  anonymous_bearer strings challenge a = bearer_of (parse_challenge strings challenge) a
