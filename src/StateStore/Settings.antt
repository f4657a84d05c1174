-- ===== src/StateStore/Settings.antt =====
-- internal/statestore/settings.go, and the webhook secret, the signature checks and the discovery
-- status of internal/statestore/sqlite.go.
pub mod Secret
pub mod Freshness
use Prim.Native.Char.{code}
use Prim.Native.String.{len}
use text.Mathlib.Text.{starts_with}
use renovate_docker_operator.Prelude.{
  ℕ, zero, suc, ◌+◌, ◌-◌, ◌*◌, min, String, Bool, true, false, not, ◌&&◌, ◌||◌, Option, none, some,
  List, [], ◌∷◌, map, ℤ, pos, negsuc, leb_ℤ, Dict, lookup, put, leb, ltb, ◌==◌, str_eq,
  if◌then◌else◌, any, contains, ◌<>◌, drop_chars, is_space, trim_space, split_commas,
}
use renovate_docker_operator.Resilience.{second, max_duration}
use renovate_docker_operator.StateStore.Db.{
  DiscoveryRow, Db, Codec, StoreError, failure, Result, ok, err, Action, Done, return, or_raise,
  ◌>>=◌, ◌>>◌, query, update,
}

-- `none` is ("", false, nil).
unfoldable pub get_setting : String → Action (Option String)
get_setting key = query (λ d. lookup key d.settings)

abbrev pub put_setting : String → String → Db → Db
put_setting key value d = record d { settings = put key value d.settings }

unfoldable pub set_setting : String → String → Action Done
set_setting key value = update (put_setting key value)

-- The parts that are not blank, without the spaces around them.
unfoldable pub trimmed : List String → List String
trimmed [] = []
trimmed (part ∷ parts) =
    let rest = trimmed parts in if str_eq (trim_space part) "" then rest else trim_space part ∷ rest

unfoldable pub tokens : String → List String
unfolding split_commas trimmed
tokens secret = trimmed (split_commas secret)

-- The stored secret, or the one that is generated and stored: hex digits of cryptorand.Read, `none`
-- for its error.
unfoldable pub stored_or_generated : Option String → Option String → Action String
unfolding set_setting
stored_or_generated random (some secret) = return secret
stored_or_generated random none = do
  secret ← or_raise random failure
  set_setting "webhook_secret" secret
  return secret

-- ROP_WEBHOOK_SECRET, unless it is empty.
unfoldable pub overridden : String → String → Action String
unfolding set_setting
overridden env secret =
    if str_eq env "" then return secret else (do set_setting "webhook_secret" env; return env)

-- The `default` case slices secret[:4], which panics on a shorter one: `none` is that panic.
unfoldable pub log_secret : (generated : Bool) → String → String → Option (List String)
unfolding tokens
log_secret generated env secret =
    if not (str_eq env "") || (generated || leb 4 (len secret)) then some (tokens secret) else none

abbrev pub is_none : {A : Type 0} → Option A → Bool
is_none none = true
is_none (some a) = false

-- The result is the field webhookTokens.
unfoldable pub ensure_webhook_secret :
    (random : Option String) (env : String) → Action (Option (List String))
unfolding get_setting stored_or_generated overridden log_secret
ensure_webhook_secret random env = do
  stored ← get_setting "webhook_secret"
  loaded ← stored_or_generated random stored
  secret ← overridden env loaded
  return (log_secret (is_none stored) env secret)

-- crypto/hmac, crypto/sha256 and encoding/base64, over the keys K that base64 gives.
pub record Crypto (K : Type 0) : Type 0 where
  pub hmac_hex : (message secret : String) → String
  pub base64_decode : String → Option K
  pub bytes : String → K
  pub hmac_base64 : K → String → String

unfoldable pub is_webhook_token_valid : List String → String → Bool
is_webhook_token_valid webhook_tokens token = contains token webhook_tokens

unfoldable pub is_webhook_signature_valid :
    {K : Type 0} → Crypto K → List String → (signature body : String) → Bool
is_webhook_signature_valid crypto webhook_tokens signature body =
    any (λ token. str_eq signature (crypto.hmac_hex body token)) webhook_tokens

-- strings.Fields
cons_char : Bool → (String → String) → List String → List String
cons_char starts add [] = add "" ∷ []
cons_char true add (field ∷ fields) = add "" ∷ field ∷ fields
cons_char false add (field ∷ fields) = add field ∷ fields

abbrev starts_blank : String → Bool
starts_blank String.[] = true
starts_blank (String.◌∷◌ c s) = is_space (code c)

fields : String → List String
unfolding cons_char
fields String.[] = []
fields (String.◌∷◌ c s) =
    let rest = fields s in
    if is_space (code c) then rest else cons_char (starts_blank s) (λ t. String.◌∷◌ c t) rest

-- strings.Cut(part, ","): `none` where there is no comma.
cut_comma : String → Option (String × String)
cut_comma String.[] = none
cut_comma (String.◌∷◌ c s) =
    let rest = cut_comma s in
    if code c == 44
    then some (String.[], s)
    else elim rest [ none ↦ none | some found ↦ some (String.◌∷◌ c found.0, found.1) ]

is_v1_match : String → Option (String × String) → Bool
is_v1_match expected none = false
is_v1_match expected (some found) = str_eq found.0 "v1" && str_eq found.1 expected

unfoldable pub matches_any_standard_webhook_signature : (header expected : String) → Bool
unfolding fields cut_comma is_v1_match
matches_any_standard_webhook_signature header expected =
    any (λ part. is_v1_match expected (cut_comma part)) (fields header)

abbrev max_int64 : ℕ
max_int64 = 9223372036854775807

-- The value of decimal digits, `none` where there is another character or none at all.
digits_of : ℕ → String → Option ℕ
digits_of n String.[] = some n
digits_of n (String.◌∷◌ c s) =
    let rest = digits_of (n * 10 + (code c - 48)) s in
    if leb 48 (code c) && leb (code c) 57 then rest else none

signed : (negative : Bool) → Option ℕ → Option ℤ
signed negative none = none
signed false (some n) = if leb n max_int64 then some (pos n) else none
signed true (some zero) = some (pos 0)
signed true (some (suc n)) = if leb n max_int64 then some (negsuc n) else none

-- strconv.ParseInt(s, 10, 64)
unfoldable pub parse_int : String → Option ℤ
unfolding digits_of signed
parse_int String.[] = none
parse_int (String.◌∷◌ c s) =
    if code c == 45 || code c == 43
    then (if str_eq s "" then none else signed (code c == 45) (digits_of 0 s))
    else signed false (digits_of 0 (String.◌∷◌ c s))

-- From the year 1, in which package time counts its seconds in an int64, to the Unix epoch.
abbrev pub unix_to_internal : ℕ
unix_to_internal = 62135596800

-- now.Sub(time.Unix(secs, 0)), as package time documents it: the difference, cut to an int64. Where
-- the seconds since the year 1 wrap around, the instant is some 2.9e11 years before the clock.
unfoldable pub elapsed : (now : ℕ) → ℤ → ℤ
elapsed now (pos secs) =
    if ltb max_int64 (secs + unix_to_internal)
    then pos max_duration
    else if leb (secs * second) now
    then pos (min (now - secs * second) max_duration)
    else negsuc (min (secs * second - now - 1) max_duration)
elapsed now (negsuc secs) = pos (min (now + (secs + 1) * second) max_duration)

-- -delta on an int64: the least one is its own negation.
unfoldable pub negated : ℤ → ℤ
negated (pos zero) = pos 0
negated (pos (suc n)) = negsuc n
negated (negsuc n) = if n == max_duration then negsuc n else pos (n + 1)

abbrev pub tolerance : ℕ
tolerance = 5 * 60 * second

unfoldable pub is_fresh : (now : ℕ) → ℤ → Bool
unfolding elapsed negated
is_fresh now secs =
    let delta = elapsed now secs in
    leb_ℤ (if leb_ℤ (pos 0) delta then delta else negated delta) (pos tolerance)

-- An instant is in nanoseconds since the Unix epoch here.
unfoldable pub is_standard_webhook_timestamp_fresh : (timestamp : String) (now : ℕ) → Bool
unfolding parse_int is_fresh
is_standard_webhook_timestamp_fresh timestamp now = elim (parse_int (trim_space timestamp)) [
  | none ↦ false
  | some secs ↦ is_fresh now secs
]

module _ {K : Type 0} (crypto : Crypto K) where
  unfoldable pub decode_standard_webhook_signing_key : String → Option K
  decode_standard_webhook_signing_key secret =
      if str_eq secret ""
      then none
      else (if starts_with secret "whsec_"
          then crypto.base64_decode (drop_chars 6 secret)
          else elim (crypto.base64_decode secret) [
            | none ↦ some (crypto.bytes secret)
            | some key ↦ some key
          ])

  signed_by : (content signature : String) → Option K → Bool
  unfolding matches_any_standard_webhook_signature
  signed_by content signature none = false
  signed_by content signature (some key) =
      matches_any_standard_webhook_signature signature (crypto.hmac_base64 key content)

  unfoldable pub is_webhook_standard_signature_valid :
      (now : ℕ) → List String → (msg_id timestamp signature body : String) → Bool
  unfolding is_standard_webhook_timestamp_fresh decode_standard_webhook_signing_key signed_by
  is_webhook_standard_signature_valid now webhook_tokens msg_id timestamp signature body =
      if str_eq msg_id "" || str_eq signature ""
      then false
      else (if is_standard_webhook_timestamp_fresh timestamp now
          then any
              (λ token.
                signed_by (msg_id <> ("." <> (timestamp <> ("." <> body)))) signature
                  (decode_standard_webhook_signing_key token))
              webhook_tokens
          else false)

abbrev format_option : Codec → Option ℕ → Option String
format_option codec none = none
format_option codec (some t) = some (codec.format_time t)

unfoldable pub set_discovery_status :
    Codec → (job status : String) (started completed : Option ℕ) (message : String) → Action Done
set_discovery_status codec job status started completed message = update (λ d. record d {
  discovery =
      put job
        (record {
          status = status;
          started_at = format_option codec started;
          completed_at = format_option codec completed;
          error_message = some message;
        })
        d.discovery;
})

pub record DiscoveryStatus : Type 0 where
  pub status : String
  pub started_at : Option ℕ
  pub completed_at : Option ℕ
  pub error : String

-- `t, _ := time.Parse(…)`: a text that is no time gives the zero time.
abbrev time_option : Codec → Option String → Option ℕ
time_option codec none = none
time_option codec (some text) = elim (codec.parse_time text) [ none ↦ some 0 | some t ↦ some t ]

abbrev text_of : Option String → String
text_of none = ""
text_of (some text) = text

unfoldable pub discovery_of : Codec → DiscoveryRow → DiscoveryStatus
discovery_of codec r = record {
  status = r.status;
  started_at = time_option codec r.started_at;
  completed_at = time_option codec r.completed_at;
  error = text_of r.error_message;
}

unfoldable pub get_discovery_status : Codec → String → Action (Option DiscoveryStatus)
unfolding discovery_of
get_discovery_status codec job =
    query
      (λ d. elim (lookup job d.discovery) [ none ↦ none | some r ↦ some (discovery_of codec r) ])

abbrev reset_row : DiscoveryRow → DiscoveryRow
reset_row r =
    if str_eq r.status "running"
    then record r {
      status = "idle";
      error_message = some "reset: server restarted during discovery";
    }
    else r

unfoldable pub reset_orphaned_discovery_status : Action Done
reset_orphaned_discovery_status =
    update (λ d. record d { discovery = map (λ e. (e.0, reset_row e.1)) d.discovery })
