-- ===== src/Config.antt =====
-- config/config.go: the configuration from the environment. A duration is its nanoseconds, an int64.
pub mod Loading
mod Tests
use Prim.Native.Char.{code}
use Prim.Native.String
use renovate_docker_operator.Prelude.{
  ℕ, suc, ◌+◌, ◌-◌, ◌*◌, ◌%◌, ◌^◌, String, Bool, true, false, not, ◌&&◌, ◌||◌, Option, none, some,
  List, [], ◌∷◌, ◌==◌, ltb, ltb_ℤ, ℤ, pos, negsuc, str_eq, if◌then◌else◌, ◌<>◌, trim_space,
  split_commas, Dict, lookup,
}

pub record Config : Type 0 where
  pub sqlite_path : String
  pub renovate_image : String
  pub cache_volume : String
  pub containerbase_cache_volume : String
  pub container_network : String
  pub container_extra_hosts : List String
  pub image_pull_policy : String
  pub parallelism : ℤ
  pub job_timeout : ℤ
  pub grace_period : ℤ
  pub platform : String
  pub platform_endpoint : String
  pub platform_token : String
  pub cron_schedule : String
  pub cron_skip_discovery : Bool
  pub server_port : String
  pub webhook_enabled : Bool
  pub oidc_issuer_url : String
  pub oidc_client_id : String
  pub oidc_client_secret : String
  pub oidc_redirect_url : String
  pub session_secret : String
  pub discovery_filters : String
  pub discover_topics : String
  pub skip_forks : Bool
  pub log_level : String
  pub max_request_body : ℤ
  pub image_cache_ttl : ℤ
  pub check_update_runner_image : Bool
  pub image_update_poll_interval : ℤ
  pub rapid_fail_threshold : ℤ
  pub rapid_fail_window : ℤ
  pub failure_min_runtime : ℤ
  pub backoff_base : ℤ
  pub backoff_max : ℤ
  pub replay_queue_cap : ℤ
  pub metrics_project_label : String

-- strconv.Atoi and strconv.ParseInt, which agree on an int of 64 bits, strconv.ParseBool and
-- time.ParseDuration, `none` for an error; strconv.Itoa and Duration.String; and the hexadecimal
-- text of 32 random bytes.
pub record Library : Type 0 where
  pub atoi : String → Option ℤ
  pub parse_bool : String → Option Bool
  pub parse_duration : String → Option ℤ
  pub itoa : ℤ → String
  pub print_duration : ℤ → String
  pub random : Option String

pub data ConfigError : Type 0 where
  bad_extra_host no_randomness no_endpoint no_token : ConfigError

pub data Loaded : Type 0 where
  loaded : Config → Dict String → Loaded
  refused : ConfigError → Loaded

abbrev pub second : ℕ
second = 1000000000

abbrev pub minute : ℕ
minute = 60000000000

abbrev pub hour : ℕ
hour = 3600000000000

-- The int64 of a 64-bit word.
abbrev int64 : ℕ → ℤ
int64 w = if ltb w (2 ^ 63) then pos w else negsuc (2 ^ 64 - w - 1)

-- time.Duration(n) * time.Second, which wraps around.
unfoldable pub seconds : ℤ → ℤ
seconds (pos n) = int64 (n * second % 2 ^ 64)
seconds (negsuc n) = int64 ((2 ^ 64 - suc n * second % 2 ^ 64) % 2 ^ 64)

-- strings.Cut(s, ":")
unfoldable pub cut_colon : String → Option (String × String)
cut_colon String.[] = none
cut_colon (String.◌∷◌ c s) = if code c == 58 then some ("", s) else elim (cut_colon s) [
  | none ↦ none
  | some (before, after) ↦ some (String.◌∷◌ c before, after)
]

host_of : Option (String × String) → Option String
host_of none = none
host_of (some (name, address)) =
    if str_eq (trim_space name) "" || str_eq (trim_space address) ""
    then none
    else some (trim_space name <> (":" <> trim_space address))

abbrev with_host : Option String → Option (List String) → Option (List String)
with_host none hosts = none
with_host (some host) none = none
with_host (some host) (some hosts) = some (host ∷ hosts)

extra_hosts : List String → Option (List String)
unfolding host_of
extra_hosts [] = some []
extra_hosts (raw ∷ entries) =
    let hosts = extra_hosts entries in
    let entry = trim_space raw in
    if str_eq entry "" then hosts else with_host (host_of (cut_colon entry)) hosts

-- `none` is the error of an entry that is not name:address.
unfoldable pub parse_container_extra_hosts : String → Option (List String)
unfolding extra_hosts
parse_container_extra_hosts raw = extra_hosts (split_commas raw)

-- strings.Join(hosts, ",")
unfoldable pub join_commas : List String → String
join_commas [] = ""
join_commas (h ∷ []) = h
join_commas (h ∷ rest) = h <> ("," <> join_commas rest)

abbrev pub format_bool : Bool → String
format_bool true = "true"
format_bool false = "false"

abbrev or_else : {A : Type 0} → Option A → A → A
or_else none fallback = fallback
or_else (some a) fallback = a

abbrev parse_or : {A : Type 0} → (String → Option A) → String → A → A
parse_or parse v fallback =
    if str_eq v "" then fallback else or_else (parse (trim_space v)) fallback

module _ (lib : Library) (env : String → String) where
  unfoldable pub env_or_default : String → String → String
  env_or_default key fallback = if str_eq (env key) "" then fallback else env key

  unfoldable pub env_or_default_int : String → ℤ → ℤ
  env_or_default_int key fallback = parse_or lib.atoi (env key) fallback

  unfoldable pub env_or_default_int64 : String → ℤ → ℤ
  env_or_default_int64 key fallback = parse_or lib.atoi (env key) fallback

  unfoldable pub env_or_default_bool : String → Bool → Bool
  env_or_default_bool key fallback = parse_or lib.parse_bool (env key) fallback

  unfoldable pub env_or_default_duration : String → ℤ → ℤ
  env_or_default_duration key fallback = parse_or lib.parse_duration (env key) fallback

  -- The configuration with these hosts and this session secret.
  unfoldable pub config_of : List String → String → Config
  unfolding env_or_default env_or_default_int env_or_default_int64 env_or_default_bool
      env_or_default_duration seconds
  config_of hosts secret =
      let ttl = env_or_default_duration "ROP_IMAGE_CACHE_TTL" (pos (24 * hour)) in
      record {
        sqlite_path = env_or_default "ROP_SQLITE_PATH" "/data/renovate.db";
        renovate_image = env_or_default "ROP_IMAGE" "renovate/renovate:latest";
        cache_volume = env_or_default "ROP_CACHE_VOLUME" "renovate-cache";
        containerbase_cache_volume =
            env_or_default "ROP_CONTAINERBASE_CACHE_VOLUME" "renovate-containerbase-cache";
        container_network = env "ROP_CONTAINER_NETWORK";
        container_extra_hosts = hosts;
        image_pull_policy = env_or_default "ROP_IMAGE_PULL_POLICY" "if-not-present";
        parallelism = env_or_default_int "ROP_PARALLELISM" (pos 2);
        job_timeout = seconds (env_or_default_int "ROP_JOB_TIMEOUT" (pos 1800));
        grace_period = seconds (env_or_default_int "ROP_SHUTDOWN_GRACE_PERIOD" (pos 300));
        platform = env_or_default "RENOVATE_PLATFORM" "forgejo";
        platform_endpoint = env "ROP_PLATFORM_ENDPOINT";
        platform_token = env "RENOVATE_TOKEN";
        cron_schedule = env_or_default "ROP_CRON_SCHEDULE" "0 */4 * * *";
        cron_skip_discovery = env_or_default_bool "ROP_CRON_SKIP_DISCOVERY" false;
        server_port = env_or_default "ROP_SERVER_PORT" "8081";
        webhook_enabled = env_or_default_bool "ROP_WEBHOOK_ENABLED" true;
        oidc_issuer_url = env "ROP_OIDC_ISSUER_URL";
        oidc_client_id = env "ROP_OIDC_CLIENT_ID";
        oidc_client_secret = env "ROP_OIDC_CLIENT_SECRET";
        oidc_redirect_url = env "ROP_OIDC_REDIRECT_URL";
        session_secret = secret;
        discovery_filters = env "ROP_DISCOVERY_FILTERS";
        discover_topics = env "ROP_DISCOVER_TOPICS";
        skip_forks = env_or_default_bool "ROP_SKIP_FORKS" false;
        log_level = env_or_default "ROP_LOG_LEVEL" "info";
        max_request_body = env_or_default_int64 "ROP_MAX_REQUEST_BODY" (pos (2 * 1024 * 1024));
        image_cache_ttl = ttl;
        check_update_runner_image = env_or_default_bool "ROP_CHECK_UPDATE_RUNNER_IMAGE" true;
        image_update_poll_interval = env_or_default_duration "ROP_IMAGE_UPDATE_POLL_INTERVAL" ttl;
        rapid_fail_threshold = env_or_default_int "ROP_RAPID_FAIL_THRESHOLD" (pos 10);
        rapid_fail_window = env_or_default_duration "ROP_RAPID_FAIL_WINDOW" (pos (5 * minute));
        failure_min_runtime = env_or_default_duration "ROP_FAILURE_MIN_RUNTIME" (pos (30 * second));
        backoff_base = env_or_default_duration "ROP_BACKOFF_BASE" (pos minute);
        backoff_max = env_or_default_duration "ROP_BACKOFF_MAX" (pos hour);
        replay_queue_cap = env_or_default_int "ROP_REPLAY_QUEUE_CAP" (pos 10000);
        metrics_project_label = env_or_default "ROP_METRICS_PROJECT_LABEL" "all";
      }

  -- configValues
  unfoldable pub values_of : Config → Dict String
  unfolding env_or_default_int join_commas
  values_of c =
      ("ROP_SQLITE_PATH", c.sqlite_path)
      ∷ ("ROP_IMAGE", c.renovate_image)
      ∷ ("ROP_CACHE_VOLUME", c.cache_volume)
      ∷ ("ROP_CONTAINERBASE_CACHE_VOLUME", c.containerbase_cache_volume)
      ∷ ("ROP_CONTAINER_NETWORK", c.container_network)
      ∷ ("ROP_CONTAINER_EXTRA_HOSTS", join_commas c.container_extra_hosts)
      ∷ ("ROP_IMAGE_PULL_POLICY", c.image_pull_policy)
      ∷ ("ROP_PARALLELISM", lib.itoa c.parallelism)
      ∷ ("ROP_JOB_TIMEOUT", lib.itoa (env_or_default_int "ROP_JOB_TIMEOUT" (pos 1800)))
      ∷ (
        "ROP_SHUTDOWN_GRACE_PERIOD",
        lib.itoa (env_or_default_int "ROP_SHUTDOWN_GRACE_PERIOD" (pos 300)),
      )
      ∷ ("RENOVATE_PLATFORM", c.platform)
      ∷ ("ROP_PLATFORM_ENDPOINT", c.platform_endpoint)
      ∷ ("RENOVATE_TOKEN", c.platform_token)
      ∷ ("ROP_CRON_SCHEDULE", c.cron_schedule)
      ∷ ("ROP_CRON_SKIP_DISCOVERY", format_bool c.cron_skip_discovery)
      ∷ ("ROP_SERVER_PORT", c.server_port)
      ∷ ("ROP_WEBHOOK_ENABLED", format_bool c.webhook_enabled)
      ∷ ("ROP_OIDC_ISSUER_URL", c.oidc_issuer_url)
      ∷ ("ROP_OIDC_CLIENT_ID", c.oidc_client_id)
      ∷ ("ROP_OIDC_CLIENT_SECRET", c.oidc_client_secret)
      ∷ ("ROP_OIDC_REDIRECT_URL", c.oidc_redirect_url)
      ∷ ("ROP_SESSION_SECRET", c.session_secret)
      ∷ ("ROP_DISCOVERY_FILTERS", c.discovery_filters)
      ∷ ("ROP_DISCOVER_TOPICS", c.discover_topics)
      ∷ ("ROP_SKIP_FORKS", format_bool c.skip_forks)
      ∷ ("ROP_LOG_LEVEL", c.log_level)
      ∷ ("ROP_MAX_REQUEST_BODY", lib.itoa c.max_request_body)
      ∷ ("ROP_IMAGE_CACHE_TTL", lib.print_duration c.image_cache_ttl)
      ∷ ("ROP_CHECK_UPDATE_RUNNER_IMAGE", format_bool c.check_update_runner_image)
      ∷ ("ROP_IMAGE_UPDATE_POLL_INTERVAL", lib.print_duration c.image_update_poll_interval)
      ∷ ("ROP_RAPID_FAIL_THRESHOLD", lib.itoa c.rapid_fail_threshold)
      ∷ ("ROP_RAPID_FAIL_WINDOW", lib.print_duration c.rapid_fail_window)
      ∷ ("ROP_FAILURE_MIN_RUNTIME", lib.print_duration c.failure_min_runtime)
      ∷ ("ROP_BACKOFF_BASE", lib.print_duration c.backoff_base)
      ∷ ("ROP_BACKOFF_MAX", lib.print_duration c.backoff_max)
      ∷ ("ROP_REPLAY_QUEUE_CAP", lib.itoa c.replay_queue_cap)
      ∷ ("ROP_METRICS_PROJECT_LABEL", c.metrics_project_label)
      ∷ []

  -- The checks of the required fields.
  required : Config → Loaded
  required c =
      if str_eq c.platform_endpoint ""
      then refused no_endpoint
      else if str_eq c.platform_token ""
      then refused no_token
      else loaded c (values_of c)

  with_secret : List String → Option String → Loaded
  unfolding required
  with_secret hosts none = refused no_randomness
  with_secret hosts (some secret) = required (config_of hosts secret)

  with_hosts : Option (List String) → Loaded
  unfolding with_secret
  with_hosts none = refused bad_extra_host
  with_hosts (some hosts) =
      with_secret hosts (
        if str_eq (env "ROP_SESSION_SECRET") ""
        then lib.random
        else some (env "ROP_SESSION_SECRET"))

  unfoldable pub load : Loaded
  unfolding with_hosts
  load = with_hosts (parse_container_extra_hosts (env "ROP_CONTAINER_EXTRA_HOSTS"))

-- `none` is a nil map.
unfoldable pub get_value : Option (Dict String) → String → String
get_value none key = ""
get_value (some values) key = or_else (lookup key values) ""

pub data Invalid : Type 0 where
  nil_config bad_image interval_too_short : Invalid

abbrev pub min_image_update_poll_interval : ℕ
min_image_update_poll_interval = 15 * minute

valid_interval : ℤ → Option Invalid
valid_interval interval =
    if ltb_ℤ (pos 0) interval && ltb_ℤ interval (pos min_image_update_poll_interval)
    then some interval_too_short
    else none

-- `none` is no parser, and a parser says whether a reference parses.
valid_image : Option (String → Bool) → Config → Option Invalid
unfolding valid_interval
valid_image none c = valid_interval c.image_update_poll_interval
valid_image (some parses) c =
    if parses c.renovate_image then valid_interval c.image_update_poll_interval else some bad_image

-- `none` is no error.
unfoldable pub validate :
    (config : Option Config) → (parse_ref : Option (String → Bool)) → Option Invalid
unfolding valid_image
validate none parse_ref = some nil_config
validate (some c) parse_ref = if c.check_update_runner_image then valid_image parse_ref c else none
