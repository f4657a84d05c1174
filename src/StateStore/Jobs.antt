-- ===== src/StateStore/Jobs.antt =====
-- The methods on jobs of internal/statestore/sqlite.go, the default job, and New. The environment is
-- a function, "" for what is not set; strings.ToLower and json.Marshal of a list are parameters.
pub mod Serving
use renovate_docker_operator.Prelude.{
  ℕ, String, Bool, true, false, not, ◌&&◌, ◌||◌, Option, none, some, List, [], ◌∷◌, ◌++◌, map, ℤ,
  pos, negsuc, leb_ℤ, leb, ltb, str_eq, if◌then◌else◌, length, trim_space,
}
use renovate_docker_operator.Api.{RenovateJob, RenovateExecutionOptions, RenovateWebhook, EnvVar}
use renovate_docker_operator.StateStore.Db.{
  JobRow, Db, Codec, StoreError, not_found, failure, Result, ok, err, Session, Action, Done, return,
  or_raise, ◌>>=◌, ◌>>◌, query, update,
}
use renovate_docker_operator.StateStore.Projects.{load_projects}
use renovate_docker_operator.StateStore.Settings.{
  parse_int, tokens, ensure_webhook_secret, reset_orphaned_discovery_status,
}

abbrev pub is_nonzero : ℤ → Bool
is_nonzero (pos n) = ltb 0 n
is_nonzero (negsuc n) = true

-- Scanning an INTEGER into int32 fails out of its range.
abbrev pub fits_int32 : ℤ → Bool
fits_int32 (pos n) = leb n 2147483647
fits_int32 (negsuc n) = leb n 2147483647

-- A list in a JSON text; what does not decode counts as nil.
abbrev pub list_of : {A : Type 0} → Option (List A) → List A
list_of none = []
list_of (some l) = l

module _ (codec : Codec) where
  -- A webhook that is not enabled is nil, and so are execution options without debug.
  unfoldable pub build_renovate_job : JobRow → RenovateJob
  build_renovate_job r = record {
    name = r.name;
    spec = record {
      schedule = r.schedule;
      image = r.image;
      provider = some (record { name = r.platform; endpoint = r.endpoint });
      discovery_filters = list_of (codec.unmarshal_strings r.discovery_filters);
      discover_topics = list_of (codec.unmarshal_strings r.discover_topics);
      skip_forks = is_nonzero r.skip_forks;
      skip_pending_deletion = is_nonzero r.skip_pending_deletion;
      secret_ref = r.secret_ref;
      extra_env = list_of (codec.unmarshal_env r.extra_env);
      parallelism = r.parallelism;
      webhook =
          if is_nonzero r.webhook_enabled
          then some (record {
            enabled = true;
            authentication = some (is_nonzero r.webhook_auth_enabled);
            sync = some (is_nonzero r.webhook_sync_enabled);
          })
          else none;
      allowed_groups = list_of (codec.unmarshal_strings r.allowed_groups);
    };
    status = record {
      projects = [];
      execution_options = if is_nonzero r.debug_mode then some (record { debug = true }) else none;
    };
  }

  -- scanRenovateJob, and scanRenovateJobRow: `none` where a column does not scan.
  unfoldable pub scan_renovate_job : JobRow → Option RenovateJob
  unfolding build_renovate_job
  scan_renovate_job r = if fits_int32 r.parallelism then some (build_renovate_job r) else none

  unfoldable pub attach_projects : RenovateJob → Action RenovateJob
  unfolding load_projects
  attach_projects job = do
    projects ← load_projects codec job.name
    return (record job { status = record job.status { projects = projects } })

  unfoldable pub load_jobs : List JobRow → Action (List RenovateJob)
  unfolding scan_renovate_job attach_projects
  load_jobs [] = return []
  load_jobs (r ∷ rows) = do
    bare ← or_raise (scan_renovate_job r) failure
    job ← attach_projects bare
    rest ← load_jobs rows
    return (job ∷ rest)

  unfoldable pub list_renovate_jobs_full : Action (List RenovateJob)
  unfolding load_jobs
  list_renovate_jobs_full = query (λ d. d.jobs) >>= load_jobs

  abbrev find_job : String → List JobRow → Option JobRow
  find_job name [] = none
  find_job name (r ∷ rows) =
      let rest = find_job name rows in if str_eq r.name name then some r else rest

  unfoldable pub get_renovate_job : String → Action RenovateJob
  unfolding scan_renovate_job attach_projects
  get_renovate_job name = do
    found ← query (λ d. find_job name d.jobs)
    row ← or_raise found not_found
    bare ← or_raise (scan_renovate_job row) failure
    attach_projects bare

unfoldable pub list_renovate_jobs : Action (List String)
list_renovate_jobs = query (λ d. map (λ r. r.name) d.jobs)

-- UPDATE renovate_jobs SET … WHERE name = ?
unfoldable pub update_job_where : String → (JobRow → JobRow) → List JobRow → List JobRow
update_job_where name set [] = []
update_job_where name set (r ∷ rows) =
    (if str_eq r.name name then set r else r) ∷ update_job_where name set rows

abbrev int_of : Bool → ℤ
int_of true = pos 1
int_of false = pos 0

abbrev is_debug : Option RenovateExecutionOptions → Bool
is_debug none = false
is_debug (some options) = options.debug

unfoldable pub update_execution_options : String → Option RenovateExecutionOptions → Action Done
unfolding update_job_where
update_execution_options job options = update (λ d. record d {
  jobs = update_job_where job (λ r. record r { debug_mode = int_of (is_debug options) }) d.jobs;
})

unfoldable pub update_webhook_enabled : String → Bool → Action Done
unfolding update_job_where
update_webhook_enabled job enabled = update (λ d. record d {
  jobs = update_job_where job (λ r. record r { webhook_enabled = int_of enabled }) d.jobs;
})

abbrev env_or_default : (String → String) → (key default : String) → String
env_or_default env key default = if str_eq (env key) "" then default else env key

-- strconv.Atoi reads what ParseInt with 64 bits reads.
env_or_default_int : (String → String) → String → ℤ → ℤ
env_or_default_int env key default =
    if str_eq (env key) ""
    then default
    else elim (parse_int (env key)) [ none ↦ default | some i ↦ i ]

module _ (to_lower : String → String) (marshal : List String → String) where
  bool_to_int : String → ℤ
  bool_to_int s =
      let t = to_lower (trim_space s) in
      if str_eq t "true" || (str_eq t "1" || str_eq t "yes") then pos 1 else pos 0

  bool_to_int_default : String → ℤ → ℤ
  unfolding bool_to_int
  bool_to_int_default s default = if str_eq (trim_space s) "" then default else bool_to_int s

  comma_sep_to_json : String → String
  comma_sep_to_json s = elim (tokens s) [ [] ↦ "[]" | first ∷ others ↦ marshal (first ∷ others) ]

  -- The columns that the INSERT leaves out have the defaults of the table, debug_mode since
  -- migration 2.
  unfoldable pub default_job : (env : String → String) → JobRow
  unfolding comma_sep_to_json bool_to_int bool_to_int_default env_or_default_int
  default_job env = record {
    name = "default";
    schedule = env_or_default env "ROP_CRON_SCHEDULE" "0 */4 * * *";
    image = env_or_default env "ROP_IMAGE" "renovate/renovate:latest";
    platform = env_or_default env "RENOVATE_PLATFORM" "forgejo";
    endpoint = env "ROP_PLATFORM_ENDPOINT";
    discovery_filters = comma_sep_to_json (env "ROP_DISCOVERY_FILTERS");
    discover_topics = comma_sep_to_json (env "ROP_DISCOVER_TOPICS");
    skip_forks = bool_to_int (env "ROP_SKIP_FORKS");
    skip_pending_deletion = pos 0;
    secret_ref = "";
    extra_env = "[]";
    parallelism = env_or_default_int env "ROP_PARALLELISM" (pos 2);
    webhook_enabled = bool_to_int_default (env "ROP_WEBHOOK_ENABLED") (pos 1);
    webhook_auth_enabled = pos 0;
    webhook_sync_enabled = pos 0;
    allowed_groups = "[]";
    debug_mode = pos 1;
  }

  insert_default : (String → String) → ℕ → Action Done
  unfolding default_job
  insert_default env count =
      if ltb 0 count
      then return tt
      else update (λ d. record d { jobs = d.jobs ++ default_job env ∷ [] })

  unfoldable pub seed_default_job : (env : String → String) → Action Done
  unfolding insert_default
  seed_default_job env = do count ← query (λ d. length d.jobs); insert_default env count

  -- New after the migrations, with the webhook tokens; an error of the last step is only logged.
  unfoldable pub start :
      (env : String → String) (random : Option String) → Action (Option (List String))
  unfolding seed_default_job ensure_webhook_secret reset_orphaned_discovery_status
  start env random = do
    seed_default_job env
    webhook_tokens ← ensure_webhook_secret random (env "ROP_WEBHOOK_SECRET")
    (λ s. let (r, s1) = reset_orphaned_discovery_status s in (ok webhook_tokens, s1))
