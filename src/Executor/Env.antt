-- ===== src/Executor/Env.antt =====
-- buildEnvVars of internal/executor/docker.go: the environment of a Renovate container.
pub mod Precedence
use text.Mathlib.Text.{starts_with}
use renovate_docker_operator.Prelude.{
  String, Bool, true, false, not, ◌&&◌, Option, none, some, List, [], ◌∷◌, Dict, lookup, put,
  str_eq, if◌then◌else◌,
}
use renovate_docker_operator.Api.{EnvVar, RenovateProvider, RenovateExecutionOptions, RenovateJob}

-- `if v != "" { m[k] = v }`
put_set : String → String → Dict String → Dict String
put_set k v env = if str_eq v "" then env else put k v env

put_provider : Option RenovateProvider → Dict String → Dict String
unfolding put_set
put_provider none env = env
put_provider (some p) env =
    put_set "RENOVATE_ENDPOINT" p.endpoint (put_set "RENOVATE_PLATFORM" p.name env)

-- Debug unless the options are there and say otherwise.
unfoldable pub log_level : Option RenovateExecutionOptions → String
log_level none = "debug"
log_level (some o) = if o.debug then "debug" else "info"

-- strings.Join(items, ",")
join : List String → String
join [] = ""
join (s ∷ []) = s
join (s ∷ t ∷ rest) = Prim.Native.String.◌++◌ s (Prim.Native.String.◌++◌ "," (join (t ∷ rest)))

-- `if len(items) > 0 { m[k] = strings.Join(items, ",") }`
unfoldable pub put_joined : String → List String → Dict String → Dict String
unfolding join
put_joined k [] env = env
put_joined k (s ∷ rest) env = put k (join (s ∷ rest)) env

unfoldable pub put_discovery : Bool → RenovateJob → Dict String → Dict String
unfolding put_joined
put_discovery false job env = env
put_discovery true job env =
    put_joined "RENOVATE_AUTODISCOVER_TOPICS" job.spec.discover_topics
      (put_joined "RENOVATE_AUTODISCOVER_FILTER" job.spec.discovery_filters env)

-- The operator's own RENOVATE_* variables, as os.Environ gives them, each cut at its first "=".
pass_through : List (String × String) → Dict String → Dict String
pass_through [] env = env
pass_through ((k, v) ∷ rest) env =
    pass_through rest (if starts_with k "RENOVATE_" && not (str_eq v "") then put k v env else env)

put_extra : List EnvVar → Dict String → Dict String
put_extra [] env = env
put_extra (e ∷ rest) env = put_extra rest (put e.name e.value env)

-- What the variables are before the passthrough.
unfoldable pub defaults : RenovateJob → Bool → Dict String
unfolding put_provider log_level put_discovery
defaults job is_discovery = put_discovery is_discovery job (
    put "RENOVATE_LOG_LEVEL" (log_level job.status.execution_options) (
      put_provider job.spec.provider (
        ("RENOVATE_LOG_FORMAT", "json")
        ∷ ("NODE_NO_WARNINGS", "1")
        ∷ ("RENOVATE_BASE_DIR", "/tmp/renovate")
        ∷ [])))

-- The protected values are written again where they differ, which writing them always comes to.
protect : Dict String → Dict String
protect env = put "RENOVATE_BASE_DIR" "/tmp/renovate" (put "RENOVATE_LOG_FORMAT" "json" env)

-- The map of the variables: the slice that buildEnvVars returns lists it in the order of the keys.
pub build_env_vars : List (String × String) → RenovateJob → Bool → Dict String
unfolding defaults pass_through protect put_extra
build_env_vars environ job is_discovery =
    put_extra job.spec.extra_env (protect (pass_through environ (defaults job is_discovery)))
