-- ===== src/Server/Debug.antt =====
-- The debug option, from the request of internal/server/server.go over the row of
-- internal/statestore/sqlite.go to the variables of internal/executor/docker.go.
use renovate_docker_operator.Prelude.{
  Dict, String, ◌≡◌, refl, ◌∙◌, Bool, true, false, none, some, List, [], ◌∷◌, str_eq, lookup,
  lookup-put, if◌then◌else◌,
}
use renovate_docker_operator.Api.{RenovateJob}
use renovate_docker_operator.StateStore.Db.{JobRow, Codec}
use renovate_docker_operator.StateStore.Jobs.{is_nonzero, build_renovate_job}
use renovate_docker_operator.Executor.Env.{log_level, put_joined, put_discovery, defaults}
use renovate_docker_operator.Server.{build_debug_mode_info}

abbrev level_key : String
level_key = "RENOVATE_LOG_LEVEL"

put_joined-level :
    (k : String) (items : List String) (env : Dict String)
    → str_eq k level_key ≡ false
    → lookup level_key (put_joined k items env) ≡ lookup level_key env
unfolding put_joined
put_joined-level k [] env e = refl
put_joined-level k (s ∷ rest) env e = lookup-put k level_key _ env ∙ rw e refl

put_discovery-level :
    (is_discovery : Bool) (job : RenovateJob) (env : Dict String)
    → lookup level_key (put_discovery is_discovery job env) ≡ lookup level_key env
unfolding put_discovery
put_discovery-level false job env = refl
put_discovery-level true job env =
    put_joined-level "RENOVATE_AUTODISCOVER_TOPICS" job.spec.discover_topics _ refl
    ∙ put_joined-level "RENOVATE_AUTODISCOVER_FILTER" job.spec.discovery_filters env refl

-- Whatever debug_mode a job's row has, the job that the store makes of it runs its containers with
-- the log level debug and is shown with debug mode on, unless the environment sets another level: a
-- row with debug_mode 0 gives no options, and no options count as debug.
pub debug_stays_on :
    (codec : Codec) (row : JobRow) (is_discovery : Bool)
    → (lookup "RENOVATE_LOG_LEVEL" (defaults (build_renovate_job codec row) is_discovery)
        ≡ some "debug")
      × ((build_debug_mode_info "" (build_renovate_job codec row).status.execution_options).enabled
          ≡ true)
unfolding defaults build_renovate_job log_level build_debug_mode_info
debug_stays_on codec row is_discovery = choose (is_nonzero row.debug_mode) (
    put_discovery-level is_discovery (build_renovate_job codec row) _
    ∙ lookup-put level_key level_key _ _)
  where
    choose :
        (on : Bool)
        → lookup level_key (defaults (build_renovate_job codec row) is_discovery)
          ≡ some (log_level (if on then some (record { debug = true }) else none))
        → (lookup level_key (defaults (build_renovate_job codec row) is_discovery) ≡ some "debug")
          × ((build_debug_mode_info ""
                (if on then some (record { debug = true }) else none)).enabled
              ≡ true)
    choose true e = (e, refl)
    choose false e = (e, refl)
