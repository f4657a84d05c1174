-- ===== src/Executor/Exit/Handled.antt =====
-- What handleContainerExit of internal/executor/docker.go does with an exited container, on every
-- path.
use renovate_docker_operator.Prelude.{
  ℕ, ◌-◌, ◌≤◌, ◌<◌, ◌≡◌, ◌≢◌, ◌⊎◌, String, Bool, true, ◌&&◌, Option, none, some, [], ◌∷◌, ◌++◌, ℤ,
  pos, str_eq, if◌then◌else◌, any, Dict, lookup, delete,
}
use renovate_docker_operator.Resilience.{Source, cron, Outcome, success, rapid_fail, slow_fail}
use renovate_docker_operator.Executor.State.{Info, World, Report, Executor}
use renovate_docker_operator.Executor.Exit.{project_of}

-- Success is exit code 0; of the failures those under the threshold are rapid.
pub data IsOutcome (threshold : ℕ) (code : ℤ) (runtime : ℕ) : Outcome → Type 0 where
  succeeded : code ≡ pos 0 → IsOutcome threshold code runtime success
  failed_soon : code ≢ pos 0 → runtime < threshold → IsOutcome threshold code runtime rapid_fail
  failed_late : code ≢ pos 0 → threshold ≤ runtime → IsOutcome threshold code runtime slow_fail

-- The recorded source, or cron.
pub data IsSource : Option Source → Source → Type 0 where
  recorded : (s : Source) → IsSource (some s) s
  unrecorded : IsSource none cron

-- The exit code, or 0 for a container without a state.
pub data IsCode : Option ℤ → ℤ → Type 0 where
  known : (code : ℤ) → IsCode (some code) code
  unknown : IsCode none (pos 0)

-- The slot of the project holds the container.
abbrev pub holds : String → String → Dict String → Bool
holds project container slots = any (λ s. str_eq s.0 project && str_eq s.1 container) slots

module _ {W : Type 0} (rt : World W) (container : String) where
  -- The project that the exit belongs to, and the world in which it is inspected for the exit code:
  -- that of a slot which holds it, or, where no slot does, that of its label.
  pub data Owner (e : Executor W) : String → W → Type 0 where
    tracked :
        (project : String) → holds project container e.running ≡ true → Owner e project e.world
    labelled :
        (info : Info)
        → project_of container e.running ≡ ""
        → (rt.container_inspect container e.world).0 ≡ some info
        → info.labels.project ≢ ""
        → Owner e info.labels.project (rt.container_inspect container e.world).1

  -- The time since the label's instant, or 0 without one.
  pub data IsRuntime (w : W) : Option ℕ → ℕ → Type 0 where
    unlabelled : IsRuntime w none 0
    since : (started_at : ℕ) → IsRuntime w (some started_at) ((rt.now w).0 - started_at)

  -- What the report of an exit says.
  pub record IsReported (e : Executor W) (project : String) (info : Info) (w : W) (report : Report)
      : Type 0 where
    pub of_project : report.project ≡ project
    pub source : IsSource (lookup project e.sources) report.source
    pub code : IsCode info.exit_code report.exit_code
    pub runtime : IsRuntime w info.labels.started_at report.duration
    pub outcome :
        IsOutcome e.settings.failure_min_runtime report.exit_code report.duration report.outcome

  -- An exit is ignored, gives back the slot, or gives back the slot and the source and is reported.
  pub data IsHandled (e after : Executor W) : Type 0 where
    ignored :
        project_of container e.running ≡ ""
        → ((rt.container_inspect container e.world).0 ≡ none)
          ⊎ ((info : Info) × ((rt.container_inspect container e.world).0 ≡ some info)
              × (info.labels.project ≡ ""))
        → after.running ≡ e.running
        → after.sources ≡ e.sources
        → after.reports ≡ e.reports
        → IsHandled e after
    uninspected :
        (project : String) (w : W)
        → Owner e project w
        → (rt.container_inspect container w).0 ≡ none
        → after.running ≡ delete project e.running
        → after.sources ≡ e.sources
        → after.reports ≡ e.reports
        → IsHandled e after
    reported :
        (project : String) (w : W) (info : Info) (report : Report)
        → Owner e project w
        → (rt.container_inspect container w).0 ≡ some info
        → after.running ≡ delete project e.running
        → after.sources ≡ delete project e.sources
        → IsReported e project info (rt.container_inspect container w).1 report
        → after.reports ≡ (if e.settings.reporter then e.reports ++ report ∷ [] else e.reports)
        → IsHandled e after
