-- ===== src/Executor/Exit.antt =====
-- classifyOutcome and handleContainerExit of internal/executor/docker.go: what the executor does
-- when a container has stopped.
pub mod Effects
pub mod Handled
use renovate_docker_operator.Prelude.{
  ℕ, ◌+◌, ◌-◌, ◌≡◌, ◌≢◌, ◌⊎◌, inl, inr, refl, ap, String, Bool, true, false, ◌&&◌, not, Option,
  none, some, List, [], ◌∷◌, ◌++◌, ℤ, pos, negsuc, arith, ltb, str_eq, eq_iff, eq_refl,
  if◌then◌else◌, length, Dict, lookup, delete, lookup-delete,
}
use renovate_docker_operator.Resilience.{Source, cron, Outcome, success, rapid_fail, slow_fail}
use renovate_docker_operator.Api.{RenovateProjectStatus, completed, failed, RenovateStatusUpdate}
use renovate_docker_operator.Executor.State.{
  Settings, Labels, Info, ParseResult, World, Report, Observation, Executor,
}

abbrev pub is_zero : ℤ → Bool
is_zero (pos n) = ltb n 1
is_zero (negsuc n) = false

unfoldable pub classify_outcome : Settings → ℤ → ℕ → Outcome
classify_outcome s code runtime =
    if is_zero code
    then success
    else (if ltb runtime s.failure_min_runtime then rapid_fail else slow_fail)

-- The project whose slot holds the container, or "".
unfoldable pub project_of : String → Dict String → String
project_of container [] = ""
project_of container ((project, cid) ∷ running) =
    if str_eq cid container then project else project_of container running

abbrev pub exit_code_of : Option ℤ → ℤ
exit_code_of none = pos 0
exit_code_of (some code) = code

abbrev pub source_or_cron : Option Source → Source
source_or_cron none = cron
source_or_cron (some s) = s

abbrev pub final_status : ℤ → RenovateProjectStatus
final_status code = if is_zero code then completed else failed

is_nonempty : List ℕ → Bool
is_nonempty [] = false
is_nonempty (c ∷ cs) = true

abbrev with_parse : Option ParseResult → RenovateStatusUpdate → RenovateStatusUpdate
with_parse none u = u
with_parse (some r) u = record u {
  renovate_result_status = r.renovate_result_status;
  pr_activity = r.pr_activity;
  log_issues = r.log_issues;
}

module _ {W : Type 0} (rt : World W) where
  -- The runtime since the label's instant, with its text; 0 and no text without one. The label is
  -- cut to whole seconds, so it is not after now while the clock does not run backwards.
  unfoldable pub runtime_since : Option ℕ → W → ℕ × Option String × W
  runtime_since none w = (0, none, w)
  runtime_since (some started_at) w =
      let (now, w1) = rt.now w in
      (now - started_at, some (rt.print_duration (now - started_at)), w1)

  -- Logs that could be read and are not empty are stored and parsed, if the job is known.
  collect_logs : String → String → Option (List ℕ) → W → Option ParseResult × W
  unfolding is_nonempty
  collect_logs job project none w = (none, w)
  collect_logs job project (some logs) w =
      if is_nonempty logs && not (str_eq job "")
      then (some (rt.parse_logs logs), (rt.store_project_logs job project logs w).1)
      else (none, w)

  -- UpdateProjectStatus, whose error is only logged.
  store_outcome : String → String → ℤ → Option String → Option ParseResult → W → W
  store_outcome job project code duration parsed w =
      if str_eq job ""
      then w
      else (rt.update_project_status project job
          (with_parse parsed (record {
            status = final_status code;
            duration = duration;
            renovate_result_status = none;
            pr_activity = none;
            log_issues = none;
          }))
          w).1

  -- From the exit code on.
  finish_exit : String → String → Info → Executor W → Executor W
  unfolding classify_outcome runtime_since collect_logs store_outcome
  finish_exit container project info e =
      let code = exit_code_of info.exit_code in
      let job = info.labels.job_name in
      let (runtime, duration, w) = runtime_since info.labels.started_at e.world in
      let (logs, w1) = rt.container_logs container w in
      let (parsed, w2) = collect_logs job project logs w1 in
      let outcome = classify_outcome e.settings code runtime in
      let source = source_or_cron (lookup project e.sources) in
      record e {
        reports =
            if e.settings.reporter
            then e.reports
              ++ record {
                project = project;
                source = source;
                outcome = outcome;
                duration = runtime;
                exit_code = code;
              }
                ∷ []
            else e.reports;
        observations =
            if e.settings.recorder
            then e.observations
              ++ record { project = project; outcome = outcome; duration = runtime } ∷ []
            else e.observations;
        running = delete project e.running;
        sources = delete project e.sources;
        world = rt.container_remove container (store_outcome job project code duration parsed w2);
      }

  inspected : String → String → Option Info → Executor W → Executor W
  unfolding finish_exit
  inspected container project none e = record e { running = delete project e.running }
  inspected container project (some info) e = finish_exit container project info e

  -- The inspection for the exit code and the job.
  handle_exit : String → String → Executor W → Executor W
  unfolding inspected
  handle_exit container project e =
      let (info, w) = rt.container_inspect container e.world in
      inspected container project info (record e { world = w })

  -- The inspection for the project of a container that no slot holds.
  handle_untracked : String → Option Info → Executor W → Executor W
  unfolding handle_exit
  handle_untracked container none e = e
  handle_untracked container (some info) e =
      if str_eq info.labels.project "" then e else handle_exit container info.labels.project e

  pub handle_container_exit : String → Executor W → Executor W
  unfolding handle_exit handle_untracked project_of
  handle_container_exit container e =
      let project = project_of container e.running in
      if str_eq project ""
      then (let (info, w) = rt.container_inspect container e.world in
          handle_untracked container info (record e { world = w }))
      else handle_exit container project e
