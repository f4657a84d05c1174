-- ===== src/Scheduler/Tests.antt =====
-- DispatchProjects on small inputs, and the theorems about it at concrete inputs.
use renovate_docker_operator.Prelude.{
  ℕ, ◌+◌, String, ◌≡◌, refl, true, false, none, some, List, [], ◌∷◌, ◌++◌, pos, length,
  if◌then◌else◌, str_eq, lookup,
}
use renovate_docker_operator.Resilience.{cron, Config, open_state, new, get_or_create_project}
use renovate_docker_operator.Scheduler.{
  DispatchFunc, Dispatcher, dispatch_project, dispatch_projects,
}
use renovate_docker_operator.Scheduler.Dispatch.{
  admitted, labels, gate_after, run_all, first_error, dispatch_projects_lem,
}
use renovate_docker_operator.Scheduler.Gated.{Clocked}

-- A callback that logs the project, and fails for "b".
abbrev log_project : DispatchFunc (List String) String
log_project project log = (if str_eq project "b" then some project else none, log ++ project ∷ [])

abbrev ungated : Dispatcher ℕ
ungated = record { gate = none; metrics = true }

ungated_run :
    (dispatch_projects ungated ("a" ∷ "b" ∷ "c" ∷ []) cron log_project 0 []).first_err ≡ some "b"
unfolding dispatch_projects dispatch_project
ungated_run = refl

dispatch_projects_lem_example :
    let through = admitted ungated.gate cron ("a" ∷ "b" ∷ []) 0 in
    dispatch_projects ungated ("a" ∷ "b" ∷ []) cron log_project 0 [] ≡ record {
      gate_state = gate_after ungated.gate cron ("a" ∷ "b" ∷ []) 0;
      callback_state = run_all log_project through [];
      recorded = labels ungated.gate cron ("a" ∷ "b" ∷ []) 0;
      count = length through;
      first_err = first_error log_project through [];
    }
dispatch_projects_lem_example = dispatch_projects_lem ungated cron log_project ("a" ∷ "b" ∷ []) 0 []

abbrev defaults : Config
defaults = record {
  failure_min_runtime = pos 0;
  backoff_base = pos 0;
  backoff_max = pos 0;
  rapid_fail_window = pos 0;
  rapid_fail_threshold = pos 0;
  replay_queue_cap = pos 0;
}

abbrev shut : Clocked
shut = record {
  manager = record (new defaults) { state = open_state };
  readings = λ n. 1000 + n;
  reads = 0;
}

a_unmarked : (get_or_create_project "a" shut.manager).manual_pending ≡ false
unfolding get_or_create_project new lookup
a_unmarked = refl
