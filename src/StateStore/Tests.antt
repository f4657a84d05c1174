-- ===== src/StateStore/Tests.antt =====
-- The store on small tables, and the theorems about it at concrete ones.
mod Starts
mod Serving
use Prim.Native.String
use renovate_docker_operator.Prelude.{
  ℕ, zero, suc, ◌+◌, ◌*◌, ◌/◌, ◌<◌, ◌≤◌, ◌==◌, String, ◌≡◌, ◌↔◌, ◌⊎◌, inl, inr, refl, ap, Bool,
  true, false, not, ◌&&◌, Option, none, some, List, [], ◌∷◌, pos, negsuc, arith, any, contains,
  if◌then◌else◌, str_eq,
}
use renovate_docker_operator.Api.{
  LogIssue, LogIssues, ProjectStatus, RenovateStatusUpdate, scheduled, running, completed,
  only_status,
}
use renovate_docker_operator.Resilience.{second}
use renovate_docker_operator.StateStore.Db.{
  ProjectRow, Db, Codec, Result, ok, err, Session, failure, project_not_found, not_unique, ◌>>◌,
  execute, query, transaction, update,
}
use renovate_docker_operator.StateStore.Db.Rules.{Outcome, Succeeds}
use renovate_docker_operator.StateStore.Projects.{
  is_row, update_project_status, reconcile_projects, get_projects_for_renovate_job,
}
use renovate_docker_operator.StateStore.Projects.Reconcile.{
  find_row, is_some, reconciled, reconcile_projects_lem,
}
use renovate_docker_operator.StateStore.Projects.Updates.{
  IsCodec, map_option, shown, applied, written, update_project_status_lem,
  schedule_before_exit_is_lost,
}

-- One tick for each second.
unfoldable pub ticks : ℕ → String
ticks zero = ""
ticks (suc n) = String.◌∷◌ "i" (ticks n)

unfoldable pub count : String → ℕ
count String.[] = zero
count (String.◌∷◌ c s) = suc (count s)

count-ticks : (n : ℕ) → count (ticks n) ≡ n
unfolding count ticks
count-ticks zero = refl
count-ticks (suc n) = ap suc (count-ticks n)

abbrev pub no_issues : LogIssues
no_issues = record { warn_count = 0; error_count = 0; issues = []; truncated = false }

abbrev pub is_none : {A : Type 0} → List A → Bool
is_none [] = true
is_none (a ∷ l) = false

-- A codec that writes no issues but these.
abbrev pub marshal_issues : LogIssues → Option String
marshal_issues i =
    if (i.warn_count == 0 && i.error_count == 0) && (is_none i.issues && not i.truncated)
    then some "none"
    else none

abbrev pub codec : Codec
codec = record {
  format_time = λ t. ticks (t / second);
  parse_time = λ s. some (count s * second);
  marshal_activity = λ a. none;
  unmarshal_activity = λ s. none;
  marshal_issues = marshal_issues;
  unmarshal_issues = λ s. some no_issues;
  unmarshal_strings = λ s. some [];
  unmarshal_env = λ s. some [];
}

pub codec-IsCodec : IsCodec codec
codec-IsCodec = record { time = λ t early. ap (λ n. some (n * second)) (count-ticks (t / second)) }

abbrev pub row : String → String → ProjectRow
row job project = record {
  job_name = job;
  full_name = project;
  status = running;
  priority = pos 0;
  last_run = none;
  duration = none;
  renovate_result_status = none;
  pr_activity = none;
  log_issues = none;
  current_container_id = some "c1";
}

abbrev pub db : Db
db = record {
  jobs = [];
  projects = row "main" "org/a" ∷ row "main" "org/b" ∷ row "other" "org/a" ∷ [];
  logs = [];
  settings = [];
  discovery = [];
}

abbrev pub session : Session
session = record { db = db; faults = false ∷ [] }

-- A session whose second statement fails.
abbrev failing : Session
failing = record { db = db; faults = false ∷ true ∷ [] }

abbrev pub done : RenovateStatusUpdate
done = record {
  status = completed;
  duration = some "1m";
  renovate_result_status = some "done";
  pr_activity = none;
  log_issues = some no_issues;
}

update_run : (update_project_status codec (3 * second) "org/a" "main" done session).0 ≡ ok tt
unfolding update_project_status execute
update_run = refl

reconcile_run :
    (reconcile_projects codec 0 "main" ("org/b" ∷ "org/c" ∷ []) session).0 ≡ ok ("org/a" ∷ [])
unfolding reconcile_projects query transaction update contains
reconcile_run = refl

-- A new project that is listed twice.
reconcile_twice_run :
    (reconcile_projects codec 0 "main" ("org/c" ∷ "org/c" ∷ []) session).0 ≡ err not_unique
unfolding reconcile_projects query transaction update contains
reconcile_twice_run = refl

reconcile_fault_run :
    reconcile_projects codec 0 "main" ("org/b" ∷ "org/c" ∷ []) failing
    ≡ (err failure, record { db = db; faults = [] })
unfolding reconcile_projects query transaction update contains
reconcile_fault_run = refl

reconcile_projects_lem_example :
    Outcome db
      (λ removed d1.
        (find_row "main" "org/c" d1.projects
          ≡ reconciled "main" "main" "org/c" codec 0
              ("org/b" ∷ "org/c" ∷ [])
              (find_row "main" "org/c" db.projects))
        × (contains "org/c" removed ≡ (
            any (is_row "main" "org/c") db.projects
            && not (contains "org/c" ("org/b" ∷ "org/c" ∷ [])))))
      (reconcile_projects codec 0 "main" ("org/b" ∷ "org/c" ∷ []) session).0
      (reconcile_projects codec 0 "main" ("org/b" ∷ "org/c" ∷ []) session).1.db
reconcile_projects_lem_example =
    reconcile_projects_lem "main" "main" "org/c" codec 0 ("org/b" ∷ "org/c" ∷ []) session

update_project_status_lem_example :
    Outcome db
      (λ v d1.
        (is_some (find_row "main" "org/a" db.projects) ≡ true)
        × (shown codec (find_row "main" "org/a" d1.projects)
            ≡ map_option
                (written codec codec-IsCodec
                  (3 * second)
                  (omega arith)
                  "main"
                  "org/a"
                  "main"
                  "org/a"
                  done)
                (shown codec (find_row "main" "org/a" db.projects))))
      (update_project_status codec (3 * second) "org/a" "main" done session).0
      (update_project_status codec (3 * second) "org/a" "main" done session).1.db
update_project_status_lem_example =
    update_project_status_lem codec codec-IsCodec (3 * second) (omega arith) "main" "org/a" "main"
      "org/a" done session
