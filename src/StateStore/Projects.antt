-- ===== src/StateStore/Projects.antt =====
-- The methods on projects of internal/statestore/sqlite.go.
pub mod Reconcile
pub mod Updates
pub mod Unique
pub mod Statuses
use renovate_docker_operator.Prelude.{
  ℕ, String, Bool, true, false, not, ◌&&◌, Option, none, some, List, [], ◌∷◌, ◌++◌, map, ℤ, pos,
  str_eq, if◌then◌else◌, any, select, contains,
}
use renovate_docker_operator.Api.{
  RenovateProjectStatus, scheduled, running, completed, failed, cancelled, ProjectStatus,
  RenovateStatusUpdate,
}
use renovate_docker_operator.StateStore.Db.{
  ProjectRow, LogRow, Db, Codec, StoreError, not_found, project_not_found, not_unique, failure,
  Result, ok, err, Action, Done, return, raise, or_raise, ◌>>=◌, ◌>>◌, checked, execute, query,
  update, transaction,
}

-- `WHERE job_name = ? AND full_name = ?`
abbrev pub is_row : String → String → ProjectRow → Bool
is_row job project r = str_eq r.job_name job && str_eq r.full_name project

abbrev pub same_status : RenovateProjectStatus → RenovateProjectStatus → Bool
same_status scheduled scheduled = true
same_status running running = true
same_status completed completed = true
same_status failed failed = true
same_status cancelled cancelled = true
same_status _ _ = false

-- UPDATE … SET … WHERE …, on the rows of the table.
unfoldable pub update_where :
    (ProjectRow → Bool) → (ProjectRow → ProjectRow) → List ProjectRow → List ProjectRow
update_where test set [] = []
update_where test set (r ∷ rows) = (if test r then set r else r) ∷ update_where test set rows

-- A nullable text that is decoded: `none` for NULL and where it does not decode.
abbrev decode : {A : Type 0} → (String → Option A) → Option String → Option A
decode f none = none
decode f (some text) = f text

-- time.Time{} where the column is NULL or is no time.
abbrev time_of : Option ℕ → ℕ
time_of none = 0
time_of (some t) = t

abbrev pub of_job : String → Db → List ProjectRow
of_job job d = select (λ r. str_eq r.job_name job) d.projects

-- nullableJSON: the error is that of json.Marshal.
abbrev pub nullable_json : {A : Type 0} → (A → Option String) → Option A → Action (Option String)
nullable_json marshal none = return none
nullable_json marshal (some a) = do text ← or_raise (marshal a) failure; return (some text)

abbrev pub update_rows : String → String → (ProjectRow → ProjectRow) → Db → Db
update_rows job project set d = record d {
  projects = update_where (is_row job project) set d.projects;
}

-- The UPDATE and its RowsAffected.
abbrev pub update_project : String → String → (ProjectRow → ProjectRow) → Db → Result Done × Db
update_project job project set d =
    checked (any (is_row job project) d.projects) project_not_found (update_rows job project set d)
      d

unfoldable pub update_each : String → (ProjectRow → ProjectRow) → List String → Action Done
update_each job set [] = return tt
update_each job set (project ∷ projects) =
    update (update_rows job project set) >> update_each job set projects

abbrev pub names : List ProjectStatus → List String
names projects = map (λ p. p.name) projects

-- The set of the names in the table, and what is new to it, repetitions included.
abbrev pub removed_names : List String → List String → List String
removed_names existing projects = select (λ name. not (contains name projects)) existing

abbrev pub new_names : List String → List String → List String
new_names existing projects = select (λ name. not (contains name existing)) projects

abbrev pub delete_row : String → String → Db → Db
delete_row job project d = record d {
  projects = select (λ r. not (is_row job project r)) d.projects;
}

unfoldable pub delete_each : String → List String → Action Done
delete_each job [] = return tt
delete_each job (project ∷ projects) = update (delete_row job project) >> delete_each job projects

module _ (codec : Codec) where
  -- The loop body of loadProjects and of scanProjectStatuses.
  unfoldable pub scan_project : ProjectRow → ProjectStatus
  scan_project r = record {
    name = r.full_name;
    last_run = time_of (decode codec.parse_time r.last_run);
    duration = r.duration;
    status = r.status;
    priority = r.priority;
    renovate_result_status = r.renovate_result_status;
    pr_activity = decode codec.unmarshal_activity r.pr_activity;
    log_issues = decode codec.unmarshal_issues r.log_issues;
  }

  unfoldable pub load_projects : String → Action (List ProjectStatus)
  unfolding scan_project
  load_projects job = query (λ d. map scan_project (of_job job d))

  -- RenovateProjectStatus of the store has the fields of ProjectStatus.
  unfoldable pub get_projects_for_renovate_job : String → Action (List ProjectStatus)
  unfolding load_projects
  get_projects_for_renovate_job job = load_projects job

  unfoldable pub get_projects_by_status :
      String → RenovateProjectStatus → Action (List ProjectStatus)
  unfolding scan_project
  get_projects_by_status job status =
      query (λ d. map scan_project (select (λ r. same_status r.status status) (of_job job d)))

  abbrev pub set_update :
      (now : ℕ) → RenovateStatusUpdate → (activity issues : Option String) → ProjectRow → ProjectRow
  set_update now status activity issues r = record r {
    status = status.status;
    last_run = some (codec.format_time now);
    duration = status.duration;
    renovate_result_status = status.renovate_result_status;
    pr_activity = activity;
    log_issues = issues;
  }

  unfoldable pub update_project_status :
      (now : ℕ) (project job : String) → RenovateStatusUpdate → Action Done
  update_project_status now project job status = do
    activity ← nullable_json codec.marshal_activity status.pr_activity
    issues ← nullable_json codec.marshal_issues status.log_issues
    execute (update_project job project (set_update now status activity issues))

  unfoldable pub update_project_status_batched :
      (now : ℕ) → (ProjectStatus → Bool) → (job : String) → RenovateStatusUpdate → Action Done
  unfolding update_each load_projects
  update_project_status_batched now test job status = do
    projects ← load_projects job
    elim (names (select test projects)) [
      | [] ↦ return tt
      | first ∷ others ↦ do
        activity ← nullable_json codec.marshal_activity status.pr_activity
        issues ← nullable_json codec.marshal_issues status.log_issues
        transaction (update_each job (set_update now status activity issues) (first ∷ others))
    ]

  -- The columns that the INSERT leaves out have their defaults.
  abbrev pub new_row : (now : ℕ) (job project : String) → ProjectRow
  new_row now job project = record {
    job_name = job;
    full_name = project;
    status = scheduled;
    priority = pos 0;
    last_run = some (codec.format_time now);
    duration = none;
    renovate_result_status = none;
    pr_activity = none;
    log_issues = none;
    current_container_id = none;
  }

  -- UNIQUE(job_name, full_name)
  abbrev pub insert_row : (now : ℕ) (job project : String) → Db → Result Done × Db
  insert_row now job project d =
      checked (not (any (is_row job project) d.projects)) not_unique
        (record d { projects = d.projects ++ new_row now job project ∷ [] }) d

  unfoldable pub insert_each : (now : ℕ) → String → List String → Action Done
  insert_each now job [] = return tt
  insert_each now job (project ∷ projects) =
      execute (insert_row now job project) >> insert_each now job projects

  -- The names that are removed.
  unfoldable pub reconcile_projects : (now : ℕ) (job : String) → List String → Action (List String)
  unfolding delete_each insert_each
  reconcile_projects now job projects = do
    existing ← query (λ d. map (λ r. r.full_name) (of_job job d))
    transaction (
        delete_each job (removed_names existing projects)
        >> insert_each now job (new_names existing projects))
    return (removed_names existing projects)

-- UPDATE … WHERE job_name = ? AND full_name = ? AND status = 'running'
abbrev pub is_running_row : String → String → ProjectRow → Bool
is_running_row job project r = is_row job project r && same_status r.status running

abbrev pub cancel : ProjectRow → ProjectRow
cancel r = record r { status = cancelled; current_container_id = none }

abbrev pub cancel_rows : String → String → Db → Result Done × Db
cancel_rows job project d =
    checked (any (is_running_row job project) d.projects) project_not_found
      (record d { projects = update_where (is_running_row job project) cancel d.projects }) d

-- An error of the first query is dropped, and its container is only logged.
unfoldable pub cancel_project_job : (project job : String) → Action Done
cancel_project_job project job = transaction (λ s.
    let (r, s1) = query (λ d. select (is_running_row job project) d.projects) s in
    execute (cancel_rows job project) s1)

abbrev is_log : String → String → LogRow → Bool
is_log job project l = str_eq l.job_name job && str_eq l.project_name project

-- INSERT OR REPLACE: the row goes to the end.
unfoldable pub store_project_logs : (job project : String) → List ℕ → Action Done
store_project_logs job project log = update (λ d. record d {
  logs =
      select (λ l. not (is_log job project l)) d.logs
      ++ record { job_name = job; project_name = project; log_data = log } ∷ [];
})

abbrev first_log : List LogRow → Option (List ℕ)
first_log [] = none
first_log (l ∷ ls) = some l.log_data

unfoldable pub stream_logs_for_project : (job project : String) → Action (List ℕ)
stream_logs_for_project job project = do
  found ← query (λ d. first_log (select (is_log job project) d.logs))
  or_raise found not_found
