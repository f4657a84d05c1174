-- ===== src/Server/RunAll.antt =====
-- Which projects runRenovateForAllProjects of internal/server/server.go schedules.
use mathlib.Core.List.{map}
use renovate_docker_operator.Prelude.{
  ℕ, String, ◌≡◌, refl, ◌∙◌, ap, sym, Bool, true, false, not, ◌&&◌, Option, none, some, List, [],
  ◌∷◌, arith, str_eq, eq_iff, if◌then◌else◌, any, select, contains,
}
use renovate_docker_operator.Api.{
  RenovateProjectStatus, scheduled, running, completed, failed, cancelled, only_status,
}
use renovate_docker_operator.StateStore.Db.{
  ProjectRow, Db, Codec, ok, with_fault, execute, query, update, committed, end_transaction,
  transaction, return, Action, Done,
}
use renovate_docker_operator.StateStore.Projects.{
  is_row, names, scan_project, load_projects, update_rows, update_each,
  update_project_status_batched, same_status,
}
use renovate_docker_operator.StateStore.Projects.Reconcile.{find_row, is_some, any-find_row}
use renovate_docker_operator.StateStore.Projects.Updates.{map_option}
use renovate_docker_operator.StateStore.Projects.Unique.{IsUnique}
use renovate_docker_operator.StateStore.Projects.Statuses.{
  scheduled_twice, sound, status_of_row, status_in, scheduled_if, schedule_row,
  status_in-update_rows,
}
use renovate_docker_operator.Server.State.{Server, decoded}
use renovate_docker_operator.Server.{is_idle, run_all, run_renovate_for_all_projects}

-- The status after: a running project keeps its status.
abbrev pub started : RenovateProjectStatus → RenovateProjectStatus
started running = running
started _ = scheduled

module _ (codec : Codec) (now : ℕ) (job : String) where
  abbrev wants : Option ProjectRow → Bool
  wants none = false
  wants (some r) = is_idle (scan_project codec r)

  abbrev own : List ProjectRow → List ProjectRow
  own rows = select (λ r. str_eq r.job_name job) rows

  abbrev idle_of : List ProjectRow → List String
  idle_of rows = names (select is_idle (map (scan_project codec) rows))

  abbrev idle_names : List ProjectRow → List String
  idle_names rows = idle_of (own rows)

  contains-idle_names :
      (q : String) (rows : List ProjectRow)
      → IsUnique rows
      → contains q (idle_names rows) ≡ wants (find_row job q rows)
  unfolding contains scan_project
  contains-idle_names q [] u = refl
  contains-idle_names q (r ∷ rows) (alone, u) =
      choose (str_eq r.job_name job) (str_eq r.full_name q) refl (contains-idle_names q rows u)
        (λ in_job here.
          contains-idle_names q rows u
          ∙ missing (find_row job q rows) (
              sym (any-find_row job job q rows)
              ∙ ap (λ j. any (is_row j q) rows) (sym (ground (arith, eq_iff r.job_name job)))
              ∙ ap (λ n. any (is_row r.job_name n) rows)
                  (sym (ground (arith, eq_iff r.full_name q)))
              ∙ alone))
    where
      missing : (o : Option ProjectRow) → is_some o ≡ false → wants o ≡ false
      missing none e = refl
      missing (some p) e = ground arith

      one :
          (here idle : Bool)
          → str_eq r.full_name q ≡ here
          → contains q (idle_names rows) ≡ wants (find_row job q rows)
          → (here ≡ true → contains q (idle_names rows) ≡ false)
          → contains q (
              names (
                if idle
                then scan_project codec r ∷ select is_idle (map (scan_project codec) (own rows))
                else select is_idle (map (scan_project codec) (own rows))))
            ≡ (if here then idle else wants (find_row job q rows))
      one true true e ih lone = rw e refl
      one true false e ih lone = lone refl
      one false true e ih lone = rw e ih
      one false false e ih lone = ih

      wanted :
          (here : Bool)
          → (if here then is_idle (scan_project codec r) else wants (find_row job q rows))
            ≡ wants (if here then some r else find_row job q rows)
      wanted true = refl
      wanted false = refl

      choose :
          (in_job here : Bool)
          → str_eq r.full_name q ≡ here
          → contains q (idle_names rows) ≡ wants (find_row job q rows)
          → (in_job ≡ true → here ≡ true → contains q (idle_names rows) ≡ false)
          → contains q (idle_of (if in_job then r ∷ own rows else own rows))
            ≡ wants (if in_job && here then some r else find_row job q rows)
      choose true here e ih lone =
          one here (is_idle (scan_project codec r)) e ih (lone refl) ∙ wanted here
      choose false here e ih lone = ih

  schedule_each : List String → Db → Db
  schedule_each [] d = d
  schedule_each (p ∷ projects) d =
      schedule_each projects (update_rows job p (schedule_row codec now job) d)

  update_each-sound :
      (projects : List String) (d : Db)
      → update_each job (schedule_row codec now job) projects (sound d)
        ≡ (ok tt, sound (schedule_each projects d))
  unfolding update_each schedule_each update execute with_fault
  update_each-sound [] d = refl
  update_each-sound (p ∷ projects) d =
      update_each-sound projects (update_rows job p (schedule_row codec now job) d)

  status_in-schedule_each :
      (q : String) (projects : List String) (d : Db)
      → status_in job q (schedule_each projects d)
        ≡ scheduled_if (contains q projects) (status_in job q d)
  unfolding schedule_each contains
  status_in-schedule_each q [] d = refl
  status_in-schedule_each q (p ∷ projects) d =
      status_in-schedule_each q projects (update_rows job p (schedule_row codec now job) d)
      ∙ ap (scheduled_if (contains q projects)) (status_in-update_rows codec now job p q d)
      ∙ scheduled_twice (str_eq p q) (contains q projects) (status_in job q d)

  transaction-sound :
      (projects : List String) (d : Db)
      → transaction (update_each job (schedule_row codec now job) projects) (sound d)
        ≡ (ok tt, sound (schedule_each projects d))
  unfolding transaction end_transaction committed with_fault update schedule_each
  transaction-sound projects d = rw (update_each-sound projects d) refl

  batched-sound :
      (d : Db)
      → update_project_status_batched codec now is_idle job (only_status scheduled) (sound d)
        ≡ (ok tt, sound (schedule_each (idle_names d.projects) d))
  unfolding update_project_status_batched load_projects schedule_each query execute with_fault
  batched-sound d = go (idle_names d.projects)
    where
      go :
          (l : List String)
          → (elim l as (λ ps. Action Done) [
            | [] ↦ return tt
            | first ∷ others ↦
                transaction (update_each job (schedule_row codec now job) (first ∷ others))
          ])
              (sound d)
            ≡ (ok tt, sound (schedule_each l d))
      go [] = refl
      go (p ∷ ps) = transaction-sound (p ∷ ps) d

  started-scheduled :
      (o : Option ProjectRow)
      → scheduled_if (wants o) (map_option status_of_row o)
        ≡ map_option started (map_option status_of_row o)
  unfolding scan_project
  started-scheduled none = refl
  started-scheduled (some r) = go r.status
    where
      go :
          (s : RenovateProjectStatus)
          → scheduled_if (not (same_status s running) && not (same_status s scheduled)) (some s)
            ≡ some (started s)
      go scheduled = refl
      go running = refl
      go completed = refl
      go failed = refl
      go cancelled = refl

  -- Where no statement fails and no project has two rows, a request for all projects of a named job
  -- is answered with 200, and afterwards every project of that job that was not running is scheduled,
  -- every running one runs on.
  pub run_all_schedules_idle :
      (s : Server) (d : Db) (q : String)
      → str_eq job "" ≡ false
      → s.store ≡ sound d
      → IsUnique d.projects
      → ((run_renovate_for_all_projects codec now (decoded job) s).0.status ≡ 200)
        × (status_in job q (run_renovate_for_all_projects codec now (decoded job) s).1.store.db
            ≡ map_option started (status_in job q d))
  unfolding run_renovate_for_all_projects run_all
  run_all_schedules_idle s d q named e u =
      rw (named, e, batched-sound d)
        (
          refl,
          status_in-schedule_each q (idle_names d.projects) d
              ∙ ap (λ b. scheduled_if b (status_in job q d)) (contains-idle_names q d.projects u)
              ∙ started-scheduled (find_row job q d.projects),
        )
