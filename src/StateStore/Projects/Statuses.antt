-- ===== src/StateStore/Projects/Statuses.antt =====
-- The status of each project after the updates of internal/statestore/sqlite.go in a session in which
-- no statement fails.
use renovate_docker_operator.Prelude.{
  ℕ, String, ◌≡◌, refl, ◌∙◌, ap, sym, Bool, true, false, ◌&&◌, ◌||◌, Option, none, some, [], arith,
  str_eq, eq_iff, eq_refl, if◌then◌else◌, any, ◌||◌,
}
use renovate_docker_operator.Api.{RenovateProjectStatus, scheduled, only_status}
use renovate_docker_operator.StateStore.Db.{
  ProjectRow, Db, Codec, project_not_found, Session, checked, execute, with_fault,
}
use renovate_docker_operator.StateStore.Projects.{
  is_row, set_update, update_rows, update_project_status,
}
use renovate_docker_operator.StateStore.Projects.Reconcile.{find_row, is_some, any-find_row}
use renovate_docker_operator.StateStore.Projects.Updates.{map_option, find_row-update_where}

-- A session in which no statement fails.
abbrev pub sound : Db → Session
sound d = record { db = d; faults = [] }

abbrev pub status_of_row : ProjectRow → RenovateProjectStatus
status_of_row r = r.status

abbrev pub status_in : (job project : String) → Db → Option RenovateProjectStatus
status_in job project d = map_option status_of_row (find_row job project d.projects)

abbrev pub scheduled_if : Bool → Option RenovateProjectStatus → Option RenovateProjectStatus
scheduled_if b o = if b then map_option (λ s. scheduled) o else o

pub scheduled_twice :
    (b c : Bool) (o : Option RenovateProjectStatus)
    → scheduled_if c (scheduled_if b o) ≡ scheduled_if (b || c) o
scheduled_twice true true none = refl
scheduled_twice true true (some s) = refl
scheduled_twice true false o = refl
scheduled_twice false true o = refl
scheduled_twice false false o = refl

module _ (codec : Codec) (now : ℕ) (job : String) where
  abbrev pub schedule_row : ProjectRow → ProjectRow
  schedule_row = set_update codec now (only_status scheduled) none none

  -- The rows of the update: the project's status is scheduled, the others are as they were.
  pub status_in-update_rows :
      (project q : String) (d : Db)
      → status_in job q (update_rows job project schedule_row d)
        ≡ scheduled_if (str_eq project q) (status_in job q d)
  status_in-update_rows project q d =
      ap (map_option status_of_row) (
        find_row-update_where job project job q (λ r. true) schedule_row (λ r. refl) (λ r. refl)
          (is_row job project) (λ r. ground arith) d.projects)
      ∙ go (find_row job q d.projects) (str_eq project q)
    where
      go :
          (o : Option ProjectRow) (b : Bool)
          → map_option status_of_row
              (map_option (λ r. if (str_eq job job && b) && true then schedule_row r else r) o)
            ≡ scheduled_if b (map_option status_of_row o)
      go none true = refl
      go none false = refl
      go (some r) true = rw (eq_refl job) refl
      go (some r) false = rw (eq_refl job) refl

  -- A project that the job does not have is an error, which changes nothing.
  pub update_project_status-sound :
      (project : String) (d : Db)
      → (update_project_status codec now project job (only_status scheduled) (sound d)).1
        ≡ sound (
            if any (is_row job project) d.projects
            then update_rows job project schedule_row d
            else d)
  unfolding update_project_status execute with_fault
  update_project_status-sound project d = go (any (is_row job project) d.projects)
    where
      go :
          (b : Bool)
          → sound (checked b project_not_found (update_rows job project schedule_row d) d).1
            ≡ sound (if b then update_rows job project schedule_row d else d)
      go true = refl
      go false = refl

  pub status_in-update_project_status :
      (project q : String) (d : Db)
      → status_in job q
          (update_project_status codec now project job (only_status scheduled) (sound d)).1.db
        ≡ scheduled_if (str_eq project q) (status_in job q d)
  status_in-update_project_status project q d =
      ap (λ (s : Session). status_in job q s.db) (update_project_status-sound project d)
      ∙ go (any (is_row job project) d.projects) (any-find_row job job project d.projects)
    where
      missing :
          (b : Bool)
          → str_eq project q ≡ b
          → is_some (find_row job project d.projects) ≡ false
          → status_in job q d ≡ scheduled_if b (status_in job q d)
      missing false e none_there = refl
      missing true e none_there = absent (find_row job q d.projects) (
          ap (λ p. is_some (find_row job p d.projects)) (sym (ground (arith, eq_iff project q)))
          ∙ none_there)
        where
          absent :
              (o : Option ProjectRow)
              → is_some o ≡ false
              → map_option status_of_row o
                ≡ map_option (λ s. scheduled) (map_option status_of_row o)
          absent none n = refl
          absent (some r) n = ground arith

      go :
          (b : Bool)
          → b ≡ is_some (find_row job project d.projects)
          → status_in job q (if b then update_rows job project schedule_row d else d)
            ≡ scheduled_if (str_eq project q) (status_in job q d)
      go true e = status_in-update_rows project q d
      go false e = missing (str_eq project q) refl (sym e)
