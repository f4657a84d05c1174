-- ===== src/Resilience/Projects.antt =====
-- The per-project states of resilience.go: what each operation does to the state of each project.
use renovate_docker_operator.Prelude.{
  ℕ, ◌+◌, String, ◌≡◌, true, false, arith, ℤ, str_eq, if◌then◌else◌, lookup-put, put, refl,
}
use renovate_docker_operator.Resilience.{
  Source, Outcome, success, rapid_fail, slow_fail, ProjectState, Manager, get_or_create_project,
  put_project, compute_backoff, trim_window, maybe_trip, report, allow_dispatch, mark_manual,
}

-- The states of the projects after a write.
pub get-put_project :
    (k j : String) (ps : ProjectState) (m : Manager)
    → get_or_create_project j (put_project k ps m)
      ≡ (if str_eq k j then ps else get_or_create_project j m)
unfolding get_or_create_project put_project
get-put_project k j ps m = ground (arith, lookup-put k j ps m.projects)

-- What Report makes of the state of the reported project.
unfoldable pub reported : Outcome → ℕ → (ℕ → ℕ) → ℤ → Manager → ProjectState → ProjectState
reported success now scale code m ps = record ps {
  consecutive_failures = 0;
  next_allowed_at = 0;
  last_exit_code = code;
  last_report_at = now;
}
reported _ now scale code m ps = record ps {
  consecutive_failures = ps.consecutive_failures + 1;
  next_allowed_at = now + compute_backoff m.cfg scale (ps.consecutive_failures + 1);
  last_exit_code = code;
  last_report_at = now;
}

-- The map of the states is written at one key.
projects-report :
    (now : ℕ) (scale : ℕ → ℕ) (project : String) (source : Source) (outcome : Outcome)
    (duration : ℕ) (code : ℤ) (m : Manager)
    → (report now scale project source outcome duration code m).projects
      ≡ put project (reported outcome now scale code m (get_or_create_project project m)) m.projects
unfolding report put_project trim_window maybe_trip reported
projects-report now scale project source success duration code m = refl
projects-report now scale project source rapid_fail duration code m = ground arith
projects-report now scale project source slow_fail duration code m = refl

projects-allow_dispatch :
    (now : ℕ) (project : String) (source : Source) (m : Manager)
    → (allow_dispatch now project source m).1.projects
      ≡ put project (record (get_or_create_project project m) { manual_pending = false }) m.projects
unfolding allow_dispatch put_project
projects-allow_dispatch now project source m = ground arith

-- The states in a map that was written at one key.
get-put :
    (k j : String) (ps : ProjectState) (m m' : Manager)
    → m'.projects ≡ put k ps m.projects
    → get_or_create_project j m' ≡ (if str_eq k j then ps else get_or_create_project j m)
unfolding get_or_create_project
get-put k j ps m m' e = rw e (ground (arith, lookup-put k j ps m.projects))

-- Report changes the state of the reported project as its outcome says, and no other.
pub get-report :
    (now : ℕ) (scale : ℕ → ℕ) (project : String) (source : Source) (outcome : Outcome)
    (duration : ℕ) (code : ℤ) (m : Manager) (j : String)
    → get_or_create_project j (report now scale project source outcome duration code m) ≡ (
        if str_eq project j
        then reported outcome now scale code m (get_or_create_project project m)
        else get_or_create_project j m)
get-report now scale project source outcome duration code m j =
    get-put project j _ m _ (projects-report now scale project source outcome duration code m)

-- AllowDispatch takes the manual flag of the project it is asked about, and changes no other state.
pub get-allow_dispatch :
    (now : ℕ) (project : String) (source : Source) (m : Manager) (j : String)
    → get_or_create_project j (allow_dispatch now project source m).1 ≡ (
        if str_eq project j
        then record (get_or_create_project project m) { manual_pending = false }
        else get_or_create_project j m)
get-allow_dispatch now project source m j =
    get-put project j _ m _ (projects-allow_dispatch now project source m)

-- MarkManual sets the flag of one project.
pub get-mark_manual :
    (project : String) (m : Manager) (j : String)
    → get_or_create_project j (mark_manual project m) ≡ (
        if str_eq project j
        then record (get_or_create_project project m) { manual_pending = true }
        else get_or_create_project j m)
unfolding mark_manual
get-mark_manual project m j = get-put_project project j _ m
