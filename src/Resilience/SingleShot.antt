-- ===== src/Resilience/SingleShot.antt =====
-- MarkManual of resilience.go: the bypass is used once, and leaves nothing else behind.
use renovate_docker_operator.Prelude.{
  ℕ, ℤ, String, ◌≡◌, refl, false, List, [], ◌∷◌, arith, eq_iff, eq_refl, remove,
}
use renovate_docker_operator.Resilience.{
  Source, Outcome, success, rapid_fail, slow_fail, Manager, allow, get_or_create_project,
  put_project, report, allow_dispatch, mark_manual, enqueue_webhook_replay, reset, snapshot,
  trim_window, maybe_trip,
}
use renovate_docker_operator.Resilience.Projects.{
  reported, get-put_project, get-report, get-allow_dispatch, get-mark_manual,
}
use renovate_docker_operator.Resilience.Gate.{
  allow_dispatch_local, allow_dispatch_marked, mark_manual-pending,
}
use renovate_docker_operator.Resilience.Trace.{
  Call, reporting, asking, marking, enqueuing, resetting, viewing, step, run,
}

-- The same breaker, down to its failure window, and the same state of every project; the queue and
-- the map that holds the states may differ.
pub record Alike (m m' : Manager) : Type 0 where
  pub breaker : m' ≡ record m { projects = m'.projects; pending_replay = m'.pending_replay }
  pub states : (j : String) → get_or_create_project j m' ≡ get_or_create_project j m

-- The Manager as it is without a mark of the project.
abbrev pub unmarked : String → Manager → Manager
unmarked project m =
    put_project project (record (get_or_create_project project m) { manual_pending = false }) m

get-enqueue :
    (p : String) (m : Manager) (j : String)
    → get_or_create_project j (enqueue_webhook_replay p m).1 ≡ get_or_create_project j m
unfolding enqueue_webhook_replay get_or_create_project
get-enqueue p m j = ground arith

-- One call on a Manager, and on one with other projects and another queue but the same states.
module _ (m : Manager) (m' : Manager) (alike : Alike m m') where
  report-Alike :
      (now : ℕ) (scale : ℕ → ℕ) (p : String) (s : Source) (outcome : Outcome) (d : ℕ) (x : ℤ)
      → Alike (report now scale p s outcome d x m) (report now scale p s outcome d x m')
  report-Alike now scale p s outcome d x = record {
    breaker = go outcome;
    states = λ j.
        rw
          (
            get-report now scale p s outcome d x m' j,
            get-report now scale p s outcome d x m j,
            alike.states p,
            alike.states j,
            same outcome,
          )
          refl;
  }
    where
      same :
          (o : Outcome)
          → reported o now scale x m' (get_or_create_project p m)
            ≡ reported o now scale x m (get_or_create_project p m)
      same success = unfold reported in refl
      same rapid_fail = unfold reported in ground (arith, alike.breaker)
      same slow_fail = unfold reported in ground (arith, alike.breaker)

      go :
          (o : Outcome)
          → report now scale p s o d x m' ≡ record (report now scale p s o d x m) {
            projects = (report now scale p s o d x m').projects;
            pending_replay = (report now scale p s o d x m').pending_replay;
          }
      go success = unfold report put_project in ground (arith, alike.breaker)
      go rapid_fail =
          unfold report put_project trim_window maybe_trip in ground (arith, alike.breaker)
      go slow_fail = unfold report put_project in ground (arith, alike.breaker)

  step-Alike : (call : Call) → Alike (step call m) (step call m')
  unfolding step
  step-Alike (reporting now scale p s outcome d x) = report-Alike now scale p s outcome d x
  step-Alike (asking now p s) = record {
    breaker = unfold allow_dispatch put_project in ground (arith, alike.breaker, alike.states p);
    states = λ j.
        rw
          (
            get-allow_dispatch now p s m' j,
            get-allow_dispatch now p s m j,
            alike.states p,
            alike.states j,
          )
          refl;
  }
  step-Alike (marking p) = record {
    breaker = unfold mark_manual put_project in ground (arith, alike.breaker);
    states = λ j.
        rw (get-mark_manual p m' j, get-mark_manual p m j, alike.states p, alike.states j) refl;
  }
  step-Alike (enqueuing p) = record {
    breaker = unfold enqueue_webhook_replay in ground (arith, alike.breaker);
    states = λ j. rw (get-enqueue p m j, get-enqueue p m' j) (alike.states j);
  }
  step-Alike (resetting now) = record {
    breaker = unfold reset in ground (arith, alike.breaker);
    states = λ j. unfold reset get_or_create_project in refl;
  }
  step-Alike (viewing now) = record {
    breaker = unfold snapshot trim_window in ground (arith, alike.breaker);
    states = λ j. unfold snapshot trim_window get_or_create_project in alike.states j;
  }

run-Alike : (calls : List Call) (m m' : Manager) → Alike m m' → Alike (run calls m) (run calls m')
unfolding run
run-Alike [] m m' alike = alike
run-Alike (call ∷ calls) m m' alike =
    run-Alike calls (step call m) (step call m') (step-Alike m m' alike call)

Alike-decision :
    (now : ℕ) (j : String) (source : Source) (m m' : Manager)
    → Alike m m'
    → (allow_dispatch now j source m').0 ≡ (allow_dispatch now j source m).0
Alike-decision now j source m m' alike =
    allow_dispatch_local now j source m m' (ground (arith, alike.breaker)) (alike.states j)

bypass-Alike :
    (project : String) (m : Manager) (now : ℕ) (source : Source)
    → Alike (unmarked project m) (allow_dispatch now project source (mark_manual project m)).1
bypass-Alike project m now source = record {
  breaker =
      unfold allow_dispatch mark_manual put_project in
      ground (arith, mark_manual-pending project m);
  states = λ j. ground (
    arith,
    get-allow_dispatch now project source (mark_manual project m) j,
    get-mark_manual project m j,
    get-mark_manual project m project,
    get-put_project project j (record (get_or_create_project project m) { manual_pending = false })
        m,
    eq_iff project j,
    eq_refl project,
  );
}

pending-bypass :
    (project : String) (m : Manager) (now : ℕ) (source : Source)
    → (allow_dispatch now project source (mark_manual project m)).1.pending_replay
      ≡ remove project m.pending_replay
unfolding allow_dispatch put_project mark_manual
pending-bypass project m now source = ground (arith, mark_manual-pending project m)

-- A project that is marked is allowed at once by any source, whatever the breaker and the backoff.
-- That request takes the project off the replay queue and leaves the breaker, its failure window and
-- the states of all projects as they are without the mark; and every later request, for it or any
-- other project and after any further calls, is decided as if the project had not been marked.
pub mark_manual_single_shot :
    (project : String) (m : Manager) (now : ℕ) (source : Source) (calls : List Call) (later : ℕ)
    (j : String) (by : Source)
    → let first = allow_dispatch now project source (mark_manual project m) in
      (first.0 ≡ allow)
      × (first.1.pending_replay ≡ remove project m.pending_replay)
      × Alike (unmarked project m) first.1
      × ((allow_dispatch later j by (run calls first.1)).0
          ≡ (allow_dispatch later j by (run calls (unmarked project m))).0)
mark_manual_single_shot project m now source calls later j by = (
  allow_dispatch_marked now project source (mark_manual project m) (mark_manual-pending project m),
  pending-bypass project m now source,
  bypass-Alike project m now source,
  Alike-decision later j by (run calls (unmarked project m))
      (run calls (allow_dispatch now project source (mark_manual project m)).1)
      (run-Alike calls (unmarked project m)
        (allow_dispatch now project source (mark_manual project m)).1
        (bypass-Alike project m now source)),
)
