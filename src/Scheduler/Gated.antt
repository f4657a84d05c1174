-- ===== src/Scheduler/Gated.antt =====
-- DispatchProjects of dispatch.go behind the Manager of resilience.go, the gate that the operator
-- installs: each request reads the Manager's clock once.
use renovate_docker_operator.Prelude.{
  ℕ, suc, String, ◌≡◌, ◌≢◌, refl, Bool, false, none, some, List, [], ◌∷◌, arith, ap, inl, inr,
  length, lookup, All, ◌∙◌,
}
use renovate_docker_operator.Resilience.{
  Source, manual, closed, open_state, Manager, Decision, get_or_create_project, allow_dispatch,
  reset,
}
use renovate_docker_operator.Resilience.Projects.{get-allow_dispatch}
use renovate_docker_operator.Resilience.Gate.{allow_dispatch-allowed_iff, state-allow_dispatch}
use renovate_docker_operator.Resilience.Safety.{refused_when_open}
use renovate_docker_operator.Scheduler.{Gate, Dispatcher, DispatchFunc, ask_gate, dispatch_projects}
use renovate_docker_operator.Scheduler.Dispatch.{
  admitted, run_all, first_error, dispatch_projects_lem,
}

-- The Manager with the readings that its clock will give.
pub record Clocked : Type 0 where
  pub manager : Manager
  pub readings : ℕ → ℕ
  pub reads : ℕ

unfoldable pub ask_manager : String → Source → Clocked → Decision × Clocked
ask_manager project source c =
    let (decision, m) = allow_dispatch (c.readings c.reads) project source c.manager in
    (decision, record c { manager = m; reads = suc c.reads })

unfoldable pub manager_gate : Gate Clocked
unfolding ask_manager
manager_gate = record { ask = ask_manager }

-- NewDispatcher(manager, metrics, logger)
abbrev pub managed : Bool → Dispatcher Clocked
managed metrics = record { gate = some manager_gate; metrics = metrics }

abbrev pub IsUnmarked : Manager → String → Type 0
IsUnmarked m project = (get_or_create_project project m).manual_pending ≡ false

IsUnmarked-allow_dispatch :
    (now : ℕ) (p : String) (source : Source) (m : Manager) (ps : List String)
    → All (IsUnmarked m) ps
    → All (IsUnmarked (allow_dispatch now p source m).1) ps
IsUnmarked-allow_dispatch now p source m [] h = tt
IsUnmarked-allow_dispatch now p source m (q ∷ ps) h = (
  ground (arith, get-allow_dispatch now p source m q),
  IsUnmarked-allow_dispatch now p source m ps h.1,
)

none_admitted :
    (source : Source) (ps : List String) (c : Clocked)
    → source ≢ manual
    → c.manager.state ≡ open_state
    → All (IsUnmarked c.manager) ps
    → admitted (some manager_gate) source ps c ≡ []
unfolding admitted ask_gate manager_gate
none_admitted source [] c s opened unmarked = refl
none_admitted source (p ∷ ps) c s opened unmarked =
    let now = c.readings c.reads in
    rw (refused_when_open now p source c.manager s opened unmarked.0) (
      none_admitted source ps (ask_manager p source c).1 s
        (state-allow_dispatch now p source c.manager ∙ opened)
        (IsUnmarked-allow_dispatch now p source c.manager ps unmarked.1))

-- While the breaker is open, a cron or webhook batch of unmarked projects dispatches nothing: the
-- callback does not run, and there is no error to report.
pub open_breaker_dispatches_nothing :
    {T E : Type 0} (metrics : Bool) (projects : List String) (source : Source)
    (fn : DispatchFunc T E) (c : Clocked) (t : T)
    → source ≢ manual
    → c.manager.state ≡ open_state
    → All (IsUnmarked c.manager) projects
    → let r = dispatch_projects (managed metrics) projects source fn c t in
      (r.count ≡ 0) × (r.callback_state ≡ t) × (r.first_err ≡ none)
unfolding run_all first_error
open_breaker_dispatches_nothing metrics projects source fn c t s opened unmarked =
    let e = none_admitted source projects c s opened unmarked in
    let result = dispatch_projects_lem (managed metrics) source fn projects c t in
    (rw (result, e) refl, rw (result, e) refl, rw (result, e) refl)

-- A closed breaker and no backoff anywhere.
record IsQuiescent (m : Manager) : Type 0 where
  passing : m.state ≡ closed
  waiting : (p : String) → (get_or_create_project p m).next_allowed_at ≡ 0

ask-IsQuiescent :
    (now : ℕ) (p : String) (source : Source) (m : Manager)
    → IsQuiescent m
    → IsQuiescent (allow_dispatch now p source m).1
ask-IsQuiescent now p source m h = record {
  passing = state-allow_dispatch now p source m ∙ h.passing;
  waiting = λ q. ground (arith, get-allow_dispatch now p source m q, h.waiting p, h.waiting q);
}

all_admitted :
    (source : Source) (ps : List String) (c : Clocked)
    → IsQuiescent c.manager
    → admitted (some manager_gate) source ps c ≡ ps
unfolding admitted ask_gate manager_gate
all_admitted source [] c h = refl
all_admitted source (p ∷ ps) c h =
    let now = c.readings c.reads in
    rw
      ((allow_dispatch-allowed_iff now p source c.manager).1
        (inr (inr h.passing, inl (h.waiting p))))
      (ap (λ (rest : List String). p ∷ rest)
        (all_admitted source ps (ask_manager p source c).1
          (ask-IsQuiescent now p source c.manager h)))

abbrev pub after_reset : ℕ → Clocked → Clocked
after_reset now c = record c { manager = (reset now c.manager).1 }

IsQuiescent-reset : (now : ℕ) (m : Manager) → IsQuiescent (reset now m).1
unfolding reset get_or_create_project lookup
IsQuiescent-reset now m = record { passing = refl; waiting = λ p. refl }

-- Right after a reset a batch from any source dispatches every project.
pub reset_dispatches_all :
    {T E : Type 0} (metrics : Bool) (projects : List String) (source : Source)
    (fn : DispatchFunc T E) (c : Clocked) (now : ℕ) (t : T)
    → let r = dispatch_projects (managed metrics) projects source fn (after_reset now c) t in
      (r.count ≡ length projects) × (r.callback_state ≡ run_all fn projects t)
reset_dispatches_all metrics projects source fn c now t =
    let e = all_admitted source projects (after_reset now c) (IsQuiescent-reset now c.manager) in
    let result = dispatch_projects_lem (managed metrics) source fn projects (after_reset now c) t in
    (rw (result, e) refl, rw (result, e) refl)
