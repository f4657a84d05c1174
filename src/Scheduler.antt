-- ===== src/Scheduler.antt =====
-- internal/scheduler/dispatch.go: the resilience gate in front of a batch of project dispatches.
-- A gate, the dispatch callback and the metrics recorder are Go interfaces: a gate is a record of
-- one operation over a state of its own, the callback is a function over a state of its own, and
-- the recorder is the sequence of the calls it received.
pub mod Dispatch
pub mod Gated
mod Tests
use renovate_docker_operator.Prelude.{
  ℕ, ◌+◌, String, Bool, true, false, Option, none, some, List, [], ◌∷◌, ◌++◌, if◌then◌else◌,
}
use renovate_docker_operator.Resilience.{Source, Decision, Reason, allow}

-- Gate: AllowDispatch(project, source), which may change the gate.
pub record Gate (S : Type 0) : Type 0 where
  pub ask : String → Source → S → Decision × S

-- DispatchFunc: an error, or `none` for nil.
abbrev pub DispatchFunc : Type 0 → Type 0 → Type 0
DispatchFunc T E = String → T → Option E × T

-- The result label: "skipped_" followed by the reason, or "dispatched".
pub data Label : Type 0 where
  skipped : Reason → Label
  dispatched : Label

-- `none` is a nil gate; `metrics` is false for a nil recorder.
pub record Dispatcher (S : Type 0) : Type 0 where
  pub gate : Option (Gate S)
  pub metrics : Bool

-- The loop's variables, with the states of the gate, the callback and the recorder.
pub record Progress (S T E : Type 0) : Type 0 where
  pub gate_state : S
  pub callback_state : T
  pub recorded : List (String × Label)
  pub count : ℕ
  pub first_err : Option E

-- `if d.gate != nil { … AllowDispatch … }`: without a gate everything is allowed.
unfoldable pub ask_gate : {S : Type 0} → Option (Gate S) → String → Source → S → Decision × S
ask_gate none project source s = (allow, s)
ask_gate (some g) project source s = g.ask project source s

-- `if err != nil && firstErr == nil { firstErr = err }`
unfoldable pub first_of_errors : {E : Type 0} → Option E → Option E → Option E
first_of_errors (some e) err = some e
first_of_errors none err = err

record_dispatch : Bool → String → Label → List (String × Label) → List (String × Label)
record_dispatch true project label calls = calls ++ (project, label) ∷ []
record_dispatch false project label calls = calls

module _ {S T E : Type 0} where
  skip : Dispatcher S → String → Reason → S → Progress S T E → Progress S T E
  skip d project reason s r = record r {
    gate_state = s;
    recorded = record_dispatch d.metrics project (skipped reason) r.recorded;
  }

  invoke : Dispatcher S → String → S → DispatchFunc T E → Progress S T E → Progress S T E
  invoke d project s fn r =
      let (err, t) = fn project r.callback_state in
      record {
        gate_state = s;
        callback_state = t;
        recorded = record_dispatch d.metrics project dispatched r.recorded;
        count = r.count + 1;
        first_err = first_of_errors r.first_err err;
      }

  -- The body of the loop.
  dispatch_project :
      Dispatcher S → Source → DispatchFunc T E → String → Progress S T E → Progress S T E
  unfolding ask_gate first_of_errors record_dispatch skip invoke
  dispatch_project d source fn project r =
      let (decision, s) = ask_gate d.gate project source r.gate_state in
      if decision.allowed then invoke d project s fn r else skip d project decision.reason s r

  dispatch_loop :
      Dispatcher S → Source → DispatchFunc T E → List String → Progress S T E → Progress S T E
  dispatch_loop d source fn [] r = r
  dispatch_loop d source fn (project ∷ projects) r =
      dispatch_loop d source fn projects (dispatch_project d source fn project r)

  -- DispatchProjects: its results are the fields `count` and `first_err`.
  pub dispatch_projects :
      Dispatcher S → List String → Source → DispatchFunc T E → S → T → Progress S T E
  unfolding dispatch_loop
  dispatch_projects d projects source fn s t =
      dispatch_loop d source fn projects
        (record { gate_state = s; callback_state = t; recorded = []; count = 0; first_err = none })
