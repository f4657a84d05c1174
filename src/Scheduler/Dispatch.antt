-- ===== src/Scheduler/Dispatch.antt =====
-- DispatchProjects of dispatch.go against its specification: the gate is asked about every project
-- in turn, and the callback runs on exactly those that it lets through.
use renovate_docker_operator.Prelude.{
  ◌+◌, String, ◌≡◌, refl, ◌∙◌, Option, none, some, List, [], ◌∷◌, ◌++◌, arith, if◌then◌else◌,
  length,
}
use mathlib.Core.List.{append_assoc, append-nil}
use renovate_docker_operator.Resilience.{Source}
use renovate_docker_operator.Scheduler.{
  Gate, DispatchFunc, Label, skipped, dispatched, Dispatcher, Progress, ask_gate, first_of_errors,
  record_dispatch, skip, invoke, dispatch_project, dispatch_loop, dispatch_projects,
}

module _ {S : Type 0} where
  -- The projects that the gate lets through, asked one after the other.
  unfoldable pub admitted : Option (Gate S) → Source → List String → S → List String
  admitted g source [] s = []
  admitted g source (p ∷ ps) s =
      let rest = admitted g source ps (ask_gate g p source s).1 in
      if (ask_gate g p source s).0.allowed then p ∷ rest else rest

  -- The label that each project gets.
  pub labels : Option (Gate S) → Source → List String → S → List (String × Label)
  labels g source [] s = []
  labels g source (p ∷ ps) s =
      let d = (ask_gate g p source s).0 in
      (p, if d.allowed then dispatched else skipped d.reason)
      ∷ labels g source ps (ask_gate g p source s).1

module _ {T E : Type 0} where
  -- The callback run on a list of projects, errors or not.
  unfoldable pub run_all : DispatchFunc T E → List String → T → T
  run_all fn [] t = t
  run_all fn (p ∷ ps) t = run_all fn ps (fn p t).1

  -- The error of the first callback of such a run that fails, `none` where none of them does.
  unfoldable pub first_error : DispatchFunc T E → List String → T → Option E
  first_error fn [] t = none
  first_error fn (p ∷ ps) t =
      let later = first_error fn ps (fn p t).1 in elim (fn p t).0 [ none ↦ later | some e ↦ some e ]

first_of_errors-none : {E : Type 0} (o : Option E) → first_of_errors o none ≡ o
unfolding first_of_errors
first_of_errors-none none = refl
first_of_errors-none (some e) = refl

-- What the gate is left as.
unfoldable pub gate_after : {S : Type 0} → Option (Gate S) → Source → List String → S → S
gate_after g source [] s = s
gate_after g source (p ∷ ps) s = gate_after g source ps (ask_gate g p source s).1

module _ {S T E : Type 0} (d : Dispatcher S) (source : Source) (fn : DispatchFunc T E) where
  -- Where the loop gets to from any point.
  outcome_of : List String → Progress S T E → Progress S T E
  outcome_of ps r = record {
    gate_state = gate_after d.gate source ps r.gate_state;
    callback_state = run_all fn (admitted d.gate source ps r.gate_state) r.callback_state;
    recorded = if d.metrics then r.recorded ++ labels d.gate source ps r.gate_state else r.recorded;
    count = r.count + length (admitted d.gate source ps r.gate_state);
    first_err =
        first_of_errors r.first_err
          (first_error fn (admitted d.gate source ps r.gate_state) r.callback_state);
  }

  outcome-step :
      (p : String) (ps : List String) (r : Progress S T E)
      → outcome_of ps (dispatch_project d source fn p r) ≡ outcome_of (p ∷ ps) r
  unfolding outcome_of dispatch_project record_dispatch skip invoke admitted run_all labels
      gate_after first_error
  outcome-step p ps r =
      let (decision, s) = ask_gate d.gate p source r.gate_state in
      let rest = labels d.gate source ps s in
      ground (
        arith,
        append_assoc r.recorded ((p, dispatched) ∷ []) rest,
        append_assoc r.recorded ((p, skipped decision.reason) ∷ []) rest,
      )

  loop-outcome :
      (ps : List String) (r : Progress S T E) → dispatch_loop d source fn ps r ≡ outcome_of ps r
  unfolding dispatch_loop
  loop-outcome [] r =
      unfold outcome_of admitted run_all labels gate_after first_error in
      ground (arith, append-nil r.recorded, first_of_errors-none r.first_err)
  loop-outcome (p ∷ ps) r = loop-outcome ps (dispatch_project d source fn p r) ∙ outcome-step p ps r

  -- DispatchProjects asks the gate about every project in turn; runs the callback once on exactly
  -- those that it lets through, in order and whether or not one of them fails; returns how many
  -- they are and the first error; and records one label for each project, if there is a recorder.
  pub dispatch_projects_lem :
      (projects : List String) (s : S) (t : T)
      → let through = admitted d.gate source projects s in
        dispatch_projects d projects source fn s t ≡ record {
          gate_state = gate_after d.gate source projects s;
          callback_state = run_all fn through t;
          recorded = if d.metrics then labels d.gate source projects s else [];
          count = length through;
          first_err = first_error fn through t;
        }
  unfolding dispatch_projects
  dispatch_projects_lem projects s t =
      loop-outcome projects
        (record { gate_state = s; callback_state = t; recorded = []; count = 0; first_err = none })
      ∙ unfold outcome_of first_of_errors in ground arith
