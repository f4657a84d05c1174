-- ===== src/Executor/Exit/Effects.antt =====
-- What handleContainerExit does to the slots of the executor, and what it reports.
use renovate_docker_operator.Prelude.{
  ℕ, ◌<◌, ◌≡◌, ◌≢◌, ◌↔◌, ◌⊎◌, inl, inr, refl, String, true, false, Option, none, some, ℤ, pos,
  arith, str_eq, eq_refl, lookup, lookup-delete, Bool-cases,
}
use renovate_docker_operator.Resilience.{success, rapid_fail}
use renovate_docker_operator.Api.{completed}
use renovate_docker_operator.Executor.State.{Settings, Info, World, Executor}
use renovate_docker_operator.Executor.Exit.{
  classify_outcome, project_of, final_status, finish_exit, inspected, handle_exit, handle_untracked,
  handle_container_exit,
}

-- The status in the store, the outcome for the breaker and the exit code agree: completed means
-- success means exit code 0, and of the failures the rapid ones are those under the threshold.
pub classify_outcome-final_status :
    (s : Settings) (code : ℤ) (runtime : ℕ)
    → ((final_status code ≡ completed) ↔ (code ≡ pos 0))
      × ((classify_outcome s code runtime ≡ success) ↔ (code ≡ pos 0))
      × ((classify_outcome s code runtime ≡ rapid_fail)
          ↔ ((code ≢ pos 0) × (runtime < s.failure_min_runtime)))
unfolding classify_outcome
classify_outcome-final_status s code runtime = (
  (λ h. ground arith, λ h. ground arith),
  (λ h. ground arith, λ h. ground arith),
  (λ h. ground arith, λ h. ground arith),
)

module _ {W : Type 0} (rt : World W) where
  inspected-slots :
      (container project : String) (info : Option Info) (e : Executor W) (q : String)
      → (lookup q (inspected rt container project info e).running ≡ lookup q e.running)
        ⊎ (lookup q (inspected rt container project info e).running ≡ none)
  unfolding inspected finish_exit
  inspected-slots container project none e q = ground (arith, lookup-delete project q e.running)
  inspected-slots container project (some info) e q =
      ground (arith, lookup-delete project q e.running)

  handle_exit-slots :
      (container project : String) (e : Executor W) (q : String)
      → (lookup q (handle_exit rt container project e).running ≡ lookup q e.running)
        ⊎ (lookup q (handle_exit rt container project e).running ≡ none)
  unfolding handle_exit
  handle_exit-slots container project e q =
      let (info, w) = rt.container_inspect container e.world in
      inspected-slots container project info (record e { world = w }) q

  handle_exit_frees :
      (container project : String) (e : Executor W)
      → lookup project (handle_exit rt container project e).running ≡ none
  unfolding handle_exit
  handle_exit_frees container project e =
      let (info, w) = rt.container_inspect container e.world in frees info (record e { world = w })
    where
      frees :
          (info : Option Info) (e1 : Executor W)
          → lookup project (inspected rt container project info e1).running ≡ none
      frees none e1 =
          unfold inspected in
          ground (arith, lookup-delete project project e1.running, eq_refl project)
      frees (some info) e1 =
          unfold inspected finish_exit in
          ground (arith, lookup-delete project project e1.running, eq_refl project)

  untracked-slots :
      (container : String) (info : Option Info) (e : Executor W) (q : String)
      → (lookup q (handle_untracked rt container info e).running ≡ lookup q e.running)
        ⊎ (lookup q (handle_untracked rt container info e).running ≡ none)
  unfolding handle_untracked
  untracked-slots container none e q = inl refl
  untracked-slots container (some info) e q = elim (Bool-cases (str_eq info.labels.project "")) [
    | inl unlabelled ↦ rw unlabelled (inl refl)
    | inr labelled ↦ rw labelled (handle_exit-slots container info.labels.project e q)
  ]

  -- Whichever project an exited container turns out to belong to, and wherever the handling stops,
  -- a slot is given back or left as it was: an exit never takes a slot or changes its container.
  pub handle_container_exit-slots :
      (container : String) (e : Executor W) (q : String)
      → (lookup q (handle_container_exit rt container e).running ≡ lookup q e.running)
        ⊎ (lookup q (handle_container_exit rt container e).running ≡ none)
  unfolding handle_container_exit
  handle_container_exit-slots container e q =
      let (info, w) = rt.container_inspect container e.world in
      elim (Bool-cases (str_eq (project_of container e.running) "")) [
        | inl untracked ↦ rw untracked (untracked-slots container info (record e { world = w }) q)
        | inr tracked ↦
            rw tracked (handle_exit-slots container (project_of container e.running) e q)
      ]

  -- The exit of a container that no slot holds, but that is labelled with a project, gives back the
  -- slot of that project even while another container holds it.
  pub stale_exit_frees_slot :
      (container live : String) (e : Executor W) (info : Info)
      → str_eq (project_of container e.running) "" ≡ true
      → (rt.container_inspect container e.world).0 ≡ some info
      → str_eq info.labels.project "" ≡ false
      → lookup info.labels.project e.running ≡ some live
      → lookup info.labels.project (handle_container_exit rt container e).running ≡ none
  unfolding handle_container_exit handle_untracked
  stale_exit_frees_slot container live e info untracked seen labelled busy =
      rw (untracked, seen)
        (rw labelled (
          handle_exit_frees container info.labels.project
            (record e { world = (rt.container_inspect container e.world).1 })))
