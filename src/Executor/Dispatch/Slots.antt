-- ===== src/Executor/Dispatch/Slots.antt =====
-- The slots of the executor: doDispatch never goes past the parallelism limit, never touches a
-- project that has a slot, and gives back the slot of a dispatch that failed.
use renovate_docker_operator.Prelude.{
  ℕ, suc, ◌≤◌, ◌<◌, String, ◌≡◌, ◌⊎◌, inl, inr, refl, ◌∙◌, ap, sym, subst, Bool, Option, none, some,
  List, [], ◌∷◌, arith, leb, eq_iff, eq_refl, if◌then◌else◌, length, Dict, lookup, put, delete,
  lookup-put, lookup-delete, length-put_new, length-put_old, Bool-cases, Option-cases,
}
use renovate_docker_operator.Resilience.{cron}
use renovate_docker_operator.Api.{RenovateJob, ProjectStatus}
use renovate_docker_operator.Executor.State.{World, Executor}
use renovate_docker_operator.Executor.Dispatch.{
  has_key, default_source, dispatch_project, reserve, release, dispatch_one, dispatch_scheduled,
  sort_by_priority, dispatch_found, dispatch_job, dispatch_jobs, dispatch_listed, do_dispatch,
}
use renovate_docker_operator.Executor.Dispatch.Attempts.{
  SameSlots, IsStarted, IsNotStarted, Attempt, failed, succeeded, dispatch_project-Attempt,
}

delete-put_new :
    {V : Type 0} (k : String) (v : V) (d : Dict V) → lookup k d ≡ none → delete k (put k v d) ≡ d
unfolding lookup put delete
delete-put_new k v [] h = ground (arith, eq_refl k)
delete-put_new k v ((j, w) ∷ d) h = ground (arith, delete-put_new k v d)

-- What holds of the loops' variables, against the executor that they began with.
record Sound {W : Type 0} (e0 : Executor W) (r : ℕ × Executor W) : Type 0 where
  counted : r.0 ≡ length r.1.running
  config : r.1.settings ≡ e0.settings
  kept : (q c : String) → lookup q e0.running ≡ some c → lookup q r.1.running ≡ some c
  limited : (r.0 ≤ e0.settings.parallelism) ⊎ (r.0 ≤ length e0.running)
  origins :
      (q : String)
      → lookup q e0.running ≡ none
      → (lookup q r.1.running ≡ none) ⊎ (lookup q r.1.sources ≡ some cron)

module _ {W : Type 0} (e0 : Executor W) (project : String) (count : ℕ) (e : Executor W)
    (sound : Sound e0 (count, e)) (free : lookup project e.running ≡ none) where
  released-Sound :
      (e1 : Executor W) → SameSlots (reserve project e) e1 → Sound e0 (count, release project e1)
  unfolding reserve release
  released-Sound e1 same =
      let slots : delete project e1.running ≡ e.running =
        ap (delete project) same.slots ∙ delete-put_new project "" e.running free in
      record {
        counted = sound.counted ∙ ap length (sym slots);
        config = same.config ∙ sound.config;
        kept = λ q c h. rw slots (sound.kept q c h);
        limited = sound.limited;
        origins = λ q h. elim (sound.origins q h) [
          | inl unused ↦ inl (rw slots unused)
          | inr by_cron ↦ ground (
            arith,
            same.origins,
            lookup-delete project q e1.sources,
            lookup-put project q cron e.sources,
            eq_iff project q,
            slots,
          )
        ];
      }

  taken-Sound :
      (e1 : Executor W) (container : String)
      → count < e0.settings.parallelism
      → e1.running ≡ put project container (reserve project e).running
      → e1.sources ≡ default_source project (reserve project e).sources
      → e1.settings ≡ (reserve project e).settings
      → Sound e0 (suc count, e1)
  unfolding reserve default_source has_key
  taken-Sound e1 container room slots origins config = record {
    counted =
        ap suc sound.counted
        ∙ sym (
            ap length slots
            ∙ length-put_old project container "" (put project "" e.running)
                (ground (arith, lookup-put project project "" e.running, eq_refl project))
            ∙ length-put_new project "" e.running free);
    config = config ∙ sound.config;
    kept = λ q c h. ground (
      arith,
      slots,
      lookup-put project q container (put project "" e.running),
      lookup-put project q "" e.running,
      sound.kept q c h,
      eq_iff project q,
    );
    limited = inl (omega arith);
    origins = λ q h. ground (
      arith,
      slots,
      origins,
      lookup-put project q container (put project "" e.running),
      lookup-put project q "" e.running,
      sound.origins q h,
      eq_iff project q,
      lookup-put project project cron e.sources,
      lookup-put project q cron e.sources,
      eq_refl project,
    );
  }

module _ {W : Type 0} (rt : World W) (e0 : Executor W) where
  attempted-Sound :
      (job : RenovateJob) (p : String) (count : ℕ) (e : Executor W)
      → Sound e0 (count, e)
      → lookup p e.running ≡ none
      → count < e0.settings.parallelism
      → (r : Bool × Executor W)
      → Attempt
          (IsStarted rt job p (reserve p e))
          (IsNotStarted rt job p (reserve p e))
          p
          (reserve p e)
          r
      → Sound e0 (if r.0 then (suc count, r.1) else (count, release p r.1))
  attempted-Sound job p count e sound free room r (failed down no_luck same) =
      rw no_luck (released-Sound e0 p count e sound free r.1 same)
  attempted-Sound job p count e sound free room r (succeeded c up ok slots origins config) =
      rw ok (taken-Sound e0 p count e sound free r.1 c room slots origins config)

  dispatch_one-Sound :
      (job : RenovateJob) (p : String) (r : ℕ × Executor W)
      → Sound e0 r
      → r.0 < e0.settings.parallelism
      → Sound e0 (dispatch_one rt job p r)
  unfolding dispatch_one has_key
  dispatch_one-Sound job p (count, e) sound room = elim (Option-cases (lookup p e.running)) [
    | inl free ↦ rw free (
        attempted-Sound job p count e sound free room (dispatch_project rt job p (reserve p e))
          (dispatch_project-Attempt rt job p (reserve p e)))
    | inr (c, busy) ↦ rw busy sound
  ]

  dispatch_scheduled-Sound :
      (job : RenovateJob) (ps : List ProjectStatus) (r : ℕ × Executor W)
      → Sound e0 r
      → Sound e0 (dispatch_scheduled rt job ps r)
  unfolding dispatch_scheduled
  dispatch_scheduled-Sound job [] r sound = sound
  dispatch_scheduled-Sound job (p ∷ ps) r sound =
      elim (Bool-cases (leb r.1.settings.parallelism r.0)) [
        | inl full ↦ rw full sound
        | inr room ↦ rw room (
            dispatch_scheduled-Sound job ps (dispatch_one rt job p.name r)
              (dispatch_one-Sound job p.name r sound (ground (arith, sound.config))))
      ]

  dispatch_found-Sound :
      (job : RenovateJob) (found : Option (List ProjectStatus)) (r : ℕ × Executor W)
      → Sound e0 r
      → Sound e0 (dispatch_found rt job found r)
  unfolding dispatch_found
  dispatch_found-Sound job none r sound = sound
  dispatch_found-Sound job (some ps) r sound =
      dispatch_scheduled-Sound job (sort_by_priority ps) r sound

  -- The world may change under the executor.
  Sound-world : (w : W) (r : ℕ × Executor W) → Sound e0 r → Sound e0 (r.0, record r.1 { world = w })
  Sound-world w r sound = record {
    counted = sound.counted;
    config = sound.config;
    kept = sound.kept;
    limited = sound.limited;
    origins = sound.origins;
  }

  dispatch_jobs-Sound :
      (jobs : List RenovateJob) (r : ℕ × Executor W)
      → Sound e0 r
      → Sound e0 (dispatch_jobs rt jobs r)
  unfolding dispatch_jobs dispatch_job
  dispatch_jobs-Sound [] r sound = sound
  dispatch_jobs-Sound (job ∷ jobs) r sound = elim (Bool-cases (leb r.1.settings.parallelism r.0)) [
    | inl full ↦ rw full sound
    | inr room ↦ rw room (
        dispatch_jobs-Sound jobs (dispatch_job rt job r)
          (dispatch_found-Sound job _ _ (Sound-world _ r sound)))
  ]

  recounted : (r : ℕ × Executor W) → Sound e0 r → Sound e0 (length r.1.running, r.1)
  recounted r sound = subst (λ (n : ℕ). Sound e0 (n, r.1)) sound.counted sound

  -- `doDispatch`, from the executor that it is called on.
  do_dispatch-Sound : Sound e0 (length (do_dispatch rt e0).running, do_dispatch rt e0)
  unfolding do_dispatch
  do_dispatch-Sound = go (rt.list_jobs e0.world).0
    where
      start : Sound e0 (length e0.running, record e0 { world = (rt.list_jobs e0.world).1 })
      start = record {
        counted = refl;
        config = refl;
        kept = λ q c h. h;
        limited = inr (omega arith);
        origins = λ q h. inl h;
      }

      go :
          (jobs : Option (List RenovateJob))
          → let e = dispatch_listed rt jobs (record e0 { world = (rt.list_jobs e0.world).1 }) in
            Sound e0 (length e.running, e)
      go none = unfold dispatch_listed in start
      go (some jobs) = unfold dispatch_listed in recounted _ (dispatch_jobs-Sound jobs _ start)

module _ {W : Type 0} (rt : World W) (e : Executor W) where
  -- doDispatch leaves at most `parallelism` slots taken, unless more were taken when it began (the
  -- reconciliation adopts without a limit), and then it takes none.
  pub do_dispatch_within_limit :
      (length (do_dispatch rt e).running ≤ e.settings.parallelism)
      ⊎ (length (do_dispatch rt e).running ≤ length e.running)
  do_dispatch_within_limit = (do_dispatch-Sound rt e).limited

  -- A project that has a slot keeps its container: it is never dispatched twice.
  pub do_dispatch_keeps :
      (project container : String)
      → lookup project e.running ≡ some container
      → lookup project (do_dispatch rt e).running ≡ some container
  do_dispatch_keeps = (do_dispatch-Sound rt e).kept

  -- A project that had no slot either still has none or is attributed to the cron schedule, whatever
  -- source SetProjectSource had recorded for it.
  pub do_dispatch_attributes_to_cron :
      (project : String)
      → lookup project e.running ≡ none
      → (lookup project (do_dispatch rt e).running ≡ none)
        ⊎ (lookup project (do_dispatch rt e).sources ≡ some cron)
  do_dispatch_attributes_to_cron = (do_dispatch-Sound rt e).origins

-- What one turn of the loop leaves for a project that had no slot: where the dispatch failed, the
-- count and the slots as they were; where it succeeded, one more, with the container that was created
-- for the project and started.
pub data Turned {W : Type 0} (rt : World W) (job : RenovateJob) (project : String) (count : ℕ)
    (e : Executor W) (r : ℕ × Executor W) : Type 0 where
  gave_back :
      IsNotStarted rt job project (reserve project e)
      → r.0 ≡ count
      → r.1.running ≡ e.running
      → Turned rt job project count e r
  took :
      (container : String)
      → IsStarted rt job project (reserve project e) container
      → r.0 ≡ suc count
      → lookup project r.1.running ≡ some container
      → length r.1.running ≡ suc (length e.running)
      → Turned rt job project count e r

module _ {W : Type 0} (rt : World W) (job : RenovateJob) (project : String) where
  attempted-Turned :
      (count : ℕ) (e : Executor W) (r : Bool × Executor W)
      → lookup project e.running ≡ none
      → Attempt
          (IsStarted rt job project (reserve project e))
          (IsNotStarted rt job project (reserve project e))
          project
          (reserve project e)
          r
      → Turned rt job project count e
          (if r.0 then (suc count, r.1) else (count, release project r.1))
  unfolding reserve release
  attempted-Turned count e r free (failed down no_luck same) = rw no_luck (
      gave_back down refl
        (ap (delete project) same.slots ∙ delete-put_new project "" e.running free))
  attempted-Turned count e r free (succeeded c up ok slots origins config) = rw ok (
      took c up refl
        (ground
          (arith, slots, lookup-put project project c (put project "" e.running), eq_refl project))
        (ap length slots
          ∙ length-put_old project c "" (put project "" e.running)
              (ground (arith, lookup-put project project "" e.running, eq_refl project))
          ∙ length-put_new project "" e.running free))

  -- A turn of the loop for a project without a slot takes exactly one slot, if the image is there and
  -- the daemon creates and starts a container for the project: the slot then holds that container, and
  -- it is counted. Otherwise the reserved slot is given back, the count and every slot being as before.
  pub dispatch_one_outcome :
      (count : ℕ) (e : Executor W)
      → lookup project e.running ≡ none
      → Turned rt job project count e (dispatch_one rt job project (count, e))
  unfolding dispatch_one has_key
  dispatch_one_outcome count e free = rw free (
      attempted-Turned count e (dispatch_project rt job project (reserve project e)) free
        (dispatch_project-Attempt rt job project (reserve project e)))
