-- ===== src/Executor/Dispatch/Attempts.antt =====
-- An attempt to dispatch a project, of internal/executor/docker.go, leaves the slots as they were or
-- fills the project's own.
use renovate_docker_operator.Prelude.{
  String, ◌≡◌, inl, inr, refl, ◌∙◌, ap, Bool, true, false, Option, none, some, [], ◌∷◌, arith, put,
  Bool-cases,
}
use renovate_docker_operator.Api.{RenovateJob}
use renovate_docker_operator.Executor.State.{
  PullPolicy, always, if_not_present, never, unknown_policy, Container, World, Executor,
}
use renovate_docker_operator.Executor.Dispatch.{
  touch_cache, pull_now, pull_unless_present, pull_by_policy, pull_image, default_source, started,
  executor_container, start_container, after_create, create_container, dispatch_project,
}

-- The same slots, sources and settings.
pub record SameSlots {W : Type 0} (e e' : Executor W) : Type 0 where
  pub slots : e'.running ≡ e.running
  pub origins : e'.sources ≡ e.sources
  pub config : e'.settings ≡ e.settings

module _ {W : Type 0} (rt : World W) where
  touch_cache-SameSlots : (e : Executor W) → SameSlots e (touch_cache rt e)
  unfolding touch_cache
  touch_cache-SameSlots e = ground arith

  pull_now-SameSlots : (e : Executor W) → SameSlots e (pull_now rt e).1
  unfolding pull_now touch_cache
  pull_now-SameSlots e = ground arith

  pull_unless_present-SameSlots : (e : Executor W) → SameSlots e (pull_unless_present rt e).1
  unfolding pull_unless_present pull_now touch_cache
  pull_unless_present-SameSlots e = ground arith

  pull_image-SameSlots : (e : Executor W) → SameSlots e (pull_image rt e).1
  unfolding pull_image
  pull_image-SameSlots e = go e.settings.image_pull_policy
    where
      go : (policy : PullPolicy) → SameSlots e (pull_by_policy policy rt e).1
      go never = record { slots = refl; origins = refl; config = refl }
      go if_not_present = pull_unless_present-SameSlots e
      go always = pull_now-SameSlots e
      go unknown_policy = pull_unless_present-SameSlots e

-- How far the launch of a project's container gets.
module _ {W : Type 0} (rt : World W) (job : RenovateJob) (project : String) (e : Executor W) where
  -- The world in which the container is requested.
  abbrev pub before_create : W
  before_create = (rt.now (pull_image rt e).1.world).1

  -- A container that runs Renovate on the project.
  abbrev pub IsFor : Container → Type 0
  IsFor c =
      (c.cmd ≡ "renovate" ∷ project ∷ [])
      × (c.labels.project ≡ project)
      × (c.labels.job_name ≡ job.name)

  -- The daemon created this container for the project and started it.
  pub data IsStarted (container : String) : Type 0 where
    launched :
        (c : Container)
        → IsFor c
        → (pull_image rt e).0 ≡ true
        → (rt.container_create c before_create).0 ≡ some container
        → (rt.container_start container (rt.container_create c before_create).1).0 ≡ true
        → IsStarted container

  -- The image was not pulled, or no container was created, or the one that was did not start.
  pub data IsNotStarted : Type 0 where
    not_pulled : (pull_image rt e).0 ≡ false → IsNotStarted
    not_created :
        (c : Container) → IsFor c → (rt.container_create c before_create).0 ≡ none → IsNotStarted
    not_started :
        (c : Container) (container : String)
        → IsFor c
        → (rt.container_create c before_create).0 ≡ some container
        → (rt.container_start container (rt.container_create c before_create).1).0 ≡ false
        → IsNotStarted

-- What an attempt to dispatch does to the slots: nothing where it fails, and where it succeeds the
-- project's slot holds the container that was started.
pub data Attempt {W : Type 0} (IsUp : String → Type 0) (IsDown : Type 0) (project : String)
    (e : Executor W) (r : Bool × Executor W) : Type 0 where
  failed : IsDown → r.0 ≡ false → SameSlots e r.1 → Attempt IsUp IsDown project e r
  succeeded :
      (container : String)
      → IsUp container
      → r.0 ≡ true
      → r.1.running ≡ put project container e.running
      → r.1.sources ≡ default_source project e.sources
      → r.1.settings ≡ e.settings
      → Attempt IsUp IsDown project e r

module _ (IsUp : String → Type 0) (IsDown : Type 0) where
  -- What comes before the attempt leaves the slots alone.
  Attempt-after :
      {W : Type 0} (project : String) (e e1 : Executor W) (r : Bool × Executor W)
      → SameSlots e e1
      → Attempt IsUp IsDown project e1 r
      → Attempt IsUp IsDown project e r
  Attempt-after project e e1 r same (failed down no_luck s) = failed down no_luck (record {
    slots = s.slots ∙ same.slots;
    origins = s.origins ∙ same.origins;
    config = s.config ∙ same.config;
  })
  Attempt-after project e e1 r same (succeeded c up ok slots origins config) =
      succeeded c up ok (slots ∙ ap (put project c) same.slots)
        (origins ∙ ap (default_source project) same.origins) (config ∙ same.config)

  module _ {W : Type 0} (rt : World W) (job : RenovateJob) (project : String) where
    start_container-Attempt :
        (container : String) (e : Executor W)
        → ((rt.container_start container e.world).0 ≡ true → IsUp container)
        → ((rt.container_start container e.world).0 ≡ false → IsDown)
        → Attempt IsUp IsDown project e (start_container rt job project container e)
    unfolding start_container started
    start_container-Attempt container e up down =
        elim (Bool-cases (rt.container_start container e.world).0) [
          | inl ok ↦ rw ok (succeeded container (up ok) refl refl refl refl)
          | inr bad ↦
              rw bad
                (failed (down bad) refl (record { slots = refl; origins = refl; config = refl }))
        ]

    after_create-Attempt :
        (created : Option String) (e : Executor W)
        → ((container : String)
            → created ≡ some container
            → (rt.container_start container e.world).0 ≡ true
            → IsUp container)
        → ((container : String)
            → created ≡ some container
            → (rt.container_start container e.world).0 ≡ false
            → IsDown)
        → (created ≡ none → IsDown)
        → Attempt IsUp IsDown project e (after_create rt job project created e)
    unfolding after_create
    after_create-Attempt none e up down uncreated =
        failed (uncreated refl) refl (record { slots = refl; origins = refl; config = refl })
    after_create-Attempt (some container) e up down uncreated =
        start_container-Attempt container e (up container refl) (down container refl)

module _ {W : Type 0} (rt : World W) (job : RenovateJob) (project : String) where
  -- An attempt on an executor, after the image has been pulled.
  create_container-Attempt :
      (e : Executor W)
      → (pull_image rt e).0 ≡ true
      → Attempt
          (IsStarted rt job project e)
          (IsNotStarted rt job project e)
          project
          (pull_image rt e).1
          (create_container rt job project (pull_image rt e).1)
  unfolding create_container executor_container
  create_container-Attempt e pulled =
      let e1 : Executor W = (pull_image rt e).1 in
      let c : Container = executor_container rt e1.settings job project (rt.now e1.world).0 in
      let made : Option String × W = rt.container_create c (rt.now e1.world).1 in
      Attempt-after (IsStarted rt job project e) (IsNotStarted rt job project e) project e1
        (record e1 { world = made.1 }) _ (record { slots = refl; origins = refl; config = refl })
        (after_create-Attempt (IsStarted rt job project e) (IsNotStarted rt job project e) rt job
          project made.0 (record e1 { world = made.1 })
          (λ container is up. launched c (refl, refl, refl) pulled is up)
          (λ container is down. not_started c container (refl, refl, refl) is down)
          (λ is. not_created c (refl, refl, refl) is))

  pub dispatch_project-Attempt :
      (e : Executor W)
      → Attempt
          (IsStarted rt job project e)
          (IsNotStarted rt job project e)
          project
          e
          (dispatch_project rt job project e)
  unfolding dispatch_project
  dispatch_project-Attempt e = elim (Bool-cases (pull_image rt e).0) [
    | inl ok ↦ rw ok (
        Attempt-after (IsStarted rt job project e) (IsNotStarted rt job project e) project e
          (pull_image rt e).1 _ (pull_image-SameSlots rt e) (create_container-Attempt e ok))
    | inr bad ↦ rw bad (failed (not_pulled bad) refl (pull_image-SameSlots rt e))
  ]
