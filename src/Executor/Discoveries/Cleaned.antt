-- ===== src/Executor/Discoveries/Cleaned.antt =====
-- What a discovery container of internal/executor/docker.go leaves behind.
use renovate_docker_operator.Prelude.{ℕ, String, ◌≡◌, false, Option, none, some, List}
use renovate_docker_operator.Api.{RenovateJob}
use renovate_docker_operator.Executor.State.{World, Executor}
use renovate_docker_operator.Executor.Dispatch.{pull_image}
use renovate_docker_operator.Executor.Discoveries.{
  Waited, context_done, Discoverer, Found, discovery_container,
}

module _ {W : Type 0} (rt : World W) (container_wait : String → W → Waited × W)
    (remove_cancelled : String → W → W) (unmarshal : List ℕ → Option (List String)) where
  -- The removal of the container is the last thing that happens to the world.
  pub data IsRemoved (container : String) : W → Type 0 where
    removed : (w : W) → IsRemoved container (rt.container_remove container w)

  -- The answer of the daemon to the request for the container of a discovery.
  abbrev pub created_for : RenovateJob → Discoverer W → Option String
  created_for job d =
      let e = (pull_image rt d.executor).1 in
      let (now, w) = rt.now e.world in
      (rt.container_create
        (discovery_container rt container_wait remove_cancelled unmarshal e.settings job now) w).0

  -- The last call for the container that was created: its removal, or, where the wait for it ended
  -- with the context, a removal with that context, which may fail.
  pub data IsLast (container : String) (r : Option (List String) × Executor W) : Type 0 where
    removal : IsRemoved container r.1.world → IsLast container r
    cancelled :
        (w : W)
        → (container_wait container w).0 ≡ context_done
        → r.0 ≡ none
        → r.1.world ≡ remove_cancelled container (container_wait container w).1
        → IsLast container r

  -- The image was not pulled, no container was created, or the last call is for the removal of the
  -- one that was.
  pub data IsCleaned (job : RenovateJob) (d : Discoverer W) (r : Found W) : Type 0 where
    not_pulled : (pull_image rt d.executor).0 ≡ false → r.0 ≡ none → IsCleaned job d r
    not_created : created_for job d ≡ none → r.0 ≡ none → IsCleaned job d r
    cleaned :
        (container : String)
        → created_for job d ≡ some container
        → IsLast container (r.0, r.1.executor)
        → IsCleaned job d r
