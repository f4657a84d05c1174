-- ===== src/Server/Breaker.antt =====
-- What becomes of the queued webhooks when the breaker is reset: resetBreaker of
-- internal/server/server.go over the resilience manager and the store.
use renovate_docker_operator.Prelude.{
  ℕ, String, ◌≡◌, refl, ◌∙◌, ap, sym, Bool, true, some, List, [], ◌∷◌, str_eq, contains,
}
use renovate_docker_operator.Api.{RenovateJob}
use renovate_docker_operator.Resilience.{Manager, reset}
use renovate_docker_operator.StateStore.Db.{Db, Codec, ok, Session, execute, query}
use renovate_docker_operator.StateStore.Projects.Updates.{map_option}
use renovate_docker_operator.StateStore.Projects.Statuses.{
  scheduled_twice, sound, status_in, scheduled_if, update_project_status-sound,
  status_in-update_project_status,
}
use renovate_docker_operator.StateStore.Jobs.{list_renovate_jobs_full}
use renovate_docker_operator.Server.State.{Server}
use renovate_docker_operator.Server.{replay, reschedule, reset_manager, reset_breaker}

module _ (codec : Codec) (now : ℕ) where
  status_in-reschedule :
      (job q : String) (projects : List String) (d : Db)
      → status_in job q (reschedule codec now job projects (sound d)).db
        ≡ scheduled_if (contains q projects) (status_in job q d)
  unfolding reschedule contains
  status_in-reschedule job q [] d = refl
  status_in-reschedule job q (p ∷ projects) d =
      ap (λ s. status_in job q (reschedule codec now job projects s).db)
        (update_project_status-sound codec now job p d)
      ∙ status_in-reschedule job q projects _
      ∙ ap (scheduled_if (contains q projects)) (
          sym (
            ap (λ (s : Session). status_in job q s.db)
              (update_project_status-sound codec now job p d))
          ∙ status_in-update_project_status codec now job p q d)
      ∙ scheduled_twice (str_eq p q) (contains q projects) (status_in job q d)

  -- Where no statement fails, a reset schedules in the first listed job every queued project that the
  -- job has, and leaves every other status of that job; the queue is empty then.
  pub reset_breaker_replays :
      (s : Server) (m : Manager) (d : Db) (job : RenovateJob) (others : List RenovateJob)
      (q : String)
      → s.resilience ≡ some m
      → list_renovate_jobs_full codec s.store ≡ (ok (job ∷ others), sound d)
      → status_in job.name q (reset_breaker codec now s).1.store.db
        ≡ scheduled_if (contains q m.pending_replay) (status_in job.name q d)
  unfolding reset_breaker reset_manager replay reset
  reset_breaker_replays s m d job others q e listed =
      ap (λ o. status_in job.name q (reset_manager codec now o s).1.store.db) e
      ∙ ap (λ r. status_in job.name q (replay codec now m.pending_replay r).db) listed
      ∙ status_in-reschedule job.name q m.pending_replay d

  -- Where the jobs cannot be listed, a reset answers 200 all the same, with the queue emptied and no
  -- project scheduled: the queued webhooks are lost.
  pub reset_breaker_loses_queue :
      (s : Server) (m : Manager) (later : List Bool)
      → s.resilience ≡ some m
      → s.store.faults ≡ true ∷ later
      → ((reset_breaker codec now s).0.status ≡ 200)
        × (map_option (λ (m1 : Manager). m1.pending_replay) (reset_breaker codec now s).1.resilience
            ≡ some [])
        × ((reset_breaker codec now s).1.store.db ≡ s.store.db)
  unfolding reset_breaker reset_manager replay reset list_renovate_jobs_full query execute
  reset_breaker_loses_queue s m later e f = rw (e, f) (refl, refl, refl)
