-- ===== src/Discovery/Settled.antt =====
-- What a discovery of internal/discovery/agent.go leaves when it ends.
use renovate_docker_operator.Prelude.{
  ℕ, String, ◌≡◌, ◌⊎◌, inl, inr, refl, ap, ◌∙◌, Option, none, some, List, [], Dict, lookup, put,
  lookup-put, contains, any, not, ◌&&◌, eq_refl, arith,
}
use renovate_docker_operator.StateStore.Db.{
  DiscoveryRow, Db, Codec, StoreError, failure, Result, ok, err, Session, Done, update, execute,
  with_fault,
}
use renovate_docker_operator.StateStore.Db.Rules.{Outcome, update-Does}
use renovate_docker_operator.StateStore.Projects.{is_row, reconcile_projects}
use renovate_docker_operator.StateStore.Projects.Reconcile.{
  find_row, reconciled, reconcile_projects_lem,
}
use renovate_docker_operator.StateStore.Settings.{set_discovery_status}
use renovate_docker_operator.Discovery.Untouched.{reconcile_projects_untouched}
use renovate_docker_operator.Discovery.{
  Agent, Started, discovery_started, already_running, after_check, after_running,
  dispatch_discovery_async, run_discovery, settle, on_discovery,
}

-- The status that the store has for the discovery of a job.
abbrev pub status_of : Option DiscoveryRow → Option String
status_of none = none
status_of (some r) = some r.status

abbrev pub discovery_status : String → Db → Option String
discovery_status job d = status_of (lookup job d.discovery)

module _ (codec : Codec) (job : String) where
  -- The store refuses to write the status.
  abbrev pub IsRefused : String → Session → Type 0
  IsRefused status s =
      (started completed : Option ℕ) × (message : String) × (e : StoreError)
      × ((set_discovery_status codec job status started completed message s).0 ≡ err e)

  -- Where the write is refused nothing changes, and else the status is there and the projects stay.
  set_discovery_status-lem :
      (status : String) (started completed : Option ℕ) (message : String) (s : Session)
      → let r = set_discovery_status codec job status started completed message s in
        (IsRefused status s × (r.1.db ≡ s.db))
        ⊎ ((discovery_status job r.1.db ≡ some status) × (r.1.db.projects ≡ s.db.projects))
  set_discovery_status-lem status started completed message s =
      go (set_discovery_status codec job status started completed message s) refl (
        unfold set_discovery_status in
        update-Does
          (λ (d : Db) (u : Done) (d1 : Db).
            (discovery_status job d1 ≡ some status) × (d1.projects ≡ d.projects))
          _ (λ d. (rw (lookup-put job job _ d.discovery, eq_refl job) refl, refl)) s)
    where
      go :
          (r : Result Done × Session)
          → (set_discovery_status codec job status started completed message s).0 ≡ r.0
          → Outcome s.db
              (λ u d1. (discovery_status job d1 ≡ some status) × (d1.projects ≡ s.db.projects))
              r.0
              r.1.db
          → (IsRefused status s × (r.1.db ≡ s.db))
            ⊎ ((discovery_status job r.1.db ≡ some status) × (r.1.db.projects ≡ s.db.projects))
      go (ok u, s1) same h = inr h
      go (err e, s1) same h = inl ((started, completed, message, e, same), h)

  -- What the end of a discovery may leave: completed, with the projects reconciled; failed, with the
  -- projects as they were; or, where the store refuses the status, the tables as they were, or
  -- the projects reconciled and the status of every discovery as it was.
  pub data IsSettled (now : ℕ) (repos : Option (List String)) (before : Db)
      (reconciliation : Session) (after : Db) : Type 0 where
    completed :
        (found : List String)
        → repos ≡ some found
        → discovery_status job after ≡ some "completed"
        → ((j n : String)
            → find_row j n after.projects
              ≡ reconciled job j n codec now found (find_row j n before.projects))
        → IsSettled now repos before reconciliation after
    failed :
        discovery_status job after ≡ some "failed"
        → after.projects ≡ before.projects
        → IsSettled now repos before reconciliation after
    lost_failed :
        IsRefused "failed" reconciliation
        → after ≡ before
        → IsSettled now repos before reconciliation after
    lost_completed :
        (found : List String)
        → repos ≡ some found
        → IsRefused "completed" reconciliation
        → after.discovery ≡ before.discovery
        → ((j n : String)
            → find_row j n after.projects
              ≡ reconciled job j n codec now found (find_row j n before.projects))
        → IsSettled now repos before reconciliation after

  module _ (print_error : StoreError → String) (now completed_at : ℕ) where
    settle-failed :
        (repos : Option (List String)) (e : StoreError) (before : Db) (s : Session)
        → s.db ≡ before
        → IsSettled completed_at repos before s
            (settle codec print_error now completed_at job (err e, s)).db
    unfolding settle
    settle-failed repos e before s same =
        go (set_discovery_status-lem "failed" (some now) (some completed_at) (print_error e) s)
      where
        go :
            {after : Db}
            → (IsRefused "failed" s × (after ≡ s.db))
              ⊎ ((discovery_status job after ≡ some "failed") × (after.projects ≡ s.db.projects))
            → IsSettled completed_at repos before s after
        go (inl (refused, lost)) = lost_failed refused (lost ∙ same)
        go (inr (status, projects)) = failed status (projects ∙ ap (λ (d : Db). d.projects) same)

    settle-completed :
        (found removed : List String) (before : Db) (s : Session)
        → s.db.discovery ≡ before.discovery
        → ((j n : String)
            → find_row j n s.db.projects
              ≡ reconciled job j n codec completed_at found (find_row j n before.projects))
        → IsSettled completed_at
            (some found)
            before
            s
            (settle codec print_error now completed_at job (ok removed, s)).db
    unfolding settle
    settle-completed found removed before s same h =
        go (set_discovery_status-lem "completed" (some now) (some completed_at) "" s)
      where
        go :
            {after : Db}
            → (IsRefused "completed" s × (after ≡ s.db))
              ⊎ ((discovery_status job after ≡ some "completed") × (after.projects ≡ s.db.projects))
            → IsSettled completed_at (some found) before s after
        go (inl (refused, lost)) =
            lost_completed found refl refused (ap (λ (d : Db). d.discovery) lost ∙ same)
              (λ j n. ap (λ (d : Db). find_row j n d.projects) lost ∙ h j n)
        go (inr (status, projects)) =
            completed found refl status (λ j n. ap (find_row j n) projects ∙ h j n)

    -- When a discovery ends, its status is completed only with the listed projects reconciled, and
    -- failed only with the projects as they were; otherwise the store refused that status, and either
    -- the tables are as they were, or the projects are reconciled and every discovery is as it was.
    pub on_discovery-IsSettled :
        (repos : Option (List String)) (a : Agent)
        → IsSettled completed_at repos a.store.db
            (run_discovery codec completed_at job repos a.store).1
            (on_discovery codec print_error now completed_at job repos a).store.db
    unfolding on_discovery run_discovery
    on_discovery-IsSettled none a = settle-failed none failure a.store.db a.store refl
    on_discovery-IsSettled (some repos) a =
        go (reconcile_projects codec completed_at job repos a.store)
          (reconcile_projects_untouched job codec completed_at repos a.store)
          (λ j n. reconcile_projects_lem job j n codec completed_at repos a.store)
      where
        go :
            (r : Result (List String) × Session)
            → Outcome a.store.db (λ removed d1. d1.discovery ≡ a.store.db.discovery) r.0 r.1.db
            → ((j n : String)
                → Outcome a.store.db
                    (λ removed d1.
                      (find_row j n d1.projects
                        ≡ reconciled job j n codec completed_at repos
                            (find_row j n a.store.db.projects))
                      × (contains n removed
                          ≡ (any (is_row job n) a.store.db.projects && not (contains n repos))))
                    r.0
                    r.1.db)
            → IsSettled completed_at
                (some repos)
                a.store.db
                r.1
                (settle codec print_error now completed_at job r).db
        go (ok removed, s) same h =
            settle-completed repos removed a.store.db s same (λ j n. (h j n).0)
        go (err e, s) same h = settle-failed (some repos) e a.store.db s (h "" "")

dispatch_discovery_async-refused :
    (codec : Codec) (job id : String) (d : Db) (ids : Dict String)
    → lookup job ids ≡ some id
    → let s : Session = record { db = d; faults = [] } in
      let r = dispatch_discovery_async codec job (record { store = s; discovery_id = ids }) in
      (r.0 ≡ already_running)
      × (discovery_status job r.1.store.db ≡ some "idle")
      × (r.1.discovery_id ≡ ids)
unfolding dispatch_discovery_async set_discovery_status update execute with_fault
dispatch_discovery_async-refused codec job id d ids e = go (lookup job ids) e
  where
    go :
        (o : Option String)
        → o ≡ some id
        → let s : Session = record { db = d; faults = [] } in
          let a : Agent = record { store = s; discovery_id = ids } in
          let r : Started × Agent = elim o [
            | some i ↦ (
              already_running,
              record a { store = (set_discovery_status codec job "idle" none none "" s).1 },
            )
            | none ↦ (discovery_started, record a { discovery_id = put job "" ids })
          ] in
          (r.0 ≡ already_running)
          × (discovery_status job r.1.store.db ≡ some "idle")
          × (r.1.discovery_id ≡ ids)
    go none q = ground arith
    go (some i) q = (refl, rw (lookup-put job job _ d.discovery, eq_refl job) refl, refl)

-- A request whose check came before another request reserved the slot is refused, and sets the status
-- to idle although the other discovery still runs.
pub stale_check_resets_status :
    (codec : Codec) (now : ℕ) (job id : String) (d : Db) (ids : Dict String)
    → lookup job ids ≡ some id
    → let s : Session = record { db = d; faults = [] } in
      let r = after_check codec now job (ok none, s) (record { store = s; discovery_id = ids }) in
      (r.0 ≡ already_running)
      × (discovery_status job r.1.store.db ≡ some "idle")
      × (r.1.discovery_id ≡ ids)
unfolding after_check after_running dispatch_discovery_async set_discovery_status update execute
    with_fault
stale_check_resets_status codec now job id d ids e =
    dispatch_discovery_async-refused codec job id
      (set_discovery_status codec job "running" (some now) none ""
        (record { db = d; faults = [] })).1.db
      ids e
