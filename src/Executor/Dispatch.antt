-- ===== src/Executor/Dispatch.antt =====
-- pullImage, dispatchProject and doDispatch of internal/executor/docker.go.
pub mod Attempts
pub mod Slots
use renovate_docker_operator.Prelude.{
  ℕ, suc, ◌+◌, String, Bool, true, false, Option, none, some, List, [], ◌∷◌, ℤ, ltb, leb, ltb_ℤ,
  if◌then◌else◌, length, Dict, lookup, put, delete,
}
use renovate_docker_operator.Resilience.{Source, cron}
use renovate_docker_operator.Api.{RenovateJob, ProjectStatus, scheduled, running, only_status}
use renovate_docker_operator.Executor.State.{
  PullPolicy, always, if_not_present, never, unknown_policy, Settings, Labels, HostConfig,
  Container, World, Executor,
}
use renovate_docker_operator.Executor.Env.{build_env_vars}

-- `_, ok := m[k]`
unfoldable pub has_key {ℓ} : {V : Type ℓ} → Option V → Bool
has_key none = false
has_key (some v) = true

unfoldable pub child_host_config : Settings → HostConfig
child_host_config s = record {
  binds =
      (s.cache_volume, "/tmp/renovate")
      ∷ (s.containerbase_cache_volume, "/tmp/containerbase/cache")
      ∷ [];
  network_mode = s.network;
  extra_hosts = s.extra_hosts;
  log_type = "k8s-file";
}

-- `if _, hasSource := e.sources[project]; !hasSource { e.sources[project] = SourceCron }`
pub default_source : String → Dict Source → Dict Source
default_source project sources =
    if has_key (lookup project sources) then sources else put project cron sources

module _ {W : Type 0} where
  -- The mutex is taken for one write.
  mark_image_checked : ℕ → Executor W → Executor W
  mark_image_checked at e = record e { image_cache = put e.settings.image at e.image_cache }

  -- `if e.imageCacheTTL > 0 { e.markImageChecked(e.image, time.Now()) }`
  touch_cache : World W → Executor W → Executor W
  unfolding mark_image_checked
  touch_cache rt e =
      if ltb 0 e.settings.image_cache_ttl
      then (let (at, w) = rt.now e.world in mark_image_checked at (record e { world = w }))
      else e

  pull_now : World W → Executor W → Bool × Executor W
  unfolding touch_cache
  pull_now rt e =
      let (pulled, w) = rt.image_pull e.settings.image e.world in
      let e1 = record e { world = w } in if pulled then (true, touch_cache rt e1) else (false, e1)

  pull_unless_present : World W → Executor W → Bool × Executor W
  unfolding touch_cache pull_now
  pull_unless_present rt e =
      let (present, w) = rt.image_inspect e.settings.image e.world in
      let e1 = record e { world = w } in
      if present then (true, touch_cache rt e1) else pull_now rt e1

  pull_by_policy : PullPolicy → World W → Executor W → Bool × Executor W
  unfolding pull_unless_present pull_now
  pull_by_policy never rt e = (true, e)
  pull_by_policy if_not_present rt e = pull_unless_present rt e
  pull_by_policy always rt e = pull_now rt e
  pull_by_policy unknown_policy rt e = pull_unless_present rt e

  -- `false` is the error of ImagePull.
  unfoldable pub pull_image : World W → Executor W → Bool × Executor W
  unfolding pull_by_policy
  pull_image rt e = pull_by_policy e.settings.image_pull_policy rt e

  executor_container : World W → Settings → RenovateJob → String → ℕ → Container
  unfolding child_host_config
  executor_container rt s job project now = record {
    image = s.image;
    cmd = "renovate" ∷ project ∷ [];
    env = build_env_vars rt.environ job false;
    labels = record {
      project = project;
      job_name = job.name;
      kind = "executor";
      started_at = some now;
    };
    user = "12021:0";
    host = child_host_config s;
  }

  -- After the container has started: the slot gets its container, and the store is told.
  started : World W → RenovateJob → String → String → Executor W → Executor W
  unfolding default_source
  started rt job project container e =
      let (done, w) = rt.update_project_status project job.name (only_status running) e.world in
      record e {
        running = put project container e.running;
        sources = default_source project e.sources;
        world = w;
      }

  start_container : World W → RenovateJob → String → String → Executor W → Bool × Executor W
  unfolding started
  start_container rt job project container e =
      let (ok, w) = rt.container_start container e.world in
      if ok
      then (true, started rt job project container (record e { world = w }))
      else (false, record e { world = rt.container_remove container w })

  after_create : World W → RenovateJob → String → Option String → Executor W → Bool × Executor W
  after_create rt job project none e = (false, e)
  after_create rt job project (some container) e = start_container rt job project container e

  create_container : World W → RenovateJob → String → Executor W → Bool × Executor W
  unfolding start_container executor_container after_create
  create_container rt job project e =
      let (now, w) = rt.now e.world in
      let (created, w1) =
        rt.container_create (executor_container rt e.settings job project now) w in
      after_create rt job project created (record e { world = w1 })

  -- `false` is an error.
  unfoldable pub dispatch_project : World W → RenovateJob → String → Executor W → Bool × Executor W
  unfolding create_container
  dispatch_project rt job project e =
      let (pulled, e1) = pull_image rt e in
      if pulled then create_container rt job project e1 else (false, e1)

  -- The slot is reserved with no container, under the source cron.
  unfoldable pub reserve : String → Executor W → Executor W
  reserve project e = record e {
    running = put project "" e.running;
    sources = put project cron e.sources;
  }

  unfoldable pub release : String → Executor W → Executor W
  release project e = record e {
    running = delete project e.running;
    sources = delete project e.sources;
  }

  -- One turn of the inner loop, past its test: `runningCount` and the executor.
  unfoldable pub dispatch_one : World W → RenovateJob → String → ℕ × Executor W → ℕ × Executor W
  dispatch_one rt job project (count, e) =
      if has_key (lookup project e.running)
      then (count, e)
      else (let (ok, e1) = dispatch_project rt job project (reserve project e) in
          if ok then (suc count, e1) else (count, release project e1))

  unfoldable pub dispatch_scheduled :
      World W → RenovateJob → List ProjectStatus → ℕ × Executor W → ℕ × Executor W
  dispatch_scheduled rt job [] r = r
  dispatch_scheduled rt job (p ∷ ps) r =
      if leb r.1.settings.parallelism r.0
      then r
      else dispatch_scheduled rt job ps (dispatch_one rt job p.name r)

-- Go's sort.Slice by falling priority: an insertion sort, which is one of the orders it may give.
insert_by_priority : ProjectStatus → List ProjectStatus → List ProjectStatus
insert_by_priority p [] = p ∷ []
insert_by_priority p (q ∷ qs) =
    if ltb_ℤ q.priority p.priority then p ∷ q ∷ qs else q ∷ insert_by_priority p qs

sort_by_priority : List ProjectStatus → List ProjectStatus
unfolding insert_by_priority
sort_by_priority [] = []
sort_by_priority (p ∷ ps) = insert_by_priority p (sort_by_priority ps)

module _ {W : Type 0} where
  dispatch_found :
      World W → RenovateJob → Option (List ProjectStatus) → ℕ × Executor W → ℕ × Executor W
  unfolding sort_by_priority
  dispatch_found rt job none r = r
  dispatch_found rt job (some projects) r = dispatch_scheduled rt job (sort_by_priority projects) r

  unfoldable pub dispatch_job : World W → RenovateJob → ℕ × Executor W → ℕ × Executor W
  unfolding dispatch_found
  dispatch_job rt job (count, e) =
      let (found, w) = rt.projects_by_status job.name scheduled e.world in
      dispatch_found rt job found (count, record e { world = w })

  unfoldable pub dispatch_jobs : World W → List RenovateJob → ℕ × Executor W → ℕ × Executor W
  dispatch_jobs rt [] r = r
  dispatch_jobs rt (job ∷ jobs) r =
      if leb r.1.settings.parallelism r.0 then r else dispatch_jobs rt jobs (dispatch_job rt job r)

  dispatch_listed : World W → Option (List RenovateJob) → Executor W → Executor W
  dispatch_listed rt none e = e
  dispatch_listed rt (some jobs) e = (dispatch_jobs rt jobs (length e.running, e)).1

  unfoldable pub do_dispatch : World W → Executor W → Executor W
  unfolding dispatch_listed
  do_dispatch rt e =
      let (jobs, w) = rt.list_jobs e.world in dispatch_listed rt jobs (record e { world = w })
