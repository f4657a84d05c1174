-- ===== src/StateStore/Projects/Updates.antt =====
-- What the updates of internal/statestore/sqlite.go write is what its queries read: UpdateProjectStatus
-- and CancelProjectJob.
use renovate_docker_operator.Prelude.{
  ℕ, ◌*◌, ◌/◌, ◌<◌, String, ◌≡◌, refl, ◌∙◌, ap, sym, Bool, true, false, ◌&&◌, Option, none, some,
  List, [], ◌∷◌, arith, str_eq, eq_iff, eq_refl, if◌then◌else◌, any,
}
use renovate_docker_operator.Api.{scheduled, ProjectStatus, RenovateStatusUpdate, only_status}
use renovate_docker_operator.Resilience.{second}
use renovate_docker_operator.StateStore.Db.{
  ProjectRow, Codec, project_not_found, failure, Session, or_raise, ◌>>◌,
}
use renovate_docker_operator.StateStore.Db.Rules.{
  Does, Succeeds, execute-Does, checked-Outcome, return-Does, or_raise-Does, reads-Does,
  Outcome-Succeeds, follow-Succeeds, Succeeds-map,
}
use renovate_docker_operator.StateStore.Projects.{
  is_row, update_where, decode, scan_project, nullable_json, set_update, update_rows,
  update_project_status,
}
use renovate_docker_operator.StateStore.Projects.Reconcile.{find_row, is_some, any-find_row}

-- The first instant whose year has five digits, which the layout does not read back.
abbrev pub year_10000 : ℕ
year_10000 = 315537897600 * second

-- What the store relies on in package time: an instant is kept to the second.
pub record IsCodec (codec : Codec) : Type 0 where
  pub time :
      (t : ℕ) → t < year_10000 → codec.parse_time (codec.format_time t) ≡ some (t / second * second)

abbrev pub map_option : {A B : Type 0} → (A → B) → Option A → Option B
map_option f none = none
map_option f (some a) = some (f a)

abbrev decoded : {A : Type 0} → (String → Option A) → Option String → Option A
decoded unmarshal none = none
decoded unmarshal (some text) = unmarshal text

-- What encoding/json makes of a value that it encodes and decodes: the value, but for texts that are
-- not UTF-8, whose invalid bytes it replaces.
abbrev pub through : {A : Type 0} → (A → Option String) → (String → Option A) → Option A → Option A
through marshal unmarshal none = none
through marshal unmarshal (some a) = decoded unmarshal (marshal a)

module _ (job project j n : String) where
  abbrev pub is_same : Bool
  is_same = str_eq job j && str_eq project n

  row_test : (r : ProjectRow) → is_row j n r ≡ true → is_row job project r ≡ is_same
  row_test r e = ground (
    arith,
    eq_iff job j,
    eq_iff project n,
    eq_iff r.job_name j,
    eq_iff r.full_name n,
    eq_iff r.job_name job,
    eq_iff r.full_name project,
  )

  module _ (q : ProjectRow → Bool) (set : ProjectRow → ProjectRow)
      (kj : (r : ProjectRow) → (set r).job_name ≡ r.job_name)
      (kn : (r : ProjectRow) → (set r).full_name ≡ r.full_name) where
    set_test : (b : Bool) (r : ProjectRow) → is_row j n (if b then set r else r) ≡ is_row j n r
    set_test true r = rw (kj r, kn r)
    set_test false r = refl

    found_test :
        (r : ProjectRow) (rest rest' : Option ProjectRow) (here same : Bool)
        → (here ≡ true → same ≡ is_same)
        → rest' ≡ map_option (λ r. if is_same && q r then set r else r) rest
        → (if here then some (if same && q r then set r else r) else rest')
          ≡ map_option (λ r. if is_same && q r then set r else r) (if here then some r else rest)
    found_test r rest rest' true same e h = rw (e refl)
    found_test r rest rest' false same e h = h

    pub find_row-update_where :
        (test : ProjectRow → Bool)
        → ((r : ProjectRow) → test r ≡ (is_row job project r && q r))
        → (rows : List ProjectRow)
        → find_row j n (update_where test set rows)
          ≡ map_option (λ r. if is_same && q r then set r else r) (find_row j n rows)
    unfolding update_where
    find_row-update_where test kt [] = refl
    find_row-update_where test kt (r ∷ rows) = rw (set_test (test r) r) (
        rw (kt r) (
          found_test r (find_row j n rows) _ (is_row j n r) (is_row job project r) (row_test r)
            (find_row-update_where test kt rows)))

-- nullableJSON writes a text that decodes to what the encoding makes of its value.
nullable_json-Does :
    {A : Type 0} (marshal : A → Option String) (unmarshal : String → Option A) (o : Option A)
    → Does
        (λ d text d1. (decode unmarshal text ≡ through marshal unmarshal o) × (d1 ≡ d))
        (nullable_json marshal o)
nullable_json-Does marshal unmarshal none =
    return-Does (λ d text d1. (decode unmarshal text ≡ none) × (d1 ≡ d)) none (λ d. (refl, refl))
nullable_json-Does marshal unmarshal (some a) =
    reads-Does (λ d text. marshal a ≡ some text) _ (or_raise (marshal a) failure) _
      (or_raise-Does (λ d text d1. (marshal a ≡ some text) × (d1 ≡ d)) (marshal a) failure
        (λ text e d. (e, refl)))
      (λ text s e. (rw e refl, refl))

-- The status of a project as the queries give it.
abbrev pub shown : Codec → Option ProjectRow → Option ProjectStatus
shown codec row = map_option (scan_project codec) row

abbrev pub applied : Codec → (now : ℕ) → RenovateStatusUpdate → ProjectStatus → ProjectStatus
applied codec now u p = record p {
  last_run = now / second * second;
  duration = u.duration;
  status = u.status;
  renovate_result_status = u.renovate_result_status;
  pr_activity = through codec.marshal_activity codec.unmarshal_activity u.pr_activity;
  log_issues = through codec.marshal_issues codec.unmarshal_issues u.log_issues;
}

module _ (codec : Codec) (laws : IsCodec codec) (now : ℕ) (early : now < year_10000)
    (job project j n : String) where
  -- What a status reads as after an update of the project.
  abbrev pub written : RenovateStatusUpdate → ProjectStatus → ProjectStatus
  written u p = if is_same job project j n then applied codec now u p else p

  shown-set_update :
      (u : RenovateStatusUpdate) (activity issues : Option String) (row : Option ProjectRow)
      → decode codec.unmarshal_activity activity
        ≡ through codec.marshal_activity codec.unmarshal_activity u.pr_activity
      → decode codec.unmarshal_issues issues
        ≡ through codec.marshal_issues codec.unmarshal_issues u.log_issues
      → shown codec (
          map_option
            (λ r.
              if is_same job project j n && true
              then set_update codec now u activity issues r
              else r)
            row)
        ≡ map_option (written u) (shown codec row)
  unfolding scan_project
  shown-set_update u activity issues none a i = refl
  shown-set_update u activity issues (some r) a i = ap some (choose (is_same job project j n))
    where
      choose :
          (b : Bool)
          → scan_project codec (if b && true then set_update codec now u activity issues r else r)
            ≡ (if b then applied codec now u (scan_project codec r) else scan_project codec r)
      choose true = rw (laws.time now early, a, i)
      choose false = refl

  -- UpdateProjectStatus succeeds only for a project of the job, and then the queries give the written
  -- values for it, the activity and the issues as they come through their JSON encoding, and what they
  -- gave before for every other project; where it fails nothing changes.
  pub update_project_status_lem :
      (u : RenovateStatusUpdate)
      → Does
          (λ d v d1.
            (is_some (find_row job project d.projects) ≡ true)
            × (shown codec (find_row j n d1.projects)
                ≡ map_option (written u) (shown codec (find_row j n d.projects))))
          (update_project_status codec now project job u)
  unfolding update_project_status
  update_project_status_lem u =
      reads-Does
        (λ d activity.
          decode codec.unmarshal_activity activity
          ≡ through codec.marshal_activity codec.unmarshal_activity u.pr_activity)
        _ (nullable_json codec.marshal_activity u.pr_activity) _
        (nullable_json-Does codec.marshal_activity codec.unmarshal_activity u.pr_activity)
        (λ activity s a.
          reads-Does
            (λ d issues.
              decode codec.unmarshal_issues issues
              ≡ through codec.marshal_issues codec.unmarshal_issues u.log_issues)
            _ (nullable_json codec.marshal_issues u.log_issues) _
            (nullable_json-Does codec.marshal_issues codec.unmarshal_issues u.log_issues)
            (λ issues s1 i.
              execute-Does
                (λ d v d1.
                  (is_some (find_row job project d.projects) ≡ true)
                  × (shown codec (find_row j n d1.projects)
                      ≡ map_option (written u) (shown codec (find_row j n d.projects))))
                _
                (λ d.
                  checked-Outcome _ (any (is_row job project) d.projects) project_not_found
                    (update_rows job project (set_update codec now u activity issues) d) d
                    (λ there. (
                      sym (any-find_row job job project d.projects) ∙ there,
                      rw
                          (find_row-update_where job project j n (λ r. true)
                            (set_update codec now u activity issues) (λ r. refl) (λ r. refl)
                            (is_row job project) (λ r. ground arith) d.projects)
                          (shown-set_update u activity issues (find_row j n d.projects) a i),
                    )))
                s1)
            s)

overwritten :
    (codec : Codec) (t1 t2 : ℕ) (job project : String) (first end : RenovateStatusUpdate)
    (o : Option ProjectStatus)
    → map_option
        (λ p. if is_same job project job project then applied codec t2 end p else p)
        (map_option
          (λ p. if is_same job project job project then applied codec t1 first p else p)
          o)
      ≡ map_option (applied codec t2 end) o
overwritten codec t1 t2 job project first end none = refl
overwritten codec t1 t2 job project first end (some p) = rw (eq_refl job, eq_refl project) refl

-- A status update that follows another one for the same project, as when a run ends after a webhook
-- has scheduled its project anew, leaves the project as if the first had never been: what was
-- scheduled in between is lost.
pub schedule_before_exit_is_lost :
    (codec : Codec) (laws : IsCodec codec) (scheduled_at ended_at : ℕ)
    → scheduled_at < year_10000
    → ended_at < year_10000
    → (job project : String) (end : RenovateStatusUpdate) (s : Session)
    → Succeeds
        (λ v d.
          shown codec (find_row job project d.projects)
          ≡ map_option
              (applied codec ended_at end)
              (shown codec (find_row job project s.db.projects)))
        ((update_project_status codec scheduled_at project job (only_status scheduled)
            >> update_project_status codec ended_at project job end)
          s)
schedule_before_exit_is_lost codec laws t1 t2 early1 early2 job project end s =
    follow-Succeeds _ _ _ (update_project_status codec t1 project job (only_status scheduled) s)
      (Outcome-Succeeds s.db _
        (update_project_status codec t1 project job (only_status scheduled) s)
        (update_project_status_lem codec laws t1 early1 job project job project
          (only_status scheduled) s))
      (λ v s1 q.
        Succeeds-map _ _ (update_project_status codec t2 project job end s1)
          (λ a d h.
            h.1
            ∙ ap
                (map_option
                  (λ p. if is_same job project job project then applied codec t2 end p else p))
                q.1
            ∙ overwritten codec t1 t2 job project (only_status scheduled) end
                (shown codec (find_row job project s.db.projects)))
          (Outcome-Succeeds s1.db _ (update_project_status codec t2 project job end s1)
            (update_project_status_lem codec laws t2 early2 job project job project end s1)))
