-- ===== src/StateStore/Projects/Unique/Methods.antt =====
-- Every method of internal/statestore/sqlite.go that writes the table of projects keeps its keys
-- unique.
use mathlib.Core.List.{map}
use renovate_docker_operator.Prelude.{
  ℕ, String, ◌≡◌, refl, sym, subst, Bool, not, Option, none, some, List, [], ◌∷◌, arith, any,
  select,
}
use renovate_docker_operator.Api.{ProjectStatus, RenovateStatusUpdate}
use renovate_docker_operator.StateStore.Db.{
  ProjectRow, Db, Codec, not_unique, project_not_found, failure, Result, ok, err, Session, Done,
  Action, update, execute, query, transaction, return, or_raise, ◌>>=◌, ◌>>◌,
}
use renovate_docker_operator.StateStore.Db.Rules.{
  Outcome, Does, Succeeds, execute-Does, checked-Outcome, return-Does, or_raise-Does, reads-Does,
  query-Does, transaction-Outcome, Outcome-Succeeds, follow-Succeeds, update-Does, yields-Outcome,
  Succeeds-map,
}
use renovate_docker_operator.StateStore.Projects.{
  is_row, of_job, nullable_json, set_update, update_project, update_rows, update_each,
  load_projects, names, update_project_status, update_project_status_batched, is_running_row,
  cancel, cancel_rows, cancel_project_job, removed_names, new_names, delete_row, delete_each,
  new_row, insert_row, insert_each, reconcile_projects,
}
use renovate_docker_operator.StateStore.Projects.Unique.{
  IsUnique, KeepsKey, update_where-IsUnique, select-IsUnique, append-IsUnique,
}

-- What a method has to do with the invariant: nothing, or to keep it.
abbrev Keeps : {A : Type 0} → Db → A → Db → Type 0
Keeps d a d1 = IsUnique d.projects → IsUnique d1.projects

keep_each :
    {A : Type 0} (m : A → Action Done) (again : Action Done) (a : A) (s : Session)
    → Does Keeps (m a)
    → ((s1 : Session)
        → Succeeds (λ u d1. IsUnique s1.db.projects → IsUnique d1.projects) (again s1))
    → Succeeds (λ u d1. IsUnique s.db.projects → IsUnique d1.projects) ((m a >> again) s)
keep_each m again a s h rest =
    follow-Succeeds (λ u d1. IsUnique s.db.projects → IsUnique d1.projects) _ _ (m a s)
      (Outcome-Succeeds s.db (Keeps s.db) (m a s) (h s))
      (λ u s1 q. Succeeds-map _ _ (again s1) (λ v d1 k u0. k (q u0)) (rest s1))

update_each-Keeps :
    (job : String) (set : ProjectRow → ProjectRow)
    → KeepsKey set
    → (projects : List String) (s : Session)
    → Succeeds
        (λ u d1. IsUnique s.db.projects → IsUnique d1.projects)
        (update_each job set projects s)
unfolding update_each
update_each-Keeps job set keeps [] s = λ u. u
update_each-Keeps job set keeps (p ∷ projects) s =
    keep_each (λ p. update (update_rows job p set)) (update_each job set projects) p s
      (update-Does Keeps (update_rows job p set)
        (λ d. update_where-IsUnique (is_row job p) set keeps d.projects))
      (update_each-Keeps job set keeps projects)

delete_each-Keeps :
    (job : String) (projects : List String) (s : Session)
    → Succeeds (λ u d1. IsUnique s.db.projects → IsUnique d1.projects) (delete_each job projects s)
unfolding delete_each
delete_each-Keeps job [] s = λ u. u
delete_each-Keeps job (p ∷ projects) s =
    keep_each (λ p. update (delete_row job p)) (delete_each job projects) p s
      (update-Does Keeps (delete_row job p)
        (λ d. select-IsUnique (λ r. not (is_row job p r)) d.projects))
      (delete_each-Keeps job projects)

insert_each-Keeps :
    (codec : Codec) (now : ℕ) (job : String) (projects : List String) (s : Session)
    → Succeeds
        (λ u d1. IsUnique s.db.projects → IsUnique d1.projects)
        (insert_each codec now job projects s)
unfolding insert_each
insert_each-Keeps codec now job [] s = λ u. u
insert_each-Keeps codec now job (p ∷ projects) s =
    keep_each (λ p. execute (insert_row codec now job p)) (insert_each codec now job projects) p s
      (execute-Does Keeps (insert_row codec now job p) (λ d.
        checked-Outcome (Keeps d) (not (any (is_row job p) d.projects)) not_unique _ d
          (λ free. append-IsUnique d.projects (new_row codec now job p) (ground arith))))
      (insert_each-Keeps codec now job projects)

transaction-Keeps :
    {A : Type 0} (body : Action A)
    → ((s : Session) → Succeeds (λ a d1. IsUnique s.db.projects → IsUnique d1.projects) (body s))
    → Does Keeps (transaction body)
transaction-Keeps body h s = transaction-Outcome Keeps body s (λ s1 same.
    Succeeds-map _ _ (body s1)
      (λ a d1 k u. k (subst (λ (d : Db). IsUnique d.projects) (sym same) u)) (h s1))

-- A query changes nothing, whether it fails or not.
db-query : {A : Type 0} (f : Db → A) (s : Session) → (query f s).1.db ≡ s.db
db-query {A = A} f s = go (query f s).0 (query-Does (λ d a d1. d1 ≡ d) f (λ d. refl) s)
  where
    go : {d d1 : Db} (r : Result A) → Outcome d (λ a d2. d2 ≡ d) r d1 → d1 ≡ d
    go (ok a) e = e
    go (err e) same = same

nullable_json-Reads :
    {A : Type 0} (marshal : A → Option String) (o : Option A)
    → Does (λ d text d1. (d ≡ d) × (d1 ≡ d)) (nullable_json marshal o)
nullable_json-Reads marshal none =
    return-Does {A = Option String} (λ d text d1. (d ≡ d) × (d1 ≡ d)) none (λ d. (refl, refl))
nullable_json-Reads marshal (some a) =
    reads-Does (λ d text. d ≡ d) _ (or_raise (marshal a) failure) _
      (or_raise-Does (λ d text d1. (d ≡ d) × (d1 ≡ d)) (marshal a) failure
        (λ text e d. (refl, refl)))
      (λ text s e. (refl, refl))

module _ (codec : Codec) (now : ℕ) (job : String) where
  abbrev put : RenovateStatusUpdate → Option String → Option String → ProjectRow → ProjectRow
  put u activity issues = set_update codec now u activity issues

  update_project_status-Keeps :
      (project : String) (u : RenovateStatusUpdate)
      → Does Keeps (update_project_status codec now project job u)
  unfolding update_project_status
  update_project_status-Keeps project u =
      reads-Does (λ d text. d ≡ d) _ (nullable_json codec.marshal_activity u.pr_activity) _
        (nullable_json-Reads codec.marshal_activity u.pr_activity)
        (λ activity s a.
          reads-Does (λ d text. d ≡ d) Keeps (nullable_json codec.marshal_issues u.log_issues) _
            (nullable_json-Reads codec.marshal_issues u.log_issues)
            (λ issues s1 i.
              execute-Does Keeps (update_project job project (put u activity issues))
                (λ d.
                  checked-Outcome (Keeps d) (any (is_row job project) d.projects) project_not_found
                    _ d
                    (λ there.
                      update_where-IsUnique (is_row job project) (put u activity issues)
                        (λ r. (refl, refl)) d.projects))
                s1)
            s)

  batch-Keeps :
      (u : RenovateStatusUpdate) (matching : List String)
      → Does Keeps (
          nullable_json codec.marshal_activity u.pr_activity >>= λ activity.
          nullable_json codec.marshal_issues u.log_issues >>= λ issues.
          transaction (update_each job (put u activity issues) matching))
  batch-Keeps u matching =
      reads-Does (λ d text. d ≡ d) _ (nullable_json codec.marshal_activity u.pr_activity) _
        (nullable_json-Reads codec.marshal_activity u.pr_activity)
        (λ activity s a.
          reads-Does (λ d text. d ≡ d) Keeps (nullable_json codec.marshal_issues u.log_issues) _
            (nullable_json-Reads codec.marshal_issues u.log_issues)
            (λ issues s1 i.
              transaction-Keeps (update_each job (put u activity issues) matching)
                (update_each-Keeps job (put u activity issues) (λ r. (refl, refl)) matching) s1)
            s)

  update_project_status_batched-Keeps :
      (test : ProjectStatus → Bool) (u : RenovateStatusUpdate)
      → Does Keeps (update_project_status_batched codec now test job u)
  unfolding update_project_status_batched
  update_project_status_batched-Keeps test u =
      reads-Does (λ d projects. d ≡ d) Keeps (load_projects codec job) _
        (unfold load_projects in query-Does _ _ (λ d. (refl, refl)))
        (λ projects s e. some_matching (names (select test projects)) s)
    where
      some_matching :
          (matching : List String)
          → Does Keeps (elim matching [
            | [] ↦ return tt
            | first ∷ others ↦ nullable_json codec.marshal_activity u.pr_activity >>= λ activity.
                nullable_json codec.marshal_issues u.log_issues >>= λ issues.
                transaction (update_each job (put u activity issues) (first ∷ others))
          ])
      some_matching [] s = λ k. k
      some_matching (first ∷ others) s = batch-Keeps u (first ∷ others) s

  reconcile_projects-Keeps :
      (projects : List String) → Does Keeps (reconcile_projects codec now job projects)
  unfolding reconcile_projects
  reconcile_projects-Keeps projects =
      reads-Does (λ d existing. d ≡ d) Keeps (query (λ d. map (λ r. r.full_name) (of_job job d))) _
        (query-Does _ (λ d. map (λ r. r.full_name) (of_job job d)) (λ d. (refl, refl)))
        (λ existing s e.
          yields-Outcome s.db (Keeps s.db) (Keeps s.db) (removed_names existing projects)
            (transaction (change existing) s) (λ a d1 k. k)
            (transaction-Keeps (change existing)
              (λ s1.
                follow-Succeeds (λ u d1. IsUnique s1.db.projects → IsUnique d1.projects) _ _
                  (delete_each job (removed_names existing projects) s1)
                  (delete_each-Keeps job (removed_names existing projects) s1)
                  (λ u s2 q.
                    Succeeds-map _ _ (insert_each codec now job (new_names existing projects) s2)
                      (λ v d1 k u0. k (q u0))
                      (insert_each-Keeps codec now job (new_names existing projects) s2)))
              s))
    where
      change : List String → Action Done
      change existing =
          delete_each job (removed_names existing projects)
          >> insert_each codec now job (new_names existing projects)

cancel_rows-Keeps :
    (project job : String) (s : Session)
    → Succeeds
        (λ u d1. IsUnique s.db.projects → IsUnique d1.projects)
        (execute (cancel_rows job project) s)
cancel_rows-Keeps project job s =
    Outcome-Succeeds s.db (Keeps s.db) (execute (cancel_rows job project) s) (
      execute-Does Keeps (cancel_rows job project)
        (λ d.
          checked-Outcome (Keeps d) (any (is_running_row job project) d.projects) project_not_found
            _ d
            (λ there.
              update_where-IsUnique (is_running_row job project) cancel (λ r. (refl, refl))
                d.projects))
        s)

cancel_project_job-Keeps : (project job : String) → Does Keeps (cancel_project_job project job)
unfolding cancel_project_job
cancel_project_job-Keeps project job = transaction-Keeps _ (λ s.
    let s1 = (query (λ d. select (is_running_row job project) d.projects) s).1 in
    Succeeds-map (λ u d1. IsUnique s1.db.projects → IsUnique d1.projects)
      (λ u d1. IsUnique s.db.projects → IsUnique d1.projects) (execute (cancel_rows job project) s1)
      (λ a d1 k u. k (
        subst (λ (d : Db). IsUnique d.projects)
          (sym (db-query (λ d. select (is_running_row job project) d.projects) s)) u))
      (cancel_rows-Keeps project job s1))

-- The methods that write the table of projects.
pub data Write : Type 0 where
  updating : (now : ℕ) (project job : String) → RenovateStatusUpdate → Write
  updating_all : (now : ℕ) → (ProjectStatus → Bool) → (job : String) → RenovateStatusUpdate → Write
  reconciling : (now : ℕ) (job : String) → List String → Write
  cancelling : (project job : String) → Write

abbrev pub write : Codec → Write → Session → Session
write codec (updating now project job u) s = (update_project_status codec now project job u s).1
write codec (updating_all now test job u) s =
    (update_project_status_batched codec now test job u s).1
write codec (reconciling now job projects) s = (reconcile_projects codec now job projects s).1
write codec (cancelling project job) s = (cancel_project_job project job s).1

abbrev pub write_all : Codec → List Write → Session → Session
write_all codec [] s = s
write_all codec (w ∷ ws) s = write_all codec ws (write codec w s)

Keeps-IsUnique :
    {A : Type 0} (r : Result A) (d d1 : Db)
    → Outcome d (λ a d2. IsUnique d.projects → IsUnique d2.projects) r d1
    → IsUnique d.projects
    → IsUnique d1.projects
Keeps-IsUnique (ok a) d d1 k u = k u
Keeps-IsUnique (err e) d d1 same u = subst (λ (d2 : Db). IsUnique d2.projects) (sym same) u

write-IsUnique :
    (codec : Codec) (w : Write) (s : Session)
    → IsUnique s.db.projects
    → IsUnique (write codec w s).db.projects
write-IsUnique codec (updating now project job u) s =
    Keeps-IsUnique _ _ _ (update_project_status-Keeps codec now job project u s)
write-IsUnique codec (updating_all now test job u) s =
    Keeps-IsUnique _ _ _ (update_project_status_batched-Keeps codec now job test u s)
write-IsUnique codec (reconciling now job projects) s =
    Keeps-IsUnique _ _ _ (reconcile_projects-Keeps codec now job projects s)
write-IsUnique codec (cancelling project job) s =
    Keeps-IsUnique _ _ _ (cancel_project_job-Keeps project job s)

-- Whatever the methods are called with and whichever statements fail, no two rows of the table of
-- projects ever have the same job and name, if none had at first.
pub write_all-IsUnique :
    (codec : Codec) (ws : List Write) (s : Session)
    → IsUnique s.db.projects
    → IsUnique (write_all codec ws s).db.projects
write_all-IsUnique codec [] s u = u
write_all-IsUnique codec (w ∷ ws) s u =
    write_all-IsUnique codec ws (write codec w s) (write-IsUnique codec w s u)
