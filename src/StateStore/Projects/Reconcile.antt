-- ===== src/StateStore/Projects/Reconcile.antt =====
-- What ReconcileProjects of internal/statestore/sqlite.go leaves in the table of projects.
use mathlib.Core.List.{map}
use renovate_docker_operator.Prelude.{
  ℕ, String, ◌≡◌, refl, ◌∙◌, ap, Bool, true, false, not, ◌&&◌, Option, none, some, List, [], ◌∷◌,
  ◌++◌, arith, str_eq, eq_iff, if◌then◌else◌, any, select, contains,
}
use renovate_docker_operator.StateStore.Db.{
  ProjectRow, Db, Codec, not_unique, Session, update, execute, query, transaction, ◌>>◌,
}
use renovate_docker_operator.StateStore.Db.Rules.{
  checked-Outcome, Does, Succeeds, query-Does, update-Does, execute-Does, reads-Does,
  transaction-Outcome, Outcome-Succeeds, follow-Succeeds, Succeeds-map, yields-Outcome,
}
use renovate_docker_operator.StateStore.Projects.{
  is_row, of_job, removed_names, new_names, delete_row, delete_each, new_row, insert_row,
  insert_each, reconcile_projects,
}

-- The row of a project of a job.
abbrev pub find_row : String → String → List ProjectRow → Option ProjectRow
find_row j n [] = none
find_row j n (r ∷ rows) = let rest = find_row j n rows in if is_row j n r then some r else rest

abbrev pub is_some : {A : Type 0} → Option A → Bool
is_some none = false
is_some (some a) = true

abbrev pub or_else : {A : Type 0} → Option A → A → A
or_else none b = b
or_else (some a) b = a

contains-select :
    (p : String → Bool) (n : String) (l : List String)
    → contains n (select p l) ≡ (contains n l && p n)
unfolding contains
contains-select p n [] = refl
contains-select p n (k ∷ l) = ground (arith, contains-select p n l, eq_iff k n)

module _ (job j n : String) where
  pub any-find_row : (rows : List ProjectRow) → any (is_row j n) rows ≡ is_some (find_row j n rows)
  any-find_row [] = refl
  any-find_row (r ∷ rows) = ground (arith, any-find_row rows)

  contains-names :
      (rows : List ProjectRow)
      → contains n (map (λ r. r.full_name) (select (λ r. str_eq r.job_name job) rows))
        ≡ any (is_row job n) rows
  unfolding contains
  contains-names [] = refl
  contains-names (r ∷ rows) = ground (arith, contains-names rows)

  find_row-delete :
      (p : String) (rows : List ProjectRow)
      → find_row j n (select (λ r. not (is_row job p r)) rows)
        ≡ (if str_eq job j && str_eq p n then none else find_row j n rows)
  find_row-delete p [] = ground arith
  find_row-delete p (r ∷ rows) = ground (
    arith,
    find_row-delete p rows,
    eq_iff job j,
    eq_iff p n,
    eq_iff r.job_name j,
    eq_iff r.full_name n,
    eq_iff r.job_name job,
    eq_iff r.full_name p,
  )

  find_row-append :
      (rows : List ProjectRow) (r : ProjectRow)
      → find_row j n (rows ++ r ∷ []) ≡ (
          if is_some (find_row j n rows)
          then find_row j n rows
          else (if is_row j n r then some r else none))
  find_row-append [] r = refl
  find_row-append (q ∷ rows) r = ground (arith, find_row-append rows r)

  delete_each-Succeeds :
      (projects : List String) (s : Session)
      → Succeeds
          (λ u d.
            find_row j n d.projects
            ≡ (if str_eq job j && contains n projects then none else find_row j n s.db.projects))
          (delete_each job projects s)
  unfolding delete_each contains
  delete_each-Succeeds [] s = ground arith
  delete_each-Succeeds (p ∷ projects) s =
      follow-Succeeds
        (λ u d.
          find_row j n d.projects
          ≡ (if str_eq job j && str_eq p n then none else find_row j n s.db.projects))
        _ _ (update (delete_row job p) s)
        (Outcome-Succeeds s.db _ (update (delete_row job p) s) (
          update-Does
            (λ d u d1.
              find_row j n d1.projects
              ≡ (if str_eq job j && str_eq p n then none else find_row j n d.projects))
            (delete_row job p) (λ d. find_row-delete p d.projects) s))
        (λ u s1 q.
          Succeeds-map _ _ (delete_each job projects s1) (λ a d h. ground arith)
            (delete_each-Succeeds projects s1))

  find_row-insert :
      (codec : Codec) (now : ℕ) (p : String) (rows : List ProjectRow)
      → any (is_row job p) rows ≡ false
      → find_row j n (rows ++ new_row codec now job p ∷ [])
        ≡ (if str_eq job j && str_eq p n then some (new_row codec now job n) else find_row j n rows)
  find_row-insert codec now p rows e = ground (
    arith,
    find_row-append rows (new_row codec now job p),
    any-find_row rows,
    e,
    eq_iff job j,
    eq_iff p n,
  )

  insert_each-Succeeds :
      (codec : Codec) (now : ℕ) (projects : List String) (s : Session)
      → Succeeds
          (λ u d. find_row j n d.projects ≡ (
            if str_eq job j && contains n projects
            then some (new_row codec now job n)
            else find_row j n s.db.projects))
          (insert_each codec now job projects s)
  unfolding insert_each contains
  insert_each-Succeeds codec now [] s = ground arith
  insert_each-Succeeds codec now (p ∷ projects) s =
      follow-Succeeds
        (λ u d. find_row j n d.projects ≡ (
          if str_eq job j && str_eq p n
          then some (new_row codec now job n)
          else find_row j n s.db.projects))
        _ _ (execute (insert_row codec now job p) s)
        (Outcome-Succeeds s.db _ (execute (insert_row codec now job p) s) (
          execute-Does
            (λ d u d1. find_row j n d1.projects ≡ (
              if str_eq job j && str_eq p n
              then some (new_row codec now job n)
              else find_row j n d.projects))
            (insert_row codec now job p)
            (λ d.
              checked-Outcome _ (not (any (is_row job p) d.projects)) not_unique _ d
                (λ e. find_row-insert codec now p d.projects (ground arith)))
            s))
        (λ u s1 q.
          Succeeds-map _ _ (insert_each codec now job projects s1) (λ a d h. ground arith)
            (insert_each-Succeeds codec now projects s1))

  -- The row after a reconciliation: of a project of the job that is listed, the row that it had or a
  -- new one, of one that is not, none; of any other job, the row that it had.
  abbrev pub reconciled : Codec → ℕ → List String → Option ProjectRow → Option ProjectRow
  reconciled codec now projects row =
      if str_eq job j
      then (if contains n projects then some (or_else row (new_row codec now job n)) else none)
      else row

  change-Succeeds :
      (codec : Codec) (now : ℕ) (projects existing : List String) (before : Db) (s : Session)
      → contains n existing ≡ any (is_row job n) before.projects
      → s.db ≡ before
      → Succeeds
          (λ u d.
            find_row j n d.projects ≡ reconciled codec now projects (find_row j n before.projects))
          ((delete_each job (removed_names existing projects)
              >> insert_each codec now job (new_names existing projects))
            s)
  change-Succeeds codec now projects existing before s known same =
      follow-Succeeds _ _ _ (delete_each job (removed_names existing projects) s)
        (delete_each-Succeeds (removed_names existing projects) s)
        (λ u s1 q.
          Succeeds-map _ _ (insert_each codec now job (new_names existing projects) s1)
            (λ a d h. ground (
              arith,
              h,
              q,
              known,
              ap (λ (db : Db). find_row j n db.projects) same,
              eq_iff job j,
              any-find_row before.projects,
              contains-select (λ name. not (contains name projects)) n existing,
              contains-select (λ name. not (contains name existing)) n projects,
            ))
            (insert_each-Succeeds codec now (new_names existing projects) s1))

  -- ReconcileProjects, where it succeeds, leaves exactly the listed projects in the job: one that was
  -- there keeps its row, one that is new has a fresh row, and no row of another job changes; it
  -- returns the projects that were there and are not listed. Where it fails nothing changes.
  pub reconcile_projects_lem :
      (codec : Codec) (now : ℕ) (projects : List String)
      → Does
          (λ d removed d1.
            (find_row j n d1.projects ≡ reconciled codec now projects (find_row j n d.projects))
            × (contains n removed ≡ (any (is_row job n) d.projects && not (contains n projects))))
          (reconcile_projects codec now job projects)
  unfolding reconcile_projects
  reconcile_projects_lem codec now projects =
      reads-Does (λ d existing. contains n existing ≡ any (is_row job n) d.projects) _
        (query (λ d. map (λ r. r.full_name) (of_job job d))) _
        (query-Does _ (λ d. map (λ r. r.full_name) (of_job job d))
          (λ d. (contains-names d.projects, refl)))
        (λ existing s known.
          yields-Outcome s.db
            (λ u d1.
              find_row j n d1.projects ≡ reconciled codec now projects (find_row j n s.db.projects))
            _ (removed_names existing projects)
            (transaction
              (delete_each job (removed_names existing projects)
                >> insert_each codec now job (new_names existing projects))
              s)
            (λ a d1 q. (
              q,
              contains-select (λ name. not (contains name projects)) n existing
                  ∙ ap (λ b. b && not (contains n projects)) known,
            ))
            (transaction-Outcome
              (λ d u d1.
                find_row j n d1.projects ≡ reconciled codec now projects (find_row j n d.projects))
              _ s (λ s1 same. change-Succeeds codec now projects existing s.db s1 known same)))
