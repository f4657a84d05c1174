-- ===== src/StateStore/Projects/Unique.antt =====
-- UNIQUE(job_name, full_name) of the table of projects in internal/statestore/migrations.go, and the
-- changes of the table that keep it.
pub mod Methods
use mathlib.Core.List.{map}
use renovate_docker_operator.Prelude.{
  ℕ, String, ◌≡◌, refl, ◌∙◌, ap, sym, subst, Bool, true, false, not, ◌&&◌, ◌||◌, Option, none, some,
  List, [], ◌∷◌, ◌++◌, arith, str_eq, eq_iff, eq_refl, if◌then◌else◌, any, select,
}
use renovate_docker_operator.Api.{ProjectStatus, RenovateStatusUpdate}
use renovate_docker_operator.StateStore.Db.{
  ProjectRow, Db, Codec, StoreError, not_unique, project_not_found, failure, Result, ok, err,
  Session, Done, Action, update, execute, query, transaction, return, or_raise, follow, ◌>>=◌, ◌>>◌,
}
use renovate_docker_operator.StateStore.Db.Rules.{
  Outcome, Does, Succeeds, execute-Does, checked-Outcome, return-Does, or_raise-Does, reads-Does,
  query-Does, transaction-Outcome, Outcome-Succeeds, follow-Succeeds, update-Does, yields-Outcome,
  Succeeds-map,
}
use renovate_docker_operator.StateStore.Projects.{
  is_row, update_where, of_job, nullable_json, set_update, update_project, update_rows, update_each,
  load_projects, names, update_project_status, update_project_status_batched, is_running_row,
  cancel, cancel_rows, cancel_project_job, removed_names, new_names, delete_row, delete_each,
  new_row, insert_row, insert_each, reconcile_projects,
}

-- No two rows have the same job and name.
abbrev pub IsUnique : List ProjectRow → Type 0
IsUnique [] = Unit
IsUnique (r ∷ rows) = (any (is_row r.job_name r.full_name) rows ≡ false) × IsUnique rows

abbrev pub KeepsKey : (ProjectRow → ProjectRow) → Type 0
KeepsKey set =
    (r : ProjectRow) → ((set r).job_name ≡ r.job_name) × ((set r).full_name ≡ r.full_name)

is_row_set :
    (set : ProjectRow → ProjectRow)
    → KeepsKey set
    → (b : Bool) (j n : String) (r : ProjectRow)
    → is_row j n (if b then set r else r) ≡ is_row j n r
is_row_set set keeps true j n r = rw ((keeps r).0, (keeps r).1)
is_row_set set keeps false j n r = refl

any-update_where :
    (test : ProjectRow → Bool) (set : ProjectRow → ProjectRow)
    → KeepsKey set
    → (j n : String) (rows : List ProjectRow)
    → any (is_row j n) (update_where test set rows) ≡ any (is_row j n) rows
unfolding update_where
any-update_where test set keeps j n [] = refl
any-update_where test set keeps j n (r ∷ rows) =
    rw (is_row_set set keeps (test r) j n r, any-update_where test set keeps j n rows)

key_set :
    (set : ProjectRow → ProjectRow)
    → KeepsKey set
    → (b : Bool) (r : ProjectRow) (rows : List ProjectRow)
    → any (is_row (if b then set r else r).job_name (if b then set r else r).full_name) rows
      ≡ any (is_row r.job_name r.full_name) rows
key_set set keeps true r rows = rw ((keeps r).0, (keeps r).1)
key_set set keeps false r rows = refl

pub update_where-IsUnique :
    (test : ProjectRow → Bool) (set : ProjectRow → ProjectRow)
    → KeepsKey set
    → (rows : List ProjectRow) → IsUnique rows
    → IsUnique (update_where test set rows)
unfolding update_where
update_where-IsUnique test set keeps [] u = tt
update_where-IsUnique test set keeps (r ∷ rows) u = (
  key_set set keeps (test r) r (update_where test set rows)
      ∙ any-update_where test set keeps r.job_name r.full_name rows
      ∙ u.0,
  update_where-IsUnique test set keeps rows u.1,
)

any-select :
    (p q : ProjectRow → Bool) (rows : List ProjectRow)
    → any q rows ≡ false
    → any q (select p rows) ≡ false
any-select p q [] e = refl
any-select p q (r ∷ rows) e = ground (arith, any-select p q rows)

pub select-IsUnique :
    (p : ProjectRow → Bool) (rows : List ProjectRow) → IsUnique rows → IsUnique (select p rows)
select-IsUnique p [] u = tt
select-IsUnique p (r ∷ rows) u = choose (p r) (select-IsUnique p rows u.1)
  where
    choose :
        (b : Bool)
        → IsUnique (select p rows)
        → IsUnique (if b then r ∷ select p rows else select p rows)
    choose true rest = (any-select p (is_row r.job_name r.full_name) rows u.0, rest)
    choose false rest = rest

is_row_sym : (r q : ProjectRow) → is_row r.job_name r.full_name q ≡ is_row q.job_name q.full_name r
is_row_sym r q = ground (
  arith,
  eq_iff q.job_name r.job_name,
  eq_iff r.job_name q.job_name,
  eq_iff q.full_name r.full_name,
  eq_iff r.full_name q.full_name,
)

any-append_row :
    (p : ProjectRow → Bool) (rows : List ProjectRow) (r : ProjectRow)
    → any p (rows ++ r ∷ []) ≡ (any p rows || p r)
any-append_row p [] r = ground arith
any-append_row p (q ∷ rows) r = ground (arith, any-append_row p rows r)

pub append-IsUnique :
    (rows : List ProjectRow) (r : ProjectRow)
    → any (is_row r.job_name r.full_name) rows ≡ false
    → IsUnique rows
    → IsUnique (rows ++ r ∷ [])
append-IsUnique [] r e u = (refl, tt)
append-IsUnique (q ∷ rows) r e u = (
  ground (arith, any-append_row (is_row q.job_name q.full_name) rows r, is_row_sym q r, u.0, e),
  append-IsUnique rows r (ground (arith, e)) u.1,
)
