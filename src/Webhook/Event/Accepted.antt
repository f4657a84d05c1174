-- ===== src/Webhook/Event/Accepted.antt =====
-- The events that start a run, told apart from the code's order of checks: isValidForgejoEvent of
-- internal/webhook/forgejo.go.
use text.Mathlib.Text.{starts_with}
use renovate_docker_operator.Prelude.{
  String, ◌≡◌, ◌≢◌, ◌⊎◌, ◌↔◌, inl, inr, refl, sym, ap, ◌∙◌, not_true, Bool-cases, true, false,
  Option, none, some, arith, str_eq, eq_iff,
}
use renovate_docker_operator.Webhook.Event.{
  ForgejoPullRequest, ForgejoIssue, ForgejoEvent, valid, is_renovate_content,
  has_checkbox_been_checked, verify_renovate_description_change, check_issue_body, check_issue,
  check_action, check_pull_request, deleted_branch, check_push, is_valid_forgejo_event,
}

-- Renovate's own text with a checkbox that is ticked.
abbrev pub IsTicked : String → Type 0
IsTicked body = (is_renovate_content body ≡ true) × (has_checkbox_been_checked body ≡ true)

abbrev pub IssueStarts : String → Option ForgejoIssue → Type 0
IssueStarts action issue =
    (action ≡ "edited") × (i : ForgejoIssue) × (issue ≡ some i) × IsTicked i.body

abbrev pub PullRequestStarts : String → ForgejoPullRequest → Type 0
PullRequestStarts action pr =
    (pr.merged ≡ true)
    ⊎ ((is_renovate_content pr.body ≡ true)
        × ((action ≡ "closed")
            ⊎ ((action ≡ "reopened")
                ⊎ ((action ≡ "edited") × (has_checkbox_been_checked pr.body ≡ true)))))

abbrev pub PushStarts : String → String → Type 0
PushStarts ref after = (starts_with ref "refs/heads/" ≡ true) × (after ≢ deleted_branch)

check_issue_iff :
    (action : String) (issue : Option ForgejoIssue)
    → (check_issue action issue ≡ valid) ↔ IssueStarts action issue
unfolding check_issue check_issue_body is_renovate_content verify_renovate_description_change
check_issue_iff action none = (λ h. ground arith, λ s. let (edited, i, e, t) = s in cc)
check_issue_iff action (some i) = (
  λ h. (ground (arith, eq_iff action "edited"), i, refl, (ground arith, ground arith)),
  λ s.
      let (edited, j, e, t) = s in
      let same : i ≡ j = cc in ground (arith, eq_iff action "edited", eq_iff i.body ""),
)

check_pull_request_iff :
    (action : String) (pr : ForgejoPullRequest)
    → (check_pull_request action (some pr) ≡ valid) ↔ PullRequestStarts action pr
unfolding check_pull_request check_action is_renovate_content
check_pull_request_iff action pr = (
  λ h. ground (arith, eq_iff action "closed", eq_iff action "reopened", eq_iff action "edited"),
  λ s. ground (
    arith,
    eq_iff action "closed",
    eq_iff action "reopened",
    eq_iff action "edited",
    eq_iff pr.body "",
  ),
)

abbrev pub AnyPullRequestStarts : String → Option ForgejoPullRequest → Type 0
AnyPullRequestStarts action request =
    (pr : ForgejoPullRequest) × (request ≡ some pr) × PullRequestStarts action pr

check_any_pull_request_iff :
    (action : String) (request : Option ForgejoPullRequest)
    → (check_pull_request action request ≡ valid) ↔ AnyPullRequestStarts action request
unfolding check_pull_request
check_any_pull_request_iff action none = (λ h. ground arith, λ s. let (pr, e, t) = s in cc)
check_any_pull_request_iff action (some pr) = (
  λ h. (pr, refl, (check_pull_request_iff action pr).0 h),
  λ s.
      let (p, e, t) = s in
      let same : pr ≡ p = cc in rw same ((check_pull_request_iff action p).1 t),
)

not_prefix : starts_with "" "refs/heads/" ≡ false
not_prefix = refl

branch_not_empty : (ref : String) → starts_with ref "refs/heads/" ≡ true → str_eq ref "" ≡ false
branch_not_empty ref s = not_true (str_eq ref "") (λ e.
    let empty = (eq_iff ref "").0 e in
    let no : true ≡ false = sym s ∙ ap (λ r. starts_with r "refs/heads/") empty ∙ not_prefix in cc)

check_push_iff : (ref after : String) → (check_push ref after ≡ valid) ↔ PushStarts ref after
unfolding check_push
check_push_iff ref after = (
  λ h. ground (arith, eq_iff ref "", eq_iff after deleted_branch),
  λ s. ground (arith, branch_not_empty ref s.0, eq_iff after deleted_branch),
)

-- An event starts a run exactly when it is an edit of an issue whose body is Renovate's with a ticked
-- checkbox; or a pull request that is merged, or has Renovate's body and is closed, reopened, or
-- edited with a ticked checkbox; or a push to a branch that does not delete it.
pub is_valid_forgejo_event_iff :
    (event : String) (payload : ForgejoEvent)
    → (is_valid_forgejo_event event payload ≡ valid) ↔ (
        ((event ≡ "issues") × IssueStarts payload.action payload.issue)
        ⊎ (((event ≡ "pull_request") × AnyPullRequestStarts payload.action payload.pull_request)
            ⊎ ((event ≡ "push") × PushStarts payload.ref payload.after)))
unfolding is_valid_forgejo_event
is_valid_forgejo_event_iff event payload = (
  λ h. elim (Bool-cases (str_eq event "issues")) [
    | inl issues ↦ inl (
      (eq_iff event "issues").0 issues,
      (check_issue_iff payload.action payload.issue).0 (ground arith),
    )
    | inr other ↦ elim (Bool-cases (str_eq event "pull_request")) [
      | inl request ↦ inr (
          inl (
            (eq_iff event "pull_request").0 request,
            (check_any_pull_request_iff payload.action payload.pull_request).0 (ground arith),
          ))
      | inr another ↦ inr (
          inr (
            ground (arith, eq_iff event "push"),
            (check_push_iff payload.ref payload.after).0 (ground arith),
          ))
    ]
  ],
  λ s. elim s [
    | inl (e, t) ↦ rw e ((check_issue_iff payload.action payload.issue).1 t)
    | inr (inl (e, t)) ↦ rw e ((check_any_pull_request_iff payload.action payload.pull_request).1 t)
    | inr (inr (e, t)) ↦ rw e ((check_push_iff payload.ref payload.after).1 t)
  ],
)
