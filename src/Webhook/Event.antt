-- ===== src/Webhook/Event.antt =====
-- Which Forgejo events start a run: isValidForgejoEvent and its helpers in
-- internal/webhook/forgejo.go.
pub mod Accepted
use text.Mathlib.Text.{starts_with}
use renovate_docker_operator.Prelude.{
  String, ◌<>◌, Bool, true, false, not, ◌&&◌, ◌||◌, Option, none, some, List, [], ◌∷◌, ℤ, str_eq,
  if◌then◌else◌, any, contains_text,
}

pub record ForgejoPullRequest : Type 0 where
  pub merged : Bool
  pub number : ℤ
  pub body : String

pub record ForgejoIssue : Type 0 where
  pub number : ℤ
  pub title : String
  pub body : String

-- The repository is its full name.
pub record ForgejoEvent : Type 0 where
  pub action : String
  pub pull_request : Option ForgejoPullRequest
  pub issue : Option ForgejoIssue
  pub repository : String
  pub ref : String
  pub before : String
  pub after : String

pub data IgnoreReason : Type 0 where
  issue_not_edited no_issue_body no_checkbox_change : IgnoreReason
  no_pull_request no_pull_request_body not_renovate no_checked_checkbox wrong_action : IgnoreReason
  no_ref not_a_branch branch_deletion : IgnoreReason
  unsupported : String → IgnoreReason

pub data Validity : Type 0 where
  valid : Validity
  ignored : IgnoreReason → Validity

-- The reason that is logged and sent.
unfoldable pub reason_text : IgnoreReason → String
reason_text issue_not_edited = "issue action is not edited"
reason_text no_issue_body = "no issue body"
reason_text no_checkbox_change = "not a valid renovate checkbox change"
reason_text no_pull_request = "no pull request in payload"
reason_text no_pull_request_body = "no pull request body"
reason_text not_renovate = "not a Renovate pull request"
reason_text no_checked_checkbox = "no checked checkbox"
reason_text wrong_action = "pull request action is not edited, closed, or reopened"
reason_text no_ref = "no ref in push payload"
reason_text not_a_branch = "not a branch push"
reason_text branch_deletion = "branch deletion"
reason_text (unsupported event) = "unsupported event type: " <> event

abbrev patterns : List String
patterns =
    "## Detected Dependencies" ∷ "<!-- rebase-check -->" ∷ "<!--renovate-debug:"
    ∷ "<!-- rebase-all-open-prs -->" ∷ "<!-- rebase-branch=" ∷ "<!-- approve-all-pending-prs -->"
    ∷ "<!-- approvePr-branch=" ∷ "<!-- approve-branch=" ∷ "<!-- recreate-branch="
    ∷ "<!-- unschedule-branch=" ∷ "<!-- create-config-migration-pr -->"
    ∷ "<!-- create-all-awaiting-schedule-prs -->" ∷ "<!-- create-all-rate-limited-prs -->"
    ∷ "<!-- unlimit-branch=" ∷ "<!-- manual job -->" ∷ []

unfoldable pub is_renovate_content : String → Bool
is_renovate_content description =
    if str_eq description "" then false else any (contains_text description) patterns

unfoldable pub has_checkbox_been_checked : String → Bool
has_checkbox_been_checked body = contains_text body "- [x]" || contains_text body "- [X]"

unfoldable pub verify_renovate_description_change : String → Bool
verify_renovate_description_change body = is_renovate_content body && has_checkbox_been_checked body

check_issue_body : Option ForgejoIssue → Validity
check_issue_body none = ignored no_issue_body
check_issue_body (some i) =
    if str_eq i.body ""
    then ignored no_issue_body
    else (if verify_renovate_description_change i.body then valid else ignored no_checkbox_change)

check_issue : String → Option ForgejoIssue → Validity
unfolding check_issue_body
check_issue action issue =
    if not (str_eq action "edited") then ignored issue_not_edited else check_issue_body issue

-- The `switch payload.Action` for a Renovate pull request.
check_action : String → String → Validity
check_action action body =
    if str_eq action "closed" || str_eq action "reopened"
    then valid
    else (if str_eq action "edited"
        then (if has_checkbox_been_checked body then valid else ignored no_checked_checkbox)
        else ignored wrong_action)

check_pull_request : String → Option ForgejoPullRequest → Validity
unfolding check_action
check_pull_request action none = ignored no_pull_request
check_pull_request action (some pr) =
    if pr.merged
    then valid
    else (if str_eq pr.body ""
        then ignored no_pull_request_body
        else (if is_renovate_content pr.body
            then check_action action pr.body
            else ignored not_renovate))

abbrev pub deleted_branch : String
deleted_branch = "0000000000000000000000000000000000000000"

check_push : String → String → Validity
check_push ref after =
    if str_eq ref ""
    then ignored no_ref
    else (if starts_with ref "refs/heads/"
        then (if str_eq after deleted_branch then ignored branch_deletion else valid)
        else ignored not_a_branch)

unfoldable pub is_valid_forgejo_event : String → ForgejoEvent → Validity
unfolding check_issue check_pull_request check_push
is_valid_forgejo_event event payload =
    if str_eq event "issues"
    then check_issue payload.action payload.issue
    else (if str_eq event "pull_request"
        then check_pull_request payload.action payload.pull_request
        else (if str_eq event "push"
            then check_push payload.ref payload.after
            else ignored (unsupported event)))
