-- ===== src/Parser.antt =====
-- ParseRenovateLogs of internal/parser/logparser.go: the loop over the lines of a log, its warnings
-- and errors, and its result.
pub mod Lines
pub mod Branches
pub mod Activity
pub mod Notes
pub mod Reports
mod Tests
use renovate_docker_operator.Prelude.{
  ℕ, suc, ◌+◌, String, Bool, true, false, not, ◌&&◌, ◌||◌, Option, none, some, List, [], ◌∷◌, ◌++◌,
  ℤ, pos, Dict, leb_ℤ, leb, ltb, str_eq, if◌then◌else◌, length, take, any,
}
use renovate_docker_operator.Api.{created, updated, PrDetail, PrActivity, LogIssue, LogIssues}
use renovate_docker_operator.Parser.Lines.{bytes, same_bytes, contains_bytes, scan}
use renovate_docker_operator.Parser.Branches.{
  LogEntry, RepositoryFinishedEntry, Decoder, handle_creating_pr, handle_does_not_need_updating,
  handle_git_push, handle_pr_created, handle_pr_automerged, handle_branches_info_extended,
}
use renovate_docker_operator.Parser.Activity.{build_pr_activity}

-- MaxLogIssues, MaxIssueMessageLen and "…"
abbrev pub max_log_issues : ℕ
max_log_issues = 20

abbrev pub max_issue_message_len : ℕ
max_issue_message_len = 256

abbrev pub cut_mark : List ℕ
cut_mark = 226 ∷ 128 ∷ 166 ∷ []

pub record LogParseResult : Type 0 where
  pub has_issues : Bool
  pub renovate_result_status : Option String
  pub pr_activity : Option PrActivity
  pub log_issues : Option LogIssues

-- The variables of the loop.
pub record Scan : Type 0 where
  pub has_issues : Bool
  pub result_status : Option String
  pub branches : Dict PrDetail
  pub parsed_any_line : Bool
  pub warn_count : ℕ
  pub error_count : ℕ
  pub issues : List LogIssue
  pub seen_messages : List (List ℕ)
  pub issues_truncated : Bool

abbrev pub started : Scan
started = record {
  has_issues = false;
  result_status = none;
  branches = [];
  parsed_any_line = false;
  warn_count = 0;
  error_count = 0;
  issues = [];
  seen_messages = [];
  issues_truncated = false;
}

abbrev pub cut_message : List ℕ → List ℕ
cut_message msg =
    if leb (length msg) max_issue_message_len
    then msg
    else take max_issue_message_len msg ++ cut_mark

abbrev pub is_seen : List ℕ → List (List ℕ) → Bool
is_seen msg seen = any (same_bytes msg) seen

-- A message that is not seen yet; one that is empty does not count.
unfoldable pub note_message : ℤ → List ℕ → Scan → Scan
note_message level msg s =
    if same_bytes msg [] || is_seen msg s.seen_messages
    then s
    else (if ltb (length s.issues) max_log_issues
        then record s {
          seen_messages = msg ∷ s.seen_messages;
          issues = s.issues ++ record { level = level; message = msg } ∷ [];
        }
        else record s { seen_messages = msg ∷ s.seen_messages; issues_truncated = true })

abbrev pub is_issue : LogEntry → Bool
is_issue entry = leb_ℤ (pos 40) entry.level

abbrev pub is_error : LogEntry → Bool
is_error entry = leb_ℤ (pos 50) entry.level

abbrev pub count_issue : LogEntry → Scan → Scan
count_issue entry s =
    if is_error entry
    then record s { has_issues = true; error_count = suc s.error_count }
    else record s { has_issues = true; warn_count = suc s.warn_count }

unfoldable pub note_issue : LogEntry → Scan → Scan
unfolding note_message
note_issue entry s =
    if is_issue entry
    then note_message entry.level (cut_message entry.msg) (count_issue entry s)
    else s

-- The result status of "Repository finished".
abbrev pub result_status_of : RepositoryFinishedEntry → String
result_status_of f =
    if str_eq f.result "disabled-by-config"
    then "Disabled"
    else (if str_eq f.result "disabled-closed-onboarding"
        then "Onboarding Closed"
        else (if str_eq f.result "disabled-no-config"
            then "No Config"
            else (if str_eq f.result ""
                then (if str_eq f.status "onboarding" then "Onboarding" else "Unknown")
                else f.result)))

-- The cases of the switch on the message, in their order.
pub data MessageKind : Type 0 where
  repository_finished creating_pr updating_pr does_not_need_updating : MessageKind
  git_push pr_created pr_automerged branches_info_extended other : MessageKind

unfoldable pub kind_of : (msg : List ℕ) → MessageKind
unfolding bytes contains_bytes
kind_of msg =
    if same_bytes msg (bytes "Repository finished")
    then repository_finished
    else (if same_bytes msg (bytes "Creating PR")
        then creating_pr
        else (if same_bytes msg (bytes "Updating PR")
            then updating_pr
            else (if contains_bytes (bytes "does not need updating") msg
                then does_not_need_updating
                else (if same_bytes msg (bytes "git push")
                    then git_push
                    else (if same_bytes msg (bytes "PR created")
                        then pr_created
                        else (if same_bytes msg (bytes "PR automerged")
                            then pr_automerged
                            else (if same_bytes msg (bytes "branches info extended")
                                then branches_info_extended
                                else other)))))))

unfoldable pub result_of : Scan → LogParseResult
unfolding build_pr_activity
result_of s = record {
  has_issues = s.has_issues;
  renovate_result_status = s.result_status;
  pr_activity = if s.parsed_any_line then some (build_pr_activity s.branches) else none;
  log_issues =
      if s.parsed_any_line
      then some (record {
        warn_count = s.warn_count;
        error_count = s.error_count;
        issues = s.issues;
        truncated = s.issues_truncated;
      })
      else none;
}

module _ (decoder : Decoder) where
  handle_repository_finished : List ℕ → Scan → Scan
  handle_repository_finished line s = elim (decoder.repository_finished line) [
    | none ↦ s
    | some f ↦ record s { result_status = some (result_status_of f) }
  ]

  abbrev on_branches : (Dict PrDetail → Dict PrDetail) → Scan → Scan
  on_branches handle s = record s { branches = handle s.branches }

  -- The branches of the switch on the message.
  unfoldable pub handle_message : MessageKind → List ℕ → (msg : List ℕ) → Scan → Scan
  unfolding handle_repository_finished handle_creating_pr handle_does_not_need_updating
      handle_git_push handle_pr_created handle_pr_automerged handle_branches_info_extended
  handle_message repository_finished line msg s = handle_repository_finished line s
  handle_message creating_pr line msg s = on_branches (handle_creating_pr decoder created line) s
  handle_message updating_pr line msg s = on_branches (handle_creating_pr decoder updated line) s
  handle_message does_not_need_updating line msg s =
      on_branches (handle_does_not_need_updating decoder line msg) s
  handle_message git_push line msg s = on_branches (handle_git_push decoder line) s
  handle_message pr_created line msg s = on_branches (handle_pr_created decoder line) s
  handle_message pr_automerged line msg s = on_branches (handle_pr_automerged decoder line) s
  handle_message branches_info_extended line msg s =
      on_branches (handle_branches_info_extended decoder line) s
  handle_message other line msg s = s

  -- One line; an empty one and one that is no JSON are skipped.
  unfoldable pub parse_entry : List ℕ → Option LogEntry → Scan → Scan
  unfolding note_issue kind_of handle_message
  parse_entry line none s = s
  parse_entry line (some entry) s =
      handle_message (kind_of entry.msg) line entry.msg
        (note_issue entry (record s { parsed_any_line = true }))

  -- The entry of a line, if it is not skipped.
  abbrev pub entry_of : List ℕ → Option LogEntry
  entry_of line = if same_bytes line [] then none else decoder.log_entry line

  unfoldable pub parse_lines : List (List ℕ) → Scan → Scan
  unfolding parse_entry
  parse_lines [] s = s
  parse_lines (line ∷ lines) s = parse_lines lines (parse_entry line (entry_of line) s)

  -- An empty log has no line.
  unfoldable pub parse_renovate_logs : List ℕ → LogParseResult
  unfolding scan parse_lines result_of
  parse_renovate_logs logs = result_of (parse_lines (scan logs) started)
