-- ===== src/Parser/Tests.antt =====
-- Small logs, and the theorems about them at concrete ones.
use renovate_docker_operator.Prelude.{
  ℕ, ◌≡◌, refl, false, none, some, List, [], ◌∷◌, ℤ, pos, Dict, if◌then◌else◌,
}
use renovate_docker_operator.Api.{PrDetail, created}
use renovate_docker_operator.Parser.Lines.{same_bytes, scan}
use renovate_docker_operator.Parser.Branches.{BranchInfoItem, Decoder}
use renovate_docker_operator.Parser.Activity.{build_pr_activity}
use renovate_docker_operator.Parser.Activity.Described.{IsListed, build_pr_activity-IsListed}
use renovate_docker_operator.Parser.{parse_renovate_logs}
use renovate_docker_operator.Parser.Reports.{entries, IsReport, parse_renovate_logs-IsReport}

-- A line is its message; a message "w" is a warning, and "e" an error.
abbrev level_of : List ℕ → ℤ
level_of line =
    if same_bytes line (119 ∷ [])
    then pos 40
    else (if same_bytes line (101 ∷ []) then pos 50 else pos 30)

abbrev summary : List BranchInfoItem
summary =
    record { branch_name = "a"; pr_no = some (pos 9); pr_title = "A"; result = "done" }
    ∷ record { branch_name = "b"; pr_no = none; pr_title = "B"; result = "not-scheduled" }
    ∷ record { branch_name = "c"; pr_no = none; pr_title = "C"; result = "needs-approval" }
    ∷ []

abbrev decoder : Decoder
decoder = record {
  log_entry = λ line. some (record { level = level_of line; msg = line });
  repository_finished = λ line. some (record { result = ""; status = "onboarding" });
  pr_create_update = λ line. some (record { branch = "a"; title = "" });
  pr_unchanged = λ line. none;
  git_push = λ line. some (record { branch = "z"; all = "99999999999999999999" ∷ [] });
  pr_created = λ line. none;
  branches_info = λ line. some summary;
  pr_url = λ msg. some msg;
  pr_number = λ msg. none;
}

-- Lines that end in a newline, a carriage return and a newline, and nothing.
split_run :
    scan (119 ∷ 10 ∷ 10 ∷ 101 ∷ 13 ∷ 10 ∷ 119 ∷ []) ≡ (119 ∷ []) ∷ [] ∷ (101 ∷ []) ∷ (119 ∷ []) ∷ []
unfolding scan
split_run = refl

abbrev log : List ℕ
log = 119 ∷ 10 ∷ 10 ∷ 101 ∷ 13 ∷ 10 ∷ 119 ∷ []

-- The second "w" is no new message.
parse_run :
    (parse_renovate_logs decoder log).log_issues
    ≡ some (record {
      warn_count = 2;
      error_count = 1;
      issues =
          record { level = pos 40; message = 119 ∷ [] }
          ∷ record { level = pos 50; message = 101 ∷ [] }
          ∷ [];
      truncated = false;
    })
unfolding parse_renovate_logs
parse_run = refl

parse_renovate_logs-IsReport_example :
    IsReport (entries decoder (scan log)) (parse_renovate_logs decoder log)
parse_renovate_logs-IsReport_example = parse_renovate_logs-IsReport decoder log

abbrev opened : PrDetail
opened = record { branch = "a"; number = pos 3; title = ""; action = some created }

-- A branch that was pushed with a number that strconv.Atoi refuses.
abbrev pushed : PrDetail
pushed = record { branch = "z"; number = pos 0; title = ""; action = none }

abbrev branches : Dict PrDetail
branches = ("a", opened) ∷ ("z", pushed) ∷ []

-- The pushed branch is listed first, and not counted.
activity_run : build_pr_activity branches ≡ record {
  automerged = 0;
  created = 1;
  updated = 0;
  needs_approval = 0;
  unchanged = 0;
  prs = pushed ∷ opened ∷ [];
  truncated = false;
}
unfolding build_pr_activity
activity_run = refl

build_pr_activity-IsListed_example : IsListed branches (build_pr_activity branches)
build_pr_activity-IsListed_example = build_pr_activity-IsListed branches
