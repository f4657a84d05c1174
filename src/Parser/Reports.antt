-- ===== src/Parser/Reports.antt =====
-- The warnings and errors that ParseRenovateLogs of internal/parser/logparser.go reports.
use renovate_docker_operator.Prelude.{
  ℕ, ◌+◌, ◌≤◌, ◌≡◌, refl, sym, ◌∙◌, subst, Bool, true, false, Option, none, some, List, [], ◌∷◌,
  arith, length, any, count_if, All,
}
use renovate_docker_operator.Api.{LogIssue, LogIssues, PrActivity}
use renovate_docker_operator.Parser.Lines.{scan}
use renovate_docker_operator.Parser.Branches.{LogEntry, RepositoryFinishedEntry, Decoder}
use renovate_docker_operator.Parser.Activity.{build_pr_activity}
use renovate_docker_operator.Parser.{
  LogParseResult, Scan, started, max_log_issues, result_status_of, is_issue, is_error, note_issue,
  MessageKind, repository_finished, creating_pr, updating_pr, does_not_need_updating, git_push,
  pr_created, pr_automerged, branches_info_extended, other, kind_of, handle_repository_finished,
  handle_message, parse_entry, entry_of, parse_lines, result_of, parse_renovate_logs,
}
use renovate_docker_operator.Parser.Notes.{
  issue_part, is_warning, IsShort, IsBounded, Counts, note_issue-Counts, note_issue-IsBounded,
  Counts-cons,
}

-- What a result says of the entries: nothing of none, and else their warnings and errors.
pub data IsReport (es : List LogEntry) (r : LogParseResult) : Type 0 where
  unknown :
      es ≡ [] → r.has_issues ≡ false → r.pr_activity ≡ none → r.log_issues ≡ none → IsReport es r
  report :
      (entry : LogEntry) (rest : List LogEntry) (activity : PrActivity) (issues : LogIssues)
      → es ≡ entry ∷ rest
      → r.pr_activity ≡ some activity
      → r.log_issues ≡ some issues
      → r.has_issues ≡ any is_issue es
      → issues.warn_count ≡ count_if is_warning es
      → issues.error_count ≡ count_if is_error es
      → length issues.issues ≤ max_log_issues
      → All IsShort issues.issues
      → (issues.truncated ≡ true → length issues.issues ≡ max_log_issues)
      → IsReport es r

zero_plus : (n : ℕ) → 0 + n ≡ n
zero_plus n = omega arith

result_of-IsReport :
    (es : List LogEntry) (s : Scan) → Counts es started s → IsBounded s → IsReport es (result_of s)
unfolding result_of
result_of-IsReport [] s (w, e, h, p) b = unknown refl h (rw p refl) (rw p refl)
result_of-IsReport (entry ∷ es) s (w, e, h, p) b =
    report entry es (build_pr_activity s.branches) _ refl (rw p refl) (rw p refl) h
      (w ∙ zero_plus _) (e ∙ zero_plus _) b.0 b.1 b.2

module _ (decoder : Decoder) where
  handle_message-same :
      (kind : MessageKind) (line msg : List ℕ) (s : Scan)
      → issue_part (handle_message decoder kind line msg s) ≡ issue_part s
  unfolding handle_message handle_repository_finished
  handle_message-same repository_finished line msg s = finished (decoder.repository_finished line)
    where
      finished :
          (o : Option RepositoryFinishedEntry)
          → issue_part (elim o [
            | none ↦ s
            | some f ↦ record s { result_status = some (result_status_of f) }
          ])
            ≡ issue_part s
      finished none = refl
      finished (some f) = refl
  handle_message-same creating_pr line msg s = refl
  handle_message-same updating_pr line msg s = refl
  handle_message-same does_not_need_updating line msg s = refl
  handle_message-same git_push line msg s = refl
  handle_message-same pr_created line msg s = refl
  handle_message-same pr_automerged line msg s = refl
  handle_message-same branches_info_extended line msg s = refl
  handle_message-same other line msg s = refl

  -- The entries of the lines that are not skipped.
  abbrev pub entries : List (List ℕ) → List LogEntry
  entries [] = []
  entries (line ∷ lines) = elim (entry_of decoder line) [
    | none ↦ entries lines
    | some e ↦ e ∷ entries lines
  ]

  abbrev after_entry : List ℕ → LogEntry → Scan → Scan
  after_entry line entry s =
      handle_message decoder (kind_of entry.msg) line entry.msg
        (note_issue entry (record s { parsed_any_line = true }))

  after_entry-Counts :
      (line : List ℕ) (entry : LogEntry) (s : Scan)
      → Counts (entry ∷ []) s (after_entry line entry s)
  after_entry-Counts line entry s = ground (
    arith,
    note_issue-Counts entry s,
    handle_message-same (kind_of entry.msg) line entry.msg
        (note_issue entry (record s { parsed_any_line = true })),
  )

  after_entry-IsBounded :
      (line : List ℕ) (entry : LogEntry) (s : Scan)
      → IsBounded s
      → IsBounded (after_entry line entry s)
  after_entry-IsBounded line entry s h =
      let same =
        handle_message-same (kind_of entry.msg) line entry.msg
          (note_issue entry (record s { parsed_any_line = true })) in
      subst
        (λ (p : Bool × Bool × ℕ × ℕ × List LogIssue × List (List ℕ) × Bool).
          (length p.4 ≤ max_log_issues)
          × All IsShort p.4
          × (p.6 ≡ true → length p.4 ≡ max_log_issues))
        (sym same) (note_issue-IsBounded entry s h)

  parse_lines-lem :
      (lines : List (List ℕ)) (s : Scan)
      → IsBounded s
      → Counts (entries lines) s (parse_lines decoder lines s)
        × IsBounded (parse_lines decoder lines s)
  unfolding parse_lines parse_entry
  parse_lines-lem [] s h = (ground arith, h)
  parse_lines-lem (line ∷ lines) s h = go (entry_of decoder line) (parse_lines-lem lines)
    where
      go :
          (o : Option LogEntry)
          → ((s1 : Scan)
              → IsBounded s1
              → Counts (entries lines) s1 (parse_lines decoder lines s1)
                × IsBounded (parse_lines decoder lines s1))
          → Counts
              (elim o [ none ↦ entries lines | some e ↦ e ∷ entries lines ])
              s
              (parse_lines decoder lines (parse_entry decoder line o s))
            × IsBounded (parse_lines decoder lines (parse_entry decoder line o s))
      go none again = again s h
      go (some entry) again =
          let (counts, bounded) =
            again (after_entry line entry s) (after_entry-IsBounded line entry s h) in
          (
            Counts-cons entry (entries lines) s (after_entry line entry s)
                (parse_lines decoder lines (after_entry line entry s))
                (after_entry-Counts line entry s) counts,
            bounded,
          )

  -- ParseRenovateLogs gives no activity and no issues exactly for a log without a decodable line; of
  -- any other it counts the entries of level 40 to 49 and of level 50 on, says that there are issues
  -- just when one of them has level 40 or more, and keeps at most 20 messages of at most 259 bytes,
  -- all 20 if it marks the messages as truncated.
  pub parse_renovate_logs-IsReport :
      (logs : List ℕ) → IsReport (entries (scan logs)) (parse_renovate_logs decoder logs)
  unfolding parse_renovate_logs
  parse_renovate_logs-IsReport logs =
      let (counts, bounded) =
        parse_lines-lem (scan logs) started (ground arith, tt, λ marked. ground arith) in
      result_of-IsReport (entries (scan logs)) (parse_lines decoder (scan logs) started) counts
        bounded
