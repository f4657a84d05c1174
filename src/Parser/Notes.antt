-- ===== src/Parser/Notes.antt =====
-- What noting one message of a log does to the issues, in internal/parser/logparser.go.
use renovate_docker_operator.Prelude.{
  ℕ, suc, ◌+◌, ◌≤◌, ◌≡◌, refl, Bool, true, false, not, ◌&&◌, ◌||◌, List, [], ◌∷◌, ◌++◌, ℤ, pos,
  negsuc, leb_ℤ, arith, leb, ltb, if◌then◌else◌, length, take, any, count_if, length-append,
  length-take, All, All-append,
}
use renovate_docker_operator.Api.{LogIssue}
use renovate_docker_operator.Parser.Lines.{same_bytes}
use renovate_docker_operator.Parser.Branches.{LogEntry}
use renovate_docker_operator.Parser.{
  Scan, cut_message, max_issue_message_len, max_log_issues, cut_mark, is_seen, note_message,
  is_issue, is_error, note_issue,
}

-- What the switch on the message leaves alone.
abbrev pub issue_part : Scan → Bool × Bool × ℕ × ℕ × List LogIssue × List (List ℕ) × Bool
issue_part s = (
  s.has_issues, s.parsed_any_line, s.warn_count, s.error_count, s.issues, s.seen_messages,
  s.issues_truncated,
)

-- A warning has a level from 40 to 49.
abbrev pub is_warning : LogEntry → Bool
is_warning entry = is_issue entry && not (is_error entry)

abbrev pub IsShort : LogIssue → Type 0
IsShort issue = length issue.message ≤ 259

-- At most 20 messages, each cut, and a mark once one is left out.
abbrev pub IsBounded : Scan → Type 0
IsBounded s =
    (length s.issues ≤ max_log_issues)
    × All IsShort s.issues
    × (s.issues_truncated ≡ true → length s.issues ≡ max_log_issues)

-- The counters after some entries, from those before them.
abbrev pub Counts : List LogEntry → Scan → Scan → Type 0
Counts es s t =
    (t.warn_count ≡ s.warn_count + count_if is_warning es)
    × (t.error_count ≡ s.error_count + count_if is_error es)
    × (t.has_issues ≡ (s.has_issues || any is_issue es))
    × (t.parsed_any_line ≡ (s.parsed_any_line || any (λ e. true) es))

cut_message-short : (msg : List ℕ) → length (cut_message msg) ≤ 259
cut_message-short msg = choose (leb (length msg) max_issue_message_len) refl
  where
    choose :
        (b : Bool)
        → leb (length msg) max_issue_message_len ≡ b
        → length (if b then msg else take max_issue_message_len msg ++ cut_mark) ≤ 259
    choose true e = ground arith
    choose false e = ground (
      arith,
      length-append (take max_issue_message_len msg) cut_mark,
      length-take max_issue_message_len msg,
    )

abbrev Same : Scan → Scan → Type 0
Same s t =
    (t.warn_count ≡ s.warn_count)
    × (t.error_count ≡ s.error_count)
    × (t.has_issues ≡ s.has_issues)
    × (t.parsed_any_line ≡ s.parsed_any_line)

note_message-counts : (level : ℤ) (msg : List ℕ) (s : Scan) → Same s (note_message level msg s)
unfolding note_message
note_message-counts level msg s =
    choose (same_bytes msg [] || is_seen msg s.seen_messages) (ltb (length s.issues) max_log_issues)
  where
    choose :
        (known room : Bool)
        → Same s (
            if known
            then s
            else (if room
                then record s {
                  seen_messages = msg ∷ s.seen_messages;
                  issues = s.issues ++ record { level = level; message = msg } ∷ [];
                }
                else record s { seen_messages = msg ∷ s.seen_messages; issues_truncated = true }))
    choose true room = (refl, refl, refl, refl)
    choose false true = (refl, refl, refl, refl)
    choose false false = (refl, refl, refl, refl)

note_message-IsBounded :
    (level : ℤ) (msg : List ℕ) (s : Scan)
    → length msg ≤ 259
    → IsBounded s
    → IsBounded (note_message level msg s)
unfolding note_message
note_message-IsBounded level msg s short (few, all, full) =
    choose (same_bytes msg [] || is_seen msg s.seen_messages) (ltb (length s.issues) max_log_issues)
      refl
  where
    choose :
        (known room : Bool)
        → ltb (length s.issues) max_log_issues ≡ room
        → IsBounded (
            if known
            then s
            else (if room
                then record s {
                  seen_messages = msg ∷ s.seen_messages;
                  issues = s.issues ++ record { level = level; message = msg } ∷ [];
                }
                else record s { seen_messages = msg ∷ s.seen_messages; issues_truncated = true }))
    choose true room e = (few, all, full)
    choose false true e = (
      ground (arith, length-append s.issues (record { level = level; message = msg } ∷ [])),
      All-append IsShort s.issues (record { level = level; message = msg } ∷ []) all (short, tt),
      λ marked. ground (arith, full marked),
    )
    choose false false e = (few, all, λ marked. ground arith)

error-issue : (level : ℤ) → leb_ℤ (pos 50) level ≡ true → leb_ℤ (pos 40) level ≡ true
error-issue (pos n) e = ground arith
error-issue (negsuc n) e = ground arith

pub note_issue-Counts :
    (entry : LogEntry) (s : Scan)
    → Counts (entry ∷ []) s (note_issue entry (record s { parsed_any_line = true }))
unfolding note_issue
note_issue-Counts entry s =
    choose (is_issue entry) (is_error entry) (error-issue entry.level)
      (note_message-counts entry.level (cut_message entry.msg)
        (record s { parsed_any_line = true; has_issues = true; error_count = suc s.error_count }))
      (note_message-counts entry.level (cut_message entry.msg)
        (record s { parsed_any_line = true; has_issues = true; warn_count = suc s.warn_count }))
  where
    choose :
        (issue error : Bool)
        → (error ≡ true → issue ≡ true)
        → let s1 = record s { parsed_any_line = true } in
          let e1 = record s1 { has_issues = true; error_count = suc s1.error_count } in
          let w1 = record s1 { has_issues = true; warn_count = suc s1.warn_count } in
          Same e1 (note_message entry.level (cut_message entry.msg) e1)
          → Same w1 (note_message entry.level (cut_message entry.msg) w1)
          → let t =
              if issue
              then note_message entry.level (cut_message entry.msg) (if error then e1 else w1)
              else s1 in
            (t.warn_count ≡ s.warn_count + (if issue && not error then 1 else 0))
            × (t.error_count ≡ s.error_count + (if error then 1 else 0))
            × (t.has_issues ≡ (s.has_issues || (issue || false)))
            × (t.parsed_any_line ≡ (s.parsed_any_line || true))
    choose true true i e w = (ground arith, ground arith, ground arith, ground arith)
    choose true false i e w = (ground arith, ground arith, ground arith, ground arith)
    choose false false i e w = (ground arith, ground arith, ground arith, ground arith)
    choose false true i e w = ground (arith, i refl)

pub note_issue-IsBounded :
    (entry : LogEntry) (s : Scan)
    → IsBounded s
    → IsBounded (note_issue entry (record s { parsed_any_line = true }))
unfolding note_issue
note_issue-IsBounded entry s h = choose (is_issue entry) (is_error entry)
  where
    choose :
        (issue error : Bool)
        → let s1 = record s { parsed_any_line = true } in
          IsBounded (
            if issue
            then note_message entry.level (cut_message entry.msg) (
                if error
                then record s1 { has_issues = true; error_count = suc s1.error_count }
                else record s1 { has_issues = true; warn_count = suc s1.warn_count })
            else s1)
    choose false error = h
    choose true true =
        note_message-IsBounded entry.level (cut_message entry.msg) _ (cut_message-short entry.msg) h
    choose true false =
        note_message-IsBounded entry.level (cut_message entry.msg) _ (cut_message-short entry.msg) h

more_counted :
    (c : Bool) (a b n t : ℕ)
    → b ≡ a + (if c then 1 else 0)
    → t ≡ b + n
    → t ≡ a + (if c then suc n else n)
more_counted true a b n t h k = omega arith
more_counted false a b n t h k = omega arith

more_any : (c a b n t : Bool) → b ≡ (a || (c || false)) → t ≡ (b || n) → t ≡ (a || (c || n))
more_any true a b n t h k = ground arith
more_any false a b n t h k = ground arith

pub Counts-cons :
    (entry : LogEntry) (es : List LogEntry) (s u t : Scan)
    → Counts (entry ∷ []) s u
    → Counts es u t
    → Counts (entry ∷ es) s t
Counts-cons entry es s u t (w, e, h, p) (w1, e1, h1, p1) = (
  more_counted (is_warning entry) s.warn_count u.warn_count _ t.warn_count w w1,
  more_counted (is_error entry) s.error_count u.error_count _ t.error_count e e1,
  more_any (is_issue entry) s.has_issues u.has_issues _ t.has_issues h h1,
  more_any true s.parsed_any_line u.parsed_any_line _ t.parsed_any_line p p1,
)
