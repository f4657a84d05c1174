-- ===== src/Server/Logs.antt =====
-- getRenovateJobLogs and getLiveRenovateJobLogs of internal/server/server.go: logs as server-sent
-- events. bytes.TrimSpace and json.Valid are arguments, and so is what the live stream of a container
-- gives until it ends, `none` where it does not start.
use renovate_docker_operator.Prelude.{
  ℕ, String, Bool, true, false, ◌&&◌, ◌||◌, Option, none, some, List, [], ◌∷◌, ◌++◌, ltb, str_eq,
  if◌then◌else◌, length, lookup,
}
use renovate_docker_operator.Parser.Lines.{max_token_size, split_lines, scan}
use renovate_docker_operator.StateStore.Db.{
  not_found, project_not_found, not_unique, failure, Result, ok, err, Session,
}
use renovate_docker_operator.StateStore.Projects.{stream_logs_for_project}
use renovate_docker_operator.Server.State.{
  Server, Event, line_event, done_event, error_event, fields, events, Response,
}

abbrev plain_error : ℕ → String → Response
plain_error status message = record { status = status; answer = fields (("error", message) ∷ []) }

-- scanner.Err: every line fits.
abbrev pub all_fit : List (List ℕ) → Bool
all_fit [] = true
all_fit (line ∷ lines) = ltb (length line) max_token_size && all_fit lines

abbrev is_blank : List ℕ → Bool
is_blank [] = true
is_blank (b ∷ bs) = false

module _ (trim : List ℕ → List ℕ) (is_json : List ℕ → Bool) where
  -- A line that is no JSON is left out.
  unfoldable pub line_events : List (List ℕ) → List Event
  line_events [] = []
  line_events (line ∷ lines) =
      let rest = line_events lines in
      let trimmed = trim line in
      if is_blank trimmed then rest else if is_json trimmed then line_event trimmed ∷ rest else rest

  -- The stored log, to its end or to a line that is too long.
  unfoldable pub stored_events : List ℕ → List Event
  unfolding line_events scan split_lines
  stored_events log =
      line_events (scan log) ++ (if all_fit (split_lines log) then done_event else error_event) ∷ []

  streamed : Result (List ℕ) × Session → Server → Response × Server
  unfolding stored_events
  streamed (ok log, session) s =
      (record { status = 200; answer = events (stored_events log) }, record s { store = session })
  streamed (err not_found, session) s =
      (plain_error 404 "no logs stored for project", record s { store = session })
  streamed (err project_not_found, session) s =
      (plain_error 500 "failed to get logs", record s { store = session })
  streamed (err not_unique, session) s =
      (plain_error 500 "failed to get logs", record s { store = session })
  streamed (err failure, session) s =
      (plain_error 500 "failed to get logs", record s { store = session })

  unfoldable pub get_renovate_job_logs : (job project : String) → Server → Response × Server
  unfolding streamed
  get_renovate_job_logs job project s =
      if str_eq job "" || str_eq project ""
      then (plain_error 400 "missing renovate or project parameter", s)
      else streamed (stream_logs_for_project job project s.store) s

  live_events : Option (List ℕ) → List Event
  unfolding line_events scan
  live_events none = error_event ∷ []
  live_events (some log) = line_events (scan log) ++ done_event ∷ []

  live : (stream : String → Option (List ℕ)) → Option String → Response
  unfolding live_events
  live stream none = plain_error 404 "no running container for project"
  live stream (some container) = record {
    status = 200;
    answer = events (live_events (stream container));
  }

  unfoldable pub get_live_renovate_job_logs :
      (stream : String → Option (List ℕ)) → (project : String) → Server → Response
  unfolding live
  get_live_renovate_job_logs stream project s =
      if str_eq project ""
      then plain_error 400 "missing project parameter"
      else live stream (lookup project s.running)
