-- ===== src/Executor/Streams.antt =====
-- The byte streams of internal/executor/docker.go: the decoding of getContainerLogs,
-- stderrJSONWrapper, and sanitizeName.
pub mod Frames
pub mod Chunks
use renovate_docker_operator.Prelude.{
  ℕ, ◌+◌, ◌*◌, ◌%◌, ◌^◌, Bool, true, false, not, ◌&&◌, ◌||◌, Option, none, some, List, [], ◌∷◌,
  ◌++◌, leb, ◌==◌, if◌then◌else◌, length, take, map,
}

-- The payload size is a uint32, and so is the rest's length that it is compared with.
unfoldable pub is_docker_multiplexed : List ℕ → Bool
is_docker_multiplexed (t ∷ p ∷ q ∷ r ∷ a ∷ b ∷ c ∷ d ∷ rest) =
    (t == 1 || t == 2)
    && (p == 0 && (q == 0 && r == 0))
    && let size = a * 2 ^ 24 + b * 2 ^ 16 + c * 2 ^ 8 + d in
      not (size == 0) && leb size (length rest % 2 ^ 32)
is_docker_multiplexed _ = false

-- From the raw stream on; `std_copy` is the stdout that stdcopy.StdCopy takes out, or its error.
unfoldable pub decode_logs : (std_copy : List ℕ → Option (List ℕ)) → List ℕ → Option (List ℕ)
unfolding is_docker_multiplexed
decode_logs std_copy raw = if is_docker_multiplexed raw then std_copy raw else some raw

-- bytes.TrimSpace, json.Valid, the marshalled entry of a plain line with the clock's time, and the
-- underlying writer, whose `false` is an error.
pub record Writer (W : Type 0) : Type 0 where
  pub trim_space : List ℕ → List ℕ
  pub is_json : List ℕ → Bool
  pub wrap : List ℕ → W → List ℕ × W
  pub write : List ℕ → W → Bool × W

pub record StderrJsonWrapper (W : Type 0) : Type 0 where
  pub world : W
  pub buf : List ℕ

abbrev pub is_blank : List ℕ → Bool
is_blank [] = true
is_blank (b ∷ bs) = false

module _ {W : Type 0} (out : Writer W) where
  -- One line, without its newline.
  unfoldable pub write_line : List ℕ → W → Bool × W
  write_line line w =
      let trimmed = out.trim_space line in
      if is_blank trimmed
      then (true, w)
      else if out.is_json trimmed
      then out.write (trimmed ++ b'\n' ∷ []) w
      else let (entry, w1) = out.wrap trimmed w in out.write (entry ++ b'\n' ∷ []) w1

  -- The loop of Write on what is buffered, `line` being the bytes since the last newline. After an
  -- error of the writer what follows the line stays in the buffer.
  unfoldable pub write_lines : (line buffered : List ℕ) → W → Bool × StderrJsonWrapper W
  unfolding write_line
  write_lines line [] w = (true, record { world = w; buf = line })
  write_lines line (b ∷ bs) w =
      let written = write_line line w in
      let next = write_lines [] bs written.1 in
      let more = write_lines (line ++ b ∷ []) bs w in
      if b == b'\n'
      then if written.0 then next else (false, record { world = written.1; buf = bs })
      else more

  unfoldable pub write_stderr : List ℕ → StderrJsonWrapper W → Bool × StderrJsonWrapper W
  unfolding write_lines
  write_stderr p s = write_lines [] (s.buf ++ p) s.world

-- strings.ToLower is an argument; a name is its bytes.
abbrev pub is_replaced : ℕ → Bool
is_replaced b = b == b'/' || (b == b'.' || (b == b':' || b == b' '))

unfoldable pub sanitize_name : (to_lower : List ℕ → List ℕ) → List ℕ → List ℕ
sanitize_name to_lower name = take 60 (map (λ b. if is_replaced b then b'-' else b) (to_lower name))
