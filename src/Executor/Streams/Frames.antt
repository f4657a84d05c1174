-- ===== src/Executor/Streams/Frames.antt =====
-- isDockerMultiplexed of internal/executor/docker.go recognises the frames that Docker writes.
use renovate_docker_operator.Prelude.{
  ℕ, ◌+◌, ◌/◌, ◌%◌, ◌^◌, ◌≤◌, ◌<◌, ◌≡◌, ◌⊎◌, true, List, ◌∷◌, ◌++◌, arith, length, length-append,
}
use renovate_docker_operator.Executor.Streams.{is_docker_multiplexed}

-- A frame of Docker's stream: the stream, three zeros, the size in big-endian order, the payload.
abbrev pub frame : (stream : ℕ) → List ℕ → List ℕ
frame stream payload =
    let n = length payload in
    stream ∷ 0 ∷ 0 ∷ 0 ∷ n / 2 ^ 24 ∷ n / 2 ^ 16 % 2 ^ 8 ∷ n / 2 ^ 8 % 2 ^ 8 ∷ n % 2 ^ 8 ∷ payload

-- A stream that starts with a frame of stdout or stderr that is not empty counts as multiplexed, as
-- long as what follows the header has fewer than 2^32 bytes.
pub is_docker_multiplexed-frame :
    (stream : ℕ) (payload rest : List ℕ)
    → (stream ≡ 1) ⊎ (stream ≡ 2)
    → 1 ≤ length payload
    → length payload + length rest < 2 ^ 32
    → is_docker_multiplexed (frame stream payload ++ rest) ≡ true
unfolding is_docker_multiplexed
is_docker_multiplexed-frame stream payload rest s some_bytes fits =
    ground (arith, length-append payload rest)
