-- ===== src/Executor/Tests/Containers.antt =====
-- Log streams, reconciliations and discovery containers in a small world, and the theorems about
-- them at concrete inputs.
use renovate_docker_operator.Prelude.{
  ℕ, ◌≡◌, refl, Bool, String, true, false, some, List, [], ◌∷◌, ◌++◌, lookup, put, ◌==◌,
}
use renovate_docker_operator.Executor.Streams.{
  Writer, StderrJsonWrapper, write_line, write_lines, write_stderr,
}
use renovate_docker_operator.Executor.Streams.Chunks.{IsOpen, write_stderr-append}
use renovate_docker_operator.Executor.Orphans.{
  Summary, Daemon, adopt, handle_running, reconcile_one, reconcile_listed, reconcile_orphans,
}
use renovate_docker_operator.Executor.Orphans.Slots.{Slot, reconcile_orphans-Slot}
use renovate_docker_operator.Executor.Discoveries.{Waited, wait_ended, Discoverer}
use renovate_docker_operator.Executor.Tests.{world, busy}

-- A writer that collects what is written; a line that starts with a brace counts as JSON.
abbrev starts_object : List ℕ → Bool
starts_object [] = false
starts_object (b ∷ bs) = b == b'{'

abbrev collector : Writer (List ℕ)
collector = record {
  trim_space = λ l. l;
  is_json = starts_object;
  wrap = λ l w. (b'{' ∷ l ++ b'}' ∷ [], w);
  write = λ l w. (true, w ++ l);
}

abbrev fresh : StderrJsonWrapper (List ℕ)
fresh = record { world = []; buf = [] }

-- A plain line that comes in two chunks is wrapped once, and a last line without a newline stays in
-- the buffer.
chunks_are_joined :
    (write_stderr collector
      (b'k' ∷ b'\n' ∷ b'z' ∷ [])
      (write_stderr collector (b'o' ∷ []) fresh).1).1
    ≡ record { world = b'{' ∷ b'o' ∷ b'k' ∷ b'}' ∷ b'\n' ∷ []; buf = b'z' ∷ [] }
unfolding write_stderr write_lines write_line
chunks_are_joined = refl

first_write : (write_stderr collector (b'o' ∷ []) fresh).0 ≡ true
unfolding write_stderr write_lines write_line
first_write = refl

write_stderr-append_example :
    IsOpen (write_stderr collector (b'o' ∷ []) fresh).1.buf
    × (write_stderr collector ((b'o' ∷ []) ++ b'k' ∷ b'\n' ∷ []) fresh
        ≡ write_stderr collector (b'k' ∷ b'\n' ∷ []) (write_stderr collector (b'o' ∷ []) fresh).1)
write_stderr-append_example =
    write_stderr-append collector (b'o' ∷ []) (b'k' ∷ b'\n' ∷ []) fresh first_write

-- An orphan of a project whose slot has a live container.
abbrev orphan : Summary
orphan = record {
  id = "orphan";
  state = "running";
  labels = record { project = "a"; job_name = "default"; kind = "executor"; started_at = some 3 };
}

abbrev daemon : Daemon ℕ
daemon = record {
  container_list = λ w. (some (orphan ∷ []), w);
  container_kill = λ c w. w;
  container_stop = λ c w. (true, w);
  close = λ w. w;
}

live_slot_overwritten : lookup "a" (reconcile_orphans world daemon busy).1.running ≡ some "orphan"
unfolding reconcile_orphans reconcile_listed reconcile_one handle_running adopt lookup put
live_slot_overwritten = refl

reconcile_orphans-Slot_example :
    Slot busy.running
      (orphan ∷ [])
      "a"
      (lookup "a" busy.running)
      (lookup "a" (reconcile_orphans world daemon busy).1.running)
reconcile_orphans-Slot_example = reconcile_orphans-Slot world daemon busy "a" (orphan ∷ []) refl

abbrev discoverer : Discoverer ℕ
discoverer = record { executor = busy; discovery_id = ("default", "") ∷ [] }

abbrev await : String → ℕ → Waited × ℕ
await container w = (wait_ended, w)
