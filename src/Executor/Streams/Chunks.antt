-- ===== src/Executor/Streams/Chunks.antt =====
-- stderrJSONWrapper of internal/executor/docker.go writes the same lines however its input is cut.
use renovate_docker_operator.Prelude.{
  ℕ, ◌≡◌, refl, ◌∙◌, ap, sym, Bool, true, false, List, [], ◌∷◌, ◌++◌, arith, ◌==◌, if◌then◌else◌,
}
use mathlib.Core.List.{append_assoc, append-nil}
use renovate_docker_operator.Executor.Streams.{
  Writer, StderrJsonWrapper, write_line, write_lines, write_stderr,
}

-- No byte is a newline.
abbrev pub IsOpen : List ℕ → Type 0
IsOpen [] = Unit
IsOpen (b ∷ bs) = (b == b'\n' ≡ false) × IsOpen bs

IsOpen-snoc : (line : List ℕ) (b : ℕ) → IsOpen line → b == b'\n' ≡ false → IsOpen (line ++ b ∷ [])
IsOpen-snoc [] b h e = (e, tt)
IsOpen-snoc (c ∷ line) b (first, h) e = (first, IsOpen-snoc line b h e)

module _ {W : Type 0} (out : Writer W) where
  -- What is buffered is an unfinished line.
  abbrev Continues : List ℕ → Bool × StderrJsonWrapper W → Bool × StderrJsonWrapper W → Type 0
  Continues q r whole = r.0 ≡ true → IsOpen r.1.buf × (whole ≡ write_lines out r.1.buf q r.1.world)

  write_lines-append :
      (line p q : List ℕ) (w : W)
      → IsOpen line
      → Continues q (write_lines out line p w) (write_lines out line (p ++ q) w)
  unfolding write_lines
  write_lines-append line [] q w h = λ ok. (h, refl)
  write_lines-append line (b ∷ p) q w h =
      choose (b == b'\n') (write_line out line w).0 refl
        (write_lines-append [] p q (write_line out line w).1 tt)
        (λ e. write_lines-append (line ++ b ∷ []) p q w (IsOpen-snoc line b h e))
    where
      choose :
          (newline written : Bool)
          → b == b'\n' ≡ newline
          → Continues q
              (write_lines out [] p (write_line out line w).1)
              (write_lines out [] (p ++ q) (write_line out line w).1)
          → (b == b'\n' ≡ false
              → Continues q
                  (write_lines out (line ++ b ∷ []) p w)
                  (write_lines out (line ++ b ∷ []) (p ++ q) w))
          → Continues q
              (if newline
                then if written
                  then write_lines out [] p (write_line out line w).1
                  else (false, record { world = (write_line out line w).1; buf = p })
                else write_lines out (line ++ b ∷ []) p w)
              (if newline
                then if written
                  then write_lines out [] (p ++ q) (write_line out line w).1
                  else (false, record { world = (write_line out line w).1; buf = p ++ q })
                else write_lines out (line ++ b ∷ []) (p ++ q) w)
      choose true true e next more = next
      choose true false e next more = λ ok. ground arith
      choose false written e next more = more e

  -- Bytes of an unfinished line, and then others.
  write_lines-open :
      (line open_line q : List ℕ) (w : W)
      → IsOpen open_line
      → write_lines out line (open_line ++ q) w ≡ write_lines out (line ++ open_line) q w
  unfolding write_lines
  write_lines-open line [] q w h = ap (λ l. write_lines out l q w) (sym (append-nil line))
  write_lines-open line (b ∷ bs) q w (e, h) = rw e (
      write_lines-open (line ++ b ∷ []) bs q w h
      ∙ ap (λ l. write_lines out l q w) (append_assoc line (b ∷ []) bs))

  -- Two writes, of which the first succeeds, write to the stream what one write of all bytes does, and
  -- leave the same buffer; and what a write that succeeds leaves in the buffer has no newline.
  pub write_stderr-append :
      (p q : List ℕ) (s : StderrJsonWrapper W)
      → (write_stderr out p s).0 ≡ true
      → IsOpen (write_stderr out p s).1.buf
        × (write_stderr out (p ++ q) s ≡ write_stderr out q (write_stderr out p s).1)
  unfolding write_stderr
  write_stderr-append p q s ok =
      let (unfinished, same) = write_lines-append [] (s.buf ++ p) q s.world tt ok in
      let first = write_lines out [] (s.buf ++ p) s.world in
      (
        unfinished,
        ap (λ l. write_lines out [] l s.world) (sym (append_assoc s.buf p q))
            ∙ same
            ∙ sym (write_lines-open [] first.1.buf q first.1.world unfinished),
      )
