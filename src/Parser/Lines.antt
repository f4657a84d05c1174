-- ===== src/Parser/Lines.antt =====
-- How internal/parser/logparser.go takes a log apart: the lines that its bufio.Scanner gives, and
-- the tests on messages. A log, a line and a message are lists of bytes.
use Prim.Native.Char.{code}
use renovate_docker_operator.Prelude.{
  ℕ, String, Bool, true, false, ◌&&◌, ◌||◌, List, [], ◌∷◌, ltb, ◌==◌, if◌then◌else◌, length,
}

-- The bytes of an ASCII text.
unfoldable pub bytes : String → List ℕ
bytes String.[] = []
bytes (String.◌∷◌ c s) = code c ∷ bytes s

abbrev pub same_bytes : List ℕ → List ℕ → Bool
same_bytes [] [] = true
same_bytes [] (b ∷ bs) = false
same_bytes (a ∷ as1) [] = false
same_bytes (a ∷ as1) (b ∷ bs) = a == b && same_bytes as1 bs

abbrev pub starts_bytes : List ℕ → List ℕ → Bool
starts_bytes [] s = true
starts_bytes (a ∷ as1) [] = false
starts_bytes (a ∷ as1) (b ∷ bs) = a == b && starts_bytes as1 bs

-- strings.Contains
unfoldable pub contains_bytes : List ℕ → List ℕ → Bool
contains_bytes t [] = starts_bytes t []
contains_bytes t (b ∷ bs) = starts_bytes t (b ∷ bs) || contains_bytes t bs

-- One byte in front of the lines of the rest.
abbrev pub onto : ℕ → List (List ℕ) → List (List ℕ)
onto b [] = (b ∷ []) ∷ []
onto b (line ∷ lines) = (b ∷ line) ∷ lines

-- The lines, whether or not the last one ends in a newline.
unfoldable pub split_lines : List ℕ → List (List ℕ)
split_lines [] = []
split_lines (b ∷ bs) = let rest = split_lines bs in if b == 10 then [] ∷ rest else onto b rest

-- A carriage return at the end of a line is dropped.
unfoldable pub drop_cr : List ℕ → List ℕ
drop_cr [] = []
drop_cr (b ∷ []) = if b == 13 then [] else b ∷ []
drop_cr (b ∷ c ∷ bs) = b ∷ drop_cr (c ∷ bs)

-- The buffer of the Scanner.
abbrev pub max_token_size : ℕ
max_token_size = 1048576

-- The Scanner stops, without a word, at a line that does not fit its buffer.
unfoldable pub scanned : List (List ℕ) → List (List ℕ)
unfolding drop_cr
scanned [] = []
scanned (line ∷ lines) =
    let rest = scanned lines in if ltb (length line) max_token_size then drop_cr line ∷ rest else []

unfoldable pub scan : List ℕ → List (List ℕ)
unfolding split_lines scanned
scan log = scanned (split_lines log)
