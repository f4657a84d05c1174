-- ===== src/ImageUpdate/Semver.antt =====
-- parseSemverPrefix and LatestSemverTag of internal/imageupdate/registry.go. A tag is its code points:
-- the code compares bytes with ASCII digits and dots, which no part of a longer code point is.
pub mod Latest
use Prim.Native.Char.{code}
use renovate_docker_operator.Prelude.{
  ℕ, ◌+◌, ◌-◌, ◌*◌, String, Bool, true, false, not, ◌&&◌, ◌||◌, Option, none, some, List, [], ◌∷◌,
  leb, ltb, ◌==◌, str_eq, if◌then◌else◌,
}

pub record Version : Type 0 where
  pub major : ℕ
  pub minor : ℕ
  pub patch : ℕ
  pub suffix : String

abbrev is_digit : ℕ → Bool
is_digit c = leb 48 c && leb c 57

abbrev is_dot : ℕ → Bool
is_dot c = c == 46

record Scanned : Type 0 where
  prefix : String
  rest : String
  dots : ℕ

-- The loop over the digits and the first two dots, with the number of dots so far.
scan : ℕ → String → Scanned
scan dots String.[] = record { prefix = String.[]; rest = String.[]; dots = dots }
scan dots (String.◌∷◌ c s) =
    let later = scan (if is_digit (code c) then dots else dots + 1) s in
    if is_digit (code c) || is_dot (code c) && ltb dots 2
    then record later { prefix = String.◌∷◌ c later.prefix }
    else record { prefix = String.[]; rest = String.◌∷◌ c s; dots = dots }

-- strings.Split(s, ".")
split_dots : String → List String
split_dots String.[] = String.[] ∷ []
split_dots (String.◌∷◌ c s) =
    if is_dot (code c) then String.[] ∷ split_dots s else elim (split_dots s) [
      | [] ↦ String.◌∷◌ c String.[] ∷ []
      | first ∷ others ↦ String.◌∷◌ c first ∷ others
    ]

abbrev max_int : ℕ
max_int = 9223372036854775807

digits_value : ℕ → String → ℕ
digits_value n String.[] = n
digits_value n (String.◌∷◌ c s) = digits_value (n * 10 + (code c - 48)) s

-- strconv.Atoi of digits: `none` is ErrRange, or ErrSyntax for "".
atoi : String → Option ℕ
unfolding digits_value
atoi s = if str_eq s "" || ltb max_int (digits_value 0 s) then none else some (digits_value 0 s)

-- The test of suffix[0].
is_suffix : String → Bool
is_suffix String.[] = true
is_suffix (String.◌∷◌ c s) = not (is_dot (code c)) && not (is_digit (code c))

version : Option ℕ → Option ℕ → Option ℕ → String → Option Version
version (some major) (some minor) (some patch) suffix =
    some (record { major = major; minor = minor; patch = patch; suffix = suffix })
version (some major) (some minor) none suffix = none
version (some major) none patch suffix = none
version none minor patch suffix = none

-- Where a part is empty or the suffix is wrong there is no version.
of_parts : List String → String → Option Version
unfolding atoi is_suffix version
of_parts (major ∷ minor ∷ patch ∷ []) suffix =
    if str_eq major "" || (str_eq minor "" || (str_eq patch "" || not (is_suffix suffix)))
    then none
    else version (atoi major) (atoi minor) (atoi patch) suffix
of_parts _ suffix = none

unfoldable pub parse_semver_prefix : String → Option Version
unfolding scan split_dots of_parts
parse_semver_prefix tag =
    let s = scan 0 tag in if s.dots == 2 then of_parts (split_dots s.prefix) s.rest else none

-- Strictly newer, by major, minor and patch.
abbrev pub newer : Version → Version → Bool
newer v w =
    ltb w.major v.major
    || (v.major == w.major && ltb w.minor v.minor
        || v.major == w.major && (v.minor == w.minor && ltb w.patch v.patch))

abbrev pub newer_than_best : Version → Option (String × Version) → Bool
newer_than_best v none = true
newer_than_best v (some best) = newer v best.1

-- One turn for a tag that parses.
abbrev pub better :
    String → String → Version → Option (String × Version) → Option (String × Version)
better family tag v best =
    if str_eq v.suffix family && newer_than_best v best then some (tag, v) else best

-- The body of the loop; `best` is `none` while nothing is found.
unfoldable pub consider : String → String → Option (String × Version) → Option (String × Version)
consider family tag best = elim (parse_semver_prefix tag) [
  | none ↦ best
  | some v ↦ better family tag v best
]

unfoldable pub latest_loop :
    List String → String → Option (String × Version) → Option (String × Version)
unfolding consider
latest_loop [] family best = best
latest_loop (tag ∷ tags) family best = latest_loop tags family (consider family tag best)

-- The results ("", false) and (bestTag, true).
abbrev pub tag_of : Option (String × Version) → Option String
tag_of none = none
tag_of (some best) = some best.0

unfoldable pub latest_semver_tag : List String → String → Option String
unfolding latest_loop
latest_semver_tag tags family = tag_of (latest_loop tags family none)
