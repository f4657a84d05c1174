-- ===== src/Parser/Activity.antt =====
-- buildPRActivity of internal/parser/logparser.go.
pub mod Described
pub mod Listed
use Prim.Native.Char.{code}
use renovate_docker_operator.Prelude.{
  ℕ, String, Bool, true, false, ◌&&◌, ◌||◌, Option, none, some, List, [], ◌∷◌, Dict, map, ltb, ◌==◌,
  if◌then◌else◌, length, count_if, take,
}
use renovate_docker_operator.Api.{
  PrAction, automerged, created, updated, needs_approval, unchanged, PrDetail, PrActivity,
}
use renovate_docker_operator.Parser.Branches.{is_positive}

-- MaxPRDetails
abbrev pub max_pr_details : ℕ
max_pr_details = 100

-- A branch that only appeared in "git push" or "PR created" messages.
abbrev pub default_action : PrDetail → PrDetail
default_action d = elim d.action [
  | none ↦ if is_positive d.number then record d { action = some updated } else d
  | some action ↦ d
]

abbrev pub is_action : PrAction → Option PrAction → Bool
is_action automerged (some automerged) = true
is_action created (some created) = true
is_action updated (some updated) = true
is_action needs_approval (some needs_approval) = true
is_action unchanged (some unchanged) = true
is_action _ _ = false

abbrev pub has_action : PrAction → PrDetail → Bool
has_action action d = is_action action d.action

-- actionOrder; a map gives 0 for a key that it does not have.
abbrev pub action_order : Option PrAction → ℕ
action_order none = 0
action_order (some automerged) = 0
action_order (some created) = 1
action_order (some updated) = 2
action_order (some needs_approval) = 3
action_order (some unchanged) = 4

-- `<` on strings
abbrev pub less : String → String → Bool
less s String.[] = false
less String.[] (String.◌∷◌ d t) = true
less (String.◌∷◌ c s) (String.◌∷◌ d t) = ltb (code c) (code d) || (code c == code d && less s t)

-- The function that sort.Slice is given.
abbrev pub before : PrDetail → PrDetail → Bool
before a b =
    if action_order a.action == action_order b.action
    then less a.branch b.branch
    else ltb (action_order a.action) (action_order b.action)

unfoldable pub insert_pr : PrDetail → List PrDetail → List PrDetail
insert_pr d [] = d ∷ []
insert_pr d (e ∷ prs) = let rest = insert_pr d prs in if before e d then e ∷ rest else d ∷ e ∷ prs

-- The branches of a map differ, so the order of the keys leaves one way to sort them.
unfoldable pub sort_prs : List PrDetail → List PrDetail
unfolding insert_pr
sort_prs [] = []
sort_prs (d ∷ prs) = insert_pr d (sort_prs prs)

abbrev pub details : Dict PrDetail → List PrDetail
details m = map (λ e. default_action e.1) m

abbrev activity_of : List PrDetail → PrActivity
activity_of ds = record {
  automerged = count_if (has_action automerged) ds;
  created = count_if (has_action created) ds;
  updated = count_if (has_action updated) ds;
  needs_approval = count_if (has_action needs_approval) ds;
  unchanged = count_if (has_action unchanged) ds;
  prs = take max_pr_details (sort_prs ds);
  truncated = ltb max_pr_details (length (sort_prs ds));
}

unfoldable pub build_pr_activity : Dict PrDetail → PrActivity
unfolding sort_prs
build_pr_activity m = activity_of (details m)
