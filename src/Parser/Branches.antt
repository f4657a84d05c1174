-- ===== src/Parser/Branches.antt =====
-- The handlers of internal/parser/logparser.go that gather the pull request of each branch. A line
-- is decoded by encoding/json and matched by package regexp, which are parameters.
pub mod Backfill
use renovate_docker_operator.Prelude.{
  ℕ, String, Bool, true, false, not, ◌&&◌, ◌||◌, Option, none, some, List, [], ◌∷◌, ℤ, pos, Dict,
  lookup, put, str_eq, if◌then◌else◌, ltb_ℤ,
}
use renovate_docker_operator.Api.{
  PrAction, automerged, created, updated, needs_approval, unchanged, PrDetail,
}
use renovate_docker_operator.StateStore.Settings.{parse_int}

pub record LogEntry : Type 0 where
  pub level : ℤ
  pub msg : List ℕ

pub record RepositoryFinishedEntry : Type 0 where
  pub result : String
  pub status : String

pub record PrCreateUpdateEntry : Type 0 where
  pub branch : String
  pub title : String

-- Its remote messages are matched as they come.
pub record GitPushEntry : Type 0 where
  pub branch : String
  pub all : List String

pub record PrCreatedEntry : Type 0 where
  pub branch : String
  pub pr : ℤ
  pub pr_title : String

pub record BranchInfoItem : Type 0 where
  pub branch_name : String
  pub pr_no : Option ℤ
  pub pr_title : String
  pub result : String

-- json.Unmarshal into each of the entries, `none` for its error, and the group that prURLRegex and
-- prNumberRegex find.
pub record Decoder : Type 0 where
  pub log_entry : List ℕ → Option LogEntry
  pub repository_finished : List ℕ → Option RepositoryFinishedEntry
  pub pr_create_update : List ℕ → Option PrCreateUpdateEntry
  pub pr_unchanged : List ℕ → Option String
  pub git_push : List ℕ → Option GitPushEntry
  pub pr_created : List ℕ → Option PrCreatedEntry
  pub branches_info : List ℕ → Option (List BranchInfoItem)
  pub pr_url : String → Option String
  pub pr_number : List ℕ → Option String

abbrev pub new_detail : String → PrDetail
new_detail branch = record { branch = branch; number = pos 0; title = ""; action = none }

abbrev pub detail_or_new : String → Option PrDetail → PrDetail
detail_or_new branch none = new_detail branch
detail_or_new branch (some d) = d

-- getOrCreateDetail, and what the caller writes to the detail.
abbrev pub with_detail : String → (PrDetail → PrDetail) → Dict PrDetail → Dict PrDetail
with_detail branch set m = put branch (set (detail_or_new branch (lookup branch m))) m

-- The same where the branch of the entry is not empty.
abbrev pub with_branch : String → (PrDetail → PrDetail) → Dict PrDetail → Dict PrDetail
with_branch branch set m = if str_eq branch "" then m else with_detail branch set m

abbrev pub with_action : PrAction → String → PrDetail → PrDetail
with_action action title d = record d { action = some action; title = title }

-- A title where there is none.
abbrev pub backfill : String → PrDetail → PrDetail
backfill title d =
    if str_eq d.title "" && not (str_eq title "") then record d { title = title } else d

abbrev pub is_positive : ℤ → Bool
is_positive n = ltb_ℤ (pos 0) n

abbrev pub with_number : Option ℤ → PrDetail → PrDetail
with_number none d = d
with_number (some n) d = record d { number = n }

module _ (decoder : Decoder) where
  -- handleCreatingPR and handleUpdatingPR
  unfoldable pub handle_creating_pr : PrAction → List ℕ → Dict PrDetail → Dict PrDetail
  handle_creating_pr action line m = elim (decoder.pr_create_update line) [
    | none ↦ m
    | some pr ↦ with_branch pr.branch (with_action action pr.title) m
  ]

  unfoldable pub handle_does_not_need_updating :
      List ℕ → (msg : List ℕ) → Dict PrDetail → Dict PrDetail
  unfolding parse_int
  handle_does_not_need_updating line msg m = elim (decoder.pr_number msg) [
    | none ↦ m
    | some digits ↦ elim (parse_int digits) [
      | none ↦ m
      | some num ↦ elim (decoder.pr_unchanged line) [
        | none ↦ m
        | some branch ↦
            with_branch branch (λ d. record d { action = some unchanged; number = num }) m
      ]
    ]
  ]

  -- The first remote message with a link counts.
  unfoldable pub first_link : List String → Option String
  first_link [] = none
  first_link (msg ∷ msgs) =
      let rest = first_link msgs in
      elim (decoder.pr_url msg) [ none ↦ rest | some digits ↦ some digits ]

  pushed : String → Option String → Dict PrDetail → Dict PrDetail
  unfolding parse_int
  pushed branch none m = m
  pushed branch (some digits) m = with_detail branch (with_number (parse_int digits)) m

  unfoldable pub handle_git_push : List ℕ → Dict PrDetail → Dict PrDetail
  unfolding first_link pushed
  handle_git_push line m = elim (decoder.git_push line) [
    | none ↦ m
    | some gp ↦ if str_eq gp.branch "" then m else pushed gp.branch (first_link gp.all) m
  ]

  unfoldable pub handle_pr_created : List ℕ → Dict PrDetail → Dict PrDetail
  handle_pr_created line m = elim (decoder.pr_created line) [
    | none ↦ m
    | some pc ↦
        if is_positive pc.pr
        then with_branch pc.branch (λ d. backfill pc.pr_title (record d { number = pc.pr })) m
        else m
  ]

  unfoldable pub handle_pr_automerged : List ℕ → Dict PrDetail → Dict PrDetail
  handle_pr_automerged line m = elim (decoder.pr_created line) [
    | none ↦ m
    | some pc ↦
        with_branch pc.branch
          (λ d. backfill pc.pr_title (
            with_number (if is_positive pc.pr then some pc.pr else none)
              (record d { action = some automerged })))
          m
  ]

  -- The results with which a branch that is not in the map yet is taken in.
  abbrev pub is_active : String → Bool
  is_active result =
      str_eq result "needs-approval"
      || (str_eq result "done" || (str_eq result "automerged" || str_eq result ""))

  abbrev from_info : BranchInfoItem → PrDetail → PrDetail
  from_info b d = with_number b.pr_no (
      with_action (if str_eq b.result "needs-approval" then needs_approval else unchanged)
        b.pr_title d)

  backfill_branch : BranchInfoItem → Option PrDetail → Dict PrDetail → Dict PrDetail
  backfill_branch b (some existing) m = put b.branch_name (backfill b.pr_title existing) m
  backfill_branch b none m =
      if is_active b.result then with_detail b.branch_name (from_info b) m else m

  backfill_branches : List BranchInfoItem → Dict PrDetail → Dict PrDetail
  unfolding backfill_branch
  backfill_branches [] m = m
  backfill_branches (b ∷ bs) m =
      backfill_branches bs
        (if str_eq b.branch_name "" then m else backfill_branch b (lookup b.branch_name m) m)

  unfoldable pub handle_branches_info_extended : List ℕ → Dict PrDetail → Dict PrDetail
  unfolding backfill_branches
  handle_branches_info_extended line m = elim (decoder.branches_info line) [
    | none ↦ m
    | some bs ↦ backfill_branches bs m
  ]
