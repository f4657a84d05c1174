-- ===== src/ImageUpdate/Poller.antt =====
-- The poller of internal/imageupdate/poller.go with the error classes of errors.go. The registry
-- client, the executor and the clock are calls over one state of the world; a tick runs alone. Error
-- messages are their bytes, which the code counts and cuts.
pub mod Ticks
use renovate_docker_operator.Prelude.{
  ℕ, String, Bool, true, false, not, ◌&&◌, ◌||◌, Option, none, some, List, [], ◌∷◌, ◌++◌, leb, ◌==◌,
  str_eq, if◌then◌else◌, length, take,
}
use renovate_docker_operator.ImageUpdate.Semver.{
  Version, parse_semver_prefix, newer, latest_semver_tag,
}

pub record Reference : Type 0 where
  pub registry : String
  pub repository : String
  pub tag : String
  pub digest : String

pub record Status : Type 0 where
  pub enabled : Bool
  pub ready : Bool
  pub configured_ref : String
  pub registry : String
  pub repository : String
  pub tag : String
  pub digest : String
  pub local_digest : String
  pub latest_tag : String
  pub latest_digest : String
  pub update_available : Bool
  pub last_checked : ℕ
  pub last_error : List ℕ

-- An error, and whether it is or wraps a ClassifiedError.
pub record Failure : Type 0 where
  pub is_classified : Bool
  pub message : List ℕ

pub data Answer (A : Type 0) : Type 0 where
  answered : A → Answer A
  failed : Failure → Answer A

-- `local_digest` is `none` for a nil digester; `unparseable` prints the error of a reference that
-- does not parse.
pub record Registry (W : Type 0) : Type 0 where
  pub head_manifest : Reference → W → Answer String × W
  pub local_digest : Option (W → Answer String × W)
  pub list_tags : Reference → W → Answer (List String) × W
  pub now : W → ℕ × W
  pub unparseable : String → List ℕ

-- `parsed` has no registry where the configured reference does not parse.
pub record Poller (W : Type 0) : Type 0 where
  pub enabled : Bool
  pub configured_ref : String
  pub parsed : Reference
  pub state : Status
  pub world : W

-- "network: "
abbrev network_prefix : List ℕ
network_prefix = 110 ∷ 101 ∷ 116 ∷ 119 ∷ 111 ∷ 114 ∷ 107 ∷ 58 ∷ 32 ∷ []

-- "local digest: "
abbrev local_digest_prefix : List ℕ
local_digest_prefix =
    108 ∷ 111 ∷ 99 ∷ 97 ∷ 108 ∷ 32 ∷ 100 ∷ 105 ∷ 103 ∷ 101 ∷ 115 ∷ 116 ∷ 58 ∷ 32 ∷ []

-- "list tags: "
abbrev list_tags_prefix : List ℕ
list_tags_prefix = 108 ∷ 105 ∷ 115 ∷ 116 ∷ 32 ∷ 116 ∷ 97 ∷ 103 ∷ 115 ∷ 58 ∷ 32 ∷ []

-- fmt.Errorf("<prefix>%w", err)
wrap : List ℕ → Failure → Failure
wrap prefix f = record f { message = prefix ++ f.message }

-- classifyErr(ClassNetwork, err), unless the error is classified.
classify : Failure → Failure
classify f =
    if f.is_classified
    then f
    else record { is_classified = true; message = network_prefix ++ f.message }

unfoldable pub first_line : List ℕ → List ℕ
first_line [] = []
first_line (b ∷ bs) = let rest = first_line bs in if b == 10 then [] else b ∷ rest

abbrev pub max_error_runes : ℕ
max_error_runes = 120

-- "…"
abbrev pub ellipsis : List ℕ
ellipsis = 226 ∷ 128 ∷ 166 ∷ []

unfoldable pub truncate_error : List ℕ → List ℕ
unfolding first_line
truncate_error message =
    if leb (length (first_line message)) max_error_runes
    then first_line message
    else take max_error_runes (first_line message) ++ ellipsis

-- `next.UpdateAvailable` at the end of Tick.
derive : Status → Status
derive s = record s {
  update_available =
      if not (str_eq s.local_digest "")
        && (not (str_eq s.digest "") && not (str_eq s.local_digest s.digest))
      then true
      else if not (str_eq s.latest_tag "")
      then true
      else false;
}

-- `next.UpdateAvailable` in recordPartialSuccess, from the fields that it holds by then.
derive_partial : Status → Status
derive_partial s = record s {
  update_available =
      if not (str_eq s.local_digest "")
        && (not (str_eq s.digest "") && not (str_eq s.local_digest s.digest))
      then true
      else if not (str_eq s.latest_tag "")
      then true
      else false;
}

-- The branches of the prior state that the tick has not touched.
keep_latest : Status → Status → Status
keep_latest prior next =
    if str_eq next.latest_tag "" && not (str_eq prior.latest_tag "")
    then record next { latest_tag = prior.latest_tag; latest_digest = prior.latest_digest }
    else next

module _ {W : Type 0} (rt : Registry W) where
  record_total_failure : Failure → Poller W → Option Failure × Poller W
  unfolding classify truncate_error
  record_total_failure f p =
      let (now, w) = rt.now p.world in
      (
        some (classify f),
        record p {
          world = w;
          state = record p.state {
            last_error = truncate_error (classify f).message;
            last_checked = now;
          };
        },
      )

  unfoldable pub record_partial_success : Status → Failure → Poller W → Option Failure × Poller W
  unfolding classify truncate_error derive_partial keep_latest
  record_partial_success next f p =
      let (now, w) = rt.now p.world in
      let observed = record next {
        ready = true;
        last_checked = now;
        last_error = truncate_error (classify f).message;
      } in
      (
        some (classify f),
        record p { world = w; state = derive_partial (keep_latest p.state observed) },
      )

  -- The end of a tick without errors.
  finish : Status → Poller W → Option Failure × Poller W
  unfolding derive
  finish next p =
      let (now, w) = rt.now p.world in
      (
        none,
        record p {
          world = w;
          state = record (derive next) { ready = true; last_checked = now; last_error = [] };
        },
      )

  -- A newer tag, and its digest where the registry gives it.
  with_latest : String → Answer String → Status → Status
  with_latest latest (answered digest) next = record next {
    latest_tag = latest;
    latest_digest = digest;
  }
  with_latest latest (failed f) next = record next { latest_tag = latest }

  head_latest : String → Status → Poller W → Option Failure × Poller W
  unfolding finish with_latest
  head_latest latest next p =
      let (head, w) = rt.head_manifest (record p.parsed { tag = latest; digest = "" }) p.world in
      finish (with_latest latest head next) (record p { world = w })

  abbrev is_newer : Option Version → Version → Bool
  is_newer none current = false
  is_newer (some v) current = newer v current

  compare_latest : Version → Option String → Status → Poller W → Option Failure × Poller W
  unfolding finish head_latest
  compare_latest current none next p = finish next p
  compare_latest current (some latest) next p =
      if is_newer (parse_semver_prefix latest) current
      then head_latest latest next p
      else finish next p

  after_tags : Version → Answer (List String) → Status → Poller W → Option Failure × Poller W
  unfolding compare_latest record_partial_success wrap
  after_tags current (failed f) next p = record_partial_success next (wrap list_tags_prefix f) p
  after_tags current (answered tags) next p =
      compare_latest current (latest_semver_tag tags current.suffix) next p

  semver_branch : Option Version → Status → Poller W → Option Failure × Poller W
  unfolding finish after_tags
  semver_branch none next p = finish next p
  semver_branch (some current) next p =
      let (tags, w) = rt.list_tags p.parsed p.world in
      after_tags current tags next (record p { world = w })

  after_local : Answer String → Status → Poller W → Option Failure × Poller W
  unfolding semver_branch record_partial_success wrap
  after_local (failed f) next p = record_partial_success next (wrap local_digest_prefix f) p
  after_local (answered digest) next p =
      semver_branch (parse_semver_prefix p.parsed.tag) (record next { local_digest = digest }) p

  local_branch : Option (W → Answer String × W) → Status → Poller W → Option Failure × Poller W
  unfolding semver_branch after_local
  local_branch none next p = semver_branch (parse_semver_prefix p.parsed.tag) next p
  local_branch (some ask) next p =
      let (local, w) = ask p.world in after_local local next (record p { world = w })

  after_head : Answer String → Poller W → Option Failure × Poller W
  unfolding local_branch record_total_failure
  after_head (failed f) p = record_total_failure f p
  after_head (answered digest) p =
      local_branch rt.local_digest (record p.state { enabled = true; digest = digest }) p

  -- `none` is a nil error.
  unfoldable pub tick : Poller W → Option Failure × Poller W
  unfolding after_head record_total_failure
  tick p =
      let (head, w) = rt.head_manifest p.parsed p.world in
      if not p.enabled
      then (none, p)
      else (if str_eq p.parsed.registry ""
          then record_total_failure
              (record { is_classified = false; message = rt.unparseable p.configured_ref }) p
          else after_head head (record p { world = w }))

unfoldable pub mark_disabled : {W : Type 0} → Poller W → Poller W
mark_disabled p = record p {
  state = record {
    enabled = false;
    ready = true;
    configured_ref = p.configured_ref;
    registry = p.parsed.registry;
    repository = p.parsed.repository;
    tag = p.parsed.tag;
    digest = "";
    local_digest = "";
    latest_tag = "";
    latest_digest = "";
    update_available = false;
    last_checked = 0;
    last_error = [];
  };
}
