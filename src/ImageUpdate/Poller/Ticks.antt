-- ===== src/ImageUpdate/Poller/Ticks.antt =====
-- What a tick of the poller of internal/imageupdate/poller.go leaves in the published status.
use renovate_docker_operator.Prelude.{
  ℕ, ◌≤◌, String, ◌≡◌, ◌≢◌, ◌↔◌, ◌⊎◌, inl, inr, refl, Bool, true, false, not, ◌&&◌, ◌||◌, Option,
  none, some, List, [], ◌++◌, arith, leb, str_eq, if◌then◌else◌, length, take, eq_iff,
  length-append, length-take,
}
use renovate_docker_operator.ImageUpdate.Semver.{Version, parse_semver_prefix, latest_semver_tag}
use renovate_docker_operator.ImageUpdate.Poller.{
  Status, Failure, Answer, answered, failed, Registry, Poller, wrap, classify, truncate_error,
  first_line, max_error_runes, ellipsis, derive, derive_partial, keep_latest, record_total_failure,
  record_partial_success, finish, with_latest, head_latest, is_newer, compare_latest, after_tags,
  semver_branch, after_local, local_branch, after_head, tick, local_digest_prefix, list_tags_prefix,
}

-- There is an update exactly where there is a latest tag, or the two digests are known and differ.
abbrev pub IsDerived : Status → Type 0
IsDerived s = (s.update_available ≡ true) ↔ (
    (s.latest_tag ≢ "") ⊎ ((s.local_digest ≢ "") × (s.digest ≢ "") × (s.local_digest ≢ s.digest)))

-- An update is announced exactly by the other fields, the status is ready if it was, and the error
-- of the tick is classified and stands in the status, "" for none.
pub record IsObserved {W : Type 0} (was_ready : Bool) (r : Option Failure × Poller W) : Type 0 where
  pub derived : IsDerived r.1.state
  pub stays_ready : (not was_ready || r.1.state.ready) ≡ true
  pub reported :
      ((r.0 ≡ none) × (r.1.state.last_error ≡ []))
      ⊎ ((f : Failure) × (r.0 ≡ some f)
          × (f.is_classified ≡ true)
          × (r.1.state.last_error ≡ truncate_error f.message))

classify-is_classified : (f : Failure) → (classify f).is_classified ≡ true
unfolding classify
classify-is_classified f = ground arith

derive-IsDerived : (s : Status) → IsDerived (derive s)
unfolding derive
derive-IsDerived s = (
  λ h. ground (
    arith,
    eq_iff s.latest_tag "",
    eq_iff s.local_digest "",
    eq_iff s.digest "",
    eq_iff s.local_digest s.digest,
  ),
  λ h. ground (
    arith,
    eq_iff s.latest_tag "",
    eq_iff s.local_digest "",
    eq_iff s.digest "",
    eq_iff s.local_digest s.digest,
  ),
)

derive_partial-IsDerived : (s : Status) → IsDerived (derive_partial s)
unfolding derive_partial
derive_partial-IsDerived s = (
  λ h. ground (
    arith,
    eq_iff s.latest_tag "",
    eq_iff s.local_digest "",
    eq_iff s.digest "",
    eq_iff s.local_digest s.digest,
  ),
  λ h. ground (
    arith,
    eq_iff s.latest_tag "",
    eq_iff s.local_digest "",
    eq_iff s.digest "",
    eq_iff s.local_digest s.digest,
  ),
)

-- The latest tag and its digest after a partial success: those of the tick, or, where the tick has
-- no tag, those of before.
abbrev pub LatestKept : (prior next after : Status) → Type 0
LatestKept prior next after =
    (after.latest_tag ≡ (if str_eq next.latest_tag "" then prior.latest_tag else next.latest_tag))
    × (after.latest_digest ≡ (
        if str_eq next.latest_tag "" && not (str_eq prior.latest_tag "")
        then prior.latest_digest
        else next.latest_digest))

module _ {W : Type 0} (rt : Registry W) where
  record_partial_success-LatestKept :
      (next : Status) (f : Failure) (p : Poller W)
      → LatestKept p.state next (record_partial_success rt next f p).1.state
  unfolding record_partial_success derive_partial keep_latest
  record_partial_success-LatestKept next f p =
      (ground (arith, eq_iff next.latest_tag "", eq_iff p.state.latest_tag ""), ground arith)

  record_total_failure-IsObserved :
      (f : Failure) (p : Poller W)
      → IsDerived p.state
      → IsObserved p.state.ready (record_total_failure rt f p)
  unfolding record_total_failure
  record_total_failure-IsObserved f p d = record {
    derived = d;
    stays_ready = ground arith;
    reported = inr (classify f, refl, classify-is_classified f, refl);
  }

  keep_latest-last_error :
      (prior next : Status) → (keep_latest prior next).last_error ≡ next.last_error
  unfolding keep_latest
  keep_latest-last_error prior next = ground arith

  keep_latest-ready : (prior next : Status) → (keep_latest prior next).ready ≡ next.ready
  unfolding keep_latest
  keep_latest-ready prior next = ground arith

  record_partial_success-IsObserved :
      (b : Bool) (next : Status) (f : Failure) (p : Poller W)
      → IsObserved b (record_partial_success rt next f p)
  unfolding record_partial_success
  record_partial_success-IsObserved b next f p =
      unfold derive_partial in
      record {
        derived = derive_partial-IsDerived (
            keep_latest p.state (record next {
              ready = true;
              last_checked = (rt.now p.world).0;
              last_error = truncate_error (classify f).message;
            }));
        stays_ready = ground (arith, keep_latest-ready p.state);
        reported =
            inr (classify f, refl, classify-is_classified f, keep_latest-last_error p.state _);
      }

  finish-IsObserved : (b : Bool) (next : Status) (p : Poller W) → IsObserved b (finish rt next p)
  unfolding finish derive
  finish-IsObserved b next p = record {
    derived = derive-IsDerived next;
    stays_ready = ground arith;
    reported = inl (refl, refl);
  }

  head_latest-IsObserved :
      (b : Bool) (latest : String) (next : Status) (p : Poller W)
      → IsObserved b (head_latest rt latest next p)
  unfolding head_latest
  head_latest-IsObserved b latest next p =
      let asked = rt.head_manifest (record p.parsed { tag = latest; digest = "" }) p.world in
      finish-IsObserved b (with_latest rt latest asked.0 next) (record p { world = asked.1 })

  compare_latest-IsObserved :
      (b : Bool) (current : Version) (latest : Option String) (next : Status) (p : Poller W)
      → IsObserved b (compare_latest rt current latest next p)
  unfolding compare_latest
  compare_latest-IsObserved b current none next p = finish-IsObserved b next p
  compare_latest-IsObserved b current (some latest) next p =
      choose (is_newer rt (parse_semver_prefix latest) current)
    where
      choose :
          (c : Bool) → IsObserved b (if c then head_latest rt latest next p else finish rt next p)
      choose true = head_latest-IsObserved b latest next p
      choose false = finish-IsObserved b next p

  after_tags-IsObserved :
      (b : Bool) (current : Version) (tags : Answer (List String)) (next : Status) (p : Poller W)
      → IsObserved b (after_tags rt current tags next p)
  unfolding after_tags
  after_tags-IsObserved b current (failed f) next p =
      record_partial_success-IsObserved b next (wrap list_tags_prefix f) p
  after_tags-IsObserved b current (answered tags) next p =
      compare_latest-IsObserved b current (latest_semver_tag tags current.suffix) next p

  semver_branch-IsObserved :
      (b : Bool) (current : Option Version) (next : Status) (p : Poller W)
      → IsObserved b (semver_branch rt current next p)
  unfolding semver_branch
  semver_branch-IsObserved b none next p = finish-IsObserved b next p
  semver_branch-IsObserved b (some current) next p =
      after_tags-IsObserved b current (rt.list_tags p.parsed p.world).0 next _

  after_local-IsObserved :
      (b : Bool) (local : Answer String) (next : Status) (p : Poller W)
      → IsObserved b (after_local rt local next p)
  unfolding after_local
  after_local-IsObserved b (failed f) next p =
      record_partial_success-IsObserved b next (wrap local_digest_prefix f) p
  after_local-IsObserved b (answered digest) next p =
      semver_branch-IsObserved b (parse_semver_prefix p.parsed.tag) _ p

  local_branch-IsObserved :
      (b : Bool) (ask : Option (W → Answer String × W)) (next : Status) (p : Poller W)
      → IsObserved b (local_branch rt ask next p)
  unfolding local_branch
  local_branch-IsObserved b none next p =
      semver_branch-IsObserved b (parse_semver_prefix p.parsed.tag) next p
  local_branch-IsObserved b (some ask) next p = after_local-IsObserved b (ask p.world).0 next _

  after_head-IsObserved :
      (head : Answer String) (p : Poller W)
      → IsDerived p.state
      → IsObserved p.state.ready (after_head rt head p)
  unfolding after_head
  after_head-IsObserved (failed f) p d = record_total_failure-IsObserved f p d
  after_head-IsObserved (answered digest) p d =
      local_branch-IsObserved p.state.ready rt.local_digest _ p

  IsObserved-tick :
      (p : Poller W) → p.enabled ≡ true → IsDerived p.state → IsObserved p.state.ready (tick rt p)
  unfolding tick
  IsObserved-tick p e d = choose p.enabled (str_eq p.parsed.registry "") e
    where
      choose :
          (on unparsed : Bool)
          → on ≡ true
          → IsObserved p.state.ready (
              if not on
              then (none, p)
              else (if unparsed
                  then record_total_failure rt
                      (record { is_classified = false; message = rt.unparseable p.configured_ref })
                      p
                  else after_head rt
                      (rt.head_manifest p.parsed p.world).0
                      (record p { world = (rt.head_manifest p.parsed p.world).1 })))
      choose false unparsed off = cc
      choose true true on =
          record_total_failure-IsObserved
            (record { is_classified = false; message = rt.unparseable p.configured_ref }) p d
      choose true false on =
          after_head-IsObserved (rt.head_manifest p.parsed p.world).0
            (record p { world = (rt.head_manifest p.parsed p.world).1 }) d

  -- After every tick of an enabled poller the status announces an update exactly where it has a latest
  -- tag or two known digests that differ, is ready if it was before, and has the error of the tick,
  -- which is classified, or ""; and a partial success keeps the latest tag and its digest of before
  -- where the tick has none.
  pub tick-IsObserved :
      (p : Poller W)
      → p.enabled ≡ true
      → IsDerived p.state
      → (next : Status) (f : Failure)
      → IsObserved p.state.ready (tick rt p)
        × LatestKept p.state next (record_partial_success rt next f p).1.state
  tick-IsObserved p e d next f = (IsObserved-tick p e d, record_partial_success-LatestKept next f p)

cut_bounded :
    (line : List ℕ) (short : Bool)
    → leb (length line) max_error_runes ≡ short
    → length (if short then line else take max_error_runes line ++ ellipsis) ≤ 123
cut_bounded line true e = ground arith
cut_bounded line false e =
    rw (length-append (take max_error_runes line) ellipsis)
      (rw (length-take max_error_runes line) (omega arith))

-- An error in the status is at most 123 bytes long: the 120 that are kept and the ellipsis.
pub truncate_error_bounded : (message : List ℕ) → length (truncate_error message) ≤ 123
unfolding truncate_error
truncate_error_bounded message =
    cut_bounded (first_line message) (leb (length (first_line message)) max_error_runes) refl
