-- ===== src/Retry.antt =====
-- internal/provisioner/retryable.go: which failed jobs are tried again, and after how long.
-- An error is its text, as code points, with the answers of errors.Is and errors.As that the code
-- asks for. A duration is in nanoseconds.
pub mod Phrases
pub mod Classify
pub mod Backoff
pub mod Search
pub mod Mentions
pub mod Retried
mod Tests
use selfservice_api.Base.{
  ℕ, ◌+◌, ◌≤◌, List, [], ◌∷◌, map, Bool, true, false, ◌&&◌, ◌||◌, leb, ◌==◌, if◌then◌else◌, String,
}
use Prim.Native.Char.{code}

pub record JobError : Type 0 where
  -- database.ErrPodDestroyBlockedByMutator
  pub blocked_by_mutator : Bool
  -- *compensatedJobError
  pub compensated : Bool
  -- *manualCleanupRequiredError
  pub manual_cleanup : Bool
  -- *compensationRetryError
  pub compensation_retry : Bool
  -- isPodCreateCleanupRetry
  pub pod_create_cleanup_retry : Bool
  -- database.ErrJobLeaseLost
  pub job_lease_lost : Bool
  -- vcenter.ErrPlacementValidationUnavailable
  pub placement_unavailable : Bool
  -- errVMPlacementCapacityRelease
  pub capacity_release : Bool
  -- vcenter.ErrPlacementDrift, vcenter.ErrDRSControlDrift
  pub placement_drift : Bool
  pub drs_control_drift : Bool
  -- database.ErrTemplateReplicaBuildJobObsolete
  pub build_obsolete : Bool
  pub text : List ℕ

abbrev pub codes : String → List ℕ
codes String.[] = []
codes (String.◌∷◌ c s) = code c ∷ codes s

-- strings.ToLower on one code point: outside ASCII only the two that become ASCII letters matter
-- to a search for ASCII text, the others stay outside.
abbrev pub lower : ℕ → ℕ
lower c =
    if leb b'A' c && leb c b'Z'
    then c + 32
    else if c == 0x212a
    then b'k'
    else if c == 0x130
    then b'i'
    else c

unfoldable pub to_lower : List ℕ → List ℕ
to_lower s = map lower s

unfoldable pub has_prefix : List ℕ → List ℕ → Bool
has_prefix s [] = true
has_prefix [] (p ∷ ps) = false
has_prefix (c ∷ s) (p ∷ ps) = c == p && has_prefix s ps

-- strings.Contains
unfoldable pub contains : List ℕ → List ℕ → Bool
contains [] p = has_prefix [] p
contains (c ∷ s) p = has_prefix (c ∷ s) p || contains s p

-- The loops over a list of phrases: whether the text, or its small form, holds one of them.
unfoldable pub contains_any : List ℕ → List String → Bool
contains_any s [] = false
contains_any s (p ∷ ps) = contains s (codes p) || contains_any s ps

unfoldable pub contains_any_folded : List ℕ → List String → Bool
contains_any_folded s [] = false
contains_any_folded s (p ∷ ps) =
    contains (to_lower s) (to_lower (codes p)) || contains_any_folded s ps
