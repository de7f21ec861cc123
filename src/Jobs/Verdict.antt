-- ===== src/Jobs/Verdict.antt =====
-- internal/provisioner/create.go, processJobLifecycle: whether a failed job is tried again.
use selfservice_api.Base.{Bool, true, not, ◌&&◌, ◌||◌, some, ltb, String, str_eq, if◌then◌else◌}
use selfservice_api.Retry.{JobError}
use selfservice_api.Retry.Classify.{cleanup, classify_error}
use selfservice_api.Jobs.{Job, Replies, image_import_retry_within_budget, is_compensation_retry}

pub record Verdict : Type 0 where
  pub retryable : Bool
  pub reason : String
  pub cleanup_only : Bool
  pub available : Bool

-- The branch that makes an error of a clean-up retryable.
abbrev pub forced : Bool → JobError → Bool
forced cleanup_only err =
    cleanup_only && not err.build_obsolete && not err.compensated && not err.manual_cleanup

unfoldable pub retry_available : Job → Bool → Replies → Bool
retry_available job cleanup_only r =
    if str_eq job.job_type "image_import" && not cleanup_only
    then image_import_retry_within_budget job r.now
    else cleanup_only || ltb job.retry_count job.max_retries

unfoldable pub verdict_of : Job → Replies → JobError → Verdict
verdict_of job r err =
    let cleanup_only = job.cleanup_only || is_compensation_retry err in
    let answer = classify_error (some err) job.job_type in
    record {
      retryable = if forced cleanup_only err then true else answer.0;
      reason = if forced cleanup_only err then cleanup else answer.1;
      cleanup_only = cleanup_only;
      available = retry_available job cleanup_only r;
    }
