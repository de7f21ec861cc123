-- ===== src/Jobs.antt =====
-- internal/provisioner/create.go, processJobLifecycle: how the worker ends a job, and the calls it
-- makes of the database, the metrics and the event stream.
pub mod Verdict
pub mod Process
pub mod Settling
pub mod Budget
pub mod Refusal
pub mod Writes
pub mod Cleanup
pub mod Failure
mod Tests
use selfservice_api.Base.{
  ℕ, ◌+◌, ◌*◌, List, Option, none, some, Bool, true, false, not, ◌&&◌, ◌||◌, ltb, String, str_eq,
  if◌then◌else◌,
}
use selfservice_api.Retry.{JobError}
use selfservice_api.Retry.Classify.{classify_error}
use selfservice_api.Retry.Backoff.{seconds}

pub record Job : Type 0 where
  pub job_type : String
  pub retry_count : ℕ
  pub max_retries : ℕ
  -- `cleanup_only` of its payload.
  pub cleanup_only : Bool
  -- `none` is the zero time.
  pub created_at : Option ℕ
  -- claimedJobLease finds an owner and a time.
  pub claimed : Bool

-- What the worker was given: the metrics and the event stream may be nil, and the database may lack
-- the calls for template jobs.
pub record Setup : Type 0 where
  pub pipeline : Bool
  pub publish : Bool
  pub template_store : Bool

-- One round of persistCleanupRetry: the worker stopped during the pause before it, the time, the
-- random number, and whether RetryJob succeeded.
pub record CleanupRound : Type 0 where
  pub stopped : Bool
  pub now : ℕ
  pub jitter : Option ℕ
  pub written : Bool

-- The answers of the calls, in the order of the code. A database call answers whether it succeeded.
pub record Replies : Type 0 where
  pub in_progress_set : Bool
  -- The error of the job's own body.
  pub dispatched : Option JobError
  pub completed_set : Bool
  pub now : ℕ
  pub jitter : Option ℕ
  pub retry_set : Bool
  pub template_retry_set : Bool
  pub cleanup_rounds : List CleanupRound
  -- `none` is an error of FailTemplateProvisionJob.
  pub template_failed : Option Bool
  pub failed_set : Bool

-- A write carries whether it succeeded.
pub data JobCall : Type 0 where
  mark_in_progress : Bool → JobCall
  mark_completed : Bool → JobCall
  mark_failed : Bool → JobCall
  retry_job : Bool → ℕ → Bool → JobCall
  retry_template : ℕ → Bool → JobCall
  fail_template : Bool → JobCall
  pause : ℕ → JobCall
  note_retry : String → JobCall
  note_exhausted : JobCall
  note_transition : JobCall
  note_duration : JobCall
  publish_event : String → JobCall

-- The returned error; `succeeded` is nil. `still_scheduling` is a clean-up retry that has run out of
-- rounds and not returned.
pub data JobResult : Type 0 where
  succeeded : JobResult
  failed : JobError → JobResult
  not_claimed in_progress_failed completed_failed no_template_store : JobResult
  template_retry_failed cleanup_not_scheduled still_scheduling : JobResult
  template_fail_failed fail_failed : JobResult

abbrev pub image_import_retry_budget : ℕ
image_import_retry_budget = 3600 * seconds

unfoldable pub image_import_retry_within_budget : Job → ℕ → Bool
image_import_retry_within_budget job now =
    str_eq job.job_type "image_import" && elim job.created_at [
      | none ↦ false
      | some created_at ↦ ltb now (created_at + image_import_retry_budget)
    ]

unfoldable pub is_template_job_type : String → Bool
is_template_job_type t =
    str_eq t "template_provision"
    || str_eq t "template_generalize"
    || str_eq t "template_verify"
    || str_eq t "template_revalidate"
    || str_eq t "template_health_confirm"
    || str_eq t "template_replica_build"

abbrev pub is_compensation_retry : JobError → Bool
is_compensation_retry err = err.compensation_retry || err.pod_create_cleanup_retry

-- classifyPlacementValidationFailure: a drift needs clean-up by hand.
unfoldable pub classify_placement : JobError → JobError
classify_placement err =
    if err.manual_cleanup || is_compensation_retry err || err.compensated
    then err
    else if err.placement_drift || err.drs_control_drift
    then record err { manual_cleanup = true }
    else err

unfoldable pub job_retry_available : Job → JobError → Bool
job_retry_available job err =
    (classify_error (some err) job.job_type).0 && ltb job.retry_count job.max_retries
