-- ===== src/Jobs/Process.antt =====
-- internal/provisioner/create.go, processJobLifecycle and persistCleanupRetry.
use selfservice_api.Base.{
  ℕ, ◌+◌, List, [], ◌∷◌, ◌++◌, none, some, Bool, true, false, not, ◌&&◌, ltb, String, str_eq,
  if◌then◌else◌,
}
use selfservice_api.Retry.{JobError}
use selfservice_api.Retry.Backoff.{retry_backoff, cleanup_reschedule_backoff}
use selfservice_api.Jobs.{
  Job, Setup, CleanupRound, Replies, JobCall, mark_in_progress, mark_completed, mark_failed,
  retry_job, retry_template, fail_template, pause, note_retry, note_exhausted, note_transition,
  note_duration, publish_event, JobResult, succeeded, failed, not_claimed, in_progress_failed,
  completed_failed, no_template_store, template_retry_failed, cleanup_not_scheduled,
  still_scheduling, template_fail_failed, fail_failed, is_template_job_type, classify_placement,
}
use selfservice_api.Jobs.Verdict.{Verdict, verdict_of}

abbrev pub Ending : Type 0
Ending = JobResult × List JobCall

abbrev pub published : Setup → String → List JobCall
published s event = if s.publish then publish_event event ∷ [] else []

abbrev pub metered : Setup → JobCall → List JobCall
metered s call = if s.pipeline then call ∷ [] else []

abbrev pub scheduled : Setup → String → List JobCall
scheduled s reason = metered s (note_retry reason) ++ published s "retry_scheduled"

abbrev pub before : List JobCall → Ending → Ending
before cs (result, ds) = (result, cs ++ ds)

-- The timer before every write but the first.
abbrev pub paused : ℕ → List JobCall
paused failures = if ltb 0 failures then pause (cleanup_reschedule_backoff failures) ∷ [] else []

-- The loop of persistCleanupRetry, then what its caller does with its end.
unfoldable pub persist_cleanup : Setup → Job → String → ℕ → List CleanupRound → Ending
persist_cleanup s job reason failures [] = (still_scheduling, [])
persist_cleanup s job reason failures (c ∷ cs) =
    let rest = persist_cleanup s job reason (failures + 1) cs in
    let write = retry_job true (c.now + retry_backoff job.retry_count c.jitter) c.written in
    if ltb 0 failures && c.stopped
    then (cleanup_not_scheduled, paused failures)
    else if c.written
    then (succeeded, paused failures ++ write ∷ scheduled s reason)
    else before (paused failures ++ write ∷ []) rest

abbrev pub failure_event : JobError → String
failure_event err =
    if err.compensated
    then "compensated"
    else if err.manual_cleanup
    then "manual_cleanup_required"
    else "failed"

unfoldable pub fail_template_job : Setup → Replies → JobError → Bool → Ending
fail_template_job s r err exhausted =
    if not s.template_store then (no_template_store, []) else elim r.template_failed [
      | none ↦ (template_fail_failed, fail_template false ∷ [])
      | some transitioned ↦ (
        failed err,
        fail_template true
            ∷ ((if transitioned then metered s note_transition else [])
                ++ (if exhausted then metered s note_exhausted else [])
                ++ published s (failure_event err)),
      )
    ]

-- The terminal failure.
unfoldable pub fail_job : Setup → Job → Replies → JobError → Verdict → Ending
fail_job s job r err v =
    let exhausted = v.retryable && not v.cleanup_only && not v.available in
    if str_eq job.job_type "template_provision"
    then fail_template_job s r err exhausted
    else before (if exhausted then metered s note_exhausted else []) (
        if r.failed_set
        then (failed err, mark_failed true ∷ published s (failure_event err))
        else (fail_failed, mark_failed false ∷ []))

unfoldable pub schedule_template : Setup → Job → Replies → String → Ending
schedule_template s job r reason =
    let next_at = r.now + retry_backoff job.retry_count r.jitter in
    if not s.template_store
    then (no_template_store, [])
    else if r.template_retry_set
    then (succeeded, retry_template next_at true ∷ scheduled s reason)
    else (template_retry_failed, retry_template next_at false ∷ [])

-- A retry: of a clean-up, of a template job, or of any other job, which fails for good when the
-- write does not succeed.
unfoldable pub schedule_job : Setup → Job → Replies → JobError → Verdict → Ending
schedule_job s job r err v =
    let next_at = r.now + retry_backoff job.retry_count r.jitter in
    if v.cleanup_only
    then persist_cleanup s job v.reason 0 r.cleanup_rounds
    else if str_eq job.job_type "template_provision"
    then schedule_template s job r v.reason
    else if r.retry_set
    then (succeeded, retry_job false next_at true ∷ scheduled s v.reason)
    else before (retry_job false next_at false ∷ []) (fail_job s job r err v)

unfoldable pub handle_error : Setup → Job → Replies → JobError → Ending
handle_error s job r err =
    let v = verdict_of job r err in
    if v.retryable && v.available then schedule_job s job r err v else fail_job s job r err v

unfoldable pub finish_job : Setup → Job → Replies → Ending
finish_job s job r = elim r.dispatched [
  | some err ↦ handle_error s job r (classify_placement err)
  | none ↦
      if r.completed_set
      then (succeeded, mark_completed true ∷ published s "completed")
      else (completed_failed, mark_completed false ∷ [])
]

-- RecordTemplateJob is deferred.
abbrev pub and_duration : Setup → Job → Ending → Ending
and_duration s job (result, cs) =
    (result, cs ++ (if is_template_job_type job.job_type then metered s note_duration else []))

unfoldable pub process_job : Setup → Job → Replies → Ending
process_job s job r =
    if not job.claimed
    then (not_claimed, [])
    else if r.in_progress_set
    then before (mark_in_progress true ∷ published s "started")
        (and_duration s job (finish_job s job r))
    else (in_progress_failed, mark_in_progress false ∷ [])
