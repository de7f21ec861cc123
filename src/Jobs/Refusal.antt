-- ===== src/Jobs/Refusal.antt =====
-- internal/provisioner/create.go, processJobLifecycle: which failures are not tried again, and what
-- jobRetryAvailable foretells.
use selfservice_api.Base.{◌≡◌, sym, ◌∙◌, inl, inr, some, true, false, ◌&&◌, ◌||◌, arith, Bool-cases}
use mathlib.Core.Option.{some_inj}
use selfservice_api.Retry.{JobError}
use selfservice_api.Retry.Classify.{classify_error, classify_marked}
use selfservice_api.Jobs.{
  Job, Setup, Replies, is_compensation_retry, classify_placement, job_retry_available,
}
use selfservice_api.Jobs.Verdict.{retry_available, verdict_of}
use selfservice_api.Jobs.Process.{process_job}
use selfservice_api.Jobs.Budget.{is_retried, IsOrdinary, process_job-allowed}

by_hand :
    (job : Job) (r : Replies) (err : JobError)
    → err.blocked_by_mutator ≡ false
    → is_compensation_retry err ≡ false
    → (err.compensated || err.manual_cleanup || err.placement_drift || err.drs_control_drift) ≡ true
    → (verdict_of job r (classify_placement err)).retryable ≡ false
unfolding verdict_of classify_placement classify_error classify_marked
by_hand job r err b c h = ground (arith, b, c, h)

-- A job whose error was compensated, or needs clean-up by hand, or shows a drift of the placement,
-- is not put back, not even when it is a clean-up, unless a mutator blocks it or it asks for another
-- clean-up.
pub process_job-by_hand :
    (s : Setup) (job : Job) (r : Replies) (err : JobError)
    → r.dispatched ≡ some err
    → err.blocked_by_mutator ≡ false
    → is_compensation_retry err ≡ false
    → (err.compensated || err.manual_cleanup || err.placement_drift || err.drs_control_drift) ≡ true
    → is_retried (process_job s job r).1 ≡ false
process_job-by_hand s job r err d b c h = elim (Bool-cases (is_retried (process_job s job r).1)) [
  | inr e ↦ e
  | inl e ↦
      let (err', e', a, _) = process_job-allowed s job r e in
      let same = some_inj.0 (sym d ∙ e') in
      absurd (ground (arith, a, same, by_hand job r err b c h))
]

-- jobRetryAvailable, which the bodies of the jobs ask, foretells the worker: for an error that is a
-- plain failure of a job that is neither a clean-up nor an import, it is the worker's own verdict.
pub job_retry_available-verdict_of :
    (job : Job) (r : Replies) (err : JobError)
    → IsOrdinary job
    → is_compensation_retry err ≡ false
    → job_retry_available job err
      ≡ ((verdict_of job r err).retryable && (verdict_of job r err).available)
unfolding job_retry_available verdict_of retry_available
job_retry_available-verdict_of job r err (c, i) n = ground (arith, c, i, n)
