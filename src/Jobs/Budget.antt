-- ===== src/Jobs/Budget.antt =====
-- internal/provisioner/create.go, processJobLifecycle: how often a job is tried.
use selfservice_api.Base.{
  ℕ, ◌+◌, ◌<◌, ◌≡◌, refl, ◌∙◌, inl, inr, List, [], ◌∷◌, ◌++◌, Option, none, some, Bool, true, false,
  not, ◌&&◌, ◌||◌, String, str_eq, arith, if◌then◌else◌, Option-cases,
}
use selfservice_api.Retry.{JobError}
use selfservice_api.Jobs.{
  Job, Setup, Replies, JobCall, mark_completed, mark_failed, fail_template, retry_job,
  retry_template, note_duration, is_template_job_type, is_compensation_retry, classify_placement,
  image_import_retry_budget, image_import_retry_within_budget,
}
use selfservice_api.Jobs.Verdict.{Verdict, retry_available, verdict_of}
use selfservice_api.Jobs.Process.{
  Ending, published, metered, failure_event, fail_template_job, fail_job, handle_error, finish_job,
  process_job,
}

abbrev pub is_retry : JobCall → Bool
is_retry (retry_job _ _ _) = true
is_retry (retry_template _ _) = true
is_retry _ = false

-- Whether a write was tried that puts the job back to be claimed again; one that returned an error may
-- have been made.
unfoldable pub is_retried : List JobCall → Bool
is_retried [] = false
is_retried (c ∷ cs) = is_retry c || is_retried cs

is_retried-append :
    (cs ds : List JobCall) → is_retried (cs ++ ds) ≡ (is_retried cs || is_retried ds)
unfolding is_retried
is_retried-append [] ds = refl
is_retried-append (c ∷ cs) ds = ground (arith, is_retried-append cs ds)

unretried_append :
    (cs ds : List JobCall)
    → is_retried cs ≡ false
    → is_retried ds ≡ false
    → is_retried (cs ++ ds) ≡ false
unretried_append cs ds h g = ground (arith, is_retried-append cs ds, h, g)

unretried_published : (s : Setup) (event : String) → is_retried (published s event) ≡ false
unfolding is_retried
unretried_published s event = ground arith

unretried_if :
    (b : Bool) (cs : List JobCall)
    → is_retried cs ≡ false
    → is_retried (if b then cs else []) ≡ false
unfolding is_retried
unretried_if true cs h = h
unretried_if false cs h = refl

module _ (s : Setup) where
  unretried_fail_template :
      (r : Replies) (err : JobError) (exhausted : Bool)
      → is_retried (fail_template_job s r err exhausted).1 ≡ false
  unfolding fail_template_job is_retried
  unretried_fail_template r err exhausted =
      grind (arith, is_retried-append, unretried_published s (failure_event err))

  unretried_fail :
      (job : Job) (r : Replies) (err : JobError) (v : Verdict)
      → is_retried (fail_job s job r err v).1 ≡ false
  unfolding fail_job is_retried
  unretried_fail job r err v = grind (
    arith,
    is_retried-append,
    unretried_published s (failure_event err),
    unretried_fail_template r err (v.retryable && not v.cleanup_only && not v.available),
  )

  -- A retry needs the verdict that allows it.
  unretried_error :
      (job : Job) (r : Replies) (err : JobError)
      → ((verdict_of job r err).retryable && (verdict_of job r err).available) ≡ false
      → is_retried (handle_error s job r err).1 ≡ false
  unfolding handle_error
  unretried_error job r err h = rw h (unretried_fail job r err (verdict_of job r err))

  retried_finish :
      (job : Job) (r : Replies)
      → is_retried (process_job s job r).1 ≡ true
      → is_retried (finish_job s job r).1 ≡ true
  unfolding process_job is_retried
  retried_finish job r h = grind (
    arith,
    is_retried-append,
    unretried_published,
    is_retried-append (finish_job s job r).1
        (if is_template_job_type job.job_type then metered s note_duration else []),
    h,
  )

  retried_dispatch :
      (o : Option JobError) (y : Ending) (f : JobError → Ending)
      → is_retried y.1 ≡ false
      → is_retried (elim o as (λ _. Ending) [ some err ↦ f err | none ↦ y ]).1 ≡ true
      → (err : JobError) × (o ≡ some err) × (is_retried (f err).1 ≡ true)
  retried_dispatch none y f h g = cc
  retried_dispatch (some err) y f h g = (err, refl, g)

  -- A job is put back, or a write tried that would, only for an error whose verdict allows it.
  pub process_job-allowed :
      (job : Job) (r : Replies)
      → is_retried (process_job s job r).1 ≡ true
      → (err : JobError) × (r.dispatched ≡ some err)
        × ((verdict_of job r (classify_placement err)).retryable ≡ true)
        × ((verdict_of job r (classify_placement err)).available ≡ true)
  unfolding finish_job is_retried
  process_job-allowed job r h =
      let (err, e, g) =
        retried_dispatch r.dispatched _ (λ err. handle_error s job r (classify_placement err))
          (ground (arith, unretried_published s "completed")) (retried_finish job r h) in
      (
        err,
        e,
        ground (arith, unretried_error job r (classify_placement err), g),
        ground (arith, unretried_error job r (classify_placement err), g),
      )

-- What RetryJob and RetryTemplateProvisionJob leave of a row that is not a clean-up, once it is
-- claimed again.
abbrev pub retried_job : Job → Job
retried_job job = record job { retry_count = job.retry_count + 1 }

-- What becomes of the row after a run: a retry write that was tried has put it back; its lease expires
-- while it is still in progress, and RecoverStaleJobs makes it pending again, with its count as it
-- was; or it is not claimed again.
pub data Sequel : Type 0 where
  put_back recovered ended : Sequel

-- RecoverStaleJobs leaves a row that is completed or failed.
abbrev pub is_settling : JobCall → Bool
is_settling (mark_completed true) = true
is_settling (mark_failed true) = true
is_settling (fail_template true) = true
is_settling _ = false

unfoldable pub is_settled : List JobCall → Bool
is_settled [] = false
is_settled (c ∷ cs) = is_settling c || is_settled cs

-- How often the job is run, if the runs get these answers and have these sequels.
unfoldable pub attempts : Setup → Job → List (Replies × Sequel) → ℕ
attempts s job [] = 0
attempts s job ((r, put_back) ∷ rs) =
    let rest = attempts s (retried_job job) rs in
    1 + (if is_retried (process_job s job r).1 then rest else 0)
attempts s job ((r, recovered) ∷ rs) =
    let rest = attempts s job rs in 1 + (if is_settled (process_job s job r).1 then 0 else rest)
attempts s job ((r, ended) ∷ rs) = 1

-- How many runs of the history RecoverStaleJobs follows.
unfoldable pub recoveries : List (Replies × Sequel) → ℕ
recoveries [] = 0
recoveries ((r, recovered) ∷ rs) = 1 + recoveries rs
recoveries ((r, _) ∷ rs) = recoveries rs

-- The job's error asks for no clean-up.
abbrev pub IsPlain : Replies → Type 0
IsPlain r = (err : JobError) → r.dispatched ≡ some err → is_compensation_retry err ≡ false

-- Neither a clean-up nor an import.
abbrev pub IsOrdinary : Job → Type 0
IsOrdinary job = (job.cleanup_only ≡ false) × (str_eq job.job_type "image_import" ≡ false)

placement_keeps :
    (err : JobError) → is_compensation_retry (classify_placement err) ≡ is_compensation_retry err
unfolding classify_placement
placement_keeps err = ground arith

within_budget :
    (job : Job) (r : Replies) (err : JobError)
    → str_eq job.job_type "image_import" ≡ true
    → job.cleanup_only ≡ false
    → is_compensation_retry err ≡ false
    → (verdict_of job r err).available ≡ true
    → (t : ℕ) × (job.created_at ≡ some t) × (r.now < t + image_import_retry_budget)
unfolding verdict_of retry_available image_import_retry_within_budget
within_budget job r err i c n a = elim (Option-cases job.created_at) [
  | inl e ↦ absurd (ground (arith, i, c, n, a, e))
  | inr (t, e) ↦ (t, e, ground (arith, i, c, n, a, e))
]

-- An image import whose error asks for no clean-up is put back only within an hour of its creation,
-- however often it was tried.
pub import_within_budget :
    (s : Setup) (job : Job) (r : Replies)
    → str_eq job.job_type "image_import" ≡ true
    → job.cleanup_only ≡ false
    → IsPlain r
    → is_retried (process_job s job r).1 ≡ true
    → (t : ℕ) × (job.created_at ≡ some t) × (r.now < t + image_import_retry_budget)
import_within_budget s job r i c n h =
    let (err, e, _, a) = process_job-allowed s job r h in
    within_budget job r (classify_placement err) i c (placement_keeps err ∙ n err e) a
