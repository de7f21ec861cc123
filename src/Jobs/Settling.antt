-- ===== src/Jobs/Settling.antt =====
-- internal/provisioner/create.go, processJobLifecycle: what the database keeps of a run.
use selfservice_api.Base.{
  ℕ, ◌+◌, ◌≡◌, refl, ◌∙◌, not, inl, inr, str_eq, List, [], ◌∷◌, ◌++◌, ◌&&◌, Option-cases, Option,
  none, some, Bool, true, false, String, arith, ltb, if◌then◌else◌,
}
use selfservice_api.Retry.{JobError}
use selfservice_api.Jobs.{
  Job, Setup, CleanupRound, Replies, JobCall, mark_in_progress, mark_completed, mark_failed,
  retry_job, retry_template, fail_template, note_retry, note_exhausted, note_transition,
  note_duration, JobResult, succeeded, failed, is_template_job_type, classify_placement,
}
use selfservice_api.Jobs.Verdict.{Verdict, verdict_of}
use selfservice_api.Jobs.Process.{
  Ending, published, metered, scheduled, before, paused, persist_cleanup, failure_event,
  fail_template_job, fail_job, schedule_template, schedule_job, handle_error, finish_job,
  and_duration, process_job,
}

-- A write that takes the job out of the worker's hands, and succeeded.
abbrev pub settles : JobCall → ℕ
settles (mark_completed true) = 1
settles (mark_failed true) = 1
settles (retry_job _ _ true) = 1
settles (retry_template _ true) = 1
settles (fail_template true) = 1
settles _ = 0

unfoldable pub settled : List JobCall → ℕ
settled [] = 0
settled (c ∷ cs) = settles c + settled cs

abbrev pub expected : JobResult → ℕ
expected succeeded = 1
expected (failed _) = 1
expected _ = 0

pub settled-append : (cs ds : List JobCall) → settled (cs ++ ds) ≡ settled cs + settled ds
unfolding settled
settled-append [] ds = omega arith
settled-append (c ∷ cs) ds = ground (arith, settled-append cs ds)

record IsSettled (e : Ending) : Type 0 where
  agrees : settled e.1 ≡ expected e.0

if-IsSettled :
    (b : Bool) (x y : Ending)
    → (b ≡ true → IsSettled x)
    → (b ≡ false → IsSettled y)
    → IsSettled (if b then x else y)
if-IsSettled true x y h g = h refl
if-IsSettled false x y h g = g refl

before-IsSettled :
    (cs : List JobCall) (e : Ending) → settled cs ≡ 0 → IsSettled e → IsSettled (before cs e)
before-IsSettled cs (result, ds) h g = record {
  agrees = ground (arith, settled-append cs ds, h, g.agrees);
}

quiet_published : (s : Setup) (event : String) → settled (published s event) ≡ 0
unfolding settled
quiet_published s event = ground arith

quiet_metered : (s : Setup) (c : JobCall) → settles c ≡ 0 → settled (metered s c) ≡ 0
unfolding settled
quiet_metered s c h = ground (arith, h)

quiet_scheduled : (s : Setup) (reason : String) → settled (scheduled s reason) ≡ 0
quiet_scheduled s reason = ground (
  arith,
  settled-append (metered s (note_retry reason)) (published s "retry_scheduled"),
  quiet_metered s (note_retry reason) refl,
  quiet_published s "retry_scheduled",
)

quiet_append : (cs ds : List JobCall) → settled cs ≡ 0 → settled ds ≡ 0 → settled (cs ++ ds) ≡ 0
quiet_append cs ds h g = ground (arith, settled-append cs ds, h, g)

quiet_if : (b : Bool) (cs : List JobCall) → settled cs ≡ 0 → settled (if b then cs else []) ≡ 0
unfolding settled
quiet_if true cs h = h
quiet_if false cs h = refl

dispatch-IsSettled :
    (o : Option JobError) (y : Ending) (f : JobError → Ending)
    → IsSettled y
    → ((err : JobError) → IsSettled (f err))
    → IsSettled (elim o [ some err ↦ f err | none ↦ y ])
dispatch-IsSettled none y f h g = h
dispatch-IsSettled (some err) y f h g = g err

quiet_paused : (failures : ℕ) → settled (paused failures) ≡ 0
unfolding settled
quiet_paused failures = ground arith

-- One write after calls that settle nothing, and more such calls after it.
one_write :
    (cs ds : List JobCall) (c : JobCall)
    → settled cs ≡ 0
    → settled ds ≡ 0
    → settled (cs ++ c ∷ ds) ≡ settles c
unfolding settled
one_write cs ds c h g = ground (arith, settled-append cs (c ∷ ds), h, g)

module _ (s : Setup) (job : Job) where
  cleanup-IsSettled :
      (reason : String) (failures : ℕ) (cs : List CleanupRound)
      → IsSettled (persist_cleanup s job reason failures cs)
  unfolding persist_cleanup settled
  cleanup-IsSettled reason failures [] = record { agrees = refl }
  cleanup-IsSettled reason failures (c ∷ cs) =
      let ih = cleanup-IsSettled reason (failures + 1) cs in
      if-IsSettled (ltb 0 failures && c.stopped) _ _
        (λ _. record { agrees = quiet_paused failures })
        (λ _.
          if-IsSettled c.written _ _
            (λ e. record {
              agrees =
                  one_write (paused failures) (scheduled s reason) _ (quiet_paused failures)
                    (quiet_scheduled s reason)
                  ∙ ground (arith, e);
            })
            (λ e.
              before-IsSettled _ _
                (one_write (paused failures) [] _ (quiet_paused failures) refl ∙ ground (arith, e))
                ih))

  fail_template-IsSettled :
      (r : Replies) (err : JobError) (exhausted : Bool)
      → IsSettled (fail_template_job s r err exhausted)
  unfolding fail_template_job settled
  fail_template-IsSettled r err exhausted =
      if-IsSettled (not s.template_store) _ _ (λ _. record { agrees = refl })
        (λ _. elim (Option-cases r.template_failed) [
          | inl e ↦ rw e (record { agrees = refl })
          | inr (transitioned, e) ↦ rw e (record {
            agrees = ground (
              arith,
              quiet_append _ _ (quiet_if transitioned _ (quiet_metered s note_transition refl)) (
                  quiet_append _ _ (quiet_if exhausted _ (quiet_metered s note_exhausted refl))
                    (quiet_published s (failure_event err))),
            );
          })
        ])

  fail_job-IsSettled :
      (r : Replies) (err : JobError) (v : Verdict) → IsSettled (fail_job s job r err v)
  unfolding fail_job settled
  fail_job-IsSettled r err v =
      if-IsSettled (str_eq job.job_type "template_provision") _ _
        (λ _. fail_template-IsSettled r err _)
        (λ _. before-IsSettled _ _ (quiet_if _ _ (quiet_metered s note_exhausted refl)) (
          if-IsSettled r.failed_set _ _
            (λ _. record { agrees = ground (arith, quiet_published s (failure_event err)) })
            (λ _. record { agrees = refl })))

  schedule_template-IsSettled :
      (r : Replies) (reason : String) → IsSettled (schedule_template s job r reason)
  unfolding schedule_template settled
  schedule_template-IsSettled r reason =
      if-IsSettled (not s.template_store) _ _ (λ _. record { agrees = refl })
        (λ _.
          if-IsSettled r.template_retry_set _ _
            (λ _. record { agrees = ground (arith, quiet_scheduled s reason) })
            (λ _. record { agrees = refl }))

  schedule_job-IsSettled :
      (r : Replies) (err : JobError) (v : Verdict) → IsSettled (schedule_job s job r err v)
  unfolding schedule_job settled
  schedule_job-IsSettled r err v =
      if-IsSettled v.cleanup_only _ _ (λ _. cleanup-IsSettled v.reason 0 r.cleanup_rounds)
        (λ _.
          if-IsSettled (str_eq job.job_type "template_provision") _ _
            (λ _. schedule_template-IsSettled r v.reason)
            (λ _.
              if-IsSettled r.retry_set _ _
                (λ _. record { agrees = ground (arith, quiet_scheduled s v.reason) })
                (λ _.
                  before-IsSettled (retry_job false _ false ∷ []) _ refl
                    (fail_job-IsSettled r err v))))

  handle_error-IsSettled : (r : Replies) (err : JobError) → IsSettled (handle_error s job r err)
  unfolding handle_error
  handle_error-IsSettled r err =
      let v = verdict_of job r err in
      if-IsSettled (v.retryable && v.available) _ _ (λ _. schedule_job-IsSettled r err v)
        (λ _. fail_job-IsSettled r err v)

  finish_job-IsSettled : (r : Replies) → IsSettled (finish_job s job r)
  unfolding finish_job settled
  finish_job-IsSettled r =
      dispatch-IsSettled r.dispatched _ _
        (if-IsSettled r.completed_set _ _
          (λ _. record { agrees = ground (arith, quiet_published s "completed") })
          (λ _. record { agrees = refl }))
        (λ err. handle_error-IsSettled r (classify_placement err))

  duration-IsSettled : (e : Ending) → IsSettled e → IsSettled (and_duration s job e)
  duration-IsSettled (result, cs) h = record {
    agrees = ground (
      arith,
      settled-append cs (if is_template_job_type job.job_type then metered s note_duration else []),
      quiet_if (is_template_job_type job.job_type) _ (quiet_metered s note_duration refl),
      h.agrees,
    );
  }

  process_job-IsSettled : (r : Replies) → IsSettled (process_job s job r)
  unfolding process_job settled
  process_job-IsSettled r =
      if-IsSettled (not job.claimed) _ _ (λ _. record { agrees = refl })
        (λ _.
          if-IsSettled r.in_progress_set _ _
            (λ _.
              before-IsSettled (mark_in_progress true ∷ published s "started") _
                (ground (arith, quiet_published s "started"))
                (duration-IsSettled _ (finish_job-IsSettled r)))
            (λ _. record { agrees = refl }))

  -- Whatever the database answers, the writes of a run that succeed take the job out of the worker's
  -- hands exactly once if the run returns nil or the job's own error, and never if it returns
  -- another error or is still trying to schedule a clean-up.
  pub process_job-settled :
      (r : Replies) → settled (process_job s job r).1 ≡ expected (process_job s job r).0
  process_job-settled r = (process_job-IsSettled r).agrees
