-- ===== src/Jobs/Cleanup.antt =====
-- internal/provisioner/create.go, persistCleanupRetry: a clean-up is put back until that succeeds.
use mathlib.Core.Path.{subst}
use selfservice_api.Base.{
  ℕ, ◌+◌, ◌≡◌, refl, ◌∙◌, ap, List, [], ◌∷◌, ◌++◌, some, Bool, true, false, ◌||◌, ◌&&◌, ltb, length,
  String, arith, All, if◌then◌else◌,
}
use selfservice_api.Retry.{JobError}
use selfservice_api.Retry.Backoff.{retry_backoff}
use selfservice_api.Retry.Classify.{cleanup}
use selfservice_api.Jobs.{
  Job, Setup, CleanupRound, Replies, JobCall, mark_in_progress, is_template_job_type, retry_job,
  note_duration, JobResult, succeeded, cleanup_not_scheduled, still_scheduling,
  is_compensation_retry, classify_placement,
}
use selfservice_api.Jobs.Verdict.{verdict_of, retry_available}
use selfservice_api.Jobs.Writes.{
  HasWrites, IsSame, IsSame-HasWrites, IsSame-after, IsSame-before, IsSilent, IsSilent-append,
  count_writes, duration-IsSilent, either-IsSilent, gives_up, lost_HasWrites, paused-IsSilent,
  published-IsSilent, scheduled-IsSilent, won_HasWrites,
}
use selfservice_api.Jobs.Process.{
  Ending, before, paused, published, metered, scheduled, and_duration, persist_cleanup,
  schedule_job, handle_error, finish_job, process_job,
}

-- The job or its error is a clean-up that is neither done nor left to a person.
pub record IsCleanup (job : Job) (err : JobError) : Type 0 where
  pub cleans : (job.cleanup_only || is_compensation_retry err) ≡ true
  pub wanted : err.build_obsolete ≡ false
  pub undone : err.compensated ≡ false
  pub automatic : err.manual_cleanup ≡ false

-- nil comes with one write that put the job back; any other end with none.
abbrev pub IsAnswered : JobResult → ℕ → Type 0
IsAnswered succeeded n = n ≡ 1
IsAnswered cleanup_not_scheduled n = n ≡ 0
IsAnswered still_scheduling n = n ≡ 0
IsAnswered _ n = ⊥

-- No call of the run ends the job. It returns nil after it has put the job back as a clean-up, once;
-- or the worker was stopped, or is still at it, and the job was not put back.
abbrev pub IsKept : Ending → Type 0
IsKept (result, calls) = (gives_up calls ≡ false) × IsAnswered result (count_writes true calls)

abbrev pub IsLost : CleanupRound → Type 0
IsLost c = (c.stopped ≡ false) × (c.written ≡ false)

abbrev pub IsWritten : CleanupRound → Type 0
IsWritten c = (c.stopped ≡ false) × (c.written ≡ true)

and_false : (b : Bool) → (b && false) ≡ false
and_false true = refl
and_false false = refl

module _ (s : Setup) (job : Job) where
  -- How the loop of persistCleanupRetry ends.
  data Ends : Ending → Type 0 where
    put_back : {cs : List JobCall} {lost : ℕ} → HasWrites cs 1 lost → Ends (succeeded, cs)
    stopped_at :
        {cs : List JobCall} {lost : ℕ} → HasWrites cs 0 lost → Ends (cleanup_not_scheduled, cs)
    goes_on : {cs : List JobCall} {lost : ℕ} → HasWrites cs 0 lost → Ends (still_scheduling, cs)

  keep_Ends :
      (pre : List JobCall) (next_at : ℕ) (r : Ending)
      → IsSilent pre
      → Ends r
      → Ends (before (pre ++ retry_job true next_at false ∷ []) r)
  keep_Ends pre next_at r u (put_back {cs} h) = put_back (lost_HasWrites pre next_at cs u h)
  keep_Ends pre next_at r u (stopped_at {cs} h) = stopped_at (lost_HasWrites pre next_at cs u h)
  keep_Ends pre next_at r u (goes_on {cs} h) = goes_on (lost_HasWrites pre next_at cs u h)

  if-Ends :
      (b : Bool) (x y : Ending)
      → (b ≡ true → Ends x)
      → (b ≡ false → Ends y)
      → Ends (if b then x else y)
  if-Ends true x y f g = f refl
  if-Ends false x y f g = g refl

  silent-HasWrites : (cs : List JobCall) → IsSilent cs → HasWrites cs 0 0
  silent-HasWrites cs (u, m) = record { keeps = u; wins = m true; losses = m false }

  persist_cleanup-Ends :
      (reason : String) (n : ℕ) (cs : List CleanupRound) → Ends (persist_cleanup s job reason n cs)
  unfolding persist_cleanup gives_up count_writes
  persist_cleanup-Ends reason n [] = goes_on (record { keeps = refl; wins = refl; losses = refl })
  persist_cleanup-Ends reason n (c ∷ cs) =
      let next_at = c.now + retry_backoff job.retry_count c.jitter in
      if-Ends (ltb 0 n && c.stopped) _ _
        (λ _. stopped_at (silent-HasWrites (paused n) (paused-IsSilent n)))
        (λ _.
          if-Ends c.written _ _
            (λ e. rw e (
              put_back (
                won_HasWrites (paused n) next_at (scheduled s reason) (paused-IsSilent n)
                  (scheduled-IsSilent s reason))))
            (λ e. rw e (
              keep_Ends (paused n) next_at (persist_cleanup s job reason (n + 1) cs)
                (paused-IsSilent n) (persist_cleanup-Ends reason (n + 1) cs))))

  abbrev IsPutBack : ℕ → Ending → Type 0
  IsPutBack lost (result, calls) = (result ≡ succeeded) × HasWrites calls 1 lost

  keep_IsPutBack :
      (pre : List JobCall) (next_at lost : ℕ) (r : Ending)
      → IsSilent pre
      → IsPutBack lost r
      → IsPutBack (lost + 1) (before (pre ++ retry_job true next_at false ∷ []) r)
  keep_IsPutBack pre next_at lost (result, cs) u (e, h) = (e, lost_HasWrites pre next_at cs u h)

  persist_cleanup-IsPutBack :
      (reason : String) (n : ℕ) (lost : List CleanupRound) (c : CleanupRound)
      (rest : List CleanupRound)
      → All IsLost lost
      → IsWritten c
      → IsPutBack (length lost) (persist_cleanup s job reason n (lost ++ c ∷ rest))
  unfolding persist_cleanup
  persist_cleanup-IsPutBack reason n [] c rest l (a, b) =
      rw (a, b, and_false (ltb 0 n))
        (
          refl,
          won_HasWrites (paused n) (c.now + retry_backoff job.retry_count c.jitter)
              (scheduled s reason) (paused-IsSilent n) (scheduled-IsSilent s reason),
        )
  persist_cleanup-IsPutBack reason n (x ∷ lost) c rest ((a, b), l) w =
      rw (a, b, and_false (ltb 0 n))
        (subst
          (λ k. IsPutBack k (
            before
              (paused n
                ++ retry_job true (x.now + retry_backoff job.retry_count x.jitter) false ∷ [])
              (persist_cleanup s job reason (n + 1) (lost ++ c ∷ rest))))
          (omega arith)
          (keep_IsPutBack (paused n) (x.now + retry_backoff job.retry_count x.jitter) (length lost)
            (persist_cleanup s job reason (n + 1) (lost ++ c ∷ rest)) (paused-IsSilent n)
            (persist_cleanup-IsPutBack reason (n + 1) lost c rest l w)))

  cleanup_error :
      (r : Replies) (err : JobError)
      → IsCleanup job err
      → handle_error s job r err ≡ persist_cleanup s job cleanup 0 r.cleanup_rounds
  unfolding handle_error verdict_of retry_available schedule_job
  cleanup_error r err h = ground (arith, h.cleans, h.wanted, h.undone, h.automatic)

  -- What the run adds around the loop.
  abbrev around : Ending → Ending
  around r = before (mark_in_progress true ∷ published s "started") (and_duration s job r)

  finish_error :
      (r : Replies) (err : JobError)
      → r.dispatched ≡ some err
      → finish_job s job r ≡ handle_error s job r (classify_placement err)
  unfolding finish_job
  finish_error r err d = ground (arith, d)

  started_run :
      (r : Replies)
      → job.claimed ≡ true
      → r.in_progress_set ≡ true
      → process_job s job r ≡ around (finish_job s job r)
  unfolding process_job
  started_run r c i = simp (c, i) refl

  cleanup_run :
      (r : Replies) (err : JobError)
      → job.claimed ≡ true
      → r.in_progress_set ≡ true
      → r.dispatched ≡ some err
      → IsCleanup job (classify_placement err)
      → process_job s job r ≡ around (persist_cleanup s job cleanup 0 r.cleanup_rounds)
  cleanup_run r err c i d h =
      started_run r c i
      ∙ ap around (finish_error r err d ∙ cleanup_error r (classify_placement err) h)

  around-IsSame : (result : JobResult) (cs : List JobCall) → IsSame (around (result, cs)).1 cs
  unfolding gives_up count_writes
  around-IsSame result cs =
      let post = if is_template_job_type job.job_type then metered s note_duration else [] in
      let first =
        IsSame-before (mark_in_progress true ∷ published s "started") (cs ++ post)
          (started-IsSilent) in
      let last = IsSame-after cs post (duration-IsSilent s (is_template_job_type job.job_type)) in
      record {
        same_end = first.same_end ∙ last.same_end;
        same_writes = λ b. first.same_writes b ∙ last.same_writes b;
      }
    where
      started-IsSilent : IsSilent (mark_in_progress true ∷ published s "started")
      started-IsSilent =
          IsSilent-append (mark_in_progress true ∷ []) (published s "started")
            (either-IsSilent true (mark_in_progress true) refl refl refl)
            (published-IsSilent s "started")

  around-IsKept : (r : Ending) → Ends r → IsKept (around r)
  around-IsKept r (put_back {cs} h) =
      let all = IsSame-HasWrites (around-IsSame succeeded cs) h in (all.keeps, all.wins)
  around-IsKept r (stopped_at {cs} h) =
      let all = IsSame-HasWrites (around-IsSame cleanup_not_scheduled cs) h in (all.keeps, all.wins)
  around-IsKept r (goes_on {cs} h) =
      let all = IsSame-HasWrites (around-IsSame still_scheduling cs) h in (all.keeps, all.wins)

  around-IsPutBack :
      (lost : ℕ) (r : Ending)
      → IsPutBack lost r
      → ((around r).0 ≡ succeeded)
        × (gives_up (around r).1 ≡ false)
        × (count_writes true (around r).1 ≡ 1)
        × (count_writes false (around r).1 ≡ lost)
  around-IsPutBack lost (result, cs) (e, h) =
      let all = IsSame-HasWrites (around-IsSame result cs) h in (e, all.keeps, all.wins, all.losses)

  -- A claimed clean-up job that was set in progress, and whose body fails with an error that is
  -- neither obsolete nor compensated nor left to a person, is never given up, whatever the database
  -- answers: no call of the run marks it failed or completed. It returns nil after one successful
  -- write that puts the job back as a clean-up; or it was stopped, or is still trying, without one.
  pub process_job-IsKept :
      (r : Replies) (err : JobError)
      → job.claimed ≡ true
      → r.in_progress_set ≡ true
      → r.dispatched ≡ some err
      → IsCleanup job (classify_placement err)
      → IsKept (process_job s job r)
  process_job-IsKept r err c i d h = rw (cleanup_run r err c i d h) (
      around-IsKept (persist_cleanup s job cleanup 0 r.cleanup_rounds)
        (persist_cleanup-Ends cleanup 0 r.cleanup_rounds))

  -- Of a claimed clean-up job that was set in progress, and whose body fails with an error that is
  -- neither obsolete nor compensated nor left to a person: after any number of failed writes, the
  -- first write that succeeds puts the job back as a clean-up and ends the run with nil, unless the
  -- worker is stopped before; each failed write was made once, and no call ended the job.
  pub cleanup_scheduled :
      (r : Replies) (err : JobError) (lost : List CleanupRound) (last : CleanupRound)
      (rest : List CleanupRound)
      → job.claimed ≡ true
      → r.in_progress_set ≡ true
      → r.dispatched ≡ some err
      → IsCleanup job (classify_placement err)
      → r.cleanup_rounds ≡ lost ++ last ∷ rest
      → All IsLost lost
      → IsWritten last
      → ((process_job s job r).0 ≡ succeeded)
        × (gives_up (process_job s job r).1 ≡ false)
        × (count_writes true (process_job s job r).1 ≡ 1)
        × (count_writes false (process_job s job r).1 ≡ length lost)
  cleanup_scheduled r err lost last rest c i d h e l w =
      rw (cleanup_run r err c i d h, e)
        (around-IsPutBack (length lost) (persist_cleanup s job cleanup 0 (lost ++ last ∷ rest))
          (persist_cleanup-IsPutBack cleanup 0 lost last rest l w))
